-- ===== src/Gateway/Provider/Frames.antt =====
-- src/mcpgtw/gateway.py: what one message of a provider does.
use mcp_gtw.Base.{
  ℕ, ◌≤◌, String, Bool, true, false, Option, none, some, List, [], ◌∷◌, ◌≡◌, refl, ap, ◌∙◌, arith,
  ltb, length, ℕ_eq, ◌==◌, ==_refl,
}
use mcp_gtw.Json.{Json}
use mcp_gtw.Json.Text.{utf8_size}
use mcp_gtw.Errors.{
  Error, Result, ok, err, configuration, channel_offline, channel_replaced, provider_message,
  provider_request, channel_capacity, oauth_rate_limit, value_error, other, mcp_access,
}
use mcp_gtw.Protocol
use mcp_gtw.Codec.{decode}
use mcp_gtw.Channel.{Channel, Socket}
use mcp_gtw.Channel.Attach.{is_current}
use mcp_gtw.Channel.Relay.{ended}
use mcp_gtw.Channel.Calls.{send_to_provider, send_locked}
use mcp_gtw.Gateway.Provider.{
  ProviderEnv, ProviderState, text_message, Ending, running, returned, raised, publish,
  close_websocket, message_too_large, answer_error, handle_provider_frame, turn_end, turn,
}

length-utf8_size : (cs : List ℕ) → length cs ≤ utf8_size cs
unfolding utf8_size
length-utf8_size [] = omega arith
length-utf8_size (c ∷ cs) = ground (arith, length-utf8_size cs)

-- the test of a text is the one of its size in bytes
message_too_large-utf8_size :
    (maximum : ℕ) (cs : List ℕ)
    → message_too_large maximum (text_message cs) ≡ ltb maximum (utf8_size cs)
unfolding message_too_large
message_too_large-utf8_size maximum cs = ground (arith, length-utf8_size cs)

-- an exception that a provider's frame may end the connection with
abbrev pub ends_connection : Error → Bool
ends_connection (value_error message) = false
ends_connection (provider_message message) = false
ends_connection e = true

abbrev pub is_fatal : Option (Result (Unit {0})) → Bool
is_fatal none = true
is_fatal (some (ok done)) = true
is_fatal (some (err e)) = ends_connection e

-- an ending that is not due to a frame that was malformed
abbrev pub is_excused : Ending → Bool
is_excused (raised e) = ends_connection e
is_excused _ = true

module _ (env : ProviderEnv) (websocket : Socket) where
  send_to_provider-is_fatal :
      (message : Json) (c : Channel)
      → is_fatal (some (send_to_provider env.world message c).0) ≡ true
  unfolding send_to_provider send_locked
  send_to_provider-is_fatal message c = ground arith

  answer_error-is_fatal :
      (o : Option (Result (Unit {0})) × Channel) → is_fatal (answer_error env websocket o).0 ≡ true
  unfolding answer_error
  answer_error-is_fatal (none, c) = refl
  answer_error-is_fatal (some (ok done), c) = refl
  answer_error-is_fatal (some (err (value_error m)), c) = send_to_provider-is_fatal _ c
  answer_error-is_fatal (some (err (provider_message m)), c) = send_to_provider-is_fatal _ c
  answer_error-is_fatal (some (err (configuration m)), c) = refl
  answer_error-is_fatal (some (err (channel_offline m)), c) = refl
  answer_error-is_fatal (some (err (channel_replaced m)), c) = refl
  answer_error-is_fatal (some (err (provider_request m)), c) = refl
  answer_error-is_fatal (some (err (channel_capacity m)), c) = refl
  answer_error-is_fatal (some (err (oauth_rate_limit n)), c) = refl
  answer_error-is_fatal (some (err (mcp_access m)), c) = refl
  answer_error-is_fatal (some (err (other m)), c) = refl

  is_excused-turn_end :
      (outcome : Option (Result (Unit {0})))
      → is_fatal outcome ≡ true
      → is_excused (turn_end env websocket outcome) ≡ true
  unfolding turn_end
  is_excused-turn_end none h = refl
  is_excused-turn_end (some (ok done)) h = refl
  is_excused-turn_end (some (err (value_error m))) h = cc
  is_excused-turn_end (some (err (provider_message m))) h = cc
  is_excused-turn_end (some (err (configuration m))) h = refl
  is_excused-turn_end (some (err (channel_offline m))) h = refl
  is_excused-turn_end (some (err (channel_replaced m))) h = refl
  is_excused-turn_end (some (err (provider_request m))) h = refl
  is_excused-turn_end (some (err (channel_capacity m))) h = refl
  is_excused-turn_end (some (err (oauth_rate_limit n))) h = refl
  is_excused-turn_end (some (err (mcp_access m))) h = refl
  is_excused-turn_end (some (err (other m))) h = refl

  turn-fits :
      (cs : List ℕ) (s : ProviderState)
      → ltb env.maximum_websocket_message_bytes (utf8_size cs) ≡ false
      → ◌≡◌ {A = Ending × ProviderState} (turn env websocket (text_message cs) s) (
        turn_end env websocket (handle_provider_frame env websocket (some cs) s.channel).0,
        publish (handle_provider_frame env websocket (some cs) s.channel).1 s,
      )
  unfolding turn
  turn-fits cs s fits =
      rw (message_too_large-utf8_size env.maximum_websocket_message_bytes cs ∙ fits, turn) refl

  send_to_provider-delivers :
      (message : Json) (c : Channel)
      → c.websocket ≡ some websocket
      → env.world.delivers websocket message ≡ true
      → ◌≡◌ {A = Result (Unit {0}) × Channel}
          (send_to_provider env.world message c)
          (ok tt, record c { sent = (websocket, message) ∷ c.sent })
  unfolding send_to_provider send_locked is_current
  send_to_provider-delivers message c current delivers =
      ap
        (λ (o : Option Socket). elim o [
          | none ↦ (err (channel_offline "No channel provider is connected"), c)
          | some target ↦ send_locked env.world target message c
        ])
        current
      ∙ rw (is_current-websocket, delivers, send_locked) refl
    where
      is_current-websocket : is_current c websocket ≡ true
      is_current-websocket =
          ap (λ (o : Option Socket). elim o [ none ↦ false | some s ↦ s == websocket ]) current
          ∙ ==_refl websocket

  handle_provider_frame-is_fatal :
      (text : Option (List ℕ)) (c : Channel)
      → is_fatal (handle_provider_frame env websocket text c).0 ≡ true
  unfolding handle_provider_frame
  handle_provider_frame-is_fatal text c = answer_error-is_fatal _

  handle_provider_frame-undecoded :
      (text : Option (List ℕ)) (c : Channel) (reason : String)
      → decode env.loads env.maximum_json_depth text ≡ err (value_error reason)
      → ◌≡◌ {A = Option (Result (Unit {0})) × Channel}
          (handle_provider_frame env websocket text c)
          (ended (send_to_provider env.world (Protocol.protocol_error reason) c))
  unfolding handle_provider_frame answer_error
  handle_provider_frame-undecoded text c reason undecoded =
      rw (undecoded, handle_provider_frame) refl

  turn_end-ok :
      (s : ProviderState)
      → ◌≡◌ {A = Ending × ProviderState} (turn_end env websocket (some (ok tt)), s) (running, s)
  unfolding turn_end
  turn_end-ok s = refl

-- A text message of the provider is measured by its bytes in UTF-8. One above the maximum closes the
-- websocket with code 1009, ends the pump and changes nothing else. For any other, neither a
-- `ValueError` nor a `ProviderMessageError` leaves the pump, and one that does not decode is answered
-- with the protocol error that tells why, after which the pump goes on, if its sender is the current
-- provider and the answer can be delivered.
pub turn-text_message :
    (env : ProviderEnv) (websocket : Socket) (cs : List ℕ) (s : ProviderState)
    → (ltb env.maximum_websocket_message_bytes (utf8_size cs) ≡ true
        → ◌≡◌ {A = Ending × ProviderState}
            (turn env websocket (text_message cs) s)
            (returned, close_websocket 1009 "Message too large" s))
      × (ltb env.maximum_websocket_message_bytes (utf8_size cs) ≡ false
          → (is_excused (turn env websocket (text_message cs) s).0 ≡ true)
            × ((reason : String)
                → decode env.loads env.maximum_json_depth (some cs) ≡ err (value_error reason)
                → s.channel.websocket ≡ some websocket
                → env.world.delivers websocket (Protocol.protocol_error reason) ≡ true
                → ◌≡◌ {A = Ending × ProviderState} (turn env websocket (text_message cs) s) (
                  running,
                  publish
                      (record s.channel {
                        sent = (websocket, Protocol.protocol_error reason) ∷ s.channel.sent;
                      })
                      s,
                )))
unfolding turn
turn-text_message env websocket cs s = (
  λ large.
      rw (message_too_large-utf8_size env.maximum_websocket_message_bytes cs ∙ large, turn) refl,
  λ fits. (
    rw (turn-fits env websocket cs s fits) (
        is_excused-turn_end env websocket
          (handle_provider_frame env websocket (some cs) s.channel).0
          (handle_provider_frame-is_fatal env websocket (some cs) s.channel)),
    λ reason undecoded current delivers.
        turn-fits env websocket cs s fits
        ∙ ap
            (λ (o : Option (Result (Unit {0})) × Channel).
              (turn_end env websocket o.0, publish o.1 s))
            (handle_provider_frame-undecoded env websocket (some cs) s.channel reason undecoded
              ∙ ap ended (
                  send_to_provider-delivers env websocket (Protocol.protocol_error reason) s.channel
                    current delivers))
        ∙ turn_end-ok env websocket _,
  ),
)
