-- ===== src/Channel/Provider/Soundness.antt =====
-- The invariant of the provider's side of a channel, operation by operation.
use mcp_gtw.Base.{
  String, true, false, Option, none, some, List, [], ◌≡◌, refl, arith, text_eq, ==_iff, length,
  Bool-cases, Option-cases, inl, inr,
}
use mcp_gtw.Json
use mcp_gtw.Json.{Json, Fields, as_text}
use mcp_gtw.Errors.{Error, ok}
use mcp_gtw.Settings.{over_limit, at_limit}
use mcp_gtw.Dict.{get, has, set, pop}
use mcp_gtw.Dict.Laws.{get-set, get-pop, length-set, length-pop-le}
use mcp_gtw.Libraries.{Libraries}
use mcp_gtw.Channel.{Channel, Socket, Session, Future, waiting, World}
use mcp_gtw.Channel.Attach.{
  attach_locked, detach_locked, close_locked, fail_all, settle, is_replaced,
}
use mcp_gtw.Channel.Registrations.{register_locked}
use mcp_gtw.Channel.Calls.{call_begin, call_end, handle_result, result_outcome}
use mcp_gtw.Channel.Provider.Futures.{fail_all-settles, get-settle}
use mcp_gtw.Channel.Provider.{Side, side}

pub record IsSound (s : Side) : Type 0 where
  -- who waits is pending, so some event can wake it
  pub tracked : (id : String) → get s.futures id ≡ some waiting → has s.pending id ≡ true
  -- without a provider nothing is listed and nothing is pending
  pub no_pending : s.websocket ≡ none → s.pending ≡ []
  pub no_tools : s.websocket ≡ none → s.tools ≡ []
  pub no_resources : s.websocket ≡ none → s.resources ≡ []
  pub no_templates : s.websocket ≡ none → s.resource_templates ≡ []
  pub no_prompts : s.websocket ≡ none → s.prompts ≡ []
  pub bounded : over_limit s.settings.maximum_pending_calls_per_channel (length s.pending) ≡ false

-- `register` changes the registries alone.
register_locked_keeps :
    (lib : Libraries) (registry : String) (items : List Fields) (c c' : Channel)
    → register_locked lib registry items c ≡ ok c'
    → (c'.settings ≡ c.settings)
      × (c'.websocket ≡ c.websocket)
      × (c'.pending ≡ c.pending)
      × (c'.futures ≡ c.futures)
unfolding register_locked
register_locked_keeps lib registry items c c' e = ground arith

module _ (c : Channel) (sound : IsSound (side c)) where
  open sound use {tracked, no_pending, no_tools, no_resources, no_templates, no_prompts, bounded}

  -- the state that `_fail_pending` and `_clear_registries` leave, whatever the socket is then
  emptied-IsSound :
      (e : Error) (websocket : Option Socket)
      → IsSound (record {
        channel_id = c.channel_id;
        mcp_token = c.mcp_token;
        provider_token = c.provider_token;
        settings = c.settings;
        websocket = websocket;
        tools = [];
        resources = [];
        resource_templates = [];
        prompts = [];
        pending = [];
        futures = fail_all e c.pending c.futures;
      })
  unfolding side
  emptied-IsSound e websocket = record {
    tracked = λ id h. absurd (fail_all-settles e c.pending c.futures tracked id h);
    no_pending = λ _. refl;
    no_tools = λ _. refl;
    no_resources = λ _. refl;
    no_templates = λ _. refl;
    no_prompts = λ _. refl;
    bounded = ground arith;
  }

  pub attach_locked-IsSound :
      (websocket : Socket) (provider_id : String) (name : Option String)
      → IsSound (side (attach_locked websocket provider_id name c))
  unfolding attach_locked side
  attach_locked-IsSound ws pid name = elim (Bool-cases (is_replaced c.websocket ws)) [
    | inl e ↦ rw e (emptied-IsSound _ (some ws))
    | inr e ↦ rw e (record {
      tracked = tracked;
      no_pending = λ h. cc;
      no_tools = λ h. cc;
      no_resources = λ h. cc;
      no_templates = λ h. cc;
      no_prompts = λ h. cc;
      bounded = bounded;
    })
  ]

  pub detach_locked-IsSound : IsSound (side (detach_locked c))
  unfolding detach_locked side
  detach_locked-IsSound = emptied-IsSound _ none

  pub close_locked-IsSound : IsSound (side (close_locked c))
  unfolding close_locked side
  close_locked-IsSound = emptied-IsSound _ none

  begun-IsSound :
      (id : String) (session : Option Session) (token : Option Json) (ws : Socket)
      → c.websocket ≡ some ws
      → at_limit c.settings.maximum_pending_calls_per_channel (length c.pending) ≡ false
      → IsSound (
          side (record c {
            pending = set c.pending id (record { session = session; progress_token = token });
            futures = set c.futures id waiting;
          }))
  unfolding side
  begun-IsSound id session token ws online room = record {
    tracked = λ j. ground (
      arith,
      tracked j,
      get-set c.pending id (record { session = session; progress_token = token }) j,
      get-set c.futures id waiting j,
    );
    no_pending = λ h. cc;
    no_tools = λ h. cc;
    no_resources = λ h. cc;
    no_templates = λ h. cc;
    no_prompts = λ h. cc;
    bounded =
        ground
          (arith, length-set c.pending id (record { session = session; progress_token = token }));
  }

  pub call_begin-IsSound :
      (id : String) (session : Option Session) (token : Option Json)
      → IsSound (side (call_begin id session token c).1)
  unfolding call_begin
  call_begin-IsSound id session token = elim (Option-cases c.websocket) [
    | inl e ↦ rw (e, call_begin) sound
    | inr (ws, e) ↦
        elim (Bool-cases
          (at_limit c.settings.maximum_pending_calls_per_channel (length c.pending))) [
            | inl full ↦ rw (e, full, call_begin) sound
            | inr room ↦ rw (e, room, call_begin) (begun-IsSound id session token ws e room)
          ]
  ]

  pub call_end-IsSound : (id : String) → IsSound (side (call_end id c))
  unfolding call_end side
  call_end-IsSound id = record {
    tracked = λ j. ground (arith, tracked j, get-pop c.pending id j, get-pop c.futures id j);
    no_pending = λ h. unfold pop in ground (arith, no_pending h);
    no_tools = no_tools;
    no_resources = no_resources;
    no_templates = no_templates;
    no_prompts = no_prompts;
    bounded = ground (arith, bounded, length-pop-le c.pending id);
  }

  settle-IsSound :
      (id : String) (outcome : Future)
      → has c.pending id ≡ true
      → IsSound (side (record c { futures = settle c.futures id outcome }))
  unfolding side
  settle-IsSound id outcome p = record {
    tracked = λ j. ground (arith, tracked j, get-settle c.futures id outcome j, ==_iff id j);
    no_pending = no_pending;
    no_tools = no_tools;
    no_resources = no_resources;
    no_templates = no_templates;
    no_prompts = no_prompts;
    bounded = bounded;
  }

  pub handle_result-IsSound : (w : World) (m : Fields) → IsSound (side (handle_result w m c).1)
  unfolding handle_result
  handle_result-IsSound w m = elim (Option-cases (as_text (Json.get m "requestId"))) [
    | inl e ↦ rw (e, handle_result) sound
    | inr (id, e) ↦ elim (Bool-cases (has c.pending id)) [
      | inl p ↦ rw (e, p, handle_result) (settle-IsSound id (result_outcome w m) p)
      | inr p ↦ rw (e, p, handle_result) sound
    ]
  ]

  pub register_locked-IsSound :
      (lib : Libraries) (registry : String) (items : List Fields) (c' : Channel) (ws : Socket)
      → c.websocket ≡ some ws
      → register_locked lib registry items c ≡ ok c'
      → IsSound (side c')
  unfolding side
  register_locked-IsSound lib registry items c' ws online e =
      let (a, b, d, f) = register_locked_keeps lib registry items c c' e in
      record {
        tracked = λ id. ground (arith, tracked id);
        no_pending = λ h. cc;
        no_tools = λ h. cc;
        no_resources = λ h. cc;
        no_templates = λ h. cc;
        no_prompts = λ h. cc;
        bounded = rw (a, d) bounded;
      }
