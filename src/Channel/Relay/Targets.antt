-- ===== src/Channel/Relay/Targets.antt =====
-- Which sessions a provider reaches.
use mcp_gtw.Base.{
  ℕ, String, Bool, true, false, not, ◌&&◌, some, List, [], ◌∷◌, ◌≡◌, refl, arith, map, keep_if, ltb,
  if◌then◌else◌, ap, text_eq, ℕ_eq, Option-cases, inl, inr,
}
use mcp_gtw.Json.{Json, text, null}
use mcp_gtw.Dict.{Dict, get}
use mcp_gtw.Channel.{Channel, Session, Note, World, LogLevel, Pending}
use mcp_gtw.Channel.Relay.{
  oauth_enabled, has_token_auth, originating_session, call_target, rank, session_level, log_sweep,
}

-- the request that a provider's call names, with the session that made it
pub record NamesRequest (origin : Json) (c : Channel) (session : Session) : Type 0 where
  pub request_id : String
  pub pending : Pending
  pub named : origin ≡ text request_id
  pub open_request : get c.pending request_id ≡ some pending
  pub made_by : pending.session ≡ some session

originating_session-Names :
    (origin : Json) (c : Channel) (session : Session)
    → originating_session c origin ≡ some session
    → NamesRequest origin c session
originating_session-Names (text id) c session h = elim (Option-cases (get c.pending id)) [
  | inl e ↦ absurd (ground (arith, h, e))
  | inr (p, e) ↦ record {
    request_id = id;
    pending = p;
    named = refl;
    open_request = e;
    made_by = ground (arith, h, e);
  }
]
originating_session-Names null c session h = cc
originating_session-Names _ c session h = cc

-- Where OAuth is on and the channel is not one with token access, a provider's call reaches a
-- session only through a pending request that the call names and that this session made.
pub call_target-NamesRequest :
    (origin : Json) (c : Channel) (session : Session)
    → oauth_enabled c.settings.oauth_mode ≡ true
    → has_token_auth c.metadata ≡ false
    → call_target origin c ≡ some session
    → NamesRequest origin c session
unfolding call_target
call_target-NamesRequest origin c session on no_token h =
    originating_session-Names origin c session (ground (arith, h, on, no_token))

-- the sessions of a snapshot that want a message of the level
abbrev pub wants : Dict ℕ LogLevel → LogLevel → ℕ → Bool
wants levels level key = not (ltb (rank level) (rank (session_level levels key)))

-- one turn of the sweep, by its two tests
sweep_turn :
    (below answers : Bool) (key : ℕ) (note : Note) (told : List (Session × Note))
    (dead reached raised : List ℕ)
    → told ≡ map (λ k. (k, note)) reached
    → dead ≡ raised
    → let r : List (Session × Note) × List ℕ =
        (if below
          then (told, dead)
          else if answers
          then ((key, note) ∷ told, dead)
          else (told, key ∷ dead)) in
      (r.0 ≡ map (λ k. (k, note)) (if not below && answers then key ∷ reached else reached))
      × (r.1 ≡ (if not below && not answers then key ∷ raised else raised))
sweep_turn true answers key note told dead reached raised p q = (p, q)
sweep_turn false true key note told dead reached raised p q = (ap (λ l. (key, note) ∷ l) p, q)
sweep_turn false false key note told dead reached raised p q = (p, ap (λ l. key ∷ l) q)

-- A log message goes to exactly the sessions whose level it reaches and that answer, in order, and
-- the sessions whose level it reaches and that raise are the ones that are dropped.
log_sweep-keep_if :
    (w : World) (levels : Dict ℕ LogLevel) (level : LogLevel) (note : Note) (keys : List ℕ)
    → ((log_sweep w levels level note keys).0
        ≡ map
            (λ key. (key, note))
            (keep_if (λ key. wants levels level key && w.responds key note) keys))
      × ((log_sweep w levels level note keys).1
          ≡ keep_if (λ key. wants levels level key && not (w.responds key note)) keys)
unfolding log_sweep
log_sweep-keep_if w levels level note [] = (refl, refl)
log_sweep-keep_if w levels level note (key ∷ rest) =
    let (told, dead) = log_sweep-keep_if w levels level note rest in
    sweep_turn (ltb (rank level) (rank (session_level levels key))) (w.responds key note) key note
      (log_sweep w levels level note rest).0 (log_sweep w levels level note rest).1
      (keep_if (λ k. wants levels level k && w.responds k note) rest)
      (keep_if (λ k. wants levels level k && not (w.responds k note)) rest) told dead
