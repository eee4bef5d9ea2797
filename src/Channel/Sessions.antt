-- ===== src/Channel/Sessions.antt =====
-- src/mcpgtw/channel.py: the MCP sessions of a channel (`remember_mcp_session`, `_drop_sessions`,
-- `_forget_session`, `_latest_session`, `_notify`, `set_log_level`).
pub mod Bounds
use mcp_gtw.Base.{
  ℕ, zero, suc, String, Bool, true, false, Option, none, some, List, [], ◌∷◌, ◌++◌, ℕ_eq, discard,
  is_empty, length, if◌then◌else◌,
}
use mcp_gtw.Settings.{over_limit}
use mcp_gtw.Dict.{Dict, set, pop, keys}
use mcp_gtw.Channel.{Channel, Session, Subscribers, Note, World, LogLevel}

-- every set without the session, and without the sets that are then empty
unfoldable pub forget_subscriber : ℕ → Dict String Subscribers → Dict String Subscribers
forget_subscriber key [] = []
forget_subscriber key ((uri, s) ∷ d) =
    let rest = forget_subscriber key d in
    let left = discard s.members key in
    if is_empty left then rest else (uri, record s { members = left }) ∷ rest

unfoldable pub forget_session : ℕ → Channel → Channel
forget_session key c = record c {
  log_levels = pop c.log_levels key;
  subscriptions = forget_subscriber key c.subscriptions;
}

-- the loop of `remember_mcp_session`, for as many rounds as there are sessions at most
unfoldable pub evict : ℕ → Channel → Channel
unfolding forget_session
evict zero c = c
evict (suc rounds) c = elim c.mcp_sessions [
  | [] ↦ c
  | (oldest, session) ∷ rest ↦
      let next = evict rounds (forget_session oldest (record c { mcp_sessions = rest })) in
      if over_limit c.settings.maximum_mcp_sessions_per_channel (suc (length rest)) then next else c
]

unfoldable pub remember_mcp_session : Session → Channel → Channel
unfolding evict
remember_mcp_session session c =
    let sessions = set (pop c.mcp_sessions session) session session in
    evict (length sessions) (record c { mcp_sessions = sessions })

unfoldable pub drop_sessions : List ℕ → Channel → Channel
unfolding forget_session
drop_sessions [] c = c
drop_sessions (key ∷ rest) c =
    drop_sessions rest (forget_session key (record c { mcp_sessions = pop c.mcp_sessions key }))

-- the last entry of the dictionary
unfoldable pub latest : Dict ℕ Session → Option Session
latest [] = none
latest ((key, session) ∷ []) = some session
latest ((key, session) ∷ (next ∷ rest)) = latest (next ∷ rest)

unfoldable pub latest_session : Channel → Option Session
unfolding latest
latest_session c = latest c.mcp_sessions

unfoldable pub set_log_level : Session → LogLevel → Channel → Channel
set_log_level session level c = record c { log_levels = set c.log_levels session level }

-- the messages that reach one session, oldest first, and whether all did
unfoldable pub tell : World → Session → List Note → List (Session × Note) × Bool
tell w session [] = ([], true)
tell w session (note ∷ rest) =
    let later = tell w session rest in
    if w.responds session note then ((session, note) ∷ later.0, later.1) else ([], false)

-- the messages that reach the sessions of a snapshot, and the sessions that raised
unfoldable pub sweep : World → List Note → List ℕ → List (Session × Note) × List ℕ
unfolding tell
sweep w notes [] = ([], [])
sweep w notes (key ∷ rest) =
    let (told, alive) = tell w key notes in
    let (later, dead) = sweep w notes rest in (told ++ later, if alive then dead else key ∷ dead)

unfoldable pub notify : World → List Note → Channel → Channel
unfolding sweep drop_sessions
notify w notes c =
    let (told, dead) = sweep w notes (keys c.mcp_sessions) in
    drop_sessions dead (record c { notes = told ++ c.notes })
