-- ===== src/Oauth/Bindings/History.antt =====
-- src/mcpgtw/oauth/session_binding.py: the calls of a running gateway, in the order of the clock.
use mcp_gtw.Base.{
  ℕ, String, Bool, false, [], ◌∷◌, ◌≡◌, ◌≤◌, refl, arith, text_eq, ◌==◌, not, ◌+◌, keep_if,
  length-keep_if,
}
use mcp_gtw.Dict.{get, has}
use mcp_gtw.Dict.Laws.{IsDistinct}
use mcp_gtw.Oauth.Context.{AccessContext, Identity, identity_eq}
use mcp_gtw.Oauth.Bindings.{Bindings, new_bindings, bind, accepts, remove, remove_channel, clear}
use mcp_gtw.Oauth.Bindings.Order.{
  Entries, AllFrom, AllTo, IsAscending, IsOrdered, later-IsOrdered, bind-IsOrdered,
  accepts-IsOrdered, remove-IsOrdered,
}

module _ (p : String × (Identity × ℕ) → Bool) where
  AllFrom-keep_if : (t : ℕ) (d : Entries) → AllFrom t d → AllFrom t (keep_if p d)
  AllFrom-keep_if t [] h = tt
  AllFrom-keep_if t ((k, (i, e)) ∷ rest) h = ground (arith, AllFrom-keep_if t rest h.1)

  AllTo-keep_if : (t : ℕ) (d : Entries) → AllTo t d → AllTo t (keep_if p d)
  AllTo-keep_if t [] h = tt
  AllTo-keep_if t ((k, (i, e)) ∷ rest) h = ground (arith, AllTo-keep_if t rest h.1)

  keep_if-IsAscending : (d : Entries) → IsAscending d → IsAscending (keep_if p d)
  keep_if-IsAscending [] h = tt
  keep_if-IsAscending ((k, (i, e)) ∷ rest) h =
      ground (arith, AllFrom-keep_if e rest h.0, keep_if-IsAscending rest h.1)

  has-keep_if : (d : Entries) (j : String) → has d j ≡ false → has (keep_if p d) j ≡ false
  unfolding get
  has-keep_if [] j h = refl
  has-keep_if ((k, (i, e)) ∷ rest) j h = ground (arith, has-keep_if rest j)

  keep_if-IsDistinct : (d : Entries) → IsDistinct d → IsDistinct (keep_if p d)
  keep_if-IsDistinct [] h = tt
  keep_if-IsDistinct ((k, (i, e)) ∷ rest) h =
      ground (arith, keep_if-IsDistinct rest h.1, has-keep_if rest k)

-- the calls of the store, with the time that each reads from the clock
pub data History (s : Bindings) : ℕ → Bindings → Type 0 where
  start : History s 0 s
  waits : {now : ℕ} {t : Bindings} (later : ℕ) → History s now t → now ≤ later → History s later t
  binds :
      {now : ℕ} {t : Bindings} (id : String) (context : AccessContext)
      → History s now t
      → History s now (bind now id context t).1
  asks :
      {now : ℕ} {t : Bindings} (id : String) (context : AccessContext)
      → History s now t
      → History s now (accepts now id context t).1
  removes : {now : ℕ} {t : Bindings} (id : String) → History s now t → History s now (remove id t)
  removes_channel :
      {now : ℕ} {t : Bindings} (id : String) → History s now t → History s now (remove_channel id t)
  clears : {now : ℕ} {t : Bindings} → History s now t → History s now (clear t)

remove_channel-IsOrdered :
    (now : ℕ) (id : String) (s : Bindings) → IsOrdered now s → IsOrdered now (remove_channel id s)
unfolding remove_channel
remove_channel-IsOrdered now id s h =
    let p : String × (Identity × ℕ) → Bool = λ e. not (e.1.0.channel_id == id) in
    record {
      ascending = keep_if-IsAscending p s.bindings h.ascending;
      no_later = AllTo-keep_if p (now + s.idle_seconds) s.bindings h.no_later;
      distinct = keep_if-IsDistinct p s.bindings h.distinct;
      bounded = ground (arith, length-keep_if p s.bindings, h.bounded);
    }

clear-IsOrdered : (now : ℕ) (s : Bindings) → IsOrdered now (clear s)
unfolding clear
clear-IsOrdered now s = record {
  ascending = tt;
  no_later = tt;
  distinct = tt;
  bounded = ground arith;
}

new_bindings-IsOrdered : (m i : ℕ) → IsOrdered 0 (new_bindings m i)
unfolding new_bindings
new_bindings-IsOrdered m i = record {
  ascending = tt;
  no_later = tt;
  distinct = tt;
  bounded = ground arith;
}

-- Whatever calls of the store follow one another, with a clock that does not go back: the bindings
-- stand in the order of their deadlines, none lies further ahead than the idle time, no session is
-- bound twice, and at most the configured number of sessions is bound.
pub History-IsOrdered :
    (maximum_sessions idle_seconds now : ℕ) (t : Bindings)
    → History (new_bindings maximum_sessions idle_seconds) now t
    → IsOrdered now t
History-IsOrdered m i now t h = go h
  where
    go : {n : ℕ} {u : Bindings} → History (new_bindings m i) n u → IsOrdered n u
    go start = new_bindings-IsOrdered m i
    go (waits {now = n} {t = u} later h' le) = later-IsOrdered n later u le (go h')
    go (binds {now = n} {t = u} id context h') = bind-IsOrdered n id context u (go h')
    go (asks {now = n} {t = u} id context h') = accepts-IsOrdered n id context u (go h')
    go (removes {now = n} {t = u} id h') = remove-IsOrdered n id u (go h')
    go (removes_channel {now = n} {t = u} id h') = remove_channel-IsOrdered n id u (go h')
    go (clears {now = n} {t = u} h') = clear-IsOrdered n u
