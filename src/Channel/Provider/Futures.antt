-- ===== src/Channel/Provider/Futures.antt =====
-- The futures of `_pending` under `settle`, `_fail_pending` and the parts of a call.
use mcp_gtw.Base.{
  String, true, Option, some, [], ◌∷◌, ◌≡◌, ◌≢◌, refl, arith, text_eq, ◌==◌, ==_iff, if◌then◌else◌,
}
use mcp_gtw.Errors.{Error}
use mcp_gtw.Dict.{Dict, get, has}
use mcp_gtw.Dict.Laws.{get-set}
use mcp_gtw.Channel.{Pending, Future, waiting, failed}
use mcp_gtw.Channel.Attach.{settle, fail_all}

-- a future after an attempt to set it
abbrev pub settled : Option Future → Future → Option Future
settled (some waiting) outcome = some outcome
settled f outcome = f

pub get-settle :
    (fs : Dict String Future) (k : String) (o : Future) (j : String)
    → get (settle fs k o) j ≡ (if k == j then settled (get fs j) o else get fs j)
unfolding settle
get-settle fs k o j = ground (arith, get-set fs k o j, ==_iff k j)

pub get-fail_all :
    (e : Error) (ps : Dict String Pending) (fs : Dict String Future) (j : String)
    → get (fail_all e ps fs) j ≡ (if has ps j then settled (get fs j) (failed e) else get fs j)
unfolding fail_all get
get-fail_all e [] fs j = refl
get-fail_all e ((k, p) ∷ ps) fs j =
    ground (
      arith,
      get-fail_all e ps (settle fs k (failed e)) j,
      get-settle fs k (failed e) j,
      ==_iff k j,
    )

-- After a failure of all that is pending nobody waits, if every waiting future was pending.
pub fail_all-settles :
    (e : Error) (ps : Dict String Pending) (fs : Dict String Future)
    → ((j : String) → get fs j ≡ some waiting → has ps j ≡ true)
    → (j : String) → get (fail_all e ps fs) j ≢ some waiting
fail_all-settles e ps fs tracked j h = ground (arith, get-fail_all e ps fs j, tracked j)
