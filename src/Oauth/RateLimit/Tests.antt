-- ===== src/Oauth/RateLimit/Tests.antt =====
-- The rate limits at concrete inputs.
use mcp_gtw.Base.{Bool, false, some, [], ◌∷◌, ◌≡◌, refl, arith, text_eq, length}
use mcp_gtw.Errors.{ok}
use mcp_gtw.Dict.{get, set}
use mcp_gtw.Oauth.RateLimit.{RateLimit, sweep, spend, delay, admit_swept, admit, new_rate_limit}
use mcp_gtw.Oauth.RateLimit.Heap.{entry}
use mcp_gtw.Oauth.RateLimit.Sweep.{alive, IsSwept}
use mcp_gtw.Oauth.RateLimit.Admission.{
  IsLimited, decision, admit-decides, requests_at, requests_at-IsLimited,
}

-- one request in ten, for one key, which has spent it at 5
abbrev limiter : RateLimit
limiter = record {
  requests = 1;
  window_seconds = 10;
  maximum_keys = 1;
  backoff_seconds = 3;
  maximum_backoff_seconds = 30;
  budgets = ("a", record { reset_at = 15; used = 1; denials = 0; blocked_until = 0 }) ∷ [];
  expiry = (15, "a") ∷ [];
}

limiter-IsLimited : IsLimited limiter
unfolding get entry
limiter-IsLimited = record {
  belongs = record {
    heap_order = (tt, (refl, tt));
    tracked = λ k. ground arith;
    early = λ k d b one two. ground arith;
    distinct = (refl, tt);
  };
  bounded = ground arith;
  spent = λ k b e. ground arith;
}

admit-decides_example :
    (x : Bool × RateLimit) × (s : RateLimit) × (admit 16 "b" limiter ≡ some x)
    × IsSwept 16 limiter s
    × (x.0 ≡ decision 16 (alive 16 (get limiter.budgets "b")) (length s.budgets) limiter)
    × IsLimited x.1
admit-decides_example = admit-decides 16 "b" limiter limiter-IsLimited

-- a second request is denied and blocks the key
denied :
    admit 6 "a" limiter
    ≡ some (
      false,
      record limiter {
        budgets = ("a", record { reset_at = 15; used = 1; denials = 1; blocked_until = 9 }) ∷ [];
      },
    )
unfolding admit sweep admit_swept spend delay get set
denied = refl

abbrev new_limiter : RateLimit
new_limiter = record limiter { budgets = []; expiry = [] }

accepted : new_rate_limit 1 10 1 3 30 ≡ ok new_limiter
unfolding new_rate_limit
accepted = refl

requests_at-IsLimited_example :
    (s : RateLimit) × (requests_at ((5, "a") ∷ (6, "a") ∷ (16, "b") ∷ []) new_limiter ≡ some s)
    × IsLimited s
requests_at-IsLimited_example =
    requests_at-IsLimited 1 10 1 3 30 new_limiter ((5, "a") ∷ (6, "a") ∷ (16, "b") ∷ []) accepted
