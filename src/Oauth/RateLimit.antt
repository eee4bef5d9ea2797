-- ===== src/Oauth/RateLimit.antt =====
-- src/mcpgtw/oauth/rate_limit.py and rate_budget.py: `WindowOAuthRateLimitPolicy`. The heap of
-- `heapq` is a list in the order of its tuples. The loop of `admit` has fuel, one turn for each
-- entry of the heap; `none` is a `KeyError` or a loop that did not end.
pub mod Heap
pub mod Sweep
pub mod Admission
mod Tests
use Prim.Native.Nat.{Ordering}
use Prim.Native.String.{compare as compare_texts}
use mcp_gtw.Base.{
  ℕ, zero, suc, String, Bool, true, false, Option, none, some, List, [], ◌∷◌, text_eq, ◌||◌, ◌&&◌,
  not, ltb, leb, eqb_ℕ, ◌+◌, ◌-◌, ◌*◌, ◌^◌, max, min, length, if◌then◌else◌,
}
use mcp_gtw.Errors.{Result, ok, err, oauth_rate_limit, value_error}
use mcp_gtw.Dict.{Dict, get, set, pop}

pub record RateBudget : Type 0 where
  pub reset_at : ℕ
  pub used : ℕ
  pub denials : ℕ
  pub blocked_until : ℕ

pub record RateLimit : Type 0 where
  pub requests : ℕ
  pub window_seconds : ℕ
  pub maximum_keys : ℕ
  pub backoff_seconds : ℕ
  pub maximum_backoff_seconds : ℕ
  pub budgets : Dict String RateBudget
  pub expiry : List (ℕ × String)

-- `__init__`; that the times are finite is in their type
unfoldable pub new_rate_limit : ℕ → ℕ → ℕ → ℕ → ℕ → Result RateLimit
new_rate_limit requests window_seconds maximum_keys backoff_seconds maximum_backoff_seconds =
    if ltb requests 1
      || (leb window_seconds 0
          || (ltb maximum_keys 1
              || not (ltb 0 backoff_seconds && leb backoff_seconds maximum_backoff_seconds)))
    then err (value_error "Rate limits must be finite and positive")
    else ok (record {
      requests = requests;
      window_seconds = window_seconds;
      maximum_keys = maximum_keys;
      backoff_seconds = backoff_seconds;
      maximum_backoff_seconds = maximum_backoff_seconds;
      budgets = [];
      expiry = [];
    })

-- the order of tuples
unfoldable pub precedes : ℕ × String → ℕ × String → Bool
precedes (d, k) (e, j) =
    ltb d e || (eqb_ℕ d e && elim (compare_texts k j) [ Ordering.lt ↦ true | _ ↦ false ])

unfoldable pub heappush : ℕ × String → List (ℕ × String) → List (ℕ × String)
heappush new [] = new ∷ []
heappush new (entry ∷ heap) =
    if precedes new entry then new ∷ entry ∷ heap else entry ∷ heappush new heap

abbrev pub deadline_of : RateBudget → ℕ
deadline_of b = max b.reset_at b.blocked_until

-- what the loop does with a popped entry
unfoldable pub settle : ℕ → String → RateBudget → List (ℕ × String) → RateLimit → RateLimit
settle now expired budget heap l =
    if ltb now (deadline_of budget)
    then record l { expiry = heappush (deadline_of budget, expired) heap }
    else record l { budgets = pop l.budgets expired; expiry = heap }

-- the key of the first entry, if its time has come, and the rest of the heap
abbrev pub popped : ℕ → List (ℕ × String) → Option (String × List (ℕ × String))
popped now [] = none
popped now ((d, expired) ∷ heap) = if ltb now d then none else some (expired, heap)

unfoldable pub sweep : ℕ → ℕ → RateLimit → Option RateLimit
sweep now zero l = elim (popped now l.expiry) [ none ↦ some l | some entry ↦ none ]
sweep now (suc fuel) l = elim (popped now l.expiry) [
  | none ↦ some l
  | some entry ↦ elim (get l.budgets entry.0) [
    | none ↦ none
    | some budget ↦ sweep now fuel (settle now entry.0 budget entry.1 l)
  ]
]

unfoldable pub delay : RateLimit → RateBudget → ℕ
delay l budget = min l.maximum_backoff_seconds (l.backoff_seconds * 2 ^ min budget.denials 32)

-- the end of `admit`, with the budget of the key
unfoldable pub spend : ℕ → String → RateBudget → RateLimit → Bool × RateLimit
spend now key budget l =
    if ltb now budget.blocked_until
    then (false, l)
    else if leb l.requests budget.used
    then (
      false,
      record l {
        budgets =
            set l.budgets key (record budget {
              denials = suc budget.denials;
              blocked_until = now + delay l budget;
            });
      },
    )
    else (true, record l { budgets = set l.budgets key (record budget { used = suc budget.used }) })

abbrev pub fresh_budget : ℕ → RateLimit → RateBudget
fresh_budget now l = record {
  reset_at = now + l.window_seconds;
  used = 0;
  denials = 0;
  blocked_until = 0;
}

-- `admit` after the loop
unfoldable pub admit_swept : ℕ → String → RateLimit → Bool × RateLimit
admit_swept now key l = elim (get l.budgets key) [
  | some budget ↦ spend now key budget l
  | none ↦
      if leb l.maximum_keys (length l.budgets)
      then (false, l)
      else spend now key (fresh_budget now l) (record l {
        budgets = set l.budgets key (fresh_budget now l);
        expiry = heappush (now + l.window_seconds, key) l.expiry;
      })
]

unfoldable pub admit : ℕ → String → RateLimit → Option (Bool × RateLimit)
admit now key l = elim (sweep now (length l.expiry) l) [
  | none ↦ none
  | some swept ↦ some (admit_swept now key swept)
]

-- `ceil_seconds` is `math.ceil` of a time in seconds
unfoldable pub retry_after : (ℕ → ℕ) → ℕ → String → RateLimit → ℕ
retry_after ceil_seconds now key l = elim (get l.budgets key) [
  | none ↦ max 1 (ceil_seconds (0 - now))
  | some budget ↦ max 1 (ceil_seconds (deadline_of budget - now))
]

unfoldable pub enforce : (ℕ → ℕ) → ℕ → String → RateLimit → Option (Result (Unit {0}) × RateLimit)
enforce ceil_seconds now key l = elim (admit now key l) [
  | none ↦ none
  | some answer ↦ some (
    if answer.0 then ok tt else err (oauth_rate_limit (retry_after ceil_seconds now key answer.1)),
    answer.1,
  )
]
