-- ===== src/Oauth/RateLimit/Admission.antt =====
-- src/mcpgtw/oauth/rate_limit.py: what `admit` decides, and the bounds that it keeps.
use mcp_gtw.Base.{
  ℕ, suc, String, Bool, false, Option, none, some, List, [], ◌∷◌, ◌≡◌, ◌≤◌, refl, arith, text_eq,
  ==_iff, ◌&&◌, not, ltb, leb, ◌+◌, length, Bool-cases, Option-cases, inl, inr, ap, subst, sym,
}
use mcp_gtw.Errors.{ok}
use mcp_gtw.Dict.{Dict, get, set}
use mcp_gtw.Dict.Laws.{get-set, set-IsDistinct, length-set}
use mcp_gtw.Oauth.RateLimit.{
  RateBudget, RateLimit, heappush, deadline_of, spend, fresh_budget, admit_swept, admit, delay,
  new_rate_limit,
}
use mcp_gtw.Oauth.RateLimit.Heap.{Heap, entry, due-length, entry-heappush, heappush-IsHeap}
use mcp_gtw.Oauth.RateLimit.Sweep.{alive, IsTracked, IsSwept, sweep-IsSwept}

-- the bounds of a policy
pub record IsLimited (l : RateLimit) : Type 0 where
  pub belongs : IsTracked l.budgets l.expiry
  pub bounded : length l.budgets ≤ l.maximum_keys
  pub spent : (k : String) (b : RateBudget) → get l.budgets k ≡ some b → b.used ≤ l.requests

-- whether a budget admits one more request
abbrev pub has_left : ℕ → ℕ → RateBudget → Bool
has_left now requests b = not (ltb now b.blocked_until) && ltb b.used requests

-- a budget that is changed in place
changed-IsLimited :
    (l : RateLimit) (key : String) (b c : RateBudget)
    → IsLimited l
    → get l.budgets key ≡ some b
    → deadline_of b ≤ deadline_of c
    → c.used ≤ l.requests
    → IsLimited (record l { budgets = set l.budgets key c })
changed-IsLimited l key b c h found later used = record {
  belongs = record {
    heap_order = h.belongs.heap_order;
    tracked = λ k. ground (arith, h.belongs.tracked k, get-set l.budgets key c k, ==_iff key k);
    early = λ k d e one two. ground (
      arith,
      h.belongs.early k d b,
      h.belongs.early k d e,
      get-set l.budgets key c k,
      ==_iff key k,
    );
    distinct = set-IsDistinct l.budgets key c h.belongs.distinct;
  };
  bounded = ground (arith, h.bounded, length-set l.budgets key c);
  spent = λ k e one. ground (arith, h.spent k e, get-set l.budgets key c k);
}

spend-decides :
    (now : ℕ) (key : String) (b : RateBudget) (l : RateLimit)
    → IsLimited l
    → get l.budgets key ≡ some b
    → ((spend now key b l).0 ≡ has_left now l.requests b) × IsLimited (spend now key b l).1
unfolding spend
spend-decides now key b l h found = elim (Bool-cases (ltb now b.blocked_until)) [
  | inl blocked ↦ (ground arith, rw (blocked, spend) h)
  | inr open_now ↦ elim (Bool-cases (leb l.requests b.used)) [
    | inl used_up ↦ (
      ground arith,
      rw (open_now, used_up, spend)
          (changed-IsLimited l key b
            (record b { denials = suc b.denials; blocked_until = now + delay l b }) h found
            (ground arith) (h.spent key b found)),
    )
    | inr left ↦ (
      ground arith,
      rw (open_now, left, spend)
          (changed-IsLimited l key b (record b { used = suc b.used }) h found (ground arith)
            (ground arith)),
    )
  ]
]

-- the limiter with a fresh budget
abbrev opened : ℕ → String → RateLimit → RateLimit
opened now key l = record l {
  budgets = set l.budgets key (fresh_budget now l);
  expiry = heappush (now + l.window_seconds, key) l.expiry;
}

opened-IsLimited :
    (now : ℕ) (key : String) (l : RateLimit)
    → IsLimited l
    → get l.budgets key ≡ none
    → leb l.maximum_keys (length l.budgets) ≡ false
    → IsLimited (opened now key l)
opened-IsLimited now key l h absent room =
    let b = fresh_budget now l in
    let no_entry : entry l.expiry key ≡ none = ground (arith, h.belongs.tracked key) in
    let pushed = λ (k : String). entry-heappush (now + l.window_seconds) key l.expiry k no_entry in
    record {
      belongs = record {
        heap_order =
            heappush-IsHeap (now + l.window_seconds) key l.expiry no_entry h.belongs.heap_order;
        tracked = λ k.
            ground (arith, h.belongs.tracked k, get-set l.budgets key b k, pushed k, ==_iff key k);
        early = λ k d e one two.
            ground
              (arith, h.belongs.early k d e, get-set l.budgets key b k, pushed k, ==_iff key k);
        distinct = set-IsDistinct l.budgets key b h.belongs.distinct;
      };
      bounded = ground (arith, length-set l.budgets key b);
      spent = λ k e one. ground (arith, h.spent k e, get-set l.budgets key b k);
    }

-- whether `admit` admits, by the budget that the key has left and the number of budgets
abbrev pub decision : ℕ → Option RateBudget → ℕ → RateLimit → Bool
decision now (some b) keys l = has_left now l.requests b
decision now none keys l = ltb keys l.maximum_keys && ltb 0 l.requests

admit_swept-decides :
    (now : ℕ) (key : String) (l : RateLimit)
    → IsLimited l
    → ((admit_swept now key l).0 ≡ decision now (get l.budgets key) (length l.budgets) l)
      × IsLimited (admit_swept now key l).1
unfolding admit_swept
admit_swept-decides now key l h = elim (Option-cases (get l.budgets key)) [
  | inr (b, e) ↦ rw (e, admit_swept) (spend-decides now key b l h e)
  | inl e ↦ elim (Bool-cases (leb l.maximum_keys (length l.budgets))) [
    | inl full ↦ (ground arith, rw (e, full, admit_swept) h)
    | inr room ↦
        let b = fresh_budget now l in
        let (answer, limited) =
          spend-decides now key b (opened now key l) (opened-IsLimited now key l h e room)
            (ground (arith, get-set l.budgets key b key, ==_iff key key)) in
        (ground (arith, answer), rw (e, room, admit_swept) limited)
  ]
]

-- `admit` on a limiter within its bounds always answers. It admits a request exactly when the budget
-- of the key is not blocked and has a request left, counting only budgets whose window or block has
-- not passed, or when the key has no such budget, there is room for one more key and a request
-- is allowed at all. Afterwards at most the configured number of keys has a budget, no budget has
-- spent more than the configured number of requests, and the heap belongs to the budgets.
pub admit-decides :
    (now : ℕ) (key : String) (l : RateLimit)
    → IsLimited l
    → (x : Bool × RateLimit) × (s : RateLimit) × (admit now key l ≡ some x)
      × IsSwept now l s
      × (x.0 ≡ decision now (alive now (get l.budgets key)) (length s.budgets) l)
      × IsLimited x.1
unfolding admit
admit-decides now key l h =
    let (s, ends, swept) =
      sweep-IsSwept now (length l.expiry) l h.belongs (due-length now l.expiry) in
    let limited : IsLimited s = record {
      belongs = swept.0;
      bounded = ground (arith, swept.3, swept.4, h.bounded);
      spent = λ k b e. ground (arith, swept.1 k, swept.2, h.spent k b);
    } in
    let (answer, after) = admit_swept-decides now key s limited in
    (
      admit_swept now key s,
      s,
      rw (ends, admit) refl,
      swept,
      ground (arith, answer, swept.1 key, swept.2, swept.3),
      after,
    )

new_rate_limit-IsLimited :
    (requests window keys backoff longest : ℕ) (l : RateLimit)
    → new_rate_limit requests window keys backoff longest ≡ ok l
    → IsLimited l
unfolding new_rate_limit get entry
new_rate_limit-IsLimited requests window keys backoff longest l e =
    let no_budgets : l.budgets ≡ [] = ground arith in
    let no_entries : l.expiry ≡ [] = ground arith in
    record {
      belongs =
          subst (λ (x : Heap). IsTracked l.budgets x) (sym no_entries)
            (subst (λ (x : Dict String RateBudget). IsTracked x []) (sym no_budgets)
              (record {
                heap_order = tt;
                tracked = λ k. refl;
                early = λ k d b one two. absurd (ground arith);
                distinct = tt;
              }));
      bounded = ground (arith, ap (λ (x : Dict String RateBudget). length x) no_budgets);
      spent =
          λ k b q. absurd (ground (arith, ap (λ (x : Dict String RateBudget). get x k) no_budgets));
    }

-- requests at their times, one after the other
unfoldable pub requests_at : List (ℕ × String) → RateLimit → Option RateLimit
requests_at [] l = some l
requests_at ((now, key) ∷ rest) l = elim (admit now key l) [
  | none ↦ none
  | some answer ↦ requests_at rest answer.1
]

run :
    (calls : List (ℕ × String)) (l : RateLimit)
    → IsLimited l
    → (s : RateLimit) × (requests_at calls l ≡ some s) × IsLimited s
unfolding requests_at
run [] l h = (l, refl, h)
run ((now, key) ∷ rest) l h =
    let (x, s, answers, swept, answer, limited) = admit-decides now key l h in
    let (last, ends, kept) = run rest x.1 limited in (last, rw (answers, requests_at) ends, kept)

-- Whatever limits the constructor accepts, and whatever requests come at whatever times: each is
-- answered, without a `KeyError` and without a loop that does not end, and the policy stays within
-- its bounds.
pub requests_at-IsLimited :
    (requests window keys backoff longest : ℕ) (l : RateLimit) (calls : List (ℕ × String))
    → new_rate_limit requests window keys backoff longest ≡ ok l
    → (s : RateLimit) × (requests_at calls l ≡ some s) × IsLimited s
requests_at-IsLimited requests window keys backoff longest l calls e =
    run calls l (new_rate_limit-IsLimited requests window keys backoff longest l e)
