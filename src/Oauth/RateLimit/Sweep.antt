-- ===== src/Oauth/RateLimit/Sweep.antt =====
-- src/mcpgtw/oauth/rate_limit.py: the loop of `admit` drops exactly the budgets whose window and whose
-- block have passed.
use mcp_gtw.Base.{
  ℕ, zero, suc, String, false, Option, none, some, [], ◌∷◌, ◌≡◌, ◌≤◌, ◌<◌, refl, arith, text_eq,
  ◌==◌, ==_iff, ltb, length, is_some, Bool-cases, Option-cases, inl, inr, ap, subst, ◌∙◌,
  if◌then◌else◌,
}
use mcp_gtw.Dict.{Dict, get, has, pop}
use mcp_gtw.Dict.Laws.{get-pop, IsDistinct, pop-IsDistinct, length-pop-le}
use mcp_gtw.Oauth.RateLimit.{RateBudget, RateLimit, heappush, deadline_of, settle, popped, sweep}
use mcp_gtw.Oauth.RateLimit.Heap.{
  Heap, entry, IsHeap, due, due-heappush, entry-heappush, heappush-IsHeap, not_due,
}

-- a budget that still counts
abbrev pub alive : ℕ → Option RateBudget → Option RateBudget
alive now none = none
alive now (some b) = if ltb now (deadline_of b) then some b else none

-- the heap belongs to the budgets: one entry for each, not later than its deadline
pub record IsTracked (budgets : Dict String RateBudget) (heap : Heap) : Type 0 where
  pub heap_order : IsHeap heap
  pub tracked : (k : String) → is_some (entry heap k) ≡ has budgets k
  pub early :
      (k : String) (d : ℕ) (b : RateBudget)
      → entry heap k ≡ some d
      → get budgets k ≡ some b
      → d ≤ deadline_of b
  pub distinct : IsDistinct budgets

module _ (now d : ℕ) (expired : String) (heap : Heap) (budgets : Dict String RateBudget)
    (b : RateBudget) (h : IsTracked budgets ((d, expired) ∷ heap))
    (found : get budgets expired ≡ some b) where
  dropped-IsTracked : IsTracked (pop budgets expired) heap
  unfolding entry
  dropped-IsTracked = record {
    heap_order = h.heap_order.1.1;
    tracked = λ k.
        ground (arith, h.tracked k, get-pop budgets expired k, h.heap_order.1.0, ==_iff expired k);
    early = λ k e c one two.
        ground
          (arith, h.early k e c, get-pop budgets expired k, ==_iff expired k, h.heap_order.1.0);
    distinct = pop-IsDistinct budgets expired h.distinct;
  }

  pushed-IsTracked : IsTracked budgets (heappush (deadline_of b, expired) heap)
  unfolding entry
  pushed-IsTracked =
      let absent = h.heap_order.1.0 in
      let pushed = λ (k : String). entry-heappush (deadline_of b) expired heap k absent in
      record {
        heap_order = heappush-IsHeap (deadline_of b) expired heap absent h.heap_order.1.1;
        tracked = λ k. ground (arith, h.tracked k, pushed k, found, ==_iff expired k);
        early = λ k e c one two. ground (arith, h.early k e c, pushed k, found, ==_iff expired k);
        distinct = h.distinct;
      }

-- behind a first entry whose time has not come stand only such entries
entries_later :
    (now : ℕ) (heap : Heap)
    → IsHeap heap
    → popped now heap ≡ none
    → (k : String) (d : ℕ) → entry heap k ≡ some d
    → now < d
unfolding entry
entries_later now [] h e k d q = absurd (ground arith)
entries_later now ((c, j) ∷ heap) h e k d q = elim (Bool-cases (j == k)) [
  | inl same ↦ ground arith
  | inr other ↦ not_due now c heap k d (ground arith) h.0 (ground arith)
]

-- nothing is due at the front, so nothing is due at all
none_due :
    (now : ℕ) (l : RateLimit)
    → IsTracked l.budgets l.expiry
    → popped now l.expiry ≡ none
    → (k : String) → get l.budgets k ≡ alive now (get l.budgets k)
none_due now l h none_popped k = elim (Option-cases (get l.budgets k)) [
  | inl e ↦ ground arith
  | inr (b, e) ↦ elim (Option-cases (entry l.expiry k)) [
    | inl q ↦ absurd (ground (arith, h.tracked k))
    | inr (d, q) ↦
        ground (arith, h.early k d b q e, entries_later now l.expiry h.heap_order none_popped k d q)
  ]
]

-- what the loop promises
abbrev pub IsSwept : ℕ → RateLimit → RateLimit → Type 0
IsSwept now l s =
    IsTracked s.budgets s.expiry
    × ((k : String) → get s.budgets k ≡ alive now (get l.budgets k))
    × (s.requests ≡ l.requests)
    × (s.maximum_keys ≡ l.maximum_keys)
    × (length s.budgets ≤ length l.budgets)

-- what a turn keeps
abbrev Keeps : ℕ → RateLimit → RateLimit → Type 0
Keeps now l s =
    IsTracked s.budgets s.expiry
    × ((k : String) → alive now (get s.budgets k) ≡ alive now (get l.budgets k))
    × (s.requests ≡ l.requests)
    × (s.maximum_keys ≡ l.maximum_keys)
    × (length s.budgets ≤ length l.budgets)
    × (suc (due now s.expiry) ≤ due now l.expiry)

settle-Keeps :
    (now : ℕ) (l : RateLimit) (d : ℕ) (expired : String) (heap : Heap) (b : RateBudget)
    → l.expiry ≡ (d, expired) ∷ heap
    → ltb now d ≡ false
    → IsTracked l.budgets ((d, expired) ∷ heap)
    → get l.budgets expired ≡ some b
    → Keeps now l (settle now expired b heap l)
unfolding settle
settle-Keeps now l d expired heap b front come h found =
    let count : due now l.expiry ≡ suc (due now heap) =
      ap (λ (x : Heap). due now x) front ∙ unfold due in ground arith in
    elim (Bool-cases (ltb now (deadline_of b))) [
      | inl lives ↦
          rw (lives, settle)
            (
              pushed-IsTracked now d expired heap l.budgets b h found,
              λ k. refl,
              refl,
              refl,
              ground arith,
              ground (arith, due-heappush now (deadline_of b) expired heap),
            )
      | inr dead ↦
          rw (dead, settle)
            (
              dropped-IsTracked now d expired heap l.budgets b h found,
              λ k. ground (arith, get-pop l.budgets expired k, ==_iff expired k),
              refl,
              refl,
              length-pop-le l.budgets expired,
              ground arith,
            )
    ]

popped_front :
    (now : ℕ) (heap : Heap) (k : String) (rest : Heap)
    → popped now heap ≡ some (k, rest)
    → (d : ℕ) × (heap ≡ (d, k) ∷ rest) × (ltb now d ≡ false)
popped_front now [] k rest e = absurd (ground arith)
popped_front now ((d, j) ∷ heap) k rest e = (d, ground arith, ground arith)

-- The loop of `admit` ends, without a `KeyError`, within one turn for each entry of the heap. It
-- drops exactly the budgets whose window and whose block have passed, leaves the others as they
-- are, and the heap belongs to what is left.
pub sweep-IsSwept :
    (now fuel : ℕ) (l : RateLimit)
    → IsTracked l.budgets l.expiry
    → due now l.expiry ≤ fuel
    → (s : RateLimit) × (sweep now fuel l ≡ some s) × IsSwept now l s
unfolding sweep
sweep-IsSwept now zero l h enough = elim (Option-cases (popped now l.expiry)) [
  | inl e ↦ (l, rw (e, sweep) refl, (h, none_due now l h e, refl, refl, ground arith))
  | inr (front, e) ↦
      let (d, is_front, come) = popped_front now l.expiry front.0 front.1 e in
      let count : due now l.expiry ≡ due now ((d, front.0) ∷ front.1) =
        ap (λ (x : Heap). due now x) is_front in
      absurd (unfold due in ground (arith, count))
]
sweep-IsSwept now (suc fuel) l h enough = elim (Option-cases (popped now l.expiry)) [
  | inl e ↦ (l, rw (e, sweep) refl, (h, none_due now l h e, refl, refl, ground arith))
  | inr (front, e) ↦
      let (d, is_front, come) = popped_front now l.expiry front.0 front.1 e in
      let tracked : IsTracked l.budgets ((d, front.0) ∷ front.1) =
        subst (λ (x : Heap). IsTracked l.budgets x) is_front h in
      elim (Option-cases (get l.budgets front.0)) [
        | inl q ↦
            absurd (unfold entry in ground (arith, tracked.tracked front.0, ==_iff front.0 front.0))
        | inr (b, q) ↦
            let (still, kept, requests, keys, shorter, fewer) =
              settle-Keeps now l d front.0 front.1 b is_front come tracked q in
            let next = settle now front.0 b front.1 l in
            let (s, ends, swept) = sweep-IsSwept now fuel next still (ground arith) in
            (
              s,
              rw (e, q, sweep) ends,
              (
                swept.0,
                λ k. swept.1 k ∙ kept k,
                swept.2 ∙ requests,
                swept.3 ∙ keys,
                ground (arith, swept.4, shorter),
              ),
            )
      ]
]
