-- ===== src/Oauth/RateLimit/Heap.antt =====
-- src/mcpgtw/oauth/rate_limit.py: the heap of deadlines, and how it belongs to the budgets.
use mcp_gtw.Base.{
  ℕ, String, true, false, Option, none, some, List, [], ◌∷◌, ◌≡◌, ◌≤◌, ◌<◌, refl, arith, text_eq,
  ◌==◌, ==_iff, ltb, ◌+◌, length, Bool-cases, inl, inr, if◌then◌else◌,
}
use mcp_gtw.Oauth.RateLimit.{precedes, heappush}

abbrev pub Heap : Type 0
Heap = List (ℕ × String)

-- the deadline that the heap has for a key
unfoldable pub entry : Heap → String → Option ℕ
entry [] k = none
entry ((d, j) ∷ heap) k = if j == k then some d else entry heap k

abbrev pub AllFrom : ℕ → Heap → Type 0
AllFrom t [] = Unit
AllFrom t ((d, k) ∷ heap) = (t ≤ d) × AllFrom t heap

abbrev pub IsHeap : Heap → Type 0
IsHeap [] = Unit
IsHeap ((d, k) ∷ heap) = AllFrom d heap × ((entry heap k ≡ none) × IsHeap heap)

-- the entries whose time has come
unfoldable pub due : ℕ → Heap → ℕ
due now [] = 0
due now ((d, k) ∷ heap) = (if ltb now d then 0 else 1) + due now heap

pub due-length : (now : ℕ) (heap : Heap) → due now heap ≤ length heap
unfolding due
due-length now [] = ground arith
due-length now ((d, k) ∷ heap) = ground (arith, due-length now heap)

pub due-heappush :
    (now d : ℕ) (k : String) (heap : Heap)
    → due now (heappush (d, k) heap) ≡ (if ltb now d then 0 else 1) + due now heap
unfolding due heappush
due-heappush now d k [] = refl
due-heappush now d k ((e, j) ∷ heap) = ground (arith, due-heappush now d k heap)

pub entry-heappush :
    (d : ℕ) (k : String) (heap : Heap) (j : String)
    → entry heap k ≡ none
    → entry (heappush (d, k) heap) j ≡ (if k == j then some d else entry heap j)
unfolding entry heappush
entry-heappush d k [] j h = refl
entry-heappush d k ((e, i) ∷ heap) j h =
    ground (arith, entry-heappush d k heap j, ==_iff i k, ==_iff i j, ==_iff k j)

AllFrom-heappush :
    (t d : ℕ) (k : String) (heap : Heap) → t ≤ d → AllFrom t heap → AllFrom t (heappush (d, k) heap)
unfolding heappush
AllFrom-heappush t d k [] le h = (le, tt)
AllFrom-heappush t d k ((e, j) ∷ heap) le h = ground (arith, AllFrom-heappush t d k heap le h.1)

AllFrom-later : (t u : ℕ) (heap : Heap) → t ≤ u → AllFrom u heap → AllFrom t heap
AllFrom-later t u [] le h = tt
AllFrom-later t u ((e, j) ∷ heap) le h = (ground (arith, h.0), AllFrom-later t u heap le h.1)

precedes-le : (d e : ℕ) (k j : String) → precedes (d, k) (e, j) ≡ true → d ≤ e
unfolding precedes
precedes-le d e k j h = ground arith

precedes-false-le : (d e : ℕ) (k j : String) → precedes (d, k) (e, j) ≡ false → e ≤ d
unfolding precedes
precedes-false-le d e k j h = ground arith

pub heappush-IsHeap :
    (d : ℕ) (k : String) (heap : Heap)
    → entry heap k ≡ none
    → IsHeap heap
    → IsHeap (heappush (d, k) heap)
unfolding heappush entry
heappush-IsHeap d k [] absent h = (tt, (refl, tt))
heappush-IsHeap d k ((e, j) ∷ heap) absent h = elim (Bool-cases (precedes (d, k) (e, j))) [
  | inl first ↦
      rw (first, heappush)
        (
          (precedes-le d e k j first, AllFrom-later d e heap (precedes-le d e k j first) h.0),
          (absent, h),
        )
  | inr later ↦
      rw (later, heappush)
        (
          AllFrom-heappush e d k heap (precedes-false-le d e k j later) h.0,
          (
            ground (arith, entry-heappush d k heap j, h.1.0, ==_iff j k, ==_iff k j),
            heappush-IsHeap d k heap (ground arith) h.1.1,
          ),
        )
]

-- past the first entry whose time has not come there is none whose time has
pub not_due :
    (now d : ℕ) (heap : Heap) (k : String) (e : ℕ)
    → now < d
    → AllFrom d heap
    → entry heap k ≡ some e
    → now < e
unfolding entry
not_due now d [] k e lt all found = absurd (ground arith)
not_due now d ((f, j) ∷ heap) k e lt all found = ground (arith, not_due now d heap k e lt all.1)
