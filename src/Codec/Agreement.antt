-- ===== src/Codec/Agreement.antt =====
-- src/mcpgtw/codec.py: the scanner on the text of a JSON value stops early exactly when the value
-- nests too deep, and `decode` accepts exactly the other objects.
use mcp_gtw.Base.{
  ℕ, String, suc, true, false, Option, none, some, List, [], ◌∷◌, ◌++◌, ◌≡◌, ◌≤◌, refl, arith,
  eqb_ℕ, ◌||◌, ltb, ◌+◌, max, Bool-cases, inl, inr, ap, ◌∙◌, if◌then◌else◌,
}
use mcp_gtw.Json.{
  Json, Items, Fields, null, boolean, number, text, array, object, nil, cons, done, field,
}
use mcp_gtw.Json.Text.{codes, quoted, dumps, dumps_items, dumps_fields}
use mcp_gtw.Errors.{Result, err, value_error}
use mcp_gtw.Libraries.{Parsed, valid}
use mcp_gtw.Codec.{ℤ, pos, Scan, turn, scan, plain, exceeds_depth, decode, parsed_object}
use mcp_gtw.Codec.Depth.{
  depth, depth_items, depth_fields, HasNumerals, ItemsHaveNumerals, FieldsHaveNumerals, then_scan,
  scan-append, scan-numeral, scan-quoted,
}

module _ (maximum : ℕ) where
  -- the scan of a piece that nests `k` deep and leaves the depth at `v`
  abbrev reaches : ℕ → ℕ → Option Scan
  reaches k v = if ltb maximum k then none else some (plain (pos v))

  word :
      (cs : List ℕ) (u : ℕ)
      → u ≤ maximum
      → scan maximum cs (plain (pos u)) ≡ some (plain (pos u))
      → scan maximum cs (plain (pos u)) ≡ reaches (u + 0) u
  word cs u le e = ground (arith, e)

  -- a piece and what follows it
  follow :
      (xs ys : List ℕ) (u k m v : ℕ)
      → scan maximum xs (plain (pos u)) ≡ reaches k u
      → scan maximum ys (plain (pos u)) ≡ reaches m v
      → scan maximum (xs ++ ys) (plain (pos u)) ≡ reaches (max k m) v
  unfolding then_scan
  follow xs ys u k m v one two =
      scan-append maximum xs ys (plain (pos u))
      ∙ ap (λ o. then_scan maximum ys o) one
      ∙ elim (Bool-cases (ltb maximum k)) [
        | inl over ↦ ground arith
        | inr within ↦ ground (arith, two)
      ]

  -- the end of an array or an object
  closing :
      (xs ys : List ℕ) (u k m v d : ℕ)
      → max k m ≡ d
      → scan maximum xs (plain (pos u)) ≡ reaches k u
      → scan maximum ys (plain (pos u)) ≡ reaches m v
      → scan maximum (xs ++ ys) (plain (pos u)) ≡ reaches d v
  closing xs ys u k m v d e one two = follow xs ys u k m v one two ∙ ap (λ n. reaches n v) e

  -- an array or an object from its opening bracket on
  opening :
      (c : ℕ) (xs : List ℕ) (u k : ℕ)
      → (eqb_ℕ c 91 || eqb_ℕ c 123) ≡ true
      → eqb_ℕ c 34 ≡ false
      → (suc u ≤ maximum → scan maximum xs (plain (pos (suc u))) ≡ reaches (suc u + k) u)
      → scan maximum (c ∷ xs) (plain (pos u)) ≡ reaches (u + suc k) u
  unfolding scan turn
  opening c xs u k bracket no_quote rest = elim (Bool-cases (ltb maximum (suc u))) [
    | inl over ↦ rw (no_quote, bracket, over, scan, turn) (ground arith)
    | inr within ↦
        rw (no_quote, bracket, within, scan, turn)
          (rest (ground arith) ∙ ap (λ n. reaches n u) (omega arith))
  ]

  key :
      (k : String) (rest : List ℕ) (d : ℤ)
      → scan maximum (quoted (codes k) ++ 58 ∷ rest) (plain d) ≡ scan maximum rest (plain d)
  unfolding then_scan scan turn
  key k rest d =
      scan-append maximum (quoted (codes k)) (58 ∷ rest) (plain d)
      ∙ ap (λ o. then_scan maximum (58 ∷ rest) o) (scan-quoted maximum (codes k) d)

  mutual
    unfolding dumps scan turn depth HasNumerals

    scan-dumps :
        (v : Json) (u : ℕ)
        → HasNumerals v
        → u ≤ maximum
        → scan maximum (dumps v) (plain (pos u)) ≡ reaches (u + depth v) u
    scan-dumps null u h le = word (codes "null") u le refl
    scan-dumps (boolean true) u h le = word (codes "true") u le refl
    scan-dumps (boolean false) u h le = word (codes "false") u le refl
    scan-dumps (number n) u h le = word n u le (scan-numeral maximum n (pos u) h)
    scan-dumps (text s) u h le =
        word (quoted (codes s)) u le (scan-quoted maximum (codes s) (pos u))
    scan-dumps (array xs) u h le =
        opening 91 (dumps_items xs) u (depth_items xs) refl refl (λ lt. scan-items xs u h lt)
    scan-dumps (object fs) u h le =
        opening 123 (dumps_fields fs) u (depth_fields fs) refl refl (λ lt. scan-fields fs u h lt)

    scan-items :
        (xs : Items) (u : ℕ)
        → ItemsHaveNumerals xs
        → suc u ≤ maximum
        → scan maximum (dumps_items xs) (plain (pos (suc u))) ≡ reaches (suc u + depth_items xs) u
    scan-items nil u h le = ground arith
    scan-items (cons v nil) u h le =
        closing (dumps v) (93 ∷ []) (suc u) (suc u + depth v) (suc u) u
          (suc u + depth_items (cons v nil)) (omega arith) (scan-dumps v (suc u) h.0 le)
          (ground arith)
    scan-items (cons v (cons w xs)) u h le =
        closing (dumps v) (44 ∷ dumps_items (cons w xs)) (suc u) (suc u + depth v)
          (suc u + depth_items (cons w xs)) u (suc u + depth_items (cons v (cons w xs)))
          (omega arith) (scan-dumps v (suc u) h.0 le) (scan-items (cons w xs) u h.1 le)

    scan-fields :
        (fs : Fields) (u : ℕ)
        → FieldsHaveNumerals fs
        → suc u ≤ maximum
        → scan maximum (dumps_fields fs) (plain (pos (suc u))) ≡ reaches (suc u + depth_fields fs) u
    scan-fields done u h le = ground arith
    scan-fields (field k v done) u h le =
        key k (dumps v ++ 125 ∷ []) (pos (suc u))
        ∙ closing (dumps v) (125 ∷ []) (suc u) (suc u + depth v) (suc u) u
            (suc u + depth_fields (field k v done)) (omega arith) (scan-dumps v (suc u) h.0 le)
            (ground arith)
    scan-fields (field k v (field j w fs)) u h le =
        key k (dumps v ++ 44 ∷ dumps_fields (field j w fs)) (pos (suc u))
        ∙ closing (dumps v) (44 ∷ dumps_fields (field j w fs)) (suc u) (suc u + depth v)
            (suc u + depth_fields (field j w fs)) u
            (suc u + depth_fields (field k v (field j w fs))) (omega arith)
            (scan-dumps v (suc u) h.0 le) (scan-fields (field j w fs) u h.1 le)

-- For a JSON value whose numbers hold no quote and no bracket, the scanner of its text reports an
-- excess exactly when the value nests deeper than the maximum, whatever its strings hold.
pub exceeds_depth-dumps :
    (maximum : ℕ) (v : Json)
    → HasNumerals v
    → exceeds_depth maximum (dumps v) ≡ ltb maximum (depth v)
unfolding exceeds_depth
exceeds_depth-dumps maximum v h =
    let run = scan-dumps maximum v 0 h (ground arith) in
    elim (Bool-cases (ltb maximum (depth v))) [
      | inl over ↦ ground (arith, run)
      | inr within ↦ ground (arith, run)
    ]

-- what `decode` makes of a value
abbrev pub accepted : ℕ → Json → Result Fields
accepted maximum v =
    if ltb maximum (depth v)
    then err (value_error "Message nesting exceeds the maximum depth")
    else parsed_object (valid v)

-- If `json.loads` reads back what `json.dumps` wrote, then `decode` returns the fields of an object
-- that nests within the maximum, and raises for a deeper value and for a value that is no object.
pub decode-dumps :
    (loads : List ℕ → Parsed Json) (maximum : ℕ) (v : Json)
    → HasNumerals v
    → loads (dumps v) ≡ valid v
    → decode loads maximum (some (dumps v)) ≡ accepted maximum v
unfolding decode
decode-dumps loads maximum v h reads = rw (exceeds_depth-dumps maximum v h, reads, decode) refl
