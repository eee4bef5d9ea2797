-- ===== src/Codec/Depth.antt =====
-- src/mcpgtw/codec.py: the scanner of brackets computes the nesting of a JSON value, whatever its
-- strings hold.
use mcp_gtw.Base.{
  ℕ, suc, Bool, true, false, Option, none, some, List, [], ◌∷◌, ◌++◌, ◌≡◌, refl, arith, ◌||◌, not,
  eqb_ℕ, max, all_of, Option-cases, inl, inr, ap, ◌∙◌,
}
use mcp_gtw.Json.{
  Json, Items, Fields, null, boolean, number, text, array, object, nil, cons, done, field,
}
use mcp_gtw.Json.Text.{escape, escape_all, quoted, hex_digit}
use mcp_gtw.Codec.{ℤ, Scan, turn, in_string_turn, scan, plain}

unfoldable mutual
  -- how deep a value nests
  pub depth : Json → ℕ
  depth null = 0
  depth (boolean b) = 0
  depth (number n) = 0
  depth (text s) = 0
  depth (array xs) = suc (depth_items xs)
  depth (object fs) = suc (depth_fields fs)

  pub depth_items : Items → ℕ
  depth_items nil = 0
  depth_items (cons v xs) = max (depth v) (depth_items xs)

  pub depth_fields : Fields → ℕ
  depth_fields done = 0
  depth_fields (field k v fs) = max (depth v) (depth_fields fs)

abbrev is_numeral_character : ℕ → Bool
is_numeral_character c = not (eqb_ℕ c 34 || eqb_ℕ c 91 || eqb_ℕ c 123 || eqb_ℕ c 93 || eqb_ℕ c 125)

unfoldable mutual
  -- the characters of a number are no quotes and no brackets
  pub HasNumerals : Json → Type 0
  HasNumerals (number n) = all_of is_numeral_character n ≡ true
  HasNumerals (array xs) = ItemsHaveNumerals xs
  HasNumerals (object fs) = FieldsHaveNumerals fs
  HasNumerals _ = Unit

  pub ItemsHaveNumerals : Items → Type 0
  ItemsHaveNumerals nil = Unit
  ItemsHaveNumerals (cons v xs) = HasNumerals v × ItemsHaveNumerals xs

  pub FieldsHaveNumerals : Fields → Type 0
  FieldsHaveNumerals done = Unit
  FieldsHaveNumerals (field k v fs) = HasNumerals v × FieldsHaveNumerals fs

unfoldable pub then_scan : ℕ → List ℕ → Option Scan → Option Scan
then_scan maximum rest none = none
then_scan maximum rest (some s) = scan maximum rest s

module _ (maximum : ℕ) where
  pub scan-append :
      (xs ys : List ℕ) (s : Scan)
      → scan maximum (xs ++ ys) s ≡ then_scan maximum ys (scan maximum xs s)
  unfolding scan then_scan
  scan-append [] ys s = refl
  scan-append (c ∷ xs) ys s = elim (Option-cases (turn maximum c s)) [
    | inl e ↦ rw (e, scan) refl
    | inr (s', e) ↦ rw (e, scan) (scan-append xs ys s')
  ]

  abbrev quoting : ℤ → Scan
  quoting d = record { depth = d; in_string = true; escaped = false }

  scan-escape : (c : ℕ) (d : ℤ) → scan maximum (escape c) (quoting d) ≡ some (quoting d)
  unfolding scan escape turn in_string_turn hex_digit
  scan-escape c d = ground arith

  pub scan-numeral :
      (cs : List ℕ) (d : ℤ)
      → all_of is_numeral_character cs ≡ true
      → scan maximum cs (plain d) ≡ some (plain d)
  unfolding scan turn
  scan-numeral [] d h = refl
  scan-numeral (c ∷ cs) d h = ground (arith, scan-numeral cs d)

  scan-escape_all :
      (cs : List ℕ) (d : ℤ) → scan maximum (escape_all cs) (quoting d) ≡ some (quoting d)
  unfolding scan escape_all then_scan
  scan-escape_all [] d = refl
  scan-escape_all (c ∷ cs) d =
      scan-append (escape c) (escape_all cs) (quoting d)
      ∙ ap (λ o. then_scan maximum (escape_all cs) o) (scan-escape c d)
      ∙ scan-escape_all cs d

  pub scan-quoted : (cs : List ℕ) (d : ℤ) → scan maximum (quoted cs) (plain d) ≡ some (plain d)
  unfolding scan quoted then_scan turn in_string_turn
  scan-quoted cs d =
      scan-append (escape_all cs) (34 ∷ []) (quoting d)
      ∙ ap (λ o. then_scan maximum (34 ∷ []) o) (scan-escape_all cs d)
