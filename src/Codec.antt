-- ===== src/Codec.antt =====
-- src/mcpgtw/codec.py: `JsonProtocolCodec`. A text is its code points; `json.loads`, which also
-- rejects what `_reject_constant` and `_parse_float` reject, is a parameter.
pub mod Depth
pub mod Agreement
mod Tests
use mcp_gtw.Base.{
  ℕ, suc, zero, Bool, true, false, Option, none, some, List, [], ◌∷◌, ◌||◌, eqb_ℕ, ltb,
  if◌then◌else◌,
}
use mcp_gtw.Json.{Json, Fields, as_object}
use mcp_gtw.Errors.{Result, ok, err, value_error}
use mcp_gtw.Libraries.{Parsed, valid, invalid}

-- Python's integers: `negsuc n` is -(n + 1)
pub data ℤ : Type 0 where
  pos : ℕ → ℤ
  negsuc : ℕ → ℤ

abbrev pub increment : ℤ → ℤ
increment (pos n) = pos (suc n)
increment (negsuc zero) = pos 0
increment (negsuc (suc n)) = negsuc n

abbrev pub decrement : ℤ → ℤ
decrement (pos zero) = negsuc 0
decrement (pos (suc n)) = pos n
decrement (negsuc n) = negsuc (suc n)

-- depth > maximum
abbrev pub is_above : ℤ → ℕ → Bool
is_above (pos n) maximum = ltb maximum n
is_above (negsuc n) maximum = false

pub record Scan : Type 0 where
  pub depth : ℤ
  pub in_string : Bool
  pub escaped : Bool

-- a turn of the loop inside a string
unfoldable pub in_string_turn : ℕ → Scan → Scan
in_string_turn character s =
    if s.escaped
    then record s { escaped = false }
    else if eqb_ℕ character 92
    then record s { escaped = true }
    else if eqb_ℕ character 34
    then record s { in_string = false }
    else s

-- a turn of the loop, `none` being `return True`
unfoldable pub turn : ℕ → ℕ → Scan → Option Scan
turn maximum character s =
    let deeper = record s { depth = increment s.depth } in
    if s.in_string
    then some (in_string_turn character s)
    else if eqb_ℕ character 34
    then some (record s { in_string = true })
    else if eqb_ℕ character 91 || eqb_ℕ character 123
    then (if is_above deeper.depth maximum then none else some deeper)
    else if eqb_ℕ character 93 || eqb_ℕ character 125
    then some (record s { depth = decrement s.depth })
    else some s

unfoldable pub scan : ℕ → List ℕ → Scan → Option Scan
scan maximum [] s = some s
scan maximum (character ∷ text) s = elim (turn maximum character s) [
  | none ↦ none
  | some s' ↦ scan maximum text s'
]

abbrev pub plain : ℤ → Scan
plain depth = record { depth = depth; in_string = false; escaped = false }

unfoldable pub exceeds_depth : ℕ → List ℕ → Bool
exceeds_depth maximum text = elim (scan maximum text (plain (pos 0))) [
  | none ↦ true
  | some s ↦ false
]

abbrev pub parsed_object : Parsed Json → Result Fields
parsed_object (invalid reason) = err (value_error reason)
parsed_object (valid payload) = elim (as_object payload) [
  | none ↦ err (value_error "Message must be a JSON object")
  | some fields ↦ ok fields
]

unfoldable pub decode : (List ℕ → Parsed Json) → ℕ → Option (List ℕ) → Result Fields
decode loads maximum none = err (value_error "Only text messages are supported")
decode loads maximum (some text) =
    if exceeds_depth maximum text
    then err (value_error "Message nesting exceeds the maximum depth")
    else parsed_object (loads text)
