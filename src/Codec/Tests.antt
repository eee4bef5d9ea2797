-- ===== src/Codec/Tests.antt =====
-- The codec at concrete inputs.
use mcp_gtw.Base.{true, false, [], ◌∷◌, ◌≡◌, refl, ltb}
use mcp_gtw.Json.{Json, number, text, array, object, nil, cons, done, field}
use mcp_gtw.Json.Text.{codes, dumps}
use mcp_gtw.Codec.{exceeds_depth, scan, turn, in_string_turn}
use mcp_gtw.Codec.Depth.{depth, HasNumerals}
use mcp_gtw.Codec.Agreement.{exceeds_depth-dumps}

-- {"a":["]\"[",1]}
abbrev value : Json
value = object (field "a" (array (cons (text "]\"[") (cons (number (49 ∷ [])) nil))) done)

value-HasNumerals : HasNumerals value
unfolding HasNumerals
value-HasNumerals = ((tt, (refl, tt)), tt)

exceeds_depth-dumps_example : exceeds_depth 1 (dumps value) ≡ ltb 1 (depth value)
exceeds_depth-dumps_example = exceeds_depth-dumps 1 value value-HasNumerals

too_deep : exceeds_depth 1 (codes "[{}]") ≡ true
unfolding exceeds_depth scan turn in_string_turn
too_deep = refl

-- brackets in a string do not count, and closing brackets may come first
deep_enough : exceeds_depth 1 (codes "]]\"[[[\"[") ≡ false
unfolding exceeds_depth scan turn in_string_turn
deep_enough = refl
