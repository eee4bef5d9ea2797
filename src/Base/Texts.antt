-- ===== src/Base/Texts.antt =====
-- Python's methods of `str` that the source calls, on texts as characters.
use Prim.Native.Char.{code}
use Prim.Native.Nat.{ℕ}
use Prim.Native.String.append
use Prim.Native.String.{String, ◌++◌ as join}
use mathlib.Core.Path.{◌≡◌, refl, ap, ◌∙◌}
use mathlib.Core.Bool.{Bool, true, false, not, ◌&&◌, ◌||◌}
use mathlib.Core.List.{List, [], ◌∷◌}
use mathlib.Core.Option.{Option, none, some}
use native.Mathlib.Omega.{arith}
use mcp_gtw.Base.Tests.{leb, eqb_ℕ, if◌then◌else◌}

-- whether a text starts with another, with the rest
unfoldable pub after_prefix : String → String → Option String
after_prefix String.[] s = some s
after_prefix (String.◌∷◌ c prefix) String.[] = none
after_prefix (String.◌∷◌ c prefix) (String.◌∷◌ d s) =
    let rest = after_prefix prefix s in if eqb_ℕ (code c) (code d) then rest else none

-- s.startswith(prefix)
unfoldable pub starts_with : String → String → Bool
starts_with s prefix = elim (after_prefix prefix s) [ none ↦ false | some rest ↦ true ]

-- s.removeprefix(prefix)
unfoldable pub remove_prefix : String → String → String
remove_prefix s prefix = elim (after_prefix prefix s) [ none ↦ s | some rest ↦ rest ]

-- s.lstrip and s.rstrip of the characters that pass a test
unfoldable pub strip_left : (ℕ → Bool) → String → String
strip_left p String.[] = ""
strip_left p (String.◌∷◌ c s) =
    let rest = strip_left p s in if p (code c) then rest else String.◌∷◌ c s

abbrev pub is_nothing : String → Bool
is_nothing String.[] = true
is_nothing (String.◌∷◌ c s) = false

unfoldable pub strip_right : (ℕ → Bool) → String → String
strip_right p String.[] = ""
strip_right p (String.◌∷◌ c s) =
    let rest = strip_right p s in if p (code c) && is_nothing rest then "" else String.◌∷◌ c rest

unfoldable pub strip : (ℕ → Bool) → String → String
strip p s = strip_right p (strip_left p s)

-- the characters that `str.strip()` and `str.split()` take as white space
unfoldable pub is_space : ℕ → Bool
is_space c =
    leb 9 c && leb c 13
    || leb 28 c && leb c 32
    || eqb_ℕ c 133
    || eqb_ℕ c 160
    || eqb_ℕ c 5760
    || leb 8192 c && leb c 8202
    || eqb_ℕ c 8232
    || eqb_ℕ c 8233
    || eqb_ℕ c 8239
    || eqb_ℕ c 8287
    || eqb_ℕ c 12288

-- whether every character passes a test
unfoldable pub every : (ℕ → Bool) → String → Bool
every p String.[] = true
every p (String.◌∷◌ c s) = p (code c) && every p s

-- s.split(), in the word that goes on at the front and the words behind it
abbrev flush : String × List String → List String
flush (word, words) = if is_nothing word then words else word ∷ words

unfoldable pub split_at : (ℕ → Bool) → String → String × List String
split_at p String.[] = ("", [])
split_at p (String.◌∷◌ c s) =
    let (word, words) = split_at p s in
    if p (code c) then ("", flush (word, words)) else (String.◌∷◌ c word, words)

unfoldable pub split : String → List String
split s = flush (split_at is_space s)

pub after_prefix-join : (prefix s : String) → after_prefix prefix (join prefix s) ≡ some s
unfolding after_prefix
after_prefix-join String.[] s = ap some (append.nil s)
after_prefix-join (String.◌∷◌ c prefix) s =
    rw (append.cons c prefix s) (ground (arith, after_prefix-join prefix s))

split-words : split " mcp:access  a b " ≡ "mcp:access" ∷ "a" ∷ "b" ∷ []
unfolding split split_at is_space
split-words = refl

strip-slashes : strip (eqb_ℕ 47) "/a/b//" ≡ "a/b"
unfolding strip strip_right strip_left
strip-slashes = refl

-- what every character of a text passes, and of what is left of it after stripping
pub every-strip_left :
    (p q : ℕ → Bool) (s : String)
    → ((c : ℕ) → q c ≡ true → p c ≡ true)
    → every p (strip_left q s) ≡ true
    → every p s ≡ true
unfolding every strip_left
every-strip_left p q String.[] implied h = refl
every-strip_left p q (String.◌∷◌ c s) implied h =
    ground (arith, every-strip_left p q s implied, implied (code c))

pub every-weaken :
    (p q : ℕ → Bool) (s : String)
    → ((c : ℕ) → q c ≡ true → p c ≡ true)
    → every q s ≡ true
    → every p s ≡ true
unfolding every
every-weaken p q String.[] implied h = refl
every-weaken p q (String.◌∷◌ c s) implied h =
    ground (arith, every-weaken p q s implied, implied (code c))

strip_right_nothing :
    (p : ℕ → Bool) (s : String) → every (λ c. not (p c)) s ≡ true → strip_right p s ≡ s
unfolding every strip_right
strip_right_nothing p String.[] h = refl
strip_right_nothing p (String.◌∷◌ c s) h = ground (arith, strip_right_nothing p s)

strip_left_nothing :
    (p : ℕ → Bool) (s : String) → every (λ c. not (p c)) s ≡ true → strip_left p s ≡ s
unfolding every strip_left
strip_left_nothing p String.[] h = refl
strip_left_nothing p (String.◌∷◌ c s) h = ground arith

-- a text without such characters is not changed by stripping them
pub strip_nothing : (p : ℕ → Bool) (s : String) → every (λ c. not (p c)) s ≡ true → strip p s ≡ s
unfolding strip
strip_nothing p s h = ap (strip_right p) (strip_left_nothing p s h) ∙ strip_right_nothing p s h
