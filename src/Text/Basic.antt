-- ===== src/Text/Basic.antt =====
-- Comparing, stripping and searching text.
use Prim.Native.Char.{code}
use mathlib.Core.Option
use carbide_os.Prelude.{
  ℕ, String, ◌+◌, Bool, true, false, ◌&&◌, ◌||◌, Option, none, some, List, [], ◌∷◌, map, ltb, leb,
  ◌==◌, if◌then◌else◌, is_some, any, is_empty,
}

abbrev pub Text : Type 0
Text = List ℕ

-- The code points of a literal.
unfoldable pub txt : String → Text
txt String.[] = []
txt (String.◌∷◌ c s) = code c ∷ txt s

unfoldable pub same : Text → Text → Bool
same [] [] = true
same [] (b ∷ t) = false
same (a ∷ s) [] = false
same (a ∷ s) (b ∷ t) = a == b && same s t

unfoldable pub strip_prefix : Text → Text → Option Text
strip_prefix s [] = some s
strip_prefix [] (b ∷ p) = none
strip_prefix (a ∷ s) (b ∷ p) = let rest = strip_prefix s p in if a == b then rest else none

unfoldable pub strip_suffix : Text → Text → Option Text
unfolding same
strip_suffix [] p = if is_empty p then some [] else none
strip_suffix (a ∷ s) p =
    let rest = strip_suffix s p in if same (a ∷ s) p then some [] else Option.map (λ r. a ∷ r) rest

unfoldable pub starts_with : Text → Text → Bool
unfolding strip_prefix
starts_with s p = is_some (strip_prefix s p)

unfoldable pub ends_with : Text → Text → Bool
unfolding strip_suffix
ends_with s p = is_some (strip_suffix s p)

unfoldable pub contains : Text → Text → Bool
unfolding starts_with
contains [] p = is_empty p
contains (a ∷ s) p = starts_with (a ∷ s) p || contains s p

unfoldable pub contains_char : Text → ℕ → Bool
contains_char s c = any (λ a. a == c) s

-- What stands before the first `c`, and what follows it.
unfoldable pub split_once : Text → ℕ → Option (Text × Text)
split_once [] c = none
split_once (a ∷ s) c =
    let rest = split_once s c in
    if a == c then some ([], s) else Option.map (λ (before, after). (a ∷ before, after)) rest

unfoldable pub is_ascii_digit : ℕ → Bool
is_ascii_digit c = leb b'0' c && leb c b'9'

unfoldable pub is_ascii_alphanumeric : ℕ → Bool
unfolding is_ascii_digit
is_ascii_alphanumeric c =
    is_ascii_digit c || ((leb b'a' c && leb c b'z') || (leb b'A' c && leb c b'Z'))

unfoldable pub to_ascii_lowercase_char : ℕ → ℕ
to_ascii_lowercase_char c = if leb b'A' c && leb c b'Z' then c + 32 else c

unfoldable pub to_ascii_lowercase : Text → Text
unfolding to_ascii_lowercase_char
to_ascii_lowercase = map to_ascii_lowercase_char

unfoldable pub eq_ignore_ascii_case : Text → Text → Bool
unfolding same to_ascii_lowercase
eq_ignore_ascii_case s t = same (to_ascii_lowercase s) (to_ascii_lowercase t)

-- The order of `str`, in which a `BTreeMap` holds its keys.
unfoldable pub before : Text → Text → Bool
before [] [] = false
before [] (b ∷ t) = true
before (a ∷ s) [] = false
before (a ∷ s) (b ∷ t) = ltb a b || (a == b && before s t)
