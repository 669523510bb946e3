-- ===== src/Text/Lines.antt =====
-- Trimming, splitting and parsing text.
use mathlib.Core.List.{reverse}
use carbide_os.Prelude.{
  ℕ, ◌+◌, ◌-◌, ◌*◌, Bool, true, false, ◌&&◌, ◌||◌, Option, none, some, List, [], ◌∷◌, ◌++◌, ltb,
  leb, ◌==◌, if◌then◌else◌, unwrap_or, is_empty,
}
use carbide_os.Text.Basic.{Text, strip_suffix, is_ascii_digit}

-- The code points of the property White_Space.
unfoldable pub is_whitespace : ℕ → Bool
is_whitespace c =
    (leb 9 c && leb c 13)
    || (c == 32
        || (c == 133
            || (c == 160
                || (c == 5760
                    || ((leb 8192 c && leb c 8202)
                        || (c == 8232
                            || (c == 8233 || (c == 8239 || (c == 8287 || c == 12288)))))))))

unfoldable pub trim_start_by : (ℕ → Bool) → Text → Text
trim_start_by p [] = []
trim_start_by p (a ∷ s) = let rest = trim_start_by p s in if p a then rest else a ∷ s

unfoldable pub trim_by : (ℕ → Bool) → Text → Text
unfolding trim_start_by
trim_by p s = reverse (trim_start_by p (reverse (trim_start_by p s)))

unfoldable pub trim : Text → Text
unfolding trim_by is_whitespace
trim = trim_by is_whitespace

unfoldable pub trim_matches : Text → ℕ → Text
unfolding trim_by
trim_matches s c = trim_by (λ a. a == c) s

-- A line ends at LF, with a CR before it dropped; text after the last LF is a line if not empty.
unfoldable pub lines_from : Text → Text → List Text
unfolding strip_suffix
lines_from line [] = if is_empty line then [] else line ∷ []
lines_from line (c ∷ s) = elim (c == 10) [
  | true ↦ unwrap_or (strip_suffix line (13 ∷ [])) line ∷ lines_from [] s
  | false ↦ lines_from (line ++ (c ∷ [])) s
]

unfoldable pub lines : Text → List Text
unfolding lines_from
lines = lines_from []

unfoldable pub words_from : Text → Text → List Text
unfolding is_whitespace
words_from word [] = if is_empty word then [] else word ∷ []
words_from word (c ∷ s) = elim (is_whitespace c) [
  | true ↦ let rest = words_from [] s in if is_empty word then rest else word ∷ rest
  | false ↦ words_from (word ++ (c ∷ [])) s
]

unfoldable pub split_whitespace : Text → List Text
unfolding words_from
split_whitespace = words_from []

unfoldable pub digits_value : ℕ → Text → Option ℕ
unfolding is_ascii_digit
digits_value n [] = some n
digits_value n (c ∷ s) =
    let rest = digits_value (n * 10 + (c - 48)) s in if is_ascii_digit c then rest else none

abbrev pub digits_below : ℕ → Text → Option ℕ
digits_below bound s =
    if is_empty s
    then none
    else elim (digits_value 0 s) [ none ↦ none | some n ↦ if ltb n bound then some n else none ]

-- `str::parse` at an unsigned type of `bound` values: digits, with one leading `+` let pass.
unfoldable pub parse_uint : ℕ → Text → Option ℕ
unfolding digits_value
parse_uint bound [] = none
parse_uint bound (c ∷ s) = if c == b'+' then digits_below bound s else digits_below bound (c ∷ s)
