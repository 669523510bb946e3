-- ===== src/Text/Numbers.antt =====
-- A number that was parsed fits its type.
use carbide_os.Prelude.{
  ℕ, ◌<◌, ◌≡◌, refl, Bool, true, false, Option, none, some, [], ◌∷◌, arith, ltb, ◌==◌,
  if◌then◌else◌, is_empty,
}
use carbide_os.Text.Basic.{Text}
use carbide_os.Text.Lines.{digits_value, digits_below, parse_uint}

abbrev pub Below : ℕ → Option ℕ → Type 0
Below bound none = Unit
Below bound (some n) = n < bound

Below-if : (bound n : ℕ) (b : Bool) → b ≡ ltb n bound → Below bound (if b then some n else none)
Below-if bound n true e = ground arith
Below-if bound n false e = tt

digits_value-Below :
    (bound : ℕ) (o : Option ℕ)
    → Below bound (elim o [ none ↦ none | some n ↦ if ltb n bound then some n else none ])
digits_value-Below bound none = tt
digits_value-Below bound (some n) = Below-if bound n (ltb n bound) refl

Below-choice :
    (bound : ℕ) (b : Bool) (o o' : Option ℕ)
    → Below bound o
    → Below bound o'
    → Below bound (if b then o else o')
Below-choice bound true o o' p p' = p
Below-choice bound false o o' p p' = p'

digits_below-Below : (bound : ℕ) (s : Text) → Below bound (digits_below bound s)
digits_below-Below bound s =
    Below-choice bound (is_empty s) none _ tt (digits_value-Below bound (digits_value 0 s))

pub parse_uint-Below : (bound : ℕ) (s : Text) → Below bound (parse_uint bound s)
unfolding parse_uint
parse_uint-Below bound [] = tt
parse_uint-Below bound (c ∷ s) =
    Below-choice bound (c == b'+') _ _ (digits_below-Below bound s)
      (digits_below-Below bound (c ∷ s))
