-- ===== src/Cli/Options.antt =====
-- Flags of the command line (agent/src/main.rs, `option`).
use carbide_os.Prelude.{◌≡◌, refl, ◌∙◌, arith, Bool, false, none, some, List, [], ◌∷◌, ◌++◌, any}
use carbide_os.Text.{Text, same}
use carbide_os.Text.Laws.{same_refl}
use carbide_os.Cli.{option}

-- Whether a flag is among the arguments.
abbrev pub is_given : List Text → Text → Bool
is_given arguments name = any (λ a. same a name) arguments

option_first :
    (name value : Text) (rest : List Text) → option (name ∷ value ∷ rest) name ≡ some value
unfolding option
option_first name value rest = rw (same_refl name) refl

-- An argument that is not the flag is passed over, if something follows it.
option_skip :
    (a name next : Text) (rest : List Text)
    → same a name ≡ false
    → option (a ∷ next ∷ rest) name ≡ option (next ∷ rest) name
unfolding option
option_skip a name next rest n = rw n refl

skipped :
    (a name : Text) (l : List Text) → same a name ≡ false → option (a ∷ l) name ≡ option l name
unfolding option
skipped a name [] n = refl
skipped a name (next ∷ rest) n = option_skip a name next rest n

-- The value of a flag is what follows the first argument that is the flag, whatever stands before and
-- after the two; a flag that is not among the arguments has no value.
pub option-append :
    (name value : Text) (before rest : List Text)
    → is_given before name ≡ false
    → (option (before ++ (name ∷ value ∷ rest)) name ≡ some value) × (option before name ≡ none)
unfolding option
option-append name value [] rest n = (option_first name value rest, refl)
option-append name value (a ∷ before) rest n =
    let head : same a name ≡ false = ground arith in
    let later = option-append name value before rest (ground arith) in
    (skipped a name _ head ∙ later.0, skipped a name before head ∙ later.1)
