-- ===== src/System/Slots/Versions.antt =====
-- What `version_valid` accepts (agent/src/system.rs).
use carbide_os.Prelude.{ℕ, ◌≡◌, refl, ◌≢◌, true, false, [], ◌∷◌, arith, all, ◌==◌}
use carbide_os.Text.{Text, is_ascii_alphanumeric, is_ascii_digit, contains_char}
use carbide_os.System.Slots.{is_version_char, version_valid}

version_char_plain : (c : ℕ) → is_version_char c ≡ true → (c == b'/') ≡ false
unfolding is_version_char is_ascii_alphanumeric is_ascii_digit
version_char_plain c h = ground arith

all_plain : (s : Text) → all is_version_char s ≡ true → contains_char s b'/' ≡ false
unfolding contains_char
all_plain [] h = refl
all_plain (c ∷ s) h = ground (arith, version_char_plain c, all_plain s)

-- A version that `version_valid` accepts is not empty, holds no slash, and begins with a letter or a
-- digit.
pub version_valid-plain :
    (v : Text)
    → version_valid v ≡ true
    → (contains_char v b'/' ≡ false)
      × (v ≢ [])
      × ((c : ℕ) (rest : Text) → v ≡ c ∷ rest → is_ascii_alphanumeric c ≡ true)
unfolding version_valid
version_valid-plain [] h = cc
version_valid-plain (c ∷ s) h =
    (all_plain (c ∷ s) (ground arith), (λ e. cc e), λ d rest e. ground arith)
