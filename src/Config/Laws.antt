-- ===== src/Config/Laws.antt =====
-- What a ruleset that was accepted promises (agent/src/config.rs).
use carbide_os.Prelude.{◌≤◌, ◌≡◌, refl, sym, true, false, Option, none, some, List, [], ◌≢◌, arith}
use carbide_os.Text.{Text, txt, starts_with, contains, contains_char, lines}
use carbide_os.Host.{Host, Result, ok, err}
use carbide_os.Config.{
  Ruleset, defaults, is_verity_backed, program_of, validate_command, validate, parse_lines,
  parse_ruleset, checked, sound_only,
}

-- A command that runs nothing outside of the verified trees.
abbrev pub IsBacked : Option (List Text) → Type 0
IsBacked none = Unit
IsBacked (some command) =
    (is_verity_backed (program_of command) ≡ true)
    × (contains (program_of command) (txt "..") ≡ false)

pub record IsSound (r : Ruleset) : Type 0 where
  pub named : r.unit ≢ []
  pub plain : contains_char r.unit b'/' ≡ false
  pub no_option : starts_with r.unit (txt "-") ≡ false
  pub started : 1 ≤ r.start_attempts
  pub backed : IsBacked r.health_command

validate_command_sound :
    (h : Host) (c : Option (List Text)) → validate_command h c ≡ ok tt → IsBacked c
unfolding validate_command
validate_command_sound h none e = tt
validate_command_sound h (some command) e = ground arith

validate-IsSound : (h : Host) (r : Ruleset) → validate h r ≡ ok tt → IsSound r
unfolding validate
validate-IsSound h r e = record {
  named = ground arith;
  plain = ground arith;
  no_option = ground arith;
  started = ground arith;
  backed = validate_command_sound h r.health_command (ground arith);
}

ok_inj : {E A : Type 0} {a b : A} → ◌≡◌ {A = Result E A} (ok a) (ok b) → a ≡ b
ok_inj e = cc

sound_only_ok :
    (h : Host) (v : Result Text (Unit {0})) (r' r : Ruleset)
    → v ≡ validate h r'
    → sound_only v r' ≡ ok r
    → IsSound r
sound_only_ok h (err reason) r' r v e = cc
sound_only_ok h (ok _) r' r v e = rw (sym (ok_inj e)) (validate-IsSound h r' (sym v))

result_ok :
    (h : Host) (parsed : Result Text Ruleset) (r : Ruleset) → checked h parsed ≡ ok r → IsSound r
result_ok h (err reason) r e = cc
result_ok h (ok r') r e = sound_only_ok h (validate h r') r' r refl e

-- A ruleset that is accepted names a unit that is not empty, holds no slash and does not look like an
-- option; it grants at least one start, and a health command it has is one of a verity-backed tree,
-- reached without `..`.
pub parse_ruleset-IsSound :
    (h : Host) (contents : Text) (r : Ruleset) → parse_ruleset h contents ≡ ok r → IsSound r
unfolding parse_ruleset
parse_ruleset-IsSound h contents r e =
    result_ok h (parse_lines h false defaults (lines contents)) r e
