-- ===== src/Config.antt =====
-- agent/src/config.rs: health rulesets.
pub mod Laws
pub mod Bounds
use carbide_os.Prelude.{
  ℕ, ◌+◌, ◌*◌, ◌^◌, Bool, true, false, not, ◌&&◌, ◌||◌, Option, none, some, List, [], ◌∷◌, ◌++◌,
  if◌then◌else◌, unwrap_or, ◌==◌,
}
use mathlib.Core.Option
use carbide_os.Text.{
  Text, txt, same, is_empty, trim, lines, starts_with, strip_suffix, contains, contains_char,
  split_once, to_ascii_lowercase, eq_ignore_ascii_case, parse_uint, split_whitespace,
}
use carbide_os.Host.{Host, FilePath, IoError, Result, ok, err}
use carbide_os.Effects.{Act, pure, raise, lift, get_host, attempt, moment, map_err, ◌>>=◌}
use carbide_os.Files.{path}

pub data ConfigError : Type 0 where
  io : IoError → ConfigError
  malformed : FilePath → Text → ConfigError

-- Durations are in seconds, as they are written.
pub record Ruleset : Type 0 where
  pub unit : Text
  pub ready_timeout : ℕ
  pub start_attempts : ℕ
  pub health_command : Option (List Text)
  pub health_interval : ℕ
  pub health_timeout : ℕ
  pub soak : ℕ

abbrev pub defaults : Ruleset
defaults = record {
  unit = [];
  ready_timeout = 90;
  start_attempts = 3;
  health_command = none;
  health_interval = 10;
  health_timeout = 15;
  soak = 120;
}

abbrev pub ruleset_dir : Text
ruleset_dir = txt "/usr/lib/carbide/health.d"

unfoldable pub parse_seconds : Host → Text → Result Text ℕ
unfolding strip_suffix parse_uint
parse_seconds h value =
    elim (parse_uint (2 ^ 64) (unwrap_or (strip_suffix value (txt "s")) value)) [
      | none ↦ err (txt "invalid duration " ++ h.debug value)
      | some n ↦ ok n
    ]

abbrev pub with_seconds : Result Text ℕ → (ℕ → Ruleset) → Result Text Ruleset
with_seconds (ok n) f = ok (f n)
with_seconds (err reason) f = err reason

abbrev pub with_attempts : Host → Ruleset → Text → Result Text Ruleset
with_attempts h r value = elim (parse_uint (2 ^ 32) value) [
  | none ↦ err (txt "invalid StartAttempts " ++ h.debug value)
  | some n ↦ ok (record r { start_attempts = n })
]

abbrev pub with_command : Ruleset → List Text → Result Text Ruleset
with_command r [] = err (txt "empty HealthCommand")
with_command r (program ∷ args) = ok (record r { health_command = some (program ∷ args) })

-- The keys, in lower case.
abbrev pub k_unit : Text
k_unit = txt "unit"

abbrev pub k_ready_timeout : Text
k_ready_timeout = txt "readytimeoutsec"

abbrev pub k_start_attempts : Text
k_start_attempts = txt "startattempts"

abbrev pub k_health_command : Text
k_health_command = txt "healthcommand"

abbrev pub k_health_interval : Text
k_health_interval = txt "healthintervalsec"

abbrev pub k_health_timeout : Text
k_health_timeout = txt "healthtimeoutsec"

abbrev pub k_soak : Text
k_soak = txt "soaksec"

-- The `match` on a key in lower case.
unfoldable pub apply_key : Host → Ruleset → Text → Text → Result Text Ruleset
unfolding same parse_seconds parse_uint split_whitespace
apply_key h r key value =
    if same key k_unit
    then ok (record r { unit = value })
    else if same key k_ready_timeout
    then with_seconds (parse_seconds h value) (λ n. record r { ready_timeout = n })
    else if same key k_start_attempts
    then with_attempts h r value
    else if same key k_health_command
    then with_command r (split_whitespace value)
    else if same key k_health_interval
    then with_seconds (parse_seconds h value) (λ n. record r { health_interval = n })
    else if same key k_health_timeout
    then with_seconds (parse_seconds h value) (λ n. record r { health_timeout = n })
    else if same key k_soak
    then with_seconds (parse_seconds h value) (λ n. record r { soak = n })
    else err (txt "unknown key " ++ h.debug key)

abbrev pub in_the_section : Result Text Ruleset → Result Text (Bool × Ruleset)
in_the_section (ok r) = ok (true, r)
in_the_section (err reason) = err reason

-- A `KEY=VALUE` line of the section.
abbrev pub assignment : Host → Ruleset → Text → Result Text (Bool × Ruleset)
assignment h r line = elim (split_once line b'=') [
  | none ↦ err (txt "expected KEY=VALUE, found " ++ h.debug line)
  | some (key, value) ↦ in_the_section (apply_key h r (to_ascii_lowercase (trim key)) (trim value))
]

abbrev pub is_comment : Text → Bool
is_comment line = is_empty line || (starts_with line (txt "#") || starts_with line (txt ";"))

-- One round of the loop over the lines: whether the section goes on, and the ruleset so far.
unfoldable pub parse_line : Host → Bool → Ruleset → Text → Result Text (Bool × Ruleset)
unfolding trim starts_with split_once to_ascii_lowercase eq_ignore_ascii_case apply_key
parse_line h in_section r raw =
    let line = trim raw in
    if is_comment line
    then ok (in_section, r)
    else if starts_with line (txt "[")
    then ok (eq_ignore_ascii_case line (txt "[Extension]"), r)
    else if in_section
    then assignment h r line
    else ok (false, r)

unfoldable pub parse_lines : Host → Bool → Ruleset → List Text → Result Text Ruleset
unfolding parse_line
parse_lines h in_section r [] = ok r
parse_lines h in_section r (raw ∷ rest) = elim (parse_line h in_section r raw) [
  | err reason ↦ err reason
  | ok (in_section', r') ↦ parse_lines h in_section' r' rest
]

-- A path that is covered by verity: EXECUTABLE_PREFIXES.
unfoldable pub is_verity_backed : Text → Bool
unfolding starts_with
is_verity_backed program = starts_with program (txt "/usr/") || starts_with program (txt "/opt/")

-- `&command[0]`: a command that was parsed has a program.
abbrev pub program_of : List Text → Text
program_of [] = []
program_of (program ∷ args) = program

unfoldable pub validate_command : Host → Option (List Text) → Result Text (Unit {0})
unfolding is_verity_backed contains
validate_command h none = ok tt
validate_command h (some command) =
    let program = program_of command in
    if not (is_verity_backed program)
    then err (txt "HealthCommand " ++ (h.debug program ++ txt " is not on a verity-backed path"))
    else if contains program (txt "..")
    then err (txt "HealthCommand must not traverse")
    else ok tt

unfoldable pub validate : Host → Ruleset → Result Text (Unit {0})
unfolding contains_char starts_with validate_command
validate h r =
    if is_empty r.unit
    then err (txt "Unit is required")
    else if contains_char r.unit b'/' || starts_with r.unit (txt "-")
    then err (txt "implausible unit name " ++ h.debug r.unit)
    else if r.start_attempts == 0
    then err (txt "StartAttempts must be at least 1")
    else validate_command h r.health_command

abbrev pub sound_only : Result Text (Unit {0}) → Ruleset → Result Text Ruleset
sound_only (err reason) r = err reason
sound_only (ok _) r = ok r

abbrev pub checked : Host → Result Text Ruleset → Result Text Ruleset
checked h (err reason) = err reason
checked h (ok r) = sound_only (validate h r) r

-- What `load` makes of the text of a ruleset.
unfoldable pub parse_ruleset : Host → Text → Result Text Ruleset
unfolding lines parse_lines validate
parse_ruleset h contents = checked h (parse_lines h false defaults (lines contents))

-- `ConfigError::to_string`
abbrev pub config_message : ConfigError → Text
config_message (io e) = e.message
config_message (malformed p reason) = p.dir ++ (txt "/" ++ (p.name ++ (txt ": " ++ reason)))

abbrev pub or_malformed : FilePath → Result Text Ruleset → Act ConfigError Ruleset
or_malformed p (ok r) = pure r
or_malformed p (err reason) = raise (malformed p reason)

unfoldable pub load_ruleset : FilePath → Act ConfigError Ruleset
load_ruleset p = do
  t ← moment
  answer ← get_host (λ h. h.usr t p)
  contents ← map_err io (lift answer)
  parsed ← get_host (λ h. parse_ruleset h contents)
  or_malformed p parsed

unfoldable pub load_named : Text → Act ConfigError Ruleset
load_named name = load_ruleset (path ruleset_dir (name ++ txt ".conf"))
