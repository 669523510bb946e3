-- ===== src/Config/Bounds.antt =====
-- The numbers of a ruleset are within the types of their fields (agent/src/config.rs).
use carbide_os.Prelude.{
  ℕ, ◌^◌, ◌<◌, ◌≡◌, sym, Bool, true, false, Option, none, some, List, [], ◌∷◌, arith, unwrap_or,
  if◌then◌else◌, ◌++◌,
}
use carbide_os.Text.{
  Text, txt, same, lines, strip_suffix, trim, starts_with, eq_ignore_ascii_case, split_once,
  to_ascii_lowercase,
}
use carbide_os.Text.Numbers.{Below, parse_uint-Below}
use carbide_os.Host.{Host, Result, ok, err}
use carbide_os.Config.{
  Ruleset, defaults, parse_seconds, with_seconds, with_command, apply_key, in_the_section,
  assignment, is_comment, parse_line, parse_lines, parse_ruleset, validate, sound_only, checked,
  k_unit, k_ready_timeout, k_start_attempts, k_health_command, k_health_interval, k_health_timeout,
  k_soak,
}

pub record IsBounded (r : Ruleset) : Type 0 where
  pub ready_timeout : r.ready_timeout < 2 ^ 64
  pub start_attempts : r.start_attempts < 2 ^ 32
  pub health_interval : r.health_interval < 2 ^ 64
  pub health_timeout : r.health_timeout < 2 ^ 64
  pub soak : r.soak < 2 ^ 64

-- `Q` of a result, if there is one.
abbrev pub Fine : {E A : Type 0} → (A → Type 0) → Result E A → Type 0
Fine Q (ok a) = Q a
Fine Q (err e) = Unit

seconds-Fine :
    (h : Host) (value : Text) (o : Option ℕ)
    → Below (2 ^ 64) o
    → Fine
        (λ n. n < 2 ^ 64)
        (elim o as (λ _. Result Text ℕ) [
          | none ↦ err (txt "invalid duration " ++ h.debug value)
          | some n ↦ ok n
        ])
seconds-Fine h value none p = tt
seconds-Fine h value (some n) p = p

parse_seconds-Fine : (h : Host) (value : Text) → Fine (λ n. n < 2 ^ 64) (parse_seconds h value)
unfolding parse_seconds
parse_seconds-Fine h value =
    seconds-Fine h value _
      (parse_uint-Below (2 ^ 64) (unwrap_or (strip_suffix value (txt "s")) value))

module _ (h : Host) (r : Ruleset) (p : IsBounded r) where
  with_seconds-Fine :
      (n : Result Text ℕ) (f : ℕ → Ruleset)
      → Fine (λ n. n < 2 ^ 64) n
      → ((n : ℕ) → n < 2 ^ 64 → IsBounded (f n))
      → Fine IsBounded (with_seconds n f)
  with_seconds-Fine (ok n) f q k = k n q
  with_seconds-Fine (err e) f q k = tt

  Fine-choice :
      (b : Bool) (x y : Result Text Ruleset)
      → Fine IsBounded x
      → Fine IsBounded y
      → Fine IsBounded (if b then x else y)
  Fine-choice true x y q q' = q
  Fine-choice false x y q q' = q'

  attempts-Fine :
      (value : Text) (o : Option ℕ)
      → Below (2 ^ 32) o
      → Fine IsBounded (elim o as (λ _. Result Text Ruleset) [
        | none ↦ err (txt "invalid StartAttempts " ++ h.debug value)
        | some n ↦ ok (record r { start_attempts = n })
      ])
  attempts-Fine value none q = tt
  attempts-Fine value (some n) q = record {
    ready_timeout = p.ready_timeout;
    start_attempts = q;
    health_interval = p.health_interval;
    health_timeout = p.health_timeout;
    soak = p.soak;
  }

  with_command-Fine : (command : List Text) → Fine IsBounded (with_command r command)
  with_command-Fine [] = tt
  with_command-Fine (program ∷ args) = record {
    ready_timeout = p.ready_timeout;
    start_attempts = p.start_attempts;
    health_interval = p.health_interval;
    health_timeout = p.health_timeout;
    soak = p.soak;
  }

  apply_key-Fine : (key value : Text) → Fine IsBounded (apply_key h r key value)
  unfolding apply_key
  apply_key-Fine key value =
      Fine-choice (same key k_unit) _ _
        (record {
          ready_timeout = p.ready_timeout;
          start_attempts = p.start_attempts;
          health_interval = p.health_interval;
          health_timeout = p.health_timeout;
          soak = p.soak;
        })
        (Fine-choice (same key k_ready_timeout) _ _
          (with_seconds-Fine _ _ (parse_seconds-Fine h value) λ n q. record {
            ready_timeout = q;
            start_attempts = p.start_attempts;
            health_interval = p.health_interval;
            health_timeout = p.health_timeout;
            soak = p.soak;
          })
          (Fine-choice (same key k_start_attempts) _ _
            (attempts-Fine value _ (parse_uint-Below (2 ^ 32) value))
            (Fine-choice (same key k_health_command) _ _ (with_command-Fine _) (
              Fine-choice (same key k_health_interval) _ _
                (with_seconds-Fine _ _ (parse_seconds-Fine h value) λ n q. record {
                  ready_timeout = p.ready_timeout;
                  start_attempts = p.start_attempts;
                  health_interval = q;
                  health_timeout = p.health_timeout;
                  soak = p.soak;
                })
                (Fine-choice (same key k_health_timeout) _ _
                  (with_seconds-Fine _ _ (parse_seconds-Fine h value) λ n q. record {
                    ready_timeout = p.ready_timeout;
                    start_attempts = p.start_attempts;
                    health_interval = p.health_interval;
                    health_timeout = q;
                    soak = p.soak;
                  })
                  (Fine-choice (same key k_soak) _ _
                    (with_seconds-Fine _ _ (parse_seconds-Fine h value) λ n q. record {
                      ready_timeout = p.ready_timeout;
                      start_attempts = p.start_attempts;
                      health_interval = p.health_interval;
                      health_timeout = p.health_timeout;
                      soak = q;
                    })
                    tt))))))

-- What one line leads to: whether the section goes on, and a bounded ruleset.
abbrev Bounded : Bool × Ruleset → Type 0
Bounded (in_section, r) = IsBounded r

module _ (h : Host) (r : Ruleset) (p : IsBounded r) where
  in_the_section-Fine :
      (x : Result Text Ruleset) → Fine IsBounded x → Fine Bounded (in_the_section x)
  in_the_section-Fine (ok r') q = q
  in_the_section-Fine (err e) q = tt

  assignment-Fine :
      (line : Text) (o : Option (Text × Text))
      → Fine Bounded (elim o as (λ _. Result Text (Bool × Ruleset)) [
        | none ↦ err (txt "expected KEY=VALUE, found " ++ h.debug line)
        | some (key, value) ↦
            in_the_section (apply_key h r (to_ascii_lowercase (trim key)) (trim value))
      ])
  assignment-Fine line none = tt
  assignment-Fine line (some (key, value)) = in_the_section-Fine _ (apply_key-Fine h r p _ _)

  line_choice :
      (b next : Bool) (y : Result Text (Bool × Ruleset))
      → IsBounded r
      → Fine Bounded y
      → Fine Bounded (if b then ok (next, r) else y)
  line_choice true next y q q' = q
  line_choice false next y q q' = q'

  section_choice :
      (b : Bool) (x : Result Text (Bool × Ruleset))
      → Fine Bounded x
      → Fine Bounded (if b then x else ok (false, r))
  section_choice true x q = q
  section_choice false x q = p

  parse_line-Fine : (in_section : Bool) (raw : Text) → Fine Bounded (parse_line h in_section r raw)
  unfolding parse_line
  parse_line-Fine in_section raw = line_choice (is_comment (trim raw)) in_section _ p (
      line_choice (starts_with (trim raw) (txt "["))
        (eq_ignore_ascii_case (trim raw) (txt "[Extension]")) _ p
        (section_choice in_section (assignment h r (trim raw))
          (assignment-Fine (trim raw) (split_once (trim raw) b'='))))

rest-Fine :
    (h : Host) (x : Result Text (Bool × Ruleset)) (l : List Text)
    → Fine Bounded x
    → ((in_section : Bool) (r : Ruleset)
        → IsBounded r
        → Fine IsBounded (parse_lines h in_section r l))
    → Fine IsBounded (elim x as (λ _. Result Text Ruleset) [
      | err reason ↦ err reason
      | ok (in_section, r) ↦ parse_lines h in_section r l
    ])
rest-Fine h (err e) l p k = tt
rest-Fine h (ok (in_section, r)) l p k = k in_section r p

parse_lines-Fine :
    (h : Host) (in_section : Bool) (r : Ruleset) (l : List Text)
    → IsBounded r
    → Fine IsBounded (parse_lines h in_section r l)
unfolding parse_lines
parse_lines-Fine h in_section r [] p = p
parse_lines-Fine h in_section r (raw ∷ l) p =
    rest-Fine h (parse_line h in_section r raw) l (parse_line-Fine h r p in_section raw)
      (λ in_section' r' q. parse_lines-Fine h in_section' r' l q)

defaults-IsBounded : IsBounded defaults
defaults-IsBounded = record {
  ready_timeout = omega arith;
  start_attempts = omega arith;
  health_interval = omega arith;
  health_timeout = omega arith;
  soak = omega arith;
}

sound_only-Fine :
    (v : Result Text (Unit {0})) (r : Ruleset) → IsBounded r → Fine IsBounded (sound_only v r)
sound_only-Fine (ok _) r p = p
sound_only-Fine (err e) r p = tt

checked-Fine :
    (h : Host) (x : Result Text Ruleset) → Fine IsBounded x → Fine IsBounded (checked h x)
checked-Fine h (ok r) p = sound_only-Fine (validate h r) r p
checked-Fine h (err e) p = tt

pub parse_ruleset-Fine : (h : Host) (contents : Text) → Fine IsBounded (parse_ruleset h contents)
unfolding parse_ruleset
parse_ruleset-Fine h contents =
    checked-Fine h _ (parse_lines-Fine h false defaults (lines contents) defaults-IsBounded)

ok_inj : {E A : Type 0} {a b : A} → ◌≡◌ {A = Result E A} (ok a) (ok b) → a ≡ b
ok_inj e = cc

Fine-ok : {E A : Type 0} (Q : A → Type 0) (x : Result E A) (a : A) → x ≡ ok a → Fine Q x → Q a
Fine-ok Q (ok b) a e p = rw (sym (ok_inj e)) p
Fine-ok Q (err b) a e p = cc

-- The numbers of a ruleset that is accepted are those of its fields' types: its durations are below
-- 2^64 seconds, and the starts that it grants are below 2^32.
pub parse_ruleset-IsBounded :
    (h : Host) (contents : Text) (r : Ruleset) → parse_ruleset h contents ≡ ok r → IsBounded r
parse_ruleset-IsBounded h contents r e = Fine-ok IsBounded _ r e (parse_ruleset-Fine h contents)
