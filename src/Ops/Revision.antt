-- ===== src/Ops/Revision.antt =====
-- Which revision of an image fits a base version (agent/src/ops.rs).
pub mod Newest
use mathlib.Core.Option
use carbide_os.Prelude.{
  ℕ, ◌^◌, Bool, true, false, not, ◌||◌, Option, none, some, List, [], ◌∷◌, if◌then◌else◌, all,
  is_empty, ltb,
}
use carbide_os.Text.{Text, txt, same, starts_with, strip_prefix, parse_uint, is_ascii_digit}

-- Canonical positive decimal only.
unfoldable pub revision_number : Text → Option ℕ
unfolding starts_with is_ascii_digit parse_uint
revision_number revision =
    if is_empty revision || (starts_with revision (txt "0") || not (all is_ascii_digit revision))
    then none
    else parse_uint (2 ^ 64) revision

abbrev numbered : Option Text → Option ℕ
numbered none = none
numbered (some revision) = revision_number revision

abbrev after_base : Option Text → Option ℕ
after_base none = none
after_base (some rest) = numbered (strip_prefix rest (txt "-"))

-- What the closure of `filter_map` makes of a version.
unfoldable pub revision_of : Text → Text → Option ℕ
unfolding same strip_prefix revision_number
revision_of base version =
    if same version base then some 0 else after_base (strip_prefix version base)

-- One step of `max_by_key`, from the end: of equal keys the last one stays.
abbrev pub later_wins : ℕ → Text → Option (ℕ × Text) → Option (ℕ × Text)
later_wins n v none = some (n, v)
later_wins n v (some (m, u)) = if ltb m n then some (n, v) else some (m, u)

abbrev pub choose : Option ℕ → Text → Option (ℕ × Text) → Option (ℕ × Text)
choose none v best = best
choose (some n) v best = later_wins n v best

unfoldable pub best_for_base : Text → List Text → Option (ℕ × Text)
unfolding revision_of
best_for_base base [] = none
best_for_base base (v ∷ vs) = choose (revision_of base v) v (best_for_base base vs)

-- `<base>`, or the highest `<base>-<n>`, of the versions of a feed.
unfoldable pub newest_for_base : Text → List Text → Option Text
unfolding best_for_base
newest_for_base base versions = Option.map (λ (n, v). v) (best_for_base base versions)
