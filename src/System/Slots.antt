-- ===== src/System/Slots.antt =====
-- The names of image slots (agent/src/system.rs), and the running base version that scopes them
-- (`os_version` of agent/src/state.rs).
pub mod Mergeable
pub mod Versions
use carbide_os.Prelude.{
  ℕ, Bool, true, false, not, ◌&&◌, ◌||◌, Option, none, some, List, [], ◌∷◌, ◌++◌, if◌then◌else◌,
  unwrap_or, all, ◌==◌,
}
use mathlib.Core.Option
use carbide_os.Text.{Text, txt, strip_prefix, trim, trim_matches, lines, is_ascii_alphanumeric}
use carbide_os.Host.{Host, FilePath}
use carbide_os.Effects.{Act, pure, get_host, ◌>>=◌}
use carbide_os.Files.{path, exists}

-- The rest of the first line that begins with `prefix`.
unfoldable pub first_with_prefix : Text → List Text → Option Text
unfolding strip_prefix
first_with_prefix prefix [] = none
first_with_prefix prefix (line ∷ rest) =
    let later = first_with_prefix prefix rest in
    elim (strip_prefix line prefix) [ some value ↦ some value | none ↦ later ]

unfoldable pub os_version : Host → Option Text
unfolding first_with_prefix
os_version h = elim h.os_release [
  | none ↦ none
  | some contents ↦
      Option.map (λ value. trim_matches (trim value) b'"')
        (first_with_prefix (txt "VERSION_ID=") (lines contents))
]

abbrev pub extensions_dir : Text
extensions_dir = txt "/var/lib/extensions"

abbrev pub staging_dir : Text
staging_dir = txt "/var/lib/extensions/.carbide-staging"

unfoldable pub scope : Host → Text
unfolding os_version
scope h = unwrap_or (os_version h) (txt "unknown")

unfoldable pub legacy_active_path : Text → FilePath
legacy_active_path name = path extensions_dir (name ++ txt ".raw")

unfoldable pub scoped_active_path : Text → Text → FilePath
scoped_active_path name os = path extensions_dir (name ++ (txt "_" ++ (os ++ txt ".raw")))

unfoldable pub rollback_path : Text → Text → Text → FilePath
rollback_path os name version =
    path extensions_dir (name ++ (txt "_" ++ (os ++ (txt ".raw." ++ (version ++ txt ".rollback")))))

unfoldable pub candidate_path : Text → Text → Text → FilePath
candidate_path os name version =
    path extensions_dir
      (name ++ (txt "_" ++ (os ++ (txt ".raw." ++ (version ++ txt ".candidate")))))

unfoldable pub temporary_path : FilePath → FilePath
temporary_path target = path target.dir (txt "." ++ (target.name ++ txt ".new"))

-- The scoped image, or the unscoped one of a node provisioned before scoping.
unfoldable pub active_path : {E : Type 0} → Text → Act E FilePath
active_path name = do
  os ← get_host scope
  let scoped = scoped_active_path name os
  let legacy = legacy_active_path name
  scoped_present ← exists scoped
  legacy_present ← exists legacy
  pure (if scoped_present then scoped else if legacy_present then legacy else scoped)

-- Only a plain version may be interpolated into a path.
unfoldable pub is_version_char : ℕ → Bool
unfolding is_ascii_alphanumeric
is_version_char c = is_ascii_alphanumeric c || (c == b'.' || (c == b'_' || c == b'-'))

unfoldable pub version_valid : Text → Bool
unfolding is_version_char
version_valid [] = false
version_valid (first ∷ rest) = is_ascii_alphanumeric first && all is_version_char (first ∷ rest)
