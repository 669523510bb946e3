-- ===== src/System/Base.antt =====
-- Base images: which one is running, offered, pending, and which extensions have an image for it
-- (agent/src/system.rs).
use mathlib.Core.Option
use carbide_os.Prelude.{
  Bool, false, not, ◌&&◌, ◌||◌, Option, none, some, List, [], ◌∷◌, ◌++◌, if◌then◌else◌, any,
  is_empty,
}
use carbide_os.Text.{
  Text, txt, same, strip_prefix, strip_suffix, starts_with, ends_with, split_once, trim,
  trim_matches, lines,
}
use carbide_os.Host.{Host, IoError, Output, Result, ok, err}
use carbide_os.Effects.{Act, pure, raise, get_host, attempt, map_err, ◌>>=◌}
use carbide_os.Files.{call, read_dir}
use carbide_os.System.Slots.{extensions_dir, first_with_prefix, version_valid}
use carbide_os.System.Prune.{sort}
use carbide_os.System.Command.{run, succeeded, sysupdate}

abbrev pub boot_dir : Text
boot_dir = txt "/boot/EFI/Linux"

-- `flatten` over the entries of a directory: one that cannot be read is passed over.
unfoldable pub readable : {E : Type 0} → List Text → Act E (List Text)
readable [] = pure []
readable (name ∷ names) = do
  answer ← attempt call
  rest ← readable names
  pure (elim answer [ err e ↦ rest | ok t ↦ name ∷ rest ])

-- The name of an installed image, if it is a new one.
abbrev pub add_installed : List Text → Option Text → List Text
add_installed names none = names
add_installed names (some name) =
    if not (is_empty name) && not (any (λ existing. same existing name) names)
    then names ++ (name ∷ [])
    else names

unfoldable pub installed_names : Text → List Text → List Text → List Text
unfolding same strip_suffix
installed_names suffix names [] = names
installed_names suffix names (file_name ∷ rest) =
    installed_names suffix (add_installed names (strip_suffix file_name suffix)) rest

abbrev pub installed_of : {E : Type 0} → Text → Result IoError (List Text) → Act E (List Text)
installed_of suffix (err e) = pure []
installed_of suffix (ok entries) =
    readable entries >>= λ names. pure (sort (installed_names suffix [] names))

unfoldable pub installed_extensions_for : {E : Type 0} → Text → Act E (List Text)
installed_extensions_for base = do
  listed ← attempt (read_dir extensions_dir)
  installed_of (txt "_" ++ (base ++ txt ".raw")) listed

-- IMAGE_ID of /etc/os-release
unfoldable pub image_id : Host → Option Text
unfolding first_with_prefix
image_id h = elim h.os_release [
  | none ↦ none
  | some contents ↦
      Option.map (λ v. trim_matches v b'"') (first_with_prefix (txt "IMAGE_ID=") (lines contents))
]

abbrev counted : Option (Text × Text) → Option Text
counted none = none
counted (some (version, counter)) =
    if not (ends_with counter (txt ".efi")) || not (version_valid version)
    then none
    else some version

-- The version of a counted boot entry, `<id>_<version>+<tries>-<done>.efi`.
unfoldable pub counted_version : Text → Text → Option Text
unfolding strip_prefix split_once ends_with version_valid
counted_version prefix name = elim (strip_prefix name prefix) [
  | none ↦ none
  | some rest ↦ counted (split_once rest b'+')
]

abbrev ambiguous : Result Text (Option Text)
ambiguous = err (txt "more than one counted base image is pending")

-- One round of the loop, with what was found before it.
abbrev pub note_pending : Option Text → Option Text → Result Text (Option Text)
note_pending found none = ok found
note_pending none (some version) = ok (some version)
note_pending (some old) (some version) = ambiguous

unfoldable pub find_pending : Text → Option Text → List Text → Result Text (Option Text)
unfolding counted_version
find_pending prefix found [] = ok found
find_pending prefix found (name ∷ names) = elim (note_pending found (counted_version prefix name)) [
  | err reason ↦ err reason
  | ok found' ↦ find_pending prefix found' names
]

abbrev pub or_raise : {E A : Type 0} → Result E A → Act E A
or_raise (ok a) = pure a
or_raise (err e) = raise e

abbrev pub pending_of : Option Text → Act Text (Option Text)
pending_of none = raise (txt "could not read IMAGE_ID from /etc/os-release")
pending_of (some id) = do
  listed ← map_err (λ e. txt "could not read pending UKIs: " ++ e.message) (read_dir boot_dir)
  names ← readable listed
  or_raise (find_pending (id ++ txt "_") none names)

unfoldable pub pending_base_version : Act Text (Option Text)
pending_base_version = do id ← get_host image_id; pending_of id

abbrev is_entry : Text → Text → Bool
is_entry prefix name = starts_with name prefix && ends_with name (txt ".efi")

-- `find`
unfoldable pub first_entry : Text → List Text → Option Text
unfolding starts_with ends_with
first_entry prefix [] = none
first_entry prefix (name ∷ names) =
    let later = first_entry prefix names in if is_entry prefix name then some name else later

abbrev pub entry_among : {E : Type 0} → Text → Result IoError (List Text) → Act E (Option Text)
entry_among prefix (err e) = pure none
entry_among prefix (ok listed) = readable listed >>= λ names. pure (first_entry prefix names)

abbrev pub boot_entry_of : {E : Type 0} → Text → Option Text → Act E (Option Text)
boot_entry_of version none = pure none
boot_entry_of version (some id) =
    attempt (read_dir boot_dir) >>= entry_among (id ++ (txt "_" ++ (version ++ txt "+")))

unfoldable pub pending_boot_entry : {E : Type 0} → Text → Act E (Option Text)
pending_boot_entry version = get_host image_id >>= boot_entry_of version

abbrev not_run : IoError → Text
not_run e = txt "could not run systemd-sysupdate: " ++ e.message

abbrev offered : Text → Option Text
offered version = if is_empty version then none else some version

-- The feed offers a newer base, or it was read and offers none.
unfoldable pub available_base_version : Act Text (Option Text)
unfolding trim
available_base_version = do
  output ← map_err not_run (run sysupdate (txt "check-new" ∷ []))
  if succeeded output then pure (offered (trim output.stdout)) else do
    listed ← map_err not_run (run sysupdate (txt "list" ∷ []))
    if succeeded listed
        then pure none
        else raise (txt "systemd-sysupdate check-new failed: " ++ trim output.stderr)

abbrev answered : Result IoError Output → Bool
answered (ok output) = succeeded output
answered (err e) = false

unfoldable pub update_pending : {E : Type 0} → Act E Bool
update_pending = do answer ← attempt (run sysupdate (txt "pending" ∷ [])); pure (answered answer)
