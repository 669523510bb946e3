-- ===== src/System/Release.antt =====
-- What images and tools declare (agent/src/system.rs): release fields, listed versions, merged names.
pub mod Names
use carbide_os.Prelude.{
  ℕ, Bool, true, false, not, ◌&&◌, ◌||◌, Option, none, some, List, [], ◌∷◌, ◌++◌, map,
  if◌then◌else◌, keep_if, any, all, ◌==◌,
}
use mathlib.Core.List.{reverse}
use carbide_os.Text.{
  Text, txt, same, is_empty, strip_prefix, split_once, trim, trim_matches, lines, split_whitespace,
  eq_ignore_ascii_case,
}
use carbide_os.Host.{
  Host, FilePath, IoError, Output, Result, ok, err, Json, null, bool, num, str, arr, obj, Items,
  nil, cons, Members, end, member,
}
use carbide_os.Effects.{Act, pure, raise, get_host, attempt, ◌>>=◌}
use carbide_os.Files.{io_error}
use carbide_os.System.Slots.{is_version_char}
use carbide_os.System.Command.{Finished, succeeded, run, capture, sysupdate, dissect, policy_flag}

abbrev pub elements : Items → List Json
elements nil = []
elements (cons v l) = v ∷ elements l

-- `Value::as_array`, `Value::as_str` and `Value::get`.
abbrev pub as_array : Json → Option (List Json)
as_array (arr items) = some (elements items)
as_array _ = none

abbrev pub as_str : Json → Option Text
as_str (str s) = some s
as_str _ = none

-- serde_json keeps one member for each key, so the first that is found is the one.
unfoldable pub find_member : Text → Members → Option Json
unfolding same
find_member key end = none
find_member key (member k v l) = let rest = find_member key l in if same k key then some v else rest

abbrev pub member_of : Json → Text → Option Json
member_of (obj l) key = find_member key l
member_of _ key = none

-- `filter_map(as_str)`
unfoldable pub texts : List Json → List Text
texts [] = []
texts (v ∷ l) = let rest = texts l in elim (as_str v) [ none ↦ rest | some s ↦ s ∷ rest ]

-- The array under a key of a document.
abbrev pub array_at : Text → Json → Option (List Json)
array_at key v = elim (member_of v key) [ none ↦ none | some w ↦ as_array w ]

pub record ImageRelease : Type 0 where
  pub name : Option Text
  pub base : Option Text
  pub version : Option Text

abbrev pub no_release : ImageRelease
no_release = record { name = none; base = none; version = none }

-- `get_or_insert_with`: the first value stays.
abbrev pub or_first : Option Text → Text → Option Text
or_first none value = some (trim_matches value b'"')
or_first (some old) value = some old

-- The loop body over one `KEY=VALUE` entry.
unfoldable pub read_entry : ImageRelease → Text → ImageRelease
unfolding strip_prefix trim_matches
read_entry r entry = elim (strip_prefix entry (txt "VERSION_ID=")) [
  | some value ↦ record r { base = or_first r.base value }
  | none ↦ elim (strip_prefix entry (txt "SYSEXT_VERSION_ID=")) [
    | some value ↦ record r { version = or_first r.version value }
    | none ↦ elim (strip_prefix entry (txt "SYSEXT_ID=")) [
      | some value ↦ record r { name = or_first r.name value }
      | none ↦ r
    ]
  ]
]

unfoldable pub read_entries : ImageRelease → List Text → ImageRelease
unfolding read_entry
read_entries r [] = r
read_entries r (entry ∷ l) = read_entries (read_entry r entry) l

unfoldable pub parse_sysext_release : Host → Text → ImageRelease
unfolding read_entries texts find_member
parse_sysext_release h json = elim (h.parse_json json) [
  | none ↦ no_release
  | some parsed ↦ elim (array_at (txt "sysextRelease") parsed) [
    | none ↦ no_release
    | some entries ↦ read_entries no_release (texts entries)
  ]
]

-- A path as the text that a program is given.
abbrev pub shown : FilePath → Text
shown p = p.dir ++ (txt "/" ++ p.name)

unfoldable pub validate_image : FilePath → Act IoError Finished
validate_image p = capture dissect (txt "--validate" ∷ policy_flag ∷ shown p ∷ [])

unfoldable pub image_release : FilePath → Act IoError ImageRelease
image_release p = do
  finished ← capture dissect (txt "--json=short" ∷ shown p ∷ [])
  get_host (λ h. if finished.ok then parse_sysext_release h finished.stdout else no_release)

abbrev pub first_word : List Text → Act IoError Text
first_word [] = raise (io_error "could not read digest")
first_word (w ∷ l) = pure w

unfoldable pub sha256 : FilePath → Act IoError Text
unfolding split_whitespace
sha256 p = do
  finished ← capture (txt "/usr/bin/sha256sum") (shown p ∷ [])
  if finished.ok
      then first_word (split_whitespace finished.stdout)
      else raise (io_error "sha256sum failed")

-- A line of `components` that is a plausible name, and not the heading.
abbrev is_component : Text → Bool
is_component line =
    not (is_empty line)
    && (all is_version_char line && not (eq_ignore_ascii_case line (txt "components")))

abbrev listed_components : Finished → List Text
listed_components finished =
    if finished.ok then keep_if is_component (map trim (lines finished.stdout)) else []

-- Names that the agent can acquire by itself; none if the listing fails.
unfoldable pub components : {E : Type 0} → Act E (List Text)
components = do
  answer ← attempt (capture sysupdate (txt "components" ∷ []))
  pure (elim answer [ err e ↦ [] | ok finished ↦ listed_components finished ])

-- The `all` array of one line, if the line is such a document.
abbrev versions_of : Host → Text → Option (List Text)
versions_of h line = elim (h.parse_json (trim line)) [
  | none ↦ none
  | some parsed ↦ elim (array_at (txt "all") parsed) [
    | none ↦ none
    | some entries ↦ some (texts entries)
  ]
]

unfoldable pub first_versions : Host → List Text → Option (List Text)
unfolding texts find_member
first_versions h [] = none
first_versions h (line ∷ l) =
    let later = first_versions h l in
    elim (versions_of h line) [ none ↦ later | some versions ↦ some versions ]

unfoldable pub parse_listed_versions : Host → Text → Option (List Text)
unfolding first_versions
parse_listed_versions h stdout = first_versions h (reverse (lines stdout))

-- Everything from the first underscore is the version.
unfoldable pub extension_name : Text → Text
unfolding split_once
extension_name image = elim (split_once image b'_') [ none ↦ image | some (name, version) ↦ name ]

-- The names of one hierarchy's `extensions`, without repetition.
unfoldable pub add_names : List Text → List Text → List Text
unfolding extension_name same
add_names names [] = names
add_names names (image ∷ l) =
    let name = extension_name image in
    add_names (if any (λ n. same n name) names then names else names ++ (name ∷ [])) l

abbrev names_of : Json → List Text
names_of entry = elim (array_at (txt "extensions") entry) [
  | none ↦ []
  | some extensions ↦ texts extensions
]

unfoldable pub collect_names : List Text → List Json → List Text
unfolding add_names texts find_member
collect_names names [] = names
collect_names names (entry ∷ l) = collect_names (add_names names (names_of entry)) l

unfoldable pub parse_merged : Host → Text → List Text
unfolding collect_names
parse_merged h stdout = elim (h.parse_json stdout) [
  | none ↦ []
  | some parsed ↦ elim (as_array parsed) [ none ↦ [] | some entries ↦ collect_names [] entries ]
]

unfoldable pub merged_extensions : Act IoError (List Text)
merged_extensions = do
  output ← run (txt "/usr/bin/systemd-sysext") (txt "status" ∷ txt "--json=short" ∷ [])
  get_host (λ h. if succeeded output then parse_merged h output.stdout else [])
