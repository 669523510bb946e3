-- ===== src/System/Release/Names.antt =====
-- The name of an extension, read back from the name of its image (agent/src/system.rs).
use mathlib.Core.Option
use carbide_os.Prelude.{◌≡◌, refl, false, some, ◌∷◌, ◌++◌, ap, append_assoc}
use carbide_os.Text.{Text, txt, contains_char, strip_suffix}
use carbide_os.Text.Laws.{split_once-append, split_once-eq-none, strip_suffix-append}
use carbide_os.System.Slots.{scoped_active_path, legacy_active_path}
use carbide_os.System.Release.{extension_name}

underscore : (t : Text) → txt "_" ++ t ≡ b'_' ∷ t
unfolding txt
underscore t = refl

pub extension_name_scoped :
    (name rest : Text)
    → contains_char name b'_' ≡ false
    → extension_name (name ++ (txt "_" ++ rest)) ≡ name
unfolding extension_name
extension_name_scoped name rest h =
    rw (underscore rest) (rw (split_once-append name rest b'_' h, extension_name) refl)

scoped_end :
    (name os : Text)
    → name ++ (txt "_" ++ (os ++ txt ".raw")) ≡ (name ++ (txt "_" ++ os)) ++ txt ".raw"
scoped_end name os = simp append_assoc

-- The image that the agent writes for an extension, scoped or not, is listed under the extension's
-- own name, if that name holds no underscore: what is left without the suffix `.raw` leads back to it.
pub extension_name-active :
    (name os : Text)
    → contains_char name b'_' ≡ false
    → (Option.map extension_name (strip_suffix (scoped_active_path name os).name (txt ".raw"))
        ≡ some name)
      × (Option.map extension_name (strip_suffix (legacy_active_path name).name (txt ".raw"))
          ≡ some name)
unfolding scoped_active_path legacy_active_path extension_name
extension_name-active name os h = (
  (rw (scoped_end name os) (
      rw (strip_suffix-append (name ++ (txt "_" ++ os)) (txt ".raw"))
        (ap some (extension_name_scoped name os h)))),
  rw (strip_suffix-append name (txt ".raw"))
      (rw (split_once-eq-none name b'_' h, extension_name) refl),
)
