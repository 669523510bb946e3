-- ===== src/Ops/Apart.antt =====
-- The image of an extension for a base, and an image of another name (agent/src/system.rs,
-- `scoped_active_path`).
use carbide_os.Prelude.{◌≡◌, sym, ap, ◌∙◌, ◌++◌, append_assoc}
use mathlib.Core.List.{append_cancel_right}
use carbide_os.Text.{Text, txt}
use carbide_os.Host.{FilePath}
use carbide_os.System.Slots.{scoped_active_path}
use carbide_os.System.Slots.Mergeable.{mergeable}

module _ (name m base : Text) where
  regrouped : name ++ (txt "_" ++ (base ++ txt ".raw")) ≡ (name ++ (txt "_" ++ base)) ++ txt ".raw"
  regrouped = simp append_assoc

  -- An image goes into the slot of another one only if that one has its name.
  pub slot_name : scoped_active_path name base ≡ mergeable m → m ≡ name ++ (txt "_" ++ base)
  unfolding scoped_active_path
  slot_name e = append_cancel_right _ _ (txt ".raw") (sym (ap FilePath.name e) ∙ regrouped)
