-- ===== src/State/Map.antt =====
-- The laws of `get` and `update_entry`: what one operation writes, every other entry keeps.
use carbide_os.Prelude.{
  ◌≡◌, refl, none, some, [], ◌∷◌, arith, if◌then◌else◌, unwrap_or, Option-cases, inl, inr,
}
use carbide_os.Text.{Text, same}
use carbide_os.Text.Laws.{same_iff, same_refl}
use carbide_os.State.{State, ExtensionState, fresh, get, replace, insert_new, update_entry}

module _ (name j : Text) (f : ExtensionState → ExtensionState) where
  get-replace :
      (s : State) {e : ExtensionState}
      → get s name ≡ some e
      → get (replace name f s) j ≡ (if same name j then some (f e) else get s j)
  unfolding get replace
  get-replace [] h = cc
  get-replace ((k, x) ∷ s) {e} h =
      ground (arith, get-replace s {e = e}, same_iff k name, same_iff k j, same_iff name j)

module _ (name j : Text) (e : ExtensionState) where
  get-insert_new :
      (s : State)
      → get s name ≡ none
      → get (insert_new name e s) j ≡ (if same name j then some e else get s j)
  unfolding get insert_new
  get-insert_new [] h = refl
  get-insert_new ((k, x) ∷ s) h =
      ground (arith, get-insert_new s, same_iff k name, same_iff k j, same_iff name j)

-- An update of `name` is seen at `name`, with the default entry where there was none, and at no
-- other name.
pub get-update_entry :
    (name j : Text) (f : ExtensionState → ExtensionState) (s : State)
    → get (update_entry name f s) j
      ≡ (if same name j then some (f (unwrap_or (get s name) fresh)) else get s j)
unfolding update_entry
get-update_entry name j f s = elim (Option-cases (get s name)) [
  | inl absent ↦ rw absent (get-insert_new name j (f fresh) s absent)
  | inr (e, present) ↦ rw present (get-replace name j f s present)
]

pub get-update_entry_self :
    (name : Text) (f : ExtensionState → ExtensionState) (s : State)
    → get (update_entry name f s) name ≡ some (f (unwrap_or (get s name) fresh))
get-update_entry_self name f s = rw (get-update_entry name name f s, same_refl name)
