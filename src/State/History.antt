-- ===== src/State/History.antt =====
-- The bounded list of completed requests.
use carbide_os.Prelude.{
  ◌≡◌, ◌≤◌, true, [], ◌∷◌, arith, length, length-append, length-drop, any-drop_last, Bool-cases,
  inl, inr,
}
use carbide_os.Text.{Text}
use carbide_os.Text.Laws.{same_refl}
use carbide_os.State.{
  ExtensionState, already_completed, record_completed, completed_request_history,
}

-- Recording a request leaves at most 64 recorded, if there were no more before.
pub record_completed-bounded :
    (e : ExtensionState) (id : Text)
    → length e.completed_requests ≤ completed_request_history
    → length (record_completed e id).completed_requests ≤ completed_request_history
unfolding record_completed
record_completed-bounded e id h = elim (Bool-cases (already_completed e id)) [
  | inl old ↦ rw old h
  | inr new ↦ rw new (rw length-drop (omega (arith, length-append e.completed_requests (id ∷ []))))
]

-- A request that has just been recorded counts as completed, however full the list was.
pub already_completed-record_completed :
    (e : ExtensionState) (id : Text) → already_completed (record_completed e id) id ≡ true
unfolding record_completed
already_completed-record_completed e id = elim (Bool-cases (already_completed e id)) [
  | inl old ↦ rw old old
  | inr new ↦ rw new (
      any-drop_last _ _ e.completed_requests id
        (omega (arith, length-append e.completed_requests (id ∷ []))) (same_refl id))
]
