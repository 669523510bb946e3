-- ===== src/State.antt =====
-- agent/src/state.rs: the durable record of the extensions, as a value.
-- A `BTreeMap` is an association list with its keys in order.
pub mod Map
pub mod History
pub mod Terminals
use carbide_os.Prelude.{
  ℕ, ◌-◌, Bool, true, false, not, Option, none, some, List, [], ◌∷◌, ◌++◌, if◌then◌else◌, any, drop,
  length, is_some, unwrap_or,
}
use carbide_os.Text.{Text, same, before}

pub data Phase : Type 0 where
  idle staged activating starting soaking active reverting recovered removing unrecoverable : Phase

-- A phase the agent should not automatically retry out of.
unfoldable pub is_terminal : Phase → Bool
is_terminal unrecoverable = true
is_terminal _ = false

pub record ExtensionState : Type 0 where
  pub required : Bool
  pub active_version : Option Text
  pub known_good_version : Option Text
  pub candidate_version : Option Text
  pub phase : Phase
  pub request_id : Option Text
  pub last_health : Option Text
  pub last_failure : Option Text
  pub terminal_os_version : Option Text
  pub completed_requests : List Text

-- `ExtensionState::default()`
abbrev pub fresh : ExtensionState
fresh = record {
  required = false;
  active_version = none;
  known_good_version = none;
  candidate_version = none;
  phase = idle;
  request_id = none;
  last_health = none;
  last_failure = none;
  terminal_os_version = none;
  completed_requests = [];
}

-- COMPLETED_REQUEST_HISTORY
abbrev pub completed_request_history : ℕ
completed_request_history = 64

unfoldable pub already_completed : ExtensionState → Text → Bool
already_completed e request_id = any (λ id. same id request_id) e.completed_requests

unfoldable pub record_completed : ExtensionState → Text → ExtensionState
unfolding already_completed
record_completed e request_id =
    if already_completed e request_id
    then e
    else let pushed = e.completed_requests ++ (request_id ∷ []) in
      record e { completed_requests = drop (length pushed - completed_request_history) pushed }

abbrev pub State : Type 0
State = List (Text × ExtensionState)

unfoldable pub get : State → Text → Option ExtensionState
get [] name = none
get ((j, e) ∷ s) name = let rest = get s name in if same j name then some e else rest

-- The update of a present entry.
replace : Text → (ExtensionState → ExtensionState) → State → State
replace name f [] = []
replace name f ((j, e) ∷ s) =
    let rest = replace name f s in if same j name then (j, f e) ∷ s else (j, e) ∷ rest

-- A new entry, at its place in the order of the keys.
insert_new : Text → ExtensionState → State → State
insert_new name e [] = (name, e) ∷ []
insert_new name e ((j, x) ∷ s) =
    let rest = insert_new name e s in
    if before name j then (name, e) ∷ (j, x) ∷ s else (j, x) ∷ rest

-- `entry`, and the assignments made through the reference that it returns.
unfoldable pub update_entry : Text → (ExtensionState → ExtensionState) → State → State
unfolding get replace insert_new
update_entry name f s =
    if is_some (get s name) then replace name f s else insert_new name (f fresh) s

-- Extensions this node is supposed to have, in the order of the keys.
unfoldable pub required_names : State → List Text
required_names [] = []
required_names ((name, e) ∷ s) =
    let rest = required_names s in if e.required then name ∷ rest else rest

-- What `forget_stale_terminals` does to one entry.
abbrev pub is_stale : Text → ExtensionState → Bool
is_stale current e =
    if is_terminal e.phase
    then elim e.terminal_os_version [ none ↦ true | some v ↦ not (same v current) ]
    else false

abbrev pub forgotten : ExtensionState → ExtensionState
forgotten e = record e { phase = idle; last_failure = none; terminal_os_version = none }

unfoldable pub forget_stale_terminals : Text → State → List Text × State
unfolding is_terminal
forget_stale_terminals current [] = ([], [])
forget_stale_terminals current ((name, e) ∷ s) =
    let (cleared, rest) = forget_stale_terminals current s in
    if is_stale current e
    then (name ∷ cleared, (name, forgotten e) ∷ rest)
    else (cleared, (name, e) ∷ rest)
