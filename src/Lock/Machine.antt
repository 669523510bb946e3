-- ===== src/Lock/Machine.antt =====
-- Processes and the lock file (agent/src/state.rs, `OperationLock` and `retain_operation_lock`): which
-- process has the lock as agents take it, start programs, drop it and die.
pub mod Exclusion
pub mod Succession
use carbide_os.Prelude.{
  ℕ, ◌+◌, ◌≡◌, ◌≢◌, Bool, true, false, Option, none, some, ◌==◌, if◌then◌else◌,
}

-- What a process has to do with the lock. An open file is named by a number, which its copies in other
-- processes share; the system's lock belongs to the open file.
pub record Process : Type 0 where
  -- OPERATION_LOCK_FD, where it is not -1
  pub slot : Option ℕ
  -- the lock file, where the process has it open
  pub file : Option ℕ

abbrev pub without_lock : Process
without_lock = record { slot = none; file = none }

pub record System : Type 0 where
  -- every process by its number; one that does not run has nothing open
  pub at : ℕ → Process
  -- the open file that the system's lock is on
  pub locked : Option ℕ
  -- the number of the next file to be opened
  pub next : ℕ

unfoldable pub set : ℕ → Process → (ℕ → Process) → ℕ → Process
set p x at q = if q == p then x else at q

-- `OperationLock::own`
abbrev pub own : ℕ → Process → Process
own file x = record { slot = some file; file = some file }

-- `try_acquire_at`, and `acquire` where it does not wait: whether the lock was taken. A file that could
-- not be locked is closed again.
unfoldable pub try_acquire : ℕ → System → System × Bool
unfolding set
try_acquire p s = elim s.locked [
  | some file ↦ (s, false)
  | none ↦ (
    record { at = set p (own s.next (s.at p)) s.at; locked = some s.next; next = s.next + 1 },
    true,
  )
]

-- The exchange that happens only where the slot names the file.
abbrev pub exchanged : Option ℕ → Option ℕ → Option ℕ
exchanged none file = none
exchanged (some d) none = some d
exchanged (some d) (some file) = if d == file then none else some d

-- `Drop for OperationLock`, and the file is closed.
abbrev pub dropped : Process → Process
dropped x = record { slot = exchanged x.slot x.file; file = none }

-- What a program inherits that is started with or without `retain_operation_lock`.
abbrev pub inherited : Bool → Process → Process
inherited true x = record { slot = none; file = x.slot }
inherited false x = without_lock

-- Process `p` starts the program `c`.
unfoldable pub spawn : Bool → ℕ → ℕ → System → System
unfolding set
spawn retained p c s = record s { at = set c (inherited retained (s.at p)) s.at }

unfoldable pub drop : ℕ → System → System
unfolding set
drop p s = record s { at = set p (dropped (s.at p)) s.at }

unfoldable pub die : ℕ → System → System
unfolding set
die p s = record s { at = set p without_lock s.at }

-- The system lets a lock go once no process has its file open.
abbrev pub release : System → System
release s = record s { locked = none }

pub data Step : System → System → Type 0 where
  tries : (s : System) (p : ℕ) → Step s (try_acquire p s).0
  spawns :
      (s : System) (retained : Bool) (p c : ℕ)
      → s.at c ≡ without_lock
      → Step s (spawn retained p c s)
  drops : (s : System) (p : ℕ) → Step s (drop p s)
  dies : (s : System) (p : ℕ) → Step s (die p s)
  releases :
      (s : System) (file : ℕ)
      → s.locked ≡ some file
      → ((p : ℕ) → (s.at p).file ≢ some file)
      → Step s (release s)

abbrev pub booted : System
booted = record { at = λ p. without_lock; locked = none; next = 0 }

pub data Reach (s : System) : System → Type 0 where
  here : Reach s s
  later : {t u : System} → Reach s t → Step t u → Reach s u
