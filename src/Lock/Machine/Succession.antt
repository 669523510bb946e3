-- ===== src/Lock/Machine/Succession.antt =====
-- What happens to the lock when the agent that took it dies.
use carbide_os.Prelude.{
  ℕ, ◌≡◌, ◌≢◌, refl, ap, ◌∙◌, arith, Bool, true, false, none, some, ◌==◌, if◌then◌else◌,
}
use carbide_os.Lock.Machine.{
  Process, System, without_lock, set, try_acquire, exchanged, dropped, drop, inherited, spawn, die,
  release, Step, spawns, dies, releases, booted, Reach, here, later,
}
use carbide_os.Lock.Machine.Exclusion.{Reach-IsExclusive}

-- Whether process `q` gets the lock if it tries.
abbrev pub gets : ℕ → System → Bool
gets q s = (try_acquire q s).1

locked_out : (s : System) (q d : ℕ) → s.locked ≡ some d → gets q s ≡ false
unfolding try_acquire
locked_out s q d e = rw e refl

let_in : (s : System) (q : ℕ) → s.locked ≡ none → gets q s ≡ true
unfolding try_acquire
let_in s q e = rw e refl

-- The state after `p` has started `c` and died.
abbrev pub orphaned : Bool → ℕ → ℕ → System → System
orphaned retained p c s = die p (spawn retained p c s)

set_same : (p : ℕ) (x : Process) (at : ℕ → Process) → set p x at p ≡ x
unfolding set
set_same p x at = ground arith

set_other : (p q : ℕ) (x : Process) (at : ℕ → Process) → q ≢ p → set p x at q ≡ at q
unfolding set
set_other p q x at d = ground arith

module _ (s : System) (p c : ℕ) (other : c ≢ p) where
  -- The child's part.
  child_lem : (retained : Bool) → (orphaned retained p c s).at c ≡ inherited retained (s.at p)
  unfolding die spawn
  child_lem retained =
      set_other p c without_lock (spawn retained p c s).at other ∙ set_same c _ s.at

Reach-trans : {s t u : System} → Reach s t → Reach t u → Reach s u
Reach-trans r here = r
Reach-trans r (later r' st) = later (Reach-trans r r') st

-- Where an agent that took the lock has started a program with the lock retained and died, the program
-- has the lock file open, and as long as it has, in every state that the system can get to from there, no
-- process gets the lock.
pub child-keeps_lock :
    (s : System) (p c d : ℕ)
    → Reach booted s
    → (s.at p).slot ≡ some d
    → s.at c ≡ without_lock
    → c ≢ p
    → (((orphaned true p c s).at c).file ≡ some d)
      × ((t : System) (q : ℕ)
          → Reach (orphaned true p c s) t
          → (t.at c).file ≡ some d
          → gets q t ≡ false)
child-keeps_lock s p c d r owned fresh other = (
  ap Process.file (child_lem s p c other true) ∙ owned,
  λ t q r' e.
      let all =
        Reach-trans (later (later r (spawns s true p c fresh)) (dies (spawn true p c s) p)) r' in
      locked_out t q d ((Reach-IsExclusive t all).open_is_locked c d e),
)

module _ (s : System) (p c : ℕ) (alone : (r : ℕ) → r ≢ p → (s.at r).file ≡ none) where
  closed_if :
      (r : ℕ) (b b' : Bool)
      → (r == p) ≡ b
      → (if b then without_lock else if b' then inherited false (s.at p) else s.at r).file ≡ none
  closed_if r true b' e = refl
  closed_if r false true e = refl
  closed_if r false false e = let d : r ≢ p = λ k. ground arith in alone r d

  closed : (r : ℕ) → ((orphaned false p c s).at r).file ≡ none
  unfolding die spawn set
  closed r = closed_if r (r == p) (r == c) refl

orphaned_lock : (s : System) (p c : ℕ) (b : Bool) → (orphaned b p c s).locked ≡ s.locked
unfolding die spawn
orphaned_lock s p c b = refl

-- Where no process but the agent that took the lock has the lock file open, and the agent has started a
-- program without the lock and died, the system lets the lock go while the program runs on, and from then
-- on any process gets it.
pub child-without_lock :
    (s : System) (p c d q : ℕ)
    → Reach booted s
    → (s.at p).slot ≡ some d
    → ((r : ℕ) → r ≢ p → (s.at r).file ≡ none)
    → Step (orphaned false p c s) (release (orphaned false p c s))
      × (gets q (release (orphaned false p c s)) ≡ true)
child-without_lock s p c d q r owned alone =
    let i = Reach-IsExclusive s r in
    let l = i.open_is_locked p d (i.owned_is_open p d owned) in
    (
      releases (orphaned false p c s) d (orphaned_lock s p c false ∙ l)
          (λ q' e. let n = closed s p c alone q' in cc),
      let_in (release (orphaned false p c s)) q refl,
    )

module _ (s : System) (p : ℕ) (alone : (r : ℕ) → r ≢ p → (s.at r).file ≡ none) where
  closed_by_drop :
      (r : ℕ) (b : Bool) → (r == p) ≡ b → (if b then dropped (s.at p) else s.at r).file ≡ none
  closed_by_drop r true e = refl
  closed_by_drop r false e = let d : r ≢ p = λ k. ground arith in alone r d

  all_closed : (r : ℕ) → ((drop p s).at r).file ≡ none
  unfolding drop set
  all_closed r = closed_by_drop r (r == p) refl

drop_lock : (s : System) (p : ℕ) → (drop p s).locked ≡ s.locked
unfolding drop
drop_lock s p = refl

gone : (d : ℕ) → exchanged (some d) (some d) ≡ none
gone d = ground arith

dropped_by_owner :
    (x : Process) (d : ℕ) → x.slot ≡ some d → x.file ≡ some d → dropped x ≡ without_lock
dropped_by_owner x d e e' = rw (e, e') (ap (λ o. record { slot = o; file = none }) (gone d))

dropping : (s : System) (p : ℕ) → (drop p s).at p ≡ dropped (s.at p)
unfolding drop
dropping s p = set_same p (dropped (s.at p)) s.at

-- Where no process but the agent that took the lock has the lock file open, as when the programs that it
-- started have ended, and the agent drops the lock, the agent has neither the file nor the slot any more,
-- the system can let the lock go, and from then on any process gets it.
pub drop-frees_lock :
    (s : System) (p d q : ℕ)
    → Reach booted s
    → (s.at p).slot ≡ some d
    → ((r : ℕ) → r ≢ p → (s.at r).file ≡ none)
    → ((drop p s).at p ≡ without_lock)
      × Step (drop p s) (release (drop p s))
      × (gets q (release (drop p s)) ≡ true)
drop-frees_lock s p d q r owned alone =
    let i = Reach-IsExclusive s r in
    let opened = i.owned_is_open p d owned in
    (
      dropping s p ∙ dropped_by_owner (s.at p) d owned opened,
      releases (drop p s) d (drop_lock s p ∙ i.open_is_locked p d opened)
          (λ q' e. let n = all_closed s p alone q' in cc),
      let_in (release (drop p s)) q refl,
    )
