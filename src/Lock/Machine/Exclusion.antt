-- ===== src/Lock/Machine/Exclusion.antt =====
-- One agent at a time has the lock, and a program that changes images keeps it.
use carbide_os.Prelude.{
  ℕ, ◌+◌, ◌≡◌, ◌≢◌, refl, sym, ◌∙◌, arith, Bool, true, false, Option, none, some, ◌==◌,
  if◌then◌else◌,
}
use carbide_os.Lock.Machine.{
  Process, System, without_lock, set, own, try_acquire, exchanged, dropped, inherited, spawn, drop,
  die, release, Step, tries, spawns, drops, dies, releases, booted, Reach, here, later,
}

pub record IsExclusive (s : System) : Type 0 where
  -- an open lock file is the one that is locked
  pub open_is_locked : (p d : ℕ) → (s.at p).file ≡ some d → s.locked ≡ some d
  -- an agent that has taken the lock has the file open
  pub owned_is_open : (p d : ℕ) → (s.at p).slot ≡ some d → (s.at p).file ≡ some d
  -- only one has
  pub one_owner : (p q d e : ℕ) → (s.at p).slot ≡ some d → (s.at q).slot ≡ some e → p ≡ q

-- One process becomes `x`, and the lock stays as it is.
module _ (s : System) (i : IsExclusive s) (p : ℕ) (x : Process)
    (keeps_file : (d : ℕ) → x.file ≡ some d → s.locked ≡ some d)
    (keeps_owned : (d : ℕ) → x.slot ≡ some d → x.file ≡ some d)
    (keeps_slot : (d : ℕ) → x.slot ≡ some d → (s.at p).slot ≡ some d) where
  file_lem : (q d : ℕ) (b : Bool) → (if b then x else s.at q).file ≡ some d → s.locked ≡ some d
  file_lem q d true e = keeps_file d e
  file_lem q d false e = i.open_is_locked q d e

  owned_lem :
      (q d : ℕ) (b : Bool)
      → (if b then x else s.at q).slot ≡ some d
      → (if b then x else s.at q).file ≡ some d
  owned_lem q d true e = keeps_owned d e
  owned_lem q d false e = i.owned_is_open q d e

  slot_lem :
      (q d : ℕ) (b : Bool)
      → (q == p) ≡ b
      → (if b then x else s.at q).slot ≡ some d
      → (s.at q).slot ≡ some d
  slot_lem q d true t e = let here : q ≡ p = ground arith in rw here (keeps_slot d e)
  slot_lem q d false t e = e

  changed-IsExclusive : IsExclusive (record s { at = set p x s.at })
  unfolding set
  changed-IsExclusive = record {
    open_is_locked = λ q d. file_lem q d (q == p);
    owned_is_open = λ q d. owned_lem q d (q == p);
    one_owner = λ q r d e u v.
        i.one_owner q r d e (slot_lem q d (q == p) refl u) (slot_lem r e (r == p) refl v);
  }

-- The slot names the open file, so that dropping the lock always clears it.
exchanged_none :
    (slot file : Option ℕ) (d : ℕ)
    → ((d : ℕ) → slot ≡ some d → file ≡ some d)
    → exchanged slot file ≢ some d
exchanged_none none file d k e = cc
exchanged_none (some a) none d k e = let f = k a refl in cc
exchanged_none (some a) (some b) d k e = let f = k a refl in ground arith

module _ (s : System) (i : IsExclusive s) where
  untaken : s.locked ≡ none → (p d : ℕ) → (s.at p).file ≢ some d
  untaken n p d e = let l = i.open_is_locked p d e in cc

  -- A file that was locked goes to the one process that took it.
  module _ (n : s.locked ≡ none) (p : ℕ) where
    abbrev taken : ℕ → Process
    taken = set p (own s.next (s.at p)) s.at

    taken_file :
        (q d : ℕ) (b : Bool)
        → (if b then own s.next (s.at p) else s.at q).file ≡ some d
        → some s.next ≡ some d
    taken_file q d true e = e
    taken_file q d false e = elim (untaken n q d e) [ ]

    taken_owned :
        (q d : ℕ) (b : Bool)
        → (if b then own s.next (s.at p) else s.at q).slot ≡ some d
        → (if b then own s.next (s.at p) else s.at q).file ≡ some d
    taken_owned q d true e = e
    taken_owned q d false e = i.owned_is_open q d e

    taken_by :
        (q d : ℕ) (b : Bool)
        → (q == p) ≡ b
        → (if b then own s.next (s.at p) else s.at q).slot ≡ some d
        → q ≡ p
    taken_by q d true t e = ground arith
    taken_by q d false t e = elim (untaken n q d (i.owned_is_open q d e)) [ ]

    taken-IsExclusive : IsExclusive (record { at = taken; locked = some s.next; next = s.next + 1 })
    unfolding set
    taken-IsExclusive = record {
      open_is_locked = λ q d. taken_file q d (q == p);
      owned_is_open = λ q d. taken_owned q d (q == p);
      one_owner = λ q r d e u v. taken_by q d (q == p) refl u ∙ sym (taken_by r e (r == p) refl v);
    }

  tried :
      (p : ℕ) (o : Option ℕ)
      → s.locked ≡ o
      → IsExclusive
          (elim o as (λ _. System × Bool) [
            | some file ↦ (s, false)
            | none ↦ (
              record {
                at = set p (own s.next (s.at p)) s.at;
                locked = some s.next;
                next = s.next + 1;
              },
              true,
            )
          ]).0
  tried p (some file) e = i
  tried p none e = taken-IsExclusive e p

  inherited_file :
      (retained : Bool) (p d : ℕ) → (inherited retained (s.at p)).file ≡ some d → s.locked ≡ some d
  inherited_file true p d e = i.open_is_locked p d (i.owned_is_open p d e)
  inherited_file false p d e = cc

  inherited_slot : (retained : Bool) (p d : ℕ) → (inherited retained (s.at p)).slot ≢ some d
  inherited_slot true p d e = cc
  inherited_slot false p d e = cc

  released-IsExclusive :
      (file : ℕ)
      → s.locked ≡ some file
      → ((p : ℕ) → (s.at p).file ≢ some file)
      → IsExclusive (release s)
  released-IsExclusive file l n = record {
    open_is_locked = λ p d e.
        let f : some d ≡ some file = sym (i.open_is_locked p d e) ∙ l in elim (n p (e ∙ f)) [ ];
    owned_is_open = i.owned_is_open;
    one_owner = i.one_owner;
  }

pub Step-IsExclusive : {s t : System} → Step s t → IsExclusive s → IsExclusive t
unfolding try_acquire spawn drop die
Step-IsExclusive (tries s p) i = tried s i p s.locked refl
Step-IsExclusive (spawns s retained p c fresh) i =
    changed-IsExclusive s i c (inherited retained (s.at p)) (inherited_file s i retained p)
      (λ d e. elim (inherited_slot s i retained p d e) [ ])
      (λ d e. elim (inherited_slot s i retained p d e) [ ])
Step-IsExclusive (drops s p) i =
    let cleared = λ (d : ℕ). exchanged_none (s.at p).slot (s.at p).file d (i.owned_is_open p) in
    changed-IsExclusive s i p (dropped (s.at p)) (λ d e. cc) (λ d e. elim (cleared d e) [ ])
      (λ d e. elim (cleared d e) [ ])
Step-IsExclusive (dies s p) i =
    changed-IsExclusive s i p without_lock (λ d e. cc) (λ d e. cc) (λ d e. cc)
Step-IsExclusive (releases s file l n) i = released-IsExclusive s i file l n

booted-IsExclusive : IsExclusive booted
booted-IsExclusive = record {
  open_is_locked = λ p d e. cc;
  owned_is_open = λ p d e. cc;
  one_owner = λ p q d e u v. cc;
}

-- However agents take the lock, start programs, drop it and die, in any order: a lock file that a process
-- has open is the one that is locked, an agent that took the lock has it open, and no two agents have
-- taken it.
pub Reach-IsExclusive : (s : System) → Reach booted s → IsExclusive s
Reach-IsExclusive s here = booted-IsExclusive
Reach-IsExclusive s (later r st) = Step-IsExclusive st (Reach-IsExclusive _ r)
