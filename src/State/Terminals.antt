-- ===== src/State/Terminals.antt =====
-- Refusals recorded under another base image.
use carbide_os.Prelude.{
  ◌≡◌, ◌≢◌, ◌⊎◌, ◌↔◌, inl, inr, refl, Bool, true, false, not, Option, none, some, [], ◌∷◌, arith,
  if◌then◌else◌,
}
use mathlib.Core.Option
use carbide_os.Text.{Text, same}
use carbide_os.Text.Laws.{same_iff}
use carbide_os.State.{
  State, ExtensionState, Phase, get, is_terminal, is_stale, forgotten, forget_stale_terminals, idle,
  staged, activating, starting, soaking, active, reverting, recovered, removing, unrecoverable,
}

abbrev after_forgetting : Text → ExtensionState → ExtensionState
after_forgetting current e = if is_stale current e then forgotten e else e

get-forget_stale_terminals :
    (current : Text) (s : State) (name : Text)
    → get (forget_stale_terminals current s).1 name
      ≡ Option.map (after_forgetting current) (get s name)
unfolding get forget_stale_terminals
get-forget_stale_terminals current [] name = refl
get-forget_stale_terminals current ((j, e) ∷ s) name =
    ground (arith, get-forget_stale_terminals current s name)

-- A refusal that was not recorded under `current` is dropped with its reason, and what else the entry
-- says stays.
abbrev pub Dropped : Text → ExtensionState → ExtensionState → Type 0
Dropped current e e' =
    (e.phase ≡ unrecoverable)
    × (e.terminal_os_version ≢ some current)
    × (e' ≡ record e { phase = idle; last_failure = none; terminal_os_version = none })

-- A refusal that was recorded under `current`, or an entry without one, stays as it is.
abbrev pub Retained : Text → ExtensionState → ExtensionState → Type 0
Retained current e e' =
    ((e.phase ≢ unrecoverable) ⊎ (e.terminal_os_version ≡ some current)) × (e' ≡ e)

-- What an entry is before and after, if there is one.
abbrev pub Treated : Text → Option ExtensionState → Option ExtensionState → Type 0
Treated current none none = Unit
Treated current none (some e') = ⊥
Treated current (some e) none = ⊥
Treated current (some e) (some e') = Dropped current e e' ⊎ Retained current e e'

terminal_iff : (p : Phase) → (is_terminal p ≡ true) ↔ (p ≡ unrecoverable)
unfolding is_terminal
terminal_iff idle = ((λ e. cc), (λ e. cc))
terminal_iff staged = ((λ e. cc), (λ e. cc))
terminal_iff activating = ((λ e. cc), (λ e. cc))
terminal_iff starting = ((λ e. cc), (λ e. cc))
terminal_iff soaking = ((λ e. cc), (λ e. cc))
terminal_iff active = ((λ e. cc), (λ e. cc))
terminal_iff reverting = ((λ e. cc), (λ e. cc))
terminal_iff recovered = ((λ e. cc), (λ e. cc))
terminal_iff removing = ((λ e. cc), (λ e. cc))
terminal_iff unrecoverable = ((λ e. refl), (λ e. refl))

treating :
    (current : Text) (e : ExtensionState) (o : Option Text) (b b' : Bool)
    → e.terminal_os_version ≡ o
    → is_terminal e.phase ≡ b
    → (elim o [ none ↦ true | some v ↦ not (same v current) ]) ≡ b'
    → Dropped current e (after_forgetting current e)
      ⊎ Retained current e (after_forgetting current e)
treating current e o false b' k t d =
    inr (inl (λ u. let x = (terminal_iff e.phase).1 u in cc), rw t refl)
treating current e none true b' k t d = inl ((terminal_iff e.phase).0 t, (λ u. cc), rw (t, k) refl)
treating current e (some v) true false k t d =
    let v_is : v ≡ current = (same_iff v current).0 (ground arith) in
    inr (inr (rw (← v_is) k), rw (t, k, d) refl)
treating current e (some v) true true k t d =
    let differs : v ≢ current = λ u. let x = (same_iff v current).1 u in ground arith in
    inl ((terminal_iff e.phase).0 t, (λ u. let x = k in differs cc), rw (t, k, d) refl)

treated :
    (current : Text) (o : Option ExtensionState)
    → Treated current o (Option.map (after_forgetting current) o)
treated current none = tt
treated current (some e) = treating current e e.terminal_os_version _ _ refl refl refl

-- Under the base image `current`, forgetting drops exactly the refusals, of whatever name, that were
-- recorded under any other base image or under none: the entry goes back to idle, its reason and that
-- base image are dropped, and the rest of it stays. Every other entry stays as it is, and none appears
-- or goes.
pub forget_stale_terminals-Treated :
    (current : Text) (s : State) (name : Text)
    → Treated current (get s name) (get (forget_stale_terminals current s).1 name)
forget_stale_terminals-Treated current s name =
    rw (get-forget_stale_terminals current s name) (treated current (get s name))

-- Forgetting a second time under the same base image clears nothing.
pub forget_stale_terminals_idem :
    (current : Text) (s : State)
    → (forget_stale_terminals current (forget_stale_terminals current s).1).0 ≡ []
unfolding forget_stale_terminals
forget_stale_terminals_idem current [] = refl
forget_stale_terminals_idem current ((j, e) ∷ s) =
    ground (arith, forget_stale_terminals_idem current s)
