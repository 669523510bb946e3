-- ===== src/Ops/Revision/Newest.antt =====
-- The choice of a revision is the greatest one (agent/src/ops.rs, `newest_for_base`).
use mathlib.Core.Option
use carbide_os.Prelude.{
  ℕ, ◌≤◌, ◌≡◌, refl, Bool, true, false, Option, none, some, List, [], ◌∷◌, arith, if◌then◌else◌,
  any, All, ltb,
}
use carbide_os.Text.{Text, same}
use carbide_os.Text.Laws.{same_refl}
use carbide_os.Ops.Revision.{revision_of, later_wins, choose, best_for_base, newest_for_base}

-- No version of the list has a greater revision.
abbrev AtMost : Text → ℕ → List Text → Type 0
AtMost base n vs = All (λ u. (m : ℕ) → revision_of base u ≡ some m → m ≤ n) vs

abbrev IsBest : Text → List Text → Option (ℕ × Text) → Type 0
IsBest base vs none = All (λ u. revision_of base u ≡ none) vs
IsBest base vs (some (n, v)) =
    (revision_of base v ≡ some n) × (any (λ u. same u v) vs ≡ true) × AtMost base n vs

-- What is chosen is of the list and fits the base with a revision that none exceeds; where nothing is
-- chosen, nothing of the list fits the base.
pub IsNewest : Text → List Text → Option Text → Type 0
IsNewest base vs none = All (λ u. revision_of base u ≡ none) vs
IsNewest base vs (some v) =
    (n : ℕ) × (revision_of base v ≡ some n) × (any (λ u. same u v) vs ≡ true) × AtMost base n vs

not_less : (m n : ℕ) → ltb m n ≡ false → n ≤ m
not_less m n c = ground arith

module _ (base : Text) where
  AtMost-mono : (m n : ℕ) (vs : List Text) → m ≤ n → AtMost base m vs → AtMost base n vs
  AtMost-mono m n [] l a = tt
  AtMost-mono m n (v ∷ vs) l (a, rest) = ((λ k e. omega (arith, a k e)), AtMost-mono m n vs l rest)

  AtMost-unfit :
      (n : ℕ) (vs : List Text) → All (λ u. revision_of base u ≡ none) vs → AtMost base n vs
  AtMost-unfit n [] a = tt
  AtMost-unfit n (v ∷ vs) (a, rest) = ((λ k e. cc), AtMost-unfit n vs rest)

  own_revision :
      (v : Text) (n k : ℕ) → revision_of base v ≡ some n → revision_of base v ≡ some k → k ≤ n
  own_revision v n k e e' = ground arith

  greater-IsBest :
      (b : Bool) (n m : ℕ) (v u : Text) (vs : List Text)
      → ltb m n ≡ b
      → revision_of base v ≡ some n
      → IsBest base vs (some (m, u))
      → IsBest base (v ∷ vs) (if b then some (n, v) else some (m, u))
  greater-IsBest true n m v u vs c e (r, k, a) = (
    e,
    rw (same_refl v) refl,
    ((λ k' e'. own_revision v n k' e e'), AtMost-mono m n vs (ground arith) a),
  )
  greater-IsBest false n m v u vs c e (r, k, a) =
      (r, ground arith, ((λ k' e'. omega (arith, own_revision v n k' e e', not_less m n c)), a))

  wins-IsBest :
      (n : ℕ) (v : Text) (vs : List Text) (best : Option (ℕ × Text))
      → revision_of base v ≡ some n
      → IsBest base vs best
      → IsBest base (v ∷ vs) (later_wins n v best)
  wins-IsBest n v vs none e b =
      (e, rw (same_refl v) refl, ((λ k e'. own_revision v n k e e'), AtMost-unfit n vs b))
  wins-IsBest n v vs (some (m, u)) e b = greater-IsBest (ltb m n) n m v u vs refl e b

  choose-IsBest :
      (o : Option ℕ) (v : Text) (vs : List Text) (best : Option (ℕ × Text))
      → revision_of base v ≡ o
      → IsBest base vs best
      → IsBest base (v ∷ vs) (choose o v best)
  choose-IsBest none v vs none e b = (e, b)
  choose-IsBest none v vs (some (m, u)) e (r, h, a) = (r, ground arith, ((λ k e'. cc), a))
  choose-IsBest (some n) v vs best e b = wins-IsBest n v vs best e b

  best_for_base-IsBest : (vs : List Text) → IsBest base vs (best_for_base base vs)
  unfolding best_for_base
  best_for_base-IsBest [] = tt
  best_for_base-IsBest (v ∷ vs) =
      choose-IsBest (revision_of base v) v vs (best_for_base base vs) refl (best_for_base-IsBest vs)

  map-IsNewest :
      (vs : List Text) (best : Option (ℕ × Text))
      → IsBest base vs best
      → IsNewest base vs (Option.map (λ (n, v). v) best)
  unfolding IsNewest
  map-IsNewest vs none b = b
  map-IsNewest vs (some (n, v)) (r, k, a) = (n, r, k, a)

-- The version chosen for a base is one of the feed's, and it fits the base with a revision that no
-- other version of the feed exceeds; where none is chosen, none of the feed fits the base.
pub newest_for_base-IsNewest :
    (base : Text) (versions : List Text) → IsNewest base versions (newest_for_base base versions)
unfolding newest_for_base
newest_for_base-IsNewest base versions =
    map-IsNewest base versions (best_for_base base versions) (best_for_base-IsBest base versions)
