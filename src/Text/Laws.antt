-- ===== src/Text/Laws.antt =====
-- Laws of the methods of text.
use carbide_os.Prelude.{
  ℕ, ◌≡◌, refl, ap, ◌↔◌, ◌≢◌, true, false, none, some, [], ◌∷◌, ◌++◌, arith, length, length-append,
}
use carbide_os.Text.Basic.{
  Text, same, strip_prefix, strip_suffix, starts_with, ends_with, contains_char, split_once,
}

pub same_sound : (s t : Text) → same s t ≡ true → s ≡ t
unfolding same
same_sound [] [] h = refl
same_sound [] (b ∷ t) h = cc
same_sound (a ∷ s) [] h = cc
same_sound (a ∷ s) (b ∷ t) h = ground (arith, same_sound s t)

pub same_refl : (s : Text) → same s s ≡ true
unfolding same
same_refl [] = refl
same_refl (a ∷ s) = ground (arith, same_refl s)

pub same_iff : (s t : Text) → (same s t ≡ true) ↔ (s ≡ t)
same_iff s t = (same_sound s t, λ e. rw e (same_refl t))

pub strip_prefix-append : (p s : Text) → strip_prefix (p ++ s) p ≡ some s
unfolding strip_prefix
strip_prefix-append [] s = refl
strip_prefix-append (a ∷ p) s = ground (arith, strip_prefix-append p s)

pub strip_prefix_sound : (s p : Text) {r : Text} → strip_prefix s p ≡ some r → s ≡ p ++ r
unfolding strip_prefix
strip_prefix_sound s [] h = ground arith
strip_prefix_sound [] (b ∷ p) h = cc
strip_prefix_sound (a ∷ s) (b ∷ p) {r} h = ground (arith, strip_prefix_sound s p {r = r})

pub strip_suffix_sound : (s p : Text) {r : Text} → strip_suffix s p ≡ some r → s ≡ r ++ p
unfolding strip_suffix
strip_suffix_sound [] [] h = ground arith
strip_suffix_sound [] (b ∷ p) h = cc
strip_suffix_sound (a ∷ s) p {r = []} h = ground (arith, same_iff (a ∷ s) p)
strip_suffix_sound (a ∷ s) p {r = c ∷ r} h =
    ground (arith, same_iff (a ∷ s) p, strip_suffix_sound s p {r = r})

length-append_pos : (s p : Text) (a : ℕ) → (a ∷ s) ++ p ≢ p
length-append_pos s p a e = omega (arith, ap length e, length-append {0} s p)

pub strip_suffix-append : (s p : Text) → strip_suffix (s ++ p) p ≡ some s
unfolding strip_suffix
strip_suffix-append [] [] = refl
strip_suffix-append [] (b ∷ p) = ground (arith, same_refl (b ∷ p))
strip_suffix-append (a ∷ s) p =
    ground (arith, strip_suffix-append s p, same_sound ((a ∷ s) ++ p) p, length-append_pos s p a)

pub starts_with-append : (p s : Text) → starts_with (p ++ s) p ≡ true
unfolding starts_with
starts_with-append p s = rw (strip_prefix-append p s)

pub ends_with-append : (s p : Text) → ends_with (s ++ p) p ≡ true
unfolding ends_with
ends_with-append s p = rw (strip_suffix-append s p)

-- The part before the first `c` holds no `c`.
pub split_once-append :
    (s t : Text) (c : ℕ) → contains_char s c ≡ false → split_once (s ++ (c ∷ t)) c ≡ some (s, t)
unfolding split_once contains_char
split_once-append [] t c h = ground arith
split_once-append (a ∷ s) t c h = ground (arith, split_once-append s t c)

pub split_once-eq-none : (s : Text) (c : ℕ) → contains_char s c ≡ false → split_once s c ≡ none
unfolding split_once contains_char
split_once-eq-none [] c h = refl
split_once-eq-none (a ∷ s) c h = ground (arith, split_once-eq-none s c)

pub split_once_sound :
    (s : Text) (c : ℕ) {b t : Text}
    → split_once s c ≡ some (b, t)
    → (s ≡ b ++ (c ∷ t)) × (contains_char b c ≡ false)
unfolding split_once contains_char
split_once_sound [] c h = cc
split_once_sound (a ∷ s) c {b = []} {t} h = ground arith
split_once_sound (a ∷ s) c {b = d ∷ b} {t} h = ground (arith, split_once_sound s c {b = b} {t = t})

-- Ends of the same length of one text are the same.
pub append_inj_end : (s t p q : Text) → length p ≡ length q → s ++ p ≡ t ++ q → p ≡ q
append_inj_end [] [] p q l e = e
append_inj_end [] (y ∷ t) p q l e = ground (arith, ap length e, length-append {0} t q)
append_inj_end (x ∷ s) [] p q l e = ground (arith, ap length e, length-append {0} s p)
append_inj_end (x ∷ s) (y ∷ t) p q l e = append_inj_end s t p q l cc

pub distinct_ends : (s t p q : Text) → length p ≡ length q → same p q ≡ false → s ++ p ≢ t ++ q
distinct_ends s t p q l d e = ground (arith, (same_iff p q).1 (append_inj_end s t p q l e))
