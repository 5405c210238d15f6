-- ===== src/Base/Text/Laws.antt =====
-- Laws of the text functions: equality, order, cutting at a separator.

use pkgwatch.Base.{
  ℕ, lt, eq, true, [], ◌∷◌, ◌++◌, none, some, ◌≡◌, refl, ap, ◌↔◌, flip, IsOrder, Always, arith,
  Option-cases, inl, inr,
}
use pkgwatch.Base.Text.{Text, text_eq, text_compare, Lacks, cut, cut_last}

pub text_eq-eq : (s t : Text) → text_eq s t ≡ true → s ≡ t
unfolding text_eq
text_eq-eq [] [] h = refl
text_eq-eq [] (d ∷ t) h = cc
text_eq-eq (c ∷ s) [] h = cc
text_eq-eq (c ∷ s) (d ∷ t) h = ground (arith, text_eq-eq s t)

pub text_eq_refl : (s : Text) → text_eq s s ≡ true
unfolding text_eq
text_eq_refl [] = refl
text_eq_refl (c ∷ s) = ground (arith, text_eq_refl s)

pub text_eq_iff : (s t : Text) → (text_eq s t ≡ true) ↔ (s ≡ t)
text_eq_iff s t = (text_eq-eq s t, λ e. rw e (text_eq_refl t))

text_compare_swap : (s t : Text) → text_compare t s ≡ flip (text_compare s t)
unfolding text_compare
text_compare_swap [] [] = refl
text_compare_swap [] (d ∷ t) = refl
text_compare_swap (c ∷ s) [] = refl
text_compare_swap (c ∷ s) (d ∷ t) = ground (arith, text_compare_swap s t)

pub eq_of_text_compare : (s t : Text) → text_compare s t ≡ eq → s ≡ t
unfolding text_compare
eq_of_text_compare [] [] h = refl
eq_of_text_compare [] (d ∷ t) h = cc
eq_of_text_compare (c ∷ s) [] h = cc
eq_of_text_compare (c ∷ s) (d ∷ t) h = ground (arith, eq_of_text_compare s t)

text_compare_trans :
    (s t u : Text) → text_compare s t ≡ lt → text_compare t u ≡ lt → text_compare s u ≡ lt
unfolding text_compare
text_compare_trans [] [] u h k = cc
text_compare_trans [] (d ∷ t) [] h k = cc
text_compare_trans [] (d ∷ t) (e ∷ u) h k = refl
text_compare_trans (c ∷ s) [] u h k = cc
text_compare_trans (c ∷ s) (d ∷ t) [] h k = cc
text_compare_trans (c ∷ s) (d ∷ t) (e ∷ u) h k =
    ground (arith, text_compare_trans s t u, eq_of_text_compare s t, eq_of_text_compare t u)

pub text_compare-IsOrder : IsOrder Always text_compare
text_compare-IsOrder = record {
  swap = λ s t _ _. text_compare_swap s t;
  congr = λ s t u _ _ _ e. ap (λ x. text_compare x u) (eq_of_text_compare s t e);
  lt_trans = λ s t u _ _ _. text_compare_trans s t u;
}

-- Cutting at the first separator.
pub cut_at : (sep : ℕ) (b a : Text) → Lacks sep b → cut sep (b ++ sep ∷ a) ≡ some (b, a)
unfolding cut
cut_at sep [] a h = ground arith
cut_at sep (c ∷ b) a h = ground (arith, cut_at sep b a h.1)

pub cut-none : (sep : ℕ) (s : Text) → Lacks sep s → cut sep s ≡ none
unfolding cut
cut-none sep [] h = refl
cut-none sep (c ∷ s) h = ground (arith, cut-none sep s h.1)

pub Lacks_of_cut : (sep : ℕ) (s : Text) → cut sep s ≡ none → Lacks sep s
unfolding cut
Lacks_of_cut sep [] h = tt
Lacks_of_cut sep (c ∷ s) h = ground (arith, Lacks_of_cut sep s)

pub cut_sound :
    (sep : ℕ) (s : Text) (b a : Text) → cut sep s ≡ some (b, a) → (s ≡ b ++ sep ∷ a) × Lacks sep b
unfolding cut
cut_sound sep [] b a h = cc
cut_sound sep (c ∷ s) b a h = elim (Option-cases (cut sep s)) [
  | inl e ↦ ground arith
  | inr (p, e) ↦ ground (arith, cut_sound sep s p.0 p.1 e)
]

-- Cutting at the last separator.
pub cut_last-none : (sep : ℕ) (s : Text) → Lacks sep s → cut_last sep s ≡ none
unfolding cut_last
cut_last-none sep [] h = refl
cut_last-none sep (c ∷ s) h = ground (arith, cut_last-none sep s h.1)

pub cut_last_at : (sep : ℕ) (b a : Text) → Lacks sep a → cut_last sep (b ++ sep ∷ a) ≡ some (b, a)
unfolding cut_last
cut_last_at sep [] a h = ground (arith, cut_last-none sep a h)
cut_last_at sep (c ∷ b) a h = ground (arith, cut_last_at sep b a h)

pub Lacks_of_cut_last : (sep : ℕ) (s : Text) → cut_last sep s ≡ none → Lacks sep s
unfolding cut_last
Lacks_of_cut_last sep [] h = tt
Lacks_of_cut_last sep (c ∷ s) h = ground (arith, Lacks_of_cut_last sep s)

pub cut_last_sound :
    (sep : ℕ) (s : Text) (b a : Text)
    → cut_last sep s ≡ some (b, a)
    → (s ≡ b ++ sep ∷ a) × Lacks sep a
unfolding cut_last
cut_last_sound sep [] b a h = cc
cut_last_sound sep (c ∷ s) b a h = elim (Option-cases (cut_last sep s)) [
  | inl e ↦ ground (arith, Lacks_of_cut_last sep s)
  | inr (p, e) ↦ ground (arith, cut_last_sound sep s p.0 p.1 e)
]
