-- ===== src/Base/Select/Sorted.antt =====
-- Ordered rows: every row comes before those behind it.
use Prim.Native.Nat.{ℕ, zero, suc}
use mathlib.Core.Path.{◌≡◌}
use mathlib.Core.Bool.{Bool, true, false}
use mathlib.Core.Logic.{◌⊎◌, inl, inr}
use mathlib.Core.List.{List, [], ◌∷◌}
use pkgwatch.Base.Tests.{Bool-cases}
use pkgwatch.Base.Lists.{All}
use pkgwatch.Base.Select.{insert, sort, take, drop, filter}

module _ {A : Type 0} where
  abbrev pub IsSorted : (A → A → Bool) → List A → Type 0
  IsSorted before [] = Unit
  IsSorted before (x ∷ xs) = All (λ y. before x y ≡ true) xs × IsSorted before xs

  pub All-imp : (P Q : A → Type 0) → ((x : A) → P x → Q x) → (xs : List A) → All P xs → All Q xs
  All-imp P Q f [] h = tt
  All-imp P Q f (x ∷ xs) h = (f x h.0, All-imp P Q f xs h.1)

  pub All-every : (P : A → Type 0) → ((x : A) → P x) → (xs : List A) → All P xs
  All-every P f [] = tt
  All-every P f (x ∷ xs) = (f x, All-every P f xs)

  pub All-take : (P : A → Type 0) (n : ℕ) (xs : List A) → All P xs → All P (take n xs)
  All-take P zero xs h = tt
  All-take P (suc n) [] h = tt
  All-take P (suc n) (x ∷ xs) h = (h.0, All-take P n xs h.1)

  pub All-drop : (P : A → Type 0) (n : ℕ) (xs : List A) → All P xs → All P (drop n xs)
  All-drop P zero xs h = h
  All-drop P (suc n) [] h = tt
  All-drop P (suc n) (x ∷ xs) h = All-drop P n xs h.1

  -- What is taken comes before what is left.
  pub take-before-drop :
      (before : A → A → Bool) (n : ℕ) (xs : List A)
      → IsSorted before xs
      → All (λ x. All (λ y. before x y ≡ true) (drop n xs)) (take n xs)
  take-before-drop before zero xs h = tt
  take-before-drop before (suc n) [] h = tt
  take-before-drop before (suc n) (x ∷ xs) h =
      (All-drop (λ y. before x y ≡ true) n xs h.0, take-before-drop before n xs h.1)

  module _ (before : A → A → Bool) (total : (x y : A) → (before x y ≡ true) ⊎ (before y x ≡ true))
      (trans : (x y z : A) → before x y ≡ true → before y z ≡ true → before x z ≡ true) where
    All-insert :
        (P : A → Type 0) (x : A) (xs : List A) → P x → All P xs → All P (insert before x xs)
    All-insert P x [] p h = (p, tt)
    All-insert P x (y ∷ ys) p h = elim (Bool-cases (before x y)) [
      | inl b ↦ rw b (p, h)
      | inr b ↦ rw b (h.0, All-insert P x ys p h.1)
    ]

    insert-IsSorted :
        (x : A) (xs : List A) → IsSorted before xs → IsSorted before (insert before x xs)
    insert-IsSorted x [] h = (tt, tt)
    insert-IsSorted x (y ∷ ys) h = elim (Bool-cases (before x y)) [
      | inl b ↦ rw b ((b, All-imp _ _ (λ z q. trans x y z b q) ys h.0), h)
      | inr b ↦ rw b (
        All-insert (λ z. before y z ≡ true) x ys (other b (total x y)) h.0,
        insert-IsSorted x ys h.1,
      )
    ]
      where
        other : before x y ≡ false → (before x y ≡ true) ⊎ (before y x ≡ true) → before y x ≡ true
        other b (inl t) = cc
        other b (inr t) = t

    pub sort-IsSorted : (xs : List A) → IsSorted before (sort before xs)
    sort-IsSorted [] = tt
    sort-IsSorted (x ∷ xs) = insert-IsSorted x (sort before xs) (sort-IsSorted xs)

  pub filter-All : (P : A → Type 0) (p : A → Bool) (xs : List A) → All P xs → All P (filter p xs)
  filter-All P p [] h = tt
  filter-All P p (x ∷ xs) h = elim (Bool-cases (p x)) [
    | inl b ↦ rw b (h.0, filter-All P p xs h.1)
    | inr b ↦ rw b (filter-All P p xs h.1)
  ]

  pub All-filter :
      (p : A → Bool) (P : A → Type 0) (xs : List A)
      → All P (filter p xs)
      → All (λ x. (p x ≡ false) ⊎ P x) xs
  All-filter p P [] h = tt
  All-filter p P (x ∷ xs) h = elim (Bool-cases (p x)) [
    | inl b ↦ let both = rw b at h in (inr both.0, All-filter p P xs both.1)
    | inr b ↦ (inl b, All-filter p P xs (rw b at h))
  ]

  module _ (before : A → A → Bool) (P : A → Type 0) where
    insert-All : (x : A) (xs : List A) → All P (insert before x xs) → P x × All P xs
    insert-All x [] h = h
    insert-All x (y ∷ ys) h = elim (Bool-cases (before x y)) [
      | inl b ↦ rw b at h
      | inr b ↦
          let both = rw b at h in let rest = insert-All x ys both.1 in (rest.0, (both.0, rest.1))
    ]

    -- What holds of the ordered rows holds of the rows.
    pub sort-All : (xs : List A) → All P (sort before xs) → All P xs
    sort-All [] h = tt
    sort-All (x ∷ xs) h =
        let (first, rest) = insert-All x (sort before xs) h in (first, sort-All xs rest)
