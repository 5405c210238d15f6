-- ===== src/Base/Compare.antt =====
-- Three-way comparisons. A Go comparison returns -1, 0 or +1, which are `lt`, `eq` and `gt` here.
pub mod Lists
use Prim.Native.Nat.{ℕ, compare, Ordering, ◌+◌, suc}
use Prim.Native.Nat.Ordering.{lt, eq, gt}
use mathlib.Core.Path.{◌≡◌, refl, sym, ◌∙◌, ap}
use mathlib.Core.List.{List, [], ◌∷◌}
use native.Mathlib.Omega.{arith}
use pkgwatch.Base.Int.{ℤ, compare_ℤ}
use pkgwatch.Base.Lists.{All}

abbrev pub flip : Ordering → Ordering
flip lt = gt
flip eq = eq
flip gt = lt

-- `if c := first; c != 0 { return c }; return second`
abbrev pub lex : Ordering → Ordering → Ordering
lex eq second = second
lex first _ = first

-- The laws of a comparison whose ties are an equivalence, at the values that satisfy `P`.
pub record IsOrder {ℓ κ} {A : Type ℓ} (P : A → Type κ) (cmp : A → A → Ordering) : Type (ℓ ⊔ κ) where
  pub swap : (a b : A) → P a → P b → cmp b a ≡ flip (cmp a b)
  pub congr : (a b c : A) → P a → P b → P c → cmp a b ≡ eq → cmp a c ≡ cmp b c
  pub lt_trans : (a b c : A) → P a → P b → P c → cmp a b ≡ lt → cmp b c ≡ lt → cmp a c ≡ lt

abbrev pub Always {ℓ} : {A : Type ℓ} → A → Type 0
Always _ = Unit

pub compare-IsOrder : IsOrder Always compare
compare-IsOrder = record {
  swap = λ a b _ _. ground arith;
  congr = λ a b c _ _ _. ground arith;
  lt_trans = λ a b c _ _ _. ground arith;
}

pub compare_ℤ-IsOrder : IsOrder Always compare_ℤ
compare_ℤ-IsOrder = record {
  swap = λ a b _ _. ground arith;
  congr = λ a b c _ _ _. ground arith;
  lt_trans = λ a b c _ _ _. ground arith;
}

-- All values tie.
pub tie-IsOrder {ℓ κ} : {A : Type ℓ} (P : A → Type κ) → IsOrder P (λ _ _. eq)
tie-IsOrder P = record {
  swap = λ a b _ _. refl;
  congr = λ a b c _ _ _ _. refl;
  lt_trans = λ a b c _ _ _ h _. cc;
}

module _ {ℓ κ} {A : Type ℓ} {P : A → Type κ} (c : A → A → Ordering) (h : IsOrder P c) where
  -- The laws carry over to what breaks the ties.
  pub lex-congr :
      (a b x : A)
      → P a
      → P b
      → P x
      → {o p q : Ordering} → lex (c a b) o ≡ eq
      → (o ≡ eq → p ≡ q)
      → lex (c a x) p ≡ lex (c b x) q
  lex-congr a b x pa pb px e k = ground (arith, h.congr a b x pa pb px)

  pub lex-lt_trans :
      (a b x : A)
      → P a
      → P b
      → P x
      → {o p q : Ordering} → lex (c a b) o ≡ lt
      → lex (c b x) p ≡ lt
      → (o ≡ lt → p ≡ lt → q ≡ lt)
      → lex (c a x) q ≡ lt
  lex-lt_trans a b x pa pb px e f k = ground (
    arith,
    h.lt_trans a b x pa pb px,
    h.congr a b x pa pb px,
    h.swap a x pa px,
    h.swap b x pb px,
    h.swap a b pa pb,
    h.congr x b a px pb pa,
  )

module _ {ℓ κ} {A : Type ℓ} {P : A → Type κ} where
  -- The first comparison decides, and the second breaks its ties.
  pub lex-IsOrder :
      (c d : A → A → Ordering) → IsOrder P c → IsOrder P d → IsOrder P (λ a b. lex (c a b) (d a b))
  lex-IsOrder c d hc hd = record {
    swap = λ a b pa pb. ground (arith, hc.swap a b pa pb, hd.swap a b pa pb);
    congr = λ a b x pa pb px e. lex-congr c hc a b x pa pb px e (hd.congr a b x pa pb px);
    lt_trans =
        λ a b x pa pb px e f. lex-lt_trans c hc a b x pa pb px e f (hd.lt_trans a b x pa pb px);
  }

  -- Values are compared by a key.
  pub on-IsOrder {μ ν} :
      {B : Type μ} {Q : B → Type ν} (f : A → B) (c : B → B → Ordering)
      → ((a : A) → P a → Q (f a))
      → IsOrder Q c
      → IsOrder P (λ a b. c (f a) (f b))
  on-IsOrder f c k h = record {
    swap = λ a b pa pb. h.swap (f a) (f b) (k a pa) (k b pb);
    congr = λ a b x pa pb px. h.congr (f a) (f b) (f x) (k a pa) (k b pb) (k x px);
    lt_trans = λ a b x pa pb px. h.lt_trans (f a) (f b) (f x) (k a pa) (k b pb) (k x px);
  }

module _ {ℓ} {A : Type ℓ} (cmp : A → A → Ordering) where
  -- Pairwise, the missing entries of the shorter list read as `d`.
  unfoldable pub pad_compare : A → List A → List A → Ordering
  pad_compare d [] [] = eq
  pad_compare d (x ∷ xs) [] = lex (cmp x d) (pad_compare d xs [])
  pad_compare d [] (y ∷ ys) = lex (cmp d y) (pad_compare d [] ys)
  pad_compare d (x ∷ xs) (y ∷ ys) = lex (cmp x y) (pad_compare d xs ys)

  -- Pairwise, and the longer list is greater.
  unfoldable pub list_compare : List A → List A → Ordering
  list_compare [] [] = eq
  list_compare [] (y ∷ ys) = lt
  list_compare (x ∷ xs) [] = gt
  list_compare (x ∷ xs) (y ∷ ys) = lex (cmp x y) (list_compare xs ys)
