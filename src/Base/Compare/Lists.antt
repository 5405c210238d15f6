-- ===== src/Base/Compare/Lists.antt =====
-- Comparisons of lists are orders where the comparison of their entries is one.
use pkgwatch.Base.Compare.{
  flip, IsOrder, Always, lex-congr, lex-lt_trans, pad_compare, list_compare,
}
use pkgwatch.Base.Lists.{All}
use Prim.Native.Nat.{Ordering}
use Prim.Native.Nat.Ordering.{lt, eq}
use mathlib.Core.Path.{◌≡◌, refl}
use mathlib.Core.List.{List, [], ◌∷◌}
use native.Mathlib.Omega.{arith}

-- Every value satisfies `Always`.
pub All-Always {ℓ} : {A : Type ℓ} (xs : List A) → All Always xs
All-Always [] = tt
All-Always (x ∷ xs) = (tt, All-Always xs)

module _ {ℓ κ} {A : Type ℓ} {P : A → Type κ} (cmp : A → A → Ordering) (h : IsOrder P cmp) where
  list_swap :
      (xs ys : List A)
      → All P xs
      → All P ys
      → list_compare cmp ys xs ≡ flip (list_compare cmp xs ys)
  unfolding list_compare
  list_swap [] [] _ _ = refl
  list_swap [] (y ∷ ys) _ _ = refl
  list_swap (x ∷ xs) [] _ _ = refl
  list_swap (x ∷ xs) (y ∷ ys) px py =
      ground (arith, h.swap x y px.0 py.0, list_swap xs ys px.1 py.1)

  list_congr :
      (xs ys zs : List A)
      → All P xs
      → All P ys
      → All P zs
      → list_compare cmp xs ys ≡ eq
      → list_compare cmp xs zs ≡ list_compare cmp ys zs
  unfolding list_compare
  list_congr [] [] zs _ _ _ e = refl
  list_congr [] (y ∷ ys) zs _ _ _ e = cc
  list_congr (x ∷ xs) [] zs _ _ _ e = cc
  list_congr (x ∷ xs) (y ∷ ys) [] _ _ _ e = refl
  list_congr (x ∷ xs) (y ∷ ys) (z ∷ zs) px py pz e =
      lex-congr cmp h x y z px.0 py.0 pz.0 e (list_congr xs ys zs px.1 py.1 pz.1)

  list_trans :
      (xs ys zs : List A)
      → All P xs
      → All P ys
      → All P zs
      → list_compare cmp xs ys ≡ lt
      → list_compare cmp ys zs ≡ lt
      → list_compare cmp xs zs ≡ lt
  unfolding list_compare
  list_trans [] [] zs _ _ _ e f = cc
  list_trans [] (y ∷ ys) [] _ _ _ e f = cc
  list_trans [] (y ∷ ys) (z ∷ zs) _ _ _ e f = refl
  list_trans (x ∷ xs) [] zs _ _ _ e f = cc
  list_trans (x ∷ xs) (y ∷ ys) [] _ _ _ e f = cc
  list_trans (x ∷ xs) (y ∷ ys) (z ∷ zs) px py pz e f =
      lex-lt_trans cmp h x y z px.0 py.0 pz.0 e f (list_trans xs ys zs px.1 py.1 pz.1)

  pub list_compare-IsOrder : IsOrder (All P) (list_compare cmp)
  list_compare-IsOrder = record { swap = list_swap; congr = list_congr; lt_trans = list_trans }

module _ {ℓ κ} {A : Type ℓ} {P : A → Type κ} (cmp : A → A → Ordering) (h : IsOrder P cmp) (d : A)
    (pd : P d) where
  pad_swap :
      (xs ys : List A)
      → All P xs
      → All P ys
      → pad_compare cmp d ys xs ≡ flip (pad_compare cmp d xs ys)
  unfolding pad_compare
  pad_swap [] [] _ _ = refl
  pad_swap [] (y ∷ ys) px py = ground (arith, h.swap d y pd py.0, pad_swap [] ys tt py.1)
  pad_swap (x ∷ xs) [] px py = ground (arith, h.swap x d px.0 pd, pad_swap xs [] px.1 tt)
  pad_swap (x ∷ xs) (y ∷ ys) px py = ground (arith, h.swap x y px.0 py.0, pad_swap xs ys px.1 py.1)

  pad_congr :
      (xs ys zs : List A)
      → All P xs
      → All P ys
      → All P zs
      → pad_compare cmp d xs ys ≡ eq
      → pad_compare cmp d xs zs ≡ pad_compare cmp d ys zs
  unfolding pad_compare
  pad_congr [] [] [] px py pz e = refl
  pad_congr [] [] (z ∷ zs) px py pz e = refl
  pad_congr [] (y ∷ ys) [] px py pz e = ground (arith, h.swap d y pd py.0, pad_swap [] ys tt py.1)
  pad_congr [] (y ∷ ys) (z ∷ zs) px py pz e =
      lex-congr cmp h d y z pd py.0 pz.0 e (pad_congr [] ys zs tt py.1 pz.1)
  pad_congr (x ∷ xs) [] [] px py pz e = ground (arith, h.swap x d px.0 pd, pad_swap xs [] px.1 tt)
  pad_congr (x ∷ xs) [] (z ∷ zs) px py pz e =
      lex-congr cmp h x d z px.0 pd pz.0 e (pad_congr xs [] zs px.1 tt pz.1)
  pad_congr (x ∷ xs) (y ∷ ys) [] px py pz e =
      lex-congr cmp h x y d px.0 py.0 pd e (pad_congr xs ys [] px.1 py.1 tt)
  pad_congr (x ∷ xs) (y ∷ ys) (z ∷ zs) px py pz e =
      lex-congr cmp h x y z px.0 py.0 pz.0 e (pad_congr xs ys zs px.1 py.1 pz.1)

  pad_trans :
      (xs ys zs : List A)
      → All P xs
      → All P ys
      → All P zs
      → pad_compare cmp d xs ys ≡ lt
      → pad_compare cmp d ys zs ≡ lt
      → pad_compare cmp d xs zs ≡ lt
  unfolding pad_compare
  pad_trans [] [] [] px py pz e f = cc
  pad_trans [] [] (z ∷ zs) px py pz e f = cc
  pad_trans [] (y ∷ ys) [] px py pz e f = ground (arith, pad_swap [] (y ∷ ys) tt py)
  pad_trans [] (y ∷ ys) (z ∷ zs) px py pz e f =
      lex-lt_trans cmp h d y z pd py.0 pz.0 e f (pad_trans [] ys zs tt py.1 pz.1)
  pad_trans (x ∷ xs) [] [] px py pz e f = cc
  pad_trans (x ∷ xs) [] (z ∷ zs) px py pz e f =
      lex-lt_trans cmp h x d z px.0 pd pz.0 e f (pad_trans xs [] zs px.1 tt pz.1)
  pad_trans (x ∷ xs) (y ∷ ys) [] px py pz e f =
      lex-lt_trans cmp h x y d px.0 py.0 pd e f (pad_trans xs ys [] px.1 py.1 tt)
  pad_trans (x ∷ xs) (y ∷ ys) (z ∷ zs) px py pz e f =
      lex-lt_trans cmp h x y z px.0 py.0 pz.0 e f (pad_trans xs ys zs px.1 py.1 pz.1)

  pub pad_compare-IsOrder : IsOrder (All P) (pad_compare cmp d)
  pad_compare-IsOrder = record { swap = pad_swap; congr = pad_congr; lt_trans = pad_trans }
