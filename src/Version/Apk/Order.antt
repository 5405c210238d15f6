-- ===== src/Version/Apk/Order.antt =====
-- The order of Alpine versions: `Compare` of internal/version/apk/apk.go on the versions that
-- `Parse` returns.
use mathlib.Core.Path.{subst, fun_ext}
use pkgwatch.Base.{
  lt, eq, Bool, true, false, List, [], ◌∷◌, ◌≡◌, refl, sym, compare_ℤ, compare, flip, IsOrder,
  Always, All, arith, compare_ℤ-IsOrder, compare-IsOrder, lex-IsOrder, on-IsOrder, if◌then◌else◌,
  list_compare, ◌||◌, lex-congr, lex-lt_trans,
}
use pkgwatch.Base.Compare.Lists.{All-Always, pad_compare-IsOrder, list_compare-IsOrder}
use pkgwatch.Base.Text.{Text, codes, text_compare, has_prefix}
use pkgwatch.Base.Text.Laws.{text_compare-IsOrder}
use pkgwatch.Base.Text.Decimal.{IsDigits}
use pkgwatch.Version.Apk.{
  Version, Suffix, compare_component, compare_later, compare_numbers, compare_suffix, no_suffix,
  compare_suffixes, compare_apk, atoi_or_zero,
}

-- A component as `Parse` leaves it: digits, and at least one.
abbrev pub IsComponent : Text → Type 0
IsComponent [] = ⊥
IsComponent (c ∷ s) = IsDigits (c ∷ s)

pub record IsValid (v : Version) : Type 0 where
  pub components : All IsComponent v.numbers

zero_first : Text → Bool
zero_first x = has_prefix x (codes "0")

fraction-lt :
    (x y : Text)
    → IsComponent x
    → IsComponent y
    → zero_first x ≡ true
    → zero_first y ≡ false
    → text_compare x y ≡ lt
unfolding zero_first has_prefix text_compare
fraction-lt [] y px py e f = absurd px
fraction-lt (c ∷ x) [] px py e f = absurd py
fraction-lt (c ∷ x) (d ∷ y) px py e f = ground arith

component_swap : (x y : Text) → compare_component y x ≡ flip (compare_component x y)
unfolding compare_component
component_swap x y = ground (arith, text_compare-IsOrder.swap x y tt tt)

component_lem :
    (x y : Text)
    → compare_component x y ≡ (
        if zero_first x || zero_first y
        then text_compare x y
        else compare_ℤ (atoi_or_zero x) (atoi_or_zero y))
unfolding compare_component zero_first
component_lem x y = refl

module _ (x y z : Text) (px : IsComponent x) (py : IsComponent y) (pz : IsComponent z) where
  component_congr : compare_component x y ≡ eq → compare_component x z ≡ compare_component y z
  component_congr e = ground (
    arith,
    component_lem x y,
    component_lem x z,
    component_lem y z,
    fraction-lt x y px py,
    fraction-lt y x py px,
    fraction-lt z x pz px,
    fraction-lt z y pz py,
    text_compare-IsOrder.congr x y z tt tt tt,
    text_compare-IsOrder.swap x y tt tt,
    text_compare-IsOrder.swap x z tt tt,
    text_compare-IsOrder.swap y z tt tt,
    compare_ℤ-IsOrder.congr (atoi_or_zero x) (atoi_or_zero y) (atoi_or_zero z) tt tt tt,
  )

  component_trans :
      compare_component x y ≡ lt → compare_component y z ≡ lt → compare_component x z ≡ lt
  component_trans e f = ground (
    arith,
    component_lem x y,
    component_lem x z,
    component_lem y z,
    fraction-lt y x py px,
    fraction-lt z y pz py,
    fraction-lt x z px pz,
    text_compare-IsOrder.lt_trans x y z tt tt tt,
    text_compare-IsOrder.swap x y tt tt,
    text_compare-IsOrder.swap y z tt tt,
    compare_ℤ-IsOrder.lt_trans (atoi_or_zero x) (atoi_or_zero y) (atoi_or_zero z) tt tt tt,
  )

IsComponent-IsOrder : IsOrder IsComponent compare_component
IsComponent-IsOrder = record {
  swap = λ x y _ _. component_swap x y;
  congr = component_congr;
  lt_trans = component_trans;
}

compare_later-list_compare :
    (a b : List Text) → compare_later a b ≡ list_compare compare_component a b
unfolding compare_later list_compare
compare_later-list_compare [] [] = refl
compare_later-list_compare [] (y ∷ b) = refl
compare_later-list_compare (x ∷ a) [] = refl
compare_later-list_compare (x ∷ a) (y ∷ b) = rw (compare_later-list_compare a b)

compare_later-IsOrder : IsOrder (All IsComponent) compare_later
compare_later-IsOrder =
    subst (IsOrder (All IsComponent))
      (sym (fun_ext λ a. fun_ext λ b. compare_later-list_compare a b))
      (list_compare-IsOrder compare_component IsComponent-IsOrder)

-- The first components, by value.
value-IsOrder : IsOrder Always (λ x y. compare_ℤ (atoi_or_zero x) (atoi_or_zero y))
value-IsOrder = on-IsOrder atoi_or_zero compare_ℤ (λ _ _. tt) compare_ℤ-IsOrder

pub numbers-IsOrder : IsOrder (All IsComponent) compare_numbers
unfolding compare_numbers
numbers-IsOrder = record { swap = swap_numbers; congr = congr_numbers; lt_trans = trans_numbers }
  where
    swap_numbers :
        (a b : List Text)
        → All IsComponent a
        → All IsComponent b
        → compare_numbers b a ≡ flip (compare_numbers a b)
    swap_numbers [] [] _ _ = refl
    swap_numbers [] (y ∷ b) _ _ = refl
    swap_numbers (x ∷ a) [] _ _ = refl
    swap_numbers (x ∷ a) (y ∷ b) pa pb =
        ground (arith, value-IsOrder.swap x y tt tt, compare_later-IsOrder.swap a b pa.1 pb.1)

    congr_numbers :
        (a b c : List Text)
        → All IsComponent a
        → All IsComponent b
        → All IsComponent c
        → compare_numbers a b ≡ eq
        → compare_numbers a c ≡ compare_numbers b c
    congr_numbers [] [] c _ _ _ e = refl
    congr_numbers [] (y ∷ b) c _ _ _ e = cc
    congr_numbers (x ∷ a) [] c _ _ _ e = cc
    congr_numbers (x ∷ a) (y ∷ b) [] _ _ _ e = refl
    congr_numbers (x ∷ a) (y ∷ b) (z ∷ c) pa pb pc e =
        lex-congr _ value-IsOrder x y z tt tt tt e
          (compare_later-IsOrder.congr a b c pa.1 pb.1 pc.1)

    trans_numbers :
        (a b c : List Text)
        → All IsComponent a
        → All IsComponent b
        → All IsComponent c
        → compare_numbers a b ≡ lt
        → compare_numbers b c ≡ lt
        → compare_numbers a c ≡ lt
    trans_numbers [] [] c _ _ _ e f = cc
    trans_numbers [] (y ∷ b) [] _ _ _ e f = cc
    trans_numbers [] (y ∷ b) (z ∷ c) _ _ _ e f = refl
    trans_numbers (x ∷ a) [] c _ _ _ e f = cc
    trans_numbers (x ∷ a) (y ∷ b) [] _ _ _ e f = cc
    trans_numbers (x ∷ a) (y ∷ b) (z ∷ c) pa pb pc e f =
        lex-lt_trans _ value-IsOrder x y z tt tt tt e f
          (compare_later-IsOrder.lt_trans a b c pa.1 pb.1 pc.1)

suffix-IsOrder : IsOrder Always compare_suffix
unfolding compare_suffix
suffix-IsOrder =
    lex-IsOrder _ _ (on-IsOrder (λ (x : Suffix). x.rank) compare_ℤ (λ _ _. tt) compare_ℤ-IsOrder)
      (on-IsOrder (λ (x : Suffix). x.num) compare_ℤ (λ _ _. tt) compare_ℤ-IsOrder)

-- `Compare` is an order on the versions whose components are digits, as `Parse` leaves them, though
-- it compares a component with a leading zero as a text and another as a number.
pub compare_apk-IsOrder : IsOrder IsValid compare_apk
unfolding compare_apk compare_suffixes
compare_apk-IsOrder =
    lex-IsOrder _ _
      (on-IsOrder (λ (v : Version). v.numbers) compare_numbers (λ v h. h.components)
        numbers-IsOrder)
      (lex-IsOrder _ _ (on-IsOrder (λ (v : Version). v.letter) compare (λ _ _. tt) compare-IsOrder)
        (lex-IsOrder _ _
          (on-IsOrder (λ (v : Version). v.suffixes) _ (λ v _. All-Always v.suffixes)
            (pad_compare-IsOrder compare_suffix suffix-IsOrder no_suffix tt))
          (on-IsOrder (λ (v : Version). v.revision) compare_ℤ (λ _ _. tt) compare_ℤ-IsOrder)))
