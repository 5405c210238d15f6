-- ===== src/Version/Pep440/Order.antt =====
-- The order of Python versions: `Compare` of internal/version/pep440/pep440.go.
use mathlib.Core.Path.{subst, fun_ext}
use pkgwatch.Base.{
  ℕ, Bool, true, false, List, [], ◌∷◌, ◌≡◌, refl, sym, compare, IsOrder, Always, arith,
  compare-IsOrder, lex-IsOrder, on-IsOrder, list_compare,
}
use pkgwatch.Base.Compare.Lists.{All-Always, pad_compare-IsOrder, list_compare-IsOrder}
use pkgwatch.Base.Text.Laws.{text_compare-IsOrder}
use pkgwatch.Version.Pep440.{
  Version, Segment, trim_zeros, compare_release, compare_pre, compare_presence, compare_segment,
  compare_segments, compare_local, compare_pep440,
}

pub release-IsOrder : IsOrder Always compare_release
unfolding compare_release
release-IsOrder =
    on-IsOrder trim_zeros _ (λ a _. All-Always (trim_zeros a))
      (pad_compare-IsOrder compare compare-IsOrder 0 tt)

pre-IsOrder : IsOrder Always compare_pre
unfolding compare_pre
pre-IsOrder = record {
  swap = λ a b _ _. ground arith;
  congr = λ a b c _ _ _. ground arith;
  lt_trans = λ a b c _ _ _. ground arith;
}

presence-IsOrder :
    (greater : Bool)
    → IsOrder {A = Bool × ℕ} Always (λ a b. compare_presence a.0 b.0 a.1 b.1 greater)
unfolding compare_presence
presence-IsOrder greater = record {
  swap = λ a b _ _. ground arith;
  congr = λ a b c _ _ _. ground arith;
  lt_trans = λ a b c _ _ _. ground arith;
}

segment-IsOrder : IsOrder Always compare_segment
unfolding compare_segment
segment-IsOrder = record {
  swap = λ x y _ _. ground (arith, text_compare-IsOrder.swap x.str y.str tt tt);
  congr = λ x y z _ _ _. ground (arith, text_compare-IsOrder.congr x.str y.str z.str tt tt tt);
  lt_trans =
      λ x y z _ _ _. ground (arith, text_compare-IsOrder.lt_trans x.str y.str z.str tt tt tt);
}

segments-list_compare :
    (a b : List Segment) → compare_segments a b ≡ list_compare compare_segment a b
unfolding compare_segments list_compare
segments-list_compare [] [] = refl
segments-list_compare [] (y ∷ b) = refl
segments-list_compare (x ∷ a) [] = refl
segments-list_compare (x ∷ a) (y ∷ b) = rw (segments-list_compare a b)

local-list_compare : (a b : List Segment) → compare_local a b ≡ list_compare compare_segment a b
unfolding compare_local
local-list_compare [] [] = unfold list_compare in refl
local-list_compare [] (y ∷ b) = unfold list_compare in ground arith
local-list_compare (x ∷ a) [] = unfold list_compare in ground arith
local-list_compare (x ∷ a) (y ∷ b) = segments-list_compare (x ∷ a) (y ∷ b)

pub local-IsOrder : IsOrder Always compare_local
local-IsOrder = subst (IsOrder Always) (sym (fun_ext λ a. fun_ext λ b. local-list_compare a b)) (
    on-IsOrder (λ a. a) _ (λ a _. All-Always a)
      (list_compare-IsOrder compare_segment segment-IsOrder))

-- `Compare` is an order on all Python versions: exchanging the arguments turns the answer round,
-- versions that tie compare alike with every other, and below is transitive.
pub compare_pep440-IsOrder : IsOrder Always compare_pep440
unfolding compare_pep440
compare_pep440-IsOrder =
    lex-IsOrder _ _ (on-IsOrder (λ (v : Version). v.epoch) compare (λ _ _. tt) compare-IsOrder) (
      lex-IsOrder _ _ (on-IsOrder (λ (v : Version). v.release) _ (λ _ _. tt) release-IsOrder) (
        lex-IsOrder _ _ pre-IsOrder (
          lex-IsOrder _ _
            (on-IsOrder {B = Bool × ℕ} (λ (v : Version). (v.has_post, v.post_num)) _ (λ _ _. tt)
              (presence-IsOrder false))
            (lex-IsOrder _ _
              (on-IsOrder {B = Bool × ℕ} (λ (v : Version). (v.has_dev, v.dev_num)) _ (λ _ _. tt)
                (presence-IsOrder true))
              (on-IsOrder (λ (v : Version). v.local) _ (λ _ _. tt) local-IsOrder)))))
