-- ===== src/Version/Dpkg/Fragment.antt =====
-- `compareFragment` of internal/version/dpkg/dpkg.go against deb-version(7): non-digit runs by the
-- modified character order, digit runs as numbers.
pub mod Numbers
use pkgwatch.Base.{
  ℕ, zero, suc, ◌+◌, ◌-◌, ◌≤◌, ◌<◌, Ordering, lt, eq, gt, Bool, true, false, List, [], ◌∷◌, ◌≡◌,
  refl, sym, ap, ◌∙◌, lex, ℤ, pos, compare_ℤ, compare, IsOrder, Always, All, pad_compare, map,
  arith, length, compare_ℤ-IsOrder, compare-IsOrder, tie-IsOrder, lex-IsOrder, on-IsOrder, ◌≢◌,
  if◌then◌else◌, not, ◌&&◌, flip,
}
use pkgwatch.Base.Compare.Lists.{All-Always, pad_compare-IsOrder}
use pkgwatch.Base.Text.{Text, is_digit, is_empty}
use pkgwatch.Version.Dpkg.{
  order, Run, differ, level, non_digits, strip_zeros, take_digits, drop_digits, compare_digits,
  compare_runs, compare_fragment,
}
use pkgwatch.Version.Dpkg.Fragment.Numbers.{number, compare_digits-number}

-- The non-digit run that a text begins with, and what follows it.
unfoldable pub take_run : Text → Text
take_run [] = []
take_run (c ∷ s) = if is_digit c then [] else c ∷ take_run s

unfoldable pub drop_run : Text → Text
drop_run [] = []
drop_run (c ∷ s) = if is_digit c then c ∷ s else drop_run s

-- The modified character order, the end of the run counting as 0.
unfoldable pub run_compare : Text → Text → Ordering
unfolding take_run
run_compare a b = pad_compare compare_ℤ (pos 0) (map order (take_run a)) (map order (take_run b))

-- What follows the first non-digit run and the first digit run.
unfoldable pub rest : Text → Text
unfolding drop_run drop_digits
rest s = drop_digits (drop_run s)

-- deb-version(7), round by round.
deb_compare : ℕ → Text → Text → Ordering
deb_compare zero a b = eq
deb_compare (suc f) a b =
    lex (run_compare a b)
      (lex (compare (number (drop_run a)) (number (drop_run b))) (deb_compare f (rest a) (rest b)))

abbrev run_result : Ordering → Text → Text → Run
run_result eq a b = level a b
run_result lt a b = differ lt
run_result gt a b = differ gt

order-ne-zero : (c : ℕ) → is_digit c ≡ false → compare_ℤ (order c) (pos 0) ≢ eq
unfolding order
order-ne-zero c h = ground arith

order-zero-ne : (c : ℕ) → is_digit c ≡ false → compare_ℤ (pos 0) (order c) ≢ eq
unfolding order
order-zero-ne c h = ground arith

order_digit : (c : ℕ) → is_digit c ≡ true → order c ≡ pos 0
unfolding order
order_digit c h = ground arith

abbrev Agree : Text → Text → Type 0
Agree a b = non_digits a b ≡ run_result (run_compare a b) (drop_run a) (drop_run b)

Agree-left : (x : ℕ) (a : Text) → Agree a [] → Agree (x ∷ a) []
unfolding non_digits run_compare drop_run pad_compare
Agree-left x a ih = ground (arith, order-ne-zero x)

Agree-right : (y : ℕ) (b : Text) → Agree [] b → Agree [] (y ∷ b)
unfolding non_digits run_compare drop_run pad_compare
Agree-right y b ih = ground (arith, order-zero-ne y)

Agree-both : (x y : ℕ) (a b : Text) → Agree a b → Agree (x ∷ a) (y ∷ b)
unfolding non_digits run_compare drop_run pad_compare
Agree-both x y a b ih =
    ground (arith, order-ne-zero x, order-zero-ne y, order_digit x, order_digit y)

non_digits_lem : (a b : Text) → Agree a b
non_digits_lem [] [] = unfold non_digits run_compare drop_run pad_compare in refl
non_digits_lem (x ∷ a) [] = Agree-left x a (non_digits_lem a [])
non_digits_lem [] (y ∷ b) = Agree-right y b (non_digits_lem [] b)
non_digits_lem (x ∷ a) (y ∷ b) = Agree-both x y a b (non_digits_lem a b)

drop_digits-strip_zeros : (s : Text) → drop_digits (strip_zeros s) ≡ drop_digits s
unfolding drop_digits strip_zeros
drop_digits-strip_zeros [] = refl
drop_digits-strip_zeros (c ∷ s) = ground (arith, drop_digits-strip_zeros s)

runs_step :
    (f : ℕ) (a b : Text)
    → compare_runs (suc f) a b ≡ (
        if is_empty a && is_empty b
        then eq
        else lex (run_compare a b) (
            lex
              (compare (number (drop_run a)) (number (drop_run b)))
              (compare_runs f (rest a) (rest b))))
unfolding compare_runs rest
runs_step f a b = ground (
  arith,
  non_digits_lem a b,
  compare_digits-number (drop_run a) (drop_run b),
  drop_digits-strip_zeros (drop_run a),
  drop_digits-strip_zeros (drop_run b),
)

deb_compare-nil : (f : ℕ) → deb_compare f [] [] ≡ eq
unfolding deb_compare run_compare take_run rest drop_run pad_compare drop_digits
deb_compare-nil zero = refl
deb_compare-nil (suc f) = ground (arith, deb_compare-nil f)

-- The loop of the code is deb-version(7), on every fuel.
compare_runs-deb_compare : (f : ℕ) (a b : Text) → compare_runs f a b ≡ deb_compare f a b
compare_runs-deb_compare zero a b = unfold compare_runs deb_compare in refl
compare_runs-deb_compare (suc f) [] [] = rw (runs_step, deb_compare-nil)
compare_runs-deb_compare (suc f) (x ∷ a) b =
    rw (runs_step, compare_runs-deb_compare f (rest (x ∷ a)) (rest b)) (unfold deb_compare in refl)
compare_runs-deb_compare (suc f) [] (y ∷ b) =
    rw (runs_step, compare_runs-deb_compare f (rest []) (rest (y ∷ b))) (unfold deb_compare in refl)

-- A round shortens a text that is not empty.
drop_digits-le : (s : Text) → length (drop_digits s) ≤ length s
unfolding drop_digits
drop_digits-le [] = omega arith
drop_digits-le (c ∷ s) = ground (arith, drop_digits-le s)

drop_run-le : (s : Text) → length (drop_run s) ≤ length s
unfolding drop_run
drop_run-le [] = omega arith
drop_run-le (c ∷ s) = ground (arith, drop_run-le s)

rest-nil : rest [] ≡ []
unfolding rest
rest-nil = refl

pub rest-lt : (c : ℕ) (s : Text) → length (rest (c ∷ s)) ≤ length s
unfolding rest drop_run drop_digits
rest-lt c s = ground (arith, drop_digits-le s, drop_digits-le (drop_run s), drop_run-le s)

rest-le : (s : Text) → length (rest s) ≤ length s
rest-le [] = rw rest-nil (omega arith)
rest-le (c ∷ s) = omega (arith, rest-lt c s)

-- Fuel for the characters of both texts is enough: more changes nothing.
deb_compare-suc :
    (f : ℕ) (a b : Text) → length a + length b ≤ f → deb_compare (suc f) a b ≡ deb_compare f a b
unfolding deb_compare
deb_compare-suc f [] [] h = deb_compare-nil (suc f) ∙ sym (deb_compare-nil f)
deb_compare-suc zero (x ∷ a) b h = absurd (omega arith)
deb_compare-suc zero [] (y ∷ b) h = absurd (omega arith)
deb_compare-suc (suc f) (x ∷ a) b h = λ i. lex (run_compare (x ∷ a) b) (
    lex (compare (number (drop_run (x ∷ a))) (number (drop_run b)))
      (deb_compare-suc f (rest (x ∷ a)) (rest b) (omega (arith, rest-lt x a, rest-le b)) i))
deb_compare-suc (suc f) [] (y ∷ b) h = λ i. lex (run_compare [] (y ∷ b)) (
    lex (compare (number (drop_run [])) (number (drop_run (y ∷ b))))
      (deb_compare-suc f (rest []) (rest (y ∷ b)) (rw rest-nil (omega (arith, rest-lt y b))) i))

deb_compare-add :
    (k f : ℕ) (a b : Text) → length a + length b ≤ f → deb_compare (k + f) a b ≡ deb_compare f a b
deb_compare-add zero f a b h = ap (λ n. deb_compare n a b) (omega arith)
deb_compare-add (suc k) f a b h =
    ap (λ n. deb_compare n a b) (omega arith)
    ∙ deb_compare-suc (k + f) a b (omega arith)
    ∙ deb_compare-add k f a b h

fragment-deb_compare :
    (f : ℕ) (a b : Text) → length a + length b ≤ f → compare_fragment a b ≡ deb_compare f a b
unfolding compare_fragment
fragment-deb_compare f a b h =
    compare_runs-deb_compare (length a + length b) a b
    ∙ sym (deb_compare-add (f - (length a + length b)) (length a + length b) a b (omega arith))
    ∙ ap (λ n. deb_compare n a b) (omega arith)

-- `compareFragment` is deb-version(7) on every two texts: the non-digit runs by the modified
-- character order, then the numbers behind them by value, then what follows by the same rule.
pub fragment-deb_version :
    (a b : Text)
    → compare_fragment a b
      ≡ lex (run_compare a b) (
          lex
            (compare (number (drop_run a)) (number (drop_run b)))
            (compare_fragment (rest a) (rest b)))
fragment-deb_version a b =
    fragment-deb_compare (suc (length a + length b)) a b (omega arith)
    ∙ unfold deb_compare in
      ap (λ o. lex (run_compare a b) (lex (compare (number (drop_run a)) (number (drop_run b))) o))
        (sym (
          fragment-deb_compare (length a + length b) (rest a) (rest b)
            (omega (arith, rest-le a, rest-le b))))

deb_compare-IsOrder : (f : ℕ) → IsOrder Always (deb_compare f)
unfolding deb_compare run_compare rest
deb_compare-IsOrder zero = tie-IsOrder Always
deb_compare-IsOrder (suc f) =
    lex-IsOrder _ _
      (on-IsOrder (λ a. map order (take_run a)) _ (λ a _. All-Always (map order (take_run a)))
        (pad_compare-IsOrder compare_ℤ compare_ℤ-IsOrder (pos 0) tt))
      (lex-IsOrder _ _ (on-IsOrder (λ a. number (drop_run a)) compare (λ _ _. tt) compare-IsOrder)
        (on-IsOrder rest (deb_compare f) (λ _ _. tt) (deb_compare-IsOrder f)))

-- `compareFragment` is an order on all texts.
pub compare_fragment-IsOrder : IsOrder Always compare_fragment
compare_fragment-IsOrder = record {
  swap = λ a b _ _.
      let n = length a + length b in
      let h = deb_compare-IsOrder n in
      fragment-deb_compare n b a (omega arith)
      ∙ h.swap a b tt tt
      ∙ ap flip (sym (fragment-deb_compare n a b (omega arith)));
  congr = λ a b c _ _ _ e.
      let n = length a + length b + length c in
      let h = deb_compare-IsOrder n in
      fragment-deb_compare n a c (omega arith)
      ∙ h.congr a b c tt tt tt (sym (fragment-deb_compare n a b (omega arith)) ∙ e)
      ∙ sym (fragment-deb_compare n b c (omega arith));
  lt_trans = λ a b c _ _ _ e f.
      let n = length a + length b + length c in
      let h = deb_compare-IsOrder n in
      fragment-deb_compare n a c (omega arith)
      ∙ h.lt_trans a b c tt tt tt (sym (fragment-deb_compare n a b (omega arith)) ∙ e)
          (sym (fragment-deb_compare n b c (omega arith)) ∙ f);
}
