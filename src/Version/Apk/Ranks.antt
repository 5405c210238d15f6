-- ===== src/Version/Apk/Ranks.antt =====
-- Pre-releases, post-releases and numbers out of range in internal/version/apk/apk.go.
use pkgwatch.Base.{ℕ, ◌<◌, lt, eq, true, List, [], ◌∷◌, ◌≡◌, ℤ, pos, arith}
use pkgwatch.Base.Text.{Text}
use pkgwatch.Version.Apk.{
  Version, Suffix, less, compare_apk, compare_numbers, compare_suffixes, no_suffix_rank,
}
use pkgwatch.Version.Apk.Order.{IsValid, numbers-IsOrder}

numbers_refl : (v : Version) → IsValid v → compare_numbers v.numbers v.numbers ≡ eq
numbers_refl v h =
    ground (arith, numbers-IsOrder.swap v.numbers v.numbers h.components h.components)

module _ (x : Suffix) (rest : List Suffix) (k : ℕ) (ranked : x.rank ≡ pos k) where
  suffixes_before : k < no_suffix_rank → compare_suffixes (x ∷ rest) [] ≡ lt
  unfolding compare_suffixes
  suffixes_before below = ground arith

  suffixes_after : no_suffix_rank < k → compare_suffixes [] (x ∷ rest) ≡ lt
  unfolding compare_suffixes
  suffixes_after above = ground arith

-- A version whose first suffix ranks under the bare version (alpha, beta, pre, rc) is less than the
-- version with no suffix, and one whose first suffix ranks over it (cvs, svn, git, hg, p) is
-- greater, whatever the other suffixes, the suffix numbers and the revisions are.
pub less-suffix :
    (v : Version) (x : Suffix) (rest : List Suffix) (k : ℕ) (r : ℤ)
    → IsValid v
    → x.rank ≡ pos k
    → (k < no_suffix_rank
        → less (record v { suffixes = x ∷ rest; revision = r }) (record v { suffixes = [] }) ≡ true)
      × (no_suffix_rank < k
          → less (record v { suffixes = [] }) (record v { suffixes = x ∷ rest; revision = r })
            ≡ true)
unfolding less compare_apk
less-suffix v x rest k r h ranked = (
  λ below. ground (arith, numbers_refl v h, suffixes_before x rest k ranked below),
  λ above. ground (arith, numbers_refl v h, suffixes_after x rest k ranked above),
)
