-- ===== src/Version/Pep440/Phases.antt =====
-- The phases of a Python release in internal/version/pep440/pep440.go.
use pkgwatch.Base.{ℕ, eq, true, false, List, [], ◌∷◌, ◌++◌, ◌≡◌, refl, arith}
use pkgwatch.Version.Pep440.{
  Version, Segment, PreKind, less, equal, is_prerelease, trim_zeros, compare_release, compare_pre,
  compare_presence, compare_local, compare_pep440,
}
use pkgwatch.Version.Pep440.Order.{release-IsOrder, local-IsOrder, compare_pep440-IsOrder}

release_refl : (a : List ℕ) → compare_release a a ≡ eq
release_refl a = ground (arith, release-IsOrder.swap a a tt tt)

local_refl : (a : List Segment) → compare_local a a ≡ eq
local_refl a = ground (arith, local-IsOrder.swap a a tt tt)

abbrev pub dev_of : Version → ℕ → Version
dev_of v n = record v { has_pre = false; has_post = false; has_dev = true; dev_num = n }

abbrev pub pre_of : Version → PreKind → ℕ → Version
pre_of v k n = record v {
  has_pre = true;
  pre_kind = k;
  pre_num = n;
  has_post = false;
  has_dev = false;
}

abbrev pub final_of : Version → Version
final_of v = record v { has_pre = false; has_post = false; has_dev = false }

abbrev pub post_of : Version → ℕ → Version
post_of v n = record v { has_pre = false; has_post = true; post_num = n; has_dev = false }

-- A version that is no post-release is less than its own release exactly if `IsPrerelease` says so.
pub less-is_prerelease : (v : Version) → v.has_post ≡ false → less v (final_of v) ≡ is_prerelease v
unfolding less compare_pep440 is_prerelease
less-is_prerelease v h =
    unfold compare_pre compare_presence in
    ground (arith, release_refl v.release, local_refl v.local)

trim_zeros-snoc : (xs : List ℕ) → trim_zeros (xs ++ 0 ∷ []) ≡ trim_zeros xs
unfolding trim_zeros
trim_zeros-snoc [] = refl
trim_zeros-snoc (x ∷ xs) = rw (trim_zeros-snoc xs)

release-zero : (a : List ℕ) → compare_release a (a ++ 0 ∷ []) ≡ eq
unfolding compare_release
release-zero a = rw (trim_zeros-snoc a) (unfold compare_release in release_refl a)

equal_refl : (v : Version) → compare_pep440 v v ≡ eq
equal_refl v = ground (arith, compare_pep440-IsOrder.swap v v tt tt)

-- A zero at the end of the release changes nothing: 1.0 and 1.0.0 are equal.
pub equal-trailing_zero :
    (v : Version) → equal v (record v { release = v.release ++ 0 ∷ [] }) ≡ true
unfolding equal compare_pep440
equal-trailing_zero v =
    unfold compare_pre compare_presence in
    ground (arith, release-zero v.release, local_refl v.local)
