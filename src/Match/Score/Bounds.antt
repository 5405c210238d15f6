-- ===== src/Match/Score/Bounds.antt =====
-- The tiers of internal/match/match.go: what a tier says of the severity, and that tiers rise with
-- the score.
use pkgwatch.Base.{true, false, ℤ, ◌≡◌, ◌↔◌, ◌⊎◌, arith}
use pkgwatch.Base.Text.Laws.{text_eq-eq, text_eq_refl}
use pkgwatch.Match.{Advisory, Package, kind_malware, tier_critical}
use pkgwatch.Match.Score.{Float, at_least, tier_for, base_score, score}

-- The order of the numbers that are no NaN.
pub record IsTotal (F : Float) : Type 0 where
  pub asym : (x y : F.Num) → F.less x y ≡ true → F.less y x ≡ false
  pub at_least_trans :
      (x y z : F.Num) → F.less x y ≡ false → F.less y z ≡ false → F.less x z ≡ false

module _ (F : Float) (adv : Advisory F.Num) where
  tier_critical_iff :
      (s : F.Num)
      → (tier_for F adv s ≡ tier_critical)
        ↔ ((adv.kind ≡ kind_malware) ⊎ (at_least F s (F.tenths 90) ≡ true))
  unfolding tier_for
  tier_critical_iff s = (
    λ h. ground (arith, text_eq-eq adv.kind kind_malware),
    λ h. ground (arith, text_eq_refl kind_malware),
  )

  -- With PromoteTiers unset, the context of an installation never moves a finding to another
  -- tier: the tier is critical exactly of malware and of severities from 9 on.
  pub critical_iff :
      (pkg : Package) (now : ℤ)
      → ((score F false adv pkg now).1 ≡ tier_critical)
        ↔ ((adv.kind ≡ kind_malware) ⊎ (at_least F (base_score F adv) (F.tenths 90) ≡ true))
  unfolding score
  critical_iff pkg now = tier_critical_iff (base_score F adv)
