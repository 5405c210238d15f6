-- ===== src/Match/Score.antt =====
-- internal/match/match.go: `Score` and `tierFor`. A float64 of these is never NaN: severities come
-- from a column that holds none, and the factors are finite and positive.
pub mod Bounds
use pkgwatch.Base.{
  ℕ, ◌*◌, Bool, true, false, ◌&&◌, ◌||◌, not, List, [], ◌∷◌, Option, none, some, if◌then◌else◌, ℤ,
  pos, ltb_ℤ, ◌-ℤ◌, ◌≡◌, refl,
}
use pkgwatch.Base.Text.{Text, codes, text_eq}
use pkgwatch.Match.{
  Advisory, Package, kind_malware, scope_global, scope_project, tier_critical, tier_high,
  tier_medium, tier_low,
}

-- float64: `tenths n` is the literal n / 10.
pub record Float : Type 1 where
  pub Num : Type 0
  pub tenths : ℕ → Num
  pub times : Num → Num → Num
  pub less : Num → Num → Bool

-- 90 days in nanoseconds.
abbrev pub stale_after : ℤ
stale_after = pos (90 * 24 * 3600000000000)

module _ (F : Float) where
  -- `x >= y`
  abbrev pub at_least : F.Num → F.Num → Bool
  at_least x y = not (F.less x y)

  -- `tierFor`
  unfoldable pub tier_for : Advisory F.Num → F.Num → Text
  unfolding text_eq
  tier_for adv score =
      if text_eq adv.kind kind_malware || at_least score (F.tenths 90)
      then tier_critical
      else if at_least score (F.tenths 70)
      then tier_high
      else if at_least score (F.tenths 40)
      then tier_medium
      else tier_low

  -- `score *= factor` under a condition.
  abbrev pub scale_if : Bool → ℕ → F.Num → F.Num
  scale_if condition factor score = if condition then F.times score (F.tenths factor) else score

  -- The severity of the advisory, 5.0 where upstream gave none.
  abbrev pub base_score : Advisory F.Num → F.Num
  base_score adv = elim adv.severity_cvss [ none ↦ F.tenths 50 | some cvss ↦ cvss ]

  -- The package is a project's and has not been seen for 90 days.
  unfoldable pub is_stale : Package → ℤ → Bool
  unfolding ◌-ℤ◌ text_eq
  is_stale pkg now = text_eq pkg.scope scope_project && ltb_ℤ stale_after (now -ℤ pkg.last_seen)

  unfoldable pub context_score : Advisory F.Num → Package → ℤ → F.Num
  unfolding text_eq is_stale
  context_score adv pkg now = scale_if (is_stale pkg now) 4 (
      scale_if pkg.has_scripts 15 (
        scale_if (text_eq pkg.scope scope_global) 15
          (scale_if (text_eq adv.kind kind_malware) 40 (base_score adv))))

  -- `Score`; `promote_tiers` is the variable PromoteTiers.
  unfoldable pub score : Bool → Advisory F.Num → Package → ℤ → F.Num × Text
  unfolding context_score tier_for
  score promote_tiers adv pkg now =
      let rated = context_score adv pkg now in
      if promote_tiers then (rated, tier_for adv rated) else (rated, tier_for adv (base_score adv))
