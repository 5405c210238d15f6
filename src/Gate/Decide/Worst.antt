-- ===== src/Gate/Decide/Worst.antt =====
-- The loop of `decide` in internal/gate/gate.go: the verdict that it keeps blocks if any does.
use pkgwatch.Base.{
  ℕ, ◌≤◌, true, false, ◌||◌, leb, ◌≡◌, refl, ◌⊎◌, inl, inr, arith, Bool-cases, if◌then◌else◌,
}
use pkgwatch.Base.Text.{text_eq, is_empty}
use pkgwatch.Match.{Advisory, kind_malware, tier_critical, tier_high, tier_medium, tier_low}
use pkgwatch.Match.Score.{Float, at_least, tier_for}
use pkgwatch.Match.Score.Bounds.{IsTotal}
use pkgwatch.Gate.{Verdict, tier_rank, find_rank, reason_malware}
use pkgwatch.Gate.Decide.{beats, worse}

rank_critical : tier_rank tier_critical ≡ 4
unfolding tier_rank find_rank text_eq
rank_critical = refl

rank_high : tier_rank tier_high ≡ 3
unfolding tier_rank find_rank text_eq
rank_high = refl

rank_medium : tier_rank tier_medium ≡ 2
unfolding tier_rank find_rank text_eq
rank_medium = refl

rank_low : tier_rank tier_low ≡ 1
unfolding tier_rank find_rank text_eq
rank_low = refl

module _ (F : Float) where
  -- The rank of the tier that a score has.
  abbrev pub rank_of : F.Num → ℕ
  rank_of s =
      if at_least F s (F.tenths 90)
      then 4
      else if at_least F s (F.tenths 70)
      then 3
      else if at_least F s (F.tenths 40)
      then 2
      else 1

  pub tier_rank-tier_for :
      (adv : Advisory F.Num) (s : F.Num)
      → text_eq adv.kind kind_malware ≡ false
      → tier_rank (tier_for F adv s) ≡ rank_of s
  unfolding tier_for
  tier_rank-tier_for adv s h = elim (Bool-cases (at_least F s (F.tenths 90))) [
    | inl a ↦ rw (h, a, rank_critical)
    | inr a ↦ elim (Bool-cases (at_least F s (F.tenths 70))) [
      | inl b ↦ rw (h, a, b, rank_high)
      | inr b ↦ elim (Bool-cases (at_least F s (F.tenths 40))) [
        | inl c ↦ rw (h, a, b, c, rank_medium)
        | inr c ↦ rw (h, a, b, c, rank_low)
      ]
    ]
  ]

  module _ (total : IsTotal F) where
    at_least_of :
        (n : ℕ) (x y : F.Num)
        → F.less x y ≡ false
        → at_least F y (F.tenths n) ≡ true
        → at_least F x (F.tenths n) ≡ true
    at_least_of n x y h a = ground (arith, total.at_least_trans x y (F.tenths n))

    rank_of_mono : (x y : F.Num) → F.less x y ≡ false → rank_of y ≤ rank_of x
    rank_of_mono x y h =
        ground (arith, at_least_of 90 x y h, at_least_of 70 x y h, at_least_of 40 x y h)

    -- What a verdict on an advisory says, for the rank `t` that blocks.
    pub record IsRated (t : ℕ) (v : Verdict F.Num) : Type 0 where
      pub named : is_empty v.advisory_id ≡ false
      pub malware_blocks : text_eq v.reason reason_malware ≡ true → v.blocked ≡ true
      pub rank_blocks :
          text_eq v.reason reason_malware ≡ false → v.blocked ≡ leb t (rank_of v.score)

    -- No advisory yet, or the verdict on one.
    abbrev pub IsWorst : ℕ → Verdict F.Num → Type 0
    IsWorst t v = ((is_empty v.advisory_id ≡ true) × (v.blocked ≡ false)) ⊎ IsRated t v

    module _ (t : ℕ) (c w : Verdict F.Num) (rated : IsRated t c) where
      pub IsWorst-worse : IsWorst t w → IsWorst t (worse F c w)
      IsWorst-worse hw = elim (Bool-cases (beats F c w)) [
        | inl b ↦ rw b (inr rated)
        | inr b ↦ rw b hw
      ]

      worse_rated : IsRated t w → (worse F c w).blocked ≡ (c.blocked || w.blocked)
      unfolding beats
      worse_rated hw = elim (Bool-cases (text_eq c.reason reason_malware)) [
        | inl a ↦ elim (Bool-cases (text_eq w.reason reason_malware)) [
          | inl b ↦ ground (arith, rated.malware_blocks a, hw.malware_blocks b)
          | inr b ↦ ground (arith, rated.malware_blocks a, hw.named)
        ]
        | inr a ↦ elim (Bool-cases (text_eq w.reason reason_malware)) [
          | inl b ↦ ground (arith, hw.malware_blocks b, hw.named)
          | inr b ↦ ground (
            arith,
            hw.named,
            rated.rank_blocks a,
            hw.rank_blocks b,
            rank_of_mono c.score w.score,
            rank_of_mono w.score c.score,
            total.asym w.score c.score,
          )
        ]
      ]

      -- Of two verdicts the one that is kept blocks if one of them does.
      pub blocked-worse : IsWorst t w → (worse F c w).blocked ≡ (c.blocked || w.blocked)
      unfolding beats
      blocked-worse (inl (e, b)) = ground (arith)
      blocked-worse (inr hw) = worse_rated hw
