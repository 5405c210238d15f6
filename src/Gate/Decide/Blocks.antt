-- ===== src/Gate/Decide/Blocks.antt =====
-- When `decide` of internal/gate/gate.go blocks, and when it says that it could not tell.
use pkgwatch.Base.{
  ℕ, suc, ◌≤◌, Bool, true, false, ◌||◌, ◌&&◌, leb, List, [], ◌∷◌, Option, none, some, ℤ, ◌-ℤ◌,
  ltb_ℤ, ◌≡◌, refl, sym, ◌∙◌, ap, ◌⊎◌, inl, inr, ◌↔◌, arith, Bool-cases, All, any,
}
use pkgwatch.Base.Text.{Text, text_eq, is_empty}
use pkgwatch.Base.Text.Laws.{text_eq-eq, text_eq_refl}
use pkgwatch.Version.{Result, ParseError}
use pkgwatch.Match.{Advisory, Package, Comparator, kind_malware}
use pkgwatch.Match.Affects.{affects}
use pkgwatch.Match.Score.{Float, tier_for, base_score, context_score, is_stale, score, stale_after}
use pkgwatch.Match.Score.Bounds.{IsTotal}
use pkgwatch.Gate.{Request, Verdict, Gate, tier_rank, block_tier, reason_malware}
use pkgwatch.Gate.Decide.{reason_for, candidate_of, worse, worst_of, is_hit, package_of}
use pkgwatch.Gate.Decide.Worst.{
  rank_of, tier_rank-tier_for, IsRated, IsWorst, IsWorst-worse, blocked-worse,
}

-- The clock does not advance by 90 days while a request is answered.
abbrev pub IsSteady : (ℕ → ℤ) → Type 0
IsSteady clock = (k : ℕ) → ltb_ℤ stale_after (clock k -ℤ clock 0) ≡ false

or_turn : (x c w s r : Bool) → x ≡ (c || w) → c ≡ s → (x || r) ≡ (w || (s || r))
or_turn x c w s r e d = ground arith

both : (a b : Bool) {P Q : Type 0} → (a ≡ true) ↔ P → (b ≡ true) ↔ Q → ((a && b) ≡ true) ↔ (P × Q)
both true b p q = (λ h. (p.0 refl, q.0 h), λ h. q.1 h.1)
both false b p q = (λ h. absurd (cc), λ h. p.1 h.0)

module _ (F : Float) where
  -- Malware, or a tier at or over the threshold of the gate.
  abbrev pub IsSerious : Gate → Advisory F.Num → Type 0
  IsSerious g adv =
      (adv.kind ≡ kind_malware)
      ⊎ (tier_rank (block_tier g) ≤ tier_rank (tier_for F adv (base_score F adv)))

  abbrev serious : Gate → Advisory F.Num → Bool
  serious g adv =
      text_eq adv.kind kind_malware
      || leb (tier_rank (block_tier g)) (tier_rank (tier_for F adv (base_score F adv)))

  IsSerious-iff : (g : Gate) (adv : Advisory F.Num) → (serious g adv ≡ true) ↔ IsSerious g adv
  IsSerious-iff g adv = (
    λ h. ground (arith, text_eq-eq adv.kind kind_malware),
    λ h. elim h [ inl e ↦ rw (e, text_eq_refl kind_malware) | inr l ↦ ground arith ],
  )

  -- The gate's own package has no context that moves a score but malware.
  score_base :
      (promote_tiers : Bool) (req : Request) (seen now : ℤ) (adv : Advisory F.Num)
      → ltb_ℤ stale_after (now -ℤ seen) ≡ false
      → text_eq adv.kind kind_malware ≡ false
      → score F promote_tiers adv (package_of req seen) now
        ≡ (base_score F adv, tier_for F adv (base_score F adv))
  unfolding score context_score is_stale text_eq
  score_base true req seen now adv h m = rw (h, m)
  score_base false req seen now adv h m = rw (h, m)

  module _ (total : IsTotal F) (promote_tiers : Bool) (g : Gate) (req : Request) (seen now : ℤ)
      (adv : Advisory F.Num) (steady : ltb_ℤ stale_after (now -ℤ seen) ≡ false) where
    abbrev candidate : Verdict F.Num
    candidate = candidate_of F promote_tiers g (package_of req seen) now adv

    blocked-candidate_of : candidate.blocked ≡ serious g adv
    unfolding candidate_of
    blocked-candidate_of = elim (Bool-cases (text_eq adv.kind kind_malware)) [
      | inl m ↦ rw m
      | inr m ↦ rw (score_base promote_tiers req seen now adv steady m)
    ]

    reason_malware_iff : text_eq candidate.reason reason_malware ≡ text_eq adv.kind kind_malware
    unfolding candidate_of reason_for text_eq
    reason_malware_iff = elim (Bool-cases (text_eq adv.kind kind_malware)) [
      | inl m ↦ ground arith
      | inr m ↦ ground arith
    ]

    score-candidate_of : text_eq adv.kind kind_malware ≡ false → candidate.score ≡ base_score F adv
    unfolding candidate_of
    score-candidate_of m = ap (λ p. p.0) (score_base promote_tiers req seen now adv steady m)

    rank_blocks_of :
        text_eq adv.kind kind_malware ≡ false
        → candidate.blocked ≡ leb (tier_rank (block_tier g)) (rank_of F candidate.score)
    rank_blocks_of m = rw (score-candidate_of m) (blocked-candidate_of ∙ plain)
      where
        plain : serious g adv ≡ leb (tier_rank (block_tier g)) (rank_of F (base_score F adv))
        plain = rw (m, tier_rank-tier_for F adv (base_score F adv) m)

    malware_blocks_of : text_eq adv.kind kind_malware ≡ true → candidate.blocked ≡ true
    unfolding candidate_of
    malware_blocks_of m = rw m

    named_of : is_empty candidate.advisory_id ≡ is_empty adv.id
    unfolding candidate_of
    named_of = refl

    candidate_of-IsRated :
        is_empty adv.id ≡ false → IsRated F total (tier_rank (block_tier g)) candidate
    candidate_of-IsRated h = record {
      named = named_of ∙ h;
      malware_blocks = λ r. malware_blocks_of (sym reason_malware_iff ∙ r);
      rank_blocks = λ r. rank_blocks_of (sym reason_malware_iff ∙ r);
    }

  -- An advisory hits, without an error.
  abbrev pub Hits : (Text → Result Comparator) → Package → Advisory F.Num → Type 0
  Hits comparator_for pkg adv = affects comparator_for adv pkg ≡ (true, none)

  is_hit_iff : (o : Bool × Option ParseError) → (is_hit o ≡ true) ↔ (o ≡ (true, none))
  is_hit_iff (true, none) = (λ _. refl, λ _. refl)
  is_hit_iff (false, none) = (λ h. absurd (cc), λ h. ap (λ o. o.0) h)
  is_hit_iff (b, some e) = (λ h. absurd (cc), λ h. absurd (none≢some (ap (λ o. o.1) (sym h))))
    where
      none≢some : {x : ParseError} → ¬ (none ≡ some x)
      none≢some h = cc

  module _ (total : IsTotal F) (comparator_for : Text → Result Comparator) (promote_tiers : Bool)
      (g : Gate) (req : Request) (clock : ℕ → ℤ) (steady : IsSteady clock) where
    abbrev pkg : Package
    pkg = package_of req (clock 0)

    abbrev pub hit_blocks : Advisory F.Num → Bool
    hit_blocks adv = is_hit (affects comparator_for adv pkg) && serious g adv

    abbrev t : ℕ
    t = tier_rank (block_tier g)

    abbrev loop : ℕ → Verdict F.Num → List (Advisory F.Num) → Verdict F.Num × ℕ
    loop = worst_of F comparator_for promote_tiers g pkg clock

    unfoldable pub Kept : List (Advisory F.Num) → ℕ → Verdict F.Num → Type 0
    Kept advs k worst =
        ((loop k worst advs).0.blocked ≡ (worst.blocked || any hit_blocks advs))
        × IsWorst F total t (loop k worst advs).0

    pub worst_of_lem :
        (advs : List (Advisory F.Num)) (k : ℕ) (worst : Verdict F.Num)
        → All (λ adv. is_empty adv.id ≡ false) advs
        → IsWorst F total t worst
        → Kept advs k worst
    unfolding worst_of Kept
    worst_of_lem [] k worst ids hw = (ground arith, hw)
    worst_of_lem (adv ∷ advs) k worst ids hw =
        go (is_hit (affects comparator_for adv pkg)) refl (λ j w h. worst_of_lem advs j w ids.1 h)
      where
        next : Verdict F.Num
        next = candidate_of F promote_tiers g pkg (clock k) adv

        rated : IsRated F total t next
        rated =
            candidate_of-IsRated total promote_tiers g req (clock 0) (clock k) adv (steady k) ids.0

        grown :
            ((worse F next worst).blocked || any hit_blocks advs)
            ≡ (worst.blocked || (serious g adv || any hit_blocks advs))
        grown =
            or_turn _ next.blocked _ _ _ (blocked-worse F total t next worst rated hw)
              (blocked-candidate_of total promote_tiers g req (clock 0) (clock k) adv (steady k))

        go :
            (b : Bool)
            → is_hit (affects comparator_for adv pkg) ≡ b
            → ((j : ℕ) (w : Verdict F.Num) → IsWorst F total t w → Kept advs j w)
            → Kept (adv ∷ advs) k worst
        go true q ih =
            let (eqn, inv) =
              ih (suc k) (worse F next worst) (IsWorst-worse F total t next worst rated hw) in
            rw q (eqn ∙ grown, inv)
        go false q ih = let (eqn, inv) = ih k worst hw in rw q (eqn, inv)

    pub hit_blocks_iff :
        (adv : Advisory F.Num)
        → (hit_blocks adv ≡ true) ↔ (Hits comparator_for pkg adv × IsSerious g adv)
    hit_blocks_iff adv =
        both _ _ (is_hit_iff (affects comparator_for adv pkg)) (IsSerious-iff g adv)
