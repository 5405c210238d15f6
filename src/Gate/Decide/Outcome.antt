-- ===== src/Gate/Decide/Outcome.antt =====
-- What `decide` and `EvaluateSet` of internal/gate/gate.go answer.
use pkgwatch.Base.{
  Option-cases, ℕ, suc, Bool, true, false, ◌&&◌, List, [], ◌∷◌, Option, none, some, ℤ, pos, ◌-ℤ◌,
  ltb_ℤ, ◌≡◌, refl, sym, ◌∙◌, ap, ◌≢◌, ◌⊎◌, inl, inr, ◌↔◌, arith, Bool-cases, if◌then◌else◌, All,
  Any, any_iff,
}
use pkgwatch.Base.Text.{Text, is_empty}
use pkgwatch.Base.Text.Laws.{text_eq_iff}
use pkgwatch.Version.{Result}
use pkgwatch.Match.{Advisory, Comparator}
use pkgwatch.Match.Affects.{affects}
use pkgwatch.Match.Score.{Float}
use pkgwatch.Match.Score.Bounds.{IsTotal}
use pkgwatch.Gate.{Request, Verdict, Gate, covers, no_verdict, tier_rank, block_tier}
use pkgwatch.Gate.Buffer.Safe.{apply_buffer_single}
use pkgwatch.Gate.Decide.{
  World, worst_of, decide_fresh, decide_matched, decide, is_override, is_uncovered, no_items,
  package_of, evaluate_set, candidate_of, is_hit,
}
use pkgwatch.Gate.Decide.Worst.{IsWorst}
use pkgwatch.Gate.Decide.Blocks.{IsSteady, IsSerious, Hits, Kept, worst_of_lem, hit_blocks_iff}

true≢false : true ≢ false
true≢false h = cc

covers_iff :
    (covered : List Text) (ecosystem : Text)
    → (covers covered ecosystem ≡ true) ↔ Any (λ item. item ≡ ecosystem) covered
unfolding covers
covers_iff [] ecosystem = (λ h. absurd (cc), λ h. absurd h)
covers_iff (item ∷ covered) ecosystem =
    let (to, from) = covers_iff covered ecosystem in
    let (same, back) = text_eq_iff item ecosystem in
    (λ h. ground (arith, same, to), λ h. ground (arith, back, from))

-- The bundle says what it carries, and the ecosystem of the request is not among it.
abbrev pub IsUncovered : Gate → Request → Type 0
IsUncovered g req = (no_items g.covered ≡ false) × ¬ Any (λ item. item ≡ req.ecosystem) g.covered

IsUncovered-iff : (g : Gate) (req : Request) → (is_uncovered g req ≡ true) ↔ IsUncovered g req
unfolding is_uncovered
IsUncovered-iff g req =
    let (to, from) = covers_iff g.covered req.ecosystem in
    (λ h. ground (arith, to, from), λ h. ground (arith, to, from))

module _ (F : Float) where
  decide_fresh_allows :
      (summary : ℤ → ℤ → Text) (g : Gate) (p : Option ℤ) (now : ℤ)
      → ((decide_fresh F summary g p now).blocked ≡ false)
        × ((decide_fresh F summary g p now).degraded ≡ false)
  unfolding decide_fresh
  decide_fresh_allows summary g none now = (refl, refl)
  decide_fresh_allows summary g (some published) now =
      elim (Bool-cases (ltb_ℤ (pos 0) g.cooldown && ltb_ℤ (now -ℤ published) g.cooldown)) [
        | inl b ↦ rw b (refl, refl)
        | inr b ↦ rw b (refl, refl)
      ]

  module _ (comparator_for : Text → Result Comparator) (promote_tiers : Bool) (g : Gate)
      (w : World F.Num) (req : Request) where
    abbrev answer : Verdict F.Num
    answer = decide F comparator_for promote_tiers w g req

    abbrev found : List (Advisory F.Num) → Verdict F.Num × ℕ
    found =
        worst_of F comparator_for promote_tiers g (package_of req (w.clock 0)) w.clock 1
          (no_verdict (F.tenths 0))

    -- No override, a bundle that covers the ecosystem, and the advisories that it holds.
    abbrev pub Looked : List (Advisory F.Num) → Type 0
    Looked advs =
        (is_override (w.is_approved req) ≡ false)
        × (g.bundle_attached ≡ true)
        × (is_uncovered g req ≡ false)
        × (w.lookup req.ecosystem req.name ≡ some advs)

    decide-Looked :
        (advs : List (Advisory F.Num))
        → Looked advs
        → answer ≡ decide_matched F comparator_for promote_tiers w g req advs
    unfolding decide
    decide-Looked advs (free, attached, covered, listed) = rw (free, attached, covered, listed)

    blocked-decide_matched :
        (advs : List (Advisory F.Num))
        → ((is_empty (found advs).0.advisory_id ≡ true) → (found advs).0.blocked ≡ false)
        → (decide_matched F comparator_for promote_tiers w g req advs).blocked
          ≡ (found advs).0.blocked
    unfolding decide_matched
    blocked-decide_matched advs h = elim (Bool-cases (is_empty (found advs).0.advisory_id)) [
      | inl b ↦ rw b (
          (decide_fresh_allows w.fresh_summary g req.published (w.clock (found advs).1)).0
          ∙ sym (h b))
      | inr b ↦ rw b
    ]

    empty_allows :
        (total : IsTotal F) (v : Verdict F.Num)
        → IsWorst F total (tier_rank (block_tier g)) v
        → is_empty v.advisory_id ≡ true
        → v.blocked ≡ false
    empty_allows total v (inl (e, b)) h = b
    empty_allows total v (inr r) h = absurd (true≢false (sym h ∙ r.named))

    -- If the order of the numbers is total, the clock does not advance by 90 days within the
    -- request, and the advisories have identifiers, then `decide`, where it has looked the package
    -- up (no override, a bundle that covers the ecosystem, a lookup without an error), blocks
    -- exactly if one of the advisories hits and is malware or of a tier that reaches the threshold.
    pub decide_blocks_iff :
        IsTotal F
        → IsSteady w.clock
        → (advs : List (Advisory F.Num)) → Looked advs
        → All (λ adv. is_empty adv.id ≡ false) advs
        → (answer.blocked ≡ true)
          ↔ Any
              (λ adv. Hits F comparator_for (package_of req (w.clock 0)) adv × IsSerious F g adv)
              advs
    unfolding Kept
    decide_blocks_iff total steady advs looked ids =
        let (eqn, inv) =
          worst_of_lem F total comparator_for promote_tiers g req w.clock steady advs 1
            (no_verdict (F.tenths 0)) ids (inl (refl, refl)) in
        let decided =
          any_iff _ _ (hit_blocks_iff F total comparator_for promote_tiers g req w.clock steady)
            advs in
        let whole =
          ap (λ v. v.blocked) (decide-Looked advs looked)
          ∙ blocked-decide_matched advs (empty_allows total (found advs).0 inv)
          ∙ eqn in
        (λ h. decided.0 (sym whole ∙ h), λ h. whole ∙ decided.1 h)

    found_degraded :
        (advs : List (Advisory F.Num)) (k : ℕ) (worst : Verdict F.Num)
        → worst.degraded ≡ false
        → (worst_of F comparator_for promote_tiers g
            (package_of req (w.clock 0))
            w.clock
            k
            worst
            advs).0.degraded
          ≡ false
    unfolding worst_of candidate_of
    found_degraded [] k worst h = h
    found_degraded (adv ∷ advs) k worst h =
        elim (Bool-cases (is_hit (affects comparator_for adv (package_of req (w.clock 0))))) [
          | inl b ↦ rw b (found_degraded advs (suc k) _ (kept _))
          | inr b ↦ rw b (found_degraded advs k worst h)
        ]
      where
        next : Verdict F.Num
        next = candidate_of F promote_tiers g (package_of req (w.clock 0)) (w.clock k) adv

        kept : (b : Bool) → (if b then next else worst).degraded ≡ false
        kept true = refl
        kept false = h

    degraded-decide_matched :
        (advs : List (Advisory F.Num))
        → (decide_matched F comparator_for promote_tiers w g req advs).degraded ≡ false
    unfolding decide_matched
    degraded-decide_matched advs = elim (Bool-cases (is_empty (found advs).0.advisory_id)) [
      | inl b ↦
          rw b (decide_fresh_allows w.fresh_summary g req.published (w.clock (found advs).1)).1
      | inr b ↦ rw b (found_degraded advs 1 (no_verdict (F.tenths 0)) refl)
    ]

    -- A verdict is degraded exactly if the session has no override and the gate had no bundle, a
    -- bundle that says what it carries without the ecosystem of the request, or no answer to its
    -- lookup; and a degraded verdict does not block.
    pub decide_degraded_iff :
        ((answer.degraded ≡ true) ↔ (
          (is_override (w.is_approved req) ≡ false)
          × ((g.bundle_attached ≡ false)
              ⊎ IsUncovered g req
              ⊎ (w.lookup req.ecosystem req.name ≡ none))))
        × (answer.degraded ≡ true → answer.blocked ≡ false)
    unfolding decide
    decide_degraded_iff =
        let (to, from) = IsUncovered-iff g req in
        elim (Option-cases (w.lookup req.ecosystem req.name)) [
          | inl q ↦ ground (arith, q, to, from)
          | inr (advs, q) ↦ ground (arith, q, to, from, degraded-decide_matched advs)
        ]

    -- `Evaluate`: a request on its own is answered as `decide` has it, whatever the buffer.
    pub evaluate_set-decide :
        evaluate_set F comparator_for promote_tiers g ((w, req) ∷ []) ≡ answer ∷ []
    unfolding evaluate_set
    evaluate_set-decide = apply_buffer_single answer
