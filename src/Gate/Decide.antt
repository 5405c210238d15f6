-- ===== src/Gate/Decide.antt =====
-- `decide`, `beats`, `reasonFor`, `fixedIn` and `EvaluateSet` of internal/gate/gate.go. The matcher
-- of the model is total, so that the recovery from a panic has nothing to catch.
pub mod Worst
pub mod Blocks
pub mod Outcome
use pkgwatch.Base.{
  ℕ, suc, ◌+◌, Bool, true, false, ◌&&◌, ◌||◌, not, leb, List, [], ◌∷◌, Option, none, some,
  if◌then◌else◌, ℤ, pos, ltb_ℤ, ◌-ℤ◌, map, ◌≡◌,
}
use pkgwatch.Base.Text.{Text, codes, text_eq, is_empty}
use pkgwatch.Version.{Result, ParseError}
use pkgwatch.Match.{Range, Advisory, Package, Comparator, kind_malware, scope_project}
use pkgwatch.Match.Affects.{affects}
use pkgwatch.Match.Score.{Float, score}
use pkgwatch.Gate.{
  Request, Verdict, Gate, no_verdict, reason_malware, reason_vulnerability, reason_cooldown,
  reason_degraded, decision_override, tier_rank, block_tier, covers,
}
use pkgwatch.Gate.Buffer.{apply_buffer}

-- What the gate asks its databases and its surroundings: the override of the session
-- (`IsApproved`, a query; none for an error), the advisories of a package (`LookupAdvisories` under
-- the guard, a query; none for an error), the print of the publish buffer's summary, and the
-- successive readings of the clock.
pub record World (Num : Type 0) : Type 0 where
  pub is_approved : Request → Option Bool
  pub lookup : Text → Text → Option (List (Advisory Num))
  pub fresh_summary : ℤ → ℤ → Text
  pub clock : ℕ → ℤ

-- `reasonFor`
unfoldable pub reason_for : {Num : Type 0} → Advisory Num → Text
unfolding text_eq
reason_for adv = if text_eq adv.kind kind_malware then reason_malware else reason_vulnerability

-- The loop of `fixedIn`.
unfoldable pub first_fixed : List Range → Text
first_fixed [] = []
first_fixed (r ∷ rs) = if is_empty r.fixed then first_fixed rs else r.fixed

-- `fixedIn`
unfoldable pub fixed_in : {Num : Type 0} → Advisory Num → Text
unfolding text_eq first_fixed
fixed_in adv = if text_eq adv.kind kind_malware then [] else first_fixed adv.ranges

abbrev pub no_items : List Text → Bool
no_items [] = true
no_items (c ∷ cs) = false

-- `covers` is asked only if the bundle says what it carries.
unfoldable pub is_uncovered : Gate → Request → Bool
unfolding covers
is_uncovered g req = not (no_items g.covered) && not (covers g.covered req.ecosystem)

-- `Verdict{Degraded: true, Reason: ReasonDegraded}`
abbrev pub degraded_verdict : {Num : Type 0} → Num → Verdict Num
degraded_verdict nothing = record {
  blocked = false;
  reason = reason_degraded;
  advisory_id = [];
  summary = [];
  tier = [];
  score = nothing;
  fixed_in = [];
  warn = false;
  degraded = true;
}

-- The package that the gate matches, seen at the given time.
abbrev pub package_of : Request → ℤ → Package
package_of req seen = record {
  ecosystem = req.ecosystem;
  name = req.name;
  version = req.version;
  scope = scope_project;
  has_scripts = false;
  last_seen = seen;
}

-- `IsApproved` answers without an error, and yes.
abbrev pub is_override : Option Bool → Bool
is_override none = false
is_override (some approved) = approved

-- `Affects` answers without an error, and yes.
abbrev pub is_hit : Bool × Option ParseError → Bool
is_hit (hit, none) = hit
is_hit (hit, some e) = false

module _ (F : Float) where
  -- `beats`
  unfoldable pub beats : Verdict F.Num → Verdict F.Num → Bool
  unfolding text_eq
  beats candidate current =
      if is_empty current.advisory_id
      then true
      else if text_eq candidate.reason reason_malware && not (text_eq current.reason reason_malware)
      then true
      else if text_eq current.reason reason_malware && not (text_eq candidate.reason reason_malware)
      then false
      else F.less current.score candidate.score

  -- The candidate of an advisory that hits.
  unfoldable pub candidate_of : Bool → Gate → Package → ℤ → Advisory F.Num → Verdict F.Num
  unfolding score tier_rank block_tier reason_for fixed_in text_eq
  candidate_of promote_tiers g pkg now adv =
      let rated = score F promote_tiers adv pkg now in
      record {
        blocked =
            text_eq adv.kind kind_malware || leb (tier_rank (block_tier g)) (tier_rank rated.1);
        reason = reason_for adv;
        advisory_id = adv.id;
        summary = adv.summary;
        tier = rated.1;
        score = rated.0;
        fixed_in = fixed_in adv;
        warn = false;
        degraded = false;
      }

  -- The end of a round.
  abbrev pub worse : Verdict F.Num → Verdict F.Num → Verdict F.Num
  worse candidate worst = if beats candidate worst then candidate else worst

  -- The end of `decide`, where nothing is on file, at the time `now`; the summary reads the clock
  -- again, which is taken to be the same reading.
  unfoldable pub decide_fresh : (ℤ → ℤ → Text) → Gate → Option ℤ → ℤ → Verdict F.Num
  unfolding ◌-ℤ◌
  decide_fresh summary g none now = no_verdict (F.tenths 0)
  decide_fresh summary g (some published) now =
      if ltb_ℤ (pos 0) g.cooldown && ltb_ℤ (now -ℤ published) g.cooldown
      then record {
        blocked = false;
        reason = reason_cooldown;
        advisory_id = [];
        summary = summary (now -ℤ published) g.cooldown;
        tier = [];
        score = F.tenths 0;
        fixed_in = [];
        warn = true;
        degraded = false;
      }
      else no_verdict (F.tenths 0)

  module _ (comparator_for : Text → Result Comparator) (promote_tiers : Bool) where
    -- The loop over the advisories; a hit reads the clock, `k` counts the readings.
    unfoldable pub worst_of :
        Gate → Package → (ℕ → ℤ) → ℕ → Verdict F.Num → List (Advisory F.Num) → Verdict F.Num × ℕ
    unfolding affects candidate_of beats
    worst_of g pkg clock k worst [] = (worst, k)
    worst_of g pkg clock k worst (adv ∷ advs) =
        if is_hit (affects comparator_for adv pkg)
        then worst_of g pkg clock (suc k)
            (worse (candidate_of promote_tiers g pkg (clock k) adv) worst) advs
        else worst_of g pkg clock k worst advs

    -- `decide` from the loop on.
    unfoldable pub decide_matched :
        World F.Num → Gate → Request → List (Advisory F.Num) → Verdict F.Num
    unfolding worst_of decide_fresh
    decide_matched w g req advisories =
        let found =
          worst_of g (package_of req (w.clock 0)) w.clock 1 (no_verdict (F.tenths 0)) advisories in
        if is_empty found.0.advisory_id
        then decide_fresh w.fresh_summary g req.published (w.clock found.1)
        else found.0

    -- `decide`
    unfoldable pub decide : World F.Num → Gate → Request → Verdict F.Num
    unfolding is_uncovered decide_matched
    decide w g req =
        if is_override (w.is_approved req)
        then record {
          blocked = false;
          reason = decision_override;
          advisory_id = [];
          summary = [];
          tier = [];
          score = F.tenths 0;
          fixed_in = [];
          warn = false;
          degraded = false;
        }
        else if not g.bundle_attached
        then degraded_verdict (F.tenths 0)
        else if is_uncovered g req
        then degraded_verdict (F.tenths 0)
        else elim (w.lookup req.ecosystem req.name) [
          | none ↦ degraded_verdict (F.tenths 0)
          | some advisories ↦ decide_matched w g req advisories
        ]

    -- `EvaluateSet`, the verdicts: each request comes with what the gate reads while it decides it.
    unfoldable pub evaluate_set : Gate → List (World F.Num × Request) → List (Verdict F.Num)
    unfolding decide apply_buffer
    evaluate_set g reqs = apply_buffer (map (λ q. decide q.0 g q.1) reqs)
