-- ===== src/Gate.antt =====
-- internal/gate/gate.go: whether a package version may be installed. The types, and what is
-- recorded of a verdict.
pub mod Buffer
pub mod Decide
pub mod Record
pub mod Npm
mod Tests
use pkgwatch.Base.{
  ℕ, Bool, true, false, ◌&&◌, ◌||◌, not, List, [], ◌∷◌, Option, none, some, if◌then◌else◌, ℤ, ◌≡◌,
}
use pkgwatch.Base.Text.{Text, codes, text_eq}
use pkgwatch.Match.{tier_critical, tier_high, tier_medium, tier_low}

abbrev pub reason_malware : Text
reason_malware = codes "malware"

abbrev pub reason_vulnerability : Text
reason_vulnerability = codes "vulnerability"

abbrev pub reason_cooldown : Text
reason_cooldown = codes "cooldown"

abbrev pub reason_degraded : Text
reason_degraded = codes "degraded"

abbrev pub point_resolve : Text
point_resolve = codes "resolve"

abbrev pub decision_allowed : Text
decision_allowed = codes "allowed"

abbrev pub decision_withheld : Text
decision_withheld = codes "withheld"

abbrev pub decision_blocked : Text
decision_blocked = codes "blocked"

abbrev pub decision_override : Text
decision_override = codes "approved-override"

-- `Request`; `published` is absent where the registry gave no time.
pub record Request : Type 0 where
  pub session_id : Text
  pub ecosystem : Text
  pub name : Text
  pub version : Text
  pub point : Text
  pub published : Option ℤ

-- `Verdict`
pub record Verdict (Num : Type 0) : Type 0 where
  pub blocked : Bool
  pub reason : Text
  pub advisory_id : Text
  pub summary : Text
  pub tier : Text
  pub score : Num
  pub fixed_in : Text
  pub warn : Bool
  pub degraded : Bool

-- `Verdict{}`, whose score is 0.
abbrev pub no_verdict : {Num : Type 0} → Num → Verdict Num
no_verdict nothing = record {
  blocked = false;
  reason = [];
  advisory_id = [];
  summary = [];
  tier = [];
  score = nothing;
  fixed_in = [];
  warn = false;
  degraded = false;
}

-- `Gate`, its settings: a time and a duration are numbers of nanoseconds.
pub record Gate : Type 0 where
  pub bundle_attached : Bool
  pub covered : List Text
  pub block_tier : Text
  pub cooldown : ℤ

-- A lookup in `tierRank`.
unfoldable pub find_rank : Text → List (Text × ℕ) → Option ℕ
unfolding text_eq
find_rank tier [] = none
find_rank tier ((key, rank) ∷ rest) = if text_eq key tier then some rank else find_rank tier rest

-- `tierRank`
abbrev pub tier_ranks : List (Text × ℕ)
tier_ranks = (tier_low, 1) ∷ (tier_medium, 2) ∷ (tier_high, 3) ∷ (tier_critical, 4) ∷ []

-- `tierRank[tier]`, 0 where the tier has no rank.
unfoldable pub tier_rank : Text → ℕ
unfolding find_rank
tier_rank tier = elim (find_rank tier tier_ranks) [ none ↦ 0 | some rank ↦ rank ]

-- `blockTier`
unfoldable pub block_tier : Gate → Text
unfolding find_rank
block_tier g = elim (find_rank g.block_tier tier_ranks) [
  | none ↦ tier_high
  | some rank ↦ g.block_tier
]

-- `covers`
unfoldable pub covers : List Text → Text → Bool
unfolding text_eq
covers [] ecosystem = false
covers (item ∷ covered) ecosystem =
    if text_eq item ecosystem then true else covers covered ecosystem

-- The decision that `record` writes.
unfoldable pub decision : {Num : Type 0} → Request → Verdict Num → Text
unfolding text_eq
decision req verdict =
    if verdict.blocked && text_eq req.point point_resolve
    then decision_withheld
    else if verdict.blocked
    then decision_blocked
    else if text_eq verdict.reason decision_override
    then decision_override
    else decision_allowed

-- The test of `record` for an `install_blocked` event.
unfoldable pub has_event : {Num : Type 0} → Request → Verdict Num → Bool
unfolding decision
has_event req verdict = verdict.blocked && text_eq (decision req verdict) decision_blocked
