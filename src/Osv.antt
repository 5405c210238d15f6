-- ===== src/Osv.antt =====
-- internal/osv/osv.go: from an OSV record to advisories.
pub mod Intervals
pub mod Kept
pub mod Supported
mod Tests
use pkgwatch.Base.{
  ℕ, Bool, true, false, ◌&&◌, ◌||◌, not, List, [], ◌∷◌, ◌++◌, Option, none, some, if◌then◌else◌, ℤ,
  pos,
}
use pkgwatch.Base.Text.{Text, codes, text_eq, is_empty, has_prefix}
use pkgwatch.Version.Npmver.{Semver}
use pkgwatch.Match.Ecosystem.{supported}
use pkgwatch.Match.{Range, Advisory, kind_malware, kind_vulnerability}

-- An entry of `events`; an absent field is empty.
pub record Event : Type 0 where
  pub introduced : Text
  pub fixed : Text
  pub last_affected : Text
  pub limit : Text

-- An entry of `ranges`.
pub record EventRange : Type 0 where
  pub kind : Text
  pub events : List Event

-- An entry of `affected`.
pub record Affected : Type 0 where
  pub ecosystem : Text
  pub name : Text
  pub ranges : List EventRange
  pub versions : List Text

-- `Record` as far as `Advisories` reads it: the severity and the summary have been worked out.
pub record Record (Num : Type 0) : Type 0 where
  pub id : Text
  pub summary : Text
  pub severity : Option Num
  pub published : Option ℤ
  pub modified : Option ℤ
  pub withdrawn : Option ℤ
  pub affected : List Affected

-- `&match.Range{Introduced: introduced}`
abbrev pub opened : Text → Range
opened introduced = record { introduced = introduced; fixed = []; last_affected = [] }

-- The interval that an event closes: `current`, or one from the beginning of time.
unfoldable pub current_or_start : Option Range → Range
current_or_start none = opened (codes "0")
current_or_start (some r) = r

abbrev pub flush : Option Range → List Range → List Range
flush none out = out
flush (some r) out = r ∷ out

-- The loop of `eventsToIntervals`: what it appends from here on.
unfoldable pub intervals_from : Option Range → List Event → List Range
unfolding current_or_start
intervals_from current [] = flush current []
intervals_from current (ev ∷ events) =
    if not (is_empty ev.introduced)
    then flush current (intervals_from (some (opened ev.introduced)) events)
    else if not (is_empty ev.fixed)
    then record {
      introduced = (current_or_start current).introduced;
      fixed = ev.fixed;
      last_affected = (current_or_start current).last_affected;
    }
      ∷ intervals_from none events
    else if not (is_empty ev.last_affected)
    then record {
      introduced = (current_or_start current).introduced;
      fixed = (current_or_start current).fixed;
      last_affected = ev.last_affected;
    }
      ∷ intervals_from none events
    else intervals_from current events

-- `eventsToIntervals`
unfoldable pub events_to_intervals : List Event → List Range
unfolding intervals_from
events_to_intervals events = intervals_from none events

-- The loop over the ranges.
unfoldable pub ranges_of : List EventRange → List Range
unfolding text_eq events_to_intervals
ranges_of [] = []
ranges_of (r ∷ rs) =
    if text_eq r.kind (codes "SEMVER") || text_eq r.kind (codes "ECOSYSTEM")
    then events_to_intervals r.events ++ ranges_of rs
    else ranges_of rs

-- The kind and the source that the identifier tells.
unfoldable pub is_malware_id : Text → Bool
unfolding has_prefix
is_malware_id id = has_prefix id (codes "MAL-")

abbrev pub kind_of : Text → Text
kind_of id = if is_malware_id id then kind_malware else kind_vulnerability

abbrev pub source_of : Text → Text
source_of id = if is_malware_id id then codes "ossf-malicious-packages" else codes "osv"

abbrev pub is_none : Option ℤ → Bool
is_none none = true
is_none (some t) = false

-- A time that is absent is the zero time, from which the times of an advisory are counted.
abbrev pub time_of : Option ℤ → ℤ
time_of none = pos 0
time_of (some t) = t

abbrev pub no_ranges : List Range → Bool
no_ranges [] = true
no_ranges (r ∷ rs) = false

-- The versions that are stored: those of a vulnerability with ranges are redundant.
unfoldable pub versions_of : Text → List Range → List Text → List Text
unfolding text_eq
versions_of kind ranges versions =
    if not (no_ranges ranges) && not (text_eq kind kind_malware) then [] else versions

-- The body of the loop of `Advisories`.
unfoldable pub advisory_of : {Num : Type 0} → Record Num → Affected → Advisory Num
unfolding ranges_of versions_of
advisory_of rec affected = record {
  id = rec.id;
  kind = kind_of rec.id;
  ecosystem = affected.ecosystem;
  package_name = affected.name;
  summary = rec.summary;
  severity_cvss = rec.severity;
  withdrawn = not (is_none rec.withdrawn);
  versions = versions_of (kind_of rec.id) (ranges_of affected.ranges) affected.versions;
  ranges = ranges_of affected.ranges;
  source = source_of rec.id;
  published = time_of rec.published;
  modified = time_of rec.modified;
}

module _ (S : Semver) (table : ℕ → ℕ) where
  -- The loop of `Advisories`.
  unfoldable pub advisories_from : {Num : Type 0} → Record Num → List Affected → List (Advisory Num)
  unfolding advisory_of supported
  advisories_from rec [] = []
  advisories_from rec (a ∷ affected) =
      if not (supported S table a.ecosystem)
      then advisories_from rec affected
      else advisory_of rec a ∷ advisories_from rec affected

  -- `Advisories`
  unfoldable pub advisories : {Num : Type 0} → Record Num → List (Advisory Num)
  unfolding advisories_from
  advisories rec = advisories_from rec rec.affected
