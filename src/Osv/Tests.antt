-- ===== src/Osv/Tests.antt =====
-- Runs of internal/osv on concrete records.
use pkgwatch.Base.{ℕ, List, [], ◌∷◌, none, ◌≡◌, refl, All, map}
use pkgwatch.Base.Text.{codes}
use pkgwatch.Match.Tests.{text_semver, no_fold}
use pkgwatch.Osv.{Event, Record, events_to_intervals, advisories}
use pkgwatch.Osv.Intervals.{
  Interval, range_of, events_of, introduces, fixes, events_to_intervals-events_of,
}
use pkgwatch.Osv.Kept.{IsKept, events_to_intervals-IsKept}
use pkgwatch.Osv.Supported.{IsStored, advisories-IsStored}

abbrev two_branches : List Interval
two_branches =
    Interval.fixed_by b'1' (codes ".0") b'1' (codes ".4") ∷ Interval.unfixed b'2' (codes ".0") ∷ []

events_to_intervals-events_of_example :
    events_to_intervals (events_of two_branches) ≡ map range_of two_branches
events_to_intervals-events_of_example = events_to_intervals-events_of two_branches

abbrev fix_first : List Event
fix_first = fixes (codes "1.2") ∷ introduces (codes "2.0") ∷ introduces (codes "3.0") ∷ []

from_the_start :
    events_to_intervals fix_first
    ≡ record { introduced = codes "0"; fixed = codes "1.2"; last_affected = [] }
      ∷ record { introduced = codes "2.0"; fixed = []; last_affected = [] }
      ∷ record { introduced = codes "3.0"; fixed = []; last_affected = [] }
      ∷ []
unfolding events_to_intervals
from_the_start = refl

events_to_intervals-IsKept_example : All (IsKept (events_to_intervals fix_first)) fix_first
events_to_intervals-IsKept_example = events_to_intervals-IsKept fix_first

abbrev malware_record : Record ℕ
malware_record = record {
  id = codes "MAL-2025-1";
  summary = [];
  severity = none;
  published = none;
  modified = none;
  withdrawn = none;
  affected =
      record {
        ecosystem = codes "npm";
        name = codes "left";
        ranges = record { kind = codes "SEMVER"; events = fix_first } ∷ [];
        versions = codes "1.0.0" ∷ [];
      }
      ∷ [];
}

advisories-IsStored_example :
    All (IsStored text_semver no_fold) (advisories text_semver no_fold malware_record)
advisories-IsStored_example = advisories-IsStored text_semver no_fold malware_record
