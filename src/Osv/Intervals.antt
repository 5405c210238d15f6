-- ===== src/Osv/Intervals.antt =====
-- `eventsToIntervals` of internal/osv/osv.go reads intervals back from their events.
use pkgwatch.Base.{ℕ, map, List, [], ◌∷◌, none, some, ◌≡◌, refl, ◌∙◌, ap}
use pkgwatch.Base.Text.{Text}
use pkgwatch.Match.{Range}
use pkgwatch.Osv.{Event, opened, intervals_from, events_to_intervals}

abbrev pub introduces : Text → Event
introduces s = record { introduced = s; fixed = []; last_affected = []; limit = [] }

abbrev pub fixes : Text → Event
fixes s = record { introduced = []; fixed = s; last_affected = []; limit = [] }

abbrev pub ends_at : Text → Event
ends_at s = record { introduced = []; fixed = []; last_affected = s; limit = [] }

-- An interval as OSV can write it: where it starts, a text with a first character, and one bound at
-- most.
pub data Interval : Type 0 where
  unfixed : ℕ → Text → Interval
  fixed_by : ℕ → Text → ℕ → Text → Interval
  up_to : ℕ → Text → ℕ → Text → Interval

unfoldable pub range_of : Interval → Range
range_of (unfixed c s) = opened (c ∷ s)
range_of (fixed_by c s d t) = record { introduced = c ∷ s; fixed = d ∷ t; last_affected = [] }
range_of (up_to c s d t) = record { introduced = c ∷ s; fixed = []; last_affected = d ∷ t }

-- The events of the intervals, one interval after the other.
unfoldable pub events_of : List Interval → List Event
events_of [] = []
events_of (unfixed c s ∷ is) = introduces (c ∷ s) ∷ events_of is
events_of (fixed_by c s d t ∷ is) = introduces (c ∷ s) ∷ fixes (d ∷ t) ∷ events_of is
events_of (up_to c s d t ∷ is) = introduces (c ∷ s) ∷ ends_at (d ∷ t) ∷ events_of is

-- An open interval is kept when the next one starts, or the events end.
flush-events_of :
    (r : Range) (is : List Interval)
    → intervals_from (some r) (events_of is) ≡ r ∷ intervals_from none (events_of is)
unfolding intervals_from events_of
flush-events_of r [] = refl
flush-events_of r (unfixed c s ∷ is) = refl
flush-events_of r (fixed_by c s d t ∷ is) = refl
flush-events_of r (up_to c s d t ∷ is) = refl

-- Intervals that are written as events are read back: none is lost, joined or closed early, the
-- ones without a fix included.
pub events_to_intervals-events_of :
    (is : List Interval) → events_to_intervals (events_of is) ≡ map range_of is
unfolding events_to_intervals intervals_from events_of range_of
events_to_intervals-events_of [] = refl
events_to_intervals-events_of (unfixed c s ∷ is) =
    flush-events_of (opened (c ∷ s)) is
    ∙ ap (λ rs. opened (c ∷ s) ∷ rs) (events_to_intervals-events_of is)
events_to_intervals-events_of (fixed_by c s d t ∷ is) =
    ap (λ rs. range_of (fixed_by c s d t) ∷ rs) (events_to_intervals-events_of is)
events_to_intervals-events_of (up_to c s d t ∷ is) =
    ap (λ rs. range_of (up_to c s d t) ∷ rs) (events_to_intervals-events_of is)
