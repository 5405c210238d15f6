-- ===== src/Hub/Delivery/Safe.antt =====
-- Every event is with the agent, with the hub or trimmed, whatever is lost on the way.
use pkgwatch.Base.{All, arith}
use pkgwatch.Base.Text.{Text}
use pkgwatch.Hub.{Tables}
use pkgwatch.Hub.Store.Ingest.{IsOnce}
use pkgwatch.Hub.Delivery.{
  World, Step, recording, trimming, pruning, reading, arriving, answering, marking, pushing,
  administering, Reach, here, next, start,
}
use pkgwatch.Hub.Delivery.Invariant.{IsGenuine, IsAccounted, Invariant}
use pkgwatch.Hub.Delivery.Agent.{
  recording-Invariant, trimming-Invariant, pruning-Invariant, reading-Invariant, marking-Invariant,
}
use pkgwatch.Hub.Delivery.Arrival.{
  arriving-Invariant, answering-Invariant, pushing-Invariant, administering-Invariant,
}

start-Invariant : {Num : Type 0} (device : Text) (t : Tables Num) → Invariant device (start t)
start-Invariant device t = record {
  accounted = (tt, tt);
  genuine = tt;
  once = λ d i. omega arith;
  rising = tt;
  rows_recorded = tt;
  batch_recorded = tt;
  batch_covers = λ i pos waits below. absurd (cc);
  through_recorded = omega arith;
  through_held = λ i pos waits below. absurd (cc);
}

Step-Invariant :
    {Num : Type 0} {device : Text} {v w : World Num}
    → Step device v w
    → Invariant device v
    → Invariant device w
Step-Invariant {device = device} {v = v} (recording e new) h = recording-Invariant device v h e new
Step-Invariant {device = device} {v = v} (trimming cap pos) h = trimming-Invariant device v h cap
Step-Invariant {device = device} {v = v} (pruning cutoff) h = pruning-Invariant device v h cutoff
Step-Invariant {device = device} {v = v} reading h = reading-Invariant device v h
Step-Invariant {device = device} {v = v} (arriving dev req now fails d e) h =
    arriving-Invariant device v h dev req now fails d e
Step-Invariant {device = device} {v = v} (answering dev req now fails r d e a) h =
    answering-Invariant device v h dev req now fails r d e a
Step-Invariant {device = device} {v = v} marking h = marking-Invariant device v h
Step-Invariant {device = device} {v = v} (pushing dev req now fails e) h =
    pushing-Invariant device v h dev req now fails e
Step-Invariant {device = device} {v = v} (administering tables e) h =
    administering-Invariant device v h tables e

pub Reach-Invariant :
    {Num : Type 0} {device : Text} {v w : World Num}
    → Reach device v w
    → Invariant device v
    → Invariant device w
Reach-Invariant here h = h
Reach-Invariant (next r s) h = Step-Invariant s (Reach-Invariant r h)

-- After any number of steps from an empty agent and a hub without events, in which requests and
-- answers may be lost or repeated and any of the hub's transactions may fail: every recorded event
-- is queued at the agent, or held by the hub, or was given up by a trim; what the hub holds of the
-- device is what the device recorded; and the hub holds each device's number at most once.
pub delivery_safe :
    {Num : Type 0} (device : Text) (t : Tables Num) (w : World Num)
    → Reach device (start t) w
    → All (IsAccounted device w) w.recorded
      × All (IsGenuine device w.recorded) w.tables.events
      × IsOnce w.tables.events
delivery_safe device t w r =
    let h = Reach-Invariant r (start-Invariant device t) in (h.accounted.1, h.genuine, h.once)
