-- ===== src/Agent/Lease/Tests.antt =====
-- A replacement between two reads, and a handle that is registered in its course.
use pkgwatch.Base.{true, false, List, [], ◌∷◌, none, some, ◌≡◌, refl, arith}
use pkgwatch.Agent.Lease.{
  Action, register, begin_read, end_read, begin_swap, detach, replace, attach, end_swap, step,
  steps, new_lease,
}
use pkgwatch.Agent.Lease.Readers.{IsTimely, IsReadable, steps-IsReadable}

abbrev replaced_once : List Action
replaced_once =
    register 7
    ∷ begin_read
    ∷ end_read
    ∷ begin_swap
    ∷ begin_read
    ∷ detach true
    ∷ replace true
    ∷ attach true
    ∷ end_swap
    ∷ begin_read
    ∷ []

read_new : steps replaced_once new_lease ≡ record {
  handles = record { id = 7; attached = some 1 } ∷ [];
  file = 1;
  readers = 1;
  swap = none;
  logged = false;
}
unfolding steps
read_new = refl

-- The late handle goes on reading the file that is gone, and nothing is logged.
left_behind :
    steps (begin_swap ∷ register 7 ∷ replace true ∷ end_swap ∷ begin_read ∷ []) new_lease ≡ record {
      handles = record { id = 7; attached = some 0 } ∷ [];
      file = 1;
      readers = 1;
      swap = none;
      logged = false;
    }
unfolding steps
left_behind = refl

replaced_once-IsTimely : IsTimely replaced_once new_lease
unfolding step
replaced_once-IsTimely = ground arith

steps-IsReadable_example : IsReadable (steps replaced_once new_lease)
steps-IsReadable_example = steps-IsReadable replaced_once replaced_once-IsTimely
