-- ===== src/Agent/Lease.antt =====
-- internal/agent/lease.go: the handles on the advisory database and its replacement. An action is
-- what one goroutine does between two moments at which another may act; one that a lock holds back,
-- or that does not fit its place, changes nothing. Run of agent.go registers every handle before it
-- starts the updates that replace the file.
pub mod Readers
mod Tests
use pkgwatch.Base.{
  ℕ, zero, suc, Bool, true, false, ◌&&◌, ◌||◌, not, ◌==◌, List, [], ◌∷◌, ◌++◌, Option, none, some,
  if◌then◌else◌,
}

-- A handle, and the file it reads: each replacement makes the next one.
pub record Handle : Type 0 where
  pub id : ℕ
  pub attached : Option ℕ

-- A replacement on its way: the copied handles that the loop has still to deal with and those it
-- has dealt with, what has been registered since, and whether the file has been replaced.
pub record Swap : Type 0 where
  pub pending : List Handle
  pub done : List Handle
  pub late : List Handle
  pub replaced : Bool

-- `Lease`, with the file, the readers under the lock, and whether an error has been logged.
pub record Lease : Type 0 where
  pub handles : List Handle
  pub file : ℕ
  pub readers : ℕ
  pub swap : Option Swap
  pub logged : Bool

-- What may happen; the Boolean tells whether the call of the database or of `replace` succeeds.
pub data Action : Type 0 where
  register : ℕ → Action
  begin_read end_read begin_swap : Action
  detach replace attach : Bool → Action
  end_swap : Action

-- The handle after `DetachAdvisories` and `AttachAdvisories`.
abbrev detached : Bool → Handle → Handle
detached ok h = if ok then record h { attached = none } else h

abbrev reattached : Bool → ℕ → Handle → Handle
reattached ok file h = if ok then record h { attached = some file } else h

-- A step in the course of `Swap`, which holds the write lock.
unfoldable pub swap_step : Action → Swap → Lease → Lease
swap_step (register i) w s = record s {
  swap = some (record w { late = w.late ++ record { id = i; attached = some s.file } ∷ [] });
}
swap_step begin_read w s = s
swap_step end_read w s = s
swap_step begin_swap w s = s
swap_step (detach ok) w s = elim w.pending [
  | [] ↦ s
  | h ∷ rest ↦ if w.replaced then s else record s {
    swap = some (record w { pending = rest; done = w.done ++ detached ok h ∷ [] });
    logged = s.logged || not ok;
  }
]
swap_step (replace ok) w s = elim w.pending [
  | h ∷ rest ↦ s
  | [] ↦ if w.replaced then s else record s {
    swap = some (record w { pending = w.done; done = []; replaced = true });
    file = if ok then suc s.file else s.file;
  }
]
swap_step (attach ok) w s = elim w.pending [
  | [] ↦ s
  | h ∷ rest ↦
      if w.replaced
      then record s {
        swap = some (record w { pending = rest; done = w.done ++ reattached ok s.file h ∷ [] });
        logged = s.logged || not ok;
      }
      else s
]
swap_step end_swap w s = elim w.pending [
  | h ∷ rest ↦ s
  | [] ↦ if w.replaced then record s { swap = none; handles = w.done ++ w.late } else s
]

-- A step while no replacement is on its way.
unfoldable pub idle_step : Action → Lease → Lease
idle_step (register i) s = record s {
  handles = s.handles ++ record { id = i; attached = some s.file } ∷ [];
}
idle_step begin_read s = record s { readers = suc s.readers }
idle_step end_read s = elim s.readers [ zero ↦ s | suc n ↦ record s { readers = n } ]
idle_step begin_swap s =
    if s.readers == 0
    then record s {
      swap = some (record { pending = s.handles; done = []; late = []; replaced = false });
    }
    else s
idle_step (detach ok) s = s
idle_step (replace ok) s = s
idle_step (attach ok) s = s
idle_step end_swap s = s

unfoldable pub step : Action → Lease → Lease
unfolding swap_step idle_step
step a s = elim s.swap [ none ↦ idle_step a s | some w ↦ swap_step a w s ]

unfoldable pub steps : List Action → Lease → Lease
unfolding step
steps [] s = s
steps (a ∷ actions) s = steps actions (step a s)

-- `NewLease`
abbrev pub new_lease : Lease
new_lease = record { handles = []; file = 0; readers = 0; swap = none; logged = false }
