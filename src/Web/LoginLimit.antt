-- ===== src/Web/LoginLimit.antt =====
-- internal/web/loginlimit.go: what a failed sign-in costs. A time is a number of nanoseconds, and
-- the mutex makes the attempts a sequence.
pub mod Backoff
pub mod Lockout
mod Tests
use pkgwatch.Base.{
  ℕ, zero, suc, ◌+◌, ◌-◌, ◌*◌, Bool, true, false, ltb, leb, List, [], ◌∷◌, Option, none, some,
  if◌then◌else◌, ℤ, pos, ltb_ℤ, ◌+ℤ◌, ◌-ℤ◌,
}

abbrev pub login_backoff_start : ℕ
login_backoff_start = 500000000

abbrev pub login_backoff_max : ℕ
login_backoff_max = 15000000000

-- `loginLimiter`; `none` is the zero time.
pub record LoginLimiter : Type 0 where
  pub failures : ℕ
  pub not_until : Option ℤ

-- `now.Before(notUntil)`
abbrev pub is_before : ℤ → Option ℤ → Bool
is_before now none = false
is_before now (some t) = ltb_ℤ now t

-- The loop of `backoffFor`, with the number of rounds that `i < failures` leaves.
unfoldable pub double_from : ℕ → ℕ → ℕ
double_from zero d = d
double_from (suc n) d =
    let rest = double_from n (d * 2) in if ltb d login_backoff_max then rest else d

-- `backoffFor`
unfoldable pub backoff_for : ℕ → ℕ
unfolding double_from
backoff_for failures =
    let d = double_from (failures - 1) login_backoff_start in
    if ltb d login_backoff_max then d else login_backoff_max

-- `wait`
unfoldable pub wait : LoginLimiter → ℤ → ℤ
unfolding ◌-ℤ◌
wait l now = elim l.not_until [ none ↦ pos 0 | some t ↦ if ltb_ℤ now t then t -ℤ now else pos 0 ]

-- `attempt` at the time `now`, where `verified` is what `verify` would return.
unfoldable pub attempt : LoginLimiter → ℤ → Bool → LoginLimiter × Bool
unfolding backoff_for ◌+ℤ◌
attempt l now verified =
    if is_before now l.not_until
    then (l, false)
    else if verified
    then (record { failures = 0; not_until = none }, true)
    else (
      record {
        failures = suc l.failures;
        not_until = some (now +ℤ pos (backoff_for (suc l.failures)));
      },
      false,
    )

-- Attempts one after the other.
unfoldable pub attempts : LoginLimiter → List (ℤ × Bool) → LoginLimiter
unfolding attempt
attempts l [] = l
attempts l ((now, verified) ∷ rest) = attempts (attempt l now verified).0 rest
