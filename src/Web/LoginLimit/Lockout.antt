-- ===== src/Web/LoginLimit/Lockout.antt =====
-- The limiter of internal/web/loginlimit.go never locks the owner out.
use pkgwatch.Base.{
  ℕ, suc, ◌≤◌, Bool, true, false, List, [], ◌∷◌, Option, none, some, ℤ, pos, ltb_ℤ, ◌+ℤ◌, ◌≤ℤ◌, ◌≡◌,
  refl, arith, Bool-cases, inl, inr, All,
}
use pkgwatch.Web.LoginLimit.{
  LoginLimiter, login_backoff_max, backoff_for, attempt, attempts, is_before,
}

-- The limiter before any attempt.
abbrev pub unused : LoginLimiter
unused = record { failures = 0; not_until = none }

backoff_for_max : (n : ℕ) → backoff_for n ≤ login_backoff_max
unfolding backoff_for
backoff_for_max n = ground arith

-- The next attempt is accepted 15 seconds after `t` at the latest.
abbrev pub IsOpenBy : ℤ → LoginLimiter → Type 0
IsOpenBy t l = is_before (t +ℤ pos login_backoff_max) l.not_until ≡ false

later_open :
    (t now : ℤ) (k : ℕ)
    → now ≤ℤ t
    → k ≤ login_backoff_max
    → ltb_ℤ (t +ℤ pos login_backoff_max) (now +ℤ pos k) ≡ false
unfolding ◌+ℤ◌
later_open t now k early h = ground arith

open_attempt :
    (t now : ℤ) (l : LoginLimiter) (verified : Bool)
    → now ≤ℤ t
    → IsOpenBy t l
    → IsOpenBy t (attempt l now verified).0
unfolding attempt
open_attempt t now l verified early h = elim (Bool-cases (is_before now l.not_until)) [
  | inl b ↦ rw b h
  | inr b ↦ elim (Bool-cases verified) [
    | inl v ↦ rw (b, v) refl
    | inr v ↦
        rw (b, v)
          (later_open t now (backoff_for (suc l.failures)) early (backoff_for_max (suc l.failures)))
  ]
]

open_attempts :
    (t : ℤ) (l : LoginLimiter) (tries : List (ℤ × Bool))
    → All (λ a. a.0 ≤ℤ t) tries
    → IsOpenBy t l
    → IsOpenBy t (attempts l tries)
unfolding attempts
open_attempts t l [] early h = h
open_attempts t l ((now, verified) ∷ rest) early h =
    open_attempts t (attempt l now verified).0 rest early.1
      (open_attempt t now l verified early.0 h)

-- Whatever was tried up to a time, the right password is accepted 15 seconds after it or later,
-- and clears the failures.
pub attempt-attempts :
    (tries : List (ℤ × Bool)) (t now : ℤ)
    → All (λ a. a.0 ≤ℤ t) tries
    → t +ℤ pos login_backoff_max ≤ℤ now
    → attempt (attempts unused tries) now true ≡ (unused, true)
unfolding attempt
attempt-attempts tries t now early late =
    rw (still (attempts unused tries).not_until (open_attempts t unused tries early refl))
  where
    still :
        (until : Option ℤ)
        → is_before (t +ℤ pos login_backoff_max) until ≡ false
        → is_before now until ≡ false
    still none h = refl
    still (some u) h = ground arith
