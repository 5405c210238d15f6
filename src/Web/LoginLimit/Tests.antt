-- ===== src/Web/LoginLimit/Tests.antt =====
-- Runs of the sign-in limiter on concrete attempts.
use pkgwatch.Base.{true, false, [], ◌∷◌, pos, ◌≡◌, refl, ◌+ℤ◌, arith}
use pkgwatch.Web.LoginLimit.{backoff_for, attempt, attempts}
use pkgwatch.Web.LoginLimit.Lockout.{attempt-attempts, unused}

third : backoff_for 3 ≡ 2000000000
unfolding backoff_for
third = refl

attempt-attempts_example :
    attempt (attempts unused ((pos 5, false) ∷ (pos 600000000, false) ∷ [])) (pos 15700000000) true
    ≡ (unused, true)
unfolding ◌+ℤ◌
attempt-attempts_example =
    attempt-attempts ((pos 5, false) ∷ (pos 600000000, false) ∷ []) (pos 600000000)
      (pos 15700000000) (omega arith, (omega arith, tt)) (omega arith)
