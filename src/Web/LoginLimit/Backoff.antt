-- ===== src/Web/LoginLimit/Backoff.antt =====
-- What `backoffFor` of internal/web/loginlimit.go computes.
use pkgwatch.Base.{
  ℕ, zero, suc, ◌-◌, ◌*◌, ◌^◌, ◌≤◌, ltb, ◌≡◌, ◌∙◌, ap, arith, Bool-cases, inl, inr, if◌then◌else◌,
}
use mathlib.Core.Path.{subst}
use native.Mathlib.Numerals.{unary_clauses}
use pkgwatch.Web.LoginLimit.{login_backoff_start, login_backoff_max, double_from, backoff_for}

abbrev capped : ℕ → ℕ
capped d = if ltb d login_backoff_max then d else login_backoff_max

pow_suc : (n d : ℕ) → d * 2 * 2 ^ n ≡ d * 2 ^ suc n
pow_suc n d = simp unary_clauses (omega arith)

pow_pos : (n d : ℕ) → d ≤ d * 2 ^ n
pow_pos zero d = omega arith
pow_pos (suc n) d = subst (λ x. d ≤ x) (pow_suc n d) (omega (arith, pow_pos n (d * 2)))

times_one : (d : ℕ) → d ≡ d * 2 ^ 0
times_one d = omega arith

double_from_lem : (n d : ℕ) → capped (double_from n d) ≡ capped (d * 2 ^ n)
unfolding double_from
double_from_lem zero d = ap capped (times_one d)
double_from_lem (suc n) d = elim (Bool-cases (ltb d login_backoff_max)) [
  | inl b ↦ rw b (double_from_lem n (d * 2) ∙ ap capped (pow_suc n d))
  | inr b ↦ rw b (ground (arith, pow_pos (suc n) d))
]

less_one : (n : ℕ) → suc n - 1 ≡ n
less_one n = omega arith

-- The wait behind a failure doubles from half a second with every further one, up to 15 seconds.
pub backoff_for_doubles :
    (n : ℕ)
    → backoff_for (suc n) ≡ (
        if ltb (login_backoff_start * 2 ^ n) login_backoff_max
        then login_backoff_start * 2 ^ n
        else login_backoff_max)
unfolding backoff_for
backoff_for_doubles n =
    ap (λ m. capped (double_from m login_backoff_start)) (less_one n)
    ∙ double_from_lem n login_backoff_start
