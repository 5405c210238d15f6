-- ===== src/Agent/Backoff.antt =====
-- `runSync` of internal/agent/sync.go: how long the agent waits between pushes.
use native.Mathlib.Numerals.{unary_clauses}
use pkgwatch.Base.{
  ℕ, zero, suc, ◌*◌, ◌^◌, ◌≤◌, leb, List, [], ◌∷◌, if◌then◌else◌, ◌≡◌, refl, sym, ◌∙◌, ap, arith,
  All, inl, inr, Bool-cases,
}
use pkgwatch.Base.Text.{Text, codes, text_eq}
use pkgwatch.Agent.{
  Outcome, sync_ok, sync_failed, sync_skipped, sync_halted, backoff_initial, backoff_max, next_wait,
  run_sync, start_sync,
}

-- The wait after `k` failures in a row: thirty seconds, doubled each time, to half an hour at most.
abbrev pub backoff_at : ℕ → ℕ
backoff_at k =
    if leb (backoff_initial * 2 ^ k) backoff_max then backoff_initial * 2 ^ k else backoff_max

abbrev pub failures : ℕ → List Outcome
failures zero = []
failures (suc n) = sync_failed ∷ failures n

-- The waits after `k` failures and up to `n` more.
abbrev pub backoffs : ℕ → ℕ → List ℕ
backoffs k zero = []
backoffs k (suc n) = backoff_at k ∷ backoffs (suc k) n

double : (k : ℕ) → 2 ^ suc k ≡ 2 ^ k * 2
double k = simp unary_clauses (omega arith)

backoff_at-suc :
    (k : ℕ)
    → backoff_at (suc k)
      ≡ (if leb (backoff_at k * 2) backoff_max then backoff_at k * 2 else backoff_max)
backoff_at-suc k = ground (arith, double k)

run_sync-failures_from : (k n : ℕ) → run_sync (backoff_at k) (failures n) ≡ backoffs k n
unfolding run_sync next_wait
run_sync-failures_from k zero = refl
run_sync-failures_from k (suc n) =
    ap (λ ws. backoff_at k ∷ ws)
      (ap (λ b. run_sync b (failures n)) (sym (backoff_at-suc k))
        ∙ run_sync-failures_from (suc k) n)

run_sync_bounded :
    (backoff : ℕ) (outcomes : List Outcome)
    → backoff_initial ≤ backoff
    → backoff ≤ backoff_max
    → All (λ wait. (backoff_initial ≤ wait) × (wait ≤ backoff_max)) (run_sync backoff outcomes)
unfolding run_sync next_wait
run_sync_bounded backoff [] l h = tt
run_sync_bounded backoff (sync_ok ∷ outcomes) l h =
    (omega arith, run_sync_bounded backoff_initial outcomes (omega arith) (omega arith))
run_sync_bounded backoff (sync_skipped ∷ outcomes) l h =
    (omega arith, run_sync_bounded backoff_initial outcomes (omega arith) (omega arith))
run_sync_bounded backoff (sync_halted ∷ outcomes) l h = tt
run_sync_bounded backoff (sync_failed ∷ outcomes) l h = (
  (l, h),
  run_sync_bounded (if leb (backoff * 2) backoff_max then backoff * 2 else backoff_max) outcomes
      (ground arith) (ground arith),
)

-- Whatever the configured level and the outcomes of the pushes, the agent waits between thirty
-- seconds and half an hour before the next; and at a level other than "off", while its pushes fail,
-- the waits double from thirty seconds up to half an hour.
pub start_sync_waits :
    (level : Text)
    → ((outcomes : List Outcome)
        → All (λ wait. (backoff_initial ≤ wait) × (wait ≤ backoff_max)) (start_sync level outcomes))
      × ((n : ℕ)
          → start_sync level (failures n)
            ≡ (if text_eq level (codes "off") then [] else backoffs 0 n))
unfolding start_sync
start_sync_waits level = elim (Bool-cases (text_eq level (codes "off"))) [
  | inl off ↦ (λ outcomes. rw off tt, λ n. ground arith)
  | inr on ↦ (
    λ outcomes. rw on (run_sync_bounded backoff_initial outcomes (omega arith) (omega arith)),
    λ n. ground (arith, run_sync-failures_from 0 n),
  )
]
