-- ===== src/Cleanup.antt =====
-- internal/services/cleanup_worker.go: how long the worker waits between two cleanups. Times count
-- nanoseconds.
use ticket_master.Prelude.{ℕ, ◌*◌, ◌≤◌, Bool, true, false, List, [], ◌∷◌, ltb, if◌then◌else◌, arith}

-- time.Minute
abbrev pub cleanup_job_initial_interval : ℕ
cleanup_job_initial_interval = 60_000_000_000

-- 15 * time.Minute
abbrev pub cleanup_job_max_backoff : ℕ
cleanup_job_max_backoff = 900_000_000_000

unfoldable pub next_cleanup_backoff : ℕ → ℕ
next_cleanup_backoff current =
    let next = current * 2 in
    let raised =
      if ltb next cleanup_job_initial_interval then cleanup_job_initial_interval else next in
    if ltb cleanup_job_max_backoff raised then cleanup_job_max_backoff else raised

-- The waits of the loop, one for each cleanup, by whether it succeeded.
unfoldable pub cleanup_waits : ℕ → List Bool → List ℕ
cleanup_waits interval [] = []
cleanup_waits interval (true ∷ outcomes) =
    cleanup_job_initial_interval ∷ cleanup_waits cleanup_job_initial_interval outcomes
cleanup_waits interval (false ∷ outcomes) =
    next_cleanup_backoff interval ∷ cleanup_waits (next_cleanup_backoff interval) outcomes

-- RunExpiredReservationCleanup
abbrev pub run_expired_reservation_cleanup : List Bool → List ℕ
run_expired_reservation_cleanup outcomes = cleanup_waits cleanup_job_initial_interval outcomes

abbrev pub AllBetween : ℕ → ℕ → List ℕ → Type 0
AllBetween low high [] = Unit {0}
AllBetween low high (n ∷ ns) = (low ≤ n) × (n ≤ high) × AllBetween low high ns

backoff_between :
    (n : ℕ)
    → (cleanup_job_initial_interval ≤ next_cleanup_backoff n)
      × (next_cleanup_backoff n ≤ cleanup_job_max_backoff)
unfolding next_cleanup_backoff
backoff_between n = ground arith

waits_between :
    (n : ℕ) (outcomes : List Bool)
    → AllBetween cleanup_job_initial_interval cleanup_job_max_backoff (cleanup_waits n outcomes)
unfolding cleanup_waits
waits_between n [] = tt
waits_between n (true ∷ outcomes) =
    (omega arith, omega arith, waits_between cleanup_job_initial_interval outcomes)
waits_between n (false ∷ outcomes) =
    let (low, high) = backoff_between n in
    (low, high, waits_between (next_cleanup_backoff n) outcomes)

-- Whichever cleanups fail, the worker waits at least one minute and at most fifteen between two of them.
pub run_expired_reservation_cleanup_bounds :
    (outcomes : List Bool)
    → AllBetween cleanup_job_initial_interval cleanup_job_max_backoff
        (run_expired_reservation_cleanup outcomes)
run_expired_reservation_cleanup_bounds outcomes =
    waits_between cleanup_job_initial_interval outcomes
