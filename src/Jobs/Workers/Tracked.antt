-- ===== src/Jobs/Workers/Tracked.antt =====
-- Where a job is, from the time at which it was enqueued.
use ticket_master.Prelude.{
  ℕ, ◌≡◌, refl, arith, Bool, true, false, ◌||◌, ◌&&◌, List, [], ◌∷◌, ◌++◌, ◌==◌, Bool-cases, inl,
  inr, ltb,
}
use ticket_master.Jobs.{
  next_attempt, BookingJob, JobState, JobStatus, completed, complete_job, handle_job_failure,
  enqueue_booking_job,
}
use ticket_master.Jobs.Purchases.{
  next_purchase_attempt, PurchaseJob, Commands, handle_purchase_job_failure, enqueue_purchase_job,
}

abbrev pub has_booking : ℕ → List BookingJob → Bool
has_booking id [] = false
has_booking id (job ∷ jobs) = job.id == id || has_booking id jobs

abbrev pub has_purchase : ℕ → List PurchaseJob → Bool
has_purchase id [] = false
has_purchase id (job ∷ jobs) = job.id == id || has_purchase id jobs

abbrev pub is_completed : JobState → Bool
is_completed completed = true
is_completed _ = false

abbrev pub has_completed : ℕ → List JobStatus → Bool
has_completed id [] = false
has_completed id (s ∷ ss) = (s.job_id == id && is_completed s.state) || has_completed id ss

-- Whether a job waits in its topic, is in its dead letter topic, or was completed.
abbrev pub tracked : ℕ → Commands → Bool
tracked id cs =
    has_booking id cs.jobs.queued
    || has_booking id cs.jobs.dead
    || has_purchase id cs.queued
    || has_purchase id cs.dead
    || has_completed id cs.jobs.statuses

pub has_booking-append :
    (id : ℕ) (xs ys : List BookingJob)
    → has_booking id (xs ++ ys) ≡ (has_booking id xs || has_booking id ys)
has_booking-append id [] ys = refl
has_booking-append id (x ∷ xs) ys = ground (arith, has_booking-append id xs ys)

pub has_purchase-append :
    (id : ℕ) (xs ys : List PurchaseJob)
    → has_purchase id (xs ++ ys) ≡ (has_purchase id xs || has_purchase id ys)
has_purchase-append id [] ys = refl
has_purchase-append id (x ∷ xs) ys = ground (arith, has_purchase-append id xs ys)

module _ (id max_retries : ℕ) where
  pub failed_booking-tracked :
      (job : BookingJob) (rest : List BookingJob) (cs : Commands)
      → cs.jobs.queued ≡ job ∷ rest
      → tracked id cs ≡ true
      → tracked id (record cs {
        jobs =
            (handle_job_failure true max_retries true true job
              (record cs.jobs { queued = rest })).1;
      })
        ≡ true
  unfolding handle_job_failure
  failed_booking-tracked job rest cs q h = elim (Bool-cases (ltb job.attempt max_retries)) [
    | inl again ↦
        rw (handle_job_failure, again)
          (ground (arith, has_booking-append id rest (next_attempt job ∷ [])))
    | inr last ↦ rw (handle_job_failure, last) (ground arith)
  ]

  pub completed_booking-tracked :
      (job : BookingJob) (rest : List BookingJob) (cs : Commands) (booking : ℕ)
      → cs.jobs.queued ≡ job ∷ rest
      → tracked id cs ≡ true
      → tracked id
          (record cs { jobs = complete_job true job.id booking (record cs.jobs { queued = rest }) })
        ≡ true
  completed_booking-tracked job rest cs booking q h = ground arith

  pub failed_purchase-tracked :
      (job : PurchaseJob) (rest : List PurchaseJob) (cs : Commands)
      → cs.queued ≡ job ∷ rest
      → tracked id cs ≡ true
      → tracked id
          (handle_purchase_job_failure true max_retries true true job
            (record cs { queued = rest })).1
        ≡ true
  unfolding handle_purchase_job_failure
  failed_purchase-tracked job rest cs q h = elim (Bool-cases (ltb job.attempt max_retries)) [
    | inl again ↦
        rw (handle_purchase_job_failure, again)
          (ground (arith, has_purchase-append id rest (next_purchase_attempt job ∷ [])))
    | inr last ↦ rw (handle_purchase_job_failure, last) (ground arith)
  ]

  pub completed_purchase-tracked :
      (job : PurchaseJob) (rest : List PurchaseJob) (cs : Commands) (booking : ℕ)
      → cs.queued ≡ job ∷ rest
      → tracked id cs ≡ true
      → tracked id (record cs { queued = rest; jobs = complete_job true job.id booking cs.jobs })
        ≡ true
  completed_purchase-tracked job rest cs booking q h = ground arith

  pub enqueued_booking-tracked :
      (stored written : Bool) (new now : ℕ) (job : BookingJob) (cs : Commands)
      → tracked id cs ≡ true
      → tracked id
          (record cs { jobs = (enqueue_booking_job true stored written new now job cs.jobs).1 })
        ≡ true
  unfolding enqueue_booking_job
  enqueued_booking-tracked stored written new now job cs h = ground (
    arith,
    has_booking-append id cs.jobs.queued
        ((record job { id = new; attempt = 0; created_at = now }) ∷ []),
  )

  pub enqueued_purchase-tracked :
      (stored written : Bool) (new now : ℕ) (job : PurchaseJob) (cs : Commands)
      → tracked id cs ≡ true
      → tracked id (enqueue_purchase_job true stored written new now job cs).1 ≡ true
  unfolding enqueue_purchase_job
  enqueued_purchase-tracked stored written new now job cs h = ground (
    arith,
    has_purchase-append id cs.queued
        ((record job { id = new; attempt = 0; created_at = now }) ∷ []),
  )
