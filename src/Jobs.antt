-- ===== src/Jobs.antt =====
-- internal/queue/queue.go: the booking jobs, their retries and the dead letter topic, and
-- internal/services/booking_worker.go: what a worker does with a job. A topic is the list of its
-- messages; `stored` and `written` say whether Redis took a status and Kafka a message. The counters
-- are those that Redis keeps. The text of an error and the times, which the statuses carry, are left
-- out.
pub mod Retries
pub mod Consumer
pub mod Purchases
pub mod Workers
use ticket_master.Prelude.{
  ℕ, zero, suc, ◌+◌, ◌-◌, String, Bool, true, false, Option, none, some, List, [], ◌∷◌, ◌++◌, ltb,
  if◌then◌else◌, ◌==◌,
}
use ticket_master.Config.Text.{ℤ, pos, negsuc}

pub record BookingJob : Type 0 where
  pub id : ℕ
  pub user_id : ℕ
  pub event_id : ℕ
  pub seat_number : String
  pub attempt : ℕ
  pub created_at : ℕ

pub data JobState : Type 0 where
  pending retrying completed failed dead_lettered : JobState

pub record JobStatus : Type 0 where
  pub job_id : ℕ
  pub state : JobState
  pub booking_id : Option ℕ
  pub attempt : ℕ

-- The topics, with the next message first; the statuses, with the latest first; the counters.
pub record Jobs : Type 0 where
  pub queued : List BookingJob
  pub dead : List BookingJob
  pub statuses : List JobStatus
  pub depth : ℕ
  pub dead_depth : ℕ

abbrev pub set_job_status : ℕ → JobState → Option ℕ → ℕ → Jobs → Jobs
set_job_status id state booking_id attempt js = record js {
  statuses =
      (record { job_id = id; state = state; booking_id = booking_id; attempt = attempt })
      ∷ js.statuses;
}

-- What GetJobStatus answers: the latest status of a job, ErrJobNotFound, or another error.
pub data JobLookup : Type 0 where
  found : JobStatus → JobLookup
  job_not_found lookup_failed : JobLookup

abbrev pub latest_status : ℕ → List JobStatus → JobLookup
latest_status id [] = job_not_found
latest_status id (status ∷ older) =
    let rest = latest_status id older in if status.job_id == id then found status else rest

-- GetJobStatus; the Boolean says whether Redis answers.
unfoldable pub get_job_status : Bool → ℕ → Jobs → JobLookup
get_job_status false id js = lookup_failed
get_job_status true id js = latest_status id js.statuses

abbrev pub new_job : ℕ → ℕ → BookingJob → BookingJob
new_job id now job = record job { id = id; attempt = 0; created_at = now }

abbrev pub add_job : Bool → Bool → BookingJob → Jobs → Bool × Jobs
add_job false written job js = (false, js)
add_job true false job js = (false, set_job_status job.id pending none 0 js)
add_job true true job js = (
  true,
  record (set_job_status job.id pending none 0 js) {
    queued = js.queued ++ job ∷ [];
    depth = js.depth + 1;
  },
)

-- EnqueueBookingJob
unfoldable pub enqueue_booking_job : Bool → Bool → Bool → ℕ → ℕ → BookingJob → Jobs → Bool × Jobs
enqueue_booking_job false stored written id now job js = (false, js)
enqueue_booking_job true stored written id now job js =
    add_job stored written (new_job id now job) js

-- The job is written to the topic again.
abbrev pub requeue : Bool → Bool → BookingJob → Jobs → Bool × Jobs
requeue false written job js = (false, js)
requeue true false job js = (false, set_job_status job.id retrying none job.attempt js)
requeue true true job js = (
  true,
  record (set_job_status job.id retrying none job.attempt js) {
    queued = js.queued ++ job ∷ [];
    depth = js.depth + 1;
  },
)

-- The job is written to the dead letter topic.
abbrev pub bury : Bool → Bool → BookingJob → Jobs → Bool × Jobs
bury false written job js = (false, js)
bury true false job js = (false, set_job_status job.id dead_lettered none job.attempt js)
bury true true job js = (
  true,
  record (set_job_status job.id dead_lettered none job.attempt js) {
    dead = job ∷ js.dead;
    dead_depth = js.dead_depth + 1;
  },
)

abbrev pub next_attempt : BookingJob → BookingJob
next_attempt job = record job { attempt = job.attempt + 1 }

-- HandleBookingJobFailure; the first test is whether Kafka is configured.
unfoldable pub handle_job_failure : Bool → ℕ → Bool → Bool → BookingJob → Jobs → Bool × Jobs
handle_job_failure false max_retries stored written job js = (false, js)
handle_job_failure true max_retries stored written job js =
    if ltb job.attempt max_retries
    then requeue stored written (next_attempt job) js
    else bury stored written job js

-- bumpCounter(ctx, key, -1), which stops at 0
abbrev pub bump_down : ℕ → ℕ
bump_down n = n - 1

-- CompleteJob; the Boolean says whether Redis takes the status.
abbrev pub complete_job : Bool → ℕ → ℕ → Jobs → Jobs
complete_job false id booking_id js = js
complete_job true id booking_id js = set_job_status id completed (some booking_id) 0 js

-- FailJob
abbrev pub fail_job : Bool → ℕ → Jobs → Bool × Jobs
fail_job false id js = (false, js)
fail_job true id js = (true, set_job_status id failed none 0 js)

-- A job whose call of the booking service returned a booking, or failed, where Redis and Kafka answer.
-- A failed job makes the consumer go on without lowering the depth.
unfoldable pub process_job : Option ℕ → ℕ → BookingJob → Jobs → Jobs
process_job (some booking_id) max_retries job js = record (complete_job true job.id booking_id js) {
  depth = bump_down js.depth;
}
process_job none max_retries job js = (handle_job_failure true max_retries true true job js).1

abbrev pub work_on : (BookingJob → Option ℕ) → ℕ → List BookingJob → Jobs → Jobs
work_on outcome max_retries [] js = js
work_on outcome max_retries (job ∷ rest) js =
    process_job (outcome job) max_retries job (record js { queued = rest })

-- A worker that takes the next message of the topic, so many times.
unfoldable pub work : ℕ → (BookingJob → Option ℕ) → ℕ → Jobs → Jobs
work zero outcome max_retries js = js
work (suc n) outcome max_retries js =
    work n outcome max_retries (work_on outcome max_retries js.queued js)

-- What ReadMessage and the handler answer in one round of the consumer's loop.
pub data Read : Type 0 where
  message : ℕ → Bool → Bool → Read  -- its offset, whether it is a job, whether it was handled
  generation_ended cancelled read_failed : Read

-- currentOffset + 1
abbrev pub next_offset : ℤ → ℤ
next_offset (pos n) = pos (n + 1)
next_offset (negsuc zero) = pos 0
next_offset (negsuc (suc n)) = negsuc n

-- The loop of runConsumerGroup for one partition: the offset that is committed when the generation
-- ends, or none where the loop is cancelled or goes on. The offset that a group is assigned is negative
-- as long as it has committed none.
unfoldable pub consume : ℤ → List Read → Option ℤ
consume current [] = none
consume current (message offset false handled ∷ rs) = consume (pos offset) rs
consume current (message offset true false ∷ rs) = consume current rs
consume current (message offset true true ∷ rs) = consume (pos offset) rs
consume current (generation_ended ∷ rs) = some (next_offset current)
consume current (cancelled ∷ rs) = none
consume current (read_failed ∷ rs) = consume current rs
