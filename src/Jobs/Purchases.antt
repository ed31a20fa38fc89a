-- ===== src/Jobs/Purchases.antt =====
-- The purchase jobs of internal/queue/queue.go, and what the queue says of both kinds of jobs. The
-- statuses are kept with those of the booking jobs.
pub mod Monitor
use ticket_master.Prelude.{
  ℕ, ◌+◌, String, Bool, true, false, Option, none, some, List, [], ◌∷◌, ◌++◌, ltb, if◌then◌else◌,
}
use ticket_master.Jobs.{Jobs, JobState, pending, retrying, dead_lettered, set_job_status}

pub record PurchaseJob : Type 0 where
  pub id : ℕ
  pub user_id : ℕ
  pub booking_id : ℕ
  pub idempotency_key : String
  pub attempt : ℕ
  pub created_at : ℕ

-- The topics of both kinds, with the next message first, and their counters.
pub record Commands : Type 0 where
  pub jobs : Jobs
  pub queued : List PurchaseJob
  pub dead : List PurchaseJob
  pub depth : ℕ
  pub dead_depth : ℕ

abbrev pub note : ℕ → JobState → Option ℕ → ℕ → Commands → Commands
note id state booking_id attempt cs = record cs {
  jobs = set_job_status id state booking_id attempt cs.jobs;
}

abbrev pub new_purchase_job : ℕ → ℕ → PurchaseJob → PurchaseJob
new_purchase_job id now job = record job { id = id; attempt = 0; created_at = now }

abbrev pub push_purchase : PurchaseJob → Commands → Commands
push_purchase job cs = record cs { queued = cs.queued ++ job ∷ []; depth = cs.depth + 1 }

-- A status that Redis takes, and a message that Kafka takes.
abbrev pub note_and_write :
    Bool → Bool → (Commands → Commands) → (Commands → Commands) → Commands → Bool × Commands
note_and_write false written status write cs = (false, cs)
note_and_write true false status write cs = (false, status cs)
note_and_write true true status write cs = (true, write (status cs))

abbrev pub add_purchase_job : Bool → Bool → PurchaseJob → Commands → Bool × Commands
add_purchase_job stored written job =
    note_and_write stored written (note job.id pending (some job.booking_id) 0) (push_purchase job)

-- EnqueuePurchaseJob
unfoldable pub enqueue_purchase_job :
    Bool → Bool → Bool → ℕ → ℕ → PurchaseJob → Commands → Bool × Commands
enqueue_purchase_job false stored written id now job cs = (false, cs)
enqueue_purchase_job true stored written id now job cs =
    add_purchase_job stored written (new_purchase_job id now job) cs

abbrev pub next_purchase_attempt : PurchaseJob → PurchaseJob
next_purchase_attempt job = record job { attempt = job.attempt + 1 }

abbrev pub requeue_purchase : Bool → Bool → PurchaseJob → Commands → Bool × Commands
requeue_purchase stored written job =
    note_and_write stored written (note job.id retrying none job.attempt) (push_purchase job)

abbrev pub bury_purchase : Bool → Bool → PurchaseJob → Commands → Bool × Commands
bury_purchase stored written job =
    note_and_write stored written (note job.id dead_lettered none job.attempt)
      (λ cs. record cs { dead = job ∷ cs.dead; dead_depth = cs.dead_depth + 1 })

-- HandlePurchaseJobFailure; the first test is whether Kafka is configured.
unfoldable pub handle_purchase_job_failure :
    Bool → ℕ → Bool → Bool → PurchaseJob → Commands → Bool × Commands
handle_purchase_job_failure false max_retries stored written job cs = (false, cs)
handle_purchase_job_failure true max_retries stored written job cs =
    if ltb job.attempt max_retries
    then requeue_purchase stored written (next_purchase_attempt job) cs
    else bury_purchase stored written job cs

-- readCounter; the Boolean says whether Redis answers.
abbrev pub read_counter : Bool → ℕ → ℕ
read_counter answers n = if answers then n else 0

pub record QueueMetrics : Type 0 where
  pub booking_queue_length : ℕ
  pub purchase_queue_length : ℕ
  pub booking_dlq_length : ℕ
  pub purchase_dlq_length : ℕ
  pub booking_pending : ℕ
  pub purchase_pending : ℕ
  pub max_retries : ℕ
  pub booking_readers : ℕ
  pub purchase_readers : ℕ

-- GetMetrics: none is ErrKafkaUnavailable. The Booleans say whether Kafka is configured, whether the
-- two consumer groups are there, and whether Redis answers each of the four reads.
unfoldable pub get_metrics : Bool → Bool → Bool → (ℕ → Bool) → ℕ → Commands → Option QueueMetrics
get_metrics false booking_group purchase_group answers max_retries cs = none
get_metrics true booking_group purchase_group answers max_retries cs = some (record {
  booking_queue_length = read_counter (answers 0) cs.jobs.depth;
  purchase_queue_length = read_counter (answers 1) cs.depth;
  booking_dlq_length = read_counter (answers 2) cs.jobs.dead_depth;
  purchase_dlq_length = read_counter (answers 3) cs.dead_depth;
  booking_pending = 0;
  purchase_pending = 0;
  max_retries = max_retries;
  booking_readers = if booking_group then 1 else 0;
  purchase_readers = if purchase_group then 1 else 0;
})
