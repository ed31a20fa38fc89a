-- ===== src/Jobs/Workers/Kept.antt =====
-- What becomes of the jobs of the two topics, where Redis and Kafka answer, over generations of the
-- consumers.
use ticket_master.Prelude.{ℕ, ◌≤◌, ◌≡◌, refl, arith, Bool, true, false, List, [], ◌∷◌, length}
use ticket_master.Exec.{Env}
use ticket_master.Service.{Service}
use ticket_master.Jobs.{new_job, BookingJob, enqueue_booking_job}
use ticket_master.Jobs.Purchases.{new_purchase_job, PurchaseJob, enqueue_purchase_job}
use ticket_master.Jobs.Workers.{
  Backend, Task, booking_turn, purchase_turn, book, buy, booking_generation_ends,
  purchase_generation_ends, call, end_bookings, end_purchases, run_task, run_tasks,
}
use ticket_master.Jobs.Workers.Readings.{Bounded, has_booking-drop, has_purchase-drop}
use ticket_master.Jobs.Workers.Tracked.{
  tracked, enqueued_booking-tracked, enqueued_purchase-tracked, has_booking-append,
  has_purchase-append,
}
use ticket_master.Jobs.Workers.Turns.{Kept, serve_booking-Kept, serve_purchase-Kept}

-- Redis and Kafka answer in a turn, and a generation that commits has read a message.
abbrev pub Answered : Task → Backend → Type 0
Answered (booking_turn a) st = (a.stored ≡ true) × (a.written ≡ true)
Answered (purchase_turn a) st = (a.stored ≡ true) × (a.written ≡ true)
Answered (booking_generation_ends true) st = 1 ≤ length st.bookings.read
Answered (purchase_generation_ends true) st = 1 ≤ length st.purchases.read
Answered _ st = Unit {0}

abbrev pub AllAnswered : Service → Env → Bool → ℕ → List Task → Backend → Type 0
AllAnswered s env has_hub max_retries [] st = Unit {0}
AllAnswered s env has_hub max_retries (t ∷ ts) st =
    Answered t st
    × AllAnswered s env has_hub max_retries ts (run_task s env has_hub max_retries t st)

module _ (s : Service) (env : Env) (has_hub : Bool) (max_retries id : ℕ) where
  end_bookings-Kept :
      (committed : Bool) (st : Backend)
      → Answered (booking_generation_ends committed) st
      → Kept id st
      → Kept id (end_bookings s env has_hub max_retries committed st)
  end_bookings-Kept true st l (h, b, c) = (
    ground (
      arith,
      has_booking-drop id st.bookings.committing st.bookings.read st.commands.jobs.queued
          (omega (arith, l, b)),
    ),
    omega arith,
    c,
  )
  end_bookings-Kept false st l (h, b, c) = (
    ground (arith, has_booking-drop id 0 st.bookings.read st.commands.jobs.queued (omega arith)),
    omega arith,
    c,
  )

  end_purchases-Kept :
      (committed : Bool) (st : Backend)
      → Answered (purchase_generation_ends committed) st
      → Kept id st
      → Kept id (end_purchases s env has_hub max_retries committed st)
  end_purchases-Kept true st l (h, b, c) = (
    ground (
      arith,
      has_purchase-drop id st.purchases.committing st.purchases.read st.commands.queued
          (omega (arith, l, c)),
    ),
    b,
    omega arith,
  )
  end_purchases-Kept false st l (h, b, c) = (
    ground (arith, has_purchase-drop id 0 st.purchases.read st.commands.queued (omega arith)),
    b,
    omega arith,
  )

  run_task-Kept :
      (t : Task) (st : Backend)
      → Answered t st
      → Kept id st
      → Kept id (run_task s env has_hub max_retries t st)
  unfolding run_task
  run_task-Kept (booking_turn a) st p h =
      serve_booking-Kept s env has_hub max_retries id a _ st p.0 p.1 refl h
  run_task-Kept (purchase_turn a) st p h =
      serve_purchase-Kept s env has_hub max_retries id a _ st p.0 p.1 refl h
  run_task-Kept (book stored written new now job) st p (h, b, c) =
      (enqueued_booking-tracked id max_retries stored written new now job st.commands h, b, c)
  run_task-Kept (buy stored written new now job) st p (h, b, c) =
      (enqueued_purchase-tracked id max_retries stored written new now job st.commands h, b, c)
  run_task-Kept (booking_generation_ends committed) st p h = end_bookings-Kept committed st p h
  run_task-Kept (purchase_generation_ends committed) st p h = end_purchases-Kept committed st p h
  run_task-Kept (call c) st p h = h

  run_tasks-Kept :
      (ts : List Task) (st : Backend)
      → AllAnswered s env has_hub max_retries ts st
      → Kept id st
      → Kept id (run_tasks s env has_hub max_retries ts st)
  unfolding run_tasks
  run_tasks-Kept [] st p h = h
  run_tasks-Kept (t ∷ ts) st p h = run_tasks-Kept ts _ p.1 (run_task-Kept t st p.0 h)

  booked-tracked :
      (now : ℕ) (job : BookingJob) (st : Backend)
      → tracked id (run_task s env has_hub max_retries (book true true id now job) st).commands
        ≡ true
  unfolding run_task enqueue_booking_job
  booked-tracked now job st =
      ground (arith, has_booking-append id st.commands.jobs.queued (new_job id now job ∷ []))

  bought-tracked :
      (now : ℕ) (job : PurchaseJob) (st : Backend)
      → tracked id (run_task s env has_hub max_retries (buy true true id now job) st).commands
        ≡ true
  unfolding run_task enqueue_purchase_job
  bought-tracked now job st =
      ground (arith, has_purchase-append id st.commands.queued (new_purchase_job id now job ∷ []))

-- Where Redis and Kafka take a booking job and answer in every turn of a worker, no consumer would
-- commit more than it has read, and no generation commits before a message was read in it: whatever
-- the services return, however often jobs are tried again, generations end and messages are read
-- again, and whatever else is called, the job waits in its topic, is in its dead letter topic, or was
-- completed.
pub enqueued_never_lost :
    (s : Service) (env : Env) (has_hub : Bool) (max_retries id now : ℕ) (job : BookingJob)
    (ts : List Task) (st : Backend)
    → Bounded st.bookings
    → Bounded st.purchases
    → AllAnswered s env has_hub max_retries (book true true id now job ∷ ts) st
    → tracked id (run_tasks s env has_hub max_retries (book true true id now job ∷ ts) st).commands
      ≡ true
unfolding run_tasks run_task
enqueued_never_lost s env has_hub max_retries id now job ts st b c p =
    (run_tasks-Kept s env has_hub max_retries id ts _ p.1
      (booked-tracked s env has_hub max_retries id now job st, b, c)).0

-- Where Redis and Kafka take a purchase job and answer in every turn of a worker, no consumer would
-- commit more than it has read, and no generation commits before a message was read in it: whatever
-- the services return, however often jobs are tried again, generations end and messages are read
-- again, and whatever else is called, the job waits in its topic, is in its dead letter topic, or was
-- completed.
pub enqueued_purchase_never_lost :
    (s : Service) (env : Env) (has_hub : Bool) (max_retries id now : ℕ) (job : PurchaseJob)
    (ts : List Task) (st : Backend)
    → Bounded st.bookings
    → Bounded st.purchases
    → AllAnswered s env has_hub max_retries (buy true true id now job ∷ ts) st
    → tracked id (run_tasks s env has_hub max_retries (buy true true id now job ∷ ts) st).commands
      ≡ true
unfolding run_tasks run_task
enqueued_purchase_never_lost s env has_hub max_retries id now job ts st b c p =
    (run_tasks-Kept s env has_hub max_retries id ts _ p.1
      (bought-tracked s env has_hub max_retries id now job st, b, c)).0
