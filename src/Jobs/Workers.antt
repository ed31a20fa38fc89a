-- ===== src/Jobs/Workers.antt =====
-- internal/services/booking_worker.go over the queue, the booking service and the hub, and the consumers
-- of internal/queue/queue.go that call it. A topic is one partition; a turn reads its next message, and
-- a generation ends with or without a commit. Answers says what Redis and Kafka answer in a turn.
pub mod Safety
pub mod Tracked
pub mod Readings
pub mod Turns
pub mod Kept
use ticket_master.Prelude.{
  ℕ, String, Bool, true, false, List, [], ◌∷◌, ◌++◌, if◌then◌else◌, length, drop,
}
use ticket_master.Model.{Booking, Seat}
use ticket_master.Exec.{Env, World, Result, ok, err}
use ticket_master.Repository.Seats.{find_by_event_and_seat_number}
use ticket_master.Service.{Service, reserve_seat}
use ticket_master.Service.Purchase.{purchase_booking}
use ticket_master.Hub.{Hub, FanoutMessage, broadcast_seat_update}
use ticket_master.Session.{Call, run_call}
use ticket_master.Jobs.{
  BookingJob, Jobs, complete_job, enqueue_booking_job, handle_job_failure, bump_down,
}
use ticket_master.Jobs.Purchases.{
  PurchaseJob, Commands, enqueue_purchase_job, handle_purchase_job_failure,
}

-- Whether Redis takes a status, Kafka a message, and Redis the change of a counter.
pub record Answers : Type 0 where
  pub stored : Bool
  pub written : Bool
  pub counted : Bool

-- What a consumer has read in its generation, and how many offsets after the one that it was assigned
-- it would commit: currentOffset + 1 - offset.
pub record Reading (A : Type 0) : Type 0 where
  pub read : List A
  pub committing : ℕ

-- reader.SetOffset(offset), currentOffset := offset
abbrev pub new_reading : {A : Type 0} → Reading A
new_reading = record { read = []; committing = 1 }

-- The messages from the committed offset on. Where the commit is past the last message, it is taken
-- for one of that.
abbrev pub unread : {A : Type 0} → Bool → Reading A → List A → List A
unread committed r queued =
    if committed then drop r.committing (r.read ++ queued) else r.read ++ queued

abbrev pub reads : {A : Type 0} → A → Reading A → Reading A
reads a r = record r { read = r.read ++ a ∷ [] }

-- currentOffset = msg.Offset
abbrev pub advances : {A : Type 0} → Reading A → Reading A
advances r = record r { committing = length r.read }

-- What the workers of a process share, and what their consumers have read; the fan-out in its order.
pub record Backend : Type 0 where
  pub bookings : Reading BookingJob
  pub purchases : Reading PurchaseJob
  pub world : World
  pub commands : Commands
  pub hub : Hub
  pub fanout : List FanoutMessage

-- What a process does: turns of the two workers, ends of their generations, with a commit that Kafka
-- takes or without, jobs that handlers enqueue, and other calls.
pub data Task : Type 0 where
  booking_turn purchase_turn : Answers → Task
  book : Bool → Bool → ℕ → ℕ → BookingJob → Task
  buy : Bool → Bool → ℕ → ℕ → PurchaseJob → Task
  booking_generation_ends purchase_generation_ends : Bool → Task
  call : Call → Task

abbrev pub with_world : World → Backend → Backend
with_world w st = record st { world = w }

abbrev pub with_jobs : Jobs → Backend → Backend
with_jobs js st = record st { commands = record st.commands { jobs = js } }

abbrev pub with_commands : Commands → Backend → Backend
with_commands cs st = record st { commands = cs }

-- hub.BroadcastSeatUpdate
abbrev pub announce_seat : ℕ → ℕ → String → Backend → Backend
announce_seat event_id seat_id status st =
    let (h, f) = broadcast_seat_update event_id seat_id status st.hub in
    record st { hub = h; fanout = st.fanout ++ f ∷ [] }

abbrev pub announce_found : BookingJob → Result Seat × World → Backend → Backend
announce_found job (ok seat, w) st = announce_seat job.event_id seat.id "reserved" (with_world w st)
announce_found job (err e, w) st = with_world w st

module _ (s : Service) (env : Env) (has_hub : Bool) (max_retries : ℕ) where
  abbrev pub announce_reserved : BookingJob → Backend → Backend
  announce_reserved job st =
      if has_hub
      then announce_found job
          (find_by_event_and_seat_number job.event_id job.seat_number env st.world) st
      else st

  -- What follows ReserveSeat; whether the handler returned nil.
  abbrev pub after_reserving :
      Answers → BookingJob → Result Booking × World → Backend → Bool × Backend
  after_reserving a job (err e, w) st = (
    false,
    with_jobs (handle_job_failure true max_retries a.stored a.written job st.commands.jobs).1
        (with_world w st),
  )
  after_reserving a job (ok booking, w) st = (
    true,
    announce_reserved job
        (with_jobs (complete_job a.stored job.id booking.id st.commands.jobs) (with_world w st)),
  )

  -- processBookingJob
  unfoldable pub process_booking_job : Answers → BookingJob → Backend → Bool × Backend
  process_booking_job a job st =
      after_reserving a job (reserve_seat s job.user_id job.event_id job.seat_number env st.world)
        st

  abbrev pub after_purchasing :
      Answers → PurchaseJob → Result Booking × World → Backend → Bool × Backend
  after_purchasing a job (err e, w) st = (
    false,
    with_commands
        (handle_purchase_job_failure true max_retries a.stored a.written job st.commands).1
        (with_world w st),
  )
  after_purchasing a job (ok booking, w) st =
      let st' =
        with_jobs (complete_job a.stored job.id booking.id st.commands.jobs) (with_world w st) in
      (true, if has_hub then announce_seat booking.event_id booking.seat_id "sold" st' else st')

  -- processPurchaseJob
  unfoldable pub process_purchase_job : Answers → PurchaseJob → Backend → Bool × Backend
  process_purchase_job a job st =
      after_purchasing a job (purchase_booking s job.user_id job.booking_id env st.world) st

  -- bumpCounter(ctx, depthKey, -1), after a handler that returned nil
  abbrev pub count_booking : Answers → Backend → Backend
  count_booking a st =
      if a.counted
      then with_jobs (record st.commands.jobs { depth = bump_down st.commands.jobs.depth }) st
      else st

  abbrev pub count_purchase : Answers → Backend → Backend
  count_purchase a st =
      if a.counted
      then with_commands (record st.commands { depth = bump_down st.commands.depth }) st
      else st

  -- What follows the handler: an error leaves the current offset where it was.
  abbrev pub conclude_booking : Answers → Bool × Backend → Backend
  conclude_booking a (true, st) =
      let st' = count_booking a st in record st' { bookings = advances st'.bookings }
  conclude_booking a (false, st) = st

  abbrev pub conclude_purchase : Answers → Bool × Backend → Backend
  conclude_purchase a (true, st) =
      let st' = count_purchase a st in record st' { purchases = advances st'.purchases }
  conclude_purchase a (false, st) = st

  abbrev pub take_booking : BookingJob → List BookingJob → Backend → Backend
  take_booking job rest st = record (with_jobs (record st.commands.jobs { queued = rest }) st) {
    bookings = reads job st.bookings;
  }

  abbrev pub take_purchase : PurchaseJob → List PurchaseJob → Backend → Backend
  take_purchase job rest st = record (with_commands (record st.commands { queued = rest }) st) {
    purchases = reads job st.purchases;
  }

  -- One message of runConsumerGroup.
  abbrev pub serve_booking : Answers → List BookingJob → Backend → Backend
  serve_booking a [] st = st
  serve_booking a (job ∷ rest) st =
      conclude_booking a (process_booking_job a job (take_booking job rest st))

  -- One message of runPurchaseConsumerGroup.
  abbrev pub serve_purchase : Answers → List PurchaseJob → Backend → Backend
  serve_purchase a [] st = st
  serve_purchase a (job ∷ rest) st =
      conclude_purchase a (process_purchase_job a job (take_purchase job rest st))

  -- ErrGenerationEnded: the next generation starts where this one committed, or where it started.
  abbrev pub end_bookings : Bool → Backend → Backend
  end_bookings committed st =
      let queued = unread committed st.bookings st.commands.jobs.queued in
      record (with_jobs (record st.commands.jobs { queued = queued }) st) { bookings = new_reading }

  abbrev pub end_purchases : Bool → Backend → Backend
  end_purchases committed st =
      let queued = unread committed st.purchases st.commands.queued in
      record (with_commands (record st.commands { queued = queued }) st) { purchases = new_reading }

  unfoldable pub run_task : Task → Backend → Backend
  run_task (booking_turn a) st = serve_booking a st.commands.jobs.queued st
  run_task (purchase_turn a) st = serve_purchase a st.commands.queued st
  run_task (book stored written id now job) st =
      with_jobs (enqueue_booking_job true stored written id now job st.commands.jobs).1 st
  run_task (buy stored written id now job) st =
      with_commands (enqueue_purchase_job true stored written id now job st.commands).1 st
  run_task (booking_generation_ends committed) st = end_bookings committed st
  run_task (purchase_generation_ends committed) st = end_purchases committed st
  run_task (call c) st = with_world (run_call s env c st.world) st

  unfoldable pub run_tasks : List Task → Backend → Backend
  run_tasks [] st = st
  run_tasks (t ∷ ts) st = run_tasks ts (run_task t st)
