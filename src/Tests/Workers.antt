-- ===== src/Tests/Workers.antt =====
-- A booking job and a purchase job through the queue and the workers, and what the monitor says of it.
use ticket_master.Prelude.{◌≡◌, refl, List, true, false, [], ◌∷◌, arith}
use ticket_master.Table.{update}
use ticket_master.Zset.{zadd, insert}
use ticket_master.Exec.{
  ◌>>=◌, handle, pure, raise, catch, time_now, uuid_new, best_effort, statement, lone, transaction,
}
use ticket_master.Repository.Statements.{require, update_seat, set_seat, update_event, find_by_id}
use ticket_master.Repository.Reserve.{
  reserve_seat_tx, refuse_event, no_seat_left, insert_booking, create_reservation_tx,
  create_reservation,
}
use ticket_master.Repository.Seats.{find_by_event_and_seat_number}
use ticket_master.Service.{
  reserve_seat, get_booking_by_id, enqueue_expiry, invalidate_cache, mark_seat_read_primary,
  publish_event, announce,
}
use ticket_master.Hub.{new_hub}
use ticket_master.Jobs.{BookingJob, Jobs, enqueue_booking_job}
use ticket_master.Jobs.Purchases.{PurchaseJob, Commands}
use ticket_master.Jobs.Purchases.Monitor.{Thresholds, purchase_queue_lag}
use ticket_master.Telemetry.{Telemetry, Round, observe_all}
use ticket_master.Telemetry.Alerts.{observe_all-counts}
use ticket_master.Jobs.Workers.{
  Answers, Backend, Task, booking_turn, purchase_turn, book, buy, booking_generation_ends,
  purchase_generation_ends, new_reading, run_task, run_tasks, process_booking_job,
}
use ticket_master.Jobs.Workers.Tracked.{tracked}
use ticket_master.Jobs.Workers.Kept.{AllAnswered, enqueued_never_lost, enqueued_purchase_never_lost}
use ticket_master.Tests.Fixtures.{booking_of_7, calm, at_open, plain_service}

abbrev ask : BookingJob
ask = record { id = 0; user_id = 7; event_id = 1; seat_number = "A1"; attempt = 0; created_at = 0 }

abbrev pay : PurchaseJob
pay = record {
  id = 0;
  user_id = 7;
  booking_id = 1008;
  idempotency_key = "k";
  attempt = 0;
  created_at = 0;
}

abbrev no_jobs : Jobs
no_jobs = record { queued = []; dead = []; statuses = []; depth = 0; dead_depth = 0 }

abbrev idle_topics : Commands
idle_topics = record { jobs = no_jobs; queued = []; dead = []; depth = 0; dead_depth = 0 }

abbrev at_start : Backend
at_start = record {
  bookings = new_reading;
  purchases = new_reading;
  world = at_open;
  commands = idle_topics;
  hub = new_hub "a";
  fanout = [];
}

abbrev answered : Answers
answered = record { stored = true; written = true; counted = true }

abbrev redis_down : Answers
redis_down = record { stored = false; written = true; counted = false }

abbrev contest : List Task
contest =
    book true true 31 100 ask
    ∷ book true true 32 101 ask
    ∷ booking_turn answered
    ∷ booking_turn answered
    ∷ []

contest_lem :
    (run_tasks plain_service calm true 3 contest at_start).world.db.bookings ≡ booking_of_7 ∷ []
unfolding reserve_seat create_reservation create_reservation_tx transaction ◌>>=◌ catch handle pure
    raise time_now uuid_new best_effort statement lone update require update_seat set_seat
    update_event find_by_id reserve_seat_tx refuse_event no_seat_left insert_booking
    get_booking_by_id enqueue_expiry invalidate_cache mark_seat_read_primary publish_event announce
    zadd insert run_tasks run_task process_booking_job enqueue_booking_job
    find_by_event_and_seat_number
contest_lem = refl

-- A generation of the booking consumer ends with a commit after the job was read, and one of the
-- purchase consumer ends before any.
abbrev rounds : List Task
rounds =
    booking_turn answered
    ∷ booking_generation_ends true
    ∷ booking_turn answered
    ∷ purchase_turn answered
    ∷ purchase_generation_ends false
    ∷ []

rounds_answered :
    AllAnswered plain_service calm true 3 (book true true 31 100 ask ∷ rounds) at_start
unfolding reserve_seat create_reservation create_reservation_tx transaction ◌>>=◌ catch handle pure
    raise time_now uuid_new best_effort statement lone update require update_seat set_seat
    update_event find_by_id reserve_seat_tx refuse_event no_seat_left insert_booking
    get_booking_by_id enqueue_expiry invalidate_cache mark_seat_read_primary publish_event announce
    zadd insert run_tasks run_task process_booking_job enqueue_booking_job
    find_by_event_and_seat_number
rounds_answered = (tt, ((refl, refl), (omega arith, ((refl, refl), ((refl, refl), (tt, tt))))))

enqueued_never_lost_example :
    tracked 31
      (run_tasks plain_service calm true 3 (book true true 31 100 ask ∷ rounds) at_start).commands
    ≡ true
enqueued_never_lost_example =
    enqueued_never_lost plain_service calm true 3 31 100 ask rounds at_start (omega arith)
      (omega arith) rounds_answered

abbrev payments : List Task
payments = purchase_turn answered ∷ purchase_generation_ends false ∷ purchase_turn answered ∷ []

enqueued_purchase_never_lost_example :
    tracked 31
      (run_tasks plain_service calm true 3 (buy true true 31 100 pay ∷ payments) at_start).commands
    ≡ true
enqueued_purchase_never_lost_example =
    enqueued_purchase_never_lost plain_service calm true 3 31 100 pay payments at_start
      (omega arith) (omega arith) (tt, ((refl, refl), (tt, ((refl, refl), tt))))

abbrev few : Thresholds
few = record {
  booking_queue_length = 5;
  purchase_queue_length = 5;
  booking_pending = 1;
  purchase_pending = 1;
  booking_dlq = 1;
  purchase_dlq = 1;
}

abbrev silent : Telemetry
silent = record {
  booking_queue_length = 0;
  purchase_queue_length = 0;
  booking_dlq_length = 0;
  purchase_dlq_length = 0;
  booking_pending = 0;
  purchase_pending = 0;
  queue_monitor_errors = 0;
  alert_booking_queue = 0;
  alert_purchase_queue = 4;
  alert_booking_pend = 0;
  alert_purchase_pend = 0;
  alert_booking_dlq = 0;
  alert_purchase_dlq = 0;
}

abbrev long_queue : Round
long_queue = record { answers = λ _. true; commands = record idle_topics { depth = 7 } }

abbrev unanswered : Round
unanswered = record long_queue { answers = λ _. false }

-- One round of the three does not see the long queue.
observe_all-counts_example :
    (observe_all few true true 3
      (long_queue ∷ unanswered ∷ long_queue ∷ [])
      silent).alert_purchase_queue
    ≡ 6
observe_all-counts_example =
    observe_all-counts few true true 3 purchase_queue_lag
      (long_queue ∷ unanswered ∷ long_queue ∷ []) silent (omega arith)
