-- ===== src/Jobs/Workers/Safety.antt =====
-- What the workers do to the tables.
use ticket_master.Prelude.{
  arith, refl, ℕ, ◌≡◌, String, Bool, true, false, List, [], ◌∷◌, Bool-cases, inl, inr,
}
use ticket_master.Table.{find}
use ticket_master.Model.{Db, Booking, Seat}
use ticket_master.Exec.{Env, World, Result, ok, err}
use ticket_master.Repository.Refines.{IsLawful}
use ticket_master.Repository.Reserve.{seat_of}
use ticket_master.Repository.Reaches.{
  Reaches, select-Reaches, lone-Reaches, catch-Reaches, raise-Reaches,
}
use ticket_master.Repository.Seats.{find_by_event_and_seat_number}
use ticket_master.Service.{Service}
use ticket_master.Service.Reaches.{reserve_seat-Reaches}
use ticket_master.Service.Reaches.Purchase.{purchase_booking-Reaches}
use ticket_master.Inventory.{Reach, here}
use ticket_master.Inventory.Preserves.{Reach-trans}
use ticket_master.Session.{run_calls}
use ticket_master.Session.Safety.{run_calls-Reach}
use ticket_master.Jobs.{BookingJob}
use ticket_master.Jobs.Purchases.{PurchaseJob}
use ticket_master.Jobs.Workers.{
  Answers, Backend, Task, booking_turn, purchase_turn, book, buy, booking_generation_ends,
  purchase_generation_ends, call, announce_found, announce_reserved, after_reserving,
  process_booking_job, after_purchasing, process_purchase_job, conclude_booking, conclude_purchase,
  serve_booking, serve_purchase, run_task, run_tasks,
}

abbrev tables : Backend → Db
tables st = st.world.db

announce_found-tables :
    (job : BookingJob) (r : Result Seat × World) (st : Backend)
    → tables (announce_found job r st) ≡ r.1.db
announce_found-tables job (ok seat, w) st = refl
announce_found-tables job (err e, w) st = refl

module _ {env : Env} (lawful : IsLawful env) where
  find_by_event_and_seat_number-Reaches :
      (event_id : ℕ) (number : String) → Reaches env (find_by_event_and_seat_number event_id number)
  unfolding find_by_event_and_seat_number
  find_by_event_and_seat_number-Reaches event_id number = lone-Reaches _ lawful (
      catch-Reaches _ _ (select-Reaches (λ _ db. find (seat_of event_id number) db.seats))
        λ e. raise-Reaches _)

module _ (s : Service) (env : Env) (lawful : IsLawful env) (has_hub : Bool) (max_retries : ℕ) where
  announce_reserved-Reach :
      (job : BookingJob) (st : Backend)
      → Reach (tables st) (tables (announce_reserved s env has_hub max_retries job st))
  announce_reserved-Reach job st = elim (Bool-cases has_hub) [
    | inl hub ↦ rw hub (
        rw (announce_found-tables job _ st)
          ((find_by_event_and_seat_number-Reaches lawful job.event_id job.seat_number).at st.world))
    | inr no_hub ↦ rw no_hub here
  ]

  after_reserving-Reach :
      (old : Db) (a : Answers) (job : BookingJob) (r : Result Booking × World) (st : Backend)
      → Reach old r.1.db
      → Reach old (tables (after_reserving s env has_hub max_retries a job r st).1)
  after_reserving-Reach old a job (err e, w) st h = h
  after_reserving-Reach old a job (ok booking, w) st h =
      Reach-trans h (announce_reserved-Reach job _)

  after_purchasing-tables :
      (a : Answers) (job : PurchaseJob) (r : Result Booking × World) (st : Backend)
      → tables (after_purchasing s env has_hub max_retries a job r st).1 ≡ r.1.db
  after_purchasing-tables a job (err e, w) st = refl
  after_purchasing-tables a job (ok booking, w) st = elim (Bool-cases has_hub) [
    | inl hub ↦ rw hub refl
    | inr no_hub ↦ rw no_hub refl
  ]

  conclude_booking-tables :
      (a : Answers) (r : Bool × Backend)
      → tables (conclude_booking s env has_hub max_retries a r) ≡ tables r.1
  conclude_booking-tables a (true, st) = ground arith
  conclude_booking-tables a (false, st) = refl

  conclude_purchase-tables :
      (a : Answers) (r : Bool × Backend)
      → tables (conclude_purchase s env has_hub max_retries a r) ≡ tables r.1
  conclude_purchase-tables a (true, st) = ground arith
  conclude_purchase-tables a (false, st) = refl

  serve_booking-Reach :
      (a : Answers) (jobs : List BookingJob) (st : Backend)
      → Reach (tables st) (tables (serve_booking s env has_hub max_retries a jobs st))
  unfolding process_booking_job
  serve_booking-Reach a [] st = here
  serve_booking-Reach a (job ∷ rest) st = rw (conclude_booking-tables a _) (
      after_reserving-Reach (tables st) a job _ _
        ((reserve_seat-Reaches lawful s job.user_id job.event_id job.seat_number).at st.world))

  serve_purchase-Reach :
      (a : Answers) (jobs : List PurchaseJob) (st : Backend)
      → Reach (tables st) (tables (serve_purchase s env has_hub max_retries a jobs st))
  unfolding process_purchase_job
  serve_purchase-Reach a [] st = here
  serve_purchase-Reach a (job ∷ rest) st = rw (conclude_purchase-tables a _) (
      rw (after_purchasing-tables a job _ _)
        ((purchase_booking-Reaches lawful s job.user_id job.booking_id).at st.world))

  run_task-Reach :
      (t : Task) (st : Backend)
      → Reach (tables st) (tables (run_task s env has_hub max_retries t st))
  unfolding run_task run_calls
  run_task-Reach (booking_turn a) st = serve_booking-Reach a st.commands.jobs.queued st
  run_task-Reach (purchase_turn a) st = serve_purchase-Reach a st.commands.queued st
  run_task-Reach (book stored written id now job) st = here
  run_task-Reach (buy stored written id now job) st = here
  run_task-Reach (booking_generation_ends committed) st = here
  run_task-Reach (purchase_generation_ends committed) st = here
  run_task-Reach (call c) st = run_calls-Reach s env lawful (c ∷ []) st.world

  -- Whatever the workers do with the jobs of the two topics and whatever fails in them, the tables
  -- change by steps of the contract.
  pub run_tasks-Reach :
      (ts : List Task) (st : Backend)
      → Reach (tables st) (tables (run_tasks s env has_hub max_retries ts st))
  unfolding run_tasks
  run_tasks-Reach [] st = here
  run_tasks-Reach (t ∷ ts) st = Reach-trans (run_task-Reach t st) (run_tasks-Reach ts _)
