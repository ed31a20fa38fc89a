-- ===== src/Jobs/Workers/Turns.antt =====
-- A turn of a worker in which Redis and Kafka answer loses no job and reads on.
use mathlib.Core.Path.{subst}
use ticket_master.Prelude.{
  ℕ, ◌≡◌, ◌∙◌, sym, refl, arith, Bool, true, false, List, [], ◌∷◌, Bool-cases, inl, inr,
}
use ticket_master.Model.{Booking, Seat}
use ticket_master.Exec.{Env, World, Result, ok, err}
use ticket_master.Service.{Service, reserve_seat}
use ticket_master.Service.Purchase.{purchase_booking}
use ticket_master.Jobs.{BookingJob}
use ticket_master.Jobs.Purchases.{PurchaseJob}
use ticket_master.Jobs.Workers.{
  Answers, Backend, announce_found, announce_reserved, after_reserving, process_booking_job,
  after_purchasing, process_purchase_job, count_booking, count_purchase, conclude_booking,
  conclude_purchase, take_booking, take_purchase, serve_booking, serve_purchase,
}
use ticket_master.Jobs.Workers.Readings.{
  Bounded, readings, reads-Bounded, advances-Bounded, after_reserving-readings,
  after_purchasing-readings, count_booking-readings, count_purchase-readings,
}
use ticket_master.Jobs.Workers.Tracked.{
  tracked, failed_booking-tracked, completed_booking-tracked, failed_purchase-tracked,
  completed_purchase-tracked,
}

-- Where the job is, and what the two consumers would commit.
abbrev pub Kept : ℕ → Backend → Type 0
Kept id st = (tracked id st.commands ≡ true) × Bounded st.bookings × Bounded st.purchases

announce_found-commands :
    (job : BookingJob) (r : Result Seat × World) (st : Backend)
    → (announce_found job r st).commands ≡ st.commands
announce_found-commands job (ok seat, w) st = refl
announce_found-commands job (err e, w) st = refl

module _ (s : Service) (env : Env) (has_hub : Bool) (max_retries id : ℕ) where
  announce_reserved-commands :
      (job : BookingJob) (st : Backend)
      → (announce_reserved s env has_hub max_retries job st).commands ≡ st.commands
  announce_reserved-commands job st = elim (Bool-cases has_hub) [
    | inl hub ↦ rw hub (announce_found-commands job _ st)
    | inr no_hub ↦ rw no_hub refl
  ]

  count_booking-tracked :
      (a : Answers) (st : Backend)
      → tracked id (count_booking s env has_hub max_retries a st).commands ≡ tracked id st.commands
  count_booking-tracked a st = ground arith

  count_purchase-tracked :
      (a : Answers) (st : Backend)
      → tracked id (count_purchase s env has_hub max_retries a st).commands ≡ tracked id st.commands
  count_purchase-tracked a st = ground arith

  conclude_booking-Kept :
      (a : Answers) (r : Bool × Backend) (st : Backend)
      → tracked id r.1.commands ≡ true
      → readings r.1 ≡ readings st
      → Bounded st.bookings
      → Bounded st.purchases
      → Kept id (conclude_booking s env has_hub max_retries a r)
  conclude_booking-Kept a (true, st') st h e b p =
      let same = count_booking-readings s env has_hub max_retries a st' ∙ e in
      (
        count_booking-tracked a st' ∙ h,
        advances-Bounded (count_booking s env has_hub max_retries a st').bookings,
        subst (λ r. Bounded r.1) (sym same) p,
      )
  conclude_booking-Kept a (false, st') st h e b p =
      (h, subst (λ r. Bounded r.0) (sym e) b, subst (λ r. Bounded r.1) (sym e) p)

  conclude_purchase-Kept :
      (a : Answers) (r : Bool × Backend) (st : Backend)
      → tracked id r.1.commands ≡ true
      → readings r.1 ≡ readings st
      → Bounded st.bookings
      → Bounded st.purchases
      → Kept id (conclude_purchase s env has_hub max_retries a r)
  conclude_purchase-Kept a (true, st') st h e b p =
      let same = count_purchase-readings s env has_hub max_retries a st' ∙ e in
      (
        count_purchase-tracked a st' ∙ h,
        subst (λ r. Bounded r.0) (sym same) b,
        advances-Bounded (count_purchase s env has_hub max_retries a st').purchases,
      )
  conclude_purchase-Kept a (false, st') st h e b p =
      (h, subst (λ r. Bounded r.0) (sym e) b, subst (λ r. Bounded r.1) (sym e) p)

  after_reserving-tracked :
      (a : Answers) (job : BookingJob) (rest : List BookingJob) (r : Result Booking × World)
      (st : Backend)
      → a.stored ≡ true
      → a.written ≡ true
      → st.commands.jobs.queued ≡ job ∷ rest
      → tracked id st.commands ≡ true
      → tracked id
          (after_reserving s env has_hub max_retries a job r
            (take_booking s env has_hub max_retries job rest st)).1.commands
        ≡ true
  after_reserving-tracked a job rest (err e, w) st p q h k =
      rw (p, q) (failed_booking-tracked id max_retries job rest st.commands h k)
  after_reserving-tracked a job rest (ok b, w) st p q h k =
      rw (announce_reserved-commands job _, p)
        (completed_booking-tracked id max_retries job rest st.commands b.id h k)

  after_purchasing-tracked :
      (a : Answers) (job : PurchaseJob) (rest : List PurchaseJob) (r : Result Booking × World)
      (st : Backend)
      → a.stored ≡ true
      → a.written ≡ true
      → st.commands.queued ≡ job ∷ rest
      → tracked id st.commands ≡ true
      → tracked id
          (after_purchasing s env has_hub max_retries a job r
            (take_purchase s env has_hub max_retries job rest st)).1.commands
        ≡ true
  after_purchasing-tracked a job rest (err e, w) st p q h k =
      rw (p, q) (failed_purchase-tracked id max_retries job rest st.commands h k)
  after_purchasing-tracked a job rest (ok b, w) st p q h k = elim (Bool-cases has_hub) [
    | inl hub ↦
        rw (hub, p) (completed_purchase-tracked id max_retries job rest st.commands b.id h k)
    | inr no_hub ↦
        rw (no_hub, p) (completed_purchase-tracked id max_retries job rest st.commands b.id h k)
  ]

  pub serve_booking-Kept :
      (a : Answers) (jobs : List BookingJob) (st : Backend)
      → a.stored ≡ true
      → a.written ≡ true
      → st.commands.jobs.queued ≡ jobs
      → Kept id st
      → Kept id (serve_booking s env has_hub max_retries a jobs st)
  unfolding process_booking_job
  serve_booking-Kept a [] st p q e h = h
  serve_booking-Kept a (job ∷ rest) st p q e (h, b, c) =
      let st' = take_booking s env has_hub max_retries job rest st in
      let r = reserve_seat s job.user_id job.event_id job.seat_number env st'.world in
      conclude_booking-Kept a (after_reserving s env has_hub max_retries a job r st') st'
        (after_reserving-tracked a job rest r st p q e h)
        (after_reserving-readings s env has_hub max_retries a job r st')
        (reads-Bounded job st.bookings b) c

  pub serve_purchase-Kept :
      (a : Answers) (jobs : List PurchaseJob) (st : Backend)
      → a.stored ≡ true
      → a.written ≡ true
      → st.commands.queued ≡ jobs
      → Kept id st
      → Kept id (serve_purchase s env has_hub max_retries a jobs st)
  unfolding process_purchase_job
  serve_purchase-Kept a [] st p q e h = h
  serve_purchase-Kept a (job ∷ rest) st p q e (h, b, c) =
      let st' = take_purchase s env has_hub max_retries job rest st in
      let r = purchase_booking s job.user_id job.booking_id env st'.world in
      conclude_purchase-Kept a (after_purchasing s env has_hub max_retries a job r st') st'
        (after_purchasing-tracked a job rest r st p q e h)
        (after_purchasing-readings s env has_hub max_retries a job r st') b
        (reads-Bounded job st.purchases c)
