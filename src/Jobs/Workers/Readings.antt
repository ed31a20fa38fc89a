-- ===== src/Jobs/Workers/Readings.antt =====
-- What the consumers have read: no turn of a worker commits more, and a job that waits is not passed
-- over.
use ticket_master.Prelude.{
  ℕ, zero, suc, ◌+◌, ◌-◌, ◌≤◌, ◌≡◌, refl, arith, Bool, true, List, [], ◌∷◌, ◌++◌, Bool-cases, inl,
  inr, length, drop, length-append,
}
use ticket_master.Model.{Booking, Seat}
use ticket_master.Exec.{Env, World, Result, ok, err}
use ticket_master.Service.{Service}
use ticket_master.Jobs.{BookingJob}
use ticket_master.Jobs.Purchases.{PurchaseJob}
use ticket_master.Jobs.Workers.{
  Answers, Reading, Backend, announce_found, announce_reserved, after_reserving, after_purchasing,
  reads, advances, count_booking, count_purchase,
}
use ticket_master.Jobs.Workers.Tracked.{
  has_booking, has_purchase, has_booking-append, has_purchase-append,
}

-- A consumer would commit no more messages than it has read, once it has read one.
abbrev pub Bounded : {A : Type 0} → Reading A → Type 0
Bounded r = r.committing ≤ 1 + (length r.read - 1)

abbrev pub readings : Backend → Reading BookingJob × Reading PurchaseJob
readings st = (st.bookings, st.purchases)

pub reads-Bounded : {A : Type 0} (a : A) (r : Reading A) → Bounded r → Bounded (reads a r)
reads-Bounded a r h = omega (arith, h, length-append r.read (a ∷ []))

pub advances-Bounded : {A : Type 0} (r : Reading A) → Bounded (advances r)
advances-Bounded r = omega arith

pub has_booking-drop :
    (id n : ℕ) (read queued : List BookingJob)
    → n ≤ length read
    → has_booking id queued ≡ true
    → has_booking id (drop n (read ++ queued)) ≡ true
has_booking-drop id zero read queued l h = ground (arith, has_booking-append id read queued)
has_booking-drop id (suc n) [] queued l h = absurd (omega (arith, l))
has_booking-drop id (suc n) (x ∷ read) queued l h =
    has_booking-drop id n read queued (omega (arith, l)) h

pub has_purchase-drop :
    (id n : ℕ) (read queued : List PurchaseJob)
    → n ≤ length read
    → has_purchase id queued ≡ true
    → has_purchase id (drop n (read ++ queued)) ≡ true
has_purchase-drop id zero read queued l h = ground (arith, has_purchase-append id read queued)
has_purchase-drop id (suc n) [] queued l h = absurd (omega (arith, l))
has_purchase-drop id (suc n) (x ∷ read) queued l h =
    has_purchase-drop id n read queued (omega (arith, l)) h

announce_found-readings :
    (job : BookingJob) (r : Result Seat × World) (st : Backend)
    → readings (announce_found job r st) ≡ readings st
announce_found-readings job (ok seat, w) st = refl
announce_found-readings job (err e, w) st = refl

module _ (s : Service) (env : Env) (has_hub : Bool) (max_retries : ℕ) where
  announce_reserved-readings :
      (job : BookingJob) (st : Backend)
      → readings (announce_reserved s env has_hub max_retries job st) ≡ readings st
  announce_reserved-readings job st = elim (Bool-cases has_hub) [
    | inl hub ↦ rw hub (announce_found-readings job _ st)
    | inr no_hub ↦ rw no_hub refl
  ]

  pub after_reserving-readings :
      (a : Answers) (job : BookingJob) (r : Result Booking × World) (st : Backend)
      → readings (after_reserving s env has_hub max_retries a job r st).1 ≡ readings st
  after_reserving-readings a job (err e, w) st = refl
  after_reserving-readings a job (ok b, w) st = announce_reserved-readings job _

  pub after_purchasing-readings :
      (a : Answers) (job : PurchaseJob) (r : Result Booking × World) (st : Backend)
      → readings (after_purchasing s env has_hub max_retries a job r st).1 ≡ readings st
  after_purchasing-readings a job (err e, w) st = refl
  after_purchasing-readings a job (ok b, w) st = elim (Bool-cases has_hub) [
    | inl hub ↦ rw hub refl
    | inr no_hub ↦ rw no_hub refl
  ]

  pub count_booking-readings :
      (a : Answers) (st : Backend)
      → readings (count_booking s env has_hub max_retries a st) ≡ readings st
  count_booking-readings a st = elim (Bool-cases a.counted) [
    | inl counted ↦ rw counted refl
    | inr not_counted ↦ rw not_counted refl
  ]

  pub count_purchase-readings :
      (a : Answers) (st : Backend)
      → readings (count_purchase s env has_hub max_retries a st) ≡ readings st
  count_purchase-readings a st = elim (Bool-cases a.counted) [
    | inl counted ↦ rw counted refl
    | inr not_counted ↦ rw not_counted refl
  ]
