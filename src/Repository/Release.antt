-- ===== src/Repository/Release.antt =====
-- internal/repository/booking_repository.go: ExtendReservation, the releases of a reservation,
-- SetPaymentIntentID and FindExpiredReservations.
use ticket_master.Prelude.{
  ℕ, String, Bool, true, false, not, ◌&&◌, ◌||◌, some, List, [], ◌∷◌, ltb, leb, ◌==◌, if◌then◌else◌,
}
use ticket_master.Model.{
  Booking, Seat, BookingStatus, cancelled, expired, is_reserved, is_active, is_held,
}
use ticket_master.Exec.{
  Exec, Error, no_rows, seat_not_available, booking_not_reserved, booking_expired, pure, raise,
  catch, time_now, statement, lone, transaction, ◌>>=◌,
}
use ticket_master.Repository.Statements.{
  ◌>>◌, require, is_after, is_blank, or_missing, update_booking, update_seat, set_seat, return_seat,
  find_booking_for_update, find_by_id, lock_seat_by_id, free_seat, apply_booking_nullables,
}
use ticket_master.Repository.Purchase.{still_reserved}

abbrev pub extend : ℕ → ℕ → Booking → Booking
extend until t b = record b { expires_at = until; updated_at = t }

abbrev pub hold_until : ℕ → ℕ → Seat → Seat
hold_until until t s = record s { reserved_until = some until }

-- The later of the two times.
abbrev pub new_expiry : Booking → ℕ → ℕ
new_expiry booking until = if ltb booking.expires_at until then until else booking.expires_at

unfoldable pub extend_reservation_tx : ℕ → ℕ → Exec Booking
extend_reservation_tx id until = do
  booking ← find_booking_for_update id
  require (is_reserved booking.status) booking_not_reserved
  now ← time_now
  require (leb now booking.expires_at) booking_expired
  seat ← lock_seat_by_id booking.seat_id
  require (seat.event_id == booking.event_id) seat_not_available
  require (is_held seat.status) seat_not_available
  later ← time_now
  require (not (is_after later seat.reserved_until)) seat_not_available
  or_missing (update_booking id still_reserved (extend (new_expiry booking until)))
      booking_not_reserved
  or_missing
      (update_seat booking.seat_id (λ s. is_held s.status) (hold_until (new_expiry booking until)))
      seat_not_available
  pure (record booking { expires_at = new_expiry booking until })

unfoldable pub extend_reservation : ℕ → ℕ → Exec Booking
extend_reservation id until = do
  now ← time_now
  require (ltb now until) booking_expired
  transaction (extend_reservation_tx id until)

-- id = $2 AND status = 'reserved', and expires_at <= CURRENT_TIMESTAMP where that is asked for.
abbrev pub releasable : Bool → ℕ → Booking → Bool
releasable require_expired t b = is_reserved b.status && (not require_expired || leb b.expires_at t)

abbrev pub release : BookingStatus → ℕ → Booking → Booking
release status t b = record b { status = status; updated_at = t }

unfoldable pub release_reservation_tx : ℕ → BookingStatus → Bool → Exec Booking
release_reservation_tx id status require_expired = do
  booking ← find_booking_for_update id
  require (is_reserved booking.status) booking_not_reserved
  now ← time_now
  require (not (require_expired && ltb now booking.expires_at)) booking_not_reserved
  or_missing (update_booking id (releasable require_expired) (release status)) booking_not_reserved
  set_seat booking.seat_id (λ _. true) free_seat
  return_seat booking.event_id
  pure (record booking { status = status })

unfoldable pub release_reservation : ℕ → BookingStatus → Bool → Exec Booking
release_reservation id status require_expired =
    transaction (release_reservation_tx id status require_expired)

unfoldable pub release_expired_reservation : ℕ → Exec Booking
release_expired_reservation id = release_reservation id expired true

unfoldable pub cancel_reservation : ℕ → Exec Booking
cancel_reservation id = release_reservation id cancelled false

unfoldable pub zero_rows : Error → Exec Bool
zero_rows no_rows = pure false
zero_rows other = raise other

-- rows_affected > 0
unfoldable pub affects : Exec Booking → Exec Bool
affects m = catch (do _ ← m; pure true) zero_rows

abbrev pub takes_intent : ℕ → Booking → Bool
takes_intent t b = is_active b.status && is_blank b.payment_intent_id

abbrev pub store_intent : String → ℕ → Booking → Booking
store_intent intent t b = record b { payment_intent_id = some intent; updated_at = t }

unfoldable pub stored_intent : Booking → Exec Booking
stored_intent existing =
    if is_blank existing.payment_intent_id then raise booking_not_reserved else pure existing

unfoldable pub set_payment_intent_id : ℕ → String → Exec Booking
unfolding affects zero_rows stored_intent
set_payment_intent_id id intent = do
  stored ← lone (affects (update_booking id takes_intent (store_intent intent)))
  booking ← find_by_id id
  if stored then pure booking else stored_intent booking

-- status = 'reserved' AND expires_at < CURRENT_TIMESTAMP
abbrev pub overdue : ℕ → List Booking → List Booking
overdue t [] = []
overdue t (b ∷ bs) =
    let rest = overdue t bs in
    if is_reserved b.status && ltb b.expires_at t then apply_booking_nullables b ∷ rest else rest

unfoldable pub find_expired_reservations : Exec (List Booking)
find_expired_reservations = lone (statement (λ t db. some (overdue t db.bookings, db)))
