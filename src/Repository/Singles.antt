-- ===== src/Repository/Singles.antt =====
-- The operations on one row of internal/repository/booking_repository.go, seat_repository.go and
-- event_repository.go that no service calls.
use ticket_master.Prelude.{ℕ, String, true, not, Option, none, some, if◌then◌else◌}
use ticket_master.Table.{find, modify}
use ticket_master.Model.{
  Booking, BookingStatus, Seat, SeatStatus, available, is_available, is_purchased,
}
use ticket_master.Exec.{
  Exec, driver, seat_not_available, statement, select, lone, transaction, pure, raise, catch,
  time_now, uuid_new, ◌>>=◌,
}
use ticket_master.Repository.Statements.{
  ◌>>◌, require, is_before, lock_error, set_seat, with_bookings, free_seat, or_missing,
  update_event, has_available, take_one, return_seat,
}
use ticket_master.Repository.Reserve.{seat_of, hold_seat, insert_booking}
use ticket_master.Repository.Purchase.{sell_seat}
use ticket_master.Repository.Seats.{insert_seat}

abbrev pub stamped_booking : ℕ → ℕ → Booking → Booking
stamped_booking id now b = record b {
  id = id;
  created_at = now;
  updated_at = now;
  purchased_at = none;
  payment_intent_id = none;
}

-- Create of the bookings: the stored row, without the columns that the statement does not set.
unfoldable pub create_booking_row : Booking → Exec Booking
create_booking_row booking = do
  id ← uuid_new
  now ← time_now
  lone (insert_booking (stamped_booking id now booking))

abbrev pub with_status : BookingStatus → ℕ → Booking → Booking
with_status status t b = record b {
  status = status;
  purchased_at = if is_purchased status then some t else b.purchased_at;
  updated_at = t;
}

-- UpdateStatus
unfoldable pub update_status : ℕ → BookingStatus → Exec (Unit {0})
update_status id status = lone (
    statement λ t db.
      some (tt, with_bookings db (modify (λ b. b.id) id (with_status status t) db.bookings)))

abbrev pub stamped_seat : ℕ → ℕ → Option SeatStatus → Seat → Seat
stamped_seat id now none seat = record seat { id = id; created_at = now; status = available }
stamped_seat id now (some status) seat = record seat { id = id; created_at = now; status = status }

-- Create of the seats; a status that is not set becomes `available`.
unfoldable pub create_seat_row : Option SeatStatus → Seat → Exec (Unit {0})
create_seat_row status seat = do
  id ← uuid_new
  now ← time_now
  lone (
      insert_seat
        (record (stamped_seat id now status seat) { reserved_at = none; reserved_until = none }))

-- The body of ReserveSeatWithLock.
unfoldable pub reserve_seat_with_lock_tx : ℕ → String → ℕ → Exec Seat
reserve_seat_with_lock_tx event_id seat_number reserved_until = do
  seat ←
      catch (select (λ _ db. find (seat_of event_id seat_number) db.seats))
        (λ e. raise (lock_error e))
  require (is_available seat.status) seat_not_available
  now ← time_now
  require (not (is_before now seat.reserved_until)) seat_not_available
  set_seat seat.id (λ _. true) (hold_seat reserved_until)
  pure seat

-- ReserveSeatWithLock
unfoldable pub reserve_seat_with_lock : ℕ → String → ℕ → Exec Seat
reserve_seat_with_lock event_id seat_number reserved_until = do
  seat ← transaction (reserve_seat_with_lock_tx event_id seat_number reserved_until)
  now ← time_now
  pure (hold_seat reserved_until now seat)

-- MarkAsSold
unfoldable pub mark_as_sold : ℕ → Exec (Unit {0})
mark_as_sold seat_id = lone (set_seat seat_id (λ _. true) sell_seat)

-- ReleaseSeat
unfoldable pub release_seat : ℕ → Exec (Unit {0})
release_seat seat_id = lone (set_seat seat_id (λ _. true) free_seat)

-- DecrementAvailableSeats; its error where no row is left is none of the sentinels.
unfoldable pub decrement_available_seats : ℕ → Exec (Unit {0})
decrement_available_seats event_id =
    lone (or_missing (update_event event_id has_available take_one) driver >>= λ _. pure tt)

-- IncrementAvailableSeats
unfoldable pub increment_available_seats : ℕ → Exec (Unit {0})
increment_available_seats event_id = lone (return_seat event_id)
