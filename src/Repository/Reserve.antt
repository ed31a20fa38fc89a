-- ===== src/Repository/Reserve.antt =====
-- internal/repository/booking_repository.go: CreateReservation and reserveSeatTx.
use ticket_master.Prelude.{ℕ, String, Bool, true, not, ◌&&◌, Option, none, some, ◌∷◌, ◌==◌, str_eq}
use ticket_master.Table.{find}
use ticket_master.Model.{
  Db, Booking, Seat, Event, reserved, held, is_available, get_booking, get_event, User, get_user,
  get_seat,
}
use ticket_master.Exec.{
  Exec, Error, no_rows, driver, event_not_found, no_available_seats, seat_not_available, pure,
  raise, catch, time_now, uuid_new, statement, select, transaction, ◌>>=◌,
}
use ticket_master.Repository.Statements.{
  ◌>>◌, require, is_before, or_missing, lock_error, set_seat, update_event, take_one, has_available,
}

abbrev pub seat_of : ℕ → String → Seat → Bool
seat_of event_id seat_number s = s.event_id == event_id && str_eq s.seat_number seat_number

abbrev pub hold_seat : ℕ → ℕ → Seat → Seat
hold_seat reserved_until t s = record s {
  status = held;
  reserved_at = some t;
  reserved_until = some reserved_until;
}

unfoldable pub reserve_seat_tx : ℕ → String → ℕ → Exec Seat
reserve_seat_tx event_id seat_number reserved_until = do
  seat ←
      catch (select (λ _ db. find (seat_of event_id seat_number) db.seats))
        (λ e. raise (lock_error e))
  require (is_available seat.status) seat_not_available
  now ← time_now
  require (not (is_before now seat.reserved_until)) seat_not_available
  set_seat seat.id (λ _. true) (hold_seat reserved_until)
  later ← time_now
  pure (hold_seat reserved_until later seat)

-- Why no event row had a free seat.
unfoldable pub refuse_event : Option Event → Exec Event
refuse_event none = raise event_not_found
refuse_event (some e) = raise no_available_seats

unfoldable pub no_seat_left : ℕ → Error → Exec Event
no_seat_left event_id no_rows = do
  found ← statement (λ _ db. some (get_event event_id db, db))
  refuse_event found
no_seat_left event_id other = raise other

-- INSERT INTO bookings …; the user, the event and the seat are foreign keys.
abbrev pub insert_row :
    Booking → Db → Option User → Option Event → Option Seat → Option Booking → Option (Booking × Db)
insert_row b db (some u) (some e) (some s) none = some (b, record db { bookings = b ∷ db.bookings })
insert_row b db _ _ _ _ = none

-- A uuid that is taken violates the primary key.
unfoldable pub insert_booking : Booking → Exec Booking
insert_booking b =
    or_missing
      (statement λ _ db.
        insert_row b db (get_user b.user_id db) (get_event b.event_id db) (get_seat b.seat_id db)
          (get_booking b.id db))
      driver

abbrev pub new_booking : ℕ → ℕ → ℕ → ℕ → ℕ → ℕ → ℕ → Booking
new_booking id user_id event_id seat_id price now expires_at = record {
  id = id;
  user_id = user_id;
  event_id = event_id;
  seat_id = seat_id;
  status = reserved;
  total_amount = price;
  reserved_at = now;
  purchased_at = none;
  payment_intent_id = none;
  expires_at = expires_at;
  created_at = now;
  updated_at = now;
}

unfoldable pub create_reservation_tx : ℕ → ℕ → String → ℕ → Exec Booking
create_reservation_tx user_id event_id seat_number expires_at = do
  event ← catch (update_event event_id has_available take_one) (no_seat_left event_id)
  seat ← reserve_seat_tx event_id seat_number expires_at
  now ← time_now
  id ← uuid_new
  insert_booking (new_booking id user_id event_id seat.id event.ticket_price now expires_at)

unfoldable pub create_reservation : ℕ → ℕ → String → ℕ → Exec Booking
create_reservation user_id event_id seat_number expires_at =
    transaction (create_reservation_tx user_id event_id seat_number expires_at)
