-- ===== src/Repository/Statements.antt =====
-- The SQL statements that several transactions of internal/repository share.
pub mod Rules
pub mod Returns
use ticket_master.Prelude.{
  ℕ, ◌-◌, ◌+◌, String, Bool, true, false, Option, none, some, List, ltb, if◌then◌else◌, str_eq,
}
use ticket_master.Model.{Db, Booking, Seat, Event, get_booking, get_seat, available}
use ticket_master.Table.{update, modify, written}
use ticket_master.Exec.{
  Exec, Error, no_rows, lock_not_available, seat_not_found, seat_already_booked, booking_not_found,
  statement, select, lone, catch, raise, pure, ◌>>=◌,
}

infixl 10 ◌>>◌
abbrev pub ◌>>◌ {ℓ κ} : {A : Type ℓ} {B : Type κ} → Exec A → Exec B → Exec B
m >> k = m >>= λ _. k

-- `if !test { return err }`
unfoldable pub require : Bool → Error → Exec (Unit {0})
require true e = pure tt
require false e = raise e

-- Where the statement's result is empty: `err == sql.ErrNoRows`, or no row affected.
abbrev pub missing_as : Error → Error → Error
missing_as e no_rows = e
missing_as e other = other

abbrev pub or_missing {ℓ} : {A : Type ℓ} → Exec A → Error → Exec A
or_missing m e = catch m (λ e'. raise (missing_as e e'))

abbrev pub with_bookings : Db → List Booking → Db
with_bookings db rows = record db { bookings = rows }

abbrev pub with_seats : Db → List Seat → Db
with_seats db rows = record db { seats = rows }

abbrev pub with_events : Db → List Event → Db
with_events db rows = record db { events = rows }

abbrev pub stored {ℓ} : {A : Type ℓ} → (List A → Db) → Option (A × List A) → Option (A × Db)
stored wrap none = none
stored wrap (some (r, rows)) = some (r, wrap rows)

-- UPDATE bookings SET … WHERE id = k AND guard
unfoldable pub update_booking : ℕ → (ℕ → Booking → Bool) → (ℕ → Booking → Booking) → Exec Booking
update_booking k guard f =
    statement λ t db. stored (with_bookings db) (update (λ b. b.id) k (guard t) (f t) db.bookings)

-- UPDATE seats SET … WHERE id = k AND guard
unfoldable pub update_seat : ℕ → (Seat → Bool) → (ℕ → Seat → Seat) → Exec Seat
update_seat k guard f =
    statement λ t db. stored (with_seats db) (update (λ s. s.id) k guard (f t) db.seats)

-- The same where the caller does not look at the number of rows.
unfoldable pub set_seat : ℕ → (Seat → Bool) → (ℕ → Seat → Seat) → Exec (Unit {0})
set_seat k guard f =
    statement λ t db.
      some (tt, with_seats db (written db.seats (update (λ s. s.id) k guard (f t) db.seats)))

-- UPDATE events SET … WHERE id = k AND guard RETURNING …
unfoldable pub update_event : ℕ → (Event → Bool) → (ℕ → Event → Event) → Exec Event
update_event k guard f =
    statement λ t db. stored (with_events db) (update (λ e. e.id) k guard (f t) db.events)

abbrev pub give_back : ℕ → Event → Event
give_back t e = record e { available_seats = e.available_seats + 1; updated_at = t }

abbrev pub take_one : ℕ → Event → Event
take_one t e = record e { available_seats = e.available_seats - 1; updated_at = t }

abbrev pub has_available : Event → Bool
has_available e = ltb 0 e.available_seats

-- UPDATE events SET available_seats = available_seats + 1 WHERE id = k
unfoldable pub return_seat : ℕ → Exec (Unit {0})
return_seat k =
    statement λ t db. some (tt, with_events db (modify (λ e. e.id) k (give_back t) db.events))

-- time.Now().Before(*t), false where the pointer is nil.
abbrev pub is_before : ℕ → Option ℕ → Bool
is_before now none = false
is_before now (some t) = ltb now t

-- time.Now().After(*t), false where the pointer is nil.
abbrev pub is_after : ℕ → Option ℕ → Bool
is_after now none = false
is_after now (some t) = ltb t now

abbrev pub is_blank : Option String → Bool
is_blank none = true
is_blank (some s) = str_eq s ""

-- The column as a booking carries it: an empty text is no intent.
abbrev pub apply_booking_nullables : Booking → Booking
apply_booking_nullables b = record b {
  payment_intent_id = if is_blank b.payment_intent_id then none else b.payment_intent_id;
}

-- SELECT … WHERE id = $1 FOR UPDATE
unfoldable pub find_booking_for_update : ℕ → Exec Booking
find_booking_for_update id = do
  b ← or_missing (select (λ _ db. get_booking id db)) booking_not_found
  pure (apply_booking_nullables b)

unfoldable pub find_by_id : ℕ → Exec Booking
find_by_id id = do
  b ← lone (or_missing (select (λ _ db. get_booking id db)) booking_not_found)
  pure (apply_booking_nullables b)

-- The errors of SELECT … FOR UPDATE NOWAIT.
abbrev pub lock_error : Error → Error
lock_error no_rows = seat_not_found
lock_error lock_not_available = seat_already_booked
lock_error other = other

unfoldable pub lock_seat_by_id : ℕ → Exec Seat
lock_seat_by_id id = catch (select (λ _ db. get_seat id db)) (λ e. raise (lock_error e))

abbrev pub free_seat : ℕ → Seat → Seat
free_seat t s = record s { status = available; reserved_at = none; reserved_until = none }
