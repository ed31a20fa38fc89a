-- ===== src/Repository/Seats.antt =====
-- internal/repository/seat_repository.go: the seats of a new event and the queries of seats.
pub mod Filled
use ticket_master.Prelude.{
  ℕ, zero, suc, ◌+◌, String, Bool, true, ◌&&◌, Option, none, some, List, ◌∷◌, ◌==◌, if◌then◌else◌,
}
use ticket_master.Table.{find, rows_where}
use ticket_master.Model.{
  Db, Seat, Event, SeatStatus, available, held, sold, get_seat, get_event, is_available, is_held,
  is_sold,
}
use ticket_master.Exec.{
  Exec, driver, seat_not_found, statement, select, replica_select, lone, transaction, pure,
  time_now, uuid_new, ◌>>=◌,
}
use ticket_master.Repository.Statements.{◌>>◌, or_missing}
use ticket_master.Repository.Reserve.{seat_of}
use ticket_master.Repository.SeatNumber.{format_seat_number}

abbrev pub add_seat : Seat → Db → Db
add_seat s db = record db { seats = s ∷ db.seats }

-- The event is a foreign key; the id, and the event with the seat number, are unique.
abbrev pub insert_seat_row :
    Seat → Db → Option Event → Option Seat → Option Seat → Option (Unit {0} × Db)
insert_seat_row s db (some e) none none = some (tt, add_seat s db)
insert_seat_row s db _ _ _ = none

-- INSERT INTO seats …
unfoldable pub insert_seat : Seat → Exec (Unit {0})
insert_seat s =
    or_missing
      (statement λ _ db.
        insert_seat_row s db (get_event s.event_id db) (get_seat s.id db)
          (find (seat_of s.event_id s.seat_number) db.seats))
      driver

abbrev pub new_seat : ℕ → ℕ → String → ℕ → Seat
new_seat id event_id seat_number now = record {
  id = id;
  event_id = event_id;
  seat_number = seat_number;
  row_number = "";
  section = "";
  status = available;
  reserved_at = none;
  reserved_until = none;
  created_at = now;
}

-- for i := …; i <= totalSeats; i++, with so many rounds left
unfoldable pub insert_seats : ℕ → ℕ → ℕ → Exec (Unit {0})
insert_seats event_id i zero = pure tt
insert_seats event_id i (suc left) = do
  id ← uuid_new
  now ← time_now
  insert_seat (new_seat id event_id (format_seat_number i) now)
  insert_seats event_id (i + 1) left

-- tx.Prepare
unfoldable pub prepare : Exec (Unit {0})
prepare = select (λ _ _. some tt)

-- CreateBulkSeats
unfoldable pub create_bulk_seats : ℕ → ℕ → Exec (Unit {0})
create_bulk_seats event_id total_seats =
    transaction (prepare >> insert_seats event_id 1 total_seats)

abbrev pub same_status : SeatStatus → SeatStatus → Bool
same_status available s = is_available s
same_status held s = is_held s
same_status sold s = is_sold s

abbrev pub matches : Option SeatStatus → SeatStatus → Bool
matches none s = true
matches (some wanted) s = same_status wanted s

abbrev pub in_event : ℕ → Option SeatStatus → Seat → Bool
in_event event_id status s = s.event_id == event_id && matches status s.status

-- FindByEventAndSeatNumber; a NULL text is read as the empty one.
unfoldable pub find_by_event_and_seat_number : ℕ → String → Exec Seat
find_by_event_and_seat_number event_id seat_number =
    lone (or_missing (select (λ _ db. find (seat_of event_id seat_number) db.seats)) seat_not_found)

-- database.DBForSeatRead(ctx): the primary where the context says so, else the replica.
unfoldable pub seat_read {ℓ} : {A : Type ℓ} → Bool → (Db → Option A) → Exec A
seat_read use_primary q = if use_primary then lone (select (λ _ db. q db)) else replica_select q

-- FindByEventID; `sort` is ORDER BY seat_number, an order of texts of the database's own.
unfoldable pub find_by_event_id :
    (List Seat → List Seat) → Bool → ℕ → Option SeatStatus → Exec (List Seat)
find_by_event_id sort use_primary event_id status =
    seat_read use_primary (λ db. some (sort (rows_where (in_event event_id status) db.seats)))
