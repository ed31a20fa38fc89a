-- ===== src/Repository/UserBookings.antt =====
-- FindByUserID of internal/repository/booking_repository.go: the bookings of a user with the names of
-- the event, the seat and the venue, read from the replica.
use ticket_master.Prelude.{ℕ, String, Option, none, some, List, [], ◌∷◌, ltb, ◌==◌, if◌then◌else◌}
use ticket_master.Table.{order_by}
use ticket_master.Model.{Db, Booking, Event, Seat, Venue, get_event, get_seat, get_venue}
use ticket_master.Exec.{Exec, replica_select}
use ticket_master.Repository.Statements.{apply_booking_nullables}

pub record BookingWithDetails : Type 0 where
  pub booking : Booking
  pub event_title : String
  pub event_date : ℕ
  pub seat_number : String
  pub venue_name : String

abbrev pub with_venue : Booking → Event → Seat → Option Venue → Option BookingWithDetails
with_venue b e s none = none
with_venue b e s (some v) = some (record {
  booking = apply_booking_nullables b;
  event_title = e.title;
  event_date = e.event_date;
  seat_number = s.seat_number;
  venue_name = v.name;
})

abbrev pub with_seat : Db → Booking → Event → Option Seat → Option BookingWithDetails
with_seat db b e none = none
with_seat db b e (some s) = with_venue b e s (get_venue e.venue_id db)

abbrev pub with_event : Db → Booking → Option Event → Option BookingWithDetails
with_event db b none = none
with_event db b (some e) = with_seat db b e (get_seat b.seat_id db)

-- FROM bookings b JOIN events e … JOIN seats s … JOIN venues v …
abbrev pub details_of : Db → Booking → Option BookingWithDetails
details_of db b = with_event db b (get_event b.event_id db)

abbrev pub push_details :
    Option BookingWithDetails → List BookingWithDetails → List BookingWithDetails
push_details none ds = ds
push_details (some d) ds = d ∷ ds

-- WHERE b.user_id = $1
abbrev pub joined_rows : Db → ℕ → List Booking → List BookingWithDetails
joined_rows db user_id [] = []
joined_rows db user_id (b ∷ bs) =
    let rest = joined_rows db user_id bs in
    if b.user_id == user_id then push_details (details_of db b) rest else rest

-- ORDER BY b.created_at DESC
unfoldable pub find_by_user_id : ℕ → Exec (List BookingWithDetails)
find_by_user_id user_id = replica_select λ db. some (
    order_by (λ c d. ltb d.booking.created_at c.booking.created_at)
      (joined_rows db user_id db.bookings))
