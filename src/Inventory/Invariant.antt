-- ===== src/Inventory/Invariant.antt =====
-- The tables agree with one another: seats with the bookings that hold them, and the counter of
-- each event with its active bookings.
use ticket_master.Prelude.{ℕ, ◌+◌, ◌≡◌, Bool, ◌&&◌, Option, none, some, ◌==◌, indicator}
use ticket_master.Table.{count, Distinct}
use ticket_master.Model.{
  Db, Booking, Seat, Event, BookingStatus, SeatStatus, is_reserved, is_purchased, is_active,
  is_held, is_sold, get_seat, get_event,
}

abbrev pub on_seat : (BookingStatus → Bool) → ℕ → Booking → Bool
on_seat test k b = b.seat_id == k && test b.status

abbrev pub seat_in : (SeatStatus → Bool) → Option Seat → ℕ
seat_in test none = 0
seat_in test (some s) = indicator (test s.status)

abbrev pub of_event : ℕ → Booking → Bool
of_event k b = b.event_id == k && is_active b.status

abbrev pub Balanced : Option Event → ℕ → Type 0
Balanced none n = n ≡ 0
Balanced (some e) n = e.available_seats + n ≡ e.total_seats

pub record Inv (db : Db) : Type 0 where
  pub seat_ids : Distinct (λ s. s.id) db.seats
  pub holds : (k : ℕ) → count (on_seat is_reserved k) db.bookings ≡ seat_in is_held (get_seat k db)
  pub sales : (k : ℕ) → count (on_seat is_purchased k) db.bookings ≡ seat_in is_sold (get_seat k db)
  pub stock : (k : ℕ) → Balanced (get_event k db) (count (of_event k) db.bookings)
