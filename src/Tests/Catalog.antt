-- ===== src/Tests/Catalog.antt =====
-- A new event of three seats, its listing, and the numbers of its seats.
use ticket_master.Prelude.{ℕ, ◌≡◌, refl, true, false, some, [], ◌∷◌, arith}
use ticket_master.Model.{SeatStatus}
use ticket_master.Exec.{World}
use ticket_master.Exec.Returns.{Returns}
use ticket_master.Repository.SeatNumber.{print_fuel, format_seat_number}
use ticket_master.Repository.SeatNumber.Distinct.{format_seat_number-injective}
use ticket_master.Repository.Seats.Filled.{IsFresh}
use ticket_master.Events.{CreateEventRequest, create_event, get_event_seats}
use ticket_master.Events.Created.{Created, create_event_returns}
use ticket_master.Events.Reads.{Agrees, IsOrdering, get_event_seats-Agrees}
use ticket_master.Tests.Fixtures.{
  calm, calm-IsReliable, calm-IsIdle, opened, at_open, concert, hall, organiser,
}

abbrev festival : CreateEventRequest
festival = record {
  venue_id = 5;
  title = "Festival";
  description = "";
  event_date = 12_000;
  ticket_price = 4000;
  total_seats = 3;
}

abbrev with_hall : World
with_hall = record at_open { db = record opened { venues = hall ∷ []; users = organiser ∷ [] } }

calm-IsFresh : IsFresh calm
calm-IsFresh m n e = omega (arith, e)

create_event_returns_example :
    Returns (create_event true festival 3 calm with_hall) (λ e w. Created festival 3 e w.db)
create_event_returns_example =
    create_event_returns calm with_hall true festival 3 hall organiser calm-IsReliable calm-IsIdle
      calm-IsFresh refl refl (λ n. ground arith) (λ n. ground arith) (λ n number. ground arith)

thirteenth : format_seat_number 13 ≡ "R2-S3"
unfolding format_seat_number print_fuel
thirteenth = refl

abbrev first_of_row_two : ℕ
first_of_row_two = 11

format_seat_number-injective_example : first_of_row_two ≡ 11
format_seat_number-injective_example =
    format_seat_number-injective first_of_row_two 11 (omega arith) (omega arith) refl

as_they_are : IsOrdering (λ seats. seats)
as_they_are p seats = refl

get_event_seats-Agrees_example :
    Returns
      (get_event_seats (λ seats. seats) false 1 (some SeatStatus.available) calm at_open)
      (λ r _. Agrees SeatStatus.available r)
get_event_seats-Agrees_example =
    get_event_seats-Agrees (λ seats. seats) calm at_open false 1 concert SeatStatus.available
      as_they_are calm-IsReliable calm-IsIdle refl
