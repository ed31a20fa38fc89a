-- ===== src/Events.antt =====
-- internal/services/event_service.go: creating events with their seats, and reading them through the
-- cache. `has_redis` says whether Redis is configured. An event is read back from the cache as it was
-- written.
pub mod Reaches
pub mod Created
pub mod Reads
use ticket_master.Prelude.{
  ℕ, ◌+◌, String, Bool, true, false, not, ◌&&◌, ◌||◌, Option, none, some, List, [], ◌∷◌, ◌==◌,
  length, if◌then◌else◌,
}
use ticket_master.Table.{find}
use ticket_master.Model.{Event, Seat, SeatStatus}
use ticket_master.Effects.{Effects, forget_event}
use ticket_master.Exec.{
  Exec, Error, ServiceError, service, driver, event_not_found, venue_not_found, pure, raise, catch,
  lookup, best_effort, ◌>>=◌,
}
use ticket_master.Repository.Statements.{◌>>◌}
use ticket_master.Repository.Venues.{find_venue_by_id}
use ticket_master.Repository.Events.{create_event_row, find_event_by_id, list_all_events}
use ticket_master.Repository.Seats.{create_bulk_seats, find_by_event_id}
use ticket_master.Service.{when}

pub record CreateEventRequest : Type 0 where
  pub venue_id : ℕ
  pub title : String
  pub description : String
  pub event_date : ℕ
  pub ticket_price : ℕ
  pub total_seats : ℕ

-- What is not set is the zero value of its type.
abbrev pub requested_event : CreateEventRequest → ℕ → Event
requested_event req created_by = record {
  id = 0;
  venue_id = req.venue_id;
  title = req.title;
  description = req.description;
  event_date = req.event_date;
  ticket_price = req.ticket_price;
  total_seats = req.total_seats;
  available_seats = 0;
  created_by = created_by;
  created_at = 0;
  updated_at = 0;
}

abbrev pub venue_error : Error → Error
venue_error venue_not_found = service ServiceError.venue_not_found
venue_error other = other

abbrev pub event_error : Error → Error
event_error event_not_found = service ServiceError.event_not_found
event_error other = other

-- GET event:<id>
unfoldable pub get_event_from_cache : Bool → ℕ → Exec Event
get_event_from_cache has_redis id =
    if has_redis then lookup (λ e. find (λ c. c.id == id) e.event_cache) else raise driver

unfoldable pub cache_event : Bool → Event → Exec (Unit {0})
cache_event has_redis event =
    when has_redis
      (best_effort λ e. record e { event_cache = event ∷ forget_event event.id e.event_cache })

unfoldable pub invalidate_event_cache : Bool → ℕ → Exec (Unit {0})
invalidate_event_cache has_redis id =
    when has_redis (best_effort λ e. record e { event_cache = forget_event id e.event_cache })

-- The seats of the event that was stored.
unfoldable pub fill_event : Bool → Event → ℕ → Exec Event
fill_event has_redis event total_seats = do
  create_bulk_seats event.id total_seats
  invalidate_event_cache has_redis event.id
  pure event

-- CreateEvent
unfoldable pub create_event : Bool → CreateEventRequest → ℕ → Exec Event
create_event has_redis req created_by = do
  catch (find_venue_by_id req.venue_id) (λ e. raise (venue_error e))
  event ← create_event_row (requested_event req created_by)
  fill_event has_redis event req.total_seats

unfoldable pub load_event : Bool → ℕ → Exec Event
load_event has_redis id = do
  event ← catch (find_event_by_id id) (λ e. raise (event_error e))
  cache_event has_redis event
  pure event

-- GetEventByID
unfoldable pub get_event_by_id : Bool → ℕ → Exec Event
get_event_by_id has_redis id =
    catch (get_event_from_cache has_redis id) (λ _. load_event has_redis id)

-- ListEvents
unfoldable pub list_events : Exec (List Event)
list_events = list_all_events

pub record SeatsSummary : Type 0 where
  pub total : ℕ
  pub available : ℕ
  pub reserved : ℕ
  pub sold : ℕ

pub record SeatsResponse : Type 0 where
  pub event_id : ℕ
  pub summary : SeatsSummary
  pub seats : List Seat

abbrev pub count_status : SeatStatus → SeatsSummary → SeatsSummary
count_status SeatStatus.available c = record c { available = c.available + 1 }
count_status SeatStatus.held c = record c { reserved = c.reserved + 1 }
count_status SeatStatus.sold c = record c { sold = c.sold + 1 }

-- for _, seat := range seats
abbrev pub count_seats : List Seat → SeatsSummary → SeatsSummary
count_seats [] c = c
count_seats (s ∷ ss) c = count_seats ss (count_status s.status c)

abbrev pub empty_summary : ℕ → SeatsSummary
empty_summary total = record { total = total; available = 0; reserved = 0; sold = 0 }

unfoldable pub calculate_seats_summary : List Seat → SeatsSummary
calculate_seats_summary seats = count_seats seats (empty_summary (length seats))

abbrev pub filtered_seats :
    (List Seat → List Seat) → Bool → ℕ → List Seat → Option SeatStatus → Exec (List Seat)
filtered_seats sort use_primary event_id all none = pure all
filtered_seats sort use_primary event_id all (some status) =
    find_by_event_id sort use_primary event_id (some status)

-- GetEventSeats
unfoldable pub get_event_seats :
    (List Seat → List Seat) → Bool → ℕ → Option SeatStatus → Exec SeatsResponse
get_event_seats sort use_primary event_id filter = do
  catch (find_event_by_id event_id) (λ e. raise (event_error e))
  all ← find_by_event_id sort use_primary event_id none
  seats ← filtered_seats sort use_primary event_id all filter
  pure (record { event_id = event_id; summary = calculate_seats_summary all; seats = seats })

abbrev pub is_marked : ℕ → ℕ → List (ℕ × ℕ) → Bool
is_marked user_id event_id [] = false
is_marked user_id event_id ((u, e) ∷ marks) =
    u == user_id && e == event_id || is_marked user_id event_id marks

-- database.ContextForSeatReads: whether the context that it returns reads from the primary. The first
-- argument says whether Redis is configured, the second whether the context reads there already.
unfoldable pub context_for_seat_reads : Bool → Bool → ℕ → ℕ → Exec Bool
context_for_seat_reads has_redis true user_id event_id = pure true
context_for_seat_reads has_redis false user_id event_id =
    if user_id == 0 || event_id == 0 || not has_redis
    then pure false
    else catch (lookup λ e. some (is_marked user_id event_id e.read_marks)) (λ _. pure false)
