-- ===== src/Handlers/Catalog.antt =====
-- internal/handlers/event_handler.go and venue_handler.go.
use ticket_master.Prelude.{ℕ, Bool, false, Option, none, some, List}
use ticket_master.Model.{Event, Seat, SeatStatus, Venue}
use ticket_master.Exec.{Exec, Error, ServiceError, service, pure, ◌>>=◌}
use ticket_master.Venues.{CreateVenueRequest, create_venue, get_venue_by_id, list_venues}
use ticket_master.Events.{
  CreateEventRequest, SeatsResponse, create_event, get_event_by_id, list_events, get_event_seats,
  context_for_seat_reads,
}
use ticket_master.Handlers.{Reply, refused, respond_with, bound, signed_in}
use ticket_master.Handlers.Accounts.{internal_error}

abbrev pub create_event_status : Error → ℕ
create_event_status (service ServiceError.venue_not_found) = 400
create_event_status other = 500

abbrev pub event_status : Error → ℕ
event_status (service ServiceError.event_not_found) = 404
event_status other = 500

abbrev pub venue_status : Error → ℕ
venue_status e = 404

-- The query's status: absent, one of the statuses, or anything else.
pub data StatusFilter : Type 0 where
  no_filter bad_filter : StatusFilter
  by_status : SeatStatus → StatusFilter

abbrev pub read_context : Bool → Option ℕ → ℕ → Exec Bool
read_context has_redis none event_id = pure false
read_context has_redis (some user_id) event_id =
    context_for_seat_reads has_redis false user_id event_id

module _ (has_redis : Bool) where
  -- CreateEvent
  unfoldable pub create_event_handler : Option CreateEventRequest → Option ℕ → Exec (Reply Event)
  create_event_handler request caller = bound request λ req.
      signed_in caller
        λ user_id. respond_with 201 create_event_status (create_event has_redis req user_id)

  -- GetEvent
  unfoldable pub get_event_handler : Option ℕ → Exec (Reply Event)
  get_event_handler path =
      bound path λ id. respond_with 200 event_status (get_event_by_id has_redis id)

  abbrev pub seats_reply :
      (List Seat → List Seat) → Option ℕ → ℕ → Option SeatStatus → Exec (Reply SeatsResponse)
  seats_reply sort caller id filter = do
    use_primary ← read_context has_redis caller id
    respond_with 200 event_status (get_event_seats sort use_primary id filter)

  abbrev pub filtered_reply :
      (List Seat → List Seat) → Option ℕ → StatusFilter → ℕ → Exec (Reply SeatsResponse)
  filtered_reply sort caller no_filter id = seats_reply sort caller id none
  filtered_reply sort caller bad_filter id = pure (refused 400)
  filtered_reply sort caller (by_status status) id = seats_reply sort caller id (some status)

  -- GetEventSeats
  unfoldable pub get_event_seats_handler :
      (List Seat → List Seat) → Option ℕ → StatusFilter → Option ℕ → Exec (Reply SeatsResponse)
  get_event_seats_handler sort path filter caller = bound path (filtered_reply sort caller filter)

-- ListEvents
unfoldable pub list_events_handler : Exec (Reply (List Event))
list_events_handler = respond_with 200 internal_error list_events

-- CreateVenue
unfoldable pub create_venue_handler : Option CreateVenueRequest → Exec (Reply Venue)
create_venue_handler request =
    bound request λ req. respond_with 201 internal_error (create_venue req)

-- GetVenue
unfoldable pub get_venue_handler : Option ℕ → Exec (Reply Venue)
get_venue_handler path = respond_with 200 venue_status (get_venue_by_id path)

-- ListVenues
unfoldable pub list_venues_handler : Exec (Reply (List Venue))
list_venues_handler = respond_with 200 internal_error list_venues
