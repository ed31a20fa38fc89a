-- ===== src/Repository/Events.antt =====
-- internal/repository/event_repository.go: the events that are created and read. Their counter is
-- changed by the transactions on bookings.
use ticket_master.Prelude.{ℕ, ltb, Option, none, some, List, ◌∷◌}
use ticket_master.Table.{order_by}
use ticket_master.Model.{Db, Event, User, Venue, get_event, get_user, get_venue}
use ticket_master.Exec.{
  Exec, driver, event_not_found, statement, replica_select, lone, time_now, uuid_new, ◌>>=◌,
}
use ticket_master.Repository.Statements.{or_missing}

abbrev pub add_event : Event → Db → Db
add_event e db = record db { events = e ∷ db.events }

-- The venue and the creator are foreign keys.
abbrev pub insert_event_row :
    Event → Db → Option Venue → Option User → Option Event → Option (Event × Db)
insert_event_row e db (some v) (some u) none = some (e, add_event e db)
insert_event_row e db _ _ _ = none

-- INSERT INTO events …
unfoldable pub insert_event : Event → Exec Event
insert_event e =
    or_missing
      (statement λ _ db.
        insert_event_row e db (get_venue e.venue_id db) (get_user e.created_by db)
          (get_event e.id db))
      driver

abbrev pub stamped_event : ℕ → ℕ → Event → Event
stamped_event id now e = record e {
  id = id;
  available_seats = e.total_seats;
  created_at = now;
  updated_at = now;
}

-- Create
unfoldable pub create_event_row : Event → Exec Event
create_event_row event = do
  id ← uuid_new
  now ← time_now
  lone (insert_event (stamped_event id now event))

-- FindByID
unfoldable pub find_event_by_id : ℕ → Exec Event
find_event_by_id id = or_missing (replica_select (get_event id)) event_not_found

-- ListAll
unfoldable pub list_all_events : Exec (List Event)
list_all_events =
    replica_select (λ db. some (order_by (λ d e. ltb d.event_date e.event_date) db.events))
