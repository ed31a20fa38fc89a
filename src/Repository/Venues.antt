-- ===== src/Repository/Venues.antt =====
-- internal/repository/venue_repository.go.
use ticket_master.Prelude.{ℕ, Option, none, some, List, ◌∷◌, ltb}
use ticket_master.Table.{order_by}
use ticket_master.Model.{Db, Venue, get_venue}
use ticket_master.Exec.{
  Exec, driver, venue_not_found, statement, replica_select, lone, time_now, uuid_new, ◌>>=◌,
}
use ticket_master.Repository.Statements.{or_missing}

abbrev pub add_venue : Venue → Db → Db
add_venue v db = record db { venues = v ∷ db.venues }

-- INSERT INTO venues …
abbrev pub insert_venue_row : Venue → Db → Option Venue → Option (Venue × Db)
insert_venue_row v db none = some (v, add_venue v db)
insert_venue_row v db (some _) = none

unfoldable pub insert_venue : Venue → Exec Venue
insert_venue v = statement λ _ db. insert_venue_row v db (get_venue v.id db)

abbrev pub stamped_venue : ℕ → ℕ → Venue → Venue
stamped_venue id now v = record v { id = id; created_at = now; updated_at = now }

-- Create
unfoldable pub create_venue_row : Venue → Exec Venue
create_venue_row venue = do
  id ← uuid_new
  now ← time_now
  lone (or_missing (insert_venue (stamped_venue id now venue)) driver)

-- FindByID
unfoldable pub find_venue_by_id : ℕ → Exec Venue
find_venue_by_id id = or_missing (replica_select (get_venue id)) venue_not_found

-- ListAll
unfoldable pub list_all_venues : Exec (List Venue)
list_all_venues =
    replica_select (λ db. some (order_by (λ u v. ltb v.created_at u.created_at) db.venues))
