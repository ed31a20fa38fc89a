-- ===== src/Venues.antt =====
-- internal/services/venue_service.go. Errors made on the spot are `driver`: no caller tells them apart.
use ticket_master.Prelude.{ℕ, String, Option, none, some, List}
use ticket_master.Model.{Venue}
use ticket_master.Exec.{Exec, Error, driver, venue_not_found, raise, catch}
use ticket_master.Repository.Venues.{create_venue_row, find_venue_by_id, list_all_venues}

pub record CreateVenueRequest : Type 0 where
  pub name : String
  pub address : String
  pub capacity : ℕ
  pub seat_layout : String

abbrev pub requested_venue : CreateVenueRequest → Venue
requested_venue req = record {
  id = 0;
  name = req.name;
  address = req.address;
  capacity = req.capacity;
  seat_layout = req.seat_layout;
  created_at = 0;
  updated_at = 0;
}

-- CreateVenue
unfoldable pub create_venue : CreateVenueRequest → Exec Venue
create_venue req = create_venue_row (requested_venue req)

abbrev pub missing_venue : Error → Error
missing_venue venue_not_found = driver
missing_venue other = other

-- GetVenueByID; `none` is a text that is no uuid.
unfoldable pub get_venue_by_id : Option ℕ → Exec Venue
get_venue_by_id none = raise driver
get_venue_by_id (some id) = catch (find_venue_by_id id) (λ e. raise (missing_venue e))

-- ListVenues
unfoldable pub list_venues : Exec (List Venue)
list_venues = list_all_venues
