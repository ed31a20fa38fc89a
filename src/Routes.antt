-- ===== src/Routes.antt =====
-- internal/routes/routes.go: the routes of the API and who is let through to their handlers. The limits
-- and the idempotency keys in front of some handlers are in RateLimit and Idempotency.
pub mod Authorised
use ticket_master.Prelude.{ℕ, String, Option, none, some}
use ticket_master.Jwt.{Crypto, Claims}
use ticket_master.Access.{Decision, goes_on, aborts, require_auth, require_admin}

pub data Route : Type 0 where
  post_register post_login get_events get_event get_event_seats : Route
  get_me get_users post_promote post_demote get_queue_metrics : Route
  post_venue get_venues get_venue post_event : Route
  post_reserve post_bulk_reserve post_purchase : Route
  get_my_bookings get_job get_booking delete_booking get_ws : Route

-- The middlewares of a route's group: none, RequireAuth, or RequireAuth and then RequireAdmin.
pub data Guard : Type 0 where
  unguarded protected admin : Guard

abbrev pub guard_of : Route → Guard
guard_of post_register = unguarded
guard_of post_login = unguarded
guard_of get_events = unguarded
guard_of get_event = unguarded
guard_of get_event_seats = unguarded
guard_of get_me = protected
guard_of get_users = admin
guard_of post_promote = admin
guard_of post_demote = admin
guard_of get_queue_metrics = admin
guard_of post_venue = admin
guard_of get_venues = admin
guard_of get_venue = admin
guard_of post_event = admin
guard_of post_reserve = protected
guard_of post_bulk_reserve = protected
guard_of post_purchase = protected
guard_of get_my_bookings = protected
guard_of get_job = protected
guard_of get_booking = protected
guard_of delete_booking = protected
guard_of get_ws = protected

-- What the handler then knows of the caller.
abbrev pub known : Decision Claims → Decision (Option Claims)
known (goes_on claims) = goes_on (some claims)
known (aborts code text) = aborts code text

abbrev pub also_admin : Decision Claims → Decision (Option Claims)
also_admin (goes_on claims) = known (require_admin (some claims))
also_admin (aborts code text) = aborts code text

module _ (c : Crypto) (secret : String) (now : ℕ) where
  abbrev pub through : Guard → String → Decision (Option Claims)
  through unguarded header = goes_on none
  through protected header = known (require_auth c secret now header)
  through admin header = also_admin (require_auth c secret now header)

  -- A request with this Authorization header, up to the route's handler.
  unfoldable pub admit : Route → String → Decision (Option Claims)
  admit r header = through (guard_of r) header
