-- ===== src/Routes/Authorised.antt =====
-- Who may change what, said of the routes without their middlewares.
use ticket_master.Prelude.{ℕ, ◌≡◌, refl, String, true, Option, none, some, str_eq, arith}
use ticket_master.Jwt.{Crypto, Claims, valid, validate_token}
use ticket_master.Access.{Decision, goes_on, aborts, require_auth, require_admin}
use ticket_master.Access.Bearer.{bearer, IsSpaceless, require_auth_iff}
use ticket_master.Routes.{
  Route, Guard, unguarded, protected, admin, post_register, post_login, get_events, get_event,
  get_event_seats, get_me, get_users, post_promote, post_demote, get_queue_metrics, post_venue,
  get_venues, get_venue, post_event, post_reserve, post_bulk_reserve, post_purchase,
  get_my_bookings, get_job, get_booking, delete_booking, get_ws, known, also_admin, through, admit,
}

-- What is asked of the caller of a route.
pub data Need : Type 0 where
  nobody somebody administrator : Need

-- Bookings are changed by the users themselves, venues, events and roles by administrators.
abbrev pub needs : Route → Need
needs post_reserve = somebody
needs post_bulk_reserve = somebody
needs post_purchase = somebody
needs delete_booking = somebody
needs get_booking = somebody
needs get_my_bookings = somebody
needs post_venue = administrator
needs post_event = administrator
needs post_promote = administrator
needs post_demote = administrator
needs get_users = administrator
needs _ = nobody

-- What a guard makes sure of.
abbrev need_of : Guard → Need
need_of unguarded = nobody
need_of protected = somebody
need_of admin = administrator

module _ (c : Crypto) (secret : String) (now : ℕ) where
  -- The header carries a valid token with these claims.
  abbrev pub IsCaller : String → Claims → Type 0
  IsCaller header claims =
      (token : String) × (header ≡ bearer token)
      × IsSpaceless token
      × (validate_token c now token secret ≡ valid claims)

  abbrev pub Meets : Need → String → Option Claims → Type 0
  Meets nobody header caller = Unit {0}
  Meets somebody header none = ⊥
  Meets somebody header (some claims) = IsCaller header claims
  Meets administrator header none = ⊥
  Meets administrator header (some claims) =
      IsCaller header claims × (str_eq claims.role "admin" ≡ true)

  protected_caller :
      (header : String) (caller : Option Claims) (d : Decision Claims)
      → require_auth c secret now header ≡ d
      → known d ≡ goes_on caller
      → Meets somebody header caller
  protected_caller header caller (aborts code text) e h = ground arith
  protected_caller header none (goes_on claims) e h = ground arith
  protected_caller header (some claims') (goes_on claims) e h =
      (require_auth_iff c secret now header claims').0 (ground arith)

  admin_caller :
      (header : String) (caller : Option Claims) (d : Decision Claims)
      → require_auth c secret now header ≡ d
      → also_admin d ≡ goes_on caller
      → Meets administrator header caller
  unfolding require_admin
  admin_caller header none (aborts code text) e h = ground arith
  admin_caller header (some claims') (aborts code text) e h = ground arith
  admin_caller header none (goes_on claims) e h = ground arith
  admin_caller header (some claims') (goes_on claims) e h =
      ((require_auth_iff c secret now header claims').0 (ground arith), ground arith)

  through_guard :
      (g : Guard) (header : String) (caller : Option Claims)
      → through c secret now g header ≡ goes_on caller
      → Meets (need_of g) header caller
  through_guard unguarded header caller h = tt
  through_guard protected header caller h =
      protected_caller header caller (require_auth c secret now header) refl h
  through_guard admin header caller h =
      admin_caller header caller (require_auth c secret now header) refl h

  -- A request reaches the handler of a route only with what the route asks of its caller: for reserving,
  -- buying, cancelling and one's own bookings the claims of a valid token, for creating venues and events
  -- and for listing and changing users those of a valid token of an administrator.
  pub admit-Meets :
      (r : Route) (header : String) (caller : Option Claims)
      → admit c secret now r header ≡ goes_on caller
      → Meets (needs r) header caller
  unfolding admit
  admit-Meets post_register header caller h = tt
  admit-Meets post_login header caller h = tt
  admit-Meets get_events header caller h = tt
  admit-Meets get_event header caller h = tt
  admit-Meets get_event_seats header caller h = tt
  admit-Meets get_me header caller h = tt
  admit-Meets get_users header caller h = through_guard admin header caller h
  admit-Meets post_promote header caller h = through_guard admin header caller h
  admit-Meets post_demote header caller h = through_guard admin header caller h
  admit-Meets get_queue_metrics header caller h = tt
  admit-Meets post_venue header caller h = through_guard admin header caller h
  admit-Meets get_venues header caller h = tt
  admit-Meets get_venue header caller h = tt
  admit-Meets post_event header caller h = through_guard admin header caller h
  admit-Meets post_reserve header caller h = through_guard protected header caller h
  admit-Meets post_bulk_reserve header caller h = through_guard protected header caller h
  admit-Meets post_purchase header caller h = through_guard protected header caller h
  admit-Meets get_my_bookings header caller h = through_guard protected header caller h
  admit-Meets get_job header caller h = tt
  admit-Meets get_booking header caller h = through_guard protected header caller h
  admit-Meets delete_booking header caller h = through_guard protected header caller h
  admit-Meets get_ws header caller h = tt
