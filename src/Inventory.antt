-- ===== src/Inventory.antt =====
-- The contract of internal/repository's transactions: which changes of the tables one transaction
-- may make, in one step, and what is reached by any number of them.
pub mod Invariant
pub mod Preserves
pub mod Safety
pub mod Emails
use ticket_master.Prelude.{ℕ, ◌≤◌, ◌≡◌, String, Bool, true, false, none, some, ◌∷◌}
use ticket_master.Table.{find, modify, guarded, written}
use ticket_master.Model.{
  Db, Booking, Seat, Event, BookingStatus, SeatStatus, available, is_reserved, is_purchased,
  is_active, is_available, is_held, is_sold, get_booking, get_seat, get_event, Venue, User,
  UserRole, get_venue, get_user,
}
use ticket_master.Repository.Statements.{take_one, give_back, has_available, free_seat}
use ticket_master.Repository.Reserve.{seat_of, hold_seat, new_booking}
use ticket_master.Repository.Venues.{add_venue}
use ticket_master.Repository.Users.{add_user, has_email, with_users, update_role}
use ticket_master.Repository.Events.{add_event}
use ticket_master.Repository.Seats.{add_seat}
use ticket_master.Repository.Purchase.{still_reserved, purchase, sell_seat, revert}
use ticket_master.Repository.Release.{extend, hold_until, release, takes_intent, store_intent}

abbrev pub modify_booking : ℕ → (Booking → Booking) → Db → Db
modify_booking k f db = record db { bookings = modify (λ b. b.id) k f db.bookings }

abbrev pub modify_seat : ℕ → (Seat → Seat) → Db → Db
modify_seat k f db = record db { seats = modify (λ s. s.id) k f db.seats }

abbrev pub modify_event : ℕ → (Event → Event) → Db → Db
modify_event k f db = record db { events = modify (λ e. e.id) k f db.events }

abbrev pub add_booking : Booking → Db → Db
add_booking b db = record db { bookings = b ∷ db.bookings }

pub data Step (db : Db) : Db → Type 0 where
  reserves :
      (user event id until now t : ℕ) (number : String) (e : Event) (s : Seat)
      → get_event event db ≡ some e
      → has_available e ≡ true
      → find (seat_of event number) db.seats ≡ some s
      → is_available s.status ≡ true
      → get_booking id db ≡ none
      → Step db (
          add_booking
            (new_booking id user event s.id e.ticket_price now until)
            (modify_seat s.id (hold_seat until t) (modify_event event (take_one t) db)))
  extends :
      (id until t : ℕ) (b : Booking) (s : Seat)
      → get_booking id db ≡ some b
      → is_reserved b.status ≡ true
      → b.expires_at ≤ until
      → get_seat b.seat_id db ≡ some s
      → is_held s.status ≡ true
      → Step db (modify_seat b.seat_id (hold_until until t) (modify_booking id (extend until t) db))
  purchases :
      (id t : ℕ) (b : Booking)
      → get_booking id db ≡ some b
      → still_reserved t b ≡ true
      → Step db (modify_seat b.seat_id (sell_seat t) (modify_booking id (purchase t) db))
  reverts :
      (id t : ℕ) (b : Booking)
      → get_booking id db ≡ some b
      → is_purchased b.status ≡ true
      → Step db (
          modify_event b.event_id (give_back t) (
            modify_seat b.seat_id
              (guarded (λ s. is_sold s.status) (free_seat t))
              (modify_booking id (revert t) db)))
  releases :
      (id t : ℕ) (status : BookingStatus) (b : Booking)
      → is_active status ≡ false
      → get_booking id db ≡ some b
      → is_reserved b.status ≡ true
      → Step db (
          modify_event b.event_id
            (give_back t)
            (modify_seat b.seat_id (free_seat t) (modify_booking id (release status t) db)))
  stores_intent :
      (id t : ℕ) (intent : String) (b : Booking)
      → get_booking id db ≡ some b
      → takes_intent t b ≡ true
      → Step db (modify_booking id (store_intent intent t) db)
  adds_venue : (v : Venue) → get_venue v.id db ≡ none → Step db (add_venue v db)
  adds_user :
      (u : User)
      → get_user u.id db ≡ none
      → find (has_email u.email) db.users ≡ none
      → Step db (add_user u db)
  changes_role :
      (id now : ℕ) (role : UserRole)
      → Step db (with_users db (written db.users (update_role id role now db.users)))
  adds_event :
      (e : Event)
      → get_event e.id db ≡ none
      → e.available_seats ≡ e.total_seats
      → Step db (add_event e db)
  adds_seat :
      (s : Seat)
      → get_seat s.id db ≡ none
      → find (seat_of s.event_id s.seat_number) db.seats ≡ none
      → s.status ≡ available
      → Step db (add_seat s db)

pub data Reach (db : Db) : Db → Type 0 where
  here : Reach db db
  next : {u v : Db} → Reach db u → Step u v → Reach db v
