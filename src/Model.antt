-- ===== src/Model.antt =====
-- internal/models: the rows of the tables, and the database that holds them. A uuid is a number that
-- is only compared, with 0 for `uuid.Nil`; a time counts nanoseconds; DECIMAL(10, 2) counts cents.
use ticket_master.Prelude.{ℕ, String, Bool, true, false, Option, List}
use ticket_master.Table.{get}

pub data BookingStatus : Type 0 where
  reserved purchased cancelled expired : BookingStatus

pub data SeatStatus : Type 0 where
  available held sold : SeatStatus

pub record Booking : Type 0 where
  pub id : ℕ
  pub user_id : ℕ
  pub event_id : ℕ
  pub seat_id : ℕ
  pub status : BookingStatus
  pub total_amount : ℕ
  pub reserved_at : ℕ
  pub purchased_at : Option ℕ
  pub payment_intent_id : Option String
  pub expires_at : ℕ
  pub created_at : ℕ
  pub updated_at : ℕ

pub record Event : Type 0 where
  pub id : ℕ
  pub venue_id : ℕ
  pub title : String
  pub description : String
  pub event_date : ℕ
  pub ticket_price : ℕ
  pub total_seats : ℕ
  pub available_seats : ℕ
  pub created_by : ℕ
  pub created_at : ℕ
  pub updated_at : ℕ

pub record Seat : Type 0 where
  pub id : ℕ
  pub event_id : ℕ
  pub seat_number : String
  pub row_number : String
  pub section : String
  pub status : SeatStatus
  pub reserved_at : Option ℕ
  pub reserved_until : Option ℕ
  pub created_at : ℕ

pub data UserRole : Type 0 where
  role_user role_admin : UserRole

pub record User : Type 0 where
  pub id : ℕ
  pub email : String
  pub password_hash : String
  pub full_name : String
  pub role : UserRole
  pub created_at : ℕ
  pub updated_at : ℕ

-- The layout of the seats is the text of its JSON.
pub record Venue : Type 0 where
  pub id : ℕ
  pub name : String
  pub address : String
  pub capacity : ℕ
  pub seat_layout : String
  pub created_at : ℕ
  pub updated_at : ℕ

-- The tables.
pub record Db : Type 0 where
  pub users : List User
  pub venues : List Venue
  pub events : List Event
  pub seats : List Seat
  pub bookings : List Booking

abbrev pub is_reserved : BookingStatus → Bool
is_reserved reserved = true
is_reserved _ = false

abbrev pub is_purchased : BookingStatus → Bool
is_purchased purchased = true
is_purchased _ = false

-- A booking that holds its seat.
abbrev pub is_active : BookingStatus → Bool
is_active reserved = true
is_active purchased = true
is_active _ = false

abbrev pub is_available : SeatStatus → Bool
is_available available = true
is_available _ = false

abbrev pub is_held : SeatStatus → Bool
is_held held = true
is_held _ = false

abbrev pub is_sold : SeatStatus → Bool
is_sold sold = true
is_sold _ = false

abbrev pub is_admin : UserRole → Bool
is_admin role_admin = true
is_admin role_user = false

abbrev pub get_user : ℕ → Db → Option User
get_user k db = get (λ u. u.id) k db.users

abbrev pub get_venue : ℕ → Db → Option Venue
get_venue k db = get (λ v. v.id) k db.venues

abbrev pub get_booking : ℕ → Db → Option Booking
get_booking k db = get (λ b. b.id) k db.bookings

abbrev pub get_event : ℕ → Db → Option Event
get_event k db = get (λ e. e.id) k db.events

abbrev pub get_seat : ℕ → Db → Option Seat
get_seat k db = get (λ s. s.id) k db.seats
