-- ===== src/Tests/Fixtures.antt =====
-- An event of two seats, a database that answers, and a service without collaborators.
use ticket_master.Prelude.{ℕ, String, true, ◌+◌, none, some, [], ◌∷◌, arith, refl}
use ticket_master.Model.{
  User, Venue, role_user, role_admin, Booking, Event, Seat, Db, available, held, reserved,
}
use ticket_master.Effects.{no_effects}
use ticket_master.Exec.{Env, World}
use ticket_master.Exec.Returns.{IsReliable, IsIdle}
use ticket_master.Service.{Service}
use ticket_master.Repository.Refines.{IsLawful}
use ticket_master.Inventory.{here}
use ticket_master.Inventory.Invariant.{Inv}

abbrev pub concert : Event
concert = record {
  id = 1;
  venue_id = 5;
  title = "Concert";
  description = "";
  event_date = 9000;
  ticket_price = 2500;
  total_seats = 2;
  available_seats = 2;
  created_by = 3;
  created_at = 0;
  updated_at = 0;
}

abbrev pub seat_at : ℕ → String → Seat
seat_at id number = record {
  id = id;
  event_id = 1;
  seat_number = number;
  row_number = "A";
  section = "Main";
  status = available;
  reserved_at = none;
  reserved_until = none;
  created_at = 0;
}

abbrev pub hall : Venue
hall = record {
  id = 5;
  name = "Hall";
  address = "";
  capacity = 100;
  seat_layout = "";
  created_at = 0;
  updated_at = 0;
}

abbrev pub organiser : User
organiser = record {
  id = 3;
  email = "org@example.com";
  password_hash = "";
  full_name = "Organiser";
  role = role_admin;
  created_at = 0;
  updated_at = 0;
}

abbrev pub customer : ℕ → String → User
customer id email = record organiser { id = id; email = email; role = role_user }

abbrev pub opened : Db
opened = record {
  users = customer 7 "g@example.com" ∷ customer 8 "h@example.com" ∷ [];
  venues = [];
  events = concert ∷ [];
  seats = seat_at 11 "A1" ∷ seat_at 12 "A2" ∷ [];
  bookings = [];
}

abbrev pub calm : Env
calm = record {
  clock = λ n. 100 + n;
  db_clock = λ n. 100 + n;
  uuid = λ n. 1000 + n;
  fault = λ _. none;
  others = λ _ db. db;
  replica = λ _ db. db;
}

abbrev pub at_open : World
at_open = record { db = opened; effects = no_effects; tx_time = 0; calls = 0 }

abbrev pub plain_service : Service
plain_service = record {
  has_expiry_queue = true;
  has_cache = true;
  has_publisher = true;
  has_read_routing = true;
  payments = none;
  reservation_timeout = 600;
}

-- User 7 holds seat A1.
abbrev pub booking_of_7 : Booking
booking_of_7 = record {
  id = 1008;
  user_id = 7;
  event_id = 1;
  seat_id = 11;
  status = reserved;
  total_amount = 2500;
  reserved_at = 107;
  purchased_at = none;
  payment_intent_id = none;
  expires_at = 700;
  created_at = 107;
  updated_at = 107;
}

abbrev pub one_held : World
one_held = record at_open {
  db = record opened {
    events = (record concert { available_seats = 1 }) ∷ [];
    seats =
        (record (seat_at 11 "A1") {
          status = held;
          reserved_at = some 101;
          reserved_until = some 700;
        })
        ∷ seat_at 12 "A2"
        ∷ [];
    bookings = booking_of_7 ∷ [];
  };
}

-- Past every deadline.
abbrev pub late : Env
late = record calm { clock = λ _. 800; db_clock = λ _. 800 }

pub calm-IsLawful : IsLawful calm
calm-IsLawful n db = here

pub calm-IsReliable : IsReliable calm
calm-IsReliable n = refl

pub calm-IsIdle : IsIdle calm
calm-IsIdle = record { alone = λ n db. refl; in_sync = λ n db. refl }

pub opened-Inv : Inv opened
opened-Inv = record {
  seat_ids = (refl, (refl, tt));
  holds = λ k. ground arith;
  sales = λ k. ground arith;
  stock = λ k. ground arith;
}
