-- ===== src/Inventory/Preserves.antt =====
-- Every step keeps the tables in agreement.
use ticket_master.Prelude.{ℕ, ◌≡◌, refl, true, false, String, some, none, List, arith}
use ticket_master.Table.{count-modify, get-modify_any, modify-Distinct, get-find, guarded, find}
use ticket_master.Model.{
  Db, Booking, Seat, Event, BookingStatus, available, is_reserved, is_purchased, is_active, is_held,
  is_sold, is_available, Venue, User, get_booking, get_seat, get_event,
}
use ticket_master.Repository.Events.{add_event}
use ticket_master.Repository.Seats.{add_seat}
use ticket_master.Repository.Statements.{take_one, give_back, has_available, free_seat}
use ticket_master.Repository.Reserve.{seat_of, hold_seat, new_booking}
use ticket_master.Repository.Purchase.{still_reserved, purchase, sell_seat, revert}
use ticket_master.Repository.Release.{extend, hold_until, release, store_intent}
use ticket_master.Inventory.{
  Step, reserves, extends, purchases, reverts, releases, stores_intent, adds_event, adds_seat,
  adds_venue, adds_user, changes_role, Reach, here, next, modify_booking, modify_seat, modify_event,
  add_booking,
}
use ticket_master.Inventory.Invariant.{Inv, on_seat, of_event}

module _ {db : Db} (v : Inv db) where
  purchases-Inv :
      (id t : ℕ) (b : Booking)
      → get_booking id db ≡ some b
      → still_reserved t b ≡ true
      → Inv (modify_seat b.seat_id (sell_seat t) (modify_booking id (purchase t) db))
  purchases-Inv id t b e h = record {
    seat_ids = modify-Distinct (λ s. s.id) (sell_seat t) b.seat_id db.seats (λ s. refl) v.seat_ids;
    holds = λ k. ground (
      arith,
      v.holds k,
      v.sales k,
      count-modify (λ b. b.id) (on_seat is_reserved k) (purchase t) id db.bookings b,
      get-modify_any (λ s. s.id) (sell_seat t) b.seat_id k db.seats (λ s. refl),
    );
    sales = λ k. ground (
      arith,
      v.holds k,
      v.sales k,
      count-modify (λ b. b.id) (on_seat is_reserved k) (purchase t) id db.bookings b,
      count-modify (λ b. b.id) (on_seat is_purchased k) (purchase t) id db.bookings b,
      get-modify_any (λ s. s.id) (sell_seat t) b.seat_id k db.seats (λ s. refl),
    );
    stock = λ k.
        ground
          (arith, v.stock k, count-modify (λ b. b.id) (of_event k) (purchase t) id db.bookings b);
  }

  extends-Inv :
      (id until t : ℕ) (b : Booking) (s : Seat)
      → get_booking id db ≡ some b
      → is_reserved b.status ≡ true
      → get_seat b.seat_id db ≡ some s
      → is_held s.status ≡ true
      → Inv (modify_seat b.seat_id (hold_until until t) (modify_booking id (extend until t) db))
  extends-Inv id until t b s e r g h = record {
    seat_ids =
        modify-Distinct (λ s. s.id) (hold_until until t) b.seat_id db.seats (λ s. refl) v.seat_ids;
    holds = λ k. ground (
      arith,
      v.holds k,
      count-modify (λ b. b.id) (on_seat is_reserved k) (extend until t) id db.bookings b,
      get-modify_any (λ s. s.id) (hold_until until t) b.seat_id k db.seats (λ s. refl),
    );
    sales = λ k. ground (
      arith,
      v.sales k,
      count-modify (λ b. b.id) (on_seat is_purchased k) (extend until t) id db.bookings b,
      get-modify_any (λ s. s.id) (hold_until until t) b.seat_id k db.seats (λ s. refl),
    );
    stock = λ k.
        ground (
          arith,
          v.stock k,
          count-modify (λ b. b.id) (of_event k) (extend until t) id db.bookings b,
        );
  }

  reverts-Inv :
      (id t : ℕ) (b : Booking)
      → get_booking id db ≡ some b
      → is_purchased b.status ≡ true
      → Inv (
          modify_event b.event_id (give_back t) (
            modify_seat b.seat_id
              (guarded (λ s. is_sold s.status) (free_seat t))
              (modify_booking id (revert t) db)))
  reverts-Inv id t b e h = record {
    seat_ids =
        modify-Distinct (λ s. s.id) (guarded (λ s. is_sold s.status) (free_seat t)) b.seat_id
          db.seats (λ s. ground arith) v.seat_ids;
    holds = λ k. ground (
      arith,
      v.holds k,
      v.sales k,
      count-modify (λ b. b.id) (on_seat is_reserved k) (revert t) id db.bookings b,
      get-modify_any (λ s. s.id) (guarded (λ s. is_sold s.status) (free_seat t)) b.seat_id k
          db.seats (λ s. ground arith),
    );
    sales = λ k. ground (
      arith,
      v.sales k,
      count-modify (λ b. b.id) (on_seat is_purchased k) (revert t) id db.bookings b,
      get-modify_any (λ s. s.id) (guarded (λ s. is_sold s.status) (free_seat t)) b.seat_id k
          db.seats (λ s. ground arith),
    );
    stock = λ k. ground (
      arith,
      v.stock k,
      count-modify (λ b. b.id) (of_event k) (revert t) id db.bookings b,
      get-modify_any (λ e. e.id) (give_back t) b.event_id k db.events (λ e. refl),
    );
  }

  releases-Inv :
      (id t : ℕ) (status : BookingStatus) (b : Booking)
      → is_active status ≡ false
      → get_booking id db ≡ some b
      → is_reserved b.status ≡ true
      → Inv (
          modify_event b.event_id
            (give_back t)
            (modify_seat b.seat_id (free_seat t) (modify_booking id (release status t) db)))
  releases-Inv id t status b n e h = record {
    seat_ids = modify-Distinct (λ s. s.id) (free_seat t) b.seat_id db.seats (λ s. refl) v.seat_ids;
    holds = λ k. ground (
      arith,
      v.holds k,
      count-modify (λ b. b.id) (on_seat is_reserved k) (release status t) id db.bookings b,
      get-modify_any (λ s. s.id) (free_seat t) b.seat_id k db.seats (λ s. refl),
    );
    sales = λ k. ground (
      arith,
      v.holds k,
      v.sales k,
      count-modify (λ b. b.id) (on_seat is_reserved k) (release status t) id db.bookings b,
      count-modify (λ b. b.id) (on_seat is_purchased k) (release status t) id db.bookings b,
      get-modify_any (λ s. s.id) (free_seat t) b.seat_id k db.seats (λ s. refl),
    );
    stock = λ k. ground (
      arith,
      v.stock k,
      count-modify (λ b. b.id) (of_event k) (release status t) id db.bookings b,
      get-modify_any (λ e. e.id) (give_back t) b.event_id k db.events (λ e. refl),
    );
  }

  stores_intent-Inv :
      (id t : ℕ) (intent : String) (b : Booking)
      → get_booking id db ≡ some b
      → Inv (modify_booking id (store_intent intent t) db)
  stores_intent-Inv id t intent b e = record {
    seat_ids = v.seat_ids;
    holds = λ k. ground (
      arith,
      v.holds k,
      count-modify (λ b. b.id) (on_seat is_reserved k) (store_intent intent t) id db.bookings b,
    );
    sales = λ k. ground (
      arith,
      v.sales k,
      count-modify (λ b. b.id) (on_seat is_purchased k) (store_intent intent t) id db.bookings b,
    );
    stock = λ k. ground (
      arith,
      v.stock k,
      count-modify (λ b. b.id) (of_event k) (store_intent intent t) id db.bookings b,
    );
  }

  reserves-Inv :
      (user event id until now t : ℕ) (number : String) (e : Event) (s : Seat)
      → get_event event db ≡ some e
      → has_available e ≡ true
      → find (seat_of event number) db.seats ≡ some s
      → is_available s.status ≡ true
      → Inv (
          add_booking
            (new_booking id user event s.id e.ticket_price now until)
            (modify_seat s.id (hold_seat until t) (modify_event event (take_one t) db)))
  reserves-Inv user event id until now t number e s ge ha fs av =
      let gs = get-find (λ s. s.id) (seat_of event number) db.seats s v.seat_ids fs in
      record {
        seat_ids =
            modify-Distinct (λ s. s.id) (hold_seat until t) s.id db.seats (λ s. refl) v.seat_ids;
        holds = λ k. ground (
          arith,
          gs,
          v.holds k,
          get-modify_any (λ s. s.id) (hold_seat until t) s.id k db.seats (λ s. refl),
        );
        sales = λ k. ground (
          arith,
          gs,
          v.sales k,
          get-modify_any (λ s. s.id) (hold_seat until t) s.id k db.seats (λ s. refl),
        );
        stock = λ k. ground (
          arith,
          v.stock k,
          get-modify_any (λ e. e.id) (take_one t) event k db.events (λ e. refl),
        );
      }

  -- Other venues and users.
  other_rows-Inv :
      (venues : List Venue) (users : List User) → Inv (record db { venues = venues; users = users })
  other_rows-Inv venues users = record {
    seat_ids = v.seat_ids;
    holds = v.holds;
    sales = v.sales;
    stock = v.stock;
  }

  adds_event-Inv :
      (e : Event)
      → get_event e.id db ≡ none
      → e.available_seats ≡ e.total_seats
      → Inv (add_event e db)
  adds_event-Inv e n a = record {
    seat_ids = v.seat_ids;
    holds = v.holds;
    sales = v.sales;
    stock = λ k. ground (arith, v.stock k);
  }

  adds_seat-Inv : (s : Seat) → get_seat s.id db ≡ none → s.status ≡ available → Inv (add_seat s db)
  adds_seat-Inv s n a = record {
    seat_ids = (n, v.seat_ids);
    holds = λ k. ground (arith, v.holds k);
    sales = λ k. ground (arith, v.sales k);
    stock = v.stock;
  }

-- A step keeps the tables in agreement.
pub Step-Inv : {db db' : Db} → Inv db → Step db db' → Inv db'
Step-Inv v (reserves user event id until now t number e s a b c d f) =
    reserves-Inv v user event id until now t number e s a b c d
Step-Inv v (extends id until t b s a c d e f) = extends-Inv v id until t b s a c e f
Step-Inv v (purchases id t b e h) = purchases-Inv v id t b e h
Step-Inv v (reverts id t b e h) = reverts-Inv v id t b e h
Step-Inv v (releases id t status b n e h) = releases-Inv v id t status b n e h
Step-Inv v (stores_intent id t intent b e h) = stores_intent-Inv v id t intent b e
Step-Inv v (adds_venue x n) = other_rows-Inv v _ _
Step-Inv v (adds_user u n m) = other_rows-Inv v _ _
Step-Inv v (changes_role id now role) = other_rows-Inv v _ _
Step-Inv v (adds_event e n a) = adds_event-Inv v e n a
Step-Inv v (adds_seat s n u a) = adds_seat-Inv v s n a

pub Reach-Inv : {db db' : Db} → Inv db → Reach db db' → Inv db'
Reach-Inv v here = v
Reach-Inv v (next r s) = Step-Inv (Reach-Inv v r) s

pub Reach-trans : {a b c : Db} → Reach a b → Reach b c → Reach a c
Reach-trans r here = r
Reach-trans r (next q s) = next (Reach-trans r q) s
