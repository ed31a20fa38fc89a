-- ===== src/Repository/Seats/Filled.antt =====
-- internal/repository/seat_repository.go: CreateBulkSeats fills an event with seats, where the database
-- answers and other clients are idle.
use ticket_master.Prelude.{
  ℕ, zero, suc, ◌+◌, ◌≤◌, ◌<◌, ◌≡◌, refl, String, true, false, none, some, arith, eq_iff, str_eq,
  ==_refl, Bool-cases, inl, inr,
}
use native.Mathlib.Decide.{ℕ_discrete}
use ticket_master.Table.{find}
use ticket_master.Model.{Db, Event, Seat, is_available, get_event, get_seat}
use ticket_master.Exec.{Env, World, pure, time_now, uuid_new}
use ticket_master.Exec.Returns.{
  Returns, IsReliable, Returns-mono, bind_returns, catch_returns, statement_returns, IsIdle,
  idle_transaction_returns,
}
use ticket_master.Repository.Statements.Returns.{select_returns}
use ticket_master.Repository.Reserve.{seat_of}
use ticket_master.Repository.SeatNumber.{format_seat_number}
use ticket_master.Repository.SeatNumber.Distinct.{format_seat_number-injective}
use ticket_master.Repository.Seats.{
  add_seat, insert_seat, new_seat, insert_seats, prepare, create_bulk_seats,
}

-- The event has a seat under the number of its j-th seat, and it is available.
abbrev pub Offered : ℕ → ℕ → Db → Type 0
Offered event j db =
    (s : Seat) × (find (seat_of event (format_seat_number j)) db.seats ≡ some s)
    × (is_available s.status ≡ true)

-- Each call gets a uuid of its own.
abbrev pub IsFresh : Env → Type 0
IsFresh env = (m n : ℕ) → env.uuid m ≡ env.uuid n → m ≡ n

add_seat-Offered :
    (event j : ℕ) (s : Seat) (db : Db)
    → is_available s.status ≡ true
    → Offered event j db
    → Offered event j (add_seat s db)
add_seat-Offered event j s db a (r, e, h) =
    elim (Bool-cases (seat_of event (format_seat_number j) s)) [
      | inl here ↦ (s, rw here refl, a)
      | inr elsewhere ↦ (r, rw elsewhere e, h)
    ]

new_seat-Offered :
    (event i id now : ℕ) (db : Db)
    → Offered event i (add_seat (new_seat id event (format_seat_number i) now) db)
new_seat-Offered event i id now db =
    let number = format_seat_number i in
    (new_seat id event number now, rw (==_refl event, (eq_iff number number).1 refl) refl, refl)

numbers_differ :
    (i j : ℕ) → 1 ≤ i → i < j → str_eq (format_seat_number i) (format_seat_number j) ≡ false
numbers_differ i j h k = elim (Bool-cases (str_eq (format_seat_number i) (format_seat_number j))) [
  | inl same ↦ absurd (
      omega (
        arith,
        format_seat_number-injective i j h (omega arith)
            ((eq_iff (format_seat_number i) (format_seat_number j)).0 same),
      ))
  | inr differ ↦ differ
]

other_number :
    (event i j id now : ℕ) (db : Db)
    → 1 ≤ i
    → i < j
    → find (seat_of event (format_seat_number j)) db.seats ≡ none
    → find
        (seat_of event (format_seat_number j))
        (add_seat (new_seat id event (format_seat_number i) now) db).seats
      ≡ none
other_number event i j id now db h k e = ground (arith, numbers_differ i j h k)

-- Seats of the event may be added from the i-th on, from the n-th call on.
pub record Room (env : Env) (event i n : ℕ) (db : Db) : Type 0 where
  pub ids : (m : ℕ) → n ≤ m → get_seat (env.uuid m) db ≡ none
  pub numbers : (j : ℕ) → i ≤ j → find (seat_of event (format_seat_number j)) db.seats ≡ none

-- What a run of the loop leaves behind.
pub record Filled (event i left : ℕ) (old db : Db) : Type 0 where
  pub same_events : db.events ≡ old.events
  pub still : (j : ℕ) → Offered event j old → Offered event j db
  pub offers : (j : ℕ) → i ≤ j → j < i + left → Offered event j db

module _ (env : Env) (reliable : IsReliable env) where
  insert_seat_returns :
      (w : World) (s : Seat) (e : Event) (Q : Unit {0} → World → Type 0)
      → get_event s.event_id w.db ≡ some e
      → get_seat s.id w.db ≡ none
      → find (seat_of s.event_id s.seat_number) w.db.seats ≡ none
      → Q tt (record w { db = add_seat s w.db; calls = suc w.calls })
      → Returns (insert_seat s env w) Q
  unfolding insert_seat
  insert_seat_returns w s e Q f g h q =
      catch_returns _ _ env w Q (statement_returns _ env w Q tt _ reliable (rw (f, g, h) refl) q)

  add_seat-Room :
      (event i n now : ℕ) (db : Db)
      → IsFresh env
      → 1 ≤ i
      → Room env event i n db
      → Room env event
          (i + 1)
          (suc (suc (suc n)))
          (add_seat (new_seat (env.uuid n) event (format_seat_number i) now) db)
  add_seat-Room event i n now db fresh h r = record {
    ids = λ m k. ground (arith, r.ids m, fresh n m);
    numbers = λ j k.
        other_number event i j (env.uuid n) now db h (omega arith) (r.numbers j (omega arith));
  }

  add_seat-Filled :
      (event i left id now : ℕ) (old db : Db)
      → Filled event (i + 1) left (add_seat (new_seat id event (format_seat_number i) now) old) db
      → Filled event i (suc left) old db
  add_seat-Filled event i left id now old db f = record {
    same_events = f.same_events;
    still = λ j o. f.still j (add_seat-Offered event j _ old refl o);
    offers = λ j h k. elim (ℕ_discrete i j) [
      | yes same ↦ f.still j (rw same (new_seat-Offered event j id now old))
      | no differ ↦ f.offers j (ground arith) (omega arith)
    ];
  }

  insert_seats_returns :
      (left i : ℕ) (w : World) (event : ℕ) (e : Event)
      → IsFresh env
      → get_event event w.db ≡ some e
      → 1 ≤ i
      → Room env event i w.calls w.db
      → Returns (insert_seats event i left env w) (λ _ w'. Filled event i left w.db w'.db)
  unfolding insert_seats pure uuid_new time_now
  insert_seats_returns zero i w event e fresh g h r = record {
    same_events = refl;
    still = λ j o. o;
    offers = λ j k l. absurd (omega arith);
  }
  insert_seats_returns (suc left) i w event e fresh g h r =
      let s = new_seat (env.uuid w.calls) event (format_seat_number i) (env.clock (suc w.calls)) in
      bind_returns _ _ env w _ (
        bind_returns _ _ env _ _ (
          bind_returns _ _ env _ _ (
            insert_seat_returns _ s e _ g (r.ids w.calls (omega arith)) (r.numbers i (omega arith))
              (Returns-mono _ _ _
                (insert_seats_returns left (i + 1) _ event e fresh g (omega arith)
                  (add_seat-Room event i w.calls _ w.db fresh h r))
                λ _ w'. add_seat-Filled event i left (env.uuid w.calls) _ w.db w'.db))))

  pub new_Room :
      {event n : ℕ} {db : Db}
      → ((m : ℕ) → get_seat (env.uuid m) db ≡ none)
      → ((number : String) → find (seat_of event number) db.seats ≡ none)
      → Room env event 1 n db
  new_Room ns nn = record { ids = λ m _. ns m; numbers = λ j _. nn (format_seat_number j) }

  later_Room : {event i n : ℕ} {db : Db} → Room env event i n db → Room env event i (suc (suc n)) db
  later_Room r = record { ids = λ m h. r.ids m (omega arith); numbers = r.numbers }

  pub create_bulk_seats_returns :
      (w : World) (event total : ℕ) (e : Event)
      → IsFresh env
      → IsIdle env
      → get_event event w.db ≡ some e
      → Room env event 1 w.calls w.db
      → Returns (create_bulk_seats event total env w) (λ _ w'. Filled event 1 total w.db w'.db)
  unfolding create_bulk_seats prepare
  create_bulk_seats_returns w event total e fresh idle g r =
      idle_transaction_returns _ env w (λ _ db. Filled event 1 total w.db db) reliable idle
        (bind_returns _ _ env _ _ (
          select_returns env _ (λ _ _. some tt) tt _ reliable refl
            (insert_seats_returns total 1 _ event e fresh g (omega arith) (later_Room r))))
