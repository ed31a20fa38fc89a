-- ===== src/Repository/Statements/Returns.antt =====
-- When the shared statements return, where the database answers.
use ticket_master.Prelude.{ℕ, ◌≡◌, ap, refl, Bool, true, Option, some, List}
use ticket_master.Table.{modify, update_hit, written-update}
use ticket_master.Model.{Db, Booking, Seat, Event, get_booking, get_event}
use ticket_master.Exec.{Env, World, pure, tick, selected, select, Error}
use ticket_master.Exec.Returns.{Returns, IsReliable, bind_returns, catch_returns, statement_returns}
use ticket_master.Repository.Statements.{
  with_bookings, with_seats, with_events, stored, require, update_booking, set_seat, update_event,
  return_seat, find_booking_for_update,
}
use ticket_master.Repository.Statements.Rules.{at_db}

module _ (env : Env) (w : World) where
  pub require_returns :
      (test : Bool) (e : Error) (Q : Unit {0} → World → Type 0)
      → test ≡ true
      → Q tt w
      → Returns (require test e env w) Q
  unfolding require pure
  require_returns test e Q t h = rw t h

  pub select_returns :
      {A : Type 0} (q : ℕ → Db → Option A) (a : A) (Q : A → World → Type 0)
      → IsReliable env
      → q w.tx_time w.db ≡ some a
      → Q a (tick w)
      → Returns (select q env w) Q
  select_returns q a Q f e h =
      statement_returns (λ t db. selected db (q t db)) env w Q a w.db f (rw e refl) h

  pub find_booking_returns :
      (id : ℕ) (b : Booking)
      → IsReliable env
      → get_booking id w.db ≡ some b
      → (Q : Booking → World → Type 0)
      → ((b' : Booking) → b'.status ≡ b.status → b'.expires_at ≡ b.expires_at → Q b' (tick w))
      → Returns (find_booking_for_update id env w) Q
  unfolding find_booking_for_update pure
  find_booking_returns id b f e Q h = bind_returns _ _ env w Q (
      catch_returns _ _ env w _
        (select_returns (λ _ db. get_booking id db) b _ f e (h _ refl refl)))

  pub update_booking_returns :
      (id : ℕ) (guard : ℕ → Booking → Bool) (g : ℕ → Booking → Booking) (b : Booking)
      (Q : Booking → World → Type 0)
      → IsReliable env
      → get_booking id w.db ≡ some b
      → guard w.tx_time b ≡ true
      → ((rows : List Booking) → Q (g w.tx_time b) (at_db w (with_bookings w.db rows)))
      → Returns (update_booking id guard g env w) Q
  unfolding update_booking
  update_booking_returns id guard g b Q f e t h =
      statement_returns _ env w Q (g w.tx_time b) _ f
        (ap (stored (with_bookings w.db))
          (update_hit (λ b. b.id) id (guard w.tx_time) (g w.tx_time) w.db.bookings b e t))
        (h (modify (λ b. b.id) id (g w.tx_time) w.db.bookings))

  pub update_event_returns :
      (id : ℕ) (guard : Event → Bool) (g : ℕ → Event → Event) (e : Event)
      (Q : Event → World → Type 0)
      → IsReliable env
      → get_event id w.db ≡ some e
      → guard e ≡ true
      → ((rows : List Event) → Q (g w.tx_time e) (at_db w (with_events w.db rows)))
      → Returns (update_event id guard g env w) Q
  unfolding update_event
  update_event_returns id guard g e Q f found t h =
      statement_returns _ env w Q (g w.tx_time e) _ f
        (ap (stored (with_events w.db))
          (update_hit (λ e. e.id) id guard (g w.tx_time) w.db.events e found t))
        (h (modify (λ e. e.id) id (g w.tx_time) w.db.events))

  -- The same, with the rows that are stored.
  pub update_event_stores :
      (id : ℕ) (guard : Event → Bool) (g : ℕ → Event → Event) (e : Event)
      (Q : Event → World → Type 0)
      → IsReliable env
      → get_event id w.db ≡ some e
      → guard e ≡ true
      → Q
          (g w.tx_time e)
          (at_db w (with_events w.db (modify (λ e. e.id) id (g w.tx_time) w.db.events)))
      → Returns (update_event id guard g env w) Q
  unfolding update_event
  update_event_stores id guard g e Q f found t h =
      statement_returns _ env w Q (g w.tx_time e) _ f
        (ap (stored (with_events w.db))
          (update_hit (λ e. e.id) id guard (g w.tx_time) w.db.events e found t))
        h

  pub set_seat_stores :
      (id : ℕ) (g : ℕ → Seat → Seat) (Q : Unit {0} → World → Type 0)
      → IsReliable env
      → Q tt (at_db w (with_seats w.db (modify (λ s. s.id) id (g w.tx_time) w.db.seats)))
      → Returns (set_seat id (λ _. true) g env w) Q
  unfolding set_seat
  set_seat_stores id g Q f h =
      statement_returns _ env w Q tt _ f
        (rw (written-update (λ s. s.id) id (λ _. true) (g w.tx_time) w.db.seats) refl) h

  pub set_seat_returns :
      (id : ℕ) (guard : Seat → Bool) (g : ℕ → Seat → Seat) (Q : Unit {0} → World → Type 0)
      → IsReliable env
      → ((rows : List Seat) → Q tt (at_db w (with_seats w.db rows)))
      → Returns (set_seat id guard g env w) Q
  unfolding set_seat
  set_seat_returns id guard g Q f h = statement_returns _ env w Q tt _ f refl (h _)

  pub return_seat_returns :
      (id : ℕ) (Q : Unit {0} → World → Type 0)
      → IsReliable env
      → ((rows : List Event) → Q tt (at_db w (with_events w.db rows)))
      → Returns (return_seat id env w) Q
  unfolding return_seat
  return_seat_returns id Q f h = statement_returns _ env w Q tt _ f refl (h _)
