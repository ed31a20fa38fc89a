-- ===== src/Repository/Statements/Rules.antt =====
-- What the shared statements ensure.
use ticket_master.Prelude.{ℕ, suc, ◌≡◌, refl, Bool, true, false, Option, none, some, List, arith}
use ticket_master.Table.{modify, guarded, update_inversion, written-update}
use ticket_master.Model.{Db, Booking, Seat, Event, get_booking, get_seat, get_event}
use ticket_master.Exec.{
  Exec, Env, World, Error, booking_not_found, raise, catch, pure, select, selected, tick,
}
use ticket_master.Exec.Rules.{Ensures, catch_rule, statement_rule, bind_rule}
use ticket_master.Repository.Statements.{
  with_bookings, with_seats, with_events, stored, require, missing_as, update_booking, update_seat,
  set_seat, update_event, return_seat, find_booking_for_update, lock_seat_by_id, lock_error,
  apply_booking_nullables, give_back,
}

-- The state after a statement that left the tables at `db`.
abbrev pub at_db : World → Db → World
at_db w db = record w { db = db; calls = suc w.calls }

module _ (env : Env) (w : World) where
  pub require_rule :
      (test : Bool) (e : Error) (Q : Unit {0} → World → Type 0)
      → (test ≡ true → Q tt w)
      → Ensures (require test e env w) Q
  unfolding require pure raise
  require_rule true e Q k = k refl
  require_rule false e Q k = tt

  -- A handler that only exchanges the error changes nothing about a normal return.
  pub raised_rule {ℓ} :
      {A : Type ℓ} (m : Exec A) (h : Error → Error) (Q : A → World → Type 0)
      → Ensures (m env w) Q
      → Ensures (catch m (λ e. raise (h e)) env w) Q
  unfolding raise
  raised_rule m h Q k = catch_rule m (λ e. raise (h e)) env w Q k (λ e w'. tt)

  selected_inversion :
      {A : Type 0} (o : Option A) (a : A) (db db' : Db)
      → selected db o ≡ some (a, db')
      → (o ≡ some a) × (db' ≡ db)
  selected_inversion none a db db' h = ground arith
  selected_inversion (some x) a db db' h = (ground arith, ground arith)

  stored_inversion :
      {A : Type 0} (wrap : List A → Db) (o : Option (A × List A)) (a : A) (db' : Db)
      → stored wrap o ≡ some (a, db')
      → (rows : List A) × (o ≡ some (a, rows)) × (db' ≡ wrap rows)
  stored_inversion wrap none a db' h = ground arith
  stored_inversion wrap (some (x, rows)) a db' h = (rows, ground arith, ground arith)

  pub select_rule :
      {A : Type 0} (q : ℕ → Db → Option A) (Q : A → World → Type 0)
      → ((a : A) → q w.tx_time w.db ≡ some a → Q a (tick w))
      → Ensures (select q env w) Q
  select_rule q Q k =
      statement_rule (λ t db. selected db (q t db)) env w Q
        λ a db e.
          let (found, same) = selected_inversion (q w.tx_time w.db) a w.db db e in
          rw same (k a found)

  pub update_booking_rule :
      (id : ℕ) (guard : ℕ → Booking → Bool) (f : ℕ → Booking → Booking)
      (Q : Booking → World → Type 0)
      → ((b : Booking)
          → get_booking id w.db ≡ some b
          → guard w.tx_time b ≡ true
          → Q
              (f w.tx_time b)
              (at_db w (with_bookings w.db (modify (λ b. b.id) id (f w.tx_time) w.db.bookings))))
      → Ensures (update_booking id guard f env w) Q
  unfolding update_booking
  update_booking_rule id guard f Q k = statement_rule _ env w Q λ a db e.
      let (rows, updated, stored_at) = stored_inversion (with_bookings w.db) _ a db e in
      let (b, found, holds, row, table) =
        update_inversion (λ b. b.id) id (guard w.tx_time) (f w.tx_time) w.db.bookings updated in
      rw (stored_at, row, table) (k b found holds)

  pub update_seat_rule :
      (id : ℕ) (guard : Seat → Bool) (f : ℕ → Seat → Seat) (Q : Seat → World → Type 0)
      → ((s : Seat)
          → get_seat id w.db ≡ some s
          → guard s ≡ true
          → Q
              (f w.tx_time s)
              (at_db w (with_seats w.db (modify (λ s. s.id) id (f w.tx_time) w.db.seats))))
      → Ensures (update_seat id guard f env w) Q
  unfolding update_seat
  update_seat_rule id guard f Q k = statement_rule _ env w Q λ a db e.
      let (rows, updated, stored_at) = stored_inversion (with_seats w.db) _ a db e in
      let (s, found, holds, row, table) =
        update_inversion (λ s. s.id) id guard (f w.tx_time) w.db.seats updated in
      rw (stored_at, row, table) (k s found holds)

  pub update_event_rule :
      (id : ℕ) (guard : Event → Bool) (f : ℕ → Event → Event) (Q : Event → World → Type 0)
      → ((e : Event)
          → get_event id w.db ≡ some e
          → guard e ≡ true
          → Q
              (f w.tx_time e)
              (at_db w (with_events w.db (modify (λ e. e.id) id (f w.tx_time) w.db.events))))
      → Ensures (update_event id guard f env w) Q
  unfolding update_event
  update_event_rule id guard f Q k = statement_rule _ env w Q λ a db e.
      let (rows, updated, stored_at) = stored_inversion (with_events w.db) _ a db e in
      let (s, found, holds, row, table) =
        update_inversion (λ e. e.id) id guard (f w.tx_time) w.db.events updated in
      rw (stored_at, row, table) (k s found holds)

  pub set_seat_rule :
      (id : ℕ) (guard : Seat → Bool) (f : ℕ → Seat → Seat) (Q : Unit {0} → World → Type 0)
      → Q tt (
          at_db w
            (with_seats w.db (modify (λ s. s.id) id (guarded guard (f w.tx_time)) w.db.seats)))
      → Ensures (set_seat id guard f env w) Q
  unfolding set_seat
  set_seat_rule id guard f Q k = statement_rule _ env w Q λ a db e.
      let same : db
          ≡ with_seats w.db (modify (λ s. s.id) id (guarded guard (f w.tx_time)) w.db.seats) =
        cc (written-update (λ s. s.id) id guard (f w.tx_time) w.db.seats) in
      rw same k

  pub return_seat_rule :
      (id : ℕ) (Q : Unit {0} → World → Type 0)
      → Q tt (at_db w (with_events w.db (modify (λ e. e.id) id (give_back w.tx_time) w.db.events)))
      → Ensures (return_seat id env w) Q
  unfolding return_seat
  return_seat_rule id Q k = statement_rule _ env w Q λ a db e.
      let same : db ≡ with_events w.db (modify (λ e. e.id) id (give_back w.tx_time) w.db.events) =
        cc in
      rw same k

  pub find_booking_rule :
      (id : ℕ) (Q : Booking → World → Type 0)
      → ((b : Booking) → get_booking id w.db ≡ some b → Q (apply_booking_nullables b) (tick w))
      → Ensures (find_booking_for_update id env w) Q
  unfolding find_booking_for_update pure
  find_booking_rule id Q k =
      bind_rule _ _ env w Q (
        raised_rule _ (missing_as booking_not_found) _
          (select_rule (λ _ db. get_booking id db) _ k))

  pub lock_seat_rule :
      (id : ℕ) (Q : Seat → World → Type 0)
      → ((s : Seat) → get_seat id w.db ≡ some s → Q s (tick w))
      → Ensures (lock_seat_by_id id env w) Q
  unfolding lock_seat_by_id
  lock_seat_rule id Q k = raised_rule _ lock_error _ (select_rule (λ _ db. get_seat id db) _ k)
