-- ===== src/Repository/Refines/Reserve.antt =====
-- CreateReservation implements the step `reserves`.
use ticket_master.Prelude.{ℕ, ◌≡◌, refl, String, true, Option, none, some, ◌∷◌, arith}
use ticket_master.Table.{find, modify}
use ticket_master.Model.{
  Db, Booking, Seat, Event, is_available, is_reserved, get_booking, User, get_user, get_event,
  get_seat,
}
use ticket_master.Exec.{Env, World, Error, no_rows, driver, pure, raise, time_now, uuid_new}
use ticket_master.Exec.Rules.{Ensures, bind_rule, catch_rule, statement_rule}
use ticket_master.Repository.Statements.{
  missing_as, lock_error, has_available, take_one, with_seats,
}
use ticket_master.Repository.Statements.Rules.{
  at_db, require_rule, raised_rule, select_rule, update_event_rule, set_seat_rule,
}
use ticket_master.Repository.Reserve.{
  seat_of, hold_seat, reserve_seat_tx, refuse_event, no_seat_left, insert_row, insert_booking,
  create_reservation_tx,
}
use ticket_master.Inventory.{Step, reserves}

refuse_event_rule :
    (found : Option Event) (env : Env) (w : World) (Q : Event → World → Type 0)
    → Ensures (refuse_event found env w) Q
unfolding refuse_event raise
refuse_event_rule none env w Q = tt
refuse_event_rule (some e) env w Q = tt

insert_row_inversion :
    (b : Booking) (u : Option User) (e : Option Event) (s : Option Seat) (o : Option Booking)
    (db db' : Db) (a : Booking)
    → insert_row b db u e s o ≡ some (a, db')
    → (o ≡ none) × (db' ≡ record db { bookings = b ∷ db.bookings }) × (a ≡ b)
insert_row_inversion b (some u) (some e) (some s) none db db' a h =
    (refl, ground arith, ground arith)
insert_row_inversion b (some u) (some e) (some s) (some x) db db' a h = cc
insert_row_inversion b (some u) (some e) none o db db' a h = cc
insert_row_inversion b (some u) none s o db db' a h = cc
insert_row_inversion b none e s o db db' a h = cc

module _ (env : Env) (w : World) where
  no_seat_left_rule :
      (event : ℕ) (e : Error) (Q : Event → World → Type 0) → Ensures (no_seat_left event e env w) Q
  unfolding no_seat_left raise
  no_seat_left_rule event no_rows Q =
      bind_rule _ _ env w Q (statement_rule _ env w _ λ found db _. refuse_event_rule found env _ Q)
  no_seat_left_rule event driver Q = tt
  no_seat_left_rule event _ Q = tt

  reserve_seat_rule :
      (event until : ℕ) (number : String) (Q : Seat → World → Type 0)
      → ((s : Seat) (later n : ℕ)
          → find (seat_of event number) w.db.seats ≡ some s
          → is_available s.status ≡ true
          → Q (hold_seat until later s) (record w {
            db = with_seats w.db (modify (λ s. s.id) s.id (hold_seat until w.tx_time) w.db.seats);
            calls = n;
          }))
      → Ensures (reserve_seat_tx event number until env w) Q
  unfolding reserve_seat_tx pure time_now
  reserve_seat_rule event until number Q k = bind_rule _ _ env w Q (
      raised_rule env w _ lock_error _ (
        select_rule env w (λ _ db. find (seat_of event number) db.seats) _
          λ s found. bind_rule _ _ env _ Q (
            require_rule env _ _ _ _ λ av. bind_rule _ _ env _ Q (
              bind_rule _ _ env _ _ (
                require_rule env _ _ _ _ λ fr. bind_rule _ _ env _ _ (
                  set_seat_rule env _ s.id (λ _. true) (hold_seat until) _
                    (bind_rule _ _ env _ _ (k s _ _ found av))))))))

  insert_booking_rule :
      (b : Booking) (Q : Booking → World → Type 0)
      → (get_booking b.id w.db ≡ none
          → Q b (at_db w (record w.db { bookings = b ∷ w.db.bookings })))
      → Ensures (insert_booking b env w) Q
  unfolding insert_booking
  insert_booking_rule b Q k = raised_rule env w _ (missing_as driver) _ (
      statement_rule
        (λ _ db.
          insert_row b db (get_user b.user_id db) (get_event b.event_id db) (get_seat b.seat_id db)
            (get_booking b.id db))
        env w _
        λ a db e.
          let (free, same, row) =
            insert_row_inversion b (get_user b.user_id w.db) (get_event b.event_id w.db)
              (get_seat b.seat_id w.db) (get_booking b.id w.db) w.db db a e in
          rw (same, row) (k free))

-- What CreateReservation has done where it returns `b`.
pub record Reserved (user event until : ℕ) (number : String) (old : Db) (b : Booking) (db : Db)
    : Type 0 where
  pub step : Step old db
  pub seat : Seat
  pub found : find (seat_of event number) old.seats ≡ some seat
  pub was_free : is_available seat.status ≡ true
  pub taken : b.seat_id ≡ seat.id
  pub owner : b.user_id ≡ user
  pub of_the_event : b.event_id ≡ event
  pub deadline : b.expires_at ≡ until
  pub reserved_now : is_reserved b.status ≡ true
  pub fresh : get_booking b.id old ≡ none
  pub stored : get_booking b.id db ≡ some b

module _ (env : Env) (w : World) where
  -- The body of CreateReservation, where it returns.
  pub create_reservation_tx_rule :
      (user event until : ℕ) (number : String)
      → Ensures
          (create_reservation_tx user event number until env w)
          (λ b w'. Reserved user event until number w.db b w'.db)
  unfolding create_reservation_tx time_now uuid_new
  create_reservation_tx_rule user event until number = bind_rule _ _ env w _ (
      catch_rule _ (no_seat_left event) env w _
        (update_event_rule env w event (λ e. has_available e) take_one _
          λ e found has. bind_rule _ _ env _ _ (
            reserve_seat_rule env _ event until number _ λ s later n seat free.
              bind_rule _ _ env _ _ (
                bind_rule _ _ env _ _ (
                  insert_booking_rule env _ _ _ λ fresh. record {
                    step =
                        reserves user event _ until _ w.tx_time number e s found has seat free
                          fresh;
                    seat = s;
                    found = seat;
                    was_free = free;
                    taken = refl;
                    owner = refl;
                    of_the_event = refl;
                    deadline = refl;
                    reserved_now = refl;
                    fresh = fresh;
                    stored = ground arith;
                  }))))
        (λ e w'. no_seat_left_rule env w' event e _))
