-- ===== src/Repository/Succeeds.antt =====
-- internal/repository/booking_repository.go: when the transactions return, where the database
-- answers. With what they promise on a return this is their total correctness.
use ticket_master.Prelude.{
  ℕ, suc, ◌+◌, ◌≤◌, ◌≡◌, refl, sym, String, true, false, Option, none, some, List, ◌∷◌, arith,
}
use ticket_master.Table.{find, get, modify, is_some, find_present, present-modify}
use ticket_master.Model.{
  Db, User, Booking, BookingStatus, Seat, Event, reserved, purchased, cancelled, expired,
  is_available, is_reserved, get_booking, get_event, get_user, get_seat,
}
use ticket_master.Exec.{Env, World, begun, pure, time_now, uuid_new, tick}
use ticket_master.Exec.Returns.{
  Returns, IsReliable, Returns-Ensures, bind_returns, catch_returns, transaction_returns,
  statement_returns,
}
use ticket_master.Repository.Statements.{is_before, has_available, take_one}
use ticket_master.Repository.Statements.Returns.{
  require_returns, select_returns, find_booking_returns, update_booking_returns,
  update_event_stores, set_seat_returns, set_seat_stores, return_seat_returns,
}
use ticket_master.Repository.Reserve.{
  seat_of, hold_seat, reserve_seat_tx, insert_booking, insert_row, create_reservation_tx,
  create_reservation,
}
use ticket_master.Repository.Purchase.{
  still_reserved, complete_found, complete_reserved, complete_purchase_tx, complete_purchase,
}
use ticket_master.Repository.Release.{
  release_reservation_tx, release_reservation, cancel_reservation,
}
use ticket_master.Repository.Refines.Reserve.{Reserved}
use ticket_master.Repository.Refines.Purchase.{Completed}
use ticket_master.Repository.Refines.Release.{Released}
use ticket_master.Repository.Contract.{
  create_reservation_lem, complete_purchase_lem, cancel_reservation_lem,
}

module _ (env : Env) (reliable : IsReliable env) where
  cancel_tx_returns :
      (w : World) (id : ℕ) (b : Booking)
      → get_booking id w.db ≡ some b
      → is_reserved b.status ≡ true
      → Returns (release_reservation_tx id cancelled false env w) (λ _ _. Unit {0})
  unfolding release_reservation_tx time_now pure
  cancel_tx_returns w id b e r = bind_returns _ _ env w _ (
      find_booking_returns env w id b reliable e _ λ b' s _. bind_returns _ _ env _ _ (
        require_returns env _ _ _ _ (ground arith) (
          bind_returns _ _ env _ _ (
            bind_returns _ _ env _ _ (
              require_returns env _ _ _ _ refl (
                bind_returns _ _ env _ _ (
                  catch_returns _ _ env _ _ (
                    update_booking_returns env _ id _ _ b _ reliable e (ground arith) λ rows.
                      bind_returns _ _ env _ _ (
                        set_seat_returns env _ _ _ _ _ reliable λ rows'.
                          bind_returns _ _ env _ _
                            (return_seat_returns env _ _ _ reliable λ _. tt))))))))))

  complete_reserved_returns :
      (w : World) (id : ℕ) (b b' : Booking)
      → get_booking id w.db ≡ some b
      → still_reserved w.tx_time b ≡ true
      → env.clock w.calls ≤ b'.expires_at
      → Returns (complete_reserved id b' env w) (λ _ _. Unit {0})
  unfolding complete_reserved time_now pure
  complete_reserved_returns w id b b' e r live = bind_returns _ _ env w _ (
      bind_returns _ _ env _ _ (
        require_returns env _ _ _ _ (ground arith) (
          bind_returns _ _ env _ _ (
            catch_returns _ _ env _ _ (
              update_booking_returns env _ id still_reserved _ b _ reliable e r λ rows.
                bind_returns _ _ env _ _ (set_seat_returns env _ _ _ _ _ reliable λ _. tt))))))

  complete_found_returns :
      (w : World) (status : BookingStatus) (id : ℕ) (b b' : Booking)
      → get_booking id w.db ≡ some b
      → is_reserved status ≡ true
      → still_reserved w.tx_time b ≡ true
      → env.clock w.calls ≤ b'.expires_at
      → Returns (complete_found status id b' env w) (λ _ _. Unit {0})
  unfolding complete_found
  complete_found_returns w reserved id b b' e t r live =
      complete_reserved_returns w id b b' e r live
  complete_found_returns w purchased id b b' e t r live = ground arith
  complete_found_returns w cancelled id b b' e t r live = ground arith
  complete_found_returns w expired id b b' e t r live = ground arith

  complete_tx_returns :
      (w : World) (id : ℕ) (b : Booking)
      → get_booking id w.db ≡ some b
      → still_reserved w.tx_time b ≡ true
      → env.clock (suc w.calls) ≤ b.expires_at
      → Returns (complete_purchase_tx id env w) (λ _ _. Unit {0})
  unfolding complete_purchase_tx
  complete_tx_returns w id b e r live = bind_returns _ _ env w _ (
      find_booking_returns env w id b reliable e _ λ b' s d.
        complete_found_returns (tick w) b'.status id b b' e (ground arith) r (omega arith))

  reserve_seat_tx_returns :
      (w : World) (event until : ℕ) (number : String) (s : Seat)
      → find (seat_of event number) w.db.seats ≡ some s
      → is_available s.status ≡ true
      → is_before (env.clock (suc w.calls)) s.reserved_until ≡ false
      → (Q : Seat → World → Type 0)
      → ((s' : Seat) (w' : World)
          → w'.db.users ≡ w.db.users
          → w'.db.events ≡ w.db.events
          → is_some (get_seat s'.id w'.db) ≡ true
          → w'.db.bookings ≡ w.db.bookings
          → w'.calls ≡ w.calls + 4
          → Q s' w')
      → Returns (reserve_seat_tx event number until env w) Q
  unfolding reserve_seat_tx time_now pure
  reserve_seat_tx_returns w event until number s e a l Q h =
      let present = find_present (λ s. s.id) (seat_of event number) w.db.seats s e in
      bind_returns _ _ env w _ (
        catch_returns _ _ env _ _ (
          select_returns env w (λ _ db. find (seat_of event number) db.seats) s _ reliable e
            (bind_returns _ _ env _ _ (
              require_returns env _ _ _ _ a (
                bind_returns _ _ env _ _ (
                  bind_returns _ _ env _ _ (
                    require_returns env _ _ _ _ (ground arith) (
                      bind_returns _ _ env _ _ (
                        set_seat_stores env _ s.id (hold_seat until) _ reliable (
                          bind_returns _ _ env _ _ (
                            h _ _ refl refl
                              (present-modify (λ s. s.id) (hold_seat until w.tx_time) s.id s.id
                                w.db.seats (λ _. refl) present)
                              refl (omega arith))))))))))))

  insert_row_hit :
      (b : Booking) (db : Db) (u : Option User) (e : Option Event) (s : Option Seat)
      (o : Option Booking)
      → is_some u ≡ true
      → is_some e ≡ true
      → is_some s ≡ true
      → o ≡ none
      → insert_row b db u e s o ≡ some (b, record db { bookings = b ∷ db.bookings })
  insert_row_hit b db (some u) (some e) (some s) none p q r h = refl
  insert_row_hit b db (some u) (some e) (some s) (some o) p q r h = ground arith
  insert_row_hit b db (some u) (some e) none o p q r h = ground arith
  insert_row_hit b db (some u) none s o p q r h = ground arith
  insert_row_hit b db none e s o p q r h = ground arith

  insert_booking_returns :
      (w : World) (b : Booking)
      → is_some (get_user b.user_id w.db) ≡ true
      → is_some (get_event b.event_id w.db) ≡ true
      → is_some (get_seat b.seat_id w.db) ≡ true
      → get_booking b.id w.db ≡ none
      → Returns (insert_booking b env w) (λ _ _. Unit {0})
  unfolding insert_booking
  insert_booking_returns w b u v s e = catch_returns _ _ env w _ (
      statement_returns _ env w _ b (record w.db { bookings = b ∷ w.db.bookings }) reliable
        (insert_row_hit b w.db _ _ _ _ u v s e) tt)

  create_tx_returns :
      (w : World) (user event until : ℕ) (number : String) (u : User) (e : Event) (s : Seat)
      (m n : ℕ)
      → m ≡ suc (suc w.calls)
      → n ≡ w.calls + 6
      → get_user user w.db ≡ some u
      → get_event event w.db ≡ some e
      → has_available e ≡ true
      → find (seat_of event number) w.db.seats ≡ some s
      → is_available s.status ≡ true
      → is_before (env.clock m) s.reserved_until ≡ false
      → get_booking (env.uuid n) w.db ≡ none
      → Returns (create_reservation_tx user event number until env w) (λ _ _. Unit {0})
  unfolding create_reservation_tx time_now uuid_new insert_booking
  create_tx_returns w user event until number u e s m n at_m at_n gu ge has found av late fresh =
      let uuid_fresh : (rows : List Booking) (k : ℕ)
          → rows ≡ w.db.bookings
          → k ≡ suc w.calls + 4
          → get (λ b. b.id) (env.uuid (suc k)) rows ≡ none =
        λ rows k same calls.
          let at_k : suc k ≡ n = omega (arith, calls, at_n) in rw (same, at_k) fresh in
      let user_there : (rows : List User)
          → rows ≡ w.db.users
          → is_some (get (λ u. u.id) user rows) ≡ true =
        λ rows same. rw (same, gu) refl in
      let event_there : (rows : List Event)
          → rows ≡ modify (λ e. e.id) event (take_one w.tx_time) w.db.events
          → is_some (get (λ e. e.id) event rows) ≡ true =
        λ rows same. rw same (
          present-modify (λ e. e.id) (take_one w.tx_time) event event w.db.events (λ _. refl)
            (rw ge refl)) in
      bind_returns _ _ env w _ (
        catch_returns _ _ env w _ (
          update_event_stores env w event (λ e. has_available e) take_one e _ reliable ge has
            (bind_returns _ _ env _ _ (
              reserve_seat_tx_returns _ event until number s found av (rw (sym at_m) late) _
                λ s' w' users events there same calls. bind_returns _ _ env _ _ (
                  bind_returns _ _ env _ _ (
                    insert_booking_returns _ _ (user_there w'.db.users users)
                      (event_there w'.db.events events) there
                      (uuid_fresh w'.db.bookings w'.calls same calls)))))))

  -- Where the database answers, CancelReservation of a booking that is reserved returns, and has
  -- done what it promises.
  pub cancel_reservation_returns :
      (w : World) (id : ℕ) (b : Booking)
      → get_booking id (env.others w.calls w.db) ≡ some b
      → is_reserved b.status ≡ true
      → Returns (cancel_reservation id env w) (λ b' w'.
        Released id cancelled false (env.db_clock w.calls) (env.others w.calls w.db) b' w'.db)
  unfolding cancel_reservation release_reservation
  cancel_reservation_returns w id b e r =
      Returns-Ensures (cancel_reservation id env w) (λ _ _. Unit {0}) _
        (transaction_returns _ env w (λ _ _. Unit {0}) reliable
          (cancel_tx_returns (begun env w) id b e r))
        (cancel_reservation_lem env w id)

  -- Where the database answers, CompletePurchase of a booking that is reserved and whose deadline has
  -- passed neither on the server's clock nor on the database's returns, and has done what it promises.
  pub complete_purchase_returns :
      (w : World) (id : ℕ) (b : Booking)
      → get_booking id (env.others w.calls w.db) ≡ some b
      → still_reserved (env.db_clock w.calls) b ≡ true
      → env.clock (suc (suc w.calls)) ≤ b.expires_at
      → Returns
          (complete_purchase id env w)
          (λ b' w'. Completed id (env.others w.calls w.db) b' w'.db)
  unfolding complete_purchase
  complete_purchase_returns w id b e r live =
      Returns-Ensures (complete_purchase id env w) (λ _ _. Unit {0}) _
        (transaction_returns _ env w (λ _ _. Unit {0}) reliable
          (complete_tx_returns (begun env w) id b e r live))
        (complete_purchase_lem env w id)

  -- Where the database answers, CreateReservation returns and has done what it promises, if the user
  -- exists, the event has a seat left, the seat of that number is available and was not held before
  -- until later, and the new booking's id is not taken.
  pub create_reservation_returns :
      (w : World) (user event until : ℕ) (number : String) (u : User) (e : Event) (s : Seat)
      → get_user user (env.others w.calls w.db) ≡ some u
      → get_event event (env.others w.calls w.db) ≡ some e
      → has_available e ≡ true
      → find (seat_of event number) (env.others w.calls w.db).seats ≡ some s
      → is_available s.status ≡ true
      → is_before (env.clock (w.calls + 3)) s.reserved_until ≡ false
      → get_booking (env.uuid (w.calls + 7)) (env.others w.calls w.db) ≡ none
      → Returns
          (create_reservation user event number until env w)
          (λ b w'. Reserved user event until number (env.others w.calls w.db) b w'.db)
  unfolding create_reservation
  create_reservation_returns w user event until number u e s gu ge has found av late fresh =
      Returns-Ensures (create_reservation user event number until env w) (λ _ _. Unit {0}) _
        (transaction_returns _ env w (λ _ _. Unit {0}) reliable
          (create_tx_returns (begun env w) user event until number u e s (w.calls + 3) (w.calls + 7)
            (omega arith) (omega arith) gu ge has found av late fresh))
        (create_reservation_lem env w user event until number)
