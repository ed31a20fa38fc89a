-- ===== src/Repository/Refines/Release.antt =====
-- ExtendReservation, the releases and SetPaymentIntentID implement their steps.
use ticket_master.Prelude.{ℕ, ◌≤◌, ◌≡◌, refl, Bool, true, false, some, arith, not, ◌||◌, leb}
use ticket_master.Table.{get-modify_any}
use ticket_master.Model.{Db, Booking, BookingStatus, is_reserved, is_active, is_held, get_booking}
use ticket_master.Exec.{Env, World, pure, time_now, booking_not_reserved, seat_not_available}
use ticket_master.Exec.Rules.{Ensures, bind_rule}
use ticket_master.Repository.Statements.{missing_as, free_seat}
use ticket_master.Repository.Statements.Rules.{
  require_rule, raised_rule, update_booking_rule, update_seat_rule, set_seat_rule, return_seat_rule,
  find_booking_rule, lock_seat_rule,
}
use ticket_master.Repository.Purchase.{still_reserved}
use ticket_master.Repository.Release.{
  extend, hold_until, new_expiry, extend_reservation_tx, releasable, release,
  release_reservation_tx,
}
use ticket_master.Inventory.{extends, releases, Reach, here, next}

-- What a release at time `t` has done where it returns `b`.
pub record Released (id : ℕ) (status : BookingStatus) (require_expired : Bool) (t : ℕ) (old : Db)
    (b : Booking) (db : Db) : Type 0 where
  pub reached : Reach old db
  pub returned : b.status ≡ status
  pub was : Booking
  pub found : get_booking id old ≡ some was
  pub reserved_before : is_reserved was.status ≡ true
  pub due : not require_expired || leb was.expires_at t ≡ true
  pub row : Booking
  pub stored : get_booking id db ≡ some row
  pub freed : row.status ≡ status

-- What ExtendReservation has done where it returns `b`: the deadline never moves back.
pub record Extended (id until : ℕ) (old : Db) (b : Booking) (db : Db) : Type 0 where
  pub reached : Reach old db
  pub was : Booking
  pub found : get_booking id old ≡ some was
  pub not_earlier : was.expires_at ≤ b.expires_at
  pub asked : until ≤ b.expires_at
  pub row : Booking
  pub stored : get_booking id db ≡ some row
  pub written : row.expires_at ≡ b.expires_at
  pub still_reserved : is_reserved row.status ≡ true

module _ (env : Env) (w : World) where
  pub release_reservation_tx_rule :
      (id : ℕ) (status : BookingStatus) (require_expired : Bool)
      → is_active status ≡ false
      → Ensures
          (release_reservation_tx id status require_expired env w)
          (λ b w'. Released id status require_expired w.tx_time w.db b w'.db)
  unfolding release_reservation_tx pure time_now
  release_reservation_tx_rule id status require_expired inactive = bind_rule _ _ env w _ (
      find_booking_rule env w id _ λ b found. bind_rule _ _ env _ _ (
        require_rule env _ _ _ _ λ held. bind_rule _ _ env _ _ (
          bind_rule _ _ env _ _ (
            require_rule env _ _ _ _ λ due. bind_rule _ _ env _ _ (
              raised_rule env _ _ (missing_as booking_not_reserved) _ (
                update_booking_rule env _ id (releasable require_expired) (release status) _
                  λ row again may. bind_rule _ _ env _ _ (
                    set_seat_rule env _ b.seat_id (λ _. true) free_seat _
                      (bind_rule _ _ env _ _ (
                        return_seat_rule env _ b.event_id _ (record {
                          reached = next here (releases id w.tx_time status b inactive found held);
                          returned = refl;
                          was = row;
                          found = again;
                          reserved_before = ground arith;
                          due = ground arith;
                          row = release status w.tx_time row;
                          stored = ground (
                            arith,
                            get-modify_any (λ b. b.id) (release status w.tx_time) id id
                                w.db.bookings (λ b. refl),
                          );
                          freed = refl;
                        }))))))))))

  pub extend_reservation_tx_rule :
      (id until : ℕ)
      → Ensures (extend_reservation_tx id until env w) (λ b w'. Extended id until w.db b w'.db)
  unfolding extend_reservation_tx pure time_now
  extend_reservation_tx_rule id until = bind_rule _ _ env w _ (
      find_booking_rule env w id _ λ b found. bind_rule _ _ env _ _ (
        require_rule env _ _ _ _ λ held. bind_rule _ _ env _ _ (
          bind_rule _ _ env _ _ (
            require_rule env _ _ _ _ λ live. bind_rule _ _ env _ _ (
              lock_seat_rule env _ b.seat_id _ λ seat locked. bind_rule _ _ env _ _ (
                require_rule env _ _ _ _ λ same. bind_rule _ _ env _ _ (
                  require_rule env _ _ _ _ λ seat_held. bind_rule _ _ env _ _ (
                    bind_rule _ _ env _ _ (
                      require_rule env _ _ _ _ λ unexpired. bind_rule _ _ env _ _ (
                        raised_rule env _ _ (missing_as booking_not_reserved) _ (
                          update_booking_rule env _ id still_reserved (extend (new_expiry b until))
                            _
                            λ row again holds. bind_rule _ _ env _ _ (
                              raised_rule env _ _ (missing_as seat_not_available) _ (
                                update_seat_rule env _ b.seat_id (λ s. is_held s.status)
                                  (hold_until (new_expiry b until)) _
                                  λ seat_row _ _. record {
                                    reached = next here (
                                        extends id (new_expiry b until) w.tx_time b seat found held
                                          (ground arith) locked seat_held);
                                    was = b;
                                    found = found;
                                    not_earlier = ground arith;
                                    asked = ground arith;
                                    row = extend (new_expiry b until) w.tx_time row;
                                    stored = ground (
                                      arith,
                                      get-modify_any (λ b. b.id)
                                          (extend (new_expiry b until) w.tx_time) id id
                                          w.db.bookings (λ b. refl),
                                    );
                                    written = refl;
                                    still_reserved = ground arith;
                                  })))))))))))))
