-- ===== src/Repository/Refines/Purchase.antt =====
-- CompletePurchase and RevertFailedPurchase implement the steps `purchases` and `reverts`.
use ticket_master.Prelude.{ℕ, ◌≡◌, refl, true, some, arith}
use ticket_master.Table.{get-modify_any}
use ticket_master.Model.{
  Db, Booking, BookingStatus, reserved, purchased, cancelled, expired, is_purchased, is_sold,
  get_booking,
}
use ticket_master.Exec.{
  Env, World, pure, raise, time_now, booking_not_reserved, booking_not_purchased,
}
use ticket_master.Exec.Rules.{Ensures, bind_rule}
use ticket_master.Repository.Statements.{missing_as, apply_booking_nullables, free_seat}
use ticket_master.Repository.Statements.Rules.{
  require_rule, raised_rule, update_booking_rule, set_seat_rule, return_seat_rule,
  find_booking_rule,
}
use ticket_master.Repository.Purchase.{
  still_reserved, purchase, sell_seat, complete_reserved, complete_found, complete_purchase_tx,
  revert, revert_failed_purchase_tx,
}
use ticket_master.Inventory.{purchases, reverts, Reach, here, next}

-- What CompletePurchase has done where it returns `b`.
pub record Completed (id : ℕ) (old : Db) (b : Booking) (db : Db) : Type 0 where
  pub reached : Reach old db
  pub returned : b.status ≡ purchased
  pub row : Booking
  pub stored : get_booking id db ≡ some row
  pub bought : row.status ≡ purchased

-- What RevertFailedPurchase has done where it returns `b`.
pub record Reverted (id : ℕ) (old : Db) (b : Booking) (db : Db) : Type 0 where
  pub reached : Reach old db
  pub returned : b.status ≡ cancelled
  pub row : Booking
  pub stored : get_booking id db ≡ some row
  pub undone : row.status ≡ cancelled

module _ (env : Env) (w : World) where
  complete_reserved_rule :
      (id : ℕ) (b : Booking)
      → get_booking id w.db ≡ some b
      → Ensures
          (complete_reserved id (apply_booking_nullables b) env w)
          (λ b' w'. Completed id w.db b' w'.db)
  unfolding complete_reserved time_now pure
  complete_reserved_rule id b e = bind_rule _ _ env w _ (
      bind_rule _ _ env _ _ (
        require_rule env _ _ _ _ λ live. bind_rule _ _ env _ _ (
          raised_rule env _ _ (missing_as booking_not_reserved) _ (
            update_booking_rule env _ id still_reserved purchase _ λ row found holds.
              bind_rule _ _ env _ _ (
                set_seat_rule env _ b.seat_id (λ _. true) sell_seat _
                  (record {
                    reached = next here (purchases id w.tx_time b e (ground arith));
                    returned = refl;
                    row = purchase w.tx_time row;
                    stored = ground (
                      arith,
                      get-modify_any (λ b. b.id) (purchase w.tx_time) id id w.db.bookings
                          (λ b. refl),
                    );
                    bought = refl;
                  }))))))

  complete_found_rule :
      (status : BookingStatus) (id : ℕ) (b : Booking)
      → get_booking id w.db ≡ some b
      → b.status ≡ status
      → Ensures
          (complete_found status id (apply_booking_nullables b) env w)
          (λ b' w'. Completed id w.db b' w'.db)
  unfolding complete_found pure raise
  complete_found_rule purchased id b e s = record {
    reached = here;
    returned = s;
    row = b;
    stored = e;
    bought = s;
  }
  complete_found_rule reserved id b e s = complete_reserved_rule id b e
  complete_found_rule cancelled id b e s = tt
  complete_found_rule expired id b e s = tt

module _ (env : Env) (w : World) where
  -- The body of CompletePurchase, where it returns.
  pub complete_purchase_tx_rule :
      (id : ℕ) → Ensures (complete_purchase_tx id env w) (λ b w'. Completed id w.db b w'.db)
  unfolding complete_purchase_tx
  complete_purchase_tx_rule id =
      bind_rule _ _ env w _
        (find_booking_rule env w id _ λ b found. complete_found_rule env _ b.status id b found refl)

  -- The body of RevertFailedPurchase, where it returns.
  pub revert_failed_purchase_tx_rule :
      (id : ℕ) → Ensures (revert_failed_purchase_tx id env w) (λ b w'. Reverted id w.db b w'.db)
  unfolding revert_failed_purchase_tx pure
  revert_failed_purchase_tx_rule id = bind_rule _ _ env w _ (
      find_booking_rule env w id _ λ b found. bind_rule _ _ env _ _ (
        require_rule env _ _ _ _ λ bought. bind_rule _ _ env _ _ (
          raised_rule env _ _ (missing_as booking_not_purchased) _ (
            update_booking_rule env _ id (λ _ b. is_purchased b.status) revert _
              λ row again _. bind_rule _ _ env _ _ (
                set_seat_rule env _ b.seat_id (λ s. is_sold s.status) free_seat _
                  (bind_rule _ _ env _ _ (
                    return_seat_rule env _ b.event_id _ (record {
                      reached = next here (reverts id w.tx_time b found bought);
                      returned = refl;
                      row = revert w.tx_time row;
                      stored = ground (
                        arith,
                        get-modify_any (λ b. b.id) (revert w.tx_time) id id w.db.bookings
                            (λ b. refl),
                      );
                      undone = refl;
                    }))))))))
