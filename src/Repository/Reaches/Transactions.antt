-- ===== src/Repository/Reaches/Transactions.antt =====
-- The operations of internal/repository change the tables by steps of `Inventory` alone.
use ticket_master.Prelude.{ℕ, String, Bool, true, false, refl, List, Option, none, some, ◌≡◌}
use ticket_master.Model.{Db, Booking, BookingStatus, cancelled, expired, is_active, get_booking}
use ticket_master.Exec.{
  Env, World, Exec, Error, Fault, failed, locked, unacknowledged, no_rows, driver, answer,
  statement, transaction, tick,
}
use ticket_master.Exec.Rules.{Ensures, Ensures-mono}
use ticket_master.Repository.Statements.{find_by_id, update_booking, with_bookings, stored}
use ticket_master.Table.{update, update_inversion}
use ticket_master.Repository.Reserve.{create_reservation, create_reservation_tx}
use ticket_master.Repository.Purchase.{
  complete_purchase, complete_purchase_tx, revert_failed_purchase, revert_failed_purchase_tx,
}
use ticket_master.Repository.Release.{
  extend_reservation, extend_reservation_tx, release_reservation, release_reservation_tx,
  release_expired_reservation, cancel_reservation, set_payment_intent_id, find_expired_reservations,
  overdue, zero_rows, takes_intent, store_intent,
}
use ticket_master.Repository.Refines.{IsLawful, transaction-Reach}
use ticket_master.Repository.Refines.Reserve.{Reserved, create_reservation_tx_rule}
use ticket_master.Repository.Refines.Purchase.{
  Completed, Reverted, complete_purchase_tx_rule, revert_failed_purchase_tx_rule,
}
use ticket_master.Repository.Refines.Release.{
  Released, Extended, release_reservation_tx_rule, extend_reservation_tx_rule,
}
use ticket_master.Repository.Reaches.{
  Reaches, reaches_rules, bind-Reaches, catch-Reaches, lone-Reaches, select-Reaches, pure-Reaches,
  raise-Reaches,
}
use ticket_master.Inventory.{Reach, here, next, stores_intent}

stored_rows :
    (w : World) (id : ℕ) (intent : String) (b : Booking) (rows : List Booking)
    → update (λ b. b.id) id (takes_intent w.tx_time) (store_intent intent w.tx_time) w.db.bookings
      ≡ some (b, rows)
    → Reach w.db (with_bookings w.db rows)
stored_rows w id intent b rows e =
    let (was, found, holds, row, table) =
      update_inversion (λ b. b.id) id (takes_intent w.tx_time) (store_intent intent w.tx_time)
        w.db.bookings e in
    rw table (next here (stores_intent id w.tx_time intent was found holds))

-- The tables after SetPaymentIntentID's update, also where its answer was lost.
update_reached :
    (w : World) (id : ℕ) (intent : String) (o : Option (Booking × List Booking)) (f : Option Fault)
    → update (λ b. b.id) id (takes_intent w.tx_time) (store_intent intent w.tx_time) w.db.bookings
      ≡ o
    → Reach w.db (answer (stored (with_bookings w.db) o) f (tick w)).1.db
update_reached w id intent none none e = here
update_reached w id intent none (some f) e = here
update_reached w id intent (some (b, rows)) none e = stored_rows w id intent b rows e
update_reached w id intent (some (b, rows)) (some failed) e = here
update_reached w id intent (some (b, rows)) (some locked) e = here
update_reached w id intent (some (b, rows)) (some unacknowledged) e =
    stored_rows w id intent b rows e

module _ {env : Env} (lawful : IsLawful env) where
  -- By what the body has done where it returns.
  pub transaction-Reaches {ℓ} :
      {A : Type ℓ} (body : Exec A) (P : Db → A → Db → Type 0)
      → ((w : World) → Ensures (body env w) (λ a w'. P w.db a w'.db))
      → ((old : Db) (a : A) (db : Db) → P old a db → Reach old db)
      → Reaches env (transaction body)
  transaction-Reaches body P done weaken = record {
    at = λ w. transaction-Reach body env w lawful λ w'.
        Ensures-mono (body env w') (λ a w''. P w'.db a w''.db) (λ _ w''. Reach w'.db w''.db)
          (done w') λ a w''. weaken w'.db a w''.db;
  }

  pub create_reservation-Reaches :
      (user event until : ℕ) (number : String)
      → Reaches env (create_reservation user event number until)
  unfolding create_reservation
  create_reservation-Reaches user event until number =
      transaction-Reaches (create_reservation_tx user event number until)
        (Reserved user event until number)
        (λ w. create_reservation_tx_rule env w user event until number) λ _ _ _ c. next here c.step

  pub complete_purchase-Reaches : (id : ℕ) → Reaches env (complete_purchase id)
  unfolding complete_purchase
  complete_purchase-Reaches id =
      transaction-Reaches (complete_purchase_tx id) (Completed id)
        (λ w. complete_purchase_tx_rule env w id) λ _ _ _ c. c.reached

  pub revert_failed_purchase-Reaches : (id : ℕ) → Reaches env (revert_failed_purchase id)
  unfolding revert_failed_purchase
  revert_failed_purchase-Reaches id =
      transaction-Reaches (revert_failed_purchase_tx id) (Reverted id)
        (λ w. revert_failed_purchase_tx_rule env w id) λ _ _ _ c. c.reached

  extend_tx-Reaches : (id until : ℕ) → Reaches env (transaction (extend_reservation_tx id until))
  extend_tx-Reaches id until =
      transaction-Reaches (extend_reservation_tx id until) (Extended id until)
        (λ w. extend_reservation_tx_rule env w id until) λ _ _ _ c. c.reached

  pub extend_reservation-Reaches : (id until : ℕ) → Reaches env (extend_reservation id until)
  unfolding extend_reservation
  extend_reservation-Reaches id until = search (reaches_rules, extend_tx-Reaches)

  release_reservation-Reaches :
      (id : ℕ) (status : BookingStatus) (require_expired : Bool)
      → is_active status ≡ false
      → Reaches env (release_reservation id status require_expired)
  unfolding release_reservation
  release_reservation-Reaches id status require_expired inactive =
      transaction-Reaches (release_reservation_tx id status require_expired)
        (λ old _ db. Reach old db)
        (λ w.
          Ensures-mono (release_reservation_tx id status require_expired env w)
            (λ b w'. Released id status require_expired w.tx_time w.db b w'.db)
            (λ _ w'. Reach w.db w'.db)
            (release_reservation_tx_rule env w id status require_expired inactive)
            λ _ _ c. c.reached)
        λ _ _ _ c. c

  pub release_expired_reservation-Reaches : (id : ℕ) → Reaches env (release_expired_reservation id)
  unfolding release_expired_reservation
  release_expired_reservation-Reaches id = release_reservation-Reaches id expired true refl

  pub cancel_reservation-Reaches : (id : ℕ) → Reaches env (cancel_reservation id)
  unfolding cancel_reservation
  cancel_reservation-Reaches id = release_reservation-Reaches id cancelled false refl

  pub find_by_id-Reaches : (id : ℕ) → Reaches env (find_by_id id)
  unfolding find_by_id
  find_by_id-Reaches id =
      bind-Reaches _ _
        (lone-Reaches _ lawful
          (catch-Reaches _ _ (select-Reaches (λ _ db. get_booking id db)) λ e. raise-Reaches _))
        λ b. pure-Reaches _

  pub find_expired_reservations-Reaches : Reaches env find_expired_reservations
  unfolding find_expired_reservations
  find_expired_reservations-Reaches =
      lone-Reaches _ lawful (select-Reaches (λ t db. some (overdue t db.bookings)))

  store_intent-Reaches :
      (id : ℕ) (intent : String)
      → Reaches env (update_booking id takes_intent (store_intent intent))
  unfolding update_booking statement
  store_intent-Reaches id intent = record {
    at = λ w. update_reached w id intent _ (env.fault w.calls) refl;
  }

  zero_rows-Reaches : (e : Error) → Reaches env (zero_rows e)
  unfolding zero_rows
  zero_rows-Reaches no_rows = pure-Reaches false
  zero_rows-Reaches driver = raise-Reaches driver
  zero_rows-Reaches e = raise-Reaches e

  pub set_payment_intent_id-Reaches :
      (id : ℕ) (intent : String) → Reaches env (set_payment_intent_id id intent)
  unfolding set_payment_intent_id
  set_payment_intent_id-Reaches id intent =
      search
        (reaches_rules, lone-Reaches, store_intent-Reaches, zero_rows-Reaches, find_by_id-Reaches)
        depth 12
