-- ===== src/Repository/Contract.antt =====
-- internal/repository/booking_repository.go: what each transaction promises its callers. The tables
-- it starts from are those at its BEGIN, `env.others w.calls w.db`.
use ticket_master.Prelude.{ℕ, suc, refl, String, true, false}
use ticket_master.Model.{cancelled, expired}
use ticket_master.Exec.{Env, World, transaction, begun, time_now, tick}
use ticket_master.Exec.Rules.{Ensures, transaction_rule, bind_rule}
use ticket_master.Repository.Statements.Rules.{require_rule}
use ticket_master.Repository.Reserve.{create_reservation, create_reservation_tx}
use ticket_master.Repository.Purchase.{
  complete_purchase, complete_purchase_tx, revert_failed_purchase, revert_failed_purchase_tx,
}
use ticket_master.Repository.Release.{
  extend_reservation, extend_reservation_tx, release_reservation, release_reservation_tx,
  release_expired_reservation, cancel_reservation,
}
use ticket_master.Repository.Refines.Reserve.{Reserved, create_reservation_tx_rule}
use ticket_master.Repository.Refines.Purchase.{
  Completed, Reverted, complete_purchase_tx_rule, revert_failed_purchase_tx_rule,
}
use ticket_master.Repository.Refines.Release.{
  Released, Extended, release_reservation_tx_rule, extend_reservation_tx_rule,
}

module _ (env : Env) (w : World) where
  -- A reservation that CreateReservation returns is stored under a new id for the user, the event
  -- and the deadline asked for, its seat is the one of that number and was available, and the
  -- tables have changed by the step `reserves`.
  pub create_reservation_lem :
      (user event until : ℕ) (number : String)
      → Ensures
          (create_reservation user event number until env w)
          (λ b w'. Reserved user event until number (env.others w.calls w.db) b w'.db)
  unfolding create_reservation
  create_reservation_lem user event until number =
      transaction_rule (create_reservation_tx user event number until) env w
        (Reserved user event until number (env.others w.calls w.db))
        (create_reservation_tx_rule env (begun env w) user event until number)

  -- A booking that CompletePurchase returns is purchased, and so is the stored one.
  pub complete_purchase_lem :
      (id : ℕ)
      → Ensures
          (complete_purchase id env w)
          (λ b w'. Completed id (env.others w.calls w.db) b w'.db)
  unfolding complete_purchase
  complete_purchase_lem id =
      transaction_rule (complete_purchase_tx id) env w (Completed id (env.others w.calls w.db))
        (complete_purchase_tx_rule env (begun env w) id)

  -- A booking that RevertFailedPurchase returns is cancelled, and so is the stored one.
  pub revert_failed_purchase_lem :
      (id : ℕ)
      → Ensures
          (revert_failed_purchase id env w)
          (λ b w'. Reverted id (env.others w.calls w.db) b w'.db)
  unfolding revert_failed_purchase
  revert_failed_purchase_lem id =
      transaction_rule (revert_failed_purchase_tx id) env w (Reverted id (env.others w.calls w.db))
        (revert_failed_purchase_tx_rule env (begun env w) id)

  -- CancelReservation returns only for a booking that was reserved, and the stored one is cancelled
  -- then.
  pub cancel_reservation_lem :
      (id : ℕ)
      → Ensures (cancel_reservation id env w) (λ b w'.
        Released id cancelled false (env.db_clock w.calls) (env.others w.calls w.db) b w'.db)
  unfolding cancel_reservation release_reservation
  cancel_reservation_lem id =
      transaction_rule (release_reservation_tx id cancelled false) env w
        (Released id cancelled false (env.db_clock w.calls) (env.others w.calls w.db))
        (release_reservation_tx_rule env (begun env w) id cancelled false refl)

  -- ReleaseExpiredReservation returns only for a booking that was reserved and whose deadline had
  -- passed on the clock of its transaction, and the stored one is expired then.
  pub release_expired_reservation_lem :
      (id : ℕ)
      → Ensures (release_expired_reservation id env w) (λ b w'.
        Released id expired true (env.db_clock w.calls) (env.others w.calls w.db) b w'.db)
  unfolding release_expired_reservation release_reservation
  release_expired_reservation_lem id =
      transaction_rule (release_reservation_tx id expired true) env w
        (Released id expired true (env.db_clock w.calls) (env.others w.calls w.db))
        (release_reservation_tx_rule env (begun env w) id expired true refl)

module _ (env : Env) (w : World) where
  extend_tx_lem :
      (id until : ℕ)
      → Ensures
          (transaction (extend_reservation_tx id until) env w)
          (λ b w'. Extended id until (env.others w.calls w.db) b w'.db)
  extend_tx_lem id until =
      transaction_rule (extend_reservation_tx id until) env w
        (Extended id until (env.others w.calls w.db))
        (extend_reservation_tx_rule env (begun env w) id until)

module _ (env : Env) (w : World) where
  -- A booking that ExtendReservation returns is still reserved, expires no earlier than before and
  -- than was asked for, and is stored with that deadline.
  pub extend_reservation_lem :
      (id until : ℕ)
      → Ensures
          (extend_reservation id until env w)
          (λ b w'. Extended id until (env.others (suc w.calls) w.db) b w'.db)
  unfolding extend_reservation time_now
  extend_reservation_lem id until =
      bind_rule _ _ env w _
        (bind_rule _ _ env _ _ (require_rule env _ _ _ _ λ _. extend_tx_lem env (tick w) id until))
