-- ===== src/Session/Owner.antt =====
-- Whose booking it is: PurchaseBooking and CancelBooking refuse a booking of another user, and leave
-- the tables and everything else as they are.
use ticket_master.Prelude.{ℕ, ◌≡◌, refl, false, none, some, ◌==◌}
use ticket_master.Model.{Booking, get_booking}
use ticket_master.Exec.{
  Env, World, ok, err, service, ServiceError, ◌>>=◌, catch, pure, raise, lone, statement, tick,
  joined,
}
use ticket_master.Repository.Statements.{find_by_id, require, apply_booking_nullables}
use ticket_master.Service.{Service, get_booking_by_id, cancel_booking}
use ticket_master.Service.Purchase.{purchase_booking}

module _ (env : Env) (w : World) (id : ℕ) (b : Booking) where
  -- A booking that is there is found, where the database answers.
  find_by_id_found :
      env.fault w.calls ≡ none
      → get_booking id (env.others w.calls w.db) ≡ some b
      → find_by_id id env w ≡ (ok (apply_booking_nullables b), tick (joined env w))
  unfolding find_by_id lone catch statement ◌>>=◌ pure
  find_by_id_found f e = rw (f, e) refl

  pub get_booking_by_id_refused :
      (user : ℕ)
      → env.fault w.calls ≡ none
      → get_booking id (env.others w.calls w.db) ≡ some b
      → b.user_id == user ≡ false
      → get_booking_by_id user id env w
        ≡ (err (service ServiceError.unauthorized), tick (joined env w))
  unfolding get_booking_by_id ◌>>=◌ catch require raise
  get_booking_by_id_refused user f e other = rw (find_by_id_found f e, other) refl

  -- Where the database answers, PurchaseBooking of another user's booking returns ErrUnauthorized
  -- and changes nothing.
  pub purchase_booking_refused :
      (s : Service) (user : ℕ)
      → env.fault w.calls ≡ none
      → get_booking id (env.others w.calls w.db) ≡ some b
      → b.user_id == user ≡ false
      → purchase_booking s user id env w
        ≡ (err (service ServiceError.unauthorized), tick (joined env w))
  unfolding purchase_booking ◌>>=◌
  purchase_booking_refused s user f e other = rw (get_booking_by_id_refused user f e other) refl

  -- Where the database answers, CancelBooking of another user's booking returns ErrUnauthorized
  -- and changes nothing.
  pub cancel_booking_refused :
      (s : Service) (user : ℕ)
      → env.fault w.calls ≡ none
      → get_booking id (env.others w.calls w.db) ≡ some b
      → b.user_id == user ≡ false
      → cancel_booking s user id env w
        ≡ (err (service ServiceError.unauthorized), tick (joined env w))
  unfolding cancel_booking ◌>>=◌
  cancel_booking_refused s user f e other = rw (get_booking_by_id_refused user f e other) refl
