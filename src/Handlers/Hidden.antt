-- ===== src/Handlers/Hidden.antt =====
-- internal/handlers/booking_handler.go: what another user's booking looks like from outside.
use ticket_master.Prelude.{ℕ, ◌≡◌, refl, false, Option, none, some, ◌==◌}
use ticket_master.Model.{Booking, get_booking}
use ticket_master.Exec.{
  Env, World, ok, err, service, ServiceError, handle, ◌>>=◌, catch, raise, pure, lone, statement,
  tick, joined,
}
use ticket_master.Repository.Statements.{find_by_id}
use ticket_master.Service.{get_booking_by_id}
use ticket_master.Session.Owner.{get_booking_by_id_refused}
use ticket_master.Handlers.{refused, respond_with}
use ticket_master.Handlers.Bookings.{get_booking_handler}

-- There is no such booking, or it is another user's.
abbrev pub IsHidden : ℕ → Option Booking → Type 0
IsHidden user none = Unit {0}
IsHidden user (some b) = b.user_id == user ≡ false

module _ (env : Env) (w : World) (id user : ℕ) where
  missing :
      env.fault w.calls ≡ none
      → get_booking id (env.others w.calls w.db) ≡ none
      → get_booking_by_id user id env w
        ≡ (err (service ServiceError.booking_not_found), tick (joined env w))
  unfolding get_booking_by_id find_by_id lone catch raise statement ◌>>=◌
  missing f e = rw (f, e) refl

  hidden_reply :
      (o : Option Booking)
      → env.fault w.calls ≡ none
      → get_booking id (env.others w.calls w.db) ≡ o
      → IsHidden user o
      → get_booking_handler (some id) (some user) env w ≡ (ok (refused 404), tick (joined env w))
  unfolding get_booking_handler respond_with handle pure
  hidden_reply none f e h = rw (missing f e) refl
  hidden_reply (some b) f e h = rw (get_booking_by_id_refused env w id b user f e h) refl

-- Where the database answers, GET /bookings/:id answers a caller alike, 404 and no change, whether the
-- booking does not exist or is another user's.
pub get_booking_hides :
    (env : Env) (w : World) (id user : ℕ)
    → env.fault w.calls ≡ none
    → IsHidden user (get_booking id (env.others w.calls w.db))
    → get_booking_handler (some id) (some user) env w ≡ (ok (refused 404), tick (joined env w))
get_booking_hides env w id user f h =
    hidden_reply env w id user (get_booking id (env.others w.calls w.db)) f refl h
