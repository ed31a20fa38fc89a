-- ===== src/Session.antt =====
-- What a process of the backend does: any sequence of the calls that the handlers of
-- internal/handlers, the queue consumers and the workers make of the services, each started where the
-- one before left the tables, with other processes in between.
pub mod Safety
pub mod Owner
use ticket_master.Prelude.{ℕ, String, List, [], ◌∷◌}
use ticket_master.Exec.{Env, World}
use ticket_master.Service.{
  Service, reserve_seat, cancel_booking, release_expired_booking_by_id,
  cleanup_expired_reservations,
}
use ticket_master.Service.Purchase.{purchase_booking}
use ticket_master.Expiry.Release.{process_due}
use ticket_master.Service.Bulk.{bulk_reserve}
use ticket_master.Venues.{CreateVenueRequest, create_venue}
use ticket_master.Events.{CreateEventRequest, create_event, get_event_by_id}
use ticket_master.Jwt.{Crypto}
use ticket_master.Auth.{
  JwtConfig, RegisterRequest, register, login, promote_to_admin, demote_to_user,
}

pub data Call : Type 0 where
  reserve : ℕ → ℕ → String → Call
  purchase cancel : ℕ → ℕ → Call
  expire : ℕ → Call
  clean_up : Call
  release_due : (ℕ → List ℕ) → ℕ → ℕ → Call
  bulk : ℕ → ℕ → (ℕ → ℕ) → List String → Call
  add_venue : CreateVenueRequest → Call
  add_event : CreateEventRequest → ℕ → Call
  view_event : ℕ → Call
  sign_up : Crypto → JwtConfig → RegisterRequest → Call
  log_in : Crypto → JwtConfig → String → String → Call
  promote demote : ℕ → Call

module _ (s : Service) (env : Env) where
  -- The state after a call, whatever it returned.
  unfoldable pub run_call : Call → World → World
  run_call (reserve user event seat) w = (reserve_seat s user event seat env w).1
  run_call (purchase user id) w = (purchase_booking s user id env w).1
  run_call (cancel user id) w = (cancel_booking s user id env w).1
  run_call (expire id) w = (release_expired_booking_by_id s id env w).1
  run_call clean_up w = (cleanup_expired_reservations s env w).1
  run_call (release_due spell index count) w = (process_due spell s index count env w).1
  run_call (bulk user event schedule seats) w = (bulk_reserve s user event schedule seats env w).1
  run_call (add_venue req) w = (create_venue req env w).1
  run_call (add_event req created_by) w = (create_event s.has_cache req created_by env w).1
  run_call (view_event id) w = (get_event_by_id s.has_cache id env w).1
  run_call (sign_up c config req) w = (register c config req env w).1
  run_call (log_in c config email password) w = (login c config email password env w).1
  run_call (promote id) w = (promote_to_admin id env w).1
  run_call (demote id) w = (demote_to_user id env w).1

  unfoldable pub run_calls : List Call → World → World
  run_calls [] w = w
  run_calls (c ∷ cs) w = run_calls cs (run_call c w)
