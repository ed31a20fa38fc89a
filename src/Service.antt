-- ===== src/Service.antt =====
-- internal/services/booking_service.go: reserving, releasing and cancelling. The collaborators that
-- may be nil are flags of the service; what they are told is kept in the effects.
pub mod Purchase
pub mod Bulk
pub mod Listing
pub mod Reaches
use ticket_master.Prelude.{
  ℕ, ◌+◌, ◌/◌, String, Bool, true, false, not, ◌&&◌, ◌||◌, Option, none, some, List, [], ◌∷◌, ◌==◌,
  if◌then◌else◌, ltb,
}
use ticket_master.Model.{Booking, is_reserved}
use ticket_master.Effects.{Effects, forget_event}
use ticket_master.Zset.{zadd, zrem}
use ticket_master.Payment.{PaymentService}
use ticket_master.Exec.{
  Exec, Error, ServiceError, service, driver, event_not_found, no_available_seats,
  seat_not_available, seat_already_booked, booking_not_found, booking_not_reserved, pure, raise,
  catch, handle, time_now, best_effort, ◌>>=◌,
}
use ticket_master.Repository.Statements.{◌>>◌, require, find_by_id}
use ticket_master.Repository.Reserve.{create_reservation}
use ticket_master.Repository.Release.{
  release_expired_reservation, cancel_reservation, find_expired_reservations,
}

pub record Service : Type 0 where
  pub has_expiry_queue : Bool
  pub has_cache : Bool
  pub has_publisher : Bool
  pub has_read_routing : Bool
  pub payments : Option PaymentService
  pub reservation_timeout : ℕ

-- time.Time.Unix(), in whole seconds.
abbrev pub unix : ℕ → ℕ
unix t = t / 1_000_000_000

abbrev pub when : Bool → Exec (Unit {0}) → Exec (Unit {0})
when true m = m
when false m = pure tt

-- An error that the caller drops.
unfoldable pub ignore {ℓ} : {A : Type ℓ} → Exec A → Exec (Unit {0})
ignore m = catch (do _ ← m; pure tt) (λ _. pure tt)

-- A booking that was released meanwhile is no error.
unfoldable pub tolerate : Error → Exec (Unit {0})
tolerate booking_not_reserved = pure tt
tolerate other = raise other

unfoldable pub tolerate_missing : Error → Exec (Unit {0})
tolerate_missing booking_not_found = pure tt
tolerate_missing other = raise other

abbrev pub find_error : Error → Error
find_error booking_not_found = service ServiceError.booking_not_found
find_error other = other

abbrev pub cancel_error : Error → Error
cancel_error booking_not_reserved = service ServiceError.only_reserved_cancel
cancel_error other = other

-- A booking of the user who asks.
unfoldable pub get_booking_by_id : ℕ → ℕ → Exec Booking
get_booking_by_id user_id booking_id = do
  booking ← catch (find_by_id booking_id) (λ e. raise (find_error e))
  require (booking.user_id == user_id) (service ServiceError.unauthorized)
  pure booking

module _ (s : Service) where
  unfoldable pub enqueue_expiry : Booking → Exec (Unit {0})
  enqueue_expiry b =
      when s.has_expiry_queue
        (best_effort λ e. record e { pending = zadd (unix b.expires_at) b.id e.pending })

  unfoldable pub dequeue_expiry : ℕ → Exec (Unit {0})
  dequeue_expiry id =
      when s.has_expiry_queue
        (best_effort λ e. record e { pending = zrem id e.pending; inflight = zrem id e.inflight })

  unfoldable pub invalidate_cache : ℕ → Exec (Unit {0})
  invalidate_cache event_id =
      when s.has_cache
        (best_effort λ e. record e { event_cache = forget_event event_id e.event_cache })

  unfoldable pub mark_seat_read_primary : ℕ → ℕ → Exec (Unit {0})
  mark_seat_read_primary user_id event_id =
      when (s.has_read_routing && not (user_id == 0 || event_id == 0))
        (best_effort λ e. record e { read_marks = (user_id, event_id) ∷ e.read_marks })

  unfoldable pub publish_event : String → Booking → Exec (Unit {0})
  publish_event event_type b =
      when s.has_publisher (best_effort λ e. record e { published = (event_type, b) ∷ e.published })

  -- What follows every change of a booking.
  unfoldable pub announce : ℕ → String → Booking → Exec (Unit {0})
  announce user_id event_type b = do
    mark_seat_read_primary user_id b.event_id
    invalidate_cache b.event_id
    publish_event event_type b

  abbrev pub reservation_error : Error → Error
  reservation_error seat_already_booked = service ServiceError.seat_being_booked
  reservation_error seat_not_available = service ServiceError.seat_not_available
  reservation_error no_available_seats = service ServiceError.no_available_seats
  reservation_error other = other

  unfoldable pub reserve_seat : ℕ → ℕ → String → Exec Booking
  reserve_seat user_id event_id seat_number = do
    now ← time_now
    booking ←
        catch (create_reservation user_id event_id seat_number (now + s.reservation_timeout))
          (λ e. raise (reservation_error e))
    enqueue_expiry booking
    mark_seat_read_primary user_id event_id
    invalidate_cache event_id
    publish_event "booking.reserved" booking
    pure booking

  unfoldable pub release_expired_booking : Booking → Exec (Unit {0})
  release_expired_booking booking =
      handle (release_expired_reservation booking.id)
        (λ released. announce booking.user_id "booking.expired" released) tolerate

  unfoldable pub release_expired_booking_by_id : ℕ → Exec (Unit {0})
  release_expired_booking_by_id booking_id =
      handle (find_by_id booking_id)
        (λ booking. when (is_reserved booking.status) (release_expired_booking booking))
        tolerate_missing

  unfoldable pub release_each : List Booking → Exec (Unit {0})
  release_each [] = pure tt
  release_each (b ∷ bs) = ignore (release_expired_booking b) >>= λ _. release_each bs

  unfoldable pub cleanup_expired_reservations : Exec (Unit {0})
  cleanup_expired_reservations = do expired ← find_expired_reservations; release_each expired

  unfoldable pub cancel_booking : ℕ → ℕ → Exec (Unit {0})
  cancel_booking user_id booking_id = do
    booking ← get_booking_by_id user_id booking_id
    require (is_reserved booking.status) (service ServiceError.only_reserved_cancel)
    cancelled ← catch (cancel_reservation booking_id) (λ e. raise (cancel_error e))
    dequeue_expiry booking_id
    announce user_id "booking.cancelled" cancelled
