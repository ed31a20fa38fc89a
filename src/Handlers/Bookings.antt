-- ===== src/Handlers/Bookings.antt =====
-- internal/handlers/booking_handler.go, where no queue is configured, and the replies to requests that
-- go to the queue.
use ticket_master.Prelude.{ℕ, String, Bool, true, false, Option, none, some, List}
use ticket_master.Model.{Booking}
use ticket_master.Exec.{Exec, Error, ServiceError, service, event_not_found}
use ticket_master.Service.{Service, reserve_seat, get_booking_by_id, cancel_booking}
use ticket_master.Service.Purchase.{purchase_booking}
use ticket_master.Service.Bulk.{bulk_reserve}
use ticket_master.Jobs.{
  BookingJob, Jobs, JobStatus, JobLookup, found, job_not_found, lookup_failed, enqueue_booking_job,
  get_job_status,
}
use ticket_master.Handlers.{Reply, replied, refused, respond_with, bound, signed_in}

pub record ReserveSeatRequest : Type 0 where
  pub event_id : ℕ
  pub seat_number : String

pub record BulkReserveRequest : Type 0 where
  pub event_id : ℕ
  pub seat_numbers : List String

-- handleReservationError
abbrev pub reservation_status : Error → ℕ
reservation_status (service ServiceError.seat_being_booked) = 409
reservation_status (service ServiceError.seat_not_available) = 409
reservation_status (service ServiceError.no_available_seats) = 409
reservation_status event_not_found = 404
reservation_status other = 500

-- handlePurchaseError
abbrev pub purchase_status : Error → ℕ
purchase_status (service ServiceError.booking_expired) = 400
purchase_status (service ServiceError.not_reserved) = 400
purchase_status (service ServiceError.booking_not_found) = 404
purchase_status (service ServiceError.unauthorized) = 403
purchase_status other = 500

-- handleBulkReserveError
abbrev pub bulk_status : Error → ℕ
bulk_status (service ServiceError.no_seats_requested) = 400
bulk_status (service ServiceError.too_many_seats) = 400
bulk_status event_not_found = 400
bulk_status (service ServiceError.no_available_seats) = 400
bulk_status other = 409

abbrev pub cancel_status : Error → ℕ
cancel_status (service ServiceError.booking_not_found) = 404
cancel_status (service ServiceError.only_reserved_cancel) = 400
cancel_status (service ServiceError.unauthorized) = 403
cancel_status other = 500

abbrev pub booking_status : Error → ℕ
booking_status (service ServiceError.booking_not_found) = 404
booking_status (service ServiceError.unauthorized) = 404
booking_status other = 500

module _ (s : Service) where
  -- ReserveSeat, without a queue
  unfoldable pub reserve_seat_handler : Option ReserveSeatRequest → Option ℕ → Exec (Reply Booking)
  reserve_seat_handler request caller = bound request λ req. signed_in caller λ user_id.
      respond_with 201 reservation_status (reserve_seat s user_id req.event_id req.seat_number)

  -- PurchaseBooking, without a queue
  unfoldable pub purchase_booking_handler : Option ℕ → Option ℕ → Exec (Reply Booking)
  purchase_booking_handler request caller = bound request λ booking_id.
      signed_in caller
        λ user_id. respond_with 200 purchase_status (purchase_booking s user_id booking_id)

  -- BulkReserve
  unfoldable pub bulk_reserve_handler :
      (ℕ → ℕ) → Option BulkReserveRequest → Option ℕ → Exec (Reply (List Booking))
  bulk_reserve_handler schedule request caller = bound request λ req. signed_in caller λ user_id.
      respond_with 201 bulk_status (bulk_reserve s user_id req.event_id schedule req.seat_numbers)

  -- CancelBooking
  unfoldable pub cancel_booking_handler : Option ℕ → Option ℕ → Exec (Reply (Unit {0}))
  cancel_booking_handler path caller = bound path λ booking_id.
      signed_in caller
        λ user_id. respond_with 200 cancel_status (cancel_booking s user_id booking_id)

-- GetBooking
unfoldable pub get_booking_handler : Option ℕ → Option ℕ → Exec (Reply Booking)
get_booking_handler path caller = bound path λ booking_id.
    signed_in caller
      λ user_id. respond_with 200 booking_status (get_booking_by_id user_id booking_id)

abbrev pub queued_job : ℕ → ReserveSeatRequest → BookingJob
queued_job user_id req = record {
  id = 0;
  user_id = user_id;
  event_id = req.event_id;
  seat_number = req.seat_number;
  attempt = 0;
  created_at = 0;
}

abbrev pub accepted_job : ℕ → Bool × Jobs → Reply ℕ × Jobs
accepted_job id (true, js) = (replied 202 id, js)
accepted_job id (false, js) = (refused 500, js)

abbrev pub enqueue_for :
    Bool → Bool → Bool → ℕ → ℕ → ReserveSeatRequest → Option ℕ → Jobs → Reply ℕ × Jobs
enqueue_for kafka stored written id now req none js = (refused 401, js)
enqueue_for kafka stored written id now req (some user_id) js =
    accepted_job id (enqueue_booking_job kafka stored written id now (queued_job user_id req) js)

-- ReserveSeat, with a queue; the Booleans and the new id are those of enqueue_booking_job
unfoldable pub reserve_seat_queued :
    Bool → Bool → Bool → ℕ → ℕ → Option ReserveSeatRequest → Option ℕ → Jobs → Reply ℕ × Jobs
reserve_seat_queued kafka stored written id now none caller js = (refused 400, js)
reserve_seat_queued kafka stored written id now (some req) caller js =
    enqueue_for kafka stored written id now req caller js

abbrev pub lookup_reply : JobLookup → Reply JobStatus
lookup_reply (found status) = replied 200 status
lookup_reply job_not_found = refused 404
lookup_reply lookup_failed = refused 500

-- GetJobStatus; the Booleans say whether there is a queue and whether Redis answers.
unfoldable pub get_job_status_handler : Bool → Bool → Option ℕ → Jobs → Reply JobStatus
get_job_status_handler queue stored none js = refused 400
get_job_status_handler false stored (some job_id) js = refused 503
get_job_status_handler true stored (some job_id) js = lookup_reply (get_job_status stored job_id js)
