-- ===== src/Handlers/Queue.antt =====
-- internal/handlers/booking_handler.go: the queued purchase, the metrics of the queue and the bookings of
-- the caller.
use ticket_master.Prelude.{
  ℕ, String, Bool, true, false, ◌&&◌, not, Option, none, some, List, if◌then◌else◌, str_eq,
}
use ticket_master.Exec.{Exec}
use ticket_master.Repository.UserBookings.{BookingWithDetails}
use ticket_master.Service.Listing.{get_user_bookings}
use ticket_master.Jobs.Purchases.{
  PurchaseJob, Commands, QueueMetrics, enqueue_purchase_job, get_metrics,
}
use ticket_master.Handlers.{Reply, replied, refused, respond_with, signed_in}

pub record PurchaseBookingRequest : Type 0 where
  pub booking_id : ℕ
  pub idempotency_key : String

-- The header comes before the body's own key.
abbrev pub chosen_key : String → String → String
chosen_key header own = if str_eq header "" && not (str_eq own "") then own else header

abbrev pub queued_purchase : ℕ → String → PurchaseBookingRequest → PurchaseJob
queued_purchase user_id header req = record {
  id = 0;
  user_id = user_id;
  booking_id = req.booking_id;
  idempotency_key = chosen_key header req.idempotency_key;
  attempt = 0;
  created_at = 0;
}

abbrev pub accepted_purchase : ℕ → Bool × Commands → Reply ℕ × Commands
accepted_purchase id (true, cs) = (replied 202 id, cs)
accepted_purchase id (false, cs) = (refused 500, cs)

abbrev pub enqueue_purchase_for :
    Bool
    → Bool
    → Bool
    → ℕ
    → ℕ
    → String
    → PurchaseBookingRequest
    → Option ℕ
    → Commands
    → Reply ℕ × Commands
enqueue_purchase_for kafka stored written id now header req none cs = (refused 401, cs)
enqueue_purchase_for kafka stored written id now header req (some user_id) cs =
    accepted_purchase id
      (enqueue_purchase_job kafka stored written id now (queued_purchase user_id header req) cs)

-- PurchaseBooking, with a queue; the Booleans and the new id are those of enqueue_purchase_job
unfoldable pub purchase_booking_queued :
    Bool
    → Bool
    → Bool
    → ℕ
    → ℕ
    → String
    → Option PurchaseBookingRequest
    → Option ℕ
    → Commands
    → Reply ℕ × Commands
purchase_booking_queued kafka stored written id now header none caller cs = (refused 400, cs)
purchase_booking_queued kafka stored written id now header (some req) caller cs =
    enqueue_purchase_for kafka stored written id now header req caller cs

abbrev pub metrics_reply : Option QueueMetrics → Reply QueueMetrics
metrics_reply none = refused 500
metrics_reply (some m) = replied 200 m

-- GetQueueMetrics; the first Boolean says whether there is a queue.
unfoldable pub get_queue_metrics_handler :
    Bool → Bool → Bool → Bool → (ℕ → Bool) → ℕ → Commands → Reply QueueMetrics
get_queue_metrics_handler false kafka bookings purchases answers max_retries cs = refused 503
get_queue_metrics_handler true kafka bookings purchases answers max_retries cs =
    metrics_reply (get_metrics kafka bookings purchases answers max_retries cs)

-- GetMyBookings
unfoldable pub get_my_bookings_handler : Option ℕ → Exec (Reply (List BookingWithDetails))
get_my_bookings_handler caller =
    signed_in caller λ user_id. respond_with 200 (λ _. 500) (get_user_bookings user_id)
