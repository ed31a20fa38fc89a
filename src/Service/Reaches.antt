-- ===== src/Service/Reaches.antt =====
-- The services change the tables by steps of `Inventory` alone.
pub mod Purchase
use ticket_master.Prelude.{ℕ, String, Bool, true, false, Option, none, some, List, [], ◌∷◌}
use ticket_master.Model.{Booking}
use ticket_master.Payment
use ticket_master.Payment.{
  PaymentService, IntentStatus, Reply, PaymentIntent, succeeded, other_status, intent,
  card_declined, stripe_error, charged_reply, plain_reply, confirmed, confirm_unless,
  confirm_with_stripe, confirm_booking_payment, create_intent, prepare_payment_intent,
}
use ticket_master.Exec.{
  Env, Exec, Error, booking_not_reserved, booking_not_found, booking_expired, driver,
}
use ticket_master.Repository.Refines.{IsLawful}
use ticket_master.Repository.Reaches.{
  Reaches, reaches_rules, pure-Reaches, raise-Reaches, bind-Reaches,
}
use ticket_master.Repository.Reaches.Transactions.{
  create_reservation-Reaches, complete_purchase-Reaches, revert_failed_purchase-Reaches,
  extend_reservation-Reaches, release_expired_reservation-Reaches, cancel_reservation-Reaches,
  find_by_id-Reaches, find_expired_reservations-Reaches, set_payment_intent_id-Reaches,
}
use ticket_master.Service.{
  Service, ignore, when, enqueue_expiry, dequeue_expiry, invalidate_cache, mark_seat_read_primary,
  publish_event, announce, reserve_seat, tolerate, tolerate_missing, get_booking_by_id,
  release_expired_booking, release_expired_booking_by_id, release_each,
  cleanup_expired_reservations, cancel_booking,
}
use ticket_master.Service.Purchase.{
  prepare_with, ensure_payment_intent, charge_with, process_payment, revert_purchase,
  finish_purchased, settle_purchase, after_refusal, give_up_expired, purchase_booking,
}

module _ {env : Env} where
  pub when-Reaches : (b : Bool) (m : Exec (Unit {0})) → Reaches env m → Reaches env (when b m)
  when-Reaches true m h = h
  when-Reaches false m h = pure-Reaches tt

  pub ignore-Reaches {ℓ} : {A : Type ℓ} (m : Exec A) → Reaches env m → Reaches env (ignore m)
  unfolding ignore
  ignore-Reaches m h = search reaches_rules

  pub tolerate-Reaches : (e : Error) → Reaches env (tolerate e)
  unfolding tolerate
  tolerate-Reaches booking_not_reserved = pure-Reaches tt
  tolerate-Reaches driver = raise-Reaches driver
  tolerate-Reaches e = raise-Reaches e

  pub tolerate_missing-Reaches : (e : Error) → Reaches env (tolerate_missing e)
  unfolding tolerate_missing
  tolerate_missing-Reaches booking_not_found = pure-Reaches tt
  tolerate_missing-Reaches driver = raise-Reaches driver
  tolerate_missing-Reaches e = raise-Reaches e

  module _ (s : Service) where
    pub enqueue_expiry-Reaches : (b : Booking) → Reaches env (enqueue_expiry s b)
    unfolding enqueue_expiry
    enqueue_expiry-Reaches b = search (reaches_rules, when-Reaches)

    pub dequeue_expiry-Reaches : (id : ℕ) → Reaches env (dequeue_expiry s id)
    unfolding dequeue_expiry
    dequeue_expiry-Reaches id = search (reaches_rules, when-Reaches)

    pub invalidate_cache-Reaches : (id : ℕ) → Reaches env (invalidate_cache s id)
    unfolding invalidate_cache
    invalidate_cache-Reaches id = search (reaches_rules, when-Reaches)

    pub mark-Reaches : (user event : ℕ) → Reaches env (mark_seat_read_primary s user event)
    unfolding mark_seat_read_primary
    mark-Reaches user event = search (reaches_rules, when-Reaches)

    pub publish-Reaches : (type : String) (b : Booking) → Reaches env (publish_event s type b)
    unfolding publish_event
    publish-Reaches type b = search (reaches_rules, when-Reaches)

pub ruleset service_rules = (
  reaches_rules, when-Reaches, ignore-Reaches, tolerate-Reaches, tolerate_missing-Reaches,
  enqueue_expiry-Reaches, dequeue_expiry-Reaches, invalidate_cache-Reaches, mark-Reaches,
  publish-Reaches,
)

module _ {env : Env} (lawful : IsLawful env) (s : Service) where
  pub announce-Reaches :
      (user : ℕ) (type : String) (b : Booking) → Reaches env (announce s user type b)
  unfolding announce
  announce-Reaches user type b = search service_rules depth 8

  pub reserve_seat-Reaches :
      (user event : ℕ) (number : String) → Reaches env (reserve_seat s user event number)
  unfolding reserve_seat
  reserve_seat-Reaches user event number =
      search (service_rules, create_reservation-Reaches) depth 12

  pub get_booking_by_id-Reaches : (user id : ℕ) → Reaches env (get_booking_by_id user id)
  unfolding get_booking_by_id
  get_booking_by_id-Reaches user id = search (service_rules, find_by_id-Reaches) depth 8

  pub release_expired_booking-Reaches : (b : Booking) → Reaches env (release_expired_booking s b)
  unfolding release_expired_booking
  release_expired_booking-Reaches b =
      search (service_rules, release_expired_reservation-Reaches, announce-Reaches) depth 8

  pub release_expired_booking_by_id-Reaches :
      (id : ℕ) → Reaches env (release_expired_booking_by_id s id)
  unfolding release_expired_booking_by_id
  release_expired_booking_by_id-Reaches id =
      search (service_rules, find_by_id-Reaches, release_expired_booking-Reaches) depth 8

  release_each-Reaches : (bs : List Booking) → Reaches env (release_each s bs)
  unfolding release_each
  release_each-Reaches [] = pure-Reaches tt
  release_each-Reaches (b ∷ bs) =
      bind-Reaches _ _ (ignore-Reaches _ (release_expired_booking-Reaches b))
        λ _. release_each-Reaches bs

  pub cleanup-Reaches : Reaches env (cleanup_expired_reservations s)
  unfolding cleanup_expired_reservations
  cleanup-Reaches = search (service_rules, find_expired_reservations-Reaches, release_each-Reaches)

  pub cancel_booking-Reaches : (user id : ℕ) → Reaches env (cancel_booking s user id)
  unfolding cancel_booking
  cancel_booking-Reaches user id =
      search
        (service_rules, get_booking_by_id-Reaches, cancel_reservation-Reaches, announce-Reaches)
        depth 12
