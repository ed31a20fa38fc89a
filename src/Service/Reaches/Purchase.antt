-- ===== src/Service/Reaches/Purchase.antt =====
-- A purchase changes the tables by steps of `Inventory` alone, payments included.
use ticket_master.Prelude.{ℕ, String, Bool, true, false, Option, none, some}
use ticket_master.Model.{Booking}
use ticket_master.Payment
use ticket_master.Payment.{
  PaymentService, IntentStatus, Reply, PaymentIntent, succeeded, other_status, intent,
  card_declined, stripe_error, charged_reply, plain_reply, confirmed, confirm_unless,
  confirm_with_stripe, confirm_booking_payment, create_intent, prepare_payment_intent,
}
use ticket_master.Exec.{Env, Error, booking_not_reserved, booking_expired, driver}
use ticket_master.Repository.Refines.{IsLawful}
use ticket_master.Repository.Reaches.{Reaches, pure-Reaches, raise-Reaches}
use ticket_master.Repository.Reaches.Transactions.{
  complete_purchase-Reaches, revert_failed_purchase-Reaches, extend_reservation-Reaches,
  find_by_id-Reaches, set_payment_intent_id-Reaches,
}
use ticket_master.Service.{Service}
use ticket_master.Service.Reaches.{
  service_rules, announce-Reaches, get_booking_by_id-Reaches, release_expired_booking-Reaches,
}
use ticket_master.Service.Purchase.{
  prepare_with, ensure_payment_intent, charge_with, process_payment, revert_purchase,
  finish_purchased, settle_purchase, after_refusal, give_up_expired, purchase_booking,
}

module _ {env : Env} where
  charged_reply-Reaches : (r : Reply) → Reaches env (charged_reply r)
  unfolding charged_reply
  charged_reply-Reaches (intent pi) = pure-Reaches pi
  charged_reply-Reaches card_declined = raise-Reaches _
  charged_reply-Reaches stripe_error = raise-Reaches _

  plain_reply-Reaches : (r : Reply) → Reaches env (plain_reply r)
  unfolding plain_reply
  plain_reply-Reaches (intent pi) = pure-Reaches pi
  plain_reply-Reaches card_declined = raise-Reaches _
  plain_reply-Reaches stripe_error = raise-Reaches _

  confirmed-Reaches : (t : IntentStatus) (pi : PaymentIntent) → Reaches env (confirmed t pi)
  unfolding confirmed
  confirmed-Reaches succeeded pi = pure-Reaches _
  confirmed-Reaches other_status pi = raise-Reaches _

  module _ (p : PaymentService) where
    prepare-Reaches : (b : Booking) → Reaches env (prepare_payment_intent p b)
    unfolding prepare_payment_intent create_intent
    prepare-Reaches b = search (service_rules, charged_reply-Reaches) depth 8

    confirm_unless-Reaches :
        (t : IntentStatus) (pi : PaymentIntent) (id : String)
        → Reaches env (confirm_unless p t pi id)
    unfolding confirm_unless
    confirm_unless-Reaches succeeded pi id = pure-Reaches _
    confirm_unless-Reaches other_status pi id =
        search (service_rules, charged_reply-Reaches, confirmed-Reaches) depth 8

    confirm-Reaches : (id : String) → Reaches env (confirm_booking_payment p id)
    unfolding confirm_booking_payment confirm_with_stripe
    confirm-Reaches id = search (service_rules, plain_reply-Reaches, confirm_unless-Reaches) depth 8

    process-Reaches : (id : Option String) → Reaches env (Payment.process_payment p id)
    unfolding Payment.process_payment
    process-Reaches none = raise-Reaches _
    process-Reaches (some id) = confirm-Reaches id

  charge_with-Reaches :
      (s : Service) (p : Option PaymentService) (b : Booking) → Reaches env (charge_with s p b)
  unfolding charge_with
  charge_with-Reaches s none b = pure-Reaches tt
  charge_with-Reaches s (some p) b = search (service_rules, process-Reaches) depth 8

ruleset payment_rules = (service_rules, prepare-Reaches, charge_with-Reaches)

module _ {env : Env} (lawful : IsLawful env) (s : Service) where
  prepare_with-Reaches :
      (p : Option PaymentService) (b : Booking) → Reaches env (prepare_with s p b)
  unfolding prepare_with
  prepare_with-Reaches none b = pure-Reaches b
  prepare_with-Reaches (some p) b = search (payment_rules, set_payment_intent_id-Reaches) depth 8

  ensure-Reaches : (b : Booking) → Reaches env (ensure_payment_intent s b)
  unfolding ensure_payment_intent
  ensure-Reaches b = prepare_with-Reaches s.payments b

  process_payment-Reaches : (b : Booking) → Reaches env (process_payment s b)
  unfolding process_payment
  process_payment-Reaches b = charge_with-Reaches s s.payments b

  revert_purchase-Reaches : (id : ℕ) → Reaches env (revert_purchase s id)
  unfolding revert_purchase
  revert_purchase-Reaches id =
      search (service_rules, revert_failed_purchase-Reaches, announce-Reaches) depth 8

  finish_purchased-Reaches : (b : Booking) → Reaches env (finish_purchased s b)
  unfolding finish_purchased
  finish_purchased-Reaches b =
      search (service_rules, ensure-Reaches, process_payment-Reaches, announce-Reaches) depth 12

  settle_purchase-Reaches : (user id : ℕ) (b : Booking) → Reaches env (settle_purchase s user id b)
  unfolding settle_purchase
  settle_purchase-Reaches user id b =
      search (service_rules, process_payment-Reaches, announce-Reaches, revert_purchase-Reaches)
        depth 12

  after_refusal-Reaches : (id : ℕ) (e : Error) → Reaches env (after_refusal s id e)
  unfolding after_refusal
  after_refusal-Reaches id booking_expired = raise-Reaches _
  after_refusal-Reaches id booking_not_reserved =
      search (service_rules, find_by_id-Reaches, finish_purchased-Reaches) depth 8
  after_refusal-Reaches id driver = raise-Reaches _
  after_refusal-Reaches id e = raise-Reaches _

  give_up_expired-Reaches : (late : Bool) (b : Booking) → Reaches env (give_up_expired s late b)
  unfolding give_up_expired
  give_up_expired-Reaches true b = search (service_rules, release_expired_booking-Reaches) depth 8
  give_up_expired-Reaches false b = pure-Reaches tt

  pub purchase_booking-Reaches : (user id : ℕ) → Reaches env (purchase_booking s user id)
  unfolding purchase_booking
  purchase_booking-Reaches user id =
      search
        (
          service_rules, get_booking_by_id-Reaches, give_up_expired-Reaches,
          extend_reservation-Reaches, ensure-Reaches, complete_purchase-Reaches,
          settle_purchase-Reaches, after_refusal-Reaches,
        )
        depth 20
