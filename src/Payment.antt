-- ===== src/Payment.antt =====
-- internal/services/payment_service.go. Stripe is a parameter: what it answers to a call may differ
-- from call to call. The amount in cents is a parameter too, since it is a float product.
pub mod Charge
use ticket_master.Prelude.{
  ℕ, String, Bool, true, false, Option, none, some, if◌then◌else◌, str_eq, ltb,
}
use ticket_master.Model.{Booking}
use ticket_master.Exec.{
  Exec, Error, ServiceError, service, driver, payment_failed, payment_declined, refund_failed,
  payment_intent_missing, pure, raise, answers, ◌>>=◌,
}
use ticket_master.Repository.Statements.{is_blank}

pub data IntentStatus : Type 0 where
  succeeded other_status : IntentStatus

pub record PaymentIntent : Type 0 where
  pub id : String
  pub status : IntentStatus
  pub amount : ℕ
  pub currency : String

-- What paymentintent.New is given of a booking.
pub record IntentParams : Type 0 where
  pub amount : ℕ
  pub currency : String
  pub booking_id : ℕ
  pub event_id : ℕ
  pub user_id : ℕ
  pub seat_id : ℕ
  pub idempotency_key : String
  pub receipt_email : Option String

-- A call of Stripe: an intent, a declined card, or another error.
pub data Reply : Type 0 where
  intent : PaymentIntent → Reply
  card_declined stripe_error : Reply

pub record Stripe : Type 0 where
  pub new_intent : ℕ → IntentParams → Reply
  pub get_intent : ℕ → String → Reply
  pub confirm_intent : ℕ → String → Reply
  pub new_refund : ℕ → String → Option ℕ → Bool  -- refund.New, of an amount in cents
  pub in_cents : ℕ → ℕ  -- int64(amount * 100)

pub record PaymentService : Type 0 where
  pub is_enabled : Bool
  pub currency : String
  pub stripe : Stripe
  pub simulated_id : ℕ → String  -- fmt.Sprintf("sim_%s", id)
  pub booking_key : ℕ → String  -- fmt.Sprintf("booking_%s", id)

pub record PaymentResult : Type 0 where
  pub payment_id : String
  pub status : IntentStatus
  pub amount : ℕ
  pub currency : String

abbrev pub payment_result_from_intent : PaymentIntent → PaymentResult
payment_result_from_intent pi = record {
  payment_id = pi.id;
  status = pi.status;
  amount = pi.amount;
  currency = pi.currency;
}

-- mapStripePaymentError
unfoldable pub charged_reply : Reply → Exec PaymentIntent
charged_reply (intent pi) = pure pi
charged_reply card_declined = raise (service payment_declined)
charged_reply stripe_error = raise (service payment_failed)

-- An error that is passed on under %w.
unfoldable pub plain_reply : Reply → Exec PaymentIntent
plain_reply (intent pi) = pure pi
plain_reply card_declined = raise driver
plain_reply stripe_error = raise driver

-- The intent after paymentintent.Confirm.
unfoldable pub confirmed : IntentStatus → PaymentIntent → Exec PaymentResult
confirmed succeeded pi = pure (payment_result_from_intent pi)
confirmed other_status pi = raise (service payment_failed)

module _ (s : PaymentService) where
  unfoldable pub simulate_payment : Booking → PaymentResult
  simulate_payment booking = record {
    payment_id = s.simulated_id booking.id;
    status = succeeded;
    amount = booking.total_amount;
    currency = "usd";
  }

  unfoldable pub new_payment_intent_params : Booking → IntentParams
  new_payment_intent_params booking = record {
    amount = s.stripe.in_cents booking.total_amount;
    currency = s.currency;
    booking_id = booking.id;
    event_id = booking.event_id;
    user_id = booking.user_id;
    seat_id = booking.seat_id;
    idempotency_key = s.booking_key booking.id;
    receipt_email = none;
  }

  unfoldable pub create_intent : Booking → Exec PaymentResult
  create_intent booking = do
    reply ← answers (λ n. s.stripe.new_intent n (new_payment_intent_params booking))
    pi ← charged_reply reply
    pure (record {
      payment_id = pi.id;
      status = pi.status;
      amount = booking.total_amount;
      currency = s.currency;
    })

  unfoldable pub prepare_payment_intent : Booking → Exec PaymentResult
  prepare_payment_intent booking =
      if s.is_enabled then create_intent booking else pure (simulate_payment booking)

  unfoldable pub confirm_unless : IntentStatus → PaymentIntent → String → Exec PaymentResult
  confirm_unless succeeded pi id = pure (payment_result_from_intent pi)
  confirm_unless other_status pi id = do
    reply ← answers (λ n. s.stripe.confirm_intent n id)
    pi' ← charged_reply reply
    confirmed pi'.status pi'

  unfoldable pub confirm_with_stripe : String → Exec PaymentResult
  confirm_with_stripe id = do
    reply ← answers (λ n. s.stripe.get_intent n id)
    pi ← plain_reply reply
    confirm_unless pi.status pi id

  unfoldable pub confirm_booking_payment : String → Exec PaymentResult
  confirm_booking_payment id =
      if str_eq id ""
      then raise (service payment_intent_missing)
      else if s.is_enabled
      then confirm_with_stripe id
      else pure (record { payment_id = id; status = succeeded; amount = 0; currency = "usd" })

  unfoldable pub process_payment : Option String → Exec PaymentResult
  process_payment none = raise (service payment_intent_missing)
  process_payment (some id) = confirm_booking_payment id

  -- What the intent of a booking is answered as.
  abbrev pub intent_result : Booking → PaymentIntent → PaymentResult
  intent_result booking pi = record {
    payment_id = pi.id;
    status = pi.status;
    amount = booking.total_amount;
    currency = s.currency;
  }

  abbrev pub with_receipt : String → IntentParams → IntentParams
  with_receipt email params =
      if str_eq email "" then params else record params { receipt_email = some email }

  unfoldable pub create_for_client : Booking → String → Exec PaymentResult
  create_for_client booking email = do
    reply ←
        answers
          (λ n. s.stripe.new_intent n (with_receipt email (new_payment_intent_params booking)))
    pi ← plain_reply reply
    pure (intent_result booking pi)

  -- CreatePaymentIntent
  unfoldable pub create_payment_intent : Booking → String → Exec PaymentResult
  create_payment_intent booking email =
      if s.is_enabled then create_for_client booking email else pure (simulate_payment booking)

  -- ConfirmPayment
  unfoldable pub confirm_payment : String → Exec PaymentResult
  confirm_payment id = confirm_booking_payment id

  abbrev pub refund_amount : ℕ → Option ℕ
  refund_amount amount = if ltb 0 amount then some (s.stripe.in_cents amount) else none

  unfoldable pub refund_with_stripe : String → ℕ → Exec (Unit {0})
  refund_with_stripe id amount = do
    taken ← answers (λ n. s.stripe.new_refund n id (refund_amount amount))
    if taken then pure tt else raise (service refund_failed)

  -- RefundPayment
  unfoldable pub refund_payment : String → ℕ → Exec (Unit {0})
  refund_payment id amount = if s.is_enabled then refund_with_stripe id amount else pure tt
