-- ===== src/Payment/Charge.antt =====
-- What a payment that went through means.
use ticket_master.Prelude.{◌≡◌, refl, String, Option, none, some, str_eq}
use ticket_master.Exec.{Env, World, pure, raise}
use ticket_master.Exec.Rules.{Ensures, bind_rule, if_rule, Ensures-all}
use ticket_master.Payment.{
  PaymentService, PaymentIntent, IntentStatus, succeeded, other_status, charged_reply, plain_reply,
  confirmed, confirm_unless, confirm_with_stripe, confirm_booking_payment, process_payment,
}

module _ (s : PaymentService) (env : Env) where
  confirmed_rule :
      (t : IntentStatus) (pi : PaymentIntent) (w : World)
      → t ≡ pi.status
      → Ensures (confirmed t pi env w) (λ r _. r.status ≡ succeeded)
  unfolding confirmed pure raise
  confirmed_rule succeeded pi w e = cc
  confirmed_rule other_status pi w e = tt

  confirm_unless_rule :
      (t : IntentStatus) (pi : PaymentIntent) (id : String) (w : World)
      → t ≡ pi.status
      → Ensures (confirm_unless s t pi id env w) (λ r _. r.status ≡ succeeded)
  unfolding confirm_unless pure
  confirm_unless_rule succeeded pi id w e = cc
  confirm_unless_rule other_status pi id w e = bind_rule _ _ env w _ (
      Ensures-all _ _ λ reply w'.
        bind_rule (charged_reply reply) _ env w' _
          (Ensures-all _ _ λ pi' w''. confirmed_rule pi'.status pi' w'' refl))

  confirm_with_stripe_rule :
      (id : String) (w : World)
      → Ensures (confirm_with_stripe s id env w) (λ r _. r.status ≡ succeeded)
  unfolding confirm_with_stripe
  confirm_with_stripe_rule id w = bind_rule _ _ env w _ (
      Ensures-all _ _ λ reply w'.
        bind_rule (plain_reply reply) _ env w' _
          (Ensures-all _ _ λ pi w''. confirm_unless_rule pi.status pi id w'' refl))

  confirm_rule :
      (id : String) (w : World)
      → Ensures (confirm_booking_payment s id env w) (λ r _. r.status ≡ succeeded)
  unfolding confirm_booking_payment pure raise
  confirm_rule id w =
      if_rule (str_eq id "") _ _ env w (λ r _. r.status ≡ succeeded) tt
        (if_rule s.is_enabled _ _ env w (λ r _. r.status ≡ succeeded)
          (confirm_with_stripe_rule id w) refl)

-- Whatever Stripe answers, ProcessPayment returns only a payment whose status is `succeeded`; every
-- other outcome is an error.
pub process_payment-succeeded :
    (s : PaymentService) (id : Option String) (env : Env) (w : World)
    → Ensures (process_payment s id env w) (λ r _. r.status ≡ succeeded)
unfolding process_payment raise
process_payment-succeeded s none env w = tt
process_payment-succeeded s (some id) env w = confirm_rule s env id w
