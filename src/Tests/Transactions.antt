-- ===== src/Tests/Transactions.antt =====
-- The transactions on the event of two seats.
use ticket_master.Prelude.{◌≡◌, refl, true, false, some, [], ◌∷◌, arith}
use ticket_master.Model.{SeatStatus, cancelled, expired, purchased}
use ticket_master.Exec.{World}
use ticket_master.Exec.Rules.{Ensures}
use ticket_master.Exec.Returns.{Returns}
use ticket_master.Repository.Reserve.{create_reservation}
use ticket_master.Repository.Purchase.{complete_purchase, revert_failed_purchase}
use ticket_master.Repository.Release.{
  release_expired_reservation, cancel_reservation, extend_reservation,
}
use ticket_master.Repository.Refines.Reserve.{Reserved}
use ticket_master.Repository.Refines.Purchase.{Completed, Reverted}
use ticket_master.Repository.Refines.Release.{Released, Extended}
use ticket_master.Repository.Contract.{
  release_expired_reservation_lem, extend_reservation_lem, revert_failed_purchase_lem,
}
use ticket_master.Repository.Succeeds.{
  create_reservation_returns, complete_purchase_returns, cancel_reservation_returns,
}
use ticket_master.Payment.{
  PaymentIntent, PaymentService, intent, succeeded, other_status, process_payment,
}
use ticket_master.Payment.Charge.{process_payment-succeeded}
use ticket_master.Tests.Fixtures.{
  calm, customer, late, at_open, one_held, booking_of_7, concert, seat_at, opened, calm-IsReliable,
}

create_reservation_returns_example :
    Returns
      (create_reservation 7 1 "A1" 700 calm at_open)
      (λ b w. Reserved 7 1 700 "A1" opened b w.db)
create_reservation_returns_example =
    create_reservation_returns calm calm-IsReliable at_open 7 1 700 "A1"
      (customer 7 "g@example.com") concert (seat_at 11 "A1") refl refl refl refl refl refl refl

complete_purchase_returns_example :
    Returns (complete_purchase 1008 calm one_held) (λ b w. Completed 1008 one_held.db b w.db)
complete_purchase_returns_example =
    complete_purchase_returns calm calm-IsReliable one_held 1008 booking_of_7 refl refl
      (omega arith)

cancel_reservation_returns_example :
    Returns
      (cancel_reservation 1008 calm one_held)
      (λ b w. Released 1008 cancelled false 100 one_held.db b w.db)
cancel_reservation_returns_example =
    cancel_reservation_returns calm calm-IsReliable one_held 1008 booking_of_7 refl refl

release_expired_reservation_lem_example :
    Ensures
      (release_expired_reservation 1008 late one_held)
      (λ b w. Released 1008 expired true 800 one_held.db b w.db)
release_expired_reservation_lem_example = release_expired_reservation_lem late one_held 1008

extend_reservation_lem_example :
    Ensures
      (extend_reservation 1008 900 calm one_held)
      (λ b w. Extended 1008 900 one_held.db b w.db)
extend_reservation_lem_example = extend_reservation_lem calm one_held 1008 900

-- User 7 has bought seat A1.
abbrev one_sold : World
one_sold = record one_held {
  db = record one_held.db {
    seats = (record (seat_at 11 "A1") { status = SeatStatus.sold }) ∷ seat_at 12 "A2" ∷ [];
    bookings = (record booking_of_7 { status = purchased }) ∷ [];
  };
}

revert_failed_purchase_lem_example :
    Ensures (revert_failed_purchase 1008 calm one_sold) (λ b w. Reverted 1008 one_sold.db b w.db)
revert_failed_purchase_lem_example = revert_failed_purchase_lem calm one_sold 1008

-- An intent that is to be confirmed.
abbrev asked_intent : PaymentIntent
asked_intent = record { id = "pi_1"; status = other_status; amount = 2500; currency = "usd" }

abbrev obliging : PaymentService
obliging = record {
  is_enabled = true;
  currency = "usd";
  stripe = record {
    new_intent = λ n params. intent asked_intent;
    get_intent = λ n id. intent asked_intent;
    confirm_intent = λ n id. intent (record asked_intent { status = succeeded });
    new_refund = λ n id amount. true;
    in_cents = λ amount. amount;
  };
  simulated_id = λ n. "sim";
  booking_key = λ n. "booking";
}

process_payment-succeeded_example :
    Ensures (process_payment obliging (some "pi_1") calm one_held) (λ r _. r.status ≡ succeeded)
process_payment-succeeded_example = process_payment-succeeded obliging (some "pi_1") calm one_held
