-- ===== src/Service/Purchase.antt =====
-- internal/services/booking_service.go: PurchaseBooking and the payment behind it.
use Prim.Native.Char.{code}
use ticket_master.Prelude.{
  ℕ, ◌+◌, String, Bool, true, false, ◌&&◌, ◌||◌, Option, none, some, ◌==◌, ltb, leb, if◌then◌else◌,
}
use ticket_master.Model.{Booking, is_reserved, is_purchased}
use ticket_master.Payment
use ticket_master.Payment.{PaymentService, prepare_payment_intent}
use ticket_master.Exec.{
  Exec, Error, ServiceError, service, seat_not_available, booking_not_reserved, booking_expired,
  payment_intent_missing, pure, raise, catch, handle, time_now, ◌>>=◌,
}
use ticket_master.Repository.Statements.{◌>>◌, require, find_by_id}
use ticket_master.Repository.Purchase.{complete_purchase, revert_failed_purchase}
use ticket_master.Repository.Release.{extend_reservation, set_payment_intent_id}
use ticket_master.Service.{
  Service, ignore, enqueue_expiry, dequeue_expiry, announce, release_expired_booking,
  get_booking_by_id,
}

-- unicode.IsSpace
unfoldable pub is_space : ℕ → Bool
is_space c =
    (leb 9 c && leb c 13)
    || c == 32
    || c == 0x85
    || c == 0xa0
    || c == 0x1680
    || (leb 0x2000 c && leb c 0x200a)
    || c == 0x2028
    || c == 0x2029
    || c == 0x202f
    || c == 0x205f
    || c == 0x3000

-- strings.TrimSpace(s) == ""
unfoldable pub is_all_space : String → Bool
is_all_space String.[] = true
is_all_space (String.◌∷◌ c s) = is_space (code c) && is_all_space s

unfoldable pub lacks_intent : Option String → Bool
lacks_intent none = true
lacks_intent (some id) = is_all_space id

-- 2 * time.Minute
abbrev pub purchase_processing_extension : ℕ
purchase_processing_extension = 120_000_000_000

abbrev pub extend_error : Error → Error
extend_error booking_expired = service ServiceError.booking_expired
extend_error booking_not_reserved = service ServiceError.not_reserved
extend_error seat_not_available = service ServiceError.seat_not_available
extend_error other = other

module _ (s : Service) where
  unfoldable pub prepare_with : Option PaymentService → Booking → Exec Booking
  prepare_with none booking = pure booking
  prepare_with (some p) booking =
      if lacks_intent booking.payment_intent_id
      then (do
        result ← prepare_payment_intent p booking
        set_payment_intent_id booking.id result.payment_id)
      else pure booking

  unfoldable pub ensure_payment_intent : Booking → Exec Booking
  ensure_payment_intent booking = prepare_with s.payments booking

  unfoldable pub charge_with : Option PaymentService → Booking → Exec (Unit {0})
  charge_with none booking = pure tt
  charge_with (some p) booking =
      if lacks_intent booking.payment_intent_id
      then raise (service payment_intent_missing)
      else (do _ ← Payment.process_payment p booking.payment_intent_id; pure tt)

  unfoldable pub process_payment : Booking → Exec (Unit {0})
  process_payment booking = charge_with s.payments booking

  unfoldable pub revert_purchase : ℕ → Exec (Unit {0})
  revert_purchase booking_id =
      handle (revert_failed_purchase booking_id)
        (λ reverted. announce s reverted.user_id "booking.cancelled" reverted) (λ _. pure tt)

  unfoldable pub finish_purchased : Booking → Exec Booking
  finish_purchased booking = do
    booking' ← ensure_payment_intent booking
    process_payment booking'
    announce s booking'.user_id "booking.purchased" booking'
    pure booking'

  -- What is left once the purchase is committed.
  unfoldable pub settle_purchase : ℕ → ℕ → Booking → Exec Booking
  settle_purchase user_id booking_id booking = do
    dequeue_expiry s booking_id
    handle (process_payment booking)
        (λ _. announce s user_id "booking.purchased" booking >> pure booking)
        (λ e. revert_purchase booking_id >> raise e)

  -- What follows a purchase that could not be completed.
  unfoldable pub after_refusal : ℕ → Error → Exec Booking
  after_refusal booking_id booking_expired = raise (service ServiceError.booking_expired)
  after_refusal booking_id booking_not_reserved =
      handle (find_by_id booking_id)
        (λ updated.
          if is_purchased updated.status
          then finish_purchased updated
          else raise (service ServiceError.not_reserved))
        (λ _. raise (service ServiceError.not_reserved))
  after_refusal booking_id other = raise other

  unfoldable pub give_up_expired : Bool → Booking → Exec (Unit {0})
  give_up_expired true booking =
      ignore (release_expired_booking s booking) >> raise (service ServiceError.booking_expired)
  give_up_expired false booking = pure tt

  unfoldable pub purchase_booking : ℕ → ℕ → Exec Booking
  purchase_booking user_id booking_id = do
    booking ← get_booking_by_id user_id booking_id
    require (is_reserved booking.status) (service ServiceError.not_reserved)
    now ← time_now
    give_up_expired (ltb booking.expires_at now) booking
    start ← time_now
    extended ←
        catch (extend_reservation booking_id (start + purchase_processing_extension))
          (λ e. raise (extend_error e))
    enqueue_expiry s extended
    ensure_payment_intent extended
    handle (complete_purchase booking_id) (settle_purchase user_id booking_id)
        (after_refusal booking_id)
