-- ===== src/Repository/Purchase.antt =====
-- internal/repository/booking_repository.go: CompletePurchase and RevertFailedPurchase.
use ticket_master.Prelude.{ℕ, Bool, true, ◌&&◌, none, some, ltb, leb}
use ticket_master.Model.{
  Booking, Seat, BookingStatus, reserved, purchased, cancelled, expired, sold, is_reserved,
  is_purchased, is_sold,
}
use ticket_master.Exec.{
  Exec, booking_not_reserved, booking_not_purchased, booking_expired, pure, raise, time_now,
  transaction, ◌>>=◌,
}
use ticket_master.Repository.Statements.{
  ◌>>◌, require, or_missing, update_booking, set_seat, return_seat, find_booking_for_update,
  free_seat,
}

-- id = $2 AND status = 'reserved' AND expires_at > CURRENT_TIMESTAMP
abbrev pub still_reserved : ℕ → Booking → Bool
still_reserved t b = is_reserved b.status && ltb t b.expires_at

abbrev pub purchase : ℕ → Booking → Booking
purchase t b = record b { status = purchased; purchased_at = some t; updated_at = t }

abbrev pub sell_seat : ℕ → Seat → Seat
sell_seat t s = record s { status = sold; reserved_at = none; reserved_until = none }

unfoldable pub complete_reserved : ℕ → Booking → Exec Booking
complete_reserved id booking = do
  now ← time_now
  require (leb now booking.expires_at) booking_expired
  row ← or_missing (update_booking id still_reserved purchase) booking_not_reserved
  set_seat booking.seat_id (λ _. true) sell_seat
  pure (record booking {
    status = purchased;
    purchased_at = row.purchased_at;
    updated_at = row.updated_at;
  })

unfoldable pub complete_found : BookingStatus → ℕ → Booking → Exec Booking
complete_found purchased id booking = pure booking
complete_found reserved id booking = complete_reserved id booking
complete_found cancelled id booking = raise booking_not_reserved
complete_found expired id booking = raise booking_not_reserved

unfoldable pub complete_purchase_tx : ℕ → Exec Booking
complete_purchase_tx id = do
  booking ← find_booking_for_update id
  complete_found booking.status id booking

unfoldable pub complete_purchase : ℕ → Exec Booking
complete_purchase id = transaction (complete_purchase_tx id)

abbrev pub revert : ℕ → Booking → Booking
revert t b = record b {
  status = cancelled;
  purchased_at = none;
  payment_intent_id = none;
  updated_at = t;
}

unfoldable pub revert_failed_purchase_tx : ℕ → Exec Booking
revert_failed_purchase_tx id = do
  booking ← find_booking_for_update id
  require (is_purchased booking.status) booking_not_purchased
  or_missing (update_booking id (λ _ b. is_purchased b.status) revert) booking_not_purchased
  set_seat booking.seat_id (λ s. is_sold s.status) free_seat
  return_seat booking.event_id
  pure (record booking { status = cancelled; purchased_at = none; payment_intent_id = none })

unfoldable pub revert_failed_purchase : ℕ → Exec Booking
revert_failed_purchase id = transaction (revert_failed_purchase_tx id)
