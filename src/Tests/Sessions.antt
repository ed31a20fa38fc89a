-- ===== src/Tests/Sessions.antt =====
-- A session on the event of two seats: users 7 and 8 want seat A1, user 7 gets and buys it, and
-- user 8 takes A2.
use ticket_master.Prelude.{◌+◌, ◌≡◌, refl, some, List, [], ◌∷◌, true}
use ticket_master.Table.{count, update}
use ticket_master.Model.{
  Booking, Event, Seat, Db, held, sold, purchased, is_active, is_sold, get_seat,
}
use ticket_master.Zset.{zrem, insert, zadd}
use ticket_master.Exec.{
  ok, err, service, ServiceError, tick, joined, ◌>>=◌, handle, pure, raise, catch, time_now,
  uuid_new, best_effort, statement, lone, transaction,
}
use ticket_master.Repository.Statements.{
  require, update_booking, update_seat, set_seat, update_event, find_booking_for_update, find_by_id,
  lock_seat_by_id,
}
use ticket_master.Repository.Reserve.{
  reserve_seat_tx, refuse_event, no_seat_left, insert_booking, create_reservation_tx,
  create_reservation,
}
use ticket_master.Repository.Purchase.{
  complete_reserved, complete_found, complete_purchase_tx, complete_purchase,
}
use ticket_master.Repository.Release.{extend_reservation_tx, extend_reservation}
use ticket_master.Service.{
  get_booking_by_id, enqueue_expiry, dequeue_expiry, invalidate_cache, mark_seat_read_primary,
  publish_event, announce, reserve_seat,
}
use ticket_master.Service.Purchase.{
  prepare_with, ensure_payment_intent, charge_with, process_payment, settle_purchase,
  give_up_expired, purchase_booking,
}
use ticket_master.Inventory.{Reach}
use ticket_master.Handlers.{refused}
use ticket_master.Handlers.Bookings.{get_booking_handler}
use ticket_master.Handlers.Hidden.{get_booking_hides}
use ticket_master.Inventory.Invariant.{on_seat, of_event}
use ticket_master.Session.{Call, reserve, purchase, run_call, run_calls}
use ticket_master.Session.Safety.{
  run_calls-Reach, no_double_booking, never_oversold, seat_has_holder, purchased_is_sold,
}
use ticket_master.Session.Owner.{purchase_booking_refused}
use ticket_master.Tests.Fixtures.{
  plain_service, calm, at_open, opened, one_held, booking_of_7, concert, seat_at, calm-IsLawful,
  opened-Inv,
}

abbrev rivals : List Call
rivals = reserve 7 1 "A1" ∷ reserve 8 1 "A1" ∷ purchase 7 1008 ∷ reserve 8 1 "A2" ∷ []

abbrev full_concert : Event
full_concert = record concert { available_seats = 0; updated_at = 143 }

abbrev sold_seat : Seat
sold_seat = record (seat_at 11 "A1") { status = sold }

abbrev bought : Booking
bought = record booking_of_7 {
  status = purchased;
  purchased_at = some 132;
  expires_at = 120_000_000_121;
  updated_at = 132;
}

abbrev booking_of_8 : Booking
booking_of_8 = record booking_of_7 {
  id = 1050;
  user_id = 8;
  seat_id = 12;
  reserved_at = 149;
  expires_at = 742;
  created_at = 149;
  updated_at = 149;
}

abbrev sold_out : Db
sold_out = record opened {
  events = full_concert ∷ [];
  seats =
      sold_seat
      ∷ (record (seat_at 12 "A2") {
        status = held;
        reserved_at = some 143;
        reserved_until = some 742;
      })
      ∷ [];
  bookings = booking_of_8 ∷ bought ∷ [];
}

rivals_lem : (run_calls plain_service calm rivals at_open).db ≡ sold_out
unfolding run_calls run_call reserve_seat purchase_booking create_reservation create_reservation_tx
    transaction ◌>>=◌ catch handle pure raise time_now uuid_new best_effort statement lone update
    require update_booking update_seat set_seat update_event find_booking_for_update find_by_id
    lock_seat_by_id reserve_seat_tx refuse_event no_seat_left insert_booking complete_reserved
    complete_found complete_purchase_tx complete_purchase extend_reservation_tx extend_reservation
    get_booking_by_id enqueue_expiry dequeue_expiry invalidate_cache mark_seat_read_primary
    publish_event announce prepare_with ensure_payment_intent charge_with process_payment
    settle_purchase give_up_expired zadd zrem insert
rivals_lem = refl

no_double_booking_example : bought.id ≡ 1008
no_double_booking_example =
    no_double_booking plain_service calm rivals at_open 1008 1008 bought bought calm-IsLawful
      opened-Inv (rw rivals_lem refl) (rw rivals_lem refl) refl refl refl

never_oversold_example :
    full_concert.available_seats
      + count (of_event 1) (run_calls plain_service calm rivals at_open).db.bookings
    ≡ 2
never_oversold_example =
    never_oversold plain_service calm rivals at_open 1 full_concert calm-IsLawful opened-Inv
      (rw rivals_lem refl)

seat_has_holder_example :
    count (on_seat is_active 11) (run_calls plain_service calm rivals at_open).db.bookings ≡ 1
seat_has_holder_example =
    seat_has_holder plain_service calm rivals at_open 11 sold_seat calm-IsLawful opened-Inv
      (rw rivals_lem refl)

purchased_is_sold_example :
    (seat : Seat) × (get_seat 11 (run_calls plain_service calm rivals at_open).db ≡ some seat)
    × (is_sold seat.status ≡ true)
purchased_is_sold_example =
    purchased_is_sold plain_service calm rivals at_open 1008 bought calm-IsLawful opened-Inv
      (rw rivals_lem refl) refl

purchase_booking_refused_example :
    purchase_booking plain_service 8 1008 calm one_held
    ≡ (err (service ServiceError.unauthorized), tick (joined calm one_held))
purchase_booking_refused_example =
    purchase_booking_refused calm one_held 1008 booking_of_7 plain_service 8 refl refl refl

run_calls-Reach_example : Reach opened (run_calls plain_service calm rivals at_open).db
run_calls-Reach_example = run_calls-Reach plain_service calm calm-IsLawful rivals at_open

get_booking_hides_example :
    get_booking_handler (some 1008) (some 8) calm one_held
    ≡ (ok (refused 404), tick (joined calm one_held))
get_booking_hides_example = get_booking_hides calm one_held 1008 8 refl refl
