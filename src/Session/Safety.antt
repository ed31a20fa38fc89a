-- ===== src/Session/Safety.antt =====
-- What customers may rely on, whichever calls are made, whatever fails and however other processes
-- interleave: the tables stay in agreement, so no seat is given twice and no event is oversold.
use ticket_master.Prelude.{
  ℕ, ◌+◌, ◌≤◌, ◌≡◌, refl, Bool, true, Option, none, some, List, [], ◌∷◌, arith, not, indicator,
}
use ticket_master.Table.{count}
use ticket_master.Model.{
  Booking, Event, Seat, SeatStatus, is_active, is_purchased, is_sold, is_available, get_booking,
  get_event, get_seat, User, get_user,
}
use ticket_master.Exec.{Env, World}
use ticket_master.Repository.Refines.{IsLawful}
use ticket_master.Service.{Service}
use ticket_master.Service.Reaches.{
  reserve_seat-Reaches, release_expired_booking_by_id-Reaches, cleanup-Reaches,
  cancel_booking-Reaches,
}
use ticket_master.Service.Reaches.Purchase.{purchase_booking-Reaches}
use ticket_master.Expiry.Reaches.{process_due-Reaches}
use ticket_master.Service.Bulk.Workers.{bulk_reserve-Reaches}
use ticket_master.Events.Reaches.{
  create_venue-Reaches, create_event-Reaches, get_event_by_id-Reaches,
}
use ticket_master.Auth.Reaches.{
  register-Reaches, login-Reaches, promote_to_admin-Reaches, demote_to_user-Reaches,
}
use ticket_master.Inventory
use ticket_master.Inventory.{Reach, here}
use ticket_master.Inventory.Invariant.{Inv, on_seat, of_event, seat_in}
use ticket_master.Inventory.Preserves.{Reach-trans, Reach-Inv}
use ticket_master.Inventory.Safety
use ticket_master.Inventory.Emails
use ticket_master.Inventory.Emails.{Unshared}
use ticket_master.Inventory.Safety.{one-le-count, count-on_seat}
use ticket_master.Session.{
  Call, reserve, purchase, cancel, expire, clean_up, release_due, bulk, add_venue, add_event,
  view_event, sign_up, log_in, promote, demote, run_call, run_calls,
}

module _ (s : Service) (env : Env) (lawful : IsLawful env) where
  run_call-Reach : (c : Call) (w : World) → Reach w.db (run_call s env c w).db
  unfolding run_call
  run_call-Reach (reserve user event seat) w = (reserve_seat-Reaches lawful s user event seat).at w
  run_call-Reach (purchase user id) w = (purchase_booking-Reaches lawful s user id).at w
  run_call-Reach (cancel user id) w = (cancel_booking-Reaches lawful s user id).at w
  run_call-Reach (expire id) w = (release_expired_booking_by_id-Reaches lawful s id).at w
  run_call-Reach clean_up w = (cleanup-Reaches lawful s).at w
  run_call-Reach (release_due spell index count) w =
      (process_due-Reaches lawful spell s index count).at w
  run_call-Reach (bulk user event schedule seats) w =
      (bulk_reserve-Reaches lawful s user event schedule seats).at w
  run_call-Reach (add_venue req) w = (create_venue-Reaches lawful req).at w
  run_call-Reach (add_event req created_by) w =
      (create_event-Reaches lawful s.has_cache req created_by).at w
  run_call-Reach (view_event id) w = (get_event_by_id-Reaches lawful s.has_cache id).at w
  run_call-Reach (sign_up c config req) w = (register-Reaches lawful c config req).at w
  run_call-Reach (log_in c config email password) w =
      (login-Reaches lawful c config email password).at w
  run_call-Reach (promote id) w = (promote_to_admin-Reaches lawful id).at w
  run_call-Reach (demote id) w = (demote_to_user-Reaches lawful id).at w

  -- Whichever calls are made and whatever fails in them, the tables change by steps of the
  -- contract alone, where other processes keep to the contract.
  pub run_calls-Reach : (cs : List Call) (w : World) → Reach w.db (run_calls s env cs w).db
  unfolding run_calls
  run_calls-Reach [] w = here
  run_calls-Reach (c ∷ cs) w =
      Reach-trans (run_call-Reach c w) (run_calls-Reach cs (run_call s env c w))

-- Tables that agree with one another still do after any calls, whatever failed in them, where
-- other processes keep to the contract.
pub run_calls-Inv :
    (s : Service) (env : Env) (cs : List Call) (w : World)
    → IsLawful env
    → Inv w.db
    → Inv (run_calls s env cs w).db
run_calls-Inv s env cs w lawful v = Reach-Inv v (run_calls-Reach s env lawful cs w)

-- After any calls on tables that agree, where other processes keep to the contract, two bookings of
-- the same seat that are both reserved or purchased are the same booking.
pub no_double_booking :
    (s : Service) (env : Env) (cs : List Call) (w : World) (i j : ℕ) (a b : Booking)
    → IsLawful env
    → Inv w.db
    → get_booking i (run_calls s env cs w).db ≡ some a
    → get_booking j (run_calls s env cs w).db ≡ some b
    → is_active a.status ≡ true
    → is_active b.status ≡ true
    → a.seat_id ≡ b.seat_id
    → i ≡ j
no_double_booking s env cs w i j a b lawful v =
    Inventory.Safety.no_double_booking w.db (run_calls s env cs w).db i j a b v
      (run_calls-Reach s env lawful cs w)

-- After any calls on tables that agree, where other processes keep to the contract, an event's
-- counter of free seats and its bookings that are reserved or purchased add up to its seats.
pub never_oversold :
    (s : Service) (env : Env) (cs : List Call) (w : World) (k : ℕ) (e : Event)
    → IsLawful env
    → Inv w.db
    → get_event k (run_calls s env cs w).db ≡ some e
    → e.available_seats + count (of_event k) (run_calls s env cs w).db.bookings ≡ e.total_seats
never_oversold s env cs w k e lawful v =
    Inventory.Safety.never_oversold w.db (run_calls s env cs w).db k e v
      (run_calls-Reach s env lawful cs w)

seat_in_inversion :
    (test : SeatStatus → Bool) (o : Option Seat)
    → 1 ≤ seat_in test o
    → (seat : Seat) × (o ≡ some seat) × (test seat.status ≡ true)
seat_in_inversion test none h = ground arith
seat_in_inversion test (some s) h = (s, refl, ground arith)

-- After any calls on tables that agree, where other processes keep to the contract, the seat of a
-- purchased booking is in the table and is sold.
pub purchased_is_sold :
    (s : Service) (env : Env) (cs : List Call) (w : World) (i : ℕ) (b : Booking)
    → IsLawful env
    → Inv w.db
    → get_booking i (run_calls s env cs w).db ≡ some b
    → is_purchased b.status ≡ true
    → (seat : Seat) × (get_seat b.seat_id (run_calls s env cs w).db ≡ some seat)
      × (is_sold seat.status ≡ true)
purchased_is_sold s env cs w i b lawful v e p =
    let db = (run_calls s env cs w).db in
    seat_in_inversion is_sold (get_seat b.seat_id db) (
      ground (
        arith,
        (run_calls-Inv s env cs w lawful v).sales b.seat_id,
        one-le-count (λ b. b.id) (on_seat is_purchased b.seat_id) i db.bookings b,
      ))

-- After any calls on tables that agree, where other processes keep to the contract, an available
-- seat has no booking that is reserved or purchased, and any other seat has exactly one.
pub seat_has_holder :
    (s : Service) (env : Env) (cs : List Call) (w : World) (k : ℕ) (seat : Seat)
    → IsLawful env
    → Inv w.db
    → get_seat k (run_calls s env cs w).db ≡ some seat
    → count (on_seat is_active k) (run_calls s env cs w).db.bookings
      ≡ indicator (not (is_available seat.status))
seat_has_holder s env cs w k seat lawful v e =
    let inv = run_calls-Inv s env cs w lawful v in
    ground (arith, inv.holds k, inv.sales k, count-on_seat k (run_calls s env cs w).db.bookings)

-- After any calls on tables in which no two users share an e-mail address, registrations included and
-- whatever fails in them, where other processes keep to the contract, two users with the same address
-- are the same user.
pub no_shared_email :
    (s : Service) (env : Env) (cs : List Call) (w : World) (i j : ℕ) (a b : User)
    → IsLawful env
    → Unshared w.db.users
    → get_user i (run_calls s env cs w).db ≡ some a
    → get_user j (run_calls s env cs w).db ≡ some b
    → a.email ≡ b.email
    → i ≡ j
no_shared_email s env cs w i j a b lawful h =
    Inventory.Emails.no_shared_email w.db _ i j a b h (run_calls-Reach s env lawful cs w)
