-- ===== src/Inventory/Safety.antt =====
-- What agreement of the tables means for customers: no seat is given twice, no event is oversold.
use ticket_master.Prelude.{ℕ, ◌+◌, ◌≤◌, ◌≡◌, ◌≢◌, Bool, true, some, List, [], ◌∷◌, arith, refl}
use ticket_master.Table.{get, count}
use ticket_master.Model.{
  Db, Booking, Event, is_reserved, is_purchased, is_active, get_booking, get_event,
}
use native.Mathlib.Decide.{ℕ_discrete}
use ticket_master.Inventory.{Reach}
use ticket_master.Inventory.Invariant.{Inv, on_seat, of_event}
use ticket_master.Inventory.Preserves.{Reach-Inv}

module _ {A : Type 0} (key : A → ℕ) (p : A → Bool) where
  pub one-le-count :
      (i : ℕ) (rs : List A) (a : A) → get key i rs ≡ some a → p a ≡ true → 1 ≤ count p rs
  one-le-count i [] a e h = ground arith
  one-le-count i (x ∷ rs) a e h = ground (arith, one-le-count i rs a)

  two-le-count :
      (i j : ℕ) (rs : List A) (a b : A)
      → i ≢ j
      → get key i rs ≡ some a
      → get key j rs ≡ some b
      → p a ≡ true
      → p b ≡ true
      → 2 ≤ count p rs
  two-le-count i j [] a b n e f h k = ground arith
  two-le-count i j (x ∷ rs) a b n e f h k =
      ground (arith, two-le-count i j rs a b, one-le-count i rs a, one-le-count j rs b)

pub count-on_seat :
    (k : ℕ) (bs : List Booking)
    → count (on_seat is_active k) bs
      ≡ count (on_seat is_reserved k) bs + count (on_seat is_purchased k) bs
count-on_seat k [] = refl
count-on_seat k (b ∷ bs) = ground (arith, count-on_seat k bs)

active_le_one : {db : Db} → Inv db → (k : ℕ) → count (on_seat is_active k) db.bookings ≤ 1
active_le_one {db} v k = ground (arith, v.holds k, v.sales k, count-on_seat k db.bookings)

-- From tables that agree, after any number of transactions of any clients, two active bookings
-- (reserved or purchased) of the same seat are the same booking.
pub no_double_booking :
    (start db : Db) (i j : ℕ) (a b : Booking)
    → Inv start
    → Reach start db
    → get_booking i db ≡ some a
    → get_booking j db ≡ some b
    → is_active a.status ≡ true
    → is_active b.status ≡ true
    → a.seat_id ≡ b.seat_id
    → i ≡ j
no_double_booking start db i j a b v r e f h k s = elim (ℕ_discrete i j) [
  | yes same ↦ same
  | no differ ↦ absurd (
      ground (
        arith,
        active_le_one (Reach-Inv v r) b.seat_id,
        two-le-count (λ b. b.id) (on_seat is_active b.seat_id) i j db.bookings a b differ,
      ))
]

-- From tables that agree, after any number of transactions of any clients, an event's counter of
-- free seats and its active bookings add up to its seats.
pub never_oversold :
    (start db : Db) (k : ℕ) (e : Event)
    → Inv start
    → Reach start db
    → get_event k db ≡ some e
    → e.available_seats + count (of_event k) db.bookings ≡ e.total_seats
never_oversold start db k e v r f = ground (arith, (Reach-Inv v r).stock k)
