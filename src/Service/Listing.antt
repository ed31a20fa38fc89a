-- ===== src/Service/Listing.antt =====
-- GetUserBookings of internal/services/booking_service.go.
use ticket_master.Prelude.{
  ℕ, ◌≡◌, refl, Bool, true, not, ◌&&◌, ◌||◌, ltb, List, [], ◌∷◌, ◌==◌, arith,
}
use ticket_master.Table.{count, order_by, insert_row_by, is_some}
use ticket_master.Model.{Db, Booking}
use ticket_master.Exec.{Env, World, Exec}
use ticket_master.Exec.Returns.{Returns, IsReliable, IsIdle, replica_select_returns}
use ticket_master.Repository.UserBookings.{
  BookingWithDetails, details_of, joined_rows, find_by_user_id,
}

unfoldable pub get_user_bookings : ℕ → Exec (List BookingWithDetails)
get_user_bookings user_id = find_by_user_id user_id

module _ {A : Type 0} (before : A → A → Bool) (p : A → Bool) where
  count-insert_row_by :
      (a : A) (rs : List A) → count p (insert_row_by before a rs) ≡ count p (a ∷ rs)
  count-insert_row_by a [] = refl
  count-insert_row_by a (r ∷ rs) = ground (arith, count-insert_row_by a rs)

  count-order_by : (rs : List A) → count p (order_by before rs) ≡ count p rs
  count-order_by [] = refl
  count-order_by (r ∷ rs) =
      ground (arith, count-insert_row_by r (order_by before rs), count-order_by rs)

-- The events, seats and venues of a user's bookings are in the tables, as the foreign keys ask.
abbrev pub resolved : Db → ℕ → List Booking → Bool
resolved db user_id [] = true
resolved db user_id (b ∷ bs) =
    (not (b.user_id == user_id) || is_some (details_of db b)) && resolved db user_id bs

abbrev pub is_booking : ℕ → BookingWithDetails → Bool
is_booking id d = d.booking.id == id

abbrev pub is_own : ℕ → ℕ → Booking → Bool
is_own user_id id b = b.user_id == user_id && b.id == id

count-joined_rows :
    (db : Db) (user_id id : ℕ) (bs : List Booking)
    → resolved db user_id bs ≡ true
    → count (is_booking id) (joined_rows db user_id bs) ≡ count (is_own user_id id) bs
count-joined_rows db user_id id [] h = refl
count-joined_rows db user_id id (b ∷ bs) h = ground (arith, count-joined_rows db user_id id bs)

abbrev later_first : BookingWithDetails → BookingWithDetails → Bool
later_first c d = ltb d.booking.created_at c.booking.created_at

-- Where the database answers, the replica is up to date, and the events, seats and venues of the
-- user's bookings are in the tables: GetUserBookings lists each booking of the user as often as it
-- is in the table, and no booking of anyone else; the tables stay as they are.
pub get_user_bookings_returns :
    (user_id id : ℕ) (env : Env) (w : World)
    → IsReliable env
    → IsIdle env
    → resolved w.db user_id w.db.bookings ≡ true
    → Returns (get_user_bookings user_id env w) (λ ds w'.
      (count (is_booking id) ds ≡ count (is_own user_id id) w.db.bookings) × (w'.db ≡ w.db))
unfolding get_user_bookings find_by_user_id
get_user_bookings_returns user_id id env w answers idle h =
    replica_select_returns _ env w _ (order_by later_first (joined_rows w.db user_id w.db.bookings))
      answers (rw (idle.in_sync w.calls w.db) refl)
      (
        rw (count-order_by later_first (is_booking id) (joined_rows w.db user_id w.db.bookings))
            (count-joined_rows w.db user_id id w.db.bookings h),
        refl,
      )
