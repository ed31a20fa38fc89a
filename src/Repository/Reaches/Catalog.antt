-- ===== src/Repository/Reaches/Catalog.antt =====
-- The operations on events, seats, venues and users change the tables by steps of `Inventory` alone.
use ticket_master.Prelude.{String, ℕ, zero, suc, ◌+◌, ◌≡◌, refl, ap, sym, Option, none, some, List}
use ticket_master.Table.{find, written}
use ticket_master.Model.{
  Db, Event, Seat, Venue, User, UserRole, available, get_event, get_seat, get_venue, get_user,
}
use ticket_master.Exec.{Env, statement}
use ticket_master.Exec.Rules.{Ensures-state}
use ticket_master.Repository.Statements.{◌>>◌, stored}
use ticket_master.Repository.Reserve.{seat_of}
use ticket_master.Repository.Users.{
  has_email, with_users, insert_user_row, insert_user, create_user, find_user_by_email,
  find_user_by_id, update_role, update_user_role,
}
use ticket_master.Repository.Venues.{
  insert_venue_row, insert_venue, create_venue_row, find_venue_by_id,
}
use ticket_master.Repository.Events.{
  insert_event_row, insert_event, stamped_event, create_event_row, find_event_by_id,
}
use ticket_master.Repository.SeatNumber.{format_seat_number}
use ticket_master.Repository.Seats.{
  insert_seat_row, insert_seat, new_seat, insert_seats, prepare, create_bulk_seats,
}
use ticket_master.Repository.Refines.{IsLawful}
use ticket_master.Repository.Reaches.{
  Reaches, After, reaches_rules, statement-Reaches, select-Reaches, lone-Reaches, bind-Reaches,
  catch-Reaches, raise-Reaches, pure-Reaches, uuid_new-Reaches, time_now-Reaches,
}
use ticket_master.Repository.Reaches.Transactions.{transaction-Reaches}
use ticket_master.Inventory.{
  Reach, here, next, adds_venue, adds_user, changes_role, adds_event, adds_seat,
}

venue_inserted :
    (v : Venue) (db : Db) (o : Option Venue)
    → get_venue v.id db ≡ o
    → After db (insert_venue_row v db o)
venue_inserted v db none e = next here (adds_venue v e)
venue_inserted v db (some u) e = tt

user_inserted :
    (u : User) (db : Db) (o p : Option User)
    → get_user u.id db ≡ o
    → find (has_email u.email) db.users ≡ p
    → After db (insert_user_row u db o p)
user_inserted u db none none e h = next here (adds_user u e h)
user_inserted u db none (some p) e h = tt
user_inserted u db (some o) none e h = tt
user_inserted u db (some o) (some p) e h = tt

event_inserted :
    (e : Event) (db : Db) (v : Option Venue) (u : Option User) (o : Option Event)
    → get_event e.id db ≡ o
    → e.available_seats ≡ e.total_seats
    → After db (insert_event_row e db v u o)
event_inserted e db (some v) (some u) none h k = next here (adds_event e h k)
event_inserted e db (some v) (some u) (some o) h k = tt
event_inserted e db (some v) none o h k = tt
event_inserted e db none u o h k = tt

seat_inserted :
    (s : Seat) (db : Db) (e : Option Event) (o p : Option Seat)
    → get_seat s.id db ≡ o
    → find (seat_of s.event_id s.seat_number) db.seats ≡ p
    → s.status ≡ available
    → After db (insert_seat_row s db e o p)
seat_inserted s db (some e) none none h k a = next here (adds_seat s h k a)
seat_inserted s db (some e) none (some p) h k a = tt
seat_inserted s db (some e) (some o) p h k a = tt
seat_inserted s db none o p h k a = tt

role_updated :
    (db : Db) (id now : ℕ) (role : UserRole) (o : Option (User × List User))
    → update_role id role now db.users ≡ o
    → After db (stored (with_users db) o)
role_updated db id now role none e = tt
role_updated db id now role (some (u, rows)) e =
    let same = ap (written db.users) e in rw (sym same) (next here (changes_role id now role))

module _ {env : Env} (lawful : IsLawful env) where
  insert_venue-Reaches : (v : Venue) → Reaches env (insert_venue v)
  unfolding insert_venue
  insert_venue-Reaches v =
      statement-Reaches (λ _ db. insert_venue_row v db (get_venue v.id db))
        λ _ db. venue_inserted v db _ refl

  pub create_venue_row-Reaches : (v : Venue) → Reaches env (create_venue_row v)
  unfolding create_venue_row
  create_venue_row-Reaches v = search (reaches_rules, lone-Reaches, insert_venue-Reaches) depth 8

  pub find_venue_by_id-Reaches : (id : ℕ) → Reaches env (find_venue_by_id id)
  unfolding find_venue_by_id
  find_venue_by_id-Reaches id = search (reaches_rules)

  insert_user-Reaches : (u : User) → Reaches env (insert_user u)
  unfolding insert_user
  insert_user-Reaches u = statement-Reaches _ λ _ db. user_inserted u db _ _ refl refl

  pub create_user-Reaches : (u : User) → Reaches env (create_user u)
  unfolding create_user
  create_user-Reaches u = search (reaches_rules, lone-Reaches, insert_user-Reaches) depth 8

  pub find_user_by_email-Reaches : (email : String) → Reaches env (find_user_by_email email)
  unfolding find_user_by_email
  find_user_by_email-Reaches email = search (reaches_rules, lone-Reaches, select-Reaches)

  pub find_user_by_id-Reaches : (id : ℕ) → Reaches env (find_user_by_id id)
  unfolding find_user_by_id
  find_user_by_id-Reaches id = search (reaches_rules, lone-Reaches, select-Reaches)

  set_role-Reaches :
      (id now : ℕ) (role : UserRole)
      → Reaches env (statement (λ _ db. stored (with_users db) (update_role id role now db.users)))
  set_role-Reaches id now role = statement-Reaches _ λ _ db. role_updated db id now role _ refl

  pub update_user_role-Reaches : (id : ℕ) (role : UserRole) → Reaches env (update_user_role id role)
  unfolding update_user_role
  update_user_role-Reaches id role = search (reaches_rules, lone-Reaches, set_role-Reaches) depth 8

  insert_event-Reaches :
      (id now : ℕ) (e : Event) → Reaches env (insert_event (stamped_event id now e))
  unfolding insert_event
  insert_event-Reaches id now e =
      catch-Reaches _ _
        (statement-Reaches _ λ _ db. event_inserted (stamped_event id now e) db _ _ _ refl refl)
        λ _. raise-Reaches _

  pub create_event_row-Reaches : (e : Event) → Reaches env (create_event_row e)
  unfolding create_event_row
  create_event_row-Reaches e = search (reaches_rules, lone-Reaches, insert_event-Reaches) depth 8

  pub find_event_by_id-Reaches : (id : ℕ) → Reaches env (find_event_by_id id)
  unfolding find_event_by_id
  find_event_by_id-Reaches id = search (reaches_rules)

  insert_seat-Reaches :
      (id event now : ℕ) (number : String)
      → Reaches env (insert_seat (new_seat id event number now))
  unfolding insert_seat
  insert_seat-Reaches id event now number =
      catch-Reaches _ _
        (statement-Reaches _
          λ _ db. seat_inserted (new_seat id event number now) db _ _ _ refl refl refl)
        λ _. raise-Reaches _

  insert_seats-Reaches : (event i left : ℕ) → Reaches env (insert_seats event i left)
  unfolding insert_seats
  insert_seats-Reaches event i zero = pure-Reaches tt
  insert_seats-Reaches event i (suc left) = bind-Reaches _ _ uuid_new-Reaches λ id.
      bind-Reaches _ _ time_now-Reaches λ now.
        bind-Reaches _ _ (insert_seat-Reaches id event now (format_seat_number i))
          λ _. insert_seats-Reaches event (i + 1) left

  bulk_body-Reaches : (event total : ℕ) → Reaches env (prepare >> insert_seats event 1 total)
  unfolding prepare
  bulk_body-Reaches event total =
      bind-Reaches _ _ (select-Reaches (λ _ _. some tt)) λ _. insert_seats-Reaches event 1 total

  pub create_bulk_seats-Reaches : (event total : ℕ) → Reaches env (create_bulk_seats event total)
  unfolding create_bulk_seats
  create_bulk_seats-Reaches event total =
      transaction-Reaches lawful (prepare >> insert_seats event 1 total) (λ old _ db. Reach old db)
        (λ w.
          Ensures-state ((prepare >> insert_seats event 1 total) env w) (λ w'. Reach w.db w'.db)
            ((bulk_body-Reaches event total).at w))
        λ _ _ _ r. r
