-- ===== src/Events/Created.antt =====
-- internal/services/event_service.go: what CreateEvent leaves behind, where the database answers and
-- other clients are idle.
use ticket_master.Prelude.{
  ℕ, suc, ◌≤◌, ◌≡◌, refl, ap, ◌∙◌, String, Bool, true, false, none, some, arith, ==_refl,
}
use ticket_master.Table.{find, get}
use ticket_master.Model.{Db, Event, Venue, User, get_event, get_seat, get_venue, get_user}
use ticket_master.Exec.{Env, World, tick, pure, time_now, uuid_new, best_effort}
use ticket_master.Exec.Returns.{
  Returns, IsReliable, Returns-mono, bind_returns, catch_returns, statement_returns,
  replica_select_returns, IsIdle, idle_lone_returns,
}
use ticket_master.Repository.Reserve.{seat_of}
use ticket_master.Repository.Venues.{find_venue_by_id}
use ticket_master.Repository.Events.{add_event, insert_event, stamped_event, create_event_row}
use ticket_master.Events.{
  CreateEventRequest, requested_event, create_event, fill_event, invalidate_event_cache,
}
use ticket_master.Repository.Seats.Filled.{
  Offered, IsFresh, Room, Filled, new_Room, create_bulk_seats_returns,
}

abbrev pub IsAsRequested : CreateEventRequest → ℕ → Event → Type 0
IsAsRequested req created_by e = e ≡ (record (requested_event req created_by) {
  id = e.id;
  available_seats = req.total_seats;
  created_at = e.created_at;
  updated_at = e.created_at;
})

-- The event as it was requested, with its seats.
pub record Created (req : CreateEventRequest) (created_by : ℕ) (e : Event) (db : Db) : Type 0 where
  pub row : get_event e.id db ≡ some e
  pub as_requested : IsAsRequested req created_by e
  pub seats : (j : ℕ) → 1 ≤ j → j ≤ req.total_seats → Offered e.id j db

find_venue_returns :
    (env : Env) (w : World) (id : ℕ) (venue : Venue) (Q : Venue → World → Type 0)
    → IsReliable env
    → IsIdle env
    → get_venue id w.db ≡ some venue
    → Q venue (tick w)
    → Returns (find_venue_by_id id env w) Q
unfolding find_venue_by_id
find_venue_returns env w id venue Q reliable idle g q =
    catch_returns _ _ env w _
      (replica_select_returns _ env w _ venue reliable (rw (idle.in_sync w.calls w.db) g) q)

Filled-Created :
    (req : CreateEventRequest) (created_by : ℕ) (e : Event) (old db : Db)
    → get_event e.id old ≡ some e
    → IsAsRequested req created_by e
    → Filled e.id 1 req.total_seats old db
    → Created req created_by e db
Filled-Created req created_by e old db g q f = record {
  row = ap (get (λ e. e.id) e.id) f.same_events ∙ g;
  as_requested = q;
  seats = λ j h k. f.offers j h (omega arith);
}

module _ (env : Env) (reliable : IsReliable env) where
  create_row_returns :
      (w : World) (event : Event) (venue : Venue) (user : User) (Q : Event → World → Type 0)
      → IsIdle env
      → get_venue event.venue_id w.db ≡ some venue
      → get_user event.created_by w.db ≡ some user
      → get_event (env.uuid w.calls) w.db ≡ none
      → ((w' : World)
          → w'.db
            ≡ add_event (stamped_event (env.uuid w.calls) (env.clock (suc w.calls)) event) w.db
          → Q (stamped_event (env.uuid w.calls) (env.clock (suc w.calls)) event) w')
      → Returns (create_event_row event env w) Q
  unfolding create_event_row insert_event uuid_new time_now
  create_row_returns w event venue user Q idle gv gu ne k = bind_returns _ _ env w _ (
      bind_returns _ _ env _ _ (
        idle_lone_returns _ env _ _ idle (
          catch_returns _ _ env _ _
            (statement_returns _ env _ Q _ _ reliable (rw (gv, gu, ne) refl) (k _ refl)))))

  invalidated_returns :
      (w : World) (has_redis : Bool) (id : ℕ) (Q : Unit {0} → World → Type 0)
      → ((w' : World) → w'.db ≡ w.db → Q tt w')
      → Returns (invalidate_event_cache has_redis id env w) Q
  unfolding invalidate_event_cache best_effort pure
  invalidated_returns w false id Q k = k w refl
  invalidated_returns w true id Q k = rw (reliable w.calls) (k _ refl)

  -- The seats of an event that has just been stored.
  filled_returns :
      (w : World) (has_redis : Bool) (req : CreateEventRequest) (created_by : ℕ) (e : Event)
      → IsFresh env
      → IsIdle env
      → get_event e.id w.db ≡ some e
      → Room env e.id 1 w.calls w.db
      → IsAsRequested req created_by e
      → Returns
          (fill_event has_redis e req.total_seats env w)
          (λ e' w'. Created req created_by e' w'.db)
  unfolding fill_event pure
  filled_returns w has_redis req created_by e fresh idle g r q = bind_returns _ _ env w _ (
      Returns-mono _ _ _
        (create_bulk_seats_returns env reliable w e.id req.total_seats e fresh idle g r)
        λ _ w' f. bind_returns _ _ env w' _ (
          invalidated_returns w' has_redis e.id (λ _ x. Created req created_by e x.db)
            λ w'' d. rw d (Filled-Created req created_by e w.db w'.db g q f)))

-- Where the database answers, other clients are idle, the replica is up to date and uuids are not used
-- twice: an event of an existing venue, by an existing user, is created as requested, with all its
-- seats free, and with an available seat under the number of each of its seats.
pub create_event_returns :
    (env : Env) (w : World) (has_redis : Bool) (req : CreateEventRequest) (created_by : ℕ)
    (venue : Venue) (user : User)
    → IsReliable env
    → IsIdle env
    → IsFresh env
    → get_venue req.venue_id w.db ≡ some venue
    → get_user created_by w.db ≡ some user
    → ((n : ℕ) → get_event (env.uuid n) w.db ≡ none)
    → ((n : ℕ) → get_seat (env.uuid n) w.db ≡ none)
    → ((n : ℕ) (number : String) → find (seat_of (env.uuid n) number) w.db.seats ≡ none)
    → Returns (create_event has_redis req created_by env w) (λ e w'. Created req created_by e w'.db)
unfolding create_event
create_event_returns env w has_redis req created_by venue user reliable idle fresh gv gu ne ns nn =
    bind_returns _ _ env w _ (
      catch_returns _ _ env w _ (
        find_venue_returns env w req.venue_id venue _ reliable idle gv (
          bind_returns _ _ env _ _ (
            create_row_returns env reliable _ (requested_event req created_by) venue user _ idle gv
              gu (ne _)
              λ w' d.
                filled_returns env reliable w' has_redis req created_by _ fresh idle
                  (rw (d, ==_refl (env.uuid (suc w.calls))) refl)
                  (rw d (new_Room env reliable ns (nn _))) refl))))
