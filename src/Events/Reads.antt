-- ===== src/Events/Reads.antt =====
-- Reading events: what the summary of the seats says.
use ticket_master.Prelude.{
  ℕ, ◌+◌, ◌≡◌, refl, sym, ◌∙◌, Bool, true, false, none, some, List, [], ◌∷◌, length, arith,
}
use ticket_master.Table.{count, rows_where}
use ticket_master.Model.{Db, Event, get_event, Seat, SeatStatus}
use ticket_master.Exec.{Env, World, pure}
use ticket_master.Exec.Returns.{
  Returns, IsReliable, IsIdle, bind_returns, catch_returns, replica_select_returns,
  idle_lone_returns,
}
use ticket_master.Repository.Statements.Returns.{select_returns}
use ticket_master.Repository.Events.{find_event_by_id}
use ticket_master.Repository.Seats.{same_status, in_event, seat_read, find_by_event_id}
use ticket_master.Events.{
  SeatsSummary, SeatsResponse, get_event_seats, empty_summary, count_status, count_seats,
  calculate_seats_summary,
}

-- The number that a summary gives for a status.
abbrev pub counted : SeatStatus → SeatsSummary → ℕ
counted SeatStatus.available c = c.available
counted SeatStatus.held c = c.reserved
counted SeatStatus.sold c = c.sold

abbrev pub has_status : SeatStatus → Seat → Bool
has_status status s = same_status status s.status

abbrev pub any_seat : Seat → Bool
any_seat s = true

-- ORDER BY changes the order of the rows alone.
abbrev pub IsOrdering : (List Seat → List Seat) → Type 0
IsOrdering sort = (p : Seat → Bool) (seats : List Seat) → count p (sort seats) ≡ count p seats

counted-count_seats :
    (status : SeatStatus) (seats : List Seat) (c : SeatsSummary)
    → counted status (count_seats seats c) ≡ counted status c + count (has_status status) seats
counted-count_seats status [] c = omega arith
counted-count_seats status (s ∷ ss) c =
    ground (arith, counted-count_seats status ss (count_status s.status c))

total-count_seats : (seats : List Seat) (c : SeatsSummary) → (count_seats seats c).total ≡ c.total
total-count_seats [] c = refl
total-count_seats (s ∷ ss) c = ground (arith, total-count_seats ss (count_status s.status c))

count-rows_where :
    (event : ℕ) (status : SeatStatus) (seats : List Seat)
    → count (has_status status) (rows_where (in_event event none) seats)
      ≡ count any_seat (rows_where (in_event event (some status)) seats)
count-rows_where event status [] = refl
count-rows_where event status (s ∷ ss) = ground (arith, count-rows_where event status ss)

length-count : (seats : List Seat) → length seats ≡ count any_seat seats
length-count [] = refl
length-count (s ∷ ss) = ground (arith, length-count ss)

statuses :
    (seats : List Seat)
    → count (has_status SeatStatus.available) seats
        + count (has_status SeatStatus.held) seats
        + count (has_status SeatStatus.sold) seats
      ≡ count any_seat seats
statuses [] = omega arith
statuses (s ∷ ss) = ground (arith, statuses ss)

-- A summary and a listing of the same tables.
abbrev pub Agrees : SeatStatus → SeatsResponse → Type 0
Agrees status r =
    (length r.seats ≡ counted status r.summary)
    × (r.summary.available + r.summary.reserved + r.summary.sold ≡ r.summary.total)

counted-summary :
    (status : SeatStatus) (seats : List Seat)
    → counted status (calculate_seats_summary seats) ≡ count (has_status status) seats
unfolding calculate_seats_summary
counted-summary SeatStatus.available seats =
    ground (arith, counted-count_seats SeatStatus.available seats (empty_summary (length seats)))
counted-summary SeatStatus.held seats =
    ground (arith, counted-count_seats SeatStatus.held seats (empty_summary (length seats)))
counted-summary SeatStatus.sold seats =
    ground (arith, counted-count_seats SeatStatus.sold seats (empty_summary (length seats)))

total-summary : (seats : List Seat) → (calculate_seats_summary seats).total ≡ length seats
unfolding calculate_seats_summary
total-summary seats = total-count_seats seats (empty_summary (length seats))

summary_adds_up :
    (seats : List Seat)
    → let c = calculate_seats_summary seats in c.available + c.reserved + c.sold ≡ c.total
summary_adds_up seats = ground (
  arith,
  counted-summary SeatStatus.available seats,
  counted-summary SeatStatus.held seats,
  counted-summary SeatStatus.sold seats,
  total-summary seats,
  length-count seats,
  statuses seats,
)

module _ (sort : List Seat → List Seat) (ordering : IsOrdering sort) where
  listing_agrees :
      (event : ℕ) (status : SeatStatus) (seats : List Seat)
      → length (sort (rows_where (in_event event (some status)) seats))
        ≡ counted status (calculate_seats_summary (sort (rows_where (in_event event none) seats)))
  listing_agrees event status seats =
      length-count (sort (rows_where (in_event event (some status)) seats))
      ∙ ordering any_seat (rows_where (in_event event (some status)) seats)
      ∙ sym (count-rows_where event status seats)
      ∙ sym (ordering (has_status status) (rows_where (in_event event none) seats))
      ∙ sym (counted-summary status (sort (rows_where (in_event event none) seats)))

module _ (env : Env) (reliable : IsReliable env) (idle : IsIdle env) where
  seat_read_returns :
      {A : Type 0} (use_primary : Bool) (q : Db → A) (w : World) (Q : A → World → Type 0)
      → ((w' : World) → w'.db ≡ w.db → Q (q w.db) w')
      → Returns (seat_read use_primary (λ db. some (q db)) env w) Q
  unfolding seat_read
  seat_read_returns true q w Q k =
      idle_lone_returns _ env w Q idle
        (select_returns env _ (λ _ db. some (q db)) _ Q reliable refl (k _ refl))
  seat_read_returns false q w Q k =
      replica_select_returns _ env w Q (q w.db) reliable (rw (idle.in_sync w.calls w.db) refl)
        (k _ refl)

-- Where the database answers, other clients are idle and the replica is up to date, the listing of an
-- event's seats of one status returns as many seats as its summary gives for that status, and the
-- summary's numbers for the statuses add up to its total.
pub get_event_seats-Agrees :
    (sort : List Seat → List Seat) (env : Env) (w : World) (use_primary : Bool) (event : ℕ)
    (e : Event) (status : SeatStatus)
    → IsOrdering sort
    → IsReliable env
    → IsIdle env
    → get_event event w.db ≡ some e
    → Returns (get_event_seats sort use_primary event (some status) env w) (λ r _. Agrees status r)
unfolding get_event_seats find_by_event_id find_event_by_id pure
get_event_seats-Agrees sort env w use_primary event e status ordering reliable idle g =
    bind_returns _ _ env w _ (
      catch_returns _ _ env w _ (
        catch_returns _ _ env w _ (
          replica_select_returns _ env w _ e reliable (rw (idle.in_sync w.calls w.db) g) (
            bind_returns _ _ env _ _ (
              seat_read_returns env reliable idle use_primary _ _ _ λ w' d.
                bind_returns _ _ env w' _ (
                  seat_read_returns env reliable idle use_primary _ w' _ λ w'' d'. rw d (
                    listing_agrees sort ordering event status w.db.seats,
                    summary_adds_up (sort (rows_where (in_event event none) w.db.seats)),
                  )))))))
