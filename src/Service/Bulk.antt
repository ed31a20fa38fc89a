-- ===== src/Service/Bulk.antt =====
-- internal/services/booking_service.go: BulkReserve. The goroutines, one for each chunk of seats,
-- are interleaved by a schedule that picks the one that reserves next.
pub mod Chunks
pub mod Workers
use ticket_master.Prelude.{
  ℕ, zero, suc, ◌+◌, ◌-◌, ◌%◌, String, Bool, true, false, Option, none, some, List, [], ◌∷◌, ◌++◌,
  ltb, ◌==◌, if◌then◌else◌, length, take, drop,
}
use ticket_master.Model.{Booking}
use ticket_master.Exec.{
  Exec, Error, ServiceError, Result, ok, err, service, pure, raise, handle, ◌>>=◌,
}
use ticket_master.Repository.Statements.{◌>>◌}
use ticket_master.Repository.Release.{cancel_reservation}
use ticket_master.Service.{Service, ignore, reserve_seat, invalidate_cache, dequeue_expiry}

abbrev pub max_bulk_seats : ℕ
max_bulk_seats = 500

abbrev pub bulk_chunk_size : ℕ
bulk_chunk_size = 50

-- seats[i:j]
abbrev pub slice {ℓ} : {A : Type ℓ} → List A → ℕ → ℕ → List A
slice seats i j = take (j - i) (drop i seats)

abbrev pub chunk_end : ℕ → ℕ → ℕ → ℕ
chunk_end len size i = if ltb len (i + size) then len else i + size

-- The loop of chunkSeats from index i on, with fuel for the rounds.
unfoldable pub chunk_from {ℓ} : {A : Type ℓ} → ℕ → List A → ℕ → ℕ → List (List A)
chunk_from zero seats size i = []
chunk_from (suc fuel) seats size i =
    let rest =
      slice seats i (chunk_end (length seats) size i) ∷ chunk_from fuel seats size (i + size) in
    if ltb i (length seats) then rest else []

unfoldable pub chunk_seats {ℓ} : {A : Type ℓ} → List A → ℕ → List (List A)
chunk_seats seats size = chunk_from (length seats) seats size 0

abbrev pub put_back :
    List String
    → List (List String)
    → Option (List String × List (List String))
    → Option (List String × List (List String))
put_back w ws none = some (w, ws)
put_back w ws (some (v, vs)) = some (v, w ∷ vs)

-- The goroutine that runs next, and the others.
unfoldable pub pull : ℕ → List (List String) → Option (List String × List (List String))
pull k [] = none
pull zero (w ∷ ws) = some (w, ws)
pull (suc k) (w ∷ ws) = put_back w ws (pull k ws)

-- What goroutines that still run may do: a round for each seat and one to end.
unfoldable pub rounds : List (List String) → ℕ
rounds [] = 0
rounds (w ∷ ws) = suc (length w) + rounds ws

abbrev pub Outcome : Type 0
Outcome = Result Booking

unfoldable pub attempt : Exec Booking → Exec Outcome
attempt m = handle m (λ b. pure (ok b)) (λ e. pure (err e))

-- A goroutine goes on after a reservation and returns after an error.
abbrev pub goes_on : Outcome → List String → List (List String) → List (List String)
goes_on (ok b) seats ws = seats ∷ ws
goes_on (err e) seats ws = ws

module _ (s : Service) (user_id event_id : ℕ) where
  -- One round: the goroutine that was picked reserves its next seat, or ends.
  unfoldable pub round :
      (List (List String) → List Outcome → Exec (List Outcome))
      → Option (List String × List (List String))
      → List Outcome
      → Exec (List Outcome)
  round go none outcomes = pure outcomes
  round go (some ([], others)) outcomes = go others outcomes
  round go (some (seat ∷ seats, others)) outcomes =
      attempt (reserve_seat s user_id event_id seat) >>= λ outcome.
      go (goes_on outcome seats others) (outcomes ++ outcome ∷ [])

  unfoldable pub run_workers : (ℕ → ℕ) → ℕ → List (List String) → List Outcome → Exec (List Outcome)
  run_workers schedule zero ws outcomes = pure outcomes
  run_workers schedule (suc fuel) ws outcomes =
      round (run_workers schedule fuel) (pull (schedule fuel % length ws) ws) outcomes

unfoldable pub successful : List Outcome → List Booking
successful [] = []
successful (ok b ∷ os) = b ∷ successful os
successful (err e ∷ os) = successful os

unfoldable pub first_error : List Outcome → Option Error
first_error [] = none
first_error (ok b ∷ os) = first_error os
first_error (err e ∷ os) = some e

module _ (s : Service) where
  unfoldable pub undo : Booking → Exec (Unit {0})
  undo b =
      handle (cancel_reservation b.id)
        (λ cancelled. invalidate_cache s cancelled.event_id >> dequeue_expiry s cancelled.id)
        (λ _. pure tt)

  unfoldable pub undo_all : List Booking → Exec (Unit {0})
  undo_all [] = pure tt
  undo_all (b ∷ bs) = undo b >>= λ _. undo_all bs

  unfoldable pub bulk_result : Option Error → List Booking → Exec (List Booking)
  bulk_result none bookings = pure bookings
  bulk_result (some e) bookings = undo_all bookings >> raise e

  unfoldable pub reserve_all : ℕ → ℕ → (ℕ → ℕ) → List String → Exec (List Booking)
  reserve_all user_id event_id schedule seats = do
    let chunks = chunk_seats seats bulk_chunk_size
    outcomes ← run_workers s user_id event_id schedule (rounds chunks) chunks []
    bulk_result (first_error outcomes) (successful outcomes)

  unfoldable pub bulk_reserve : ℕ → ℕ → (ℕ → ℕ) → List String → Exec (List Booking)
  bulk_reserve user_id event_id schedule seats =
      if length seats == 0
      then raise (service ServiceError.no_seats_requested)
      else if ltb max_bulk_seats (length seats)
      then raise (service ServiceError.too_many_seats)
      else reserve_all user_id event_id schedule seats
