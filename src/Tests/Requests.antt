-- ===== src/Tests/Requests.antt =====
-- Requests with an idempotency key.
use ticket_master.Prelude.{◌≡◌, refl, true, none, some, [], ◌∷◌, arith}
use ticket_master.Idempotency.{
  Response, Store, locks, looks, leaves, runs, conflict, asks_lock, enter, lock_entry, leave,
  access_all,
}
use ticket_master.Idempotency.Once.{lock_entry-excludes}

abbrev empty_store : Store
empty_store = record { cached = λ _. none; locks = λ _. none }

abbrev created : Response
created = record { status_code = 201; headers = []; body = "booked" }

abbrev broken : Response
broken = record { status_code = 500; headers = []; body = "" }

first_locks : (lock_entry true 100 5 empty_store).0 ≡ runs true
unfolding lock_entry
first_locks = refl

-- One of its key and one of another look and ask for locks, and the other one leaves.
lock_entry-excludes_example :
    (lock_entry true 300 5 (
      access_all
        (looks 150 5
          ∷ locks true 160 5
          ∷ locks true 200 6
          ∷ leaves true true true 250 6 created
          ∷ leaves true true true 260 5 broken
          ∷ [])
        (lock_entry true 100 5 empty_store).1)).0
    ≡ conflict
lock_entry-excludes_example =
    lock_entry-excludes 100 5 300
      (looks 150 5
        ∷ locks true 160 5
        ∷ locks true 200 6
        ∷ leaves true true true 250 6 created
        ∷ leaves true true true 260 5 broken
        ∷ [])
      empty_store first_locks refl (omega arith)

-- A request that looked before the first one left takes the lock after it, and runs again.
looked_early : enter true true true 110 (some 5) (lock_entry true 100 5 empty_store).1 ≡ asks_lock 5
unfolding enter lock_entry
looked_early = refl

runs_again :
    (lock_entry true 210 5
      (leave true true true 200 5 created (lock_entry true 100 5 empty_store).1)).0
    ≡ runs true
unfolding lock_entry leave
runs_again = refl
