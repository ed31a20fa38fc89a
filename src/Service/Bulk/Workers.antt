-- ===== src/Service/Bulk/Workers.antt =====
-- The interleaved goroutines of BulkReserve: they run to their end under every schedule, and a
-- normal return has as many bookings as seats were asked for.
use mathlib.Core.List.{flatten}
use ticket_master.Prelude.{
  ℕ, zero, suc, ◌+◌, ◌%◌, ◌≤◌, ◌≡◌, ap, ◌∙◌, ◌≢◌, refl, String, Option, none, some, List, [], ◌∷◌,
  ◌++◌, arith, ◌==◌, ltb, length, length-append,
}
use ticket_master.Model.{Booking}
use ticket_master.Exec.{Exec, Env, World, Error, ok, err, pure, raise}
use ticket_master.Exec.Rules.{Ensures, Ensures-all, Ensures-mono, bind_rule, if_rule}
use ticket_master.Repository.Refines.{IsLawful}
use ticket_master.Repository.Reaches.{Reaches, pure-Reaches, bind-Reaches}
use ticket_master.Repository.Reaches.Transactions.{cancel_reservation-Reaches}
use ticket_master.Service.{Service}
use ticket_master.Service.Reaches.{service_rules, reserve_seat-Reaches}
use ticket_master.Service.Bulk.{
  Outcome, chunk_seats, bulk_chunk_size, put_back, pull, rounds, attempt, goes_on, round,
  run_workers, successful, first_error, undo, undo_all, bulk_result, reserve_all, bulk_reserve,
  max_bulk_seats, max_bulk_seats,
}
use ticket_master.Service.Bulk.Chunks.{flatten-chunk_seats}

module _ {env : Env} (lawful : IsLawful env) (s : Service) where
  attempt-Reaches : (m : Exec Booking) → Reaches env m → Reaches env (attempt m)
  unfolding attempt
  attempt-Reaches m h = search service_rules

  round-Reaches :
      (user event : ℕ) (go : List (List String) → List Outcome → Exec (List Outcome))
      → ((ws : List (List String)) (os : List Outcome) → Reaches env (go ws os))
      → (o : Option (List String × List (List String))) (os : List Outcome)
      → Reaches env (round s user event go o os)
  unfolding round
  round-Reaches user event go h none os = pure-Reaches os
  round-Reaches user event go h (some ([], others)) os = h others os
  round-Reaches user event go h (some (seat ∷ seats, others)) os =
      bind-Reaches _ _ (attempt-Reaches _ (reserve_seat-Reaches lawful s user event seat))
        λ _. h _ _

  run_workers-Reaches :
      (user event : ℕ) (schedule : ℕ → ℕ) (fuel : ℕ) (ws : List (List String)) (os : List Outcome)
      → Reaches env (run_workers s user event schedule fuel ws os)
  unfolding run_workers
  run_workers-Reaches user event schedule zero ws os = pure-Reaches os
  run_workers-Reaches user event schedule (suc fuel) ws os =
      round-Reaches user event _ (run_workers-Reaches user event schedule fuel) _ os

  undo-Reaches : (b : Booking) → Reaches env (undo s b)
  unfolding undo
  undo-Reaches b = search (service_rules, cancel_reservation-Reaches) depth 8

  undo_all-Reaches : (bs : List Booking) → Reaches env (undo_all s bs)
  unfolding undo_all
  undo_all-Reaches [] = pure-Reaches tt
  undo_all-Reaches (b ∷ bs) = bind-Reaches _ _ (undo-Reaches b) λ _. undo_all-Reaches bs

  bulk_result-Reaches : (o : Option Error) (bs : List Booking) → Reaches env (bulk_result s o bs)
  unfolding bulk_result
  bulk_result-Reaches none bs = pure-Reaches bs
  bulk_result-Reaches (some e) bs = search (service_rules, undo_all-Reaches) depth 8

  pub bulk_reserve-Reaches :
      (user event : ℕ) (schedule : ℕ → ℕ) (seats : List String)
      → Reaches env (bulk_reserve s user event schedule seats)
  unfolding bulk_reserve reserve_all
  bulk_reserve-Reaches user event schedule seats =
      search (service_rules, run_workers-Reaches, bulk_result-Reaches) depth 8

abbrev seats_left : List (List String) → ℕ
seats_left [] = 0
seats_left (w ∷ ws) = length w + seats_left ws

abbrev PullsFrom : List (List String) → Option (List String × List (List String)) → Type 0
PullsFrom ws none = seats_left ws ≡ 0
PullsFrom ws (some (v, vs)) =
    (seats_left ws ≡ length v + seats_left vs) × (rounds ws ≡ suc (length v) + rounds vs)

put_back-PullsFrom :
    (w : List String) (ws : List (List String)) (o : Option (List String × List (List String)))
    → PullsFrom ws o
    → PullsFrom (w ∷ ws) (put_back w ws o)
unfolding rounds
put_back-PullsFrom w ws none h = (refl, refl)
put_back-PullsFrom w ws (some (v, vs)) h = omega arith

-- The goroutine that is picked is one of those that run, and only with none left is none picked.
pull-PullsFrom : (k : ℕ) (ws : List (List String)) → PullsFrom ws (pull k ws)
unfolding pull rounds
pull-PullsFrom k [] = refl
pull-PullsFrom zero (w ∷ ws) = (refl, refl)
pull-PullsFrom (suc k) (w ∷ ws) = put_back-PullsFrom w ws (pull k ws) (pull-PullsFrom k ws)

-- Without an error so far, the reservations made and the seats left make up `n`.
abbrev Counts : ℕ → List (List String) → List Outcome → Type 0
Counts n ws os = first_error os ≡ none → length (successful os) + seats_left ws ≡ n

successful_snoc :
    (os : List Outcome) (b : Booking)
    → length (successful (os ++ ok b ∷ [])) ≡ length (successful os) + 1
unfolding successful
successful_snoc [] b = omega arith
successful_snoc (ok c ∷ os) b = omega (arith, successful_snoc os b)
successful_snoc (err e ∷ os) b = successful_snoc os b

first_error_snoc :
    (os : List Outcome) (o : Outcome) → first_error (os ++ o ∷ []) ≡ none → first_error os ≡ none
unfolding first_error
first_error_snoc [] o h = refl
first_error_snoc (ok c ∷ os) o h = first_error_snoc os o h
first_error_snoc (err e ∷ os) o h = h

first_error_err : (os : List Outcome) (e : Error) → first_error (os ++ err e ∷ []) ≢ none
unfolding first_error
first_error_err [] e h = cc
first_error_err (ok c ∷ os) e h = first_error_err os e h
first_error_err (err x ∷ os) e h = cc

Counts-goes_on :
    (n : ℕ) (o : Outcome) (seats : List String) (ws : List (List String)) (os : List Outcome)
    → (first_error os ≡ none → length (successful os) + (suc (length seats) + seats_left ws) ≡ n)
    → Counts n (goes_on o seats ws) (os ++ o ∷ [])
Counts-goes_on n (ok b) seats ws os h e =
    omega (arith, h (first_error_snoc os (ok b) e), successful_snoc os b)
Counts-goes_on n (err x) seats ws os h e = absurd (first_error_err os x e)

rounds-goes_on :
    (o : Outcome) (seats : List String) (ws : List (List String)) (fuel : ℕ)
    → suc (length seats) + rounds ws ≤ fuel
    → rounds (goes_on o seats ws) ≤ fuel
unfolding rounds
rounds-goes_on (ok b) seats ws fuel h = h
rounds-goes_on (err e) seats ws fuel h = omega arith

-- Under every schedule the goroutines end within the rounds that they have, and where none failed
-- there is a reservation for each seat.
module _ (s : Service) (user event n : ℕ) (env : Env) where
  round_rule :
      (go : List (List String) → List Outcome → Exec (List Outcome)) (fuel : ℕ)
      → ((ws : List (List String)) (os : List Outcome) (w : World)
          → rounds ws ≤ fuel
          → Counts n ws os
          → Ensures (go ws os env w) (λ os' _. Counts n [] os'))
      → (o : Option (List String × List (List String))) (ws : List (List String))
        (os : List Outcome) (w : World)
      → PullsFrom ws o
      → rounds ws ≤ suc fuel
      → Counts n ws os
      → Ensures (round s user event go o os env w) (λ os' _. Counts n [] os')
  unfolding round pure
  round_rule go fuel k none ws os w p r c = λ e. omega (arith, c e)
  round_rule go fuel k (some ([], others)) ws os w p r c =
      k others os w (omega arith) (λ e. omega (arith, c e))
  round_rule go fuel k (some (seat ∷ seats, others)) ws os w p r c = bind_rule _ _ env w _ (
      Ensures-all _ _ λ o w'.
        k (goes_on o seats others) (os ++ o ∷ []) w'
          (rounds-goes_on o seats others fuel (omega arith))
          (Counts-goes_on n o seats others os λ e. omega (arith, c e)))

  no_rounds : (v : List String) (ws : List (List String)) → rounds (v ∷ ws) ≤ 0 → ⊥
  unfolding rounds
  no_rounds v ws h = omega arith

  raise_rule :
      (e : Error) (w : World) → Ensures (raise {A = List Booking} e env w) (λ bs _. length bs ≡ n)
  unfolding raise
  raise_rule e w = tt

  run_workers_rule :
      (schedule : ℕ → ℕ) (fuel : ℕ) (ws : List (List String)) (os : List Outcome) (w : World)
      → rounds ws ≤ fuel
      → Counts n ws os
      → Ensures (run_workers s user event schedule fuel ws os env w) (λ os' _. Counts n [] os')
  unfolding run_workers pure
  run_workers_rule schedule zero [] os w r c = c
  run_workers_rule schedule zero (v ∷ ws) os w r c = absurd (no_rounds v ws r)
  run_workers_rule schedule (suc fuel) ws os w r c =
      round_rule (run_workers s user event schedule fuel) fuel (run_workers_rule schedule fuel) _ ws
        os w (pull-PullsFrom (schedule fuel % length ws) ws) r c

  bulk_result_rule :
      (o : Option Error) (os : List Outcome) (w : World)
      → first_error os ≡ o
      → Counts n [] os
      → Ensures (bulk_result s o (successful os) env w) (λ bs _. length bs ≡ n)
  unfolding bulk_result pure
  bulk_result_rule none os w e c = omega (arith, c e)
  bulk_result_rule (some x) os w e c =
      bind_rule _ _ env w _ (Ensures-all _ _ λ _ w'. raise_rule x w')

seats_left-chunks : (ws : List (List String)) → seats_left ws ≡ length (flatten ws)
unfolding flatten
seats_left-chunks [] = refl
seats_left-chunks (w ∷ ws) = omega (arith, length-append w (flatten ws), seats_left-chunks ws)

reserve_all_rule :
    (s : Service) (user event : ℕ) (schedule : ℕ → ℕ) (seats : List String) (env : Env) (w : World)
    → Ensures (reserve_all s user event schedule seats env w) (λ bs _. length bs ≡ length seats)
unfolding reserve_all successful
reserve_all_rule s user event schedule seats env w =
    let chunks = chunk_seats seats bulk_chunk_size in
    let total : seats_left chunks ≡ length seats =
      seats_left-chunks chunks
      ∙ ap length (flatten-chunk_seats seats bulk_chunk_size (omega arith)) in
    bind_rule (run_workers s user event schedule (rounds chunks) chunks [])
      (λ os. bulk_result s (first_error os) (successful os)) env w _
      (Ensures-mono (run_workers s user event schedule (rounds chunks) chunks [] env w)
        (λ os _. Counts (length seats) [] os)
        (λ os w'.
          Ensures (bulk_result s (first_error os) (successful os) env w')
            (λ bs _. length bs ≡ length seats))
        (run_workers_rule s user event (length seats) env schedule (rounds chunks) chunks [] w
          (omega arith) (λ _. omega (arith, total)))
        λ os w' c. bulk_result_rule s user event (length seats) env _ os w' refl c)

-- Under every schedule of its goroutines, BulkReserve returns normally only with as many bookings as
-- seats were asked for.
pub bulk_reserve-length :
    (s : Service) (user event : ℕ) (schedule : ℕ → ℕ) (seats : List String) (env : Env) (w : World)
    → Ensures (bulk_reserve s user event schedule seats env w) (λ bs _. length bs ≡ length seats)
unfolding bulk_reserve
bulk_reserve-length s user event schedule seats env w =
    let refuse = λ (e : Error). raise_rule s user event (length seats) env e w in
    if_rule (length seats == 0) _ _ env w (λ bs _. length bs ≡ length seats) (refuse _)
      (if_rule (ltb max_bulk_seats (length seats)) _ _ env w (λ bs _. length bs ≡ length seats)
        (refuse _) (reserve_all_rule s user event schedule seats env w))
