-- ===== src/Telemetry/Alerts.antt =====
-- How often the monitor counts each alert.
use ticket_master.Prelude.{
  ℕ, if◌then◌else◌, ◌+◌, ◌%◌, ◌<◌, ◌≡◌, refl, ap, Bool, true, false, ◌&&◌, Option, List, [], ◌∷◌,
  ◌++◌, ◌==◌, leb, ltb, indicator, arith, Bool-cases, inl, inr, ◌∙◌,
}
use ticket_master.Table.{count}
use ticket_master.Jobs.Purchases.{QueueMetrics, get_metrics, read_counter}
use ticket_master.Jobs.Purchases.Monitor.{
  Thresholds, Signal, monitor_error, metrics_updated, high_booking_readers, high_purchase_readers,
  booking_queue_lag, purchase_queue_lag, booking_pending, purchase_pending, booking_dlq,
  purchase_dlq, check_once, raised, index,
}
use ticket_master.Telemetry.{
  Telemetry, bump, record_signal, record_signals, Round, observe, observe_all, counter_of,
  inc_queue_alert, inc_queue_monitor_error, update_queue_metrics,
}

-- Whether x is an alert and the one that s is.
abbrev is_same : Signal → Signal → Bool
is_same s x = ltb 3 (index s) && index x == index s

abbrev is_small : ℕ → Bool
is_small n = ltb n 18446744073709551616

record_signal-counts :
    (m : Option QueueMetrics) (s x : Signal) (tel : Telemetry)
    → counter_of s (record_signal m x tel)
      ≡ (if is_same s x then bump (counter_of s tel) else counter_of s tel)
unfolding inc_queue_alert inc_queue_monitor_error update_queue_metrics
record_signal-counts m s x tel = ground arith

abbrev occurrences : Signal → List Signal → ℕ
occurrences s [] = 0
occurrences s (x ∷ xs) = indicator (is_same s x) + occurrences s xs

occurrences-append :
    (s : Signal) (xs ys : List Signal)
    → occurrences s (xs ++ ys) ≡ occurrences s xs + occurrences s ys
occurrences-append s [] ys = ground arith
occurrences-append s (x ∷ xs) ys = ground (arith, occurrences-append s xs ys)

occurrences-raised :
    (s x : Signal) (b : Bool) → occurrences s (raised b x) ≡ indicator (b && is_same s x)
occurrences-raised s x true = ground arith
occurrences-raised s x false = refl

bump_add : (n k : ℕ) → (bump n + k) % 18446744073709551616 ≡ (n + (1 + k)) % 18446744073709551616
bump_add n k = omega arith

bump_small : (n : ℕ) → bump n < 18446744073709551616
bump_small n = omega arith

record_signals-counts :
    (m : Option QueueMetrics) (s : Signal) (ss : List Signal) (tel : Telemetry)
    → counter_of s tel < 18446744073709551616
    → counter_of s (record_signals m ss tel)
      ≡ (counter_of s tel + occurrences s ss) % 18446744073709551616
record_signals-counts m s [] tel h = omega arith
record_signals-counts m s (x ∷ ss) tel h = elim (Bool-cases (is_same s x)) [
  | inl same ↦
      let e : counter_of s (record_signal m x tel) ≡ bump (counter_of s tel) =
        rw same at (record_signal-counts m s x tel) in
      let rest = record_signals-counts m s ss (record_signal m x tel) (rw e (bump_small _)) in
      rw same (rest ∙ rw e (bump_add (counter_of s tel) (occurrences s ss)))
  | inr other ↦
      let e : counter_of s (record_signal m x tel) ≡ counter_of s tel =
        rw other at (record_signal-counts m s x tel) in
      rw other (
        record_signals-counts m s ss (record_signal m x tel) (rw e h)
        ∙ rw e (ap (λ k. k % 18446744073709551616) (omega arith)))
]

-- Whether a round reaches the threshold of an alert. No job counts as pending.
abbrev pub reached : Thresholds → Signal → Round → Bool
reached t booking_queue_lag r =
    leb t.booking_queue_length (read_counter (r.answers 0) r.commands.jobs.depth)
reached t purchase_queue_lag r =
    leb t.purchase_queue_length (read_counter (r.answers 1) r.commands.depth)
reached t booking_dlq r = leb t.booking_dlq (read_counter (r.answers 2) r.commands.jobs.dead_depth)
reached t purchase_dlq r = leb t.purchase_dlq (read_counter (r.answers 3) r.commands.dead_depth)
reached t booking_pending r = leb t.booking_pending 0
reached t purchase_pending r = leb t.purchase_pending 0
reached t _ r = false

never : (b : Bool) → indicator (b && false) ≡ 0
never b = ground arith

and_true : (b : Bool) → (b && true) ≡ b
and_true b = ground arith

zero_plus : (n : ℕ) → 0 + n ≡ n
zero_plus n = omega arith

plus_zero : (n : ℕ) → n + 0 ≡ n
plus_zero n = omega arith

ruleset alert_laws = (occurrences-append, occurrences-raised, never, and_true, zero_plus, plus_zero)

module _ (t : Thresholds) (booking_group purchase_group : Bool) (max_retries : ℕ) where
  signalled :
      (s : Signal) (r : Round)
      → occurrences s
          (check_once t true booking_group purchase_group r.answers max_retries r.commands)
        ≡ indicator (reached t s r)
  unfolding check_once get_metrics
  signalled booking_queue_lag r = simp alert_laws refl
  signalled purchase_queue_lag r = simp alert_laws refl
  signalled booking_pending r = simp alert_laws refl
  signalled purchase_pending r = simp alert_laws refl
  signalled booking_dlq r = simp alert_laws refl
  signalled purchase_dlq r = simp alert_laws refl
  signalled monitor_error r = simp alert_laws refl
  signalled metrics_updated r = simp alert_laws refl
  signalled high_booking_readers r = simp alert_laws refl
  signalled high_purchase_readers r = simp alert_laws refl

bump_over :
    (n k l : ℕ)
    → ((n + k) % 18446744073709551616 + l) % 18446744073709551616
      ≡ (n + (k + l)) % 18446744073709551616
bump_over n k l = omega arith

small_mod : (n : ℕ) → n % 18446744073709551616 < 18446744073709551616
small_mod n = omega arith

-- Where Kafka is configured, whatever Redis answers: after any rounds of the monitor, the counter
-- of an alert, which was below 2^64, has gone up, modulo 2^64, by the number of rounds in which its
-- counter of jobs, 0 where Redis does not answer, had reached the threshold. The two alerts of
-- pending jobs go up at every round if their threshold is 0, and otherwise never, however many jobs
-- wait.
pub observe_all-counts :
    (t : Thresholds) (booking_group purchase_group : Bool) (max_retries : ℕ) (s : Signal)
    (rs : List Round) (tel : Telemetry)
    → counter_of s tel < 18446744073709551616
    → counter_of s (observe_all t booking_group purchase_group max_retries rs tel)
      ≡ (counter_of s tel + count (reached t s) rs) % 18446744073709551616
observe_all-counts t bookings purchases max_retries s [] tel h = omega arith
observe_all-counts t bookings purchases max_retries s (r ∷ rs) tel h =
    let once : counter_of s (observe t bookings purchases max_retries r tel)
        ≡ (counter_of s tel + indicator (reached t s r)) % 18446744073709551616 =
      rw (signalled t bookings purchases max_retries s r) at (
        record_signals-counts (get_metrics true bookings purchases r.answers max_retries r.commands)
          s (check_once t true bookings purchases r.answers max_retries r.commands) tel h) in
    let rest =
      observe_all-counts t bookings purchases max_retries s rs
        (observe t bookings purchases max_retries r tel) (rw once (small_mod _)) in
    rest
    ∙ rw once (bump_over (counter_of s tel) (indicator (reached t s r)) (count (reached t s) rs))
