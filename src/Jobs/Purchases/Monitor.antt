-- ===== src/Jobs/Purchases/Monitor.antt =====
-- internal/services/queue_monitor.go: one round of the monitor, with the alerts that it counts and the
-- warnings that it logs of the readers.
use ticket_master.Prelude.{
  ℕ, ◌<◌, ◌≡◌, Bool, true, false, Option, none, some, List, [], ◌∷◌, ◌++◌, ltb, leb, if◌then◌else◌,
  arith, ◌==◌, ◌||◌, ◌&&◌, refl,
}
use ticket_master.Jobs.Purchases.{Commands, QueueMetrics, get_metrics, read_counter}

pub record Thresholds : Type 0 where
  pub booking_queue_length : ℕ
  pub purchase_queue_length : ℕ
  pub booking_pending : ℕ
  pub purchase_pending : ℕ
  pub booking_dlq : ℕ
  pub purchase_dlq : ℕ

-- The calls of telemetry, and the two warnings that are only logged.
pub data Signal : Type 0 where
  monitor_error metrics_updated high_booking_readers high_purchase_readers : Signal
  booking_queue_lag purchase_queue_lag booking_pending purchase_pending : Signal
  booking_dlq purchase_dlq : Signal

abbrev pub raised : Bool → Signal → List Signal
raised b s = if b then s ∷ [] else []

abbrev pub check_metrics : Thresholds → Option QueueMetrics → List Signal
check_metrics t none = monitor_error ∷ []
check_metrics t (some m) =
    metrics_updated
    ∷ (raised (ltb 5 m.booking_readers) high_booking_readers
        ++ (raised (ltb 5 m.purchase_readers) high_purchase_readers
            ++ (raised (leb t.booking_queue_length m.booking_queue_length) booking_queue_lag
                ++ (raised (leb t.purchase_queue_length m.purchase_queue_length) purchase_queue_lag
                    ++ (raised (leb t.booking_pending m.booking_pending) booking_pending
                        ++ (raised (leb t.purchase_pending m.purchase_pending) purchase_pending
                            ++ (raised (leb t.booking_dlq m.booking_dlq_length) booking_dlq
                                ++ raised (leb t.purchase_dlq m.purchase_dlq_length)
                                    purchase_dlq)))))))

-- checkOnce
unfoldable pub check_once :
    Thresholds → Bool → Bool → Bool → (ℕ → Bool) → ℕ → Commands → List Signal
check_once t kafka booking_group purchase_group answers max_retries cs =
    check_metrics t (get_metrics kafka booking_group purchase_group answers max_retries cs)

-- time.Duration(MonitorIntervalSec) * time.Second, in seconds; 15 where that is not positive.
unfoldable pub monitor_interval : ℕ → ℕ
monitor_interval sec = if ltb 0 sec then sec else 15

abbrev pub index : Signal → ℕ
index monitor_error = 0
index metrics_updated = 1
index high_booking_readers = 2
index high_purchase_readers = 3
index booking_queue_lag = 4
index purchase_queue_lag = 5
index booking_pending = 6
index purchase_pending = 7
index booking_dlq = 8
index purchase_dlq = 9

abbrev pub has_signal : Signal → List Signal → Bool
has_signal s [] = false
has_signal s (x ∷ xs) = index x == index s || has_signal s xs

has_signal-append :
    (s : Signal) (xs ys : List Signal)
    → has_signal s (xs ++ ys) ≡ (has_signal s xs || has_signal s ys)
has_signal-append s [] ys = refl
has_signal-append s (x ∷ xs) ys = ground (arith, has_signal-append s xs ys)

has_signal-raised :
    (s x : Signal) (b : Bool) → has_signal s (raised b x) ≡ (b && index x == index s)
has_signal-raised s x true = ground arith
has_signal-raised s x false = refl

and_false : (b : Bool) → (b && false) ≡ false
and_false b = ground arith

and_true : (b : Bool) → (b && true) ≡ b
and_true b = ground arith

or_false : (b : Bool) → (b || false) ≡ b
or_false b = ground arith

few_readers : (group : Bool) → ltb 5 (if group then 1 else 0) ≡ false
few_readers group = ground arith

none_pending : (t : ℕ) → 0 < t → leb t 0 ≡ false
none_pending t h = ground arith

ruleset signal_laws =
    (has_signal-append, has_signal-raised, and_false, and_true, or_false, few_readers)

-- Where Kafka is configured, a round of the monitor raises the alert of each queue's length and of
-- each dead letter topic exactly if its counter, 0 where Redis does not answer, has reached the
-- threshold. It never warns of the readers, and where the thresholds of the pending jobs are positive
-- it raises neither alert of these, however many jobs wait.
pub check_once-signals :
    (t : Thresholds) (booking_group purchase_group : Bool) (answers : ℕ → Bool) (max_retries : ℕ)
    (cs : Commands)
    → 0 < t.booking_pending
    → 0 < t.purchase_pending
    → let ss = check_once t true booking_group purchase_group answers max_retries cs in
      (has_signal booking_queue_lag ss
        ≡ leb t.booking_queue_length (read_counter (answers 0) cs.jobs.depth))
      × (has_signal purchase_queue_lag ss
          ≡ leb t.purchase_queue_length (read_counter (answers 1) cs.depth))
      × (has_signal booking_dlq ss
          ≡ leb t.booking_dlq (read_counter (answers 2) cs.jobs.dead_depth))
      × (has_signal purchase_dlq ss ≡ leb t.purchase_dlq (read_counter (answers 3) cs.dead_depth))
      × (has_signal high_booking_readers ss ≡ false)
      × (has_signal high_purchase_readers ss ≡ false)
      × (has_signal booking_pending ss ≡ false)
      × (has_signal purchase_pending ss ≡ false)
unfolding check_once get_metrics
check_once-signals t booking_group purchase_group answers max_retries cs h k = simp signal_laws (
  refl,
  refl,
  refl,
  refl,
  refl,
  refl,
  none_pending t.booking_pending h,
  none_pending t.purchase_pending k,
)
