-- ===== src/Telemetry.antt =====
-- internal/telemetry/prometheus.go: the gauges and counters of the queue, and what the monitor of
-- internal/services/queue_monitor.go makes of them. Two calls may come in any order, since each changes
-- one variable at a time. The text is left out, but for the names and the values of its lines.
pub mod Alerts
use ticket_master.Prelude.{
  ℕ, ◌+◌, ◌%◌, String, Bool, true, Option, none, some, List, [], ◌∷◌, str_eq, if◌then◌else◌,
}
use ticket_master.Jobs.Purchases.{Commands, QueueMetrics, get_metrics}
use ticket_master.Jobs.Purchases.Monitor.{
  Thresholds, Signal, monitor_error, metrics_updated, high_booking_readers, high_purchase_readers,
  booking_queue_lag, purchase_queue_lag, booking_pending, purchase_pending, booking_dlq,
  purchase_dlq, check_once,
}

pub record Telemetry : Type 0 where
  pub booking_queue_length : ℕ
  pub purchase_queue_length : ℕ
  pub booking_dlq_length : ℕ
  pub purchase_dlq_length : ℕ
  pub booking_pending : ℕ
  pub purchase_pending : ℕ
  pub queue_monitor_errors : ℕ
  pub alert_booking_queue : ℕ
  pub alert_purchase_queue : ℕ
  pub alert_booking_pend : ℕ
  pub alert_purchase_pend : ℕ
  pub alert_booking_dlq : ℕ
  pub alert_purchase_dlq : ℕ

-- Add(1) of an atomic.Uint64
abbrev pub bump : ℕ → ℕ
bump n = (n + 1) % 18446744073709551616

-- UpdateQueueMetrics
unfoldable pub update_queue_metrics : Option QueueMetrics → Telemetry → Telemetry
update_queue_metrics none tel = tel
update_queue_metrics (some m) tel = record tel {
  booking_queue_length = m.booking_queue_length;
  purchase_queue_length = m.purchase_queue_length;
  booking_dlq_length = m.booking_dlq_length;
  purchase_dlq_length = m.purchase_dlq_length;
  booking_pending = m.booking_pending;
  purchase_pending = m.purchase_pending;
}

-- IncQueueMonitorError
unfoldable pub inc_queue_monitor_error : Telemetry → Telemetry
inc_queue_monitor_error tel = record tel { queue_monitor_errors = bump tel.queue_monitor_errors }

-- IncQueueAlert
unfoldable pub inc_queue_alert : String → Telemetry → Telemetry
inc_queue_alert signal tel =
    if str_eq signal "booking_queue_lag"
    then record tel { alert_booking_queue = bump tel.alert_booking_queue }
    else if str_eq signal "purchase_queue_lag"
    then record tel { alert_purchase_queue = bump tel.alert_purchase_queue }
    else if str_eq signal "booking_pending"
    then record tel { alert_booking_pend = bump tel.alert_booking_pend }
    else if str_eq signal "purchase_pending"
    then record tel { alert_purchase_pend = bump tel.alert_purchase_pend }
    else if str_eq signal "booking_dlq"
    then record tel { alert_booking_dlq = bump tel.alert_booking_dlq }
    else if str_eq signal "purchase_dlq"
    then record tel { alert_purchase_dlq = bump tel.alert_purchase_dlq }
    else tel

-- RenderPrometheus: the lines that are no comments.
unfoldable pub render_prometheus : Telemetry → List (String × ℕ)
render_prometheus tel =
    ("ticketmaster_queue_booking_length", tel.booking_queue_length)
    ∷ ("ticketmaster_queue_purchase_length", tel.purchase_queue_length)
    ∷ ("ticketmaster_queue_booking_pending", tel.booking_pending)
    ∷ ("ticketmaster_queue_purchase_pending", tel.purchase_pending)
    ∷ ("ticketmaster_queue_booking_dlq_length", tel.booking_dlq_length)
    ∷ ("ticketmaster_queue_purchase_dlq_length", tel.purchase_dlq_length)
    ∷ ("ticketmaster_queue_monitor_errors_total", tel.queue_monitor_errors)
    ∷ ("ticketmaster_queue_alerts_total{signal=\"booking_queue_lag\"}", tel.alert_booking_queue)
    ∷ ("ticketmaster_queue_alerts_total{signal=\"purchase_queue_lag\"}", tel.alert_purchase_queue)
    ∷ ("ticketmaster_queue_alerts_total{signal=\"booking_pending\"}", tel.alert_booking_pend)
    ∷ ("ticketmaster_queue_alerts_total{signal=\"purchase_pending\"}", tel.alert_purchase_pend)
    ∷ ("ticketmaster_queue_alerts_total{signal=\"booking_dlq\"}", tel.alert_booking_dlq)
    ∷ ("ticketmaster_queue_alerts_total{signal=\"purchase_dlq\"}", tel.alert_purchase_dlq)
    ∷ []

-- What the monitor calls for a signal.
abbrev pub record_signal : Option QueueMetrics → Signal → Telemetry → Telemetry
record_signal m monitor_error tel = inc_queue_monitor_error tel
record_signal m metrics_updated tel = update_queue_metrics m tel
record_signal m high_booking_readers tel = tel
record_signal m high_purchase_readers tel = tel
record_signal m booking_queue_lag tel = inc_queue_alert "booking_queue_lag" tel
record_signal m purchase_queue_lag tel = inc_queue_alert "purchase_queue_lag" tel
record_signal m booking_pending tel = inc_queue_alert "booking_pending" tel
record_signal m purchase_pending tel = inc_queue_alert "purchase_pending" tel
record_signal m booking_dlq tel = inc_queue_alert "booking_dlq" tel
record_signal m purchase_dlq tel = inc_queue_alert "purchase_dlq" tel

abbrev pub record_signals : Option QueueMetrics → List Signal → Telemetry → Telemetry
record_signals m [] tel = tel
record_signals m (s ∷ ss) tel = record_signals m ss (record_signal m s tel)

-- What a round of the monitor finds: whether Redis answers each read, and the topics.
pub record Round : Type 0 where
  pub answers : ℕ → Bool
  pub commands : Commands

module _ (t : Thresholds) (booking_group purchase_group : Bool) (max_retries : ℕ) where
  abbrev pub observe : Round → Telemetry → Telemetry
  observe r tel =
      record_signals
        (get_metrics true booking_group purchase_group r.answers max_retries r.commands)
        (check_once t true booking_group purchase_group r.answers max_retries r.commands) tel

  -- The rounds of Run, one after the other, where Kafka is configured.
  abbrev pub observe_all : List Round → Telemetry → Telemetry
  observe_all [] tel = tel
  observe_all (r ∷ rs) tel = observe_all rs (observe r tel)

-- The counter of an alert; 0 for a signal that is none.
abbrev pub counter_of : Signal → Telemetry → ℕ
counter_of booking_queue_lag tel = tel.alert_booking_queue
counter_of purchase_queue_lag tel = tel.alert_purchase_queue
counter_of booking_pending tel = tel.alert_booking_pend
counter_of purchase_pending tel = tel.alert_purchase_pend
counter_of booking_dlq tel = tel.alert_booking_dlq
counter_of purchase_dlq tel = tel.alert_purchase_dlq
counter_of _ tel = 0
