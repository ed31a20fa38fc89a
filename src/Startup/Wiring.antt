-- ===== src/Startup/Wiring.antt =====
-- cmd/server/main.go, and the parts of internal/routes/routes.go, internal/queue/queue.go and
-- internal/kafka that it calls: which workers a process runs, and which consumer groups of Kafka it
-- joins. NewConsumerGroup of kafka-go joins its group at once.
use ticket_master.Prelude.{
  ℕ, ◌+◌, String, Bool, true, false, not, ◌&&◌, Option, none, some, List, [], ◌∷◌, if◌then◌else◌,
}
use ticket_master.Config.{Vars, Config, KafkaConfig, default_to}
use ticket_master.Config.Text.{ℤ, pos, negsuc, Letters}
use ticket_master.Config.Security.{Client, new_client}
use ticket_master.Config.Load.{load}
use ticket_master.Expiry.Release.{
  Setting, natural, negative, ExpiryReleasePartitionPlan, expiry_release_partition_plan,
}
use ticket_master.Startup.{should_run_startup_migrations}

-- Whether the outside answers: the primary database, the migration, Redis, and Kafka when the groups
-- of the first and of the second queue are made.
pub record Outside : Type 0 where
  pub primary : Bool
  pub migrated : Bool
  pub redis : Bool
  pub first_groups : Bool
  pub second_groups : Bool

-- A Queue; `groups` are the ids of the consumer groups that it has joined.
pub record CommandQueue : Type 0 where
  pub enabled : Bool
  pub booking_topic : String
  pub purchase_topic : String
  pub booking_dlq : String
  pub purchase_dlq : String
  pub max_retries : ℕ
  pub groups : List String

abbrev pub base_queue : KafkaConfig → CommandQueue
base_queue k = record {
  enabled = false;
  booking_topic = default_to k.booking_commands_topic "booking-commands";
  purchase_topic = default_to k.purchase_commands_topic "purchase-commands";
  booking_dlq = default_to k.booking_dlq_topic "booking-commands-dlq";
  purchase_dlq = default_to k.purchase_dlq_topic "purchase-commands-dlq";
  max_retries = 3;
  groups = [];
}

abbrev pub join_groups : Bool → KafkaConfig → Option Client → Option CommandQueue
join_groups groups k none = none
join_groups groups k (some c) =
    if groups
    then some (record (base_queue k) {
      enabled = true;
      groups = "booking-workers" ∷ "purchase-workers" ∷ [];
    })
    else none

abbrev pub queue_for : Letters → Bool → KafkaConfig → List String → Option CommandQueue
queue_for letters groups k [] = some (base_queue k)
queue_for letters groups k (b ∷ bs) = join_groups groups k (new_client letters k)

-- NewQueue
unfoldable pub new_queue : Letters → Bool → KafkaConfig → Option CommandQueue
new_queue letters groups k = queue_for letters groups k k.brokers

abbrev pub not_negative : ℤ → ℕ
not_negative (pos n) = n
not_negative (negsuc n) = 0

-- SetMaxRetries
abbrev pub set_max_retries : ℤ → CommandQueue → CommandQueue
set_max_retries max_retries q = record q { max_retries = not_negative max_retries }

abbrev pub enabled_with : Option Client → Option Bool
enabled_with none = none
enabled_with (some c) = some true

abbrev pub enabled_for : Letters → KafkaConfig → List String → Option Bool
enabled_for letters k [] = some false
enabled_for letters k (b ∷ bs) = enabled_with (new_client letters k)

-- NewProducer and NewBookingEventConsumer: whether what they make is enabled; none is their error.
unfoldable pub new_producer : Letters → KafkaConfig → Option Bool
new_producer letters k = enabled_for letters k k.brokers

unfoldable pub new_booking_event_consumer : Letters → KafkaConfig → Option Bool
new_booking_event_consumer letters k = enabled_for letters k k.brokers

abbrev pub setting : ℤ → Setting
setting (pos n) = natural n
setting (negsuc n) = negative (n + 1)

-- expiryReleasePartitionPlanFromConfig
abbrev pub plan_of : Config → Option ExpiryReleasePartitionPlan
plan_of cfg =
    expiry_release_partition_plan (setting cfg.booking.expiry_release_concurrency)
      (setting cfg.booking.expiry_release_partition_count)
      (setting cfg.booking.expiry_release_partition_offset)

-- What a process that serves requests runs.
pub record Process : Type 0 where
  pub event_consumer : Bool
  pub release_plan : Option ExpiryReleasePartitionPlan
  pub job_queue : CommandQueue  -- of the workers and of the monitor, if it is enabled
  pub api_queue : CommandQueue  -- of the handlers

-- SetupRoutes: the queue of the handlers.
abbrev pub routes_queue : Option Bool → Option CommandQueue → Option CommandQueue
routes_queue producer none = none
routes_queue none (some q) = none
routes_queue (some enabled) (some q) = some q

abbrev pub serve :
    Bool
    → Option ExpiryReleasePartitionPlan
    → Option CommandQueue
    → Option CommandQueue
    → Option Process
serve consumes plan none api = none
serve consumes plan (some q) none = none
serve consumes plan (some q) (some api) =
    some (record { event_consumer = consumes; release_plan = plan; job_queue = q; api_queue = api })

module _ (letters : Letters) (o : Outside) (cfg : Config) where
  abbrev pub command_queue : Bool → Option CommandQueue
  command_queue groups = with_retries (new_queue letters groups cfg.kafka)
    where
      with_retries : Option CommandQueue → Option CommandQueue
      with_retries none = none
      with_retries (some q) = some (set_max_retries cfg.queue.max_retries q)

  abbrev pub serve_queues : Bool → Option ExpiryReleasePartitionPlan → Option Process
  serve_queues consumes plan =
      serve consumes plan (command_queue o.first_groups)
        (routes_queue (new_producer letters cfg.kafka) (command_queue o.second_groups))

  -- NewBatchReleaseWorker, where Redis is connected.
  abbrev pub serve_planned : Bool → Option ExpiryReleasePartitionPlan → Option Process
  serve_planned consumes none = none
  serve_planned consumes (some plan) = serve_queues consumes (some plan)

  abbrev pub serve_consumer : Option Bool → Option Process
  serve_consumer none = none
  serve_consumer (some consumes) =
      if o.redis then serve_planned consumes (plan_of cfg) else serve_queues consumes none

abbrev pub start_loaded : Letters → Vars → Outside → Option Config → Option Process
start_loaded letters vars o none = none
start_loaded letters vars o (some cfg) =
    if not o.primary
    then none
    else if should_run_startup_migrations vars && not o.migrated
    then none
    else serve_consumer letters o cfg (new_booking_event_consumer letters cfg.kafka)

-- main, up to the point where it serves requests; none is a call of log.Fatalf.
unfoldable pub start : Letters → Vars → Outside → Option Process
start letters vars o = start_loaded letters vars o (load letters vars)
