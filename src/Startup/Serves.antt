-- ===== src/Startup/Serves.antt =====
-- Which processes serve, and with which workers and consumer groups.
use mathlib.Core.Option.{some-injective}
use mathlib.Core.Path.{subst}
use ticket_master.Prelude.{
  ◌≡◌, refl, String, Bool, true, false, not, ◌&&◌, Option, none, some, List, [], ◌∷◌, if◌then◌else◌,
  Bool-cases, inl, inr,
}
use ticket_master.Config.{Vars, Config, KafkaConfig}
use ticket_master.Config.Text.{Letters}
use ticket_master.Config.Security.{
  SecurityError, client_for, new_client, validate_security, kafka_security_protocol,
}
use ticket_master.Config.Load.{loaded, unless_error, load}
use ticket_master.Expiry.Release.{ExpiryReleasePartitionPlan}
use ticket_master.Startup.{should_run_startup_migrations}
use ticket_master.Startup.Wiring.{
  Outside, CommandQueue, Process, base_queue, queue_for, new_queue, set_max_retries, enabled_for,
  new_producer, new_booking_event_consumer, plan_of, command_queue, start,
}

abbrev pub has_brokers : List String → Bool
has_brokers [] = false
has_brokers (b ∷ bs) = true

abbrev pub when_kafka : Config → List String → List String
when_kafka cfg groups = if has_brokers cfg.kafka.brokers then groups else []

loaded-valid :
    (letters : Letters) (vars : Vars) (v : Option SecurityError) (cfg : Config)
    → validate_security letters (loaded letters vars).kafka ≡ v
    → unless_error letters vars v ≡ some cfg
    → validate_security letters cfg.kafka ≡ none
loaded-valid letters vars none cfg e h =
    subst (λ c. validate_security letters c.kafka ≡ none) (some-injective _ _ h) e
loaded-valid letters vars (some x) cfg e h = cc

load-valid :
    (letters : Letters) (vars : Vars) (cfg : Config)
    → load letters vars ≡ some cfg
    → validate_security letters cfg.kafka ≡ none
unfolding load
load-valid letters vars cfg h = loaded-valid letters vars _ cfg refl h

valid_client :
    (letters : Letters) (k : KafkaConfig)
    → validate_security letters k ≡ none
    → new_client letters k ≡ some (client_for k (kafka_security_protocol letters k))
unfolding new_client
valid_client letters k h = rw h refl

abbrev joined_queue : KafkaConfig → CommandQueue
joined_queue k = record (base_queue k) {
  enabled = has_brokers k.brokers;
  groups = if has_brokers k.brokers then "booking-workers" ∷ "purchase-workers" ∷ [] else [];
}

queue_for-valid :
    (letters : Letters) (k : KafkaConfig) (bs : List String)
    → validate_security letters k ≡ none
    → queue_for letters true k bs
      ≡ some (record (base_queue k) {
        enabled = has_brokers bs;
        groups = if has_brokers bs then "booking-workers" ∷ "purchase-workers" ∷ [] else [];
      })
queue_for-valid letters k [] h = refl
queue_for-valid letters k (b ∷ bs) h = rw (valid_client letters k h) refl

enabled_for-valid :
    (letters : Letters) (k : KafkaConfig) (bs : List String)
    → validate_security letters k ≡ none
    → enabled_for letters k bs ≡ some (has_brokers bs)
enabled_for-valid letters k [] h = refl
enabled_for-valid letters k (b ∷ bs) h = rw (valid_client letters k h) refl

command_queue-valid :
    (letters : Letters) (o : Outside) (cfg : Config)
    → validate_security letters cfg.kafka ≡ none
    → command_queue letters o cfg true
      ≡ some (set_max_retries cfg.queue.max_retries (joined_queue cfg.kafka))
unfolding new_queue
command_queue-valid letters o cfg h =
    rw (queue_for-valid letters cfg.kafka cfg.kafka.brokers h) refl

starts :
    (letters : Letters) (vars : Vars) (o : Outside) (cfg : Config)
    (plan : ExpiryReleasePartitionPlan)
    → load letters vars ≡ some cfg
    → o.primary ≡ true
    → (should_run_startup_migrations vars && not o.migrated) ≡ false
    → plan_of cfg ≡ some plan
    → o.first_groups ≡ true
    → o.second_groups ≡ true
    → start letters vars o
      ≡ some (record {
        event_consumer = has_brokers cfg.kafka.brokers;
        release_plan = if o.redis then some plan else none;
        job_queue = set_max_retries cfg.queue.max_retries (joined_queue cfg.kafka);
        api_queue = set_max_retries cfg.queue.max_retries (joined_queue cfg.kafka);
      })
unfolding start new_booking_event_consumer new_producer
starts letters vars o cfg plan l p m pl g h =
    let v = load-valid letters vars cfg l in
    let q = command_queue-valid letters o cfg v in
    let e = enabled_for-valid letters cfg.kafka cfg.kafka.brokers v in
    elim (Bool-cases o.redis) [
      | inl redis ↦ simp (l, p, m, e, redis, pl, g, h, q) refl
      | inr alone ↦ simp (l, p, m, e, alone, g, h, q) refl
    ]

-- A configuration that Load returned, a primary database that answers, migrations that succeed
-- where they run, settings that give a partition plan, and consumer groups that can be made: then
-- main serves requests. It runs the release workers of the plan exactly if Redis answers; the
-- consumer of events and the queue of the workers are enabled exactly if brokers are configured.
-- That queue joins the consumer groups `booking-workers` and `purchase-workers` then, and no group
-- otherwise, and the queue of the handlers joins the same groups.
pub start-serves :
    (letters : Letters) (vars : Vars) (o : Outside) (cfg : Config)
    (plan : ExpiryReleasePartitionPlan)
    → load letters vars ≡ some cfg
    → o.primary ≡ true
    → (should_run_startup_migrations vars && not o.migrated) ≡ false
    → plan_of cfg ≡ some plan
    → o.first_groups ≡ true
    → o.second_groups ≡ true
    → (pr : Process) × (start letters vars o ≡ some pr)
      × (pr.release_plan ≡ (if o.redis then some plan else none))
      × (pr.event_consumer ≡ has_brokers cfg.kafka.brokers)
      × (pr.job_queue.enabled ≡ has_brokers cfg.kafka.brokers)
      × (pr.job_queue.groups ≡ when_kafka cfg ("booking-workers" ∷ "purchase-workers" ∷ []))
      × (pr.api_queue.groups ≡ pr.job_queue.groups)
start-serves letters vars o cfg plan l p m pl g h =
    (_, starts letters vars o cfg plan l p m pl g h, refl, refl, refl, refl, refl)
