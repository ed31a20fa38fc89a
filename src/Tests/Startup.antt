-- ===== src/Tests/Startup.antt =====
-- A process that starts with one broker and without Redis.
use ticket_master.Prelude.{◌≡◌, refl, true, false, some, none, [], ◌∷◌, str_eq, if◌then◌else◌}
use ticket_master.Config.{
  Vars, get_kafka_brokers, parse_kafka_broker_list, normalize_kafka_broker, get_env, get_env_as_int,
}
use ticket_master.Config.Text.{split_commas, trim_slashes, has_scheme}
use ticket_master.Config.Security.{validate_security, kafka_security_protocol}
use ticket_master.Service.Purchase.{is_space}
use ticket_master.Expiry.Release.{expiry_release_partition_plan, plan_at}
use ticket_master.Startup.{should_run_startup_migrations}
use ticket_master.Config.Load.{loaded, load}
use ticket_master.Startup.Wiring.{Outside, Process, start}
use ticket_master.Startup.Serves.{start-serves}
use ticket_master.Tests.Kafka.{same_letters}

abbrev one_broker : Vars
one_broker key = if str_eq key "KAFKA_BROKERS" then "broker:9092" else ""

abbrev without_redis : Outside
without_redis = record {
  primary = true;
  migrated = false;
  redis = false;
  first_groups = true;
  second_groups = true;
}

start-serves_example :
    (pr : Process) × (start same_letters one_broker without_redis ≡ some pr)
    × (pr.release_plan ≡ none)
    × (pr.event_consumer ≡ true)
    × (pr.job_queue.enabled ≡ true)
    × (pr.job_queue.groups ≡ "booking-workers" ∷ "purchase-workers" ∷ [])
    × (pr.api_queue.groups ≡ pr.job_queue.groups)
unfolding load validate_security get_kafka_brokers parse_kafka_broker_list is_space split_commas
    normalize_kafka_broker trim_slashes has_scheme kafka_security_protocol get_env
    should_run_startup_migrations expiry_release_partition_plan plan_at get_env_as_int
start-serves_example =
    start-serves same_letters one_broker without_redis (loaded same_letters one_broker)
      (record { concurrency = 4; count = 4; offset = 0 }) refl refl refl refl refl refl
