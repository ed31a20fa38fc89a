-- ===== src/Config/Load.antt =====
-- Load of internal/config/config.go. The Boolean default of KAFKA_ASYNC is true.
use ticket_master.Prelude.{true, Option, none, some, [], ◌∷◌}
use ticket_master.Config.Text.{pos, Letters}
use ticket_master.Config.{
  Vars, Config, ServerConfig, DatabaseConfig, RedisConfig, KafkaConfig, JwtConfig, BookingConfig,
  QueueConfig, StripeConfig, get_env, first_env, get_env_as_int, get_env_as_bool,
  get_env_as_string_slice, get_kafka_brokers,
}
use ticket_master.Config.Security.{SecurityError, validate_security}

module _ (letters : Letters) (vars : Vars) where
  abbrev pub load_server : ServerConfig
  load_server = record {
    port = get_env vars "PORT" "8080";
    gin_mode = get_env vars "GIN_MODE" "release";
    read_timeout_sec = get_env_as_int vars "HTTP_READ_TIMEOUT_SEC" (pos 10);
    write_timeout_sec = get_env_as_int vars "HTTP_WRITE_TIMEOUT_SEC" (pos 15);
    idle_timeout_sec = get_env_as_int vars "HTTP_IDLE_TIMEOUT_SEC" (pos 60);
    shutdown_timeout_sec = get_env_as_int vars "HTTP_SHUTDOWN_TIMEOUT_SEC" (pos 10);
  }

  abbrev pub load_database : DatabaseConfig
  load_database = record {
    url = first_env vars ("DATABASE_URL" ∷ "POSTGRES_URL" ∷ []);
    host = get_env vars "DB_HOST" "localhost";
    port = get_env vars "DB_PORT" "5432";
    user = get_env vars "DB_USER" "postgres";
    password = get_env vars "DB_PASSWORD" "postgres";
    name = get_env vars "DB_NAME" "event_ticketing";
    ssl_mode = get_env vars "DB_SSLMODE" "disable";
    read_host = get_env vars "DB_READ_HOST" "";
    read_port = get_env vars "DB_READ_PORT" "";
    read_user = get_env vars "DB_READ_USER" "";
    read_password = get_env vars "DB_READ_PASSWORD" "";
    read_url = get_env vars "DB_READ_URL" "";
  }

  abbrev pub load_redis : RedisConfig
  load_redis = record {
    url = first_env vars ("REDIS_URL" ∷ "RAILWAY_REDIS_URL" ∷ []);
    host = get_env vars "REDIS_HOST" "localhost";
    port = get_env vars "REDIS_PORT" "6379";
    password = get_env vars "REDIS_PASSWORD" "";
    db = get_env_as_int vars "REDIS_DB" (pos 0);
  }

  abbrev pub load_kafka : KafkaConfig
  load_kafka = record {
    brokers = get_kafka_brokers letters vars;
    security_protocol = get_env vars "KAFKA_SECURITY_PROTOCOL" "";
    sasl_mechanism = get_env vars "KAFKA_SASL_MECHANISM" "PLAIN";
    sasl_username = get_env vars "KAFKA_SASL_USERNAME" "";
    sasl_password = get_env vars "KAFKA_SASL_PASSWORD" "";
    booking_events_topic = get_env vars "KAFKA_BOOKING_EVENTS_TOPIC" "booking-events";
    booking_events_dlq_topic = get_env vars "KAFKA_BOOKING_EVENTS_DLQ_TOPIC" "booking-events-dlq";
    booking_commands_topic = get_env vars "KAFKA_BOOKING_COMMANDS_TOPIC" "booking-commands";
    purchase_commands_topic = get_env vars "KAFKA_PURCHASE_COMMANDS_TOPIC" "purchase-commands";
    booking_dlq_topic = get_env vars "KAFKA_BOOKING_DLQ_TOPIC" "booking-commands-dlq";
    purchase_dlq_topic = get_env vars "KAFKA_PURCHASE_DLQ_TOPIC" "purchase-commands-dlq";
    client_id = get_env vars "KAFKA_CLIENT_ID" "ticketmaster-api";
    required_acks = letters.to_lower (get_env vars "KAFKA_REQUIRED_ACKS" "leader");
    async = get_env_as_bool letters vars "KAFKA_ASYNC" true;
    topic_partitions = get_env_as_int vars "KAFKA_TOPIC_PARTITIONS" (pos 6);
    topic_replication_factor = get_env_as_int vars "KAFKA_TOPIC_REPLICATION_FACTOR" (pos 1);
  }

  abbrev pub load_jwt : JwtConfig
  load_jwt = record {
    secret = get_env vars "JWT_SECRET" "your-super-secret-jwt-key-change-this-in-production";
    expiry_hours = get_env_as_int vars "JWT_EXPIRY_HOURS" (pos 24);
  }

  abbrev pub load_booking : BookingConfig
  load_booking = record {
    reservation_timeout_minutes = get_env_as_int vars "RESERVATION_TIMEOUT_MINUTES" (pos 10);
    admission_window_sec = get_env_as_int vars "BOOKING_ADMISSION_WINDOW_SEC" (pos 60);
    admission_event_limit = get_env_as_int vars "BOOKING_ADMISSION_EVENT_LIMIT" (pos 5000);
    admission_client_limit = get_env_as_int vars "BOOKING_ADMISSION_CLIENT_LIMIT" (pos 10);
    expiry_release_concurrency = get_env_as_int vars "EXPIRY_RELEASE_CONCURRENCY" (pos 4);
    expiry_release_partition_count = get_env_as_int vars "EXPIRY_RELEASE_PARTITION_COUNT" (pos 0);
    expiry_release_partition_offset = get_env_as_int vars "EXPIRY_RELEASE_PARTITION_OFFSET" (pos 0);
  }

  abbrev pub load_queue : QueueConfig
  load_queue = record {
    max_retries = get_env_as_int vars "QUEUE_MAX_RETRIES" (pos 3);
    monitor_interval_sec = get_env_as_int vars "QUEUE_MONITOR_INTERVAL_SEC" (pos 15);
    alert_booking_queue_length = get_env_as_int vars "QUEUE_ALERT_BOOKING_QUEUE_LENGTH" (pos 5000);
    alert_purchase_queue_length =
        get_env_as_int vars "QUEUE_ALERT_PURCHASE_QUEUE_LENGTH" (pos 5000);
    alert_booking_pending = get_env_as_int vars "QUEUE_ALERT_BOOKING_PENDING" (pos 1000);
    alert_purchase_pending = get_env_as_int vars "QUEUE_ALERT_PURCHASE_PENDING" (pos 1000);
    alert_booking_dlq = get_env_as_int vars "QUEUE_ALERT_BOOKING_DLQ" (pos 10);
    alert_purchase_dlq = get_env_as_int vars "QUEUE_ALERT_PURCHASE_DLQ" (pos 10);
  }

  abbrev pub load_stripe : StripeConfig
  load_stripe = record {
    secret_key = get_env vars "STRIPE_SECRET_KEY" "";
    publishable_key = get_env vars "STRIPE_PUBLISHABLE_KEY" "";
    webhook_secret = get_env vars "STRIPE_WEBHOOK_SECRET" "";
    webhook_url = get_env vars "STRIPE_WEBHOOK_URL" "http://localhost:8080/api/webhooks/stripe";
    currency = get_env vars "STRIPE_CURRENCY" "usd";
  }

  abbrev pub loaded : Config
  loaded = record {
    server = load_server;
    database = load_database;
    redis = load_redis;
    kafka = load_kafka;
    jwt = load_jwt;
    booking = load_booking;
    queue = load_queue;
    allowed_origins = get_env_as_string_slice vars "WEBSOCKET_ALLOWED_ORIGINS" [];
    stripe = load_stripe;
  }

  abbrev pub unless_error : Option SecurityError → Option Config
  unless_error none = some loaded
  unless_error (some e) = none

  -- Load; none is the error of ValidateSecurity.
  unfoldable pub load : Option Config
  load = unless_error (validate_security letters load_kafka)
