-- ===== src/Config.antt =====
-- internal/config/config.go and kafka.go: what is read of the environment, and what it means. `Vars` is
-- os.Getenv, after godotenv has read the file .env; a variable that is not set is empty.
pub mod Text
pub mod Security
pub mod Load
use Prim.Native.String.{◌++◌ as append}
use ticket_master.Prelude.{
  ℕ, ◌*◌, String, Bool, true, false, not, ◌||◌, Option, none, some, List, [], ◌∷◌, if◌then◌else◌,
  str_eq,
}
use ticket_master.Config.Text.{
  ℤ, pos, negsuc, Letters, is_empty, trim_space, split_commas, has_scheme, trim_slashes, atoi,
}

abbrev pub Vars : Type 0
Vars = String → String

-- getEnv
unfoldable pub get_env : Vars → String → String → String
get_env vars key fallback = if is_empty (vars key) then fallback else vars key

-- firstEnv
unfoldable pub first_env : Vars → List String → String
first_env vars [] = ""
first_env vars (key ∷ keys) =
    let rest = first_env vars keys in if is_empty (vars key) then rest else vars key

abbrev pub or_else {ℓ} : {A : Type ℓ} → Option A → A → A
or_else none fallback = fallback
or_else (some a) fallback = a

-- getEnvAsInt and getEnvAsInt64; an empty text is no number.
unfoldable pub get_env_as_int : Vars → String → ℤ → ℤ
get_env_as_int vars key fallback =
    if is_empty (vars key) then fallback else or_else (atoi (vars key)) fallback

abbrev pub among : String → List String → Bool
among s [] = false
among s (w ∷ ws) = str_eq s w || among s ws

abbrev pub read_bool : String → Bool → Bool
read_bool s fallback =
    if is_empty s
    then fallback
    else if among s ("1" ∷ "true" ∷ "yes" ∷ "y" ∷ "on" ∷ [])
    then true
    else if among s ("0" ∷ "false" ∷ "no" ∷ "n" ∷ "off" ∷ [])
    then false
    else fallback

-- getEnvAsBool
unfoldable pub get_env_as_bool : Letters → Vars → String → Bool → Bool
get_env_as_bool letters vars key fallback =
    read_bool (trim_space (letters.to_lower (vars key))) fallback

-- The parts that are not blank, trimmed.
abbrev pub trimmed : List String → List String
trimmed [] = []
trimmed (w ∷ ws) =
    let rest = trimmed ws in if is_empty (trim_space w) then rest else trim_space w ∷ rest

-- getEnvAsStringSlice
unfoldable pub get_env_as_string_slice : Vars → String → List String → List String
get_env_as_string_slice vars key fallback =
    if is_empty (vars key) then fallback else trimmed (split_commas (vars key))

abbrev pub without_scheme : Letters → String → String
without_scheme letters broker =
    if has_scheme broker then or_else (letters.url_host broker) broker else broker

-- normalizeKafkaBroker; `url_host` is none where url.Parse fails or finds no host.
unfoldable pub normalize_kafka_broker : Letters → String → String
normalize_kafka_broker letters value =
    if is_empty (trim_space value)
    then ""
    else trim_slashes (without_scheme letters (trim_space value))

abbrev pub brokers_of : Letters → List String → List String
brokers_of letters [] = []
brokers_of letters (raw ∷ raws) =
    let rest = brokers_of letters raws in
    if is_empty (normalize_kafka_broker letters raw)
    then rest
    else normalize_kafka_broker letters raw ∷ rest

-- parseKafkaBrokerList
unfoldable pub parse_kafka_broker_list : Letters → String → List String
parse_kafka_broker_list letters value =
    if is_empty (trim_space value) then [] else brokers_of letters (split_commas value)

abbrev pub or_next : List String → List String → List String
or_next [] next = next
or_next (b ∷ bs) next = b ∷ bs

abbrev pub first_brokers : Letters → Vars → List String → List String
first_brokers letters vars [] = []
first_brokers letters vars (key ∷ keys) =
    let rest = first_brokers letters vars keys in
    or_next (parse_kafka_broker_list letters (vars key)) rest

-- getKafkaBrokers
unfoldable pub get_kafka_brokers : Letters → Vars → List String
get_kafka_brokers letters vars = first_brokers letters vars (
    "KAFKA_BROKERS" ∷ "KAFKA_URL" ∷ "KAFKA_PRIVATE_URL" ∷ "KAFKA_PUBLIC_URL" ∷ "KAFKA_BROKER_URL"
    ∷ [])

pub record ServerConfig : Type 0 where
  pub port : String
  pub gin_mode : String
  pub read_timeout_sec : ℤ
  pub write_timeout_sec : ℤ
  pub idle_timeout_sec : ℤ
  pub shutdown_timeout_sec : ℤ

pub record DatabaseConfig : Type 0 where
  pub url : String
  pub host : String
  pub port : String
  pub user : String
  pub password : String
  pub name : String
  pub ssl_mode : String
  pub read_host : String
  pub read_port : String
  pub read_user : String
  pub read_password : String
  pub read_url : String

pub record RedisConfig : Type 0 where
  pub url : String
  pub host : String
  pub port : String
  pub password : String
  pub db : ℤ

pub record KafkaConfig : Type 0 where
  pub brokers : List String
  pub security_protocol : String
  pub sasl_mechanism : String
  pub sasl_username : String
  pub sasl_password : String
  pub booking_events_topic : String
  pub booking_events_dlq_topic : String
  pub booking_commands_topic : String
  pub purchase_commands_topic : String
  pub booking_dlq_topic : String
  pub purchase_dlq_topic : String
  pub client_id : String
  pub required_acks : String
  pub async : Bool
  pub topic_partitions : ℤ
  pub topic_replication_factor : ℤ

pub record JwtConfig : Type 0 where
  pub secret : String
  pub expiry_hours : ℤ

pub record BookingConfig : Type 0 where
  pub reservation_timeout_minutes : ℤ
  pub admission_window_sec : ℤ
  pub admission_event_limit : ℤ
  pub admission_client_limit : ℤ
  pub expiry_release_concurrency : ℤ
  pub expiry_release_partition_count : ℤ
  pub expiry_release_partition_offset : ℤ

pub record QueueConfig : Type 0 where
  pub max_retries : ℤ
  pub monitor_interval_sec : ℤ
  pub alert_booking_queue_length : ℤ
  pub alert_purchase_queue_length : ℤ
  pub alert_booking_pending : ℤ
  pub alert_purchase_pending : ℤ
  pub alert_booking_dlq : ℤ
  pub alert_purchase_dlq : ℤ

pub record StripeConfig : Type 0 where
  pub secret_key : String
  pub publishable_key : String
  pub webhook_secret : String
  pub webhook_url : String
  pub currency : String

pub record Config : Type 0 where
  pub server : ServerConfig
  pub database : DatabaseConfig
  pub redis : RedisConfig
  pub kafka : KafkaConfig
  pub jwt : JwtConfig
  pub booking : BookingConfig
  pub queue : QueueConfig
  pub allowed_origins : List String
  pub stripe : StripeConfig

-- host=… port=… user=… password=… dbname=… sslmode=…
unfoldable pub dsn_of : String → String → String → String → String → String → String
dsn_of host port user password name ssl_mode = append "host=" (
    append host (
      append " port=" (
        append port (
          append " user=" (
            append user (
              append " password=" (
                append password
                  (append " dbname=" (append name (append " sslmode=" ssl_mode))))))))))

-- DatabaseConfig.DSN
unfoldable pub dsn : DatabaseConfig → String
dsn d = if is_empty d.url then dsn_of d.host d.port d.user d.password d.name d.ssl_mode else d.url

abbrev pub default_to : String → String → String
default_to s fallback = if is_empty s then fallback else s

-- DatabaseConfig.ReadDSN
unfoldable pub read_dsn : DatabaseConfig → String
read_dsn d =
    if is_empty d.read_url
    then (if is_empty d.read_host
        then ""
        else dsn_of d.read_host (default_to d.read_port d.port) (default_to d.read_user d.user)
            (default_to d.read_password d.password) d.name d.ssl_mode)
    else d.read_url

abbrev pub allowed_by : String → List String → Bool
allowed_by origin [] = false
allowed_by origin (allowed ∷ rest) =
    str_eq allowed "*" || str_eq allowed origin || allowed_by origin rest

-- WebSocketConfig.IsOriginAllowed
unfoldable pub is_origin_allowed : List String → String → Bool
is_origin_allowed [] origin = true
is_origin_allowed (allowed ∷ rest) origin = allowed_by origin (allowed ∷ rest)
