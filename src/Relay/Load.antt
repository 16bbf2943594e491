-- ===== src/Relay/Load.antt =====
-- config.go: `Config` with its parts, `LoadConfig` and `DSN`. The type `F` of a float and its 1.0 are
-- parameters.
use core_wallet.Prelude.{String, Bool, true, false, ◌&&◌, not, Option, List, [], str_eq}
use core_wallet.Prelude.Ints.{ℤ, pos, ltz}
use core_wallet.Relay.{
  bad_mode, not_float, not_duration, out_of_range, too_small, no_brokers, cap_below_base, Result,
  ok, ◌>>=◌, ◌>>◌, refuse, Env, present, get_env, get_env_int, parsed, split_csv, narrow, outside,
}

pub record CdcConfig : Type 0 where
  pub connect_url : String
  pub connector_name : String
  pub cdc_topic : String
  pub consumer_group : String
  pub slot_name : String
  pub publication_name : String
  pub auto_register : Bool
  pub connector_config_path : String

pub record OtelConfig (F : Type 0) : Type 0 where
  pub enabled : Bool
  pub endpoint : String
  pub insecure : Bool
  pub sampling_ratio : F
  pub service_name : String

pub record Config (F : Type 0) : Type 0 where
  pub mode : String
  pub db_host : String
  pub db_port : ℤ
  pub db_user : String
  pub db_password : String
  pub db_name : String
  pub db_max_conns : ℤ
  pub db_min_conns : ℤ
  pub db_max_conn_lifetime : ℤ
  pub db_max_conn_idle_time : ℤ
  pub db_connect_timeout : ℤ
  pub db_statement_timeout : ℤ
  pub db_lock_timeout : ℤ
  pub kafka_brokers : List String
  pub kafka_topic_prefix : String
  pub batch_size : ℤ
  pub max_retries : ℤ
  pub max_attempts : ℤ
  pub worker_count : ℤ
  pub metrics_port : ℤ
  pub poll_interval : ℤ
  pub retry_delay : ℤ
  pub retry_max_delay : ℤ
  pub shutdown_timeout : ℤ
  pub cdc : CdcConfig
  pub otel : OtelConfig F
  pub environment : String
  pub log_level : String

-- `getEnv(key, def) == "true"`.
abbrev is_true : Env → String → String → Bool
is_true env key def = str_eq (get_env env key def) "true"

unfoldable pub load_cdc : Env → CdcConfig
load_cdc env = record {
  connect_url = get_env env "CDC_CONNECT_URL" "http://kafka-connect:8083";
  connector_name = get_env env "CDC_CONNECTOR_NAME" "wallet-outbox-connector";
  cdc_topic = get_env env "CDC_TOPIC" "wallet.public.wlt_outbox";
  consumer_group = get_env env "CDC_CONSUMER_GROUP" "outbox-relay-cdc";
  slot_name = get_env env "CDC_SLOT_NAME" "wallet_outbox_slot";
  publication_name = get_env env "CDC_PUBLICATION_NAME" "wallet_outbox_publication";
  auto_register = is_true env "CDC_AUTO_REGISTER" "true";
  connector_config_path = get_env env "CDC_CONNECTOR_CONFIG" "";
}

-- The numbers that `LoadConfig` reads, in the order in which it reads them.
pub record Numbers (F : Type 0) : Type 0 where
  pub db_port : ℤ
  pub max_conns : ℤ
  pub min_conns : ℤ
  pub db_max_conn_lifetime : ℤ
  pub db_max_conn_idle_time : ℤ
  pub db_connect_timeout : ℤ
  pub db_statement_timeout : ℤ
  pub db_lock_timeout : ℤ
  pub batch_size : ℤ
  pub max_retries : ℤ
  pub max_attempts : ℤ
  pub worker_count : ℤ
  pub metrics_port : ℤ
  pub poll_interval : ℤ
  pub retry_delay : ℤ
  pub retry_max_delay : ℤ
  pub shutdown_timeout : ℤ
  pub sampling_ratio : F

abbrev pub is_empty : List String → Bool
is_empty [] = true
is_empty _ = false

-- `c.Mode != ModePolling && c.Mode != ModeCDC`.
unfoldable pub unknown_mode : String → Bool
unknown_mode mode = not (str_eq mode "polling") && not (str_eq mode "cdc")

-- The checks behind the last read, in their order.
unfoldable pub checked : {F : Type 0} → Config F → Result (Config F)
checked c = do
  refuse (is_empty c.kafka_brokers) no_brokers
  refuse (str_eq c.mode "polling" && ltz c.worker_count (pos 1))
      (too_small "WORKER_COUNT" c.worker_count)
  refuse (ltz c.batch_size (pos 1)) (too_small "BATCH_SIZE" c.batch_size)
  refuse (ltz c.max_attempts (pos 1)) (too_small "MAX_ATTEMPTS" c.max_attempts)
  refuse (ltz c.retry_delay (pos 1)) (too_small "RETRY_DELAY" c.retry_delay)
  refuse (ltz c.retry_max_delay c.retry_delay) (cap_below_base c.retry_max_delay c.retry_delay)
  ok c

module _ {F : Type 0} (parse_duration : String → Option ℤ) (parse_float : String → Option F)
    (one : F) (env : Env) where
  -- `getEnvDuration`.
  unfoldable pub get_env_duration : String → ℤ → Result ℤ
  get_env_duration key def = parsed parse_duration (not_duration key) def (present (env key))

  -- `getEnvFloat`.
  unfoldable pub get_env_float : String → F → Result F
  get_env_float key def = parsed parse_float (not_float key) def (present (env key))

  -- The reads, with the two checks of the pool sizes among them.
  unfoldable pub read_numbers : Result (Numbers F)
  read_numbers = do
    db_port ← get_env_int env "DB_PORT" (pos 5432)
    max_conns ← get_env_int env "DB_MAX_CONNS" (pos 50)
    min_conns ← get_env_int env "DB_MIN_CONNS" (pos 5)
    refuse (outside (pos 1) max_conns) (out_of_range "DB_MAX_CONNS" max_conns)
    refuse (outside (pos 0) min_conns) (out_of_range "DB_MIN_CONNS" min_conns)
    db_max_conn_lifetime ← get_env_duration "DB_MAX_CONN_LIFETIME" (pos 1800000000000)
    db_max_conn_idle_time ← get_env_duration "DB_MAX_CONN_IDLE" (pos 300000000000)
    db_connect_timeout ← get_env_duration "DB_CONNECT_TIMEOUT" (pos 5000000000)
    db_statement_timeout ← get_env_duration "DB_STATEMENT_TIMEOUT" (pos 2500000000)
    db_lock_timeout ← get_env_duration "DB_LOCK_TIMEOUT" (pos 1500000000)
    batch_size ← get_env_int env "BATCH_SIZE" (pos 100)
    max_retries ← get_env_int env "MAX_RETRIES" (pos 3)
    max_attempts ← get_env_int env "MAX_ATTEMPTS" (pos 10)
    worker_count ← get_env_int env "WORKER_COUNT" (pos 4)
    metrics_port ← get_env_int env "METRICS_PORT" (pos 9090)
    poll_interval ← get_env_duration "POLL_INTERVAL" (pos 1000000000)
    retry_delay ← get_env_duration "RETRY_DELAY" (pos 5000000000)
    retry_max_delay ← get_env_duration "RETRY_MAX_DELAY" (pos 300000000000)
    shutdown_timeout ← get_env_duration "SHUTDOWN_TIMEOUT" (pos 15000000000)
    sampling_ratio ← get_env_float "OTEL_TRACES_SAMPLER_ARG" one
    ok (record {
      db_port = db_port;
      max_conns = max_conns;
      min_conns = min_conns;
      db_max_conn_lifetime = db_max_conn_lifetime;
      db_max_conn_idle_time = db_max_conn_idle_time;
      db_connect_timeout = db_connect_timeout;
      db_statement_timeout = db_statement_timeout;
      db_lock_timeout = db_lock_timeout;
      batch_size = batch_size;
      max_retries = max_retries;
      max_attempts = max_attempts;
      worker_count = worker_count;
      metrics_port = metrics_port;
      poll_interval = poll_interval;
      retry_delay = retry_delay;
      retry_max_delay = retry_max_delay;
      shutdown_timeout = shutdown_timeout;
      sampling_ratio = sampling_ratio;
    })

  -- The configuration that the texts and the numbers make.
  unfoldable pub assembled : Numbers F → Config F
  assembled n = record {
    mode = get_env env "RELAY_MODE" "polling";
    db_host = get_env env "DB_HOST" "localhost";
    db_port = n.db_port;
    db_user = get_env env "DB_USER" "wallet_app";
    db_password = get_env env "DB_PASSWORD" "";
    db_name = get_env env "DB_NAME" "wallet";
    db_max_conns = narrow n.max_conns;
    db_min_conns = narrow n.min_conns;
    db_max_conn_lifetime = n.db_max_conn_lifetime;
    db_max_conn_idle_time = n.db_max_conn_idle_time;
    db_connect_timeout = n.db_connect_timeout;
    db_statement_timeout = n.db_statement_timeout;
    db_lock_timeout = n.db_lock_timeout;
    kafka_brokers = split_csv (get_env env "KAFKA_BROKERS" "localhost:9092");
    kafka_topic_prefix = get_env env "KAFKA_TOPIC_PREFIX" "wallet";
    batch_size = n.batch_size;
    max_retries = n.max_retries;
    max_attempts = n.max_attempts;
    worker_count = n.worker_count;
    metrics_port = n.metrics_port;
    poll_interval = n.poll_interval;
    retry_delay = n.retry_delay;
    retry_max_delay = n.retry_max_delay;
    shutdown_timeout = n.shutdown_timeout;
    cdc = load_cdc env;
    otel = record {
      enabled = is_true env "OTEL_ENABLED" "false";
      endpoint = get_env env "OTEL_EXPORTER_OTLP_ENDPOINT" "otel-collector:4317";
      insecure = is_true env "OTEL_EXPORTER_OTLP_INSECURE" "true";
      sampling_ratio = n.sampling_ratio;
      service_name = get_env env "OTEL_SERVICE_NAME" "outbox-relay";
    };
    environment = get_env env "ENV" "dev";
    log_level = get_env env "LOG_LEVEL" "info";
  }

  -- `LoadConfig`.
  unfoldable pub load_config : Result (Config F)
  load_config = do
    let mode = get_env env "RELAY_MODE" "polling"
    refuse (unknown_mode mode) (bad_mode mode)
    n ← read_numbers
    checked (assembled n)
