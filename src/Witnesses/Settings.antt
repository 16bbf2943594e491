-- ===== src/Witnesses/Settings.antt =====
-- A concrete environment of the relay (services/outbox-relay/internal/config).
use core_wallet.Prelude.{
  String, Bool, true, false, Option, none, some, List, [], ◌∷◌, ◌≡◌, refl, str_eq, if◌then◌else◌,
}
use core_wallet.Prelude.Ints.{ℤ, pos}
use core_wallet.Relay.{Result, ok, Env}
use core_wallet.Relay.Load.{Config, load_config}
use core_wallet.Relay.Loaded.{IsSafe, load_config-IsSafe}

abbrev env : Env
env key =
    if str_eq key "DB_MAX_CONNS"
    then some "20"
    else if str_eq key "WORKER_COUNT"
    then some " 8"
    else if str_eq key "KAFKA_BROKERS"
    then some "k1:9092, k2:9092,"
    else none

abbrev unparsed : {A : Type 0} → String → Option A
unparsed v = none

abbrev config : Config (Unit {0})
config = record {
  mode = "polling";
  db_host = "localhost";
  db_port = pos 5432;
  db_user = "wallet_app";
  db_password = "";
  db_name = "wallet";
  db_max_conns = pos 20;
  db_min_conns = pos 5;
  db_max_conn_lifetime = pos 1800000000000;
  db_max_conn_idle_time = pos 300000000000;
  db_connect_timeout = pos 5000000000;
  db_statement_timeout = pos 2500000000;
  db_lock_timeout = pos 1500000000;
  kafka_brokers = "k1:9092" ∷ "k2:9092" ∷ [];
  kafka_topic_prefix = "wallet";
  batch_size = pos 100;
  max_retries = pos 3;
  max_attempts = pos 10;
  worker_count = pos 8;
  metrics_port = pos 9090;
  poll_interval = pos 1000000000;
  retry_delay = pos 5000000000;
  retry_max_delay = pos 300000000000;
  shutdown_timeout = pos 15000000000;
  cdc = record {
    connect_url = "http://kafka-connect:8083";
    connector_name = "wallet-outbox-connector";
    cdc_topic = "wallet.public.wlt_outbox";
    consumer_group = "outbox-relay-cdc";
    slot_name = "wallet_outbox_slot";
    publication_name = "wallet_outbox_publication";
    auto_register = true;
    connector_config_path = "";
  };
  otel = record {
    enabled = false;
    endpoint = "otel-collector:4317";
    insecure = true;
    sampling_ratio = tt;
    service_name = "outbox-relay";
  };
  environment = "dev";
  log_level = "info";
}

loads : load_config unparsed unparsed tt env ≡ ok config
unfolding load_config core_wallet.Relay.Load.unknown_mode core_wallet.Relay.get_env
    core_wallet.Relay.Load.read_numbers core_wallet.Relay.get_env_int core_wallet.Eod.atoi
    core_wallet.Prelude.trim_space core_wallet.Relay.outside core_wallet.Prelude.Ints.ltz
    core_wallet.Relay.Load.get_env_duration core_wallet.Relay.Load.get_env_float
    core_wallet.Relay.Load.checked core_wallet.Relay.Load.assembled core_wallet.Relay.split_csv
    core_wallet.Relay.narrow core_wallet.Relay.Load.load_cdc
loads = refl

load_config-IsSafe_example : IsSafe config
load_config-IsSafe_example = load_config-IsSafe unparsed unparsed tt env config loads
