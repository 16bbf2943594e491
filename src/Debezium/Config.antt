-- ===== src/Debezium/Config.antt =====
-- connector.go: buildConnectorConfig and loadConfigFile.
use core_wallet.Prelude.{String, Option, none, some, [], ◌∷◌, str_eq, str_append, if◌then◌else◌}
use core_wallet.Prelude.Ints.{ℤ}
use core_wallet.Debezium.{Settings, Entries, Failure, wrapped, Result, ok, err, Library}

-- A file that has no `config` member is a flat map or refused.
abbrev flat_or : Failure → Result Entries → Result Entries
flat_or wrong (ok entries) = ok entries
flat_or wrong (err e) = err wrong

abbrev own_text : String → Result Entries → Result Entries
own_text wrong (ok entries) = ok entries
own_text wrong (err e) = err (wrapped wrong e)

abbrev of_raw : Result Entries → Result (Option Entries) → Result Entries
of_raw flat (ok (some entries)) = ok entries
of_raw flat (ok none) = own_text "debezium: parse config file as flat map" flat
of_raw flat (err e) = flat_or (wrapped "debezium: parse config file" e) flat

abbrev of_file : Library → String → Result String → Result Entries
of_file lib path (err e) = err (wrapped (str_append "debezium: read config file " path) e)
of_file lib path (ok data_text) = of_raw (lib.flat_config data_text) (lib.raw_config data_text)

-- `loadConfigFile`.
unfoldable pub load_config_file : Library → String → Result Entries
load_config_file lib path = of_file lib path (lib.read_file path)

-- The built-in configuration.
abbrev default_config : (ℤ → String) → Settings → Entries
default_config print cfg =
    ("connector.class", "io.debezium.connector.postgresql.PostgresConnector")
    ∷ ("database.hostname", cfg.db_host)
    ∷ ("database.port", print cfg.db_port)
    ∷ ("database.user", cfg.db_user)
    ∷ ("database.password", cfg.db_password)
    ∷ ("database.dbname", cfg.db_name)
    ∷ ("database.server.name", "wallet-db")
    ∷ ("topic.prefix", cfg.topic_prefix)
    ∷ ("plugin.name", "pgoutput")
    ∷ ("table.include.list", "public.wlt_outbox")
    ∷ ("slot.name", cfg.slot_name)
    ∷ ("publication.name", cfg.publication_name)
    ∷ ("publication.autocreate.mode", "filtered")
    ∷ ("transforms", "outbox")
    ∷ ("transforms.outbox.type", "io.debezium.transforms.outbox.EventRouter")
    ∷ ("transforms.outbox.table.field.event.id", "event_uuid")
    ∷ ("transforms.outbox.table.field.event.key", "partition_key")
    ∷ ("transforms.outbox.table.field.event.type", "event_type")
    ∷ ("transforms.outbox.table.field.event.payload", "payload")
    ∷ ("transforms.outbox.table.fields.additional.placement", "topic:header,headers:header")
    ∷ ("transforms.outbox.route.by.field", "topic")
    ∷ ("transforms.outbox.route.topic.regex", "(.*)")
    ∷ ("transforms.outbox.route.topic.replacement", "$1")
    ∷ ("key.converter", "org.apache.kafka.connect.storage.StringConverter")
    ∷ ("value.converter", "org.apache.kafka.connect.json.JsonConverter")
    ∷ ("value.converter.schemas.enable", "false")
    ∷ ("max.batch.size", "1000")
    ∷ ("max.queue.size", "10000")
    ∷ ("poll.interval.ms", "500")
    ∷ ("snapshot.mode", "never")
    ∷ ("snapshot.locking.mode", "none")
    ∷ ("tombstones.on.delete", "false")
    ∷ ("heartbeat.interval.ms", "30000")
    ∷ ("heartbeat.topics.prefix", "__debezium-heartbeat")
    ∷ ("event.processing.failure.handling.mode", "skip")
    ∷ ("decimal.handling.mode", "string")
    ∷ ("binary.handling.mode", "base64")
    ∷ []

-- `buildConnectorConfig`.
unfoldable pub build_connector_config : Library → Settings → Result Entries
build_connector_config lib cfg =
    if str_eq cfg.connector_config_path ""
    then ok (default_config lib.print cfg)
    else load_config_file lib cfg.connector_config_path
