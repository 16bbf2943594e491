-- ===== src/Witnesses/Connector.antt =====
-- A Kafka Connect that holds one connector (services/outbox-relay/internal/debezium).
use core_wallet.Prelude.{String, ℕ, ◌≡◌, refl, true, Option, none, some, [], ◌∷◌}
use core_wallet.Prelude.Ints.{pos}
use core_wallet.Debezium.{
  Settings, Entries, Method, get, post, put, delete, Result, ok, Reply, Client, Library,
}
use core_wallet.Debezium.Config.{build_connector_config, load_config_file}
use core_wallet.Debezium.Manager.{ensure, connector_url}
use core_wallet.Debezium.Registered.{KeepsConnector, ensure_registers}

abbrev cfg : Settings
cfg = record {
  connect_url = "http://connect:8083";
  connector_name = "wallet-outbox";
  auto_register = true;
  connector_config_path = "/etc/connector.json";
  slot_name = "wallet_outbox";
  publication_name = "wallet_outbox";
  db_host = "db";
  db_port = pos 5432;
  db_user = "relay";
  db_password = "";
  db_name = "wallet";
  topic_prefix = "wallet";
}

abbrev entries : Entries
entries = ("slot.name", "wallet_outbox") ∷ ("tasks.max", "1") ∷ []

abbrev lib : Library
lib = record {
  marshal = λ p. ok "{}";
  read_file = λ path. ok "{}";
  raw_config = λ text. ok (some entries);
  flat_config = λ text. ok [];
  state = λ text. ok "RUNNING";
  print = λ n. "5432";
}

abbrev answer : ℕ → Option Entries → Result Reply × Option Entries
answer status w = (ok (record { status = status; body = "" }), w)

abbrev serve : Method → String → Option String → Option Entries → Result Reply × Option Entries
serve get url body none = answer 404 none
serve get url body (some old) = answer 200 (some old)
serve post url body none = answer 201 (some entries)
serve post url body (some old) = answer 409 (some old)
serve put url body w = answer 200 (some entries)
serve delete url body w = answer 204 none

abbrev client : Client (Option Entries)
client = record { new_request = λ m url. none; send = serve }

found :
    (w : Option Entries) (old : Entries)
    → w ≡ some old
    → (b : String) × (serve get (connector_url cfg) none w
        ≡ (ok (record { status = 200; body = b }), w))
found none old h = absurd cc
found (some _) old h = ("", refl)

missed :
    (w : Option Entries)
    → w ≡ none
    → (b : String) × (serve get (connector_url cfg) none w
        ≡ (ok (record { status = 404; body = b }), w))
missed none h = ("", refl)
missed (some _) h = absurd cc

created :
    (w : Option Entries)
    → w ≡ none
    → (b : String) × (w' : Option Entries) × (serve post "http://connect:8083/connectors"
          (some "{}")
          w
        ≡ (ok (record { status = 201; body = b }), w'))
      × (w' ≡ some entries)
created none h = ("", some entries, refl, refl)
created (some _) h = absurd cc

keeps : KeepsConnector client lib cfg entries (λ w. w)
keeps = record {
  makes = λ m url. refl;
  new_body = "{}";
  update_body = "{}";
  writes_new = refl;
  writes_update = refl;
  misses = missed;
  finds = found;
  creates = created;
  updates = λ w old h. ("", some entries, refl, refl);
}

built : build_connector_config lib cfg ≡ ok entries
unfolding build_connector_config load_config_file
built = refl

ensure_registers_example :
    (w' : Option Entries) × (ensure client lib cfg none ≡ (ok tt, w')) × (w' ≡ some entries)
ensure_registers_example = ensure_registers client lib cfg entries (λ w. w) keeps refl built none
