-- ===== src/Debezium.antt =====
-- services/outbox-relay/internal/debezium/connector.go: the manager of the Debezium connector. Kafka
-- Connect behind its HTTP client, JSON and the file system are parameters.
pub mod Config
pub mod Manager
pub mod Registered
use core_wallet.Prelude.{String, ℕ, Bool, Option, List}
use core_wallet.Prelude.Ints.{ℤ}

-- `Settings`.
pub record Settings : Type 0 where
  pub connect_url : String
  pub connector_name : String
  pub auto_register : Bool
  pub connector_config_path : String
  pub slot_name : String
  pub publication_name : String
  pub db_host : String
  pub db_port : ℤ
  pub db_user : String
  pub db_password : String
  pub db_name : String
  pub topic_prefix : String

-- A connector configuration: the entries of the map, its keys distinct.
abbrev pub Entries : Type 0
Entries = List (String × String)

pub data Method : Type 0 where
  get post put delete : Method

-- The errors: one of a library, a text in front of another, and a status that is no success.
pub data Failure : Type 0 where
  library : String → Failure
  wrapped : String → Failure → Failure
  returned : String → ℕ → Failure
  refused : Method → String → ℕ → String → Failure

pub data Result (A : Type 0) : Type 0 where
  ok : A → Result A
  err : Failure → Result A

pub record Reply : Type 0 where
  pub status : ℕ
  pub body : String

-- The HTTP client over the state `W` of Kafka Connect: the error of a request that cannot be made, and
-- what comes of one that is sent.
pub record Client (W : Type 0) : Type 0 where
  pub new_request : Method → String → Option Failure
  pub send : Method → String → Option String → W → Result Reply × W

-- What is sent as JSON: a configuration, or one under the name of the connector.
pub data Payload : Type 0 where
  flat : Entries → Payload
  named : String → Entries → Payload

-- JSON, the files and the printed numbers; `raw_config` is the `config` member of an object, which may
-- be missing, `flat_config` an object of texts, `state` the state of the connector.
pub record Library : Type 0 where
  pub marshal : Payload → Result String
  pub read_file : String → Result String
  pub raw_config : String → Result (Option Entries)
  pub flat_config : String → Result Entries
  pub state : String → Result String
  pub print : ℤ → String
