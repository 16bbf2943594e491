-- ===== src/Outbox.antt =====
-- services/outbox-relay: the relay that claims rows of WLT_OUTBOX, publishes them to the broker and
-- stamps the outcome. This module holds the types of internal/domain/outbox.go and of the table; a
-- time is a number of nanoseconds, an identifier or an offset a natural number.
pub mod Backoff
pub mod Table
pub mod Polling
pub mod Cdc
use core_wallet.Prelude.{ℕ, String, Option, List}

-- `OutboxEvent`; the headers are `none` for an SQL NULL.
pub record OutboxEvent : Type 0 where
  pub event_id : ℕ
  pub event_uuid : String
  pub event_type : String
  pub topic : String
  pub partition_key : String
  pub payload : String
  pub headers : Option String
  pub attempts : ℕ
  pub created_at : ℕ

pub record KafkaMessage : Type 0 where
  pub topic : String
  pub key : String
  pub value : String
  pub headers : List (String × String)

pub record SentRef : Type 0 where
  pub event_id : ℕ
  pub partition : ℕ
  pub offset : ℕ

-- The column `status`.
pub data Status : Type 0 where
  pending failed sent dead : Status

-- A row: the columns that an event is read from, and those that the relay writes.
pub record Row : Type 0 where
  pub event : OutboxEvent
  pub status : Status
  pub last_attempt_at : Option ℕ
  pub last_error : Option String
  pub sent_at : Option ℕ
  pub kafka_partition : Option ℕ
  pub kafka_offset : Option ℕ

abbrev pub row_id : Row → ℕ
row_id row = row.event.event_id
