-- ===== src/Outbox/Cdc.antt =====
-- services/outbox-relay in CDC mode: internal/usecase/cdc.go and the message handler of
-- internal/kafka/consumer.go. The JSON decoder and the failures of the database are parameters.
pub mod Redelivery
use core_wallet.Prelude.{
  ℕ, ◌+◌, String, Bool, true, false, ◌||◌, ◌&&◌, Option, none, some, List, [], ◌∷◌, ◌==◌,
  if◌then◌else◌, str_eq,
}
use core_wallet.Outbox.{SentRef, Row}
use core_wallet.Outbox.Table.{mark_sent_cdc}

-- `debeziumEvent`: the operation and the `event_id` of the payload and of the row after the change.
pub record DebeziumEvent : Type 0 where
  pub op : String
  pub payload : Option ℕ
  pub after : Option ℕ

pub record CdcMessage : Type 0 where
  pub value : String
  pub partition : ℕ
  pub offset : ℕ

-- The errors of `handle`.
pub data CdcError : Type 0 where
  unmarshal_error zero_event_id mark_delivered_error : CdcError

-- `MarkDelivered` with `MarkSent` at the time `now`, which fails where the database does.
unfoldable pub mark_delivered : Bool → ℕ → SentRef → List Row → Option CdcError × List Row
unfolding mark_sent_cdc
mark_delivered db_fails now ref rows =
    if ref.event_id == 0
    then (some zero_event_id, rows)
    else if db_fails
    then (some mark_delivered_error, rows)
    else (none, mark_sent_cdc now ref rows)

after_id : Option ℕ → ℕ
after_id none = 0
after_id (some id) = id

-- The identifier that `handle` finds: the payload's, or where that is 0 the one after the change.
unfoldable pub event_id_of : DebeziumEvent → ℕ
unfolding after_id
event_id_of event =
    if after_id event.payload == 0 then after_id event.after else after_id event.payload

is_none : Option ℕ → Bool
is_none none = true
is_none (some id) = false

-- A delete or a tombstone.
unfoldable pub is_skipped : DebeziumEvent → Bool
unfolding is_none
is_skipped event = str_eq event.op "d" || (is_none event.payload && is_none event.after)

unfoldable pub handle_event :
    Bool → ℕ → CdcMessage → Option DebeziumEvent → List Row → Option CdcError × List Row
unfolding mark_delivered event_id_of is_skipped
handle_event db_fails now msg none rows = (some unmarshal_error, rows)
handle_event db_fails now msg (some event) rows =
    if is_skipped event
    then (none, rows)
    else mark_delivered db_fails now
        (record { event_id = event_id_of event; partition = msg.partition; offset = msg.offset })
        rows

-- `handle`.
unfoldable pub handle :
    (String → Option DebeziumEvent) → Bool → ℕ → CdcMessage → List Row → Option CdcError × List Row
unfolding handle_event
handle unmarshal db_fails now msg rows = handle_event db_fails now msg (unmarshal msg.value) rows

-- What the loop of `ConsumeClaim` counts and the table it leaves; every message is marked consumed.
pub record Consumed : Type 0 where
  pub rows : List Row
  pub errors : ℕ
  pub success : ℕ
  pub marked : List CdcMessage

unfoldable pub note_handled : CdcMessage → Option CdcError × List Row → Consumed → Consumed
note_handled msg (none, rows) c = record c {
  rows = rows;
  success = c.success + 1;
  marked = msg ∷ c.marked;
}
note_handled msg (some error, rows) c = record c {
  rows = rows;
  errors = c.errors + 1;
  marked = msg ∷ c.marked;
}

-- `ConsumeClaim`: each message comes with the database's failure and the time.
unfoldable pub consume_claim :
    (String → Option DebeziumEvent) → List (Bool × ℕ × CdcMessage) → Consumed → Consumed
unfolding handle note_handled
consume_claim unmarshal [] c = c
consume_claim unmarshal ((db_fails, now, msg) ∷ messages) c =
    consume_claim unmarshal messages (note_handled msg (handle unmarshal db_fails now msg c.rows) c)
