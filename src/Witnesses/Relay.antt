-- ===== src/Witnesses/Relay.antt =====
-- A table of the relay (services/outbox-relay) with a pending, a failed and a parked row, and a broker
-- that refuses the topic `audit`.
use core_wallet.Prelude.{
  ℕ, ◌+◌, ◌≤◌, ◌≡◌, refl, String, true, false, Option, none, some, List, [], ◌∷◌, str_eq,
  if◌then◌else◌, arith, length, All, Bool, str_append, map,
}
use mathlib.Core.List.{Memᴰ}
use core_wallet.Outbox.{OutboxEvent, KafkaMessage, Row, Status, pending, failed, dead, row_id}
use core_wallet.Outbox.Backoff.{Floats, SqlBackoff, sql_wait}
use core_wallet.Prelude.{◌*◌, ◌^◌, min}
use core_wallet.Outbox.Table.{claimable, eligible, fetch_pending, truncate, oldest_first, select}
use core_wallet.Outbox.Table.Claims.{Unique, fetch_pending_sound, IsDue}
use core_wallet.Outbox.Table.Order.{fetch_pending_fair}
use core_wallet.Outbox.Polling.{
  Published, acked, refused, PollingSettings, Faults, World, Counters, process_batch, publish_all,
  start, events_of, batch_error, claimed, to_message,
}
use core_wallet.Outbox.Polling.Loop.{answers, broker_after, gathered, publish_all_lem, last_text}
use core_wallet.Outbox.Polling.Settled.{settled}
use core_wallet.Outbox.Polling.Outcomes.{Settles}
use core_wallet.Outbox.Polling.Batches.{
  process_batch_commits, seen_by, send, process_batch_atomic, process_batch_keeps,
  split_text_rolls_back,
}
use core_wallet.Outbox.Polling.Attempts.{Sound, process_batch-Sound}
use core_wallet.Outbox.Polling.Counts.{Balanced, process_batch-Balanced}
use core_wallet.Outbox.Cdc.{DebeziumEvent, CdcMessage, handle, consume_claim, Consumed}
use core_wallet.Outbox.Cdc.Redelivery.{handle_redelivered, consume_claim_lem, delivered, consumed}

abbrev event_of : ℕ → String → ℕ → ℕ → OutboxEvent
event_of id topic attempts created_at = record {
  event_id = id;
  event_uuid = "u";
  event_type = "wallet.topup";
  topic = topic;
  partition_key = "A1";
  payload = "{}";
  headers = none;
  attempts = attempts;
  created_at = created_at;
}

abbrev row_of : OutboxEvent → Status → Option ℕ → Row
row_of event status at = record {
  event = event;
  status = status;
  last_attempt_at = at;
  last_error = none;
  sent_at = none;
  kafka_partition = none;
  kafka_offset = none;
}

abbrev fresh_row : Row
fresh_row = row_of (event_of 1 "wallet" 0 40) pending none

abbrev retry_row : Row
retry_row = row_of (event_of 2 "audit" 2 30) failed (some 10)

abbrev dead_row : Row
dead_row = row_of (event_of 3 "audit" 3 20) dead (some 15)

abbrev table : List Row
table = fresh_row ∷ retry_row ∷ dead_row ∷ []

-- Arithmetic that is exact in nanoseconds.
abbrev exact : Floats
exact = record {
  seconds = λ n. n;
  times = λ x y. x * y;
  power_of_two = λ n. 2 ^ n;
  least = min;
  make_interval = λ x. x;
}

abbrev wait : SqlBackoff
wait = record { backoff = record { base = 5; max = 300 }; floats = exact }

abbrev cfg : PollingSettings
cfg = record { batch_size = 10; max_attempts = 3; backoff = wait }

abbrev no_faults : Faults
no_faults = record { claim_fails = false; commit_fails = false }

abbrev free : ℕ → Bool
free id = false

abbrev counters : Counters
counters = record {
  fetched = 0;
  success = 0;
  publish_errors = 0;
  parked_dead = 0;
  process_times = 0;
}

-- The broker's state is its next offset.
abbrev world : World ℕ
world = record { rows = table; broker = 7; counters = counters }

abbrev publish : KafkaMessage → ℕ → Published × ℕ
publish m offset =
    (if str_eq m.topic "audit" then refused "topic not found" else acked 0 offset, offset + 1)

abbrev unmarshal : String → Option (List (String × String))
unmarshal s = none

table-Unique : Unique table
table-Unique = (refl, (refl, (refl, tt)))

process_batch_atomic_example :
    let res = process_batch unmarshal publish no_faults cfg 100 free world in
    Settles 100 3
      (seen_by unmarshal publish cfg 100 free world)
      (length (fetch_pending 100 10 wait free table))
      table
      (res.0)
      (res.1.rows)
process_batch_atomic_example =
    process_batch_atomic unmarshal publish no_faults cfg 100 free world table-Unique

process_batch_keeps_example :
    Memᴰ dead_row (process_batch unmarshal publish no_faults cfg 100 free world).1.rows
unfolding claimable eligible
process_batch_keeps_example =
    process_batch_keeps unmarshal publish no_faults cfg 100 free world dead_row table-Unique
      (Memᴰ.tail (Memᴰ.tail (Memᴰ.head refl))) refl

process_batch-Sound_example :
    All (Sound 3) (process_batch unmarshal publish no_faults cfg 100 free world).1.rows
unfolding Sound
process_batch-Sound_example =
    process_batch-Sound unmarshal publish no_faults cfg 100 free world table-Unique
      (omega arith, ((omega arith, omega arith, λ h. cc), ((refl, λ h. cc), tt)))

process_batch-Balanced_example :
    Balanced (process_batch unmarshal publish no_faults cfg 100 free world).1.counters
process_batch-Balanced_example =
    process_batch-Balanced unmarshal publish no_faults cfg 100 free world (refl, omega arith)

fetch_pending_sound_example :
    All (λ r. IsDue 100 wait r × (free (row_id r) ≡ false)) (fetch_pending 100 10 wait free table)
    × (length (fetch_pending 100 10 wait free table) ≤ 10)
fetch_pending_sound_example = fetch_pending_sound 100 10 wait free table

fetch_pending_fair_example :
    All (λ r. r.event.created_at ≤ 40) (fetch_pending 100 1 wait free table)
    × (length (fetch_pending 100 1 wait free table) ≡ 1)
unfolding claimable eligible fetch_pending oldest_first select sql_wait
fetch_pending_fair_example =
    fetch_pending_fair 100 1 wait free table fresh_row (Memᴰ.head refl) refl refl

publish_all_lem_example :
    publish_all
      (send unmarshal publish)
      3
      (fresh_row.event ∷ retry_row.event ∷ [])
      (start counters)
      7
    ≡ (
      gathered 3
          (answers (send unmarshal publish) (fresh_row.event ∷ retry_row.event ∷ []) 7)
          (start counters),
      broker_after (send unmarshal publish) (fresh_row.event ∷ retry_row.event ∷ []) 7,
    )
publish_all_lem_example =
    publish_all_lem (send unmarshal publish) 3 (fresh_row.event ∷ retry_row.event ∷ [])
      (start counters) 7

-- Fifty bytes, ten times, behind them a character of two bytes that starts at byte 499.
abbrev ten : String
ten =
    "0123456789012345678901234567890123456789012345678901234567890123456789012345678901234567890123456789"

abbrev long_text : String
long_text = str_append ten (
    str_append ten (
      str_append ten (
        str_append ten (
          str_append
            "012345678901234567890123456789012345678901234567890123456789012345678901234567890123456789012345678"
            "é"))))

abbrev refuse_all : KafkaMessage → ℕ → Published × ℕ
refuse_all m offset = (refused long_text, offset + 1)

split_text_rolls_back_example :
    let res = process_batch unmarshal refuse_all no_faults cfg 100 free world in
    let batch = fetch_pending 100 10 wait free table in
    (res.0 ≡ batch_error)
    × (res.1.rows ≡ table)
    × (res.1.broker ≡ broker_after (send unmarshal refuse_all) (events_of batch) 7)
unfolding answers last_text truncate fetch_pending events_of oldest_first select claimable eligible
    sql_wait
split_text_rolls_back_example =
    split_text_rolls_back unmarshal refuse_all no_faults cfg 100 free world refl refl

abbrev message : CdcMessage
message = record { value = "{\"op\":\"c\",\"after\":{\"event_id\":1}}"; partition = 0; offset = 9 }

abbrev read : String → Option DebeziumEvent
read s = some (record { op = "c"; payload = none; after = some 1 })

handle_redelivered_example :
    let rows' = (handle read false 50 message table).1 in
    (handle read false 60 message rows').1 ≡ rows'
unfolding handle
handle_redelivered_example =
    handle_redelivered read 50 60 false false message message table refl refl

abbrev two_messages : List (Bool × ℕ × CdcMessage)
two_messages = (false, 50, message) ∷ (true, 51, message) ∷ []

consume_claim_lem_example :
    let c : Consumed = record { rows = table; errors = 0; success = 0; marked = [] } in
    let after = consume_claim read two_messages c in
    (after.errors ≡ 1)
    × (after.success ≡ 1)
    × (after.rows ≡ delivered read two_messages table)
    × (after.marked ≡ consumed two_messages [])
unfolding core_wallet.Outbox.Cdc.is_skipped core_wallet.Outbox.Cdc.event_id_of
consume_claim_lem_example =
    consume_claim_lem read two_messages
      (record { rows = table; errors = 0; success = 0; marked = [] })

process_batch_commits_example :
    let res = process_batch unmarshal publish no_faults cfg 100 free world in
    (res.0 ≡ claimed (length (fetch_pending 100 10 wait free table)))
    × (res.1.rows
        ≡ map
            (settled 100 "topic not found" 3 (seen_by unmarshal publish cfg 100 free world))
            table)
unfolding to_message answers last_text truncate fetch_pending events_of oldest_first select
    claimable eligible sql_wait
process_batch_commits_example =
    process_batch_commits unmarshal publish no_faults cfg 100 free world "topic not found"
      table-Unique refl refl refl
