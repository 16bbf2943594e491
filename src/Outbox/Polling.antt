-- ===== src/Outbox/Polling.antt =====
-- services/outbox-relay/internal/usecase/polling.go: the polling relay. One batch is claimed,
-- published event by event and committed; the broker (internal/usecase/port.go) and the JSON decoder
-- are parameters, and the broker's state is threaded through the calls.
pub mod Loop
pub mod Settled
pub mod Outcomes
pub mod Batches
pub mod Attempts
pub mod Counts
use core_wallet.Prelude.{
  ℕ, zero, suc, ◌+◌, ◌≤◌, String, Bool, true, false, Option, none, some, List, [], ◌∷◌, ◌++◌, arith,
  leb, if◌then◌else◌, length, ◌||◌, ltb, len,
}
use core_wallet.Outbox.{OutboxEvent, KafkaMessage, SentRef, Row}
use core_wallet.Outbox.Backoff.{SqlBackoff}
use core_wallet.Outbox.Table.{fetch_pending, commit_batch}

-- What `EventPublisher.Publish` returns: a position, or the text of its error.
pub data Published : Type 0 where
  acked : (partition offset : ℕ) → Published
  refused : (text : String) → Published

pub record PollingSettings : Type 0 where
  pub batch_size : ℕ
  pub max_attempts : ℕ
  pub backoff : SqlBackoff

-- What the metrics have counted.
pub record Counters : Type 0 where
  pub fetched : ℕ
  pub success : ℕ
  pub publish_errors : ℕ
  pub parked_dead : ℕ
  pub process_times : ℕ

-- The variables of the loop of `processBatch`.
pub record Progress : Type 0 where
  pub sent : List SentRef
  pub fail_ids : List ℕ
  pub last_err : String
  pub counters : Counters

-- What the database does by itself in one batch: the claim fails, the commit fails.
pub record Faults : Type 0 where
  pub claim_fails : Bool
  pub commit_fails : Bool

-- `(int, error)`.
pub data BatchResult : Type 0 where
  claimed : ℕ → BatchResult
  batch_error : BatchResult

-- The table, the broker and the metrics.
pub record World (B : Type 0) : Type 0 where
  pub rows : List Row
  pub broker : B
  pub counters : Counters

decoded : Option (List (String × String)) → List (String × String)
decoded none = []
decoded (some headers) = headers

headers_of : (String → Option (List (String × String))) → Option String → List (String × String)
unfolding decoded
headers_of unmarshal none = []
headers_of unmarshal (some text) = if ltb 0 (len text) then decoded (unmarshal text) else []

-- `toMessage`; headers that do not decode are dropped.
unfoldable pub to_message : (String → Option (List (String × String))) → OutboxEvent → KafkaMessage
unfolding headers_of
to_message unmarshal e = record {
  topic = e.topic;
  key = e.partition_key;
  value = e.payload;
  headers = headers_of unmarshal e.headers;
}

-- One turn of the loop, after the call of `Publish`.
unfoldable pub note_result : ℕ → OutboxEvent → Published → Progress → Progress
note_result max_attempts e (refused text) p = record p {
  fail_ids = p.fail_ids ++ (e.event_id ∷ []);
  last_err = text;
  counters = record (p.counters) {
    publish_errors = p.counters.publish_errors + 1;
    parked_dead =
        if leb max_attempts (e.attempts + 1)
        then p.counters.parked_dead + 1
        else p.counters.parked_dead;
  };
}
note_result max_attempts e (acked partition offset) p = record p {
  sent = p.sent ++ (record { event_id = e.event_id; partition = partition; offset = offset } ∷ []);
  counters = record (p.counters) { success = p.counters.success + 1 };
}

unfoldable pub publish_all :
    {B : Type 0}
    → (OutboxEvent → B → Published × B)
    → ℕ
    → List OutboxEvent
    → Progress
    → B
    → Progress × B
unfolding note_result
publish_all publish max_attempts [] p b = (p, b)
publish_all publish max_attempts (e ∷ events) p b =
    let res = publish e b in
    publish_all publish max_attempts events (note_result max_attempts e res.0 p) res.1

unfoldable pub events_of : List Row → List OutboxEvent
events_of [] = []
events_of (row ∷ rows) = row.event ∷ events_of rows

-- `defer batch.Rollback`: a commit that fails leaves the table as it was; what was published and
-- counted stays.
unfoldable pub conclude :
    {B : Type 0} → World B → ℕ → Progress × B → Option (List Row) → BatchResult × World B
conclude w n (p, b) none = (batch_error, record w { broker = b; counters = p.counters })
conclude w n (p, b) (some rows) = (
  claimed n,
  record {
    rows = rows;
    broker = b;
    counters = record (p.counters) { process_times = p.counters.process_times + 1 };
  },
)

unfoldable pub start : Counters → Progress
start counters = record { sent = []; fail_ids = []; last_err = ""; counters = counters }

-- The commit of what the loop gathered.
unfoldable pub outcome : Faults → PollingSettings → ℕ → Progress → List Row → Option (List Row)
outcome faults cfg now p rows =
    if faults.commit_fails
    then none
    else commit_batch now p.sent p.fail_ids p.last_err cfg.max_attempts rows

unfoldable pub relay :
    {B : Type 0}
    → (OutboxEvent → B → Published × B)
    → Faults
    → PollingSettings
    → ℕ
    → List Row
    → World B
    → BatchResult × World B
relay publish faults cfg now [] w = (claimed 0, w)
relay publish faults cfg now (row ∷ batch) w =
    let fetched = length (row ∷ batch) in
    let counters = record (w.counters) { fetched = w.counters.fetched + fetched } in
    let done =
      publish_all publish cfg.max_attempts (events_of (row ∷ batch)) (start counters) w.broker in
    conclude w fetched done (outcome faults cfg now done.0 w.rows)

-- `processBatch` at the time `now`; the publishes take the messages that `toMessage` builds.
unfoldable pub process_batch :
    {B : Type 0}
    → (String → Option (List (String × String)))
    → (KafkaMessage → B → Published × B)
    → Faults
    → PollingSettings
    → ℕ
    → (ℕ → Bool)
    → World B
    → BatchResult × World B
process_batch unmarshal publish faults cfg now locked w =
    if faults.claim_fails
    then (batch_error, w)
    else relay (λ e. publish (to_message unmarshal e)) faults cfg now
        (fetch_pending now cfg.batch_size cfg.backoff locked w.rows) w
