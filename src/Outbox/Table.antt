-- ===== src/Outbox/Table.antt =====
-- services/outbox-relay/internal/repo/outbox.go: the statements over WLT_OUTBOX. A table is the list
-- of its rows; `locked` says which rows other transactions hold.
pub mod Claims
pub mod Order
pub mod Commits
use core_wallet.Prelude.{
  ℕ, zero, suc, ◌+◌, ◌≤◌, String, ◌≡◌, refl, Bool, true, false, ◌&&◌, not, Option, none, some, List,
  [], ◌∷◌, map, arith, ltb, leb, ◌==◌, if◌then◌else◌, take, any, len,
}
use text.Mathlib.Text.{get?}
use core_wallet.Outbox.{OutboxEvent, SentRef, Row, row_id, Status, pending, failed, sent, dead}
use core_wallet.Outbox.Backoff.{SqlBackoff, sql_wait}

-- The `WHERE` of the claim: a PENDING row, or a FAILED one past its backoff.
due : ℕ → SqlBackoff → Option ℕ → ℕ → Bool
due now b none attempts = true
due now b (some at) attempts = leb (at + sql_wait b attempts) now

unfoldable pub eligible : ℕ → SqlBackoff → Status → Row → Bool
unfolding due
eligible now b pending row = true
eligible now b failed row = due now b row.last_attempt_at row.event.attempts
eligible now b _ row = false

unfoldable pub claimable : ℕ → SqlBackoff → (ℕ → Bool) → Row → Bool
claimable now b locked row = eligible now b row.status row && not (locked (row_id row))

-- `ORDER BY created_at`; of two rows of one time the order of the table is kept.
unfoldable pub insert_by_age : Row → List Row → List Row
insert_by_age r [] = r ∷ []
insert_by_age r (s ∷ rows) =
    if leb r.event.created_at s.event.created_at then r ∷ s ∷ rows else s ∷ insert_by_age r rows

unfoldable pub oldest_first : List Row → List Row
unfolding insert_by_age
oldest_first [] = []
oldest_first (r ∷ rows) = insert_by_age r (oldest_first rows)

unfoldable pub select : (Row → Bool) → List Row → List Row
select p [] = []
select p (r ∷ rows) = let rest = select p rows in if p r then r ∷ rest else rest

-- `fetchPending`: the rows that are claimed, and so locked.
unfoldable pub fetch_pending : ℕ → ℕ → SqlBackoff → (ℕ → Bool) → List Row → List Row
unfolding select oldest_first claimable
fetch_pending now limit b locked rows =
    take limit (oldest_first (select (claimable now b locked) rows))

-- `MarkSent` of one row, in CDC mode.
unfoldable pub mark_one_sent : ℕ → SentRef → Status → Row → Row
mark_one_sent now ref sent row = row
mark_one_sent now ref dead row = row
mark_one_sent now ref _ row =
    if row_id row == ref.event_id
    then record row {
      status = sent;
      sent_at = some now;
      event = record (row.event) { attempts = row.event.attempts + 1 };
      kafka_partition = some ref.partition;
      kafka_offset = some ref.offset;
    }
    else row

unfoldable pub mark_sent_cdc : ℕ → SentRef → List Row → List Row
unfolding mark_one_sent
mark_sent_cdc now ref = map (λ row. mark_one_sent now ref row.status row)

-- The row of the `unnest` that joins with an identifier; an event is sent once in a batch.
unfoldable pub find_ref : ℕ → List SentRef → Option SentRef
find_ref id [] = none
find_ref id (ref ∷ refs) = if ref.event_id == id then some ref else find_ref id refs

stamp : ℕ → Option SentRef → Row → Row
stamp now none row = row
stamp now (some ref) row = record row {
  status = sent;
  sent_at = some now;
  event = record (row.event) { attempts = row.event.attempts + 1 };
  kafka_partition = some ref.partition;
  kafka_offset = some ref.offset;
}

-- `markSent`.
unfoldable pub mark_sent : ℕ → List SentRef → List Row → List Row
unfolding stamp find_ref
mark_sent now refs = map (λ row. stamp now (find_ref (row_id row) refs) row)

-- `errMsg[:500]` of a text longer than 500 bytes; `none` where byte 500 lies inside a character, so
-- that the slice is no UTF-8.
unfoldable pub truncate : String → Option String
truncate err_msg = if ltb 500 (len err_msg) then get? err_msg 0 500 else some err_msg

unfoldable pub fail_row : ℕ → List ℕ → String → ℕ → Row → Row
fail_row now ids err_msg max_attempts row =
    if any (λ id. id == row_id row) ids
    then record row {
      event = record (row.event) { attempts = row.event.attempts + 1 };
      last_attempt_at = some now;
      last_error = some err_msg;
      status = if leb max_attempts (row.event.attempts + 1) then dead else failed;
    }
    else row

mark_with : Option String → ℕ → List ℕ → ℕ → List Row → Option (List Row)
unfolding fail_row
mark_with none now ids max_attempts rows = none
mark_with (some msg) now ids max_attempts rows = some (map (fail_row now ids msg max_attempts) rows)

-- `markFailed`; `none` where the database refuses a text that is no UTF-8.
unfoldable pub mark_failed : ℕ → List ℕ → String → ℕ → List Row → Option (List Row)
unfolding mark_with truncate
mark_failed now [] err_msg max_attempts rows = some rows
mark_failed now (id ∷ ids) err_msg max_attempts rows =
    mark_with (truncate err_msg) now (id ∷ ids) max_attempts rows

-- `Commit` of a batch, where the database does not fail by itself: `none` aborts the transaction.
unfoldable pub commit_batch : ℕ → List SentRef → List ℕ → String → ℕ → List Row → Option (List Row)
unfolding mark_sent mark_failed
commit_batch now refs ids last_err max_attempts rows =
    mark_failed now ids last_err max_attempts (mark_sent now refs rows)
