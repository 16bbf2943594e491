-- ===== src/Outbox/Table/Commits.antt =====
-- The commit of a batch in repo/outbox.go row by row, where every identifier was either sent or
-- refused.
use core_wallet.Prelude.{
  ℕ, ◌+◌, ◌≡◌, refl, String, List, [], ◌∷◌, map, some, none, any, ◌==◌, true, false, if◌then◌else◌,
  leb,
}
use mathlib.Core.List.{map-map}
use core_wallet.Outbox.{Row, SentRef, row_id, sent, dead, failed}
use core_wallet.Outbox.Table.{
  stamp, find_ref, fail_row, mark_sent, mark_with, mark_failed, truncate, commit_batch, Bool,
}

-- A row after the commit, by what it is among: the sent, the refused, or neither.
abbrev pub sent_row : ℕ → SentRef → Row → Row
sent_row now ref row = record row {
  status = sent;
  sent_at = some now;
  event = record (row.event) { attempts = row.event.attempts + 1 };
  kafka_partition = some ref.partition;
  kafka_offset = some ref.offset;
}

abbrev pub failed_row : ℕ → String → ℕ → Row → Row
failed_row now msg max_attempts row = record row {
  event = record (row.event) { attempts = row.event.attempts + 1 };
  last_attempt_at = some now;
  last_error = some msg;
  status = if leb max_attempts (row.event.attempts + 1) then dead else failed;
}

abbrev pub refused_id : ℕ → List ℕ → Bool
refused_id id ids = any (λ x. x == id) ids

unfoldable pub committed : ℕ → List SentRef → List ℕ → String → ℕ → Row → Row
unfolding stamp
committed now refs ids msg max_attempts row =
    fail_row now ids msg max_attempts (stamp now (find_ref (row_id row) refs) row)

pub commit_batch_lem :
    (now : ℕ) (refs : List SentRef) (ids : List ℕ) (text msg : String) (max_attempts : ℕ)
    (rows : List Row)
    → truncate text ≡ some msg
    → commit_batch now refs ids text max_attempts rows
      ≡ some (map (committed now refs ids msg max_attempts) rows)
unfolding commit_batch mark_sent mark_failed mark_with committed fail_row
commit_batch_lem now refs [] text msg max_attempts rows h = refl
commit_batch_lem now refs (id ∷ ids) text msg max_attempts rows h = rw (h, map-map) refl

pub committed-sent :
    (now : ℕ) (refs : List SentRef) (ids : List ℕ) (msg : String) (max_attempts : ℕ) (row : Row)
    (ref : SentRef)
    → find_ref (row_id row) refs ≡ some ref
    → refused_id (row_id row) ids ≡ false
    → committed now refs ids msg max_attempts row ≡ sent_row now ref row
unfolding committed fail_row stamp
committed-sent now refs ids msg max_attempts row ref h n = rw (h) (rw (n) refl)

pub committed-refused :
    (now : ℕ) (refs : List SentRef) (ids : List ℕ) (msg : String) (max_attempts : ℕ) (row : Row)
    → find_ref (row_id row) refs ≡ none
    → refused_id (row_id row) ids ≡ true
    → committed now refs ids msg max_attempts row ≡ failed_row now msg max_attempts row
unfolding committed fail_row stamp
committed-refused now refs ids msg max_attempts row h n = rw (h) (rw (n) refl)

pub committed-absent :
    (now : ℕ) (refs : List SentRef) (ids : List ℕ) (msg : String) (max_attempts : ℕ) (row : Row)
    → find_ref (row_id row) refs ≡ none
    → refused_id (row_id row) ids ≡ false
    → committed now refs ids msg max_attempts row ≡ row
unfolding committed fail_row stamp
committed-absent now refs ids msg max_attempts row h n = rw (h) (rw (n) refl)

pub commit_batch-none :
    (now : ℕ) (refs : List SentRef) (id : ℕ) (ids : List ℕ) (text : String) (max_attempts : ℕ)
    (rows : List Row)
    → truncate text ≡ none
    → commit_batch now refs (id ∷ ids) text max_attempts rows ≡ none
unfolding commit_batch mark_failed mark_with
commit_batch-none now refs id ids text max_attempts rows h = rw (h) refl
