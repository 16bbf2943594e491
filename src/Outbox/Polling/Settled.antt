-- ===== src/Outbox/Polling/Settled.antt =====
-- What a batch makes of each row (usecase/polling.go with repo/outbox.go): the answer to the row's
-- event decides, and a row that was not claimed stays as it is.
use core_wallet.Prelude.{
  ℕ, ◌≡◌, refl, ap, ◌∙◌, String, List, [], ◌∷◌, map, Option, some, none, ◌==◌, true, false, arith,
  if◌then◌else◌,
}
use mathlib.Core.Path.{fun_ext}
use core_wallet.Outbox.{Row, OutboxEvent, row_id}
use core_wallet.Outbox.Table.{find_ref, truncate, commit_batch}
use core_wallet.Outbox.Table.Claims.{Unique, has_id}
use core_wallet.Outbox.Table.Commits.{
  sent_row, failed_row, refused_id, committed, commit_batch_lem, committed-sent, committed-refused,
  committed-absent,
}
use core_wallet.Outbox.Polling.{Published, acked, refused, events_of}
use core_wallet.Outbox.Polling.Loop.{answers, acks, refusals}

-- The answer to the event of an identifier.
unfoldable pub find_answer : ℕ → List (OutboxEvent × Published) → Option Published
find_answer id [] = none
find_answer id ((e, res) ∷ seen) = if e.event_id == id then some res else find_answer id seen

-- The row after the batch.
unfoldable pub settled_by : ℕ → String → ℕ → Row → Option Published → Row
settled_by now msg max_attempts row none = row
settled_by now msg max_attempts row (some (acked partition offset)) =
    sent_row now (record { event_id = row_id row; partition = partition; offset = offset }) row
settled_by now msg max_attempts row (some (refused text)) = failed_row now msg max_attempts row

unfoldable pub settled : ℕ → String → ℕ → List (OutboxEvent × Published) → Row → Row
unfolding settled_by find_answer
settled now msg max_attempts seen row =
    settled_by now msg max_attempts row (find_answer (row_id row) seen)

-- No two answers are about one identifier.
abbrev pub Distinct : List (OutboxEvent × Published) → Type 0
Distinct [] = Unit
Distinct ((e, res) ∷ seen) = (find_answer e.event_id seen ≡ none) × Distinct seen

pub find_answer-absent :
    {B : Type 0} (publish : OutboxEvent → B → Published × B) (rows : List Row) (b : B) (id : ℕ)
    → has_id id rows ≡ false
    → find_answer id (answers publish (events_of rows) b) ≡ none
unfolding answers events_of find_answer
find_answer-absent publish [] b id h = refl
find_answer-absent publish (r ∷ rows) b id h =
    ground (arith, find_answer-absent publish rows (publish r.event b).1 id)

pub answers-Distinct :
    {B : Type 0} (publish : OutboxEvent → B → Published × B) (rows : List Row) (b : B)
    → Unique rows
    → Distinct (answers publish (events_of rows) b)
unfolding answers events_of
answers-Distinct publish [] b u = tt
answers-Distinct publish (r ∷ rows) b (new, u) =
    let b' = (publish r.event b).1 in
    (find_answer-absent publish rows b' (row_id r) new, answers-Distinct publish rows b' u)

find_ref-absent :
    (id : ℕ) (seen : List (OutboxEvent × Published))
    → find_answer id seen ≡ none
    → (find_ref id (acks seen) ≡ none) × (refused_id id (refusals seen) ≡ false)
unfolding find_answer find_ref acks refusals
find_ref-absent id [] h = (refl, refl)
find_ref-absent id ((e, acked p o) ∷ seen) h = ground (arith, find_ref-absent id seen)
find_ref-absent id ((e, refused text) ∷ seen) h = ground (arith, find_ref-absent id seen)

find_ref-acked :
    (id : ℕ) (seen : List (OutboxEvent × Published)) (p o : ℕ)
    → Distinct seen
    → find_answer id seen ≡ some (acked p o)
    → (find_ref id (acks seen) ≡ some (record { event_id = id; partition = p; offset = o }))
      × (refused_id id (refusals seen) ≡ false)
unfolding find_answer find_ref acks refusals
find_ref-acked id [] p o d h = absurd cc
find_ref-acked id ((e, acked p' o') ∷ seen) p o (new, d) h =
    ground (arith, find_ref-acked id seen p o d, find_ref-absent id seen)
find_ref-acked id ((e, refused text) ∷ seen) p o (new, d) h =
    ground (arith, find_ref-acked id seen p o d)

find_ref-refused :
    (id : ℕ) (seen : List (OutboxEvent × Published)) (text : String)
    → Distinct seen
    → find_answer id seen ≡ some (refused text)
    → (find_ref id (acks seen) ≡ none) × (refused_id id (refusals seen) ≡ true)
unfolding find_answer find_ref acks refusals
find_ref-refused id [] text d h = absurd cc
find_ref-refused id ((e, acked p o) ∷ seen) text (new, d) h =
    ground (arith, find_ref-refused id seen text d)
find_ref-refused id ((e, refused text') ∷ seen) text (new, d) h =
    ground (arith, find_ref-refused id seen text d, find_ref-absent id seen)

committed-settled :
    (now : ℕ) (msg : String) (max_attempts : ℕ) (seen : List (OutboxEvent × Published)) (row : Row)
    → Distinct seen
    → (res : Option Published) → find_answer (row_id row) seen ≡ res
    → committed now (acks seen) (refusals seen) msg max_attempts row
      ≡ settled_by now msg max_attempts row res
unfolding settled_by
committed-settled now msg max_attempts seen row d none h =
    let (r, i) = find_ref-absent _ seen h in committed-absent now _ _ msg max_attempts row r i
committed-settled now msg max_attempts seen row d (some (acked p o)) h =
    let (r, i) = find_ref-acked _ seen p o d h in committed-sent now _ _ msg max_attempts row _ r i
committed-settled now msg max_attempts seen row d (some (refused text)) h =
    let (r, i) = find_ref-refused _ seen text d h in
    committed-refused now _ _ msg max_attempts row r i

-- The commit of what the loop gathered makes of each row what the answer to its event says.
pub commit_batch-settled :
    (now : ℕ) (seen : List (OutboxEvent × Published)) (text msg : String) (max_attempts : ℕ)
    (rows : List Row)
    → Distinct seen
    → truncate text ≡ some msg
    → commit_batch now (acks seen) (refusals seen) text max_attempts rows
      ≡ some (map (settled now msg max_attempts seen) rows)
unfolding settled
commit_batch-settled now seen text msg max_attempts rows d h =
    commit_batch_lem now _ _ text msg max_attempts rows h
    ∙ ap some (
        ap (λ f. map f rows)
          (fun_ext (λ row. committed-settled now msg max_attempts seen row d _ refl)))
