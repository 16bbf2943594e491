-- ===== src/Outbox/Polling/Loop.antt =====
-- The loop of `processBatch` (usecase/polling.go) against the list of what the broker answered.
use core_wallet.Prelude.{◌≡◌, ap, sym, ◌∙◌, arith, length, ◌++◌, leb, if◌then◌else◌, ◌+◌}
use mathlib.Core.List.{append_assoc, append-nil}
use core_wallet.Outbox.{OutboxEvent, SentRef, List, ℕ, String}
use core_wallet.Outbox.Polling.{
  Published, acked, refused, Progress, note_result, publish_all, ◌∷◌, ◌++◌, [], if◌then◌else◌, ◌+◌,
  leb, length, suc,
}

-- Each event with the broker's answer, in the order of the calls.
unfoldable pub answers :
    {B : Type 0}
    → (OutboxEvent → B → Published × B)
    → List OutboxEvent
    → B
    → List (OutboxEvent × Published)
answers publish [] b = []
answers publish (e ∷ events) b =
    let res = publish e b in (e, res.0) ∷ answers publish events (res.1)

-- The broker after the calls.
unfoldable pub broker_after :
    {B : Type 0} → (OutboxEvent → B → Published × B) → List OutboxEvent → B → B
broker_after publish [] b = b
broker_after publish (e ∷ events) b = broker_after publish events (publish e b).1

unfoldable pub acks : List (OutboxEvent × Published) → List SentRef
acks [] = []
acks ((e, acked partition offset) ∷ rest) =
    record { event_id = e.event_id; partition = partition; offset = offset } ∷ acks rest
acks ((e, refused text) ∷ rest) = acks rest

unfoldable pub refusals : List (OutboxEvent × Published) → List ℕ
refusals [] = []
refusals ((e, acked partition offset) ∷ rest) = refusals rest
refusals ((e, refused text) ∷ rest) = e.event_id ∷ refusals rest

-- How many refusals used up the last attempt.
unfoldable pub exhausted : ℕ → List (OutboxEvent × Published) → ℕ
exhausted max_attempts [] = 0
exhausted max_attempts ((e, acked partition offset) ∷ rest) = exhausted max_attempts rest
exhausted max_attempts ((e, refused text) ∷ rest) =
    let n = exhausted max_attempts rest in if leb max_attempts (e.attempts + 1) then suc n else n

unfoldable pub last_text : String → List (OutboxEvent × Published) → String
last_text text [] = text
last_text text ((e, acked partition offset) ∷ rest) = last_text text rest
last_text text ((e, refused new) ∷ rest) = last_text new rest

-- What the loop has gathered once it has seen the answers.
unfoldable pub gathered : ℕ → List (OutboxEvent × Published) → Progress → Progress
unfolding acks refusals exhausted last_text
gathered max_attempts seen p = record {
  sent = p.sent ++ acks seen;
  fail_ids = p.fail_ids ++ refusals seen;
  last_err = last_text p.last_err seen;
  counters = record (p.counters) {
    success = p.counters.success + length (acks seen);
    publish_errors = p.counters.publish_errors + length (refusals seen);
    parked_dead = p.counters.parked_dead + exhausted max_attempts seen;
  };
}

gathered-nil : (max_attempts : ℕ) (p : Progress) → gathered max_attempts [] p ≡ p
unfolding gathered
gathered-nil max_attempts p = grind (arith, append-nil)

gathered-note_result :
    (max_attempts : ℕ) (e : OutboxEvent) (res : Published) (seen : List (OutboxEvent × Published))
    (p : Progress)
    → gathered max_attempts seen (note_result max_attempts e res p)
      ≡ gathered max_attempts ((e, res) ∷ seen) p
unfolding gathered note_result
gathered-note_result max_attempts e (acked partition offset) seen p =
    rw (append_assoc) (grind arith)
gathered-note_result max_attempts e (refused text) seen p = grind (arith, append_assoc)

-- The loop gathers the positions of the acknowledged events, the identifiers of the refused ones and
-- the last refusal's text, counts each, and leaves the broker after the last call.
pub publish_all_lem :
    {B : Type 0} (publish : OutboxEvent → B → Published × B) (max_attempts : ℕ)
    (events : List OutboxEvent) (p : Progress) (b : B)
    → publish_all publish max_attempts events p b
      ≡ (gathered max_attempts (answers publish events b) p, broker_after publish events b)
unfolding publish_all answers broker_after
publish_all_lem publish max_attempts [] p b = ap (λ q. (q, b)) (sym (gathered-nil max_attempts p))
publish_all_lem publish max_attempts (e ∷ events) p b =
    let res = publish e b in
    publish_all_lem publish max_attempts events (note_result max_attempts e res.0 p) res.1
    ∙ ap (λ q. (q, broker_after publish events res.1))
        (gathered-note_result max_attempts e res.0 (answers publish events res.1) p)
