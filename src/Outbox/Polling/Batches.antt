-- ===== src/Outbox/Polling/Batches.antt =====
-- A whole batch of the polling relay (`processBatch`): all or nothing on the table, what it leaves
-- alone, and what the metrics count.
use core_wallet.Prelude.{
  ℕ, ◌≡◌, refl, ap, sym, String, List, map, Option, some, none, false, Bool-cases, inl, inr, length,
  subst,
}
use mathlib.Core.List.{Memᴰ}
use mathlib.Core.List.Memᴰ
use core_wallet.Outbox.{Row, OutboxEvent, KafkaMessage, row_id}
use core_wallet.Outbox.Table.{truncate, fetch_pending, claimable}
use core_wallet.Outbox.Table.Claims.{Unique, has_id, claimed-claimable, fetch_pending-Unique}
use core_wallet.Outbox.Polling.{
  Published, PollingSettings, Faults, claimed, batch_error, World, events_of, outcome, relay,
  to_message, process_batch, Bool,
}
use core_wallet.Outbox.Polling.Loop.{answers, last_text, broker_after}
use core_wallet.Outbox.Polling.Settled.{settled, settled_by, find_answer, find_answer-absent}
use core_wallet.Outbox.Polling.Outcomes.{Settles, relay-Settles, relay-commits, relay-split, clash}

module _ {B : Type 0} (unmarshal : String → Option (List (String × String)))
    (publish : KafkaMessage → B → Published × B) where
  -- The publish of an event: of the message it maps to.
  abbrev pub send : OutboxEvent → B → Published × B
  send e = publish (to_message unmarshal e)

  -- The answers that a batch receives.
  abbrev pub seen_by : PollingSettings → ℕ → (ℕ → Bool) → World B → List (OutboxEvent × Published)
  seen_by cfg now locked w =
      answers send (events_of (fetch_pending now cfg.batch_size cfg.backoff locked w.rows)) w.broker

  -- Over a table with unique identifiers a batch either returns an error and leaves the table as it
  -- was, or returns the number of claimed rows and makes of every row what the broker answered to
  -- its event: SENT with the position, FAILED or DEAD with one attempt more, or unchanged.
  pub process_batch_atomic :
      (faults : Faults) (cfg : PollingSettings) (now : ℕ) (locked : ℕ → Bool) (w : World B)
      → Unique w.rows
      → let res = process_batch unmarshal publish faults cfg now locked w in
        Settles now cfg.max_attempts
          (seen_by cfg now locked w)
          (length (fetch_pending now cfg.batch_size cfg.backoff locked w.rows))
          w.rows
          (res.0)
          (res.1.rows)
  unfolding process_batch relay outcome
  process_batch_atomic faults cfg now locked w u = elim (Bool-cases faults.claim_fails) [
    | inl fails ↦ rw (fails) (inl (refl, refl))
    | inr claims ↦ rw (claims) (
        relay-Settles send faults cfg now _ w
          (fetch_pending-Unique now cfg.batch_size cfg.backoff locked w.rows u))
  ]

  -- No answer is about a row that is not claimable.
  pub unanswered :
      (cfg : PollingSettings) (now : ℕ) (locked : ℕ → Bool) (w : World B) (x : Row)
      → Unique w.rows
      → Memᴰ x w.rows
      → claimable now cfg.backoff locked x ≡ false
      → find_answer (row_id x) (seen_by cfg now locked w) ≡ none
  unanswered cfg now locked w x u m c =
      let batch = fetch_pending now cfg.batch_size cfg.backoff locked w.rows in
      find_answer-absent send batch w.broker (row_id x)
        (elim (Bool-cases (has_id (row_id x) batch)) [
          | inl there ↦
              absurd (
                clash c
                  (claimed-claimable now cfg.batch_size cfg.backoff locked w.rows x u m there))
          | inr absent ↦ absent
        ])

  -- Over a table with unique identifiers a row that is not claimable (SENT, DEAD, under backoff or
  -- locked by another relay) is in the table after the batch exactly as before.
  pub process_batch_keeps :
      (faults : Faults) (cfg : PollingSettings) (now : ℕ) (locked : ℕ → Bool) (w : World B)
      (x : Row)
      → Unique w.rows
      → Memᴰ x w.rows
      → claimable now cfg.backoff locked x ≡ false
      → Memᴰ x (process_batch unmarshal publish faults cfg now locked w).1.rows
  unfolding settled
  process_batch_keeps faults cfg now locked w x u m c =
      elim (process_batch_atomic faults cfg now locked w u) [
        | inl (_, same) ↦ subst (Memᴰ x) (sym same) m
        | inr (msg, _, _, e) ↦
            let f = settled now msg cfg.max_attempts (seen_by cfg now locked w) in
            subst (Memᴰ x) (sym e) (
              subst (λ y. Memᴰ y (map f w.rows))
                (ap (settled_by now msg cfg.max_attempts x) (unanswered cfg now locked w x u m c))
                (Memᴰ.map f m))
      ]

  -- Where the last refusal's text has more than 500 bytes and byte 500 lies inside a character, the
  -- batch is an error that leaves the table as it was, although every claimed event has gone to the
  -- broker.
  pub split_text_rolls_back :
      (faults : Faults) (cfg : PollingSettings) (now : ℕ) (locked : ℕ → Bool) (w : World B)
      → faults.claim_fails ≡ false
      → truncate (last_text "" (seen_by cfg now locked w)) ≡ none
      → let res = process_batch unmarshal publish faults cfg now locked w in
        let batch = fetch_pending now cfg.batch_size cfg.backoff locked w.rows in
        (res.0 ≡ batch_error)
        × (res.1.rows ≡ w.rows)
        × (res.1.broker ≡ broker_after send (events_of batch) w.broker)
  unfolding process_batch
  split_text_rolls_back faults cfg now locked w claims h =
      simp (claims) (relay-split send faults cfg now _ w h)

  -- Over a table with unique identifiers, where neither the claim nor the commit fails and the last
  -- refusal's text can be cut, the batch returns the number of claimed rows and every row becomes what
  -- the broker answered to its event.
  pub process_batch_commits :
      (faults : Faults) (cfg : PollingSettings) (now : ℕ) (locked : ℕ → Bool) (w : World B)
      (msg : String)
      → Unique w.rows
      → faults.claim_fails ≡ false
      → faults.commit_fails ≡ false
      → truncate (last_text "" (seen_by cfg now locked w)) ≡ some msg
      → let res = process_batch unmarshal publish faults cfg now locked w in
        (res.0 ≡ claimed (length (fetch_pending now cfg.batch_size cfg.backoff locked w.rows)))
        × (res.1.rows ≡ map (settled now msg cfg.max_attempts (seen_by cfg now locked w)) w.rows)
  unfolding process_batch
  process_batch_commits faults cfg now locked w msg u claims commits cut = simp (claims) (
      relay-commits send faults cfg now _ w msg
        (fetch_pending-Unique now cfg.batch_size cfg.backoff locked w.rows u) commits cut)
