-- ===== src/Outbox/Polling/Counts.antt =====
-- What the metrics of the polling relay count, over a batch.
use core_wallet.Prelude.{
  ℕ, ◌+◌, ◌≤◌, ◌≡◌, refl, ap, sym, ◌∙◌, String, List, [], ◌∷◌, Option, some, none, arith, length,
  subst, Bool-cases, inl, inr,
}
use core_wallet.Outbox.{Row, OutboxEvent, KafkaMessage}
use core_wallet.Outbox.Polling.{
  Published, acked, refused, PollingSettings, Faults, World, Counters, Progress, events_of, start,
  conclude, relay, process_batch, Bool, suc,
}
use core_wallet.Outbox.Polling.Loop.{answers, acks, refusals, exhausted, gathered, publish_all_lem}

-- Every fetched event was counted as a success or as an error, and only errors park an event.
abbrev pub Balanced : Counters → Type 0
Balanced c = (c.success + c.publish_errors ≡ c.fetched) × (c.parked_dead ≤ c.publish_errors)

count-cons :
    (e : OutboxEvent) (res : Published) (seen : List (OutboxEvent × Published))
    → length (acks ((e, res) ∷ seen)) + length (refusals ((e, res) ∷ seen))
      ≡ suc (length (acks seen) + length (refusals seen))
unfolding acks refusals
count-cons e (acked p o) seen = omega arith
count-cons e (refused text) seen = omega arith

length-answers :
    {B : Type 0} (publish : OutboxEvent → B → Published × B) (batch : List Row) (b : B)
    → let seen = answers publish (events_of batch) b in
      length (acks seen) + length (refusals seen) ≡ length batch
unfolding answers acks refusals events_of
length-answers publish [] b = refl
length-answers publish (r ∷ batch) b =
    count-cons r.event (publish r.event b).0 _
    ∙ ap suc (length-answers publish batch (publish r.event b).1)

exhausted-le :
    (max_attempts : ℕ) (seen : List (OutboxEvent × Published))
    → exhausted max_attempts seen ≤ length (refusals seen)
unfolding exhausted refusals
exhausted-le max_attempts [] = omega arith
exhausted-le max_attempts ((e, acked p o) ∷ seen) = exhausted-le max_attempts seen
exhausted-le max_attempts ((e, refused text) ∷ seen) =
    ground (arith, exhausted-le max_attempts seen)

gathered-Balanced :
    (max_attempts : ℕ) (seen : List (OutboxEvent × Published)) (c : Counters) (n : ℕ)
    → length (acks seen) + length (refusals seen) ≡ n
    → Balanced c
    → Balanced (gathered max_attempts seen (start (record c { fetched = c.fetched + n }))).counters
unfolding gathered start
gathered-Balanced max_attempts seen c n h (sum, dead) =
    (omega arith, ground (arith, exhausted-le max_attempts seen))

conclude-counters :
    {B : Type 0} (w : World B) (n : ℕ) (done : Progress × B) (o : Option (List Row))
    → Balanced done.0.counters
    → Balanced (conclude w n done o).1.counters
unfolding conclude
conclude-counters w n done none h = h
conclude-counters w n done (some rows) h = h

relay-Balanced :
    {B : Type 0} (publish : OutboxEvent → B → Published × B) (faults : Faults)
    (cfg : PollingSettings) (now : ℕ) (batch : List Row) (w : World B)
    → Balanced w.counters
    → Balanced (relay publish faults cfg now batch w).1.counters
unfolding relay
relay-Balanced publish faults cfg now [] w h = h
relay-Balanced publish faults cfg now (r ∷ batch) w h = conclude-counters w _ _ _ (
    subst (λ done. Balanced done.0.counters)
      (sym (publish_all_lem publish cfg.max_attempts (events_of (r ∷ batch)) (start _) w.broker))
      (gathered-Balanced cfg.max_attempts _ w.counters (suc (length batch))
        (length-answers publish (r ∷ batch) w.broker) h))

module _ {B : Type 0} (unmarshal : String → Option (List (String × String)))
    (publish : KafkaMessage → B → Published × B) where
  -- Every batch, failed or not, keeps the balance of the counters: each fetched event is counted
  -- once, as published or as refused, and no more events are counted DEAD than were refused.
  pub process_batch-Balanced :
      (faults : Faults) (cfg : PollingSettings) (now : ℕ) (locked : ℕ → Bool) (w : World B)
      → Balanced w.counters
      → Balanced (process_batch unmarshal publish faults cfg now locked w).1.counters
  unfolding process_batch
  process_batch-Balanced faults cfg now locked w h = elim (Bool-cases faults.claim_fails) [
    | inl fails ↦ simp (fails) h
    | inr claims ↦ simp (claims) (relay-Balanced _ faults cfg now _ w h)
  ]
