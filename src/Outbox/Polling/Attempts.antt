-- ===== src/Outbox/Polling/Attempts.antt =====
-- The attempt budget of the rows over the batches of the polling relay: the invariant that ties a
-- row's status to its `attempts`.
use core_wallet.Prelude.{
  ℕ, ◌+◌, ◌≤◌, ◌<◌, ◌≡◌, ◌≢◌, refl, sym, String, List, [], ◌∷◌, map, Option, some, none, true,
  arith, leb, Bool-cases, inl, inr, All, subst,
}
use mathlib.Core.List.{Memᴰ}
use core_wallet.Outbox.{Row, KafkaMessage, row_id, Status, pending, failed, sent, dead}
use core_wallet.Outbox.Backoff.{SqlBackoff}
use core_wallet.Outbox.Table.{claimable, eligible}
use core_wallet.Outbox.Table.Claims.{Unique}
use core_wallet.Outbox.Polling.{
  Published, acked, refused, PollingSettings, Faults, World, process_batch, Bool,
}
use core_wallet.Outbox.Polling.Settled.{settled, settled_by, find_answer}
use core_wallet.Outbox.Polling.Batches.{process_batch_atomic, unanswered, seen_by}

-- What a status says of the attempts, of the last attempt's time and of the broker's position.
SoundAs : ℕ → Row → Status → Type 0
SoundAs max_attempts row pending = row.event.attempts < max_attempts
SoundAs max_attempts row failed =
    (0 < row.event.attempts) × (row.event.attempts < max_attempts) × (row.last_attempt_at ≢ none)
SoundAs max_attempts row sent =
    (row.event.attempts ≤ max_attempts) × (row.kafka_partition ≢ none) × (row.kafka_offset ≢ none)
SoundAs max_attempts row dead = (row.event.attempts ≡ max_attempts) × (row.last_attempt_at ≢ none)

unfoldable pub Sound : ℕ → Row → Type 0
unfolding SoundAs
Sound max_attempts row = SoundAs max_attempts row row.status

attempts_left :
    (max_attempts now : ℕ) (b : SqlBackoff) (row : Row) (s : Status)
    → eligible now b s row ≡ true
    → SoundAs max_attempts row s
    → row.event.attempts < max_attempts
unfolding eligible SoundAs
attempts_left max_attempts now b row pending h s = s
attempts_left max_attempts now b row failed h (_, s, _) = s
attempts_left max_attempts now b row sent h s = absurd cc
attempts_left max_attempts now b row dead h s = absurd cc

some_not_none : {A : Type 0} (a : A) → some a ≢ none
some_not_none a h = cc

settled_by-Sound :
    (now : ℕ) (msg : String) (max_attempts : ℕ) (row : Row) (res : Published)
    → row.event.attempts < max_attempts
    → Sound max_attempts (settled_by now msg max_attempts row (some res))
unfolding settled_by Sound
settled_by-Sound now msg max_attempts row (acked p o) h =
    (omega arith, some_not_none p, some_not_none o)
settled_by-Sound now msg max_attempts row (refused text) h =
    elim (Bool-cases (leb max_attempts (row.event.attempts + 1))) [
      | inl full ↦ rw (full) (ground arith, some_not_none now)
      | inr more ↦ rw (more) (omega arith, ground arith, some_not_none now)
    ]

kept :
    (now : ℕ) (msg : String) (max_attempts : ℕ) (row : Row) (res : Option Published)
    → Sound max_attempts row
    → row.event.attempts < max_attempts
    → Sound max_attempts (settled_by now msg max_attempts row res)
unfolding settled_by
kept now msg max_attempts row none s h = s
kept now msg max_attempts row (some res) s h = settled_by-Sound now msg max_attempts row res h

budget :
    (now max_attempts : ℕ) (b : SqlBackoff) (locked : ℕ → Bool) (row : Row)
    → claimable now b locked row ≡ true
    → Sound max_attempts row
    → row.event.attempts < max_attempts
unfolding claimable Sound
budget now max_attempts b locked row h s =
    attempts_left max_attempts now b row row.status (ground arith) s

All-map :
    {P : Row → Type 0} (f : Row → Row) (rows : List Row)
    → ((x : Row) → Memᴰ x rows → P x → P (f x))
    → All P rows
    → All P (map f rows)
All-map f [] h a = tt
All-map f (r ∷ rows) h (first, a) =
    (h r (Memᴰ.head refl) first, All-map f rows (λ x m. h x (Memᴰ.tail m)) a)

module _ {B : Type 0} (unmarshal : String → Option (List (String × String)))
    (publish : KafkaMessage → B → Published × B) where
  settled-Sound :
      (cfg : PollingSettings) (now : ℕ) (locked : ℕ → Bool) (w : World B) (msg : String) (x : Row)
      → Unique w.rows
      → Memᴰ x w.rows
      → Sound cfg.max_attempts x
      → Sound cfg.max_attempts
          (settled now msg cfg.max_attempts (seen_by unmarshal publish cfg now locked w) x)
  unfolding settled settled_by
  settled-Sound cfg now locked w msg x u m s =
      let answer = find_answer (row_id x) (seen_by unmarshal publish cfg now locked w) in
      elim (Bool-cases (claimable now cfg.backoff locked x)) [
        | inl due ↦
            kept now msg cfg.max_attempts x answer s
              (budget now cfg.max_attempts cfg.backoff locked x due s)
        | inr idle ↦
            subst (λ a. Sound cfg.max_attempts (settled_by now msg cfg.max_attempts x a))
              (sym (unanswered unmarshal publish cfg now locked w x u m idle)) s
      ]

  -- Over a table with unique identifiers every batch keeps the budget: a PENDING or FAILED row has
  -- attempts left, a SENT row has the broker's position, and a row is DEAD exactly at `max_attempts`.
  pub process_batch-Sound :
      (faults : Faults) (cfg : PollingSettings) (now : ℕ) (locked : ℕ → Bool) (w : World B)
      → Unique w.rows
      → All (Sound cfg.max_attempts) w.rows
      → All
          (Sound cfg.max_attempts)
          (process_batch unmarshal publish faults cfg now locked w).1.rows
  process_batch-Sound faults cfg now locked w u a =
      elim (process_batch_atomic unmarshal publish faults cfg now locked w u) [
        | inl (_, same) ↦ subst (All (Sound cfg.max_attempts)) (sym same) a
        | inr (msg, _, _, e) ↦
            subst (All (Sound cfg.max_attempts)) (sym e)
              (All-map _ w.rows (λ x m s. settled-Sound cfg now locked w msg x u m s) a)
      ]
