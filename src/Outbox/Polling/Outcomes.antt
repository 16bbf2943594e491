-- ===== src/Outbox/Polling/Outcomes.antt =====
-- The end of a batch (`processBatch` of usecase/polling.go) behind the loop: the commit of what was
-- gathered, and what it leaves of the table.
use core_wallet.Prelude.{
  ℕ, ◌≡◌, ◌≢◌, ◌⊎◌, refl, ap, sym, ◌∙◌, String, List, [], ◌∷◌, map, Option, some, none, true, false,
  Option-cases, Bool-cases, inl, inr, length, subst,
}
use core_wallet.Outbox.{Row, OutboxEvent, SentRef}
use core_wallet.Outbox.Table.{truncate, commit_batch}
use core_wallet.Outbox.Table.Claims.{Unique}
use core_wallet.Outbox.Table.Commits.{commit_batch-none}
use core_wallet.Outbox.Polling.{
  Progress, Published, acked, refused, PollingSettings, Faults, BatchResult, claimed, batch_error,
  World, Counters, events_of, start, outcome, conclude, relay, suc, Bool,
}
use core_wallet.Outbox.Polling.Loop.{
  answers, refusals, last_text, gathered, publish_all_lem, broker_after,
}
use core_wallet.Outbox.Polling.Settled.{settled, Distinct, answers-Distinct, commit_batch-settled}

last_text-refusals :
    (text : String) (seen : List (OutboxEvent × Published))
    → refusals seen ≡ []
    → last_text text seen ≡ text
unfolding last_text refusals
last_text-refusals text [] h = refl
last_text-refusals text ((e, acked p o) ∷ seen) h = last_text-refusals text seen h
last_text-refusals text ((e, refused new) ∷ seen) h = absurd cc

map-settled-nil :
    (now : ℕ) (msg : String) (max_attempts : ℕ) (rows : List Row)
    → map (settled now msg max_attempts []) rows ≡ rows
unfolding settled
map-settled-nil now msg max_attempts [] = refl
map-settled-nil now msg max_attempts (r ∷ rows) =
    ap (λ rest. r ∷ rest) (map-settled-nil now msg max_attempts rows)

pub clash : {b : Bool} → b ≡ false → b ≡ true → ⊥
clash f t = cc

not_none : {text : String} → some text ≢ none
not_none h = cc

truncate-empty : truncate "" ≡ some ""
unfolding truncate
truncate-empty = refl

-- The commit is refused where some event was, with a last text that cannot be cut.
commit_batch-split :
    (now : ℕ) (refs : List SentRef) (ids : List ℕ) (text : String) (max_attempts : ℕ)
    (rows : List Row)
    → (ids ≡ [] → text ≡ "")
    → truncate text ≡ none
    → commit_batch now refs ids text max_attempts rows ≡ none
commit_batch-split now refs [] text max_attempts rows e h =
    absurd (not_none (sym truncate-empty ∙ sym (ap truncate (e refl)) ∙ h))
commit_batch-split now refs (id ∷ ids) text max_attempts rows e h =
    commit_batch-none now refs id ids text max_attempts rows h

-- What a batch may do to the table: nothing, with an error, or what the answers say for every row.
abbrev pub Settles :
    ℕ → ℕ → List (OutboxEvent × Published) → ℕ → List Row → BatchResult → List Row → Type 0
Settles now max_attempts seen n rows result rows' =
    ((result ≡ batch_error) × (rows' ≡ rows))
    ⊎ ((msg : String) × (truncate (last_text "" seen) ≡ some msg)
        × (result ≡ claimed n)
        × (rows' ≡ map (settled now msg max_attempts seen) rows))

outcome-cases :
    (faults : Faults) (cfg : PollingSettings) (now : ℕ) (seen : List (OutboxEvent × Published))
    (counters : Counters) (rows : List Row)
    → Distinct seen
    → let o = outcome faults cfg now (gathered cfg.max_attempts seen (start counters)) rows in
      (o ≡ none)
      ⊎ ((msg : String) × (truncate (last_text "" seen) ≡ some msg)
          × (o ≡ some (map (settled now msg cfg.max_attempts seen) rows)))
unfolding outcome gathered start
outcome-cases faults cfg now seen counters rows d = elim (Bool-cases faults.commit_fails) [
  | inl fails ↦ rw (fails) (inl refl)
  | inr commits ↦ rw (commits) (elim (Option-cases (truncate (last_text "" seen))) [
    | inl split ↦
        inl (commit_batch-split now _ _ _ _ rows (λ h. last_text-refusals "" seen h) split)
    | inr (msg, cut) ↦ inr (msg, cut, commit_batch-settled now seen _ msg _ rows d cut)
  ])
]

outcome-split :
    (faults : Faults) (cfg : PollingSettings) (now : ℕ) (seen : List (OutboxEvent × Published))
    (counters : Counters) (rows : List Row)
    → truncate (last_text "" seen) ≡ none
    → outcome faults cfg now (gathered cfg.max_attempts seen (start counters)) rows ≡ none
unfolding outcome gathered start
outcome-split faults cfg now seen counters rows h = elim (Bool-cases faults.commit_fails) [
  | inl fails ↦ rw (fails) refl
  | inr commits ↦
      rw (commits) (commit_batch-split now _ _ _ _ rows (λ e. last_text-refusals "" seen e) h)
]

conclude-none :
    {B : Type 0} (w : World B) (n : ℕ) (done : Progress × B) (o : Option (List Row))
    → o ≡ none
    → let res = conclude w n done o in
      (res.0 ≡ batch_error) × (res.1.rows ≡ w.rows) × (res.1.broker ≡ done.1)
unfolding conclude
conclude-none w n done o h = rw (h) (refl, refl, refl)

conclude-Settles :
    {B : Type 0} (now max_attempts n : ℕ) (w : World B) (seen : List (OutboxEvent × Published))
    (done : Progress × B) (o : Option (List Row))
    → (o ≡ none)
      ⊎ ((msg : String) × (truncate (last_text "" seen) ≡ some msg)
          × (o ≡ some (map (settled now msg max_attempts seen) w.rows)))
    → let res = conclude w n done o in Settles now max_attempts seen n w.rows (res.0) (res.1.rows)
unfolding conclude
conclude-Settles now max_attempts n w seen done o (inl h) = rw (h) (inl (refl, refl))
conclude-Settles now max_attempts n w seen done o (inr (msg, cut, h)) =
    rw (h) (inr (msg, cut, refl, refl))

pub relay-Settles :
    {B : Type 0} (publish : OutboxEvent → B → Published × B) (faults : Faults)
    (cfg : PollingSettings) (now : ℕ) (batch : List Row) (w : World B)
    → Unique batch
    → let seen = answers publish (events_of batch) w.broker in
      let res = relay publish faults cfg now batch w in
      Settles now cfg.max_attempts seen (length batch) w.rows (res.0) (res.1.rows)
unfolding relay answers events_of last_text
relay-Settles publish faults cfg now [] w u =
    inr ("", truncate-empty, refl, sym (map-settled-nil now "" cfg.max_attempts w.rows))
relay-Settles publish faults cfg now (r ∷ batch) w u =
    subst
      (λ done.
        let res = conclude w (suc (length batch)) done (outcome faults cfg now done.0 w.rows) in
        Settles now cfg.max_attempts (answers publish (events_of (r ∷ batch)) w.broker)
          (suc (length batch)) w.rows (res.0) (res.1.rows))
      (sym (publish_all_lem publish cfg.max_attempts (events_of (r ∷ batch)) (start _) w.broker))
      (conclude-Settles now cfg.max_attempts _ w _ _ _
        (outcome-cases faults cfg now _ _ w.rows (answers-Distinct publish (r ∷ batch) w.broker u)))

outcome-commits :
    (faults : Faults) (cfg : PollingSettings) (now : ℕ) (seen : List (OutboxEvent × Published))
    (counters : Counters) (rows : List Row) (msg : String)
    → Distinct seen
    → faults.commit_fails ≡ false
    → truncate (last_text "" seen) ≡ some msg
    → outcome faults cfg now (gathered cfg.max_attempts seen (start counters)) rows
      ≡ some (map (settled now msg cfg.max_attempts seen) rows)
unfolding outcome gathered start
outcome-commits faults cfg now seen counters rows msg d commits cut =
    rw (commits) (commit_batch-settled now seen _ msg _ rows d cut)

conclude-some :
    {B : Type 0} (w : World B) (n : ℕ) (done : Progress × B) (o : Option (List Row))
    (rows : List Row)
    → o ≡ some rows
    → let res = conclude w n done o in (res.0 ≡ claimed n) × (res.1.rows ≡ rows)
unfolding conclude
conclude-some w n done o rows h = rw (h) (refl, refl)

pub relay-commits :
    {B : Type 0} (publish : OutboxEvent → B → Published × B) (faults : Faults)
    (cfg : PollingSettings) (now : ℕ) (batch : List Row) (w : World B) (msg : String)
    → Unique batch
    → faults.commit_fails ≡ false
    → truncate (last_text "" (answers publish (events_of batch) w.broker)) ≡ some msg
    → let seen = answers publish (events_of batch) w.broker in
      let res = relay publish faults cfg now batch w in
      (res.0 ≡ claimed (length batch))
      × (res.1.rows ≡ map (settled now msg cfg.max_attempts seen) w.rows)
unfolding relay answers events_of
relay-commits publish faults cfg now [] w msg u commits cut =
    (refl, sym (map-settled-nil now msg cfg.max_attempts w.rows))
relay-commits publish faults cfg now (r ∷ batch) w msg u commits cut =
    let n = suc (length batch) in
    let events = events_of (r ∷ batch) in
    subst
      (λ done.
        let res = conclude w n done (outcome faults cfg now done.0 w.rows) in
        (res.0 ≡ claimed n)
        × (res.1.rows
            ≡ map (settled now msg cfg.max_attempts (answers publish events w.broker)) w.rows))
      (sym (publish_all_lem publish cfg.max_attempts events (start _) w.broker))
      (conclude-some w n _ _ _ (
        outcome-commits faults cfg now _ _ w.rows msg
          (answers-Distinct publish (r ∷ batch) w.broker u) commits cut))

pub relay-split :
    {B : Type 0} (publish : OutboxEvent → B → Published × B) (faults : Faults)
    (cfg : PollingSettings) (now : ℕ) (batch : List Row) (w : World B)
    → truncate (last_text "" (answers publish (events_of batch) w.broker)) ≡ none
    → let res = relay publish faults cfg now batch w in
      (res.0 ≡ batch_error)
      × (res.1.rows ≡ w.rows)
      × (res.1.broker ≡ broker_after publish (events_of batch) w.broker)
unfolding relay answers events_of last_text
relay-split publish faults cfg now [] w h = absurd (not_none (sym truncate-empty ∙ h))
relay-split {B} publish faults cfg now (r ∷ batch) w h =
    let n = suc (length batch) in
    let events = events_of (r ∷ batch) in
    subst
      (λ done.
        let res = conclude w n done (outcome faults cfg now done.0 w.rows) in
        (res.0 ≡ batch_error)
        × (res.1.rows ≡ w.rows)
        × (res.1.broker ≡ broker_after publish events w.broker))
      (sym (publish_all_lem publish cfg.max_attempts events (start _) w.broker))
      (conclude-none w n _ _ (outcome-split faults cfg now _ _ w.rows h))
