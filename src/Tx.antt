-- ===== src/Tx.antt =====
-- services/wallet-service/internal/repo/postgres.go, the transaction runner: setAuditGUCs, runTx,
-- withTx and readWithDEK. The pgx driver, the context and the timer are a parameter, the record
-- `Driver`, over a state `W` of the database, the connection and the clock.
pub mod Attempt
pub mod Retry
pub mod Success
use core_wallet.Prelude.{
  ℕ, zero, suc, ◌+◌, ◌*◌, ◌-◌, String, Bool, true, false, ◌||◌, not, Option, none, some, List, [],
  ◌∷◌, str_eq, if◌then◌else◌, ◌&&◌,
}
use core_wallet.Errors.{GoError, nil, Error, as_domain, is_retriable}
use core_wallet.PgErrors.{map_pg_error}

-- `domain.AuditContext` of internal/domain/types.go.
pub record AuditContext : Type 0 where
  pub actor : String
  pub channel : String
  pub request_id : String
  pub trace_id : String
  pub trace_parent : String
  pub ip_address : String
  pub user_agent : String

-- What the code asks of pgx, of the request's context and of the runtime. An error is `nil` where a
-- call succeeds. `wait d` is the `select` on the context and on a timer of `d` nanoseconds: `true`
-- if the context ended first. `jitter` is `rand.Int63n(5ms)`.
pub record Driver (W : Type 0) : Type 0 where
  pub begin : W → GoError × W
  pub begin_read_only : W → GoError × W
  pub set_timeouts : ℕ → ℕ → W → GoError × W
  pub set_config : List (String × String) → W → GoError × W
  pub commit : W → GoError × W
  pub rollback : W → W
  pub ctx_done : W → Bool
  pub jitter : W → ℕ
  pub wait : ℕ → W → Bool × W

-- The fields of `PgWalletRepo` that a transaction reads.
pub record Settings : Type 0 where
  pub statement_timeout_ms : ℕ
  pub lock_timeout_ms : ℕ
  pub tx_max_retries : ℕ
  pub pii_dek : String

-- The settings that `setAuditGUCs` publishes; the bare trace id stands in for a missing traceparent.
unfoldable pub audit_gucs : AuditContext → String → List (String × String)
audit_gucs a dek =
    ("audit.actor", a.actor)
    ∷ ("audit.channel", a.channel)
    ∷ ("audit.request_id", a.request_id)
    ∷ ("audit.ip", a.ip_address)
    ∷ ("audit.user_agent", a.user_agent)
    ∷ ("app.trace_id", if str_eq a.trace_parent "" then a.trace_id else a.trace_parent)
    ∷ ("app.pii_dek", dek)
    ∷ []

-- `if err := step; err != nil { return f(err) }`, with what follows.
unfoldable pub on_ok :
    {W : Type 0} → GoError × W → (GoError → W → GoError × W) → (W → GoError × W) → GoError × W
on_ok (nil, w) fail k = k w
on_ok (e, w) fail k = fail e w

-- Milliseconds in the nanoseconds of a `time.Duration`.
abbrev ms : ℕ → ℕ
ms n = n * 1000000

-- The condition on which `withTx` tries again: `errors.As(err, &de)` and `de.IsRetriable()`.
abbrev retriable : Option Error → Bool
retriable none = false
retriable (some de) = is_retriable de

unfoldable pub is_conflict : GoError → Bool
is_conflict err = retriable (as_domain err)

module _ {W : Type 0} (d : Driver W) (r : Settings) where
  -- An error escapes `runTx` mapped, behind the deferred rollback.
  abbrev pub abort : GoError → W → GoError × W
  abort e w = (map_pg_error e, d.rollback w)

  -- `runTx`: one attempt, read from its end. The rollback runs behind a commit too, where pgx
  -- ignores it.
  module _ (audit : AuditContext) (fn : W → GoError × W) where
    abbrev pub commit_step : W → GoError × W
    commit_step w = on_ok (d.commit w) abort (λ w. (nil, d.rollback w))

    abbrev pub work_step : W → GoError × W
    work_step w = on_ok (fn w) abort commit_step

    abbrev pub audit_step : W → GoError × W
    audit_step w = on_ok (d.set_config (audit_gucs audit r.pii_dek) w) abort work_step

    abbrev pub timeout_step : W → GoError × W
    timeout_step w =
        on_ok (d.set_timeouts r.statement_timeout_ms r.lock_timeout_ms w) abort audit_step

    unfoldable pub run_tx : W → GoError × W
    run_tx w = on_ok (d.begin w) (λ e w. (map_pg_error e, w)) timeout_step

  -- `readWithDEK`: an error of `fn` is passed on as it is.
  unfoldable pub read_with_dek : (W → GoError × W) → W → GoError × W
  read_with_dek fn w =
      on_ok (d.begin_read_only w) (λ e w. (map_pg_error e, w))
        λ w. on_ok (d.set_config (("app.pii_dek", r.pii_dek) ∷ []) w) abort λ w.
          on_ok (fn w) (λ e w. (e, d.rollback w))
            λ w. on_ok (d.commit w) abort λ w. (nil, d.rollback w)

  -- The pause in front of attempt `attempt + 1`, in nanoseconds.
  unfoldable pub backoff : ℕ → W → ℕ
  backoff attempt w = ms ((attempt + 1) * 5) + d.jitter w

  -- The loop of `withTx` with `left` retries to go; `attempt` counts those made. A success is no
  -- conflict, and is returned as it is.
  unfoldable pub attempts : ℕ → ℕ → AuditContext → (W → GoError × W) → W → GoError × W
  unfolding is_conflict backoff
  attempts zero attempt audit fn w = run_tx audit fn w
  attempts (suc left) attempt audit fn w =
      let (err, w₁) = run_tx audit fn w in
      let (ended, w₂) = d.wait (backoff attempt w₁) w₁ in
      let rest = attempts left (attempt + 1) audit fn w₂ in
      let again = if ended then (err, w₂) else rest in
      if is_conflict err && not (d.ctx_done w₁) then again else (err, w₁)

  -- `withTx`.
  unfoldable pub with_tx : AuditContext → (W → GoError × W) → W → GoError × W
  unfolding attempts
  with_tx audit fn w = attempts r.tx_max_retries 0 audit fn w
