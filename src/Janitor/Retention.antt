-- ===== src/Janitor/Retention.antt =====
-- janitor/retention.go: the purge of aged rows, in batches.
pub mod Drained
use core_wallet.Prelude.{
  ℕ, zero, suc, ◌+◌, ◌%◌, ◌^◌, String, Bool, true, false, ◌||◌, ◌&&◌, Option, none, some, List, [],
  ◌∷◌, ◌++◌, ◌==◌, if◌then◌else◌, ◌>>=◌,
}
use core_wallet.Prelude.Ints.{ℤ, is_positive, is_below}
use core_wallet.Errors.{GoError, nil, wrap, is_deadline, is_canceled}
use core_wallet.Janitor.{
  Jobs, Entry, Level, debug, info, error, Made, made, rejected, checked, validate_config,
}

pub record Retention : Type 0 where
  pub interval : ℤ
  pub api_days : ℤ
  pub outbox_days : ℤ
  pub batch_size : ℤ
  pub run_timeout : ℤ

-- `validateRetention`.
abbrev day_error : Option String → ℤ → ℤ → Option String
day_error (some e) api outbox = some e
day_error none api outbox =
    if is_positive api
    then if is_positive outbox then none else some "janitor: outbox retention days must be >= 1"
    else some "janitor: api-message retention days must be >= 1"

unfoldable pub validate_retention : Retention → Option String
validate_retention r =
    day_error (validate_config r.interval r.batch_size r.run_timeout) r.api_days r.outbox_days

-- `NewRetention`, by whether there is a pool.
unfoldable pub new_retention : Bool → Retention → Made Retention
new_retention pool r =
    if pool then checked (validate_retention r) r else rejected "janitor: pool is required"

-- A total of an int64, as its bits.
abbrev pub add64 : ℕ → ℕ → ℕ
add64 a b = (a + b) % 2 ^ 64

module _ {W : Type 0} (j : Jobs W) (r : Retention) where
  -- `if err := step; err != nil { return 0, fmt.Errorf(text, err) }` in front of the rest.
  unfoldable pub or_return : String → GoError × W → (W → (ℕ × GoError) × W) → (ℕ × GoError) × W
  or_return text (nil, w) rest = rest w
  or_return text (e, w) rest = ((0, wrap text e), j.rollback w)

  abbrev first : GoError × W → (W → (ℕ × GoError) × W) → (ℕ × GoError) × W
  first (nil, w) rest = rest w
  first (e, w) rest = ((0, wrap "begin" e), w)

  abbrev counted : String → (ℕ × GoError) × W → (ℕ → W → (ℕ × GoError) × W) → (ℕ × GoError) × W
  counted fn ((n, nil), w) rest = rest n w
  counted fn ((n, e), w) rest = ((0, wrap fn e), j.rollback w)

  -- `purgeBatch`, read from its end, with its deferred rollback.
  abbrev pub commit_step : ℕ → W → (ℕ × GoError) × W
  commit_step n w = or_return "commit" (j.commit w) (λ w. ((n, nil), j.rollback w))

  abbrev pub count_step : String → ℤ → W → (ℕ × GoError) × W
  count_step fn days w = counted fn (j.count fn days r.batch_size w) commit_step

  abbrev pub timeout_step : String → ℤ → W → (ℕ × GoError) × W
  timeout_step fn days w =
      or_return "set timeout" (j.set_timeout r.run_timeout w) (count_step fn days)

  unfoldable pub purge_batch : String → ℤ → W → (ℕ × GoError) × W
  purge_batch fn days w = first (j.begin w) (timeout_step fn days)

  -- The end of one round of the loop: an error, a short batch, or the rounds behind it.
  unfoldable pub round :
      ℕ → (ℕ × GoError) × W → Option ((ℕ × GoError) × W) → Option ((ℕ × GoError) × W)
  round total ((n, nil), w) rest =
      if is_below n r.batch_size then some ((add64 total n, nil), w) else rest
  round total ((n, e), w) rest = some ((total, e), w)

  abbrev pub alive : GoError → ℕ → W → Option ((ℕ × GoError) × W) → Option ((ℕ × GoError) × W)
  alive nil total w rest = rest
  alive e total w rest = some ((total, e), w)

  -- `purge` from a total, on fuel; `none` where the fuel ends first.
  unfoldable pub purge : ℕ → String → ℤ → ℕ → W → Option ((ℕ × GoError) × W)
  unfolding round
  purge zero fn days total w = none
  purge (suc fuel) fn days total w =
      let batch = purge_batch fn days w in
      let rest = purge fuel fn days (add64 total batch.0.0) batch.1 in
      alive (j.ctx_err w) total w (round total batch rest)

  -- `report`.
  unfoldable pub report : String → ℕ → GoError → List Entry
  report table purged nil = []
  report table purged e =
      if is_deadline e || is_canceled e
      then record {
        level = info;
        text = "retention janitor: purge budget exhausted, will resume next tick";
        counts = purged ∷ [];
      }
        ∷ []
      else record { level = error; text = "retention janitor: purge failed"; counts = purged ∷ [] }
        ∷ []

  abbrev is_nil : GoError → Bool
  is_nil nil = true
  is_nil _ = false

  -- The last line of `runOnce`.
  unfoldable pub summary : ℕ × GoError → ℕ × GoError → Entry
  summary (api, api_err) (outbox, outbox_err) =
      if (is_nil api_err && is_nil outbox_err) && (api == 0 && outbox == 0)
      then record { level = debug; text = "retention janitor: nothing to purge"; counts = [] }
      else record {
        level = info;
        text = "retention janitor: purge done";
        counts = api ∷ outbox ∷ [];
      }

  -- `runOnce`: its log lines, on fuel for each of the two purges.
  unfoldable pub run_once : ℕ → W → Option (List Entry × W)
  unfolding report summary
  run_once fuel w = do
    (api, w₁) ← purge fuel "fn_purge_api_message" r.api_days 0 w
    (outbox, w₂) ← purge fuel "fn_purge_outbox_sent" r.outbox_days 0 w₁
    some (
      (report "api_message" api.0 api.1 ++ report "outbox_sent" outbox.0 outbox.1)
          ++ summary api outbox ∷ [],
      w₂,
    )
