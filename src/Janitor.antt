-- ===== src/Janitor.antt =====
-- services/wallet-service/internal/janitor: what the three janitors share. The database is a parameter,
-- the record `Jobs` over its state; the tickers of `Start` are not modelled, and a log line is a
-- value with its level, its text and its counts.
pub mod Retention
pub mod Sweeps
use core_wallet.Prelude.{ℕ, String, Option, none, some, List, if◌then◌else◌}
use core_wallet.Prelude.Ints.{ℤ, is_positive}
use core_wallet.Errors.{GoError, nil}

-- What a run asks of its context and of its pool. `set_timeout` is the local statement timeout,
-- `count` the query of a single number by function, days and batch, `sweep` the query of
-- reverse_stuck_withdrawals, `ensure` that of fn_ensure_wallet_partitions with its two months.
pub record Jobs (W : Type 0) : Type 0 where
  pub ctx_err : W → GoError
  pub begin : W → GoError × W
  pub set_timeout : ℤ → W → GoError × W
  pub count : String → ℤ → ℤ → W → (ℕ × GoError) × W
  pub sweep : ℤ → W → ((ℕ × ℕ × ℕ) × GoError) × W
  pub ensure : ℤ → W → ((String × String) × GoError) × W
  pub commit : W → GoError × W
  pub rollback : W → W

pub data Level : Type 0 where
  debug info warn error : Level

pub record Entry : Type 0 where
  pub level : Level
  pub text : String
  pub counts : List ℕ

-- `(*T, error)` of a constructor.
pub data Made (T : Type 0) : Type 0 where
  made : T → Made T
  rejected : String → Made T

-- The value, or the error text of a check in front of it.
unfoldable pub checked : {T : Type 0} → Option String → T → Made T
checked none t = made t
checked (some e) t = rejected e

-- `validateConfig` of withdraw.go.
unfoldable pub validate_config : ℤ → ℤ → ℤ → Option String
validate_config interval batch_size run_timeout =
    if is_positive interval
    then if is_positive batch_size
      then if is_positive run_timeout then none else some "janitor: run timeout must be > 0"
      else some "janitor: batch size must be > 0"
    else some "janitor: interval must be > 0"
