-- ===== src/Outbox/Backoff.antt =====
-- The wait in the claim query of services/outbox-relay/internal/repo/outbox.go.
use core_wallet.Prelude.{ℕ, ◌-◌, min}

-- `RetryBackoff`, in nanoseconds.
pub record RetryBackoff : Type 0 where
  pub base : ℕ
  pub max : ℕ

-- The floating-point numbers of Go and PostgreSQL, given by their 64 bits: `Duration.Seconds`, `*`,
-- `POWER(2, n)` for a whole number, `LEAST`, and `make_interval(secs => x)` in nanoseconds. How each
-- rounds is not said here.
pub record Floats : Type 0 where
  pub seconds : ℕ → ℕ
  pub times : ℕ → ℕ → ℕ
  pub power_of_two : ℕ → ℕ
  pub least : ℕ → ℕ → ℕ
  pub make_interval : ℕ → ℕ

-- The configured backoff with the arithmetic that the query computes it in.
pub record SqlBackoff : Type 0 where
  pub backoff : RetryBackoff
  pub floats : Floats

-- The exponent `LEAST(GREATEST(attempts - 1, 0), 20)`.
abbrev pub exponent : ℕ → ℕ
exponent attempts = min (attempts - 1) 20

-- `make_interval(secs => LEAST($2 * POWER(2, LEAST(GREATEST(attempts - 1, 0), 20)), $3))`.
unfoldable pub sql_wait : SqlBackoff → ℕ → ℕ
sql_wait b attempts =
    let f = b.floats in
    f.make_interval (
      f.least (f.times (f.seconds b.backoff.base) (f.power_of_two (exponent attempts)))
        (f.seconds b.backoff.max))
