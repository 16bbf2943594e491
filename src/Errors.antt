-- ===== src/Errors.antt =====
-- services/wallet-service/internal/domain/errors.go: the domain error, what it is made from, and
-- what `errors.As` and `errors.Is` find in a chain of Go errors.
pub mod Codes
pub mod Meta
use core_wallet.Prelude.{
  ℕ, String, Bool, true, false, Option, none, some, str_eq, str_append, if◌then◌else◌,
}
use core_wallet.Errors.Codes
use core_wallet.Errors.Meta.{meta_for}

-- A Go `error`. `nil` is the absent error; `domain` is a `*domain.Error` with its code, SQLSTATE,
-- HTTP status, detail, raw message and cause; `pg` is a `*pgconn.PgError` with its SQLSTATE and
-- message; `wrap` is `fmt.Errorf("…%w", err)`; `other` is any other error with its text.
pub data GoError : Type 0 where
  nil : GoError
  domain : String → String → ℕ → String → String → GoError → GoError
  pg : String → String → GoError
  deadline_exceeded canceled : GoError
  wrap : String → GoError → GoError
  other : String → GoError

pub record Error : Type 0 where
  pub code : String
  pub sql_state : String
  pub http_status : ℕ
  pub detail : String
  pub raw_message : String
  pub cause : GoError

-- A `*domain.Error` as an `error`.
abbrev pub of_domain : Error → GoError
of_domain e = domain e.code e.sql_state e.http_status e.detail e.raw_message e.cause

pub record PgError : Type 0 where
  pub code : String
  pub message : String

-- `errors.As(err, &de)`, which `AsDomain` wraps: the first domain error along the chain.
unfoldable pub as_domain : GoError → Option Error
as_domain (domain c s h d r e) =
    some
      (record { code = c; sql_state = s; http_status = h; detail = d; raw_message = r; cause = e })
as_domain (wrap _ e) = as_domain e
as_domain _ = none

-- `errors.As(err, &pgErr)`; a domain error unwraps to its cause.
unfoldable pub as_pg : GoError → Option PgError
as_pg (pg c m) = some (record { code = c; message = m })
as_pg (domain _ _ _ _ _ e) = as_pg e
as_pg (wrap _ e) = as_pg e
as_pg _ = none

-- `errors.Is(err, context.DeadlineExceeded)`.
unfoldable pub is_deadline : GoError → Bool
is_deadline deadline_exceeded = true
is_deadline (domain _ _ _ _ _ e) = is_deadline e
is_deadline (wrap _ e) = is_deadline e
is_deadline _ = false

-- `errors.Is(err, context.Canceled)`.
unfoldable pub is_canceled : GoError → Bool
is_canceled canceled = true
is_canceled (domain _ _ _ _ _ e) = is_canceled e
is_canceled (wrap _ e) = is_canceled e
is_canceled _ = false

-- `IsRetriable`.
unfoldable pub is_retriable : Error → Bool
is_retriable e = str_eq e.code Codes.version_conflict

-- "code: detail", or the code alone.
unfoldable pub raw_message_for : String → String → String
raw_message_for code detail =
    if str_eq detail "" then code else str_append code (str_append ": " detail)

-- `NewError`.
unfoldable pub new_error : String → ℕ → String → GoError → Error
unfolding raw_message_for
new_error c status d e = record {
  code = c;
  sql_state = (meta_for c).internal_code;
  http_status = status;
  detail = d;
  raw_message = raw_message_for c d;
  cause = e;
}

-- `InvalidRequest`.
unfoldable pub invalid_request_error : String → GoError → Error
unfolding new_error
invalid_request_error d e = new_error Codes.invalid_request 400 d e

-- `Internal`.
unfoldable pub internal_error : GoError → Error
unfolding new_error
internal_error e = new_error Codes.internal 500 "internal server error" e
