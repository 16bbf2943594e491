-- ===== src/Problem.antt =====
-- services/wallet-service/internal/http/dto/dto.go: the RFC 7807 error body and the gate in front of
-- it, and renderError of internal/http/handler/handler.go. The field `Details` is never set by this
-- code and is left out; `Errors` is set by validation handlers after the body is made.
pub mod Leaks
pub mod Raised
use core_wallet.Prelude.{ℕ, String, List, [], Option, none, some, str_eq, if◌then◌else◌}
use core_wallet.Errors.{GoError, nil, Error, as_domain, raw_message_for, internal_error}
use core_wallet.Errors.Meta.{meta_for, is_client_safe}

pub record FieldError : Type 0 where
  pub path : String
  pub code : String
  pub message : String

pub record ProblemDetails : Type 0 where
  pub status : ℕ
  pub detail : String
  pub error_code : String
  pub error_message : String
  pub iso_reason : String
  pub transaction_status : String
  pub timestamp : String
  pub errors : List FieldError

abbrev pub fallback_error_code : String
fallback_error_code = "999999"

abbrev pub fallback_error_message : String
fallback_error_message = "Internal Error"

-- A text, or its default where it is empty.
abbrev pub default_to : String → String → String
default_to s d = if str_eq s "" then d else s

-- The body that hides everything; `now` stands for `nowRFC3339()`.
abbrev pub fallback : String → ProblemDetails
fallback now = record {
  status = 500;
  detail = "";
  error_code = fallback_error_code;
  error_message = fallback_error_message;
  iso_reason = "";
  transaction_status = "";
  timestamp = now;
  errors = [];
}

-- `NewProblemFromError`.
unfoldable pub new_problem_from_error : Error → String → ProblemDetails
new_problem_from_error de now =
    let m = meta_for de.code in
    if is_client_safe de.code
    then record {
      status = de.http_status;
      detail = de.detail;
      error_code = default_to de.sql_state m.internal_code;
      error_message = default_to de.raw_message (raw_message_for de.code de.detail);
      iso_reason = m.iso_reason;
      transaction_status = m.tx_status;
      timestamp = now;
      errors = [];
    }
    else fallback now

-- `NewProblem`.
unfoldable pub new_problem : String → ℕ → String → String → ProblemDetails
unfolding new_problem_from_error
new_problem c s d now =
    new_problem_from_error
      (record {
        code = c;
        sql_state = (meta_for c).internal_code;
        http_status = s;
        detail = d;
        raw_message = raw_message_for c d;
        cause = nil;
      })
      now

abbrev domain_or : Option Error → Error → Error
domain_or (some de) _ = de
domain_or none de = de

-- `renderError`: the body that a handler answers with for an error.
unfoldable pub render_error : GoError → String → ProblemDetails
unfolding new_problem_from_error
render_error err now = new_problem_from_error (domain_or (as_domain err) (internal_error err)) now
