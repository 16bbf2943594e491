-- ===== src/Handlers.antt =====
-- services/wallet-service/internal/http/handler: what a handler answers. The spans and the writing of
-- the body are not modelled; a response is its status with the envelope, or a problem body. The audit
-- context that `FromGin` reads and the clock behind `nowRFC3339` are arguments.
pub mod Finance
pub mod Treasury
pub mod Reversals
pub mod Decisions
pub mod Decided
pub mod Sent
pub mod Posted
pub mod Answered
use core_wallet.Prelude.{ℕ, String, Option, none, some, List, [], ◌∷◌, str_eq, if◌then◌else◌}
use core_wallet.Problem.{ProblemDetails, render_error}
use core_wallet.Posting.{Result, ok, fail}
use core_wallet.Requests.{Bound, bound, invalid, validation_problem}

-- `SuccessEnvelope`, with the type of its `data`, here `payload`.
pub record SuccessEnvelope (B : Type 0) : Type 0 where
  pub error_code : String
  pub error_message : String
  pub payload : B
  pub timestamp : String

-- `Ok`.
unfoldable pub ok_envelope : {B : Type 0} → B → String → SuccessEnvelope B
ok_envelope body now = record {
  error_code = "00000";
  error_message = "Success!";
  payload = body;
  timestamp = now;
}

pub data Response (B : Type 0) : Type 0 where
  sent : ℕ → SuccessEnvelope B → Response B
  refused : ProblemDetails → Response B

-- `statusFor`.
unfoldable pub status_for : String → ℕ
status_for s = if str_eq s "DUPLICATE" then 200 else 201

module _ {R B D : Type 0} where
  -- The end of a handler: `renderError`, or `writeOK` on the response made from the result.
  unfoldable pub respond : (R → ℕ) → (R → B) → String → Result R × D → Response B × D
  respond status from now (ok res, db) = (sent (status res) (ok_envelope (from res) now), db)
  respond status from now (fail e, db) = (refused (render_error e now), db)

module _ {Q B D : Type 0} where
  -- The beginning: `renderValidationError` without a call, or the rest on the request.
  unfoldable pub on_bound : String → Bound Q → (Q → D → Response B × D) → D → Response B × D
  on_bound now (bound req) rest db = rest req db
  on_bound now (invalid errors) rest db = (refused (validation_problem errors now), db)
