-- ===== src/Auth.antt =====
-- services/wallet-service/internal/http/middleware: who calls, through which channel and with which
-- roles. The request and the values that the middlewares set in gin's context; the children follow
-- gateway.go and jwt.go (`Tokens`), middleware.go (`Identity`), rbac.go (`Roles`) and the order of
-- internal/http/server.go (`Chain`).
pub mod Tokens
pub mod Identity
pub mod Roles
pub mod Chain
use core_wallet.Prelude.{String, Option, none, List}
use core_wallet.Tx.{AuditContext}

-- `header` is `c.GetHeader`, the empty text for a missing one; the client's address, the agent and
-- the two texts of the active span are what gin and OpenTelemetry report.
pub record Request : Type 0 where
  pub method : String
  pub header : String → String
  pub client_ip : String
  pub user_agent : String
  pub trace_id : String
  pub trace_parent : String

-- The keys `CtxKeyRequestID`, `CtxKeyGatewayActor`, `CtxKeyJWTSubject`, `CtxKeyJWTRoles`,
-- `CtxKeyJWTChannel` and `CtxKeyAudit`; an unset one is `none`.
pub record Context : Type 0 where
  pub request_id : String
  pub gateway_actor : Option String
  pub jwt_subject : Option String
  pub jwt_roles : Option (List String)
  pub jwt_channel : Option String
  pub audit : Option AuditContext

-- A value of a JSON claim; of an array's element, `none` is one that is no string.
pub data Claim : Type 0 where
  text : String → Claim
  items : List (Option String) → Claim
  other : Claim

-- The decoded claims: the value of a key, if it is there.
abbrev pub Claims : Type 0
Claims = String → Option Claim

abbrev pub empty_context : Context
empty_context = record {
  request_id = "";
  gateway_actor = none;
  jwt_subject = none;
  jwt_roles = none;
  jwt_channel = none;
  audit = none;
}
