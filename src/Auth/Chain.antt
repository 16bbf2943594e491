-- ===== src/Auth/Chain.antt =====
-- The chain of internal/http/server.go in front of a /v1 handler, in the order of registration:
-- RequestID, GatewayIdentity and AuditContext of the engine, then JWT and EnforceGatewayIdentity of
-- the group, then the route's RequireAnyRole. Recovery, the logger, FlowID, otelgin, Metrics and the
-- deadline neither read nor set the keys. A body drops the path that the source hands to NewProblem, as
-- NewProblemFromError does.
pub mod Trust
pub mod Refusals
use core_wallet.Prelude.{
  String, ◌≡◌, Bool, true, false, ◌&&◌, ◌||◌, not, Option, none, some, List, str_eq, str_append,
  trim_space, if◌then◌else◌,
}
use core_wallet.Errors.Codes
use core_wallet.Problem.{new_problem}
use core_wallet.Auth.{Request, Context, Claim, text, Claims, empty_context}
use core_wallet.Auth.Tokens.{bearer_token, extract_roles, claim_string, gateway_actor_from}
use core_wallet.Auth.Identity.{value_of, or_else, request_id, audit_context}
use core_wallet.Auth.Roles.{Verdict, next, abort, require_any_role}

-- `GatewayConfig`.
pub record GatewayConfig : Type 0 where
  pub enforce : Bool
  pub jwt_header : String
  pub actor_claim : String
  pub actor_claim_fallback : String

-- The fields of `JWTConfig` that the middleware reads by itself.
pub record JwtConfig : Type 0 where
  pub enabled : Bool
  pub roles_claim : String
  pub channel_claim : String

-- The libraries: base64, JSON, `uuid.NewString`, the text that `nowRFC3339` makes of the clock, and the
-- token parser, which returns the claims of a valid token, or the text of its error.
pub record Libraries : Type 0 where
  pub b64_decode : String → Option String
  pub unmarshal : String → Option Claims
  pub fresh : String
  pub now : String
  pub parse_error : String → Option String
  pub parsed_claims : String → Claims

unfoldable pub set_actor : String → Context → Context
set_actor actor ctx = if str_eq actor "" then ctx else record ctx { gateway_actor = some actor }

-- `GatewayIdentity`.
unfoldable pub gateway_identity : Libraries → GatewayConfig → Request → Context → Context
unfolding set_actor
gateway_identity lib cfg req ctx =
    set_actor
      (gateway_actor_from lib.b64_decode lib.unmarshal
        (req.header (or_else cfg.jwt_header "Authorization")) cfg.actor_claim
        cfg.actor_claim_fallback)
      ctx

unfoldable pub is_mutating : String → Bool
is_mutating m = str_eq m "POST" || str_eq m "PUT" || str_eq m "PATCH" || str_eq m "DELETE"

-- `EnforceGatewayIdentity`.
unfoldable pub enforce_gateway_identity : Bool → String → Request → Context → Verdict
unfolding is_mutating
enforce_gateway_identity enforce now req ctx =
    if not enforce || not (is_mutating req.method)
    then next ctx
    else if str_eq (value_of ctx.gateway_actor) ""
    then abort
        (new_problem Codes.unauthorized 401 "missing or unparseable gateway identity token" now)
    else next ctx

-- `abortUnauthorized`.
unauthorized : String → String → Verdict
unauthorized now detail = abort (new_problem Codes.unauthorized 401 detail now)

raw_text : Option Claim → String
raw_text (some (text s)) = s
raw_text _ = ""

with_claims : String → JwtConfig → Context → Claims → Verdict
unfolding unauthorized raw_text
with_claims now cfg ctx claims =
    let sub = raw_text (claims "sub") in
    if str_eq sub ""
    then unauthorized now "missing sub claim"
    else let ch = claim_string claims cfg.channel_claim in
      next (record ctx {
        jwt_subject = some sub;
        jwt_roles = some (extract_roles claims (or_else cfg.roles_claim "roles"));
        jwt_channel = if str_eq ch "" then ctx.jwt_channel else some ch;
      })

with_token : Libraries → JwtConfig → Context → String → Option String → Verdict
unfolding with_claims unauthorized
with_token lib cfg ctx raw none = with_claims lib.now cfg ctx (lib.parsed_claims raw)
with_token lib cfg ctx raw (some error) = unauthorized lib.now (str_append "invalid token: " error)

-- `JWT`, where its configuration was accepted at construction.
unfoldable pub jwt : Libraries → JwtConfig → Request → Context → Verdict
unfolding with_token unauthorized
jwt lib cfg req ctx =
    let raw = bearer_token (req.header "Authorization") in
    if not cfg.enabled
    then next ctx
    else if str_eq raw ""
    then unauthorized lib.now "missing or malformed Authorization header"
    else with_token lib cfg ctx raw (lib.parse_error raw)

unfoldable pub and_then : Verdict → (Context → Verdict) → Verdict
and_then (next ctx) k = k ctx
and_then (abort body) k = abort body

-- The engine's own middlewares.
unfoldable pub engine : Libraries → GatewayConfig → Request → Context
engine lib gw req =
    audit_context req (gateway_identity lib gw req (request_id lib.fresh req empty_context))

-- The route's own check, if it has one.
unfoldable pub gate : Option (List String) → String → Context → Verdict
gate none now ctx = next ctx
gate (some want) now ctx = require_any_role want now ctx

-- The whole chain of a route with its roles; `next` is the context that the handler sees.
unfoldable pub chain :
    Libraries → GatewayConfig → JwtConfig → Option (List String) → Request → Verdict
chain lib gw cfg roles req = and_then (jwt lib cfg req (engine lib gw req)) (λ ctx.
    and_then (enforce_gateway_identity gw.enforce lib.now req ctx)
      (λ ctx'. gate roles lib.now ctx'))
