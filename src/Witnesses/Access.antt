-- ===== src/Witnesses/Access.antt =====
-- A request that moves money through the chain of internal/http/server.go: the gateway forwards a
-- token of `alice`, while the headers of the caller claim to be `mallory` on the channel TREASURY.
use core_wallet.Prelude.{
  is_space, trim_left, trim_right, to_upper, upper_eq, cut, String, ◌≡◌, ◌≢◌, refl, true, none,
  some, [], ◌∷◌, str_eq, if◌then◌else◌, trim_space,
}
use mathlib.Core.List.{Memᴰ}
use core_wallet.Tx.{AuditContext}
use core_wallet.Auth.{Request, Context, text, items, Claims}
use core_wallet.Auth.Tokens.{
  decode_jwt_payload, fields, padded, payload_segment, strip_scheme, gateway_actor_from,
  claim_string, bearer_token, extract_roles,
}
use core_wallet.Auth.Identity.{
  value_of, audit_context, request_id, resolve_actor, resolve_channel, or_else, parse_channel,
}
use core_wallet.Auth.Roles.{abort, require_any_role, has_any, next, finance_reverse}
use core_wallet.Auth.Chain.{
  and_then, jwt, enforce_gateway_identity, engine, gateway_identity, gate, set_actor, GatewayConfig,
  JwtConfig, Libraries, chain, is_mutating,
}
use core_wallet.Auth.Chain.Refusals.{Refusal, chain-Refusal}
use core_wallet.Errors.Codes
use core_wallet.Problem.{new_problem}
use core_wallet.Auth.Chain.Trust.{
  gateway_actor_of, enforced_actor, audit_ignores_token, enforced_role,
}

abbrev headers : String → String
headers name =
    if str_eq name "Authorization"
    then "Bearer h.p.s"
    else if str_eq name "X-Channel"
    then "treasury"
    else if str_eq name "X-Caller-Subject"
    then "mallory"
    else ""

abbrev request : Request
request = record {
  method = "POST";
  header = headers;
  client_ip = "10.0.0.1";
  user_agent = "curl";
  trace_id = "";
  trace_parent = "";
}

abbrev claims : Claims
claims key =
    if str_eq key "sub"
    then some (text "alice")
    else if str_eq key "channel"
    then some (text "MOBILE")
    else if str_eq key "roles"
    then some (items (some "wallet.finance.reverse" ∷ none ∷ []))
    else none

abbrev libraries : Libraries
libraries = record {
  b64_decode = λ s. some s;
  unmarshal = λ s. some claims;
  fresh = "r1";
  now = "2026-01-01T00:00:00Z";
  parse_error = λ raw. none;
  parsed_claims = λ raw. claims;
}

abbrev gateway : GatewayConfig
gateway = record { enforce = true; jwt_header = ""; actor_claim = "sub"; actor_claim_fallback = "" }

abbrev tokens : JwtConfig
tokens = record { enabled = true; roles_claim = ""; channel_claim = "channel" }

abbrev seen : Context
seen = record {
  request_id = "r1";
  gateway_actor = some "alice";
  jwt_subject = some "alice";
  jwt_roles = some (finance_reverse ∷ []);
  jwt_channel = some "MOBILE";
  audit = some (record {
    actor = "alice";
    channel = "TREASURY";
    request_id = "r1";
    trace_id = "";
    trace_parent = "";
    ip_address = "10.0.0.1";
    user_agent = "curl";
  });
}

reverse_passes : chain libraries gateway tokens (some (finance_reverse ∷ [])) request ≡ next seen
unfolding chain and_then jwt bearer_token upper_eq trim_space enforce_gateway_identity value_of
    engine audit_context gateway_identity gateway_actor_from cut claim_string gate require_any_role
    extract_roles request_id is_mutating set_actor parse_channel resolve_actor resolve_channel
    has_any decode_jwt_payload fields padded payload_segment strip_scheme is_space trim_left
    trim_right to_upper
reverse_passes = refl

audit_ignores_token_example :
    (a : AuditContext) × (seen.audit ≡ some a)
    × (a.channel ≡ or_else (parse_channel "treasury") "API")
    × (a.actor
        ≡ or_else
            (gateway_actor_of libraries gateway request)
            (or_else (trim_space "mallory") "anonymous"))
audit_ignores_token_example =
    audit_ignores_token libraries gateway tokens (some (finance_reverse ∷ [])) request seen
      reverse_passes

enforced_actor_example :
    (a : AuditContext) × (seen.audit ≡ some a)
    × (a.actor ≡ gateway_actor_of libraries gateway request)
    × (gateway_actor_of libraries gateway request ≢ "")
unfolding is_mutating
enforced_actor_example =
    enforced_actor libraries gateway tokens (some (finance_reverse ∷ [])) request seen refl refl
      reverse_passes

enforced_role_example :
    (libraries.parse_error (bearer_token "Bearer h.p.s") ≡ none)
    × ((role : String) × Memᴰ role (finance_reverse ∷ [])
        × Memᴰ role (extract_roles claims (or_else "" "roles")))
enforced_role_example =
    enforced_role libraries gateway tokens (finance_reverse ∷ []) request seen refl reverse_passes

-- The same request without the `Authorization` header.
abbrev bare : Request
bare = record request { header = λ name. "" }

bare_stops :
    chain libraries gateway tokens none bare
    ≡ abort (
        new_problem Codes.unauthorized 401 "missing or malformed Authorization header"
          "2026-01-01T00:00:00Z")
unfolding chain and_then jwt bearer_token engine
bare_stops = refl

chain-Refusal_example : Refusal "2026-01-01T00:00:00Z" (
    new_problem Codes.unauthorized 401 "missing or malformed Authorization header"
      "2026-01-01T00:00:00Z")
chain-Refusal_example = chain-Refusal libraries gateway tokens none bare _ bare_stops
