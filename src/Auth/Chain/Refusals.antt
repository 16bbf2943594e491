-- ===== src/Auth/Chain/Refusals.antt =====
-- How the chain of internal/http/server.go refuses a request.
use core_wallet.Prelude.{
  String, ◌≡◌, ◌⊎◌, Bool, true, false, Option, none, some, List, str_append, if◌then◌else◌, inl,
  inr,
}
use core_wallet.Problem.{ProblemDetails, new_problem}
use core_wallet.Errors.Codes
use core_wallet.Auth.{Request, Context}
use core_wallet.Auth.Roles.{Verdict, next, abort}
use core_wallet.Auth.Roles.Holders.{require_any_role-abort}
use core_wallet.Auth.Chain.{
  GatewayConfig, JwtConfig, Libraries, enforce_gateway_identity, jwt, with_token, with_claims,
  unauthorized, and_then, engine, gate, chain,
}

-- The two bodies of a refusal.
abbrev pub Refusal : String → ProblemDetails → Type 0
Refusal now body =
    ((detail : String) × (body ≡ new_problem Codes.unauthorized 401 detail now))
    ⊎ (body ≡ new_problem Codes.forbidden 403 "missing required role" now)

-- Every way in which the step stops the chain is a refusal.
abbrev Refuses : String → Verdict → Type 0
Refuses now v = (body : ProblemDetails) → v ≡ abort body → Refusal now body

and_then-Refuses :
    (now : String) (v : Verdict) (k : Context → Verdict)
    → Refuses now v
    → ((c : Context) → Refuses now (k c))
    → Refuses now (and_then v k)
unfolding and_then
and_then-Refuses now (next c) k a b = b c
and_then-Refuses now (abort body) k a b = a

next-Refuses : (now : String) (c : Context) → Refuses now (next c)
next-Refuses now c body h = absurd cc

if-Refuses :
    (now : String) (b : Bool) (x y : Verdict)
    → Refuses now x
    → Refuses now y
    → Refuses now (if b then x else y)
if-Refuses now true x y a b = a
if-Refuses now false x y a b = b

unauthorized-Refuses : (now : String) (detail : String) → Refuses now (unauthorized now detail)
unfolding unauthorized
unauthorized-Refuses now detail body h = inl (detail, cc)

with_token-Refuses :
    (lib : Libraries) (cfg : JwtConfig) (c : Context) (raw : String) (error : Option String)
    → Refuses lib.now (with_token lib cfg c raw error)
unfolding with_token with_claims
with_token-Refuses lib cfg c raw none =
    if-Refuses lib.now _ _ _ (unauthorized-Refuses lib.now "missing sub claim")
      (next-Refuses lib.now _)
with_token-Refuses lib cfg c raw (some text) =
    unauthorized-Refuses lib.now (str_append "invalid token: " text)

jwt-Refuses :
    (lib : Libraries) (cfg : JwtConfig) (req : Request) (c : Context)
    → Refuses lib.now (jwt lib cfg req c)
unfolding jwt
jwt-Refuses lib cfg req c = if-Refuses lib.now _ _ _ (next-Refuses lib.now c) (
    if-Refuses lib.now _ _ _
      (unauthorized-Refuses lib.now "missing or malformed Authorization header")
      (with_token-Refuses lib cfg c _ _))

enforce-Refuses :
    (enforce : Bool) (now : String) (req : Request) (c : Context)
    → Refuses now (enforce_gateway_identity enforce now req c)
unfolding enforce_gateway_identity unauthorized
enforce-Refuses enforce now req c = if-Refuses now _ _ _ (next-Refuses now c) (
    if-Refuses now _ _ _ (unauthorized-Refuses now "missing or unparseable gateway identity token")
      (next-Refuses now c))

gate-Refuses :
    (roles : Option (List String)) (now : String) (c : Context) → Refuses now (gate roles now c)
unfolding gate
gate-Refuses none now c = next-Refuses now c
gate-Refuses (some want) now c = λ body h. inr (require_any_role-abort want now c body h)

-- Where the chain stops a request, the body is the one of UNAUTHORIZED with status 401 and some detail,
-- or the one of FORBIDDEN with status 403 for a missing role, stamped with the clock; no other body
-- leaves it.
pub chain-Refusal :
    (lib : Libraries) (gw : GatewayConfig) (cfg : JwtConfig) (roles : Option (List String))
    (req : Request) (body : ProblemDetails)
    → chain lib gw cfg roles req ≡ abort body
    → Refusal lib.now body
unfolding chain
chain-Refusal lib gw cfg roles req body h =
    and_then-Refuses lib.now _ _ (jwt-Refuses lib cfg req (engine lib gw req))
      (λ c.
        and_then-Refuses lib.now _ _ (enforce-Refuses gw.enforce lib.now req c)
          (λ c'. gate-Refuses roles lib.now c'))
      body h
