-- ===== src/Auth/Chain/Trust.antt =====
-- What the order of the chain (internal/http/server.go with internal/http/middleware) gives a handler:
-- which actor, channel and roles stand behind a request that comes through, and how one is refused.
use core_wallet.Prelude.{
  String, ◌≡◌, ◌≢◌, refl, ap, sym, ◌∙◌, subst, Bool, true, false, ◌||◌, not, Option, none, some,
  List, str_eq, trim_space, if◌then◌else◌, inl, inr, Bool-cases, eq_iff, arith,
}
use mathlib.Core.List.{Memᴰ}
use core_wallet.Tx.{AuditContext}
use core_wallet.Problem.{ProblemDetails}
use core_wallet.Auth.{Request, Context, Claims, empty_context}
use core_wallet.Auth.Tokens.{bearer_token, extract_roles, gateway_actor_from}
use core_wallet.Auth.Identity.{
  value_of, or_else, audit_context, parse_channel, resolve_actor, resolve_channel, request_id,
}
use core_wallet.Auth.Roles.{Verdict, next, abort, has_any}
use core_wallet.Auth.Roles.Holders.{require_any_role-next, has_any-common}
use core_wallet.Auth.Chain.{
  set_actor, GatewayConfig, JwtConfig, Libraries, gateway_identity, enforce_gateway_identity,
  is_mutating, jwt, and_then, engine, gate, chain, with_claims, with_token,
}

and_then-next :
    (v : Verdict) (k : Context → Verdict) (ctx : Context)
    → and_then v k ≡ next ctx
    → (c : Context) × (v ≡ next c) × (k c ≡ next ctx)
unfolding and_then
and_then-next (next c) k ctx h = (c, refl, h)
and_then-next (abort body) k ctx h = absurd cc

passes :
    (b : Bool) (body : ProblemDetails) (v : Verdict) (c : Context)
    → (if b then abort body else v) ≡ next c
    → (b ≡ false) × (v ≡ next c)
passes true body v c h = absurd cc
passes false body v c h = (refl, h)

next-inj : {a b : Context} → next a ≡ next b → a ≡ b
next-inj h = cc

-- What the token gave: with the parser enabled the roles are the token's, and the audit is kept.
record FromToken (lib : Libraries) (cfg : JwtConfig) (req : Request) (c c' : Context) : Type 0 where
  same_audit : c'.audit ≡ c.audit
  same_actor : c'.gateway_actor ≡ c.gateway_actor
  roles :
      cfg.enabled ≡ true
      → let raw = bearer_token (req.header "Authorization") in
        (lib.parse_error raw ≡ none)
        × (c'.jwt_roles
            ≡ some (extract_roles (lib.parsed_claims raw) (or_else cfg.roles_claim "roles")))

-- The context behind a token whose claims were accepted.
Accepted : JwtConfig → Claims → Context → Context → Type 0
Accepted cfg claims c c' =
    (c'.audit ≡ c.audit)
    × (c'.gateway_actor ≡ c.gateway_actor)
    × (c'.jwt_roles ≡ some (extract_roles claims (or_else cfg.roles_claim "roles")))

with_claims-Accepted :
    (now : String) (cfg : JwtConfig) (claims : Claims) (c c' : Context)
    → with_claims now cfg c claims ≡ next c'
    → Accepted cfg claims c c'
unfolding with_claims Accepted
with_claims-Accepted now cfg claims c c' h =
    let e = sym (next-inj (passes _ _ _ c' h).1) in
    (ap (λ x. x.audit) e, ap (λ x. x.gateway_actor) e, ap (λ x. x.jwt_roles) e)

with_token-Accepted :
    (lib : Libraries) (cfg : JwtConfig) (raw : String) (c c' : Context) (error : Option String)
    → with_token lib cfg c raw error ≡ next c'
    → (error ≡ none) × Accepted cfg (lib.parsed_claims raw) c c'
unfolding with_token
with_token-Accepted lib cfg raw c c' none h = (refl, with_claims-Accepted lib.now cfg _ c c' h)
with_token-Accepted lib cfg raw c c' (some text) h = absurd cc

token-FromToken :
    (lib : Libraries) (cfg : JwtConfig) (req : Request) (c c' : Context)
    → let raw = bearer_token (req.header "Authorization") in
      (lib.parse_error raw ≡ none) × Accepted cfg (lib.parsed_claims raw) c c'
      → FromToken lib cfg req c c'
unfolding Accepted
token-FromToken lib cfg req c c' (valid, (audit, actor, roles)) = record {
  same_audit = audit;
  same_actor = actor;
  roles = λ on. (valid, roles);
}

off-FromToken :
    (lib : Libraries) (cfg : JwtConfig) (req : Request) (c c' : Context)
    → cfg.enabled ≡ false
    → c' ≡ c
    → FromToken lib cfg req c c'
off-FromToken lib cfg req c c' off e = record {
  same_audit = ap (λ x. x.audit) e;
  same_actor = ap (λ x. x.gateway_actor) e;
  roles = λ on. absurd cc;
}

skips : (b : Bool) (x y : Verdict) → b ≡ false → (if b then x else y) ≡ y
skips b x y h = rw (h) refl

takes : (b : Bool) (x y : Verdict) → b ≡ true → (if b then x else y) ≡ x
takes b x y h = rw (h) refl

jwt-FromToken :
    (lib : Libraries) (cfg : JwtConfig) (req : Request) (c c' : Context)
    → jwt lib cfg req c ≡ next c'
    → FromToken lib cfg req c c'
unfolding jwt
jwt-FromToken lib cfg req c c' h = elim (Bool-cases (not cfg.enabled)) [
  | inl off ↦
      off-FromToken lib cfg req c c' (ground arith) (sym (next-inj (sym (takes _ _ _ off) ∙ h)))
  | inr on ↦
      token-FromToken lib cfg req c c'
        (with_token-Accepted lib cfg _ c c' _ (passes _ _ _ c' (sym (skips _ _ _ on) ∙ h)).1)
]

enforce-same :
    (enforce : Bool) (now : String) (req : Request) (c c' : Context)
    → enforce_gateway_identity enforce now req c ≡ next c'
    → (c' ≡ c)
      × (enforce ≡ true
          → is_mutating req.method ≡ true
          → str_eq (value_of c.gateway_actor) "" ≡ false)
unfolding enforce_gateway_identity
enforce-same enforce now req c c' h =
    elim (Bool-cases (not enforce || not (is_mutating req.method))) [
      | inl off ↦ (sym (next-inj (sym (takes _ _ _ off) ∙ h)), ground arith)
      | inr on ↦
          let held = passes _ _ _ c' (sym (skips _ _ _ on) ∙ h) in
          (sym (next-inj held.1), λ _ _. held.0)
    ]

some-inj : {A : Type 0} {a b : A} → some a ≡ some b → a ≡ b
some-inj h = cc

gate-same :
    (roles : Option (List String)) (now : String) (c c' : Context)
    → gate roles now c ≡ next c'
    → (c' ≡ c)
      × ((want have : List String)
          → roles ≡ some want
          → c.jwt_roles ≡ some have
          → has_any want have ≡ true)
unfolding gate
gate-same none now c c' h = (sym (next-inj h), λ want have e. absurd cc)
gate-same (some want) now c c' h =
    let held = require_any_role-next want now c c' h in
    (held.0, λ want' have e e'. subst (λ w. has_any w have ≡ true) (some-inj e) (held.1 have e'))

-- The context behind the whole chain.
record Through (lib : Libraries) (gw : GatewayConfig) (cfg : JwtConfig) (req : Request)
    (roles : Option (List String)) (ctx : Context) : Type 0 where
  audit : ctx.audit ≡ (engine lib gw req).audit
  attributed :
      gw.enforce ≡ true
      → is_mutating req.method ≡ true
      → str_eq (value_of (engine lib gw req).gateway_actor) "" ≡ false
  token : FromToken lib cfg req (engine lib gw req) ctx
  role :
      (want have : List String)
      → roles ≡ some want
      → ctx.jwt_roles ≡ some have
      → has_any want have ≡ true

chain-Through :
    (lib : Libraries) (gw : GatewayConfig) (cfg : JwtConfig) (roles : Option (List String))
    (req : Request) (ctx : Context)
    → chain lib gw cfg roles req ≡ next ctx
    → Through lib gw cfg req roles ctx
unfolding chain
chain-Through lib gw cfg roles req ctx h =
    let (c, j, rest) = and_then-next _ _ ctx h in
    let (c', f, last) = and_then-next _ _ ctx rest in
    let token = jwt-FromToken lib cfg req _ c j in
    let (same, attributed) = enforce-same gw.enforce lib.now req c c' f in
    let (same', role) = gate-same roles lib.now c' ctx last in
    let e = same' ∙ same in
    record {
      audit = ap (λ x. x.audit) e ∙ token.same_audit;
      attributed =
          λ on m. subst (λ a. str_eq (value_of a) "" ≡ false) token.same_actor (attributed on m);
      token = subst (FromToken lib cfg req (engine lib gw req)) (sym e) token;
      role = λ want have r held. role want have r (ap (λ x. x.jwt_roles) (sym same') ∙ held);
    }

-- The actor of the configured gateway header.
abbrev pub gateway_actor_of : Libraries → GatewayConfig → Request → String
gateway_actor_of lib gw req =
    gateway_actor_from lib.b64_decode lib.unmarshal
      (req.header (or_else gw.jwt_header "Authorization")) gw.actor_claim gw.actor_claim_fallback

or_else-left : (s t : String) → str_eq s "" ≡ false → or_else s t ≡ s
or_else-left s t h = rw (h) refl

not_empty : true ≢ false
not_empty h = cc

set_actor_value :
    (actor : String) (c : Context)
    → c.gateway_actor ≡ none
    → value_of (set_actor actor c).gateway_actor ≡ actor
unfolding set_actor value_of
set_actor_value actor c h = elim (Bool-cases (str_eq actor "")) [
  | inl empty ↦ rw (empty, h) (sym ((eq_iff actor "").0 empty))
  | inr some_actor ↦ rw (some_actor) refl
]

set_actor_token :
    (actor : String) (c : Context)
    → ((set_actor actor c).jwt_subject ≡ c.jwt_subject)
      × ((set_actor actor c).jwt_channel ≡ c.jwt_channel)
unfolding set_actor
set_actor_token actor c = elim (Bool-cases (str_eq actor "")) [
  | inl empty ↦ rw (empty) (refl, refl)
  | inr some_actor ↦ rw (some_actor) (refl, refl)
]

-- The audit context of a request whose token was not looked at.
resolved :
    (req : Request) (c : Context) (actor : String)
    → value_of c.gateway_actor ≡ actor
    → c.jwt_subject ≡ none
    → c.jwt_channel ≡ none
    → (resolve_channel req c ≡ or_else (parse_channel (req.header "X-Channel")) "API")
      × (resolve_actor req c
          ≡ or_else actor (or_else (trim_space (req.header "X-Caller-Subject")) "anonymous"))
unfolding resolve_channel resolve_actor
resolved req c actor g s ch = (rw (ch) refl, rw (g, s) refl)

-- A request that comes through the chain carries the audit context that was built before the JWT
-- middleware ran: its channel is the one of the header `X-Channel` or API, and its actor the gateway's,
-- else the header `X-Caller-Subject`, else anonymous, whatever the validated token says.
pub audit_ignores_token :
    (lib : Libraries) (gw : GatewayConfig) (cfg : JwtConfig) (roles : Option (List String))
    (req : Request) (ctx : Context)
    → chain lib gw cfg roles req ≡ next ctx
    → (a : AuditContext) × (ctx.audit ≡ some a)
      × (a.channel ≡ or_else (parse_channel (req.header "X-Channel")) "API")
      × (a.actor
          ≡ or_else
              (gateway_actor_of lib gw req)
              (or_else (trim_space (req.header "X-Caller-Subject")) "anonymous"))
unfolding engine audit_context gateway_identity request_id
audit_ignores_token lib gw cfg roles req ctx h =
    let t = chain-Through lib gw cfg roles req ctx h in
    let c = request_id lib.fresh req empty_context in
    let actor = gateway_actor_of lib gw req in
    let (subject, channel) = set_actor_token actor c in
    let (ch, act) =
      resolved req (set_actor actor c) actor (set_actor_value actor c refl) subject channel in
    (_, t.audit, ch, act)

-- With enforcement on, a POST, PUT, PATCH or DELETE that comes through is audited under the actor of
-- the gateway's token, which is not empty.
pub enforced_actor :
    (lib : Libraries) (gw : GatewayConfig) (cfg : JwtConfig) (roles : Option (List String))
    (req : Request) (ctx : Context)
    → gw.enforce ≡ true
    → is_mutating req.method ≡ true
    → chain lib gw cfg roles req ≡ next ctx
    → (a : AuditContext) × (ctx.audit ≡ some a)
      × (a.actor ≡ gateway_actor_of lib gw req)
      × (gateway_actor_of lib gw req ≢ "")
unfolding engine audit_context gateway_identity request_id
enforced_actor lib gw cfg roles req ctx on m h =
    let t = chain-Through lib gw cfg roles req ctx h in
    let (a, e, _, act) = audit_ignores_token lib gw cfg roles req ctx h in
    let actor = gateway_actor_of lib gw req in
    let c = request_id lib.fresh req empty_context in
    let given = ap (λ x. str_eq x "") (sym (set_actor_value actor c refl)) ∙ t.attributed on m in
    (
      a,
      e,
      act ∙ or_else-left actor _ given,
      λ empty. not_empty (sym ((eq_iff actor "").1 empty) ∙ given),
    )

-- With the JWT middleware enabled, a request to a route with roles comes through only if the token is
-- valid and one of the route's roles is among the roles of the token.
pub enforced_role :
    (lib : Libraries) (gw : GatewayConfig) (cfg : JwtConfig) (want : List String) (req : Request)
    (ctx : Context)
    → cfg.enabled ≡ true
    → chain lib gw cfg (some want) req ≡ next ctx
    → let raw = bearer_token (req.header "Authorization") in
      (lib.parse_error raw ≡ none)
      × ((role : String) × Memᴰ role want
          × Memᴰ role (extract_roles (lib.parsed_claims raw) (or_else cfg.roles_claim "roles")))
enforced_role lib gw cfg want req ctx on h =
    let t = chain-Through lib gw cfg (some want) req ctx h in
    let (valid, held) = t.token.roles on in (valid, has_any-common want _ (t.role want _ refl held))
