-- ===== src/Auth/Roles/Holders.antt =====
-- Whom RequireAnyRole of middleware/rbac.go lets through.
use core_wallet.Errors.Codes
use core_wallet.Problem.{new_problem}
use core_wallet.Prelude.{
  String, ◌≡◌, refl, sym, inl, inr, Bool, true, false, Option, none, some, List, [], ◌∷◌, any,
  str_eq, if◌then◌else◌, eq_iff, Bool-cases, subst, arith,
}
use mathlib.Core.List.{Memᴰ}
use core_wallet.Auth.{Context}
use core_wallet.Auth.Roles.{next, abort, has_any, checked, require_any_role, ProblemDetails}

next-inj : {a b : Context} → next a ≡ next b → a ≡ b
next-inj h = cc

some-inj : {A : Type 0} {a b : A} → some a ≡ some b → a ≡ b
some-inj h = cc

through :
    (b : Bool) (x : Context) (body : ProblemDetails) (c : Context)
    → (if b then next x else abort body) ≡ next c
    → (b ≡ true) × (c ≡ x)
through true x body c h = (refl, sym (next-inj h))
through false x body c h = absurd cc

checked-next :
    (want : List String) (now : String) (c c' : Context) (held : Option (List String))
    → checked want now c held ≡ next c'
    → (c' ≡ c) × ((have : List String) → held ≡ some have → has_any want have ≡ true)
unfolding checked
checked-next want now c c' none h = (sym (next-inj h), λ have e. absurd cc)
checked-next want now c c' (some held) h =
    let t = through (has_any want held) c _ c' h in
    (t.1, λ have e. subst (λ x. has_any want x ≡ true) (some-inj e) t.0)

pub require_any_role-next :
    (want : List String) (now : String) (c c' : Context)
    → require_any_role want now c ≡ next c'
    → (c' ≡ c) × ((have : List String) → c.jwt_roles ≡ some have → has_any want have ≡ true)
unfolding require_any_role
require_any_role-next want now c c' h = checked-next want now c c' c.jwt_roles h

any-mem :
    (role : String) (want : List String) → any (λ w. str_eq w role) want ≡ true → Memᴰ role want
any-mem role [] h = absurd cc
any-mem role (w ∷ want) h = elim (Bool-cases (str_eq w role)) [
  | inl same ↦ Memᴰ.head (sym ((eq_iff w role).0 same))
  | inr other ↦ Memᴰ.tail (any-mem role want (ground arith))
]

-- A caller with the roles `have` passes a check for `want` only with a role that is in both.
pub has_any-common :
    (want have : List String)
    → has_any want have ≡ true
    → (role : String) × Memᴰ role want × Memᴰ role have
unfolding has_any
has_any-common want [] h = absurd cc
has_any-common want (role ∷ have) h = elim (Bool-cases (any (λ w. str_eq w role) want)) [
  | inl found ↦ (role, any-mem role want found, Memᴰ.head refl)
  | inr absent ↦ let (r, w, m) = has_any-common want have (ground arith) in (r, w, Memᴰ.tail m)
]

-- What `RequireAnyRole` answers where it stops the chain.
refused :
    (b : Bool) (x : Context) (body body' : ProblemDetails)
    → (if b then next x else abort body) ≡ abort body'
    → body' ≡ body
refused true x body body' h = absurd cc
refused false x body body' h = cc

checked-abort :
    (want : List String) (now : String) (c : Context) (body : ProblemDetails)
    (held : Option (List String))
    → checked want now c held ≡ abort body
    → body ≡ new_problem Codes.forbidden 403 "missing required role" now
unfolding checked
checked-abort want now c body none h = absurd cc
checked-abort want now c body (some held) h = refused (has_any want held) c _ body h

pub require_any_role-abort :
    (want : List String) (now : String) (c : Context) (body : ProblemDetails)
    → require_any_role want now c ≡ abort body
    → body ≡ new_problem Codes.forbidden 403 "missing required role" now
unfolding require_any_role
require_any_role-abort want now c body h = checked-abort want now c body c.jwt_roles h
