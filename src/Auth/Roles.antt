-- ===== src/Auth/Roles.antt =====
-- middleware/rbac.go: the role catalog and RequireAnyRole.
pub mod Holders
use core_wallet.Prelude.{
  String, Bool, true, false, Option, none, some, List, [], ◌∷◌, any, str_eq, if◌then◌else◌,
}
use core_wallet.Errors.Codes
use core_wallet.Problem.{ProblemDetails, new_problem}
use core_wallet.Auth.{Context}

abbrev pub finance_reverse : String
finance_reverse = "wallet.finance.reverse"

abbrev pub ops_read : String
ops_read = "wallet.ops.read"

abbrev pub treasury : String
treasury = "wallet.treasury"

abbrev pub gl_je_maker : String
gl_je_maker = "wallet.gl.je.maker"

abbrev pub gl_je_checker : String
gl_je_checker = "wallet.gl.je.checker"

-- A middleware lets the request on, or writes a body and aborts the chain.
pub data Verdict : Type 0 where
  next : Context → Verdict
  abort : ProblemDetails → Verdict

unfoldable pub has_any : List String → List String → Bool
has_any want [] = false
has_any want (role ∷ have) = if any (λ w. str_eq w role) want then true else has_any want have

checked : List String → String → Context → Option (List String) → Verdict
unfolding has_any
checked want now ctx none = next ctx
checked want now ctx (some have) =
    if has_any want have
    then next ctx
    else abort (new_problem Codes.forbidden 403 "missing required role" now)

-- `RequireAnyRole`; `now` is what `nowRFC3339` answers.
unfoldable pub require_any_role : List String → String → Context → Verdict
unfolding checked
require_any_role want now ctx = checked want now ctx ctx.jwt_roles
