-- ===== src/Requests/Binding.antt =====
-- http: what a request that was bound satisfies, and what becomes of one that is at fault.
use core_wallet.Prelude.{
  String, ◌≡◌, refl, ap, subst, true, Option, none, some, List, [], ◌∷◌, all, false, ◌≢◌, map,
}
use core_wallet.Errors.Meta.{is_client_safe, find_meta, code_meta}
use core_wallet.Problem.{new_problem, new_problem_from_error}
use core_wallet.Requests.{
  validation_problem, Engine, Field, field_passes, bound, should_bind_json, judged,
  validation_problem, invalid, new_problem, field_error,
}

judged_bound :
    {Q : Type 0} (req req' : Q) (errors : List (String × String))
    → judged req errors ≡ bound req'
    → (req ≡ req') × (errors ≡ [])
judged_bound req req' [] h = (cc, refl)
judged_bound req req' (e ∷ errors) h = absurd cc

pub should_bind_json_bound :
    {Q : Type 0} (engine : Engine) (fields : Q → List Field) (body : Option Q) (req : Q)
    → should_bind_json engine fields body ≡ bound req
    → (body ≡ some req) × (all field_passes (fields req) ≡ true)
unfolding should_bind_json
should_bind_json_bound engine fields none req h = absurd cc
should_bind_json_bound engine fields (some q) req h =
    let (same, clean) = judged_bound q req _ h in
    (
      ap some same,
      subst (λ q. all field_passes (fields q) ≡ true) same
          ((engine.validate_iff (fields q)).0 clean),
    )

-- The rules reject a request: the engine names at least one field.
rejects :
    (engine : Engine) (fields : List Field)
    → all field_passes fields ≡ false
    → engine.validate fields ≢ []
rejects engine fields h clean = let passed = (engine.validate_iff fields).0 clean in absurd cc

judged_errors :
    {Q : Type 0} (req : Q) (errors : List (String × String))
    → errors ≢ []
    → judged req errors ≡ invalid errors
judged_errors req [] ne = absurd (ne refl)
judged_errors req (e ∷ errors) ne = refl

-- A request that breaks a rule is not bound.
pub should_bind_json_invalid :
    {Q : Type 0} (engine : Engine) (fields : Q → List Field) (req : Q)
    → all field_passes (fields req) ≡ false
    → (engine.validate (fields req) ≢ [])
      × (should_bind_json engine fields (some req) ≡ invalid (engine.validate (fields req)))
unfolding should_bind_json
should_bind_json_invalid engine fields req h =
    let some_error = rejects engine (fields req) h in (some_error, judged_errors req _ some_error)

pub problem_status :
    (errors : List (String × String)) (now : String) → (validation_problem errors now).status ≡ 400
unfolding validation_problem new_problem new_problem_from_error is_client_safe find_meta code_meta
problem_status errors now = refl

pub problem_errors :
    (errors : List (String × String)) (now : String)
    → (validation_problem errors now).errors ≡ map field_error errors
unfolding validation_problem
problem_errors errors now = refl
