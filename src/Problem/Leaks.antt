-- ===== src/Problem/Leaks.antt =====
-- What an error body shows of an error, through the mapping of repo/errors.go.
use core_wallet.Prelude.{
  String, ◌≡◌, refl, sym, ◌∙◌, ◌≢◌, Bool, true, false, Option, none, some, starts_with,
  Option-cases, inl, inr, if◌then◌else◌, str_eq, ◌||◌, not,
}
use core_wallet.Errors.{
  GoError, nil, wrap, Error, of_domain, PgError, as_domain, as_pg, is_deadline, is_canceled,
  internal_error,
}
use core_wallet.Errors.Meta.{is_client_safe}
use core_wallet.PgErrors.{
  map_pg_error, map_driver_error, driver_choice, map_found_pg, map_sql_state, parse_sp_message,
}
use core_wallet.PgErrors.Mapping.{
  as_domain-of_domain, map_pg_error_keeps, map_pg_error_of_driver, map_pg_error_of_pg, IsPgChain,
  IsUnlisted, map_sql_state_unlisted,
}
use core_wallet.Problem.{ProblemDetails, fallback, new_problem_from_error, render_error}

-- An internal error is never shown.
pub problem-internal_error :
    (err : GoError) (now : String) → new_problem_from_error (internal_error err) now ≡ fallback now
unfolding new_problem_from_error internal_error is_client_safe
problem-internal_error err now = refl

pub render-of_domain :
    (de : Error) (now : String) → render_error (of_domain de) now ≡ new_problem_from_error de now
unfolding render_error
render-of_domain de now = rw (as_domain-of_domain de)

-- Two errors that are answered alike stay so in a branch of a choice.
else_branch :
    {A B : Type 0} (f : A → B) (b : Bool) (x y y' : A)
    → f y ≡ f y'
    → f (if b then x else y) ≡ f (if b then x else y')
else_branch f true x y y' h = refl
else_branch f false x y y' h = h

then_branch :
    {A B : Type 0} (f : A → B) (b : Bool) (x x' y : A)
    → f x ≡ f x'
    → f (if b then x else y) ≡ f (if b then x' else y)
then_branch f true x x' y h = h
then_branch f false x x' y h = refl

-- The cause of an error stays out of the body.
problem_sql_state_cause :
    (code detail : String) (p : PgError) (e e' : GoError) (now : String)
    → new_problem_from_error (map_sql_state code detail p e) now
      ≡ new_problem_from_error (map_sql_state code detail p e') now
unfolding map_sql_state
problem_sql_state_cause code detail p e e' now =
    let body : Error → ProblemDetails = λ de. new_problem_from_error de now in
    else_branch body (str_eq p.code "40001") _ _ _ (
      else_branch body (str_eq p.code "40P01") _ _ _ (
        else_branch body (str_eq p.code "55P03") _ _ _ (
          else_branch body (str_eq p.code "57014") _ _ _ (
            else_branch body (str_eq p.code "23505") _ _ _ (
              else_branch body (str_eq p.code "23503") _ _ _ (
                else_branch body (str_eq p.code "23514") _ _ _ (
                  then_branch body (str_eq code "" || not (starts_with p.code "P0")) _ _ _
                    (problem-internal_error e now ∙ sym (problem-internal_error e' now)))))))))

problem_pg_cause :
    (o : Option PgError) (e e' : GoError) (now : String)
    → new_problem_from_error (map_found_pg o e) now ≡ new_problem_from_error (map_found_pg o e') now
unfolding map_found_pg
problem_pg_cause none e e' now = problem-internal_error e now ∙ sym (problem-internal_error e' now)
problem_pg_cause (some p) e e' now =
    problem_sql_state_cause (parse_sp_message p.message).0 (parse_sp_message p.message).1 p e e' now

-- The choice that `mapPgError` makes by the three answers, with the cause apart.
problem_choice :
    (late canceled : Bool) (o : Option PgError) (e e' : GoError) (now : String)
    → new_problem_from_error (driver_choice late canceled o e) now
      ≡ new_problem_from_error (driver_choice late canceled o e') now
unfolding driver_choice new_problem_from_error
problem_choice true c o e e' now = refl
problem_choice false true o e e' now = refl
problem_choice false false o e e' now = problem_pg_cause o e e' now

-- Two chains in which `errors.As` and `errors.Is` find the same drive the same answer.
problem_driver_same :
    (e e' : GoError) (now : String)
    → is_deadline e ≡ is_deadline e'
    → is_canceled e ≡ is_canceled e'
    → as_pg e ≡ as_pg e'
    → new_problem_from_error (map_driver_error e) now
      ≡ new_problem_from_error (map_driver_error e') now
unfolding map_driver_error
problem_driver_same e e' now d c p =
    rw (d, c, p) (problem_choice (is_deadline e') (is_canceled e') (as_pg e') e e' now)

render_mapped_cases :
    (e e' : GoError) (now : String)
    → e ≢ nil
    → e' ≢ nil
    → as_domain e ≡ as_domain e'
    → is_deadline e ≡ is_deadline e'
    → is_canceled e ≡ is_canceled e'
    → as_pg e ≡ as_pg e'
    → render_error (map_pg_error e) now ≡ render_error (map_pg_error e') now
render_mapped_cases e e' now n n' dom d c p = elim (Option-cases (as_domain e')) [
  | inl driver ↦
      rw
        (
          map_pg_error_of_driver e n (dom ∙ driver),
          map_pg_error_of_driver e' n' driver,
          render-of_domain (map_driver_error e),
          render-of_domain (map_driver_error e'),
        )
        (problem_driver_same e e' now d c p)
  | inr (de, found) ↦ rw (map_pg_error_keeps e de (dom ∙ found), map_pg_error_keeps e' de found)
]

render_nil : (now : String) → render_error nil now ≡ fallback now
unfolding render_error as_domain new_problem_from_error internal_error is_client_safe
render_nil now = refl

wrap_nil : (text now : String) → render_error (map_pg_error (wrap text nil)) now ≡ fallback now
unfolding render_error map_pg_error as_domain is_deadline is_canceled as_pg new_problem_from_error
    internal_error is_client_safe map_found_pg
wrap_nil text now = refl

-- An error and the same error wrapped once more by `fmt.Errorf` are answered with the same body, where
-- both are mapped by `mapPgError` and rendered by `renderError`.
pub render-wrap :
    (text : String) (e : GoError) (now : String)
    → render_error (map_pg_error (wrap text e)) now ≡ render_error (map_pg_error e) now
unfolding as_domain is_deadline is_canceled as_pg
render-wrap text nil now = wrap_nil text now ∙ sym (unfold map_pg_error in render_nil now)
render-wrap text e now =
    render_mapped_cases (wrap text e) e now (λ h. cc) (λ h. cc) refl refl refl refl

-- A driver error of an unlisted SQLSTATE outside the class 'P0' is answered by the fallback body:
-- status 500, code 999999, and nothing of its SQLSTATE, message or cause.
pub render-unlisted :
    (err : GoError) (p : PgError) (now : String)
    → IsPgChain err p
    → IsUnlisted p.code
    → starts_with p.code "P0" ≡ false
    → render_error (map_pg_error err) now ≡ fallback now
render-unlisted err p now c u k =
    let (code, detail) = parse_sp_message p.message in
    rw
      (
        map_pg_error_of_pg err p c,
        map_sql_state_unlisted code detail p err u k,
        render-of_domain (internal_error err),
      )
      (problem-internal_error err now)
