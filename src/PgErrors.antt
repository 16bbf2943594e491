-- ===== src/PgErrors.antt =====
-- services/wallet-service/internal/repo/errors.go and mapErrIfPg of repo/postgres.go: a driver error
-- becomes a domain error with an HTTP status.
pub mod Status
pub mod Mapping
pub mod Families
use core_wallet.Prelude.{
  ℕ, String, Bool, true, false, ◌||◌, not, Option, none, some, str_eq, str_append, starts_with,
  trim_space, cut, if◌then◌else◌,
}
use core_wallet.Errors.{
  GoError, nil, wrap, pg, Error, of_domain, PgError, as_domain, as_pg, is_deadline, is_canceled,
  new_error, internal_error,
}
use core_wallet.Errors.Codes
use core_wallet.PgErrors.Status.{http_status_for}

abbrev parts : String → Option (String × String) → String × String
parts msg none = (msg, "")
parts msg (some (before, after)) = (trim_space before, trim_space after)

-- `parseSPMessage`: the token before the first ":" and the rest.
unfoldable pub parse_sp_message : String → String × String
parse_sp_message msg = parts msg (cut b':' msg)

-- `pgDomainError`; the cause is the driver's error alone, without what is wrapped around it.
unfoldable pub pg_domain_error : String → ℕ → String → PgError → Error
unfolding new_error
pg_domain_error canonical status detail pg_err =
    record (new_error canonical status detail (pg pg_err.code pg_err.message)) {
      sql_state = pg_err.code;
      raw_message = pg_err.message;
    }

-- The `switch pgErr.Code` of `mapPgError` and what stands behind it.
unfoldable pub map_sql_state : String → String → PgError → GoError → Error
unfolding pg_domain_error internal_error
map_sql_state code detail p err =
    if str_eq p.code "40001"
    then pg_domain_error Codes.version_conflict 409 (str_append "version conflict: " detail) p
    else if str_eq p.code "40P01"
    then pg_domain_error Codes.version_conflict 409 (str_append "deadlock detected: " detail) p
    else if str_eq p.code "55P03"
    then pg_domain_error Codes.timeout 503 (str_append "lock timeout: " detail) p
    else if str_eq p.code "57014"
    then pg_domain_error Codes.timeout 504 (str_append "statement timeout: " detail) p
    else if str_eq p.code "23505"
    then pg_domain_error Codes.duplicate_reference 409 (str_append "duplicate reference: " detail) p
    else if str_eq p.code "23503"
    then pg_domain_error Codes.invalid_request 400 (str_append "foreign key violation: " detail) p
    else if str_eq p.code "23514"
    then pg_domain_error Codes.invalid_request 400 (str_append "check violation: " detail) p
    else if str_eq code "" || not (starts_with p.code "P0")
    then internal_error err
    else pg_domain_error code (http_status_for code) detail p

unfoldable pub map_found_pg : Option PgError → GoError → Error
unfolding parse_sp_message map_sql_state
map_found_pg none err = internal_error err
map_found_pg (some p) err =
    let (code, detail) = parse_sp_message p.message in map_sql_state code detail p err

-- The choice by `errors.Is` for the two ends of a context, then by `errors.As`.
unfoldable pub driver_choice : Bool → Bool → Option PgError → GoError → Error
unfolding new_error
driver_choice true _ _ err = new_error Codes.timeout 504 "request deadline exceeded" err
driver_choice false true _ err = new_error Codes.timeout 499 "request canceled by client" err
driver_choice false false found err = map_found_pg found err

-- The rest of `mapPgError` for an error that holds no domain error.
unfoldable pub map_driver_error : GoError → Error
unfolding driver_choice
map_driver_error err = driver_choice (is_deadline err) (is_canceled err) (as_pg err) err

unfoldable pub map_found_domain : Option Error → GoError → GoError
unfolding map_driver_error
map_found_domain (some de) err = of_domain de
map_found_domain none err = of_domain (map_driver_error err)

-- `mapPgError`.
unfoldable pub map_pg_error : GoError → GoError
unfolding map_found_domain
map_pg_error nil = nil
map_pg_error err = map_found_domain (as_domain err) err

or_internal : GoError → GoError → GoError
or_internal nil err = of_domain (internal_error (wrap "repo: " err))
or_internal mapped err = mapped

keep_domain : Option Error → GoError → GoError
unfolding or_internal
keep_domain (some _) err = err
keep_domain none err = or_internal (map_pg_error err) err

-- `mapErrIfPg`.
unfoldable pub map_err_if_pg : GoError → GoError
unfolding keep_domain
map_err_if_pg nil = nil
map_err_if_pg err = keep_domain (as_domain err) err
