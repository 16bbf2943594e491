-- ===== src/PgErrors/Mapping.antt =====
-- `mapPgError` and `mapErrIfPg` of repo/errors.go and repo/postgres.go: what callers may rely on.
use core_wallet.Prelude.{
  String, ◌≡◌, refl, sym, ap, ◌∙◌, ◌≢◌, ◌↔◌, ◌⊎◌, inl, inr, true, false, Option, none, some, arith,
  str_eq, eq_iff, starts_with, if◌then◌else◌, not, ◌||◌, Bool-cases,
}
use core_wallet.Errors.{
  GoError, nil, Error, of_domain, PgError, as_domain, as_pg, is_deadline, is_canceled, is_retriable,
  internal_error,
}
use core_wallet.Errors.Codes
use core_wallet.PgErrors.Status.{http_status_for}
use core_wallet.PgErrors.{
  map_pg_error, map_found_domain, map_driver_error, driver_choice, map_found_pg, map_sql_state,
  parse_sp_message, map_err_if_pg, keep_domain, or_internal, pg_domain_error,
}

pub as_domain-of_domain : (e : Error) → as_domain (of_domain e) ≡ some e
unfolding as_domain
as_domain-of_domain e = refl

map_found_domain_domain :
    (o : Option Error) (err : GoError) → (de : Error) × (map_found_domain o err ≡ of_domain de)
unfolding map_found_domain
map_found_domain_domain (some de) err = (de, refl)
map_found_domain_domain none err = (map_driver_error err, refl)

pub map_pg_error_domain :
    (err : GoError) → err ≢ nil → (de : Error) × (map_pg_error err ≡ of_domain de)
unfolding map_pg_error
map_pg_error_domain nil h = absurd (h refl)
map_pg_error_domain err h = map_found_domain_domain (as_domain err) err

-- The result on a chain that holds a domain error, and on any other chain.
as_domain-nil : (de : Error) → as_domain nil ≡ some de → ⊥
unfolding as_domain
as_domain-nil de h = cc

pub map_pg_error_keeps :
    (err : GoError) (de : Error) → as_domain err ≡ some de → map_pg_error err ≡ of_domain de
unfolding map_pg_error map_found_domain
map_pg_error_keeps nil de h = absurd (as_domain-nil de h)
map_pg_error_keeps err de h = rw h

pub map_pg_error_of_driver :
    (err : GoError)
    → err ≢ nil
    → as_domain err ≡ none
    → map_pg_error err ≡ of_domain (map_driver_error err)
unfolding map_pg_error map_found_domain
map_pg_error_of_driver nil ne h = absurd (ne refl)
map_pg_error_of_driver err ne h = rw h

map_pg_error-of_domain : (de : Error) → map_pg_error (of_domain de) ≡ of_domain de
unfolding map_pg_error map_found_domain as_domain
map_pg_error-of_domain de = refl

-- Mapping an error a second time changes nothing.
map_pg_error_idempotent : (err : GoError) → map_pg_error (map_pg_error err) ≡ map_pg_error err
unfolding map_pg_error
map_pg_error_idempotent nil = refl
map_pg_error_idempotent err =
    let (de, e) = map_found_domain_domain (as_domain err) err in rw e (map_pg_error-of_domain de)

keep_domain_domain :
    (err : GoError)
    → err ≢ nil
    → (o : Option Error) → as_domain err ≡ o
    → (de : Error) × (as_domain (keep_domain o err) ≡ some de)
unfolding keep_domain or_internal as_domain
keep_domain_domain err ne (some de) e = (de, e)
keep_domain_domain err ne none e =
    let (de, m) = map_pg_error_domain err ne in (de, rw (m, or_internal))

-- An error that escapes the repository is a domain error, and a success stays a success.
pub map_err_if_pg_total :
    (err : GoError)
    → ((err ≡ nil) × (map_err_if_pg err ≡ nil))
      ⊎ ((de : Error) × (as_domain (map_err_if_pg err) ≡ some de))
unfolding map_err_if_pg
map_err_if_pg_total nil = inl (refl, refl)
map_err_if_pg_total err = inr (keep_domain_domain err (λ e. cc) (as_domain err) refl)

-- A SQLSTATE of the class 'P0' is none of those that the `switch` names.
pub record IsUnlisted (s : String) : Type 0 where
  pub serialization : str_eq s "40001" ≡ false
  pub deadlock : str_eq s "40P01" ≡ false
  pub lock_timeout : str_eq s "55P03" ≡ false
  pub statement_timeout : str_eq s "57014" ≡ false
  pub unique : str_eq s "23505" ≡ false
  pub foreign_key : str_eq s "23503" ≡ false
  pub check : str_eq s "23514" ≡ false

differs :
    (s t : String) → starts_with s "P0" ≡ true → starts_with t "P0" ≡ false → str_eq s t ≡ false
differs s t h k = elim (Bool-cases (str_eq s t)) [
  | inl same ↦ let e = (eq_iff s t).0 same in cc (ap (λ u. starts_with u "P0") e)
  | inr other ↦ other
]

pub p0-IsUnlisted : (s : String) → starts_with s "P0" ≡ true → IsUnlisted s
p0-IsUnlisted s h = record {
  serialization = differs s "40001" h refl;
  deadlock = differs s "40P01" h refl;
  lock_timeout = differs s "55P03" h refl;
  statement_timeout = differs s "57014" h refl;
  unique = differs s "23505" h refl;
  foreign_key = differs s "23503" h refl;
  check = differs s "23514" h refl;
}

-- The code of the domain error that a SQLSTATE leads to.
mapped_code : String → String → String
mapped_code sql_state code =
    if str_eq sql_state "40001" || str_eq sql_state "40P01"
    then Codes.version_conflict
    else if str_eq sql_state "55P03" || str_eq sql_state "57014"
    then Codes.timeout
    else if str_eq sql_state "23505"
    then Codes.duplicate_reference
    else if str_eq sql_state "23503" || str_eq sql_state "23514"
    then Codes.invalid_request
    else if str_eq code "" || not (starts_with sql_state "P0")
    then Codes.internal
    else code

map_sql_state-code :
    (code detail : String) (p : PgError) (err : GoError)
    → (map_sql_state code detail p err).code ≡ mapped_code p.code code
unfolding map_sql_state mapped_code
map_sql_state-code code detail p err = ground arith

mapped_code-eq-version_conflict :
    (s code : String)
    → (mapped_code s code ≡ Codes.version_conflict) ↔ (
        (s ≡ "40001")
        ⊎ (s ≡ "40P01")
        ⊎ ((starts_with s "P0" ≡ true) × (code ≡ Codes.version_conflict)))
unfolding mapped_code
mapped_code-eq-version_conflict s code = ground (
  arith,
  eq_iff s "40001",
  eq_iff s "40P01",
  eq_iff code "",
  eq_iff "" Codes.version_conflict,
  eq_iff Codes.timeout Codes.version_conflict,
  eq_iff Codes.duplicate_reference Codes.version_conflict,
  eq_iff Codes.invalid_request Codes.version_conflict,
  eq_iff Codes.internal Codes.version_conflict,
  eq_iff code Codes.version_conflict,
  p0-IsUnlisted s,
)

is_retriable_iff : (e : Error) → (is_retriable e ≡ true) ↔ (e.code ≡ Codes.version_conflict)
unfolding is_retriable
is_retriable_iff e = eq_iff e.code Codes.version_conflict

-- The mapped error is retriable for the two conflict states, and for a raised VERSION_CONFLICT.
pub map_sql_state-retriable :
    (code detail : String) (p : PgError) (err : GoError)
    → (is_retriable (map_sql_state code detail p err) ≡ true) ↔ (
        (p.code ≡ "40001")
        ⊎ (p.code ≡ "40P01")
        ⊎ ((starts_with p.code "P0" ≡ true) × (code ≡ Codes.version_conflict)))
map_sql_state-retriable code detail p err =
    let there = is_retriable_iff (map_sql_state code detail p err) in
    let here = mapped_code-eq-version_conflict p.code code in
    let same = map_sql_state-code code detail p err in
    (λ h. here.0 (sym same ∙ there.0 h), λ h. there.1 (same ∙ here.1 h))

-- A chain that holds the driver's error `p`, no domain error and no end of the context.
pub record IsPgChain (err : GoError) (p : PgError) : Type 0 where
  pub no_domain : as_domain err ≡ none
  pub in_time : is_deadline err ≡ false
  pub not_canceled : is_canceled err ≡ false
  pub found : as_pg err ≡ some p

as_pg-nil : (p : PgError) → as_pg nil ≡ some p → ⊥
unfolding as_pg
as_pg-nil p h = cc

IsPgChain-ne-nil : {err : GoError} {p : PgError} → IsPgChain err p → err ≢ nil
IsPgChain-ne-nil {p} c e = as_pg-nil p (rw (← e) c.found)

pub map_pg_error_of_pg :
    (err : GoError) (p : PgError)
    → IsPgChain err p
    → map_pg_error err
      ≡ of_domain
          (map_sql_state (parse_sp_message p.message).0 (parse_sp_message p.message).1 p err)
unfolding map_driver_error driver_choice map_found_pg
map_pg_error_of_pg err p c =
    rw (map_pg_error_of_driver err (IsPgChain-ne-nil c) c.no_domain)
      (rw (c.in_time, c.not_canceled, c.found))

-- Outside the listed states and the class 'P0' the mapped error is the internal one.
pub map_sql_state_unlisted :
    (code detail : String) (p : PgError) (err : GoError)
    → IsUnlisted p.code
    → starts_with p.code "P0" ≡ false
    → map_sql_state code detail p err ≡ internal_error err
unfolding map_sql_state
map_sql_state_unlisted code detail p err u k =
    rw
      (
        u.serialization, u.deadlock, u.lock_timeout, u.statement_timeout, u.unique, u.foreign_key,
        u.check,
      )
      (rw k (ground arith))

-- A raised error keeps its code, with the status of the code.
pub map_sql_state_raised :
    (code detail : String) (p : PgError) (err : GoError)
    → starts_with p.code "P0" ≡ true
    → code ≢ ""
    → map_sql_state code detail p err ≡ pg_domain_error code (http_status_for code) detail p
unfolding map_sql_state
map_sql_state_raised code detail p err k ne =
    let u = p0-IsUnlisted p.code k in
    rw
      (
        u.serialization, u.deadlock, u.lock_timeout, u.statement_timeout, u.unique, u.foreign_key,
        u.check,
      )
      (ground (arith, eq_iff code ""))

-- One without a code is the internal error.
pub map_sql_state_codeless :
    (detail : String) (p : PgError) (err : GoError)
    → starts_with p.code "P0" ≡ true
    → map_sql_state "" detail p err ≡ internal_error err
unfolding map_sql_state
map_sql_state_codeless detail p err k =
    let u = p0-IsUnlisted p.code k in
    rw
      (
        u.serialization, u.deadlock, u.lock_timeout, u.statement_timeout, u.unique, u.foreign_key,
        u.check,
      )
      refl
