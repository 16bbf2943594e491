-- ===== src/Witnesses/Errors.antt =====
-- Concrete errors (repo/errors.go, http/dto/dto.go) and transactions (repo/postgres.go) of the wallet
-- service: a driver that counts the transactions it began, the first of which loses a conflict.
use core_wallet.Prelude.{
  ℕ, ◌+◌, ◌≤◌, ◌≡◌, refl, String, true, false, some, [], ◌==◌, if◌then◌else◌, arith, starts_with,
  inl, inr, ◌⊎◌, ◌↔◌, has_suffix, cut, trim_space,
}
use core_wallet.Errors.{GoError, nil, pg, wrap, as_domain, as_pg, is_deadline, is_canceled, Error}
use core_wallet.Errors.Meta.{meta_for, is_client_safe, code_meta, find_meta}
use core_wallet.Errors.Codes
use core_wallet.PgErrors.{map_pg_error, map_err_if_pg, parse_sp_message}
use core_wallet.PgErrors.Status.{http_status_for}
use core_wallet.PgErrors.Mapping.{IsPgChain, map_err_if_pg_total}
use core_wallet.PgErrors.Families.{conflict_family_hidden, restraint_family_unmapped}
use core_wallet.Problem.{fallback, render_error}
use core_wallet.Problem.Leaks.{render-wrap, render-unlisted}
use core_wallet.Problem.Raised.{render_raised, render_raised_hidden, Says, bare, detailed}
use core_wallet.Errors.{is_retriable}
use core_wallet.PgErrors.{map_found_pg}
use core_wallet.Tx.{on_ok, AuditContext, Driver, Settings, run_tx, with_tx, is_conflict}
use core_wallet.Tx.Attempt.{Commits, run_tx_iff}
use core_wallet.Tx.Retry.{is_conflict_iff, with_tx_resumes, with_tx-count}

-- An error chain around one that a stored procedure raised.
abbrev from_sp : String → String → GoError
from_sp state message = wrap "repo: transfer" (pg state message)

sp_chain :
    (state message : String)
    → IsPgChain (from_sp state message) (record { code = state; message = message })
unfolding as_domain is_deadline is_canceled as_pg
sp_chain state message = record {
  no_domain = refl;
  in_time = refl;
  not_canceled = refl;
  found = refl;
}

-- A message with a detail, and a bare code.
no_account : Says "ACCT_NOT_FOUND: no such account" "ACCT_NOT_FOUND" "no such account"
unfolding cut trim_space
no_account = detailed "ACCT_NOT_FOUND" " no such account" refl

just_code : Says "INVALID_AMOUNT" "INVALID_AMOUNT" ""
unfolding cut
just_code = bare "INVALID_AMOUNT" refl

shard : Says "SHARD_CONFLICT: shard 3" "SHARD_CONFLICT" "shard 3"
unfolding cut trim_space
shard = detailed "SHARD_CONFLICT" " shard 3" refl

bare_code : render_error (map_pg_error (from_sp "P0010" "INVALID_AMOUNT")) "now" ≡ record {
  status = http_status_for "INVALID_AMOUNT";
  detail = "";
  error_code = "P0010";
  error_message = "INVALID_AMOUNT";
  iso_reason = (meta_for "INVALID_AMOUNT").iso_reason;
  transaction_status = (meta_for "INVALID_AMOUNT").tx_status;
  timestamp = "now";
  errors = [];
}
unfolding is_client_safe find_meta code_meta
bare_code =
    render_raised (from_sp "P0010" "INVALID_AMOUNT")
      (record { code = "P0010"; message = "INVALID_AMOUNT" }) "INVALID_AMOUNT" "" "now"
      (sp_chain "P0010" "INVALID_AMOUNT") refl just_code refl

render_raised_example :
    render_error (map_pg_error (from_sp "P0004" "ACCT_NOT_FOUND: no such account")) "now" ≡ record {
      status = http_status_for "ACCT_NOT_FOUND";
      detail = "no such account";
      error_code = "P0004";
      error_message = "ACCT_NOT_FOUND: no such account";
      iso_reason = (meta_for "ACCT_NOT_FOUND").iso_reason;
      transaction_status = (meta_for "ACCT_NOT_FOUND").tx_status;
      timestamp = "now";
      errors = [];
    }
unfolding is_client_safe find_meta code_meta
render_raised_example =
    render_raised (from_sp "P0004" "ACCT_NOT_FOUND: no such account")
      (record { code = "P0004"; message = "ACCT_NOT_FOUND: no such account" }) "ACCT_NOT_FOUND"
      "no such account" "now" (sp_chain "P0004" "ACCT_NOT_FOUND: no such account") refl no_account
      refl

render_raised_hidden_example :
    render_error (map_pg_error (from_sp "P0099" "SHARD_CONFLICT: shard 3")) "now" ≡ fallback "now"
unfolding is_client_safe find_meta code_meta has_suffix
render_raised_hidden_example =
    render_raised_hidden (from_sp "P0099" "SHARD_CONFLICT: shard 3")
      (record { code = "P0099"; message = "SHARD_CONFLICT: shard 3" }) "SHARD_CONFLICT" "shard 3"
      "now" (sp_chain "P0099" "SHARD_CONFLICT: shard 3") refl shard refl

render-unlisted_example :
    render_error (map_pg_error (from_sp "42601" "syntax error")) "now" ≡ fallback "now"
render-unlisted_example =
    render-unlisted (from_sp "42601" "syntax error")
      (record { code = "42601"; message = "syntax error" }) "now" (sp_chain "42601" "syntax error")
      (record {
        serialization = refl;
        deadlock = refl;
        lock_timeout = refl;
        statement_timeout = refl;
        unique = refl;
        foreign_key = refl;
        check = refl;
      })
      refl

render-wrap_example :
    render_error (map_pg_error (wrap "at db-7" (pg "40001" "conflict"))) "now"
    ≡ render_error (map_pg_error (pg "40001" "conflict")) "now"
render-wrap_example = render-wrap "at db-7" (pg "40001" "conflict") "now"

map_err_if_pg_total_example :
    ((pg "40001" "conflict" ≡ nil) × (map_err_if_pg (pg "40001" "conflict") ≡ nil))
    ⊎ ((de : Error) × (as_domain (map_err_if_pg (pg "40001" "conflict")) ≡ some de))
map_err_if_pg_total_example = map_err_if_pg_total (pg "40001" "conflict")

conflict_family_hidden_example :
    (http_status_for "SHARD_CONFLICT" ≡ 409) × (is_client_safe "SHARD_CONFLICT" ≡ false)
unfolding has_suffix code_meta find_meta
conflict_family_hidden_example = conflict_family_hidden "SHARD_CONFLICT" refl refl refl refl refl

restraint_family_unmapped_example :
    (http_status_for "FROM_DR_RESTRAINT_ACTIVE" ≡ 500)
    × (is_client_safe "FROM_DR_RESTRAINT_ACTIVE" ≡ true)
unfolding has_suffix code_meta find_meta
restraint_family_unmapped_example =
    restraint_family_unmapped "FROM_DR_RESTRAINT_ACTIVE" refl refl refl refl refl

abbrev deadlock_state : String
deadlock_state = "40P01"

is_conflict_iff_example : (is_conflict (map_pg_error (from_sp "40P01" "deadlock")) ≡ true) ↔ (
    (deadlock_state ≡ "40001")
    ⊎ (deadlock_state ≡ "40P01")
    ⊎ ((starts_with deadlock_state "P0" ≡ true)
        × ((parse_sp_message "deadlock").0 ≡ Codes.version_conflict)))
is_conflict_iff_example =
    is_conflict_iff (from_sp "40P01" "deadlock") (record { code = "40P01"; message = "deadlock" })
      (sp_chain "40P01" "deadlock")

abbrev driver : Driver ℕ
driver = record {
  begin = λ w. (nil, w + 1);
  begin_read_only = λ w. (nil, w + 1);
  set_timeouts = λ s l w. (nil, w);
  set_config = λ g w. (nil, w);
  commit = λ w. (nil, w);
  rollback = λ w. w;
  ctx_done = λ w. false;
  jitter = λ w. 3;
  wait = λ t w. (false, w);
}

abbrev settings : Settings
settings = record {
  statement_timeout_ms = 2500;
  lock_timeout_ms = 1500;
  tx_max_retries = 2;
  pii_dek = "dek";
}

abbrev audit : AuditContext
audit = record {
  actor = "alice";
  channel = "API";
  request_id = "r1";
  trace_id = "";
  trace_parent = "";
  ip_address = "10.0.0.1";
  user_agent = "curl";
}

abbrev work : ℕ → GoError × ℕ
work w = (if w == 1 then pg "40001" "conflict" else nil, w)

run_tx_iff_example :
    (run_tx driver settings audit work 1 ≡ (nil, 2)) ↔ Commits driver settings audit work 1 2
run_tx_iff_example = run_tx_iff driver settings audit work 1 2

with_tx_resumes_example : with_tx driver settings audit work 0 ≡ run_tx driver settings audit work 1
unfolding run_tx on_ok is_conflict map_pg_error as_domain is_deadline is_canceled as_pg is_retriable
    map_found_pg
with_tx_resumes_example =
    with_tx_resumes driver settings audit work 1 0 1 (refl, refl, refl, refl) (omega arith)
      (inr (inl refl))

with_tx-count_example :
    (1 ≤ (with_tx driver settings audit work 0).1)
    × ((with_tx driver settings audit work 0).1 ≤ 0 + 1 + 2)
with_tx-count_example =
    with_tx-count driver settings audit work (λ w. w)
      (record {
        begins = λ w. refl;
        times = λ s l w. refl;
        audits = λ g w. refl;
        works = λ w. refl;
        commits = λ w. refl;
        rolls_back = λ w. refl;
        waits = λ t w. refl;
      })
      0
