-- ===== src/Pages/Single.antt =====
-- The reads by id: GetManualJE and GetRestraint of http/handler, usecase and repo. A read answers a row,
-- no row, or an error.
use core_wallet.Prelude.{ℕ, String, List}
use core_wallet.Prelude.Ints.{ℤ}
use core_wallet.Errors.{GoError, nil, of_domain, new_error}
use core_wallet.Errors.Codes
use core_wallet.PgErrors.{map_err_if_pg}
use core_wallet.Eod.{atoi}
use core_wallet.Relay.{to_int}
use core_wallet.Posting.{Result, ok, fail}
use core_wallet.Handlers.{Response, respond}
use core_wallet.Handlers.Decisions.{with_id}
use core_wallet.Pages.Restraints.{RestraintView, RestraintViewResponse, restraint_view_resp}
use core_wallet.Pages.Journals.{
  ManualJeView, ManualJeLineView, ManualJeViewResponse, manual_je_view,
}

pub data Row (V : Type 0) : Type 0 where
  found : V → Row V
  no_rows : Row V
  broken : GoError → Row V

-- The two ends of a failed read: `pgx.ErrNoRows`, and any other error.
abbrev read : {V : Type 0} → GoError → Row V → Result V
read missing (found v) = ok v
read missing no_rows = fail missing
read missing (broken e) = fail (map_err_if_pg e)

-- `GetRestraint` of the repository, on what the read pool answers for an id.
unfoldable pub repo_restraint : (ℤ → Row RestraintView) → ℤ → Result RestraintView
repo_restraint rows id =
    read (of_domain (new_error Codes.acct_not_found 404 "restraint not found" nil)) (rows id)

abbrev with_lines : Result ManualJeView → GoError × List ManualJeLineView → Result ManualJeView
with_lines (fail e) lines = fail e
with_lines (ok v) (nil, lines) = ok (record v { lines = lines })
with_lines (ok v) (e, lines) = fail (map_err_if_pg e)

-- `GetManualJE` of the repository, on what the pool answers for the header and for the lines, with the
-- error of the second query, `nil` for none.
unfoldable pub repo_manual_je :
    (ℤ → Row ManualJeView) → (ℤ → GoError × List ManualJeLineView) → ℤ → Result ManualJeView
repo_manual_je headers lines id =
    with_lines
      (read (of_domain (new_error Codes.mje_not_found 404 "manual journal entry not found" nil))
        (headers id))
      (lines id)

module _ (date : ℕ → String) (now : String) where
  -- `GetRestraint` of the handler; the service passes the call on.
  unfoldable pub get_restraint : (ℤ → Row RestraintView) → String → Response RestraintViewResponse
  unfolding with_id
  get_restraint rows id =
      (with_id now "invalid restraint id (numeric)" (to_int (atoi id))
        (λ id none_left.
          respond (λ _. 200) (restraint_view_resp date) now (repo_restraint rows id, none_left))
        (tt {0})).0

module _ (date time : ℕ → String) (now : String) where
  -- `GetManualJE` of the handler; the service passes the call on.
  unfoldable pub get_manual_je :
      (ℤ → Row ManualJeView)
      → (ℤ → GoError × List ManualJeLineView)
      → String
      → Response ManualJeViewResponse
  unfolding with_id
  get_manual_je headers lines id =
      (with_id now "invalid je_id (numeric)" (to_int (atoi id))
        (λ id none_left.
          respond (λ _. 200) (manual_je_view date time) now
            (repo_manual_je headers lines id, none_left))
        (tt {0})).0
