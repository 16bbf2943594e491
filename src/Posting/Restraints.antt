-- ===== src/Posting/Restraints.antt =====
-- repo/restraint.go: AddRestraint and ReleaseRestraint, with their inputs and the result of
-- domain/restraint.go.
use core_wallet.Prelude.{String, ℕ, Option, none, some, List, [], ◌∷◌, str_eq, if◌then◌else◌}
use core_wallet.Prelude.Ints.{ℤ}
use core_wallet.Tx.{AuditContext, Driver, Settings}
use core_wallet.Posting.{Value, text, int, int64, null, Procedures, Result, run_procedure}

pub record RestraintInput : Type 0 where
  pub acct_no : String
  pub restraint_type : String
  pub purpose : String
  pub pledged_amt : String
  pub start_date : String
  pub end_date : String
  pub narrative : String
  pub reference_doc : String
  pub audit : AuditContext

pub record ReleaseRestraintInput : Type 0 where
  pub restraint_id : ℤ
  pub reason : String
  pub audit : AuditContext

pub record RestraintResult : Type 0 where
  pub restraint_id : ℕ
  pub status : String
  pub pledged_amt : String
  pub available_bal_after : String
  pub version : ℕ

-- `nullStr`.
unfoldable pub null_str : String → Value
null_str s = if str_eq s "" then null else text s

-- `nullNumeric`.
unfoldable pub null_numeric : String → Value
null_numeric s = if str_eq s "" then null else text s

-- `nullDate`.
unfoldable pub null_date : String → Value
null_date s = if str_eq s "" then null else text s

-- The scan inside `AddRestraint`.
unfoldable pub scan_added : List Value → RestraintResult → Option RestraintResult
scan_added
      (int restraint_id_column
        ∷ text status_column
        ∷ text pledged_amt_column
        ∷ text available_bal_after_column
        ∷ int version_column
        ∷ [])
      out =
    some (record {
      restraint_id = restraint_id_column;
      status = status_column;
      pledged_amt = pledged_amt_column;
      available_bal_after = available_bal_after_column;
      version = version_column;
    })
scan_added _ out = none

-- The scan inside `ReleaseRestraint`, which leaves the pledged amount.
unfoldable pub scan_released : List Value → RestraintResult → Option RestraintResult
scan_released
      (int restraint_id_column
        ∷ text status_column
        ∷ text available_bal_after_column
        ∷ int version_column
        ∷ [])
      out =
    some (record out {
      restraint_id = restraint_id_column;
      status = status_column;
      available_bal_after = available_bal_after_column;
      version = version_column;
    })
scan_released _ out = none

abbrev pub zero_restraint : RestraintResult
zero_restraint = record {
  restraint_id = 0;
  status = "";
  pledged_amt = "";
  available_bal_after = "";
  version = 0;
}

-- The arguments of `add_restraint` in order.
abbrev pub add_restraint_args : RestraintInput → List Value
add_restraint_args inp =
    text inp.acct_no
    ∷ text inp.restraint_type
    ∷ text inp.purpose
    ∷ null_numeric inp.pledged_amt
    ∷ null_date inp.start_date
    ∷ null_date inp.end_date
    ∷ null_str inp.narrative
    ∷ null_str inp.reference_doc
    ∷ text inp.audit.actor
    ∷ []

-- The arguments of `release_restraint` in order.
abbrev pub release_restraint_args : ReleaseRestraintInput → List Value
release_restraint_args inp =
    int64 inp.restraint_id ∷ null_str inp.reason ∷ text inp.audit.actor ∷ []

module _ {D : Type 0} (d : Driver D) (r : Settings) (procs : Procedures D) where
  unfoldable pub add_restraint : RestraintInput → D → Result RestraintResult × D
  add_restraint inp db =
      run_procedure d r procs scan_added zero_restraint inp.audit "add_restraint"
        (add_restraint_args inp) db

  unfoldable pub release_restraint : ReleaseRestraintInput → D → Result RestraintResult × D
  release_restraint inp db =
      run_procedure d r procs scan_released zero_restraint inp.audit "release_restraint"
        (release_restraint_args inp) db
