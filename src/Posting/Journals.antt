-- ===== src/Posting/Journals.antt =====
-- repo/manual_je.go: CreateManualJE, ApproveManualJE and RejectManualJE, with their inputs and results of
-- domain/manual_je.go.
use core_wallet.Prelude.{String, ℕ, Option, none, some, List, [], ◌∷◌, map, str_eq, if◌then◌else◌}
use core_wallet.Prelude.Ints.{ℤ}
use core_wallet.Errors.{of_domain, invalid_request_error}
use core_wallet.Tx.{AuditContext, Driver, Settings}
use core_wallet.Posting.{Value, text, int, int64, Procedures, Result, ok, fail, run_procedure}
use core_wallet.Posting.Restraints.{null_str, null_date}

pub record ManualJeLine : Type 0 where
  pub gl_code : String
  pub tran_nature : String
  pub amount : String
  pub client_no : String
  pub narrative : String

pub record ManualJeInput : Type 0 where
  pub reference : String
  pub ccy : String
  pub reason : String
  pub narrative : String
  pub accounting_date : String
  pub lines : List ManualJeLine
  pub audit : AuditContext

pub record ManualJeDecisionInput : Type 0 where
  pub je_id : ℤ
  pub reason : String
  pub audit : AuditContext

pub record ManualJeCreateResult : Type 0 where
  pub je_id : ℕ
  pub status : String
  pub total_dr : String
  pub total_cr : String
  pub line_count : ℕ

pub record ManualJeApproveResult : Type 0 where
  pub je_id : ℕ
  pub status : String
  pub gl_tran_key : ℕ
  pub posted_lines : ℕ

pub record ManualJeRejectResult : Type 0 where
  pub je_id : ℕ
  pub status : String

-- `jeLineJSON`, whose empty optional members are left out.
pub record JeLineJson : Type 0 where
  pub gl_code : String
  pub tran_nature : String
  pub amount : String
  pub client_no : Option String
  pub narrative : Option String

abbrev unless_empty : String → Option String
unless_empty s = if str_eq s "" then none else some s

-- The JSON object of a line.
unfoldable pub je_line_json : ManualJeLine → JeLineJson
je_line_json l = record {
  gl_code = l.gl_code;
  tran_nature = l.tran_nature;
  amount = l.amount;
  client_no = unless_empty l.client_no;
  narrative = unless_empty l.narrative;
}

-- The scan inside `CreateManualJE`.
unfoldable pub scan_created : List Value → ManualJeCreateResult → Option ManualJeCreateResult
scan_created
      (int je_id_column
        ∷ text status_column
        ∷ text total_dr_column
        ∷ text total_cr_column
        ∷ int line_count_column
        ∷ [])
      out =
    some (record {
      je_id = je_id_column;
      status = status_column;
      total_dr = total_dr_column;
      total_cr = total_cr_column;
      line_count = line_count_column;
    })
scan_created _ out = none

abbrev pub zero_created : ManualJeCreateResult
zero_created = record { je_id = 0; status = ""; total_dr = ""; total_cr = ""; line_count = 0 }

-- The scan inside `ApproveManualJE`.
unfoldable pub scan_approved : List Value → ManualJeApproveResult → Option ManualJeApproveResult
scan_approved
      (int je_id_column
        ∷ text status_column
        ∷ int gl_tran_key_column
        ∷ int posted_lines_column
        ∷ [])
      out =
    some (record {
      je_id = je_id_column;
      status = status_column;
      gl_tran_key = gl_tran_key_column;
      posted_lines = posted_lines_column;
    })
scan_approved _ out = none

abbrev pub zero_approved : ManualJeApproveResult
zero_approved = record { je_id = 0; status = ""; gl_tran_key = 0; posted_lines = 0 }

-- The scan inside `RejectManualJE`.
unfoldable pub scan_rejected : List Value → ManualJeRejectResult → Option ManualJeRejectResult
scan_rejected (int je_id_column ∷ text status_column ∷ []) out =
    some (record { je_id = je_id_column; status = status_column })
scan_rejected _ out = none

abbrev pub zero_rejected : ManualJeRejectResult
zero_rejected = record { je_id = 0; status = "" }

-- The arguments of `create_manual_je` in order.
abbrev pub create_manual_je_args : ManualJeInput → String → List Value
create_manual_je_args inp json =
    text inp.reference
    ∷ text inp.ccy
    ∷ text inp.reason
    ∷ text json
    ∷ null_str inp.narrative
    ∷ null_date inp.accounting_date
    ∷ text inp.audit.actor
    ∷ []

-- The arguments of `approve_manual_je` and of `reject_manual_je` in order.
abbrev pub decision_args : ManualJeDecisionInput → List Value
decision_args inp = int64 inp.je_id ∷ text inp.audit.actor ∷ null_str inp.reason ∷ []

-- The error of lines that are not serialised.
abbrev with_lines : {D R : Type 0} → Result String → (String → D → Result R × D) → D → Result R × D
with_lines (ok json) run db = run json db
with_lines (fail e) run db =
    (fail (of_domain (invalid_request_error "journal lines not serialisable" e)), db)

module _ {D : Type 0} (d : Driver D) (r : Settings) (procs : Procedures D)
    (marshal : List JeLineJson → Result String) where
  unfoldable pub create_manual_je : ManualJeInput → D → Result ManualJeCreateResult × D
  create_manual_je inp db =
      with_lines (marshal (map je_line_json inp.lines))
        (λ json.
          run_procedure d r procs scan_created zero_created inp.audit "create_manual_je"
            (create_manual_je_args inp json))
        db

module _ {D : Type 0} (d : Driver D) (r : Settings) (procs : Procedures D) where
  unfoldable pub approve_manual_je : ManualJeDecisionInput → D → Result ManualJeApproveResult × D
  approve_manual_je inp db =
      run_procedure d r procs scan_approved zero_approved inp.audit "approve_manual_je"
        (decision_args inp) db

  unfoldable pub reject_manual_je : ManualJeDecisionInput → D → Result ManualJeRejectResult × D
  reject_manual_je inp db =
      run_procedure d r procs scan_rejected zero_rejected inp.audit "reject_manual_je"
        (decision_args inp) db
