-- ===== src/Handlers/Decisions.antt =====
-- http/handler: AddRestraint and ReleaseRestraint of restraint.go, ApproveManualJE and RejectManualJE of
-- manual_je.go with decideManualJE. The id is the path parameter.
use core_wallet.Prelude.{String, Bool, Option, none, some}
use core_wallet.Prelude.Ints.{ℤ}
use core_wallet.Errors.{nil, of_domain, invalid_request_error}
use core_wallet.Eod.{atoi}
use core_wallet.Relay.{to_int}
use core_wallet.Problem.{render_error}
use core_wallet.Tx.{AuditContext, Driver, Settings}
use core_wallet.Posting.{Procedures, Result}
use core_wallet.Posting.Restraints.{RestraintInput}
use core_wallet.Posting.Journals.{ManualJeDecisionInput}
use core_wallet.Requests.{Engine, should_bind_json}
use core_wallet.Requests.Decisions.{
  AddRestraintRequest, ReleaseRestraintRequest, RestraintResponse, ManualJeDecisionRequest,
  ManualJeApproveResponse, ManualJeRejectResponse, Body, bind_optional, add_restraint_fields,
  release_restraint_fields, decision_fields, restraint_resp_from, approve_resp_from,
  reject_resp_from,
}
use core_wallet.Service.Decisions
use core_wallet.Handlers.{Response, refused, respond, on_bound}

abbrev pub add_restraint_input : AddRestraintRequest → AuditContext → RestraintInput
add_restraint_input req audit = record {
  acct_no = req.acct_no;
  restraint_type = req.restraint_type;
  purpose = req.restraint_purpose;
  pledged_amt = req.pledged_amt;
  start_date = req.start_date;
  end_date = req.end_date;
  narrative = req.narrative;
  reference_doc = req.reference_doc;
  audit = audit;
}

module _ {D B : Type 0} (now : String) where
  -- `strconv.ParseInt` of the path parameter, or its refusal.
  unfoldable pub with_id : String → Option ℤ → (ℤ → D → Response B × D) → D → Response B × D
  with_id wrong none rest db =
      (refused (render_error (of_domain (invalid_request_error wrong nil)) now), db)
  with_id wrong (some id) rest db = rest id db

module _ {D : Type 0} (d : Driver D) (r : Settings) (procs : Procedures D) (engine : Engine)
    (audit : AuditContext) (now : String) where
  unfoldable pub add_restraint :
      (String → Bool) → Option AddRestraintRequest → D → Response RestraintResponse × D
  add_restraint is_date body db =
      on_bound now (should_bind_json engine (add_restraint_fields is_date) body)
        (λ req db.
          respond (λ _. 201) restraint_resp_from now
            (Decisions.add_restraint d r procs (add_restraint_input req audit) db))
        db

  unfoldable pub release_restraint :
      String → Body ReleaseRestraintRequest → D → Response RestraintResponse × D
  release_restraint id body db =
      with_id now "invalid restraint id (numeric)" (to_int (atoi id))
        (λ id db.
          on_bound now (bind_optional engine release_restraint_fields (record { reason = "" }) body)
            (λ req db.
              respond (λ _. 200) restraint_resp_from now
                (Decisions.release_restraint d r procs
                  (record { restraint_id = id; reason = req.reason; audit = audit }) db))
            db)
        db

module _ {D R B : Type 0} (engine : Engine) (audit : AuditContext) (now : String) where
  -- `decideManualJE`, with the service's method and the response of its result.
  unfoldable pub decide_manual_je :
      (ManualJeDecisionInput → D → Result R × D)
      → (R → B)
      → String
      → Body ManualJeDecisionRequest
      → D
      → Response B × D
  decide_manual_je action from id body db =
      with_id now "invalid je_id (numeric)" (to_int (atoi id))
        (λ id db.
          on_bound now (bind_optional engine decision_fields (record { reason = "" }) body)
            (λ req db.
              respond (λ _. 200) from now
                (action (record { je_id = id; reason = req.reason; audit = audit }) db))
            db)
        db

module _ {D : Type 0} (d : Driver D) (r : Settings) (procs : Procedures D) (engine : Engine)
    (audit : AuditContext) (now : String) where
  unfoldable pub approve_manual_je :
      String → Body ManualJeDecisionRequest → D → Response ManualJeApproveResponse × D
  unfolding decide_manual_je
  approve_manual_je =
      decide_manual_je engine audit now (Decisions.approve_manual_je d r procs) approve_resp_from

  unfoldable pub reject_manual_je :
      String → Body ManualJeDecisionRequest → D → Response ManualJeRejectResponse × D
  unfolding decide_manual_je
  reject_manual_je =
      decide_manual_je engine audit now (Decisions.reject_manual_je d r procs) reject_resp_from
