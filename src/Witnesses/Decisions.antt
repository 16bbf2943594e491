-- ===== src/Witnesses/Decisions.antt =====
-- Concrete decisions on a journal entry (http/handler/manual_je.go): an approval of entry 12.
use core_wallet.Prelude.{ℕ, ◌+◌, ◌≡◌, ◌≢◌, refl, some, [], ◌∷◌}
use core_wallet.Errors.{GoError, nil, other}
use core_wallet.Posting.{Value, text, int, Answer, row, failed, Procedures}
use core_wallet.Posting.Journals.{scan_approved, zero_approved}
use core_wallet.Requests.Decisions.{
  ManualJeDecisionRequest, ManualJeApproveResponse, Body, empty, present, approve_resp_from,
}
use core_wallet.Handlers.{sent, SuccessEnvelope, ok_envelope}
use core_wallet.Handlers.Decisions.{approve_manual_je}
use core_wallet.Handlers.Decided.{Decided, approve_manual_je-Decided}
use core_wallet.Witnesses.Payments.{driver, settings, engine, audit, text_not_nil}

abbrev approved_row : Answer
approved_row = row (int 12 ∷ text "POSTED" ∷ int 900 ∷ int 2 ∷ [])

approved_not_failed :
    (db db' : ℕ) (e : GoError)
    → ◌≡◌ {A = Answer × ℕ} (approved_row, db + 1) (failed e, db')
    → e ≢ nil
approved_not_failed db db' e h = absurd cc

abbrev approving : Procedures ℕ
approving = record {
  call = λ name args db. (approved_row, db + 1);
  scan_error = λ vs. other "scan";
  call_fails = λ name args db db' e h. approved_not_failed db db' e h;
  scan_fails = text_not_nil;
}

abbrev note : Body ManualJeDecisionRequest
note = present (some (record { reason = "checked" }))

abbrev approved : SuccessEnvelope ManualJeApproveResponse
approved = record {
  error_code = "00000";
  error_message = "Success!";
  payload = record { je_id = 12; status = "POSTED"; gl_tran_key = 900; posted_lines = 2 };
  timestamp = "now";
}

approved_run :
    approve_manual_je driver settings approving engine audit "now" "12" note 7
    ≡ (sent 200 approved, 8)
unfolding core_wallet.Handlers.on_bound core_wallet.Handlers.respond
    core_wallet.Requests.should_bind_json core_wallet.Requests.passes core_wallet.Requests.satisfies
    core_wallet.Posting.run_procedure core_wallet.Posting.lift_driver core_wallet.Posting.query
    core_wallet.Tx.with_tx core_wallet.Tx.attempts core_wallet.Tx.run_tx core_wallet.Tx.on_ok
    core_wallet.Tx.is_conflict core_wallet.Errors.as_domain ok_envelope approve_resp_from
    approve_manual_je core_wallet.Service.Decisions.approve_manual_je
    core_wallet.Posting.Journals.approve_manual_je scan_approved
    core_wallet.Handlers.Decisions.with_id core_wallet.Handlers.Decisions.decide_manual_je
    core_wallet.Requests.Decisions.bind_optional core_wallet.Requests.Decisions.decision_fields
    core_wallet.Relay.to_int core_wallet.Eod.atoi
approved_run = refl

approve_manual_je-Decided_example :
    Decided driver settings approving "now" scan_approved zero_approved audit "approve_manual_je"
      approve_resp_from "12" note 200 approved 8
approve_manual_je-Decided_example =
    approve_manual_je-Decided driver settings approving engine audit "now" "12" note 7 8 200
      approved approved_run
