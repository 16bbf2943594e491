-- ===== src/Witnesses/Reversals.antt =====
-- A concrete reversal of a transfer (http/handler/reversal.go).
use core_wallet.Prelude.{ℕ, ◌+◌, ◌≡◌, ◌≢◌, refl, false, some, [], ◌∷◌}
use core_wallet.Errors.{pg, GoError, nil, other}
use core_wallet.Tx.{AuditContext, Driver, Settings}
use core_wallet.Posting.{null, flag, Value, text, int, Answer, row, failed, Procedures, Result, ok}
use core_wallet.Requests.{Engine, Field, field_passes, field_error}
use core_wallet.Requests.Finance.{
  TransferRequest, TransferResponse, transfer_fields, transfer_resp_from,
}
use core_wallet.Handlers.{Response, sent, refused, SuccessEnvelope, ok_envelope, status_for}
use core_wallet.Posting.Reversals.{
  scan_transfer_reversal, zero_transfer_reversal, transfer_reversal_args,
}
use core_wallet.Requests.Reversals.{
  TransferReversalRequest, TransferReversalResponse, transfer_reversal_fields,
  transfer_reversal_resp_from,
}
use core_wallet.Handlers.Reversals.{transfer_reversal_input, reverse_transfer}
use core_wallet.Handlers.Answered.{Answered, reverse_transfer-Answered}
use core_wallet.Witnesses.Payments.{driver, settings, engine, audit, text_not_nil}

abbrev reversed_row : Answer
reversed_row = row (int 43 ∷ flag false ∷ text "1000.00" ∷ text "1000.00" ∷ text "5b2e" ∷ [])

reversed_not_failed :
    (db db' : ℕ) (e : GoError)
    → ◌≡◌ {A = Answer × ℕ} (reversed_row, db + 1) (failed e, db')
    → e ≢ nil
reversed_not_failed db db' e h = absurd cc

abbrev reversing : Procedures ℕ
reversing = record {
  call = λ name args db. (reversed_row, db + 1);
  scan_error = λ vs. other "scan";
  call_fails = λ name args db db' e h. reversed_not_failed db db' e h;
  scan_fails = text_not_nil;
}

abbrev reversal : TransferReversalRequest
reversal = record { reference = "ref-0001"; reason = "wrong payee"; initiator = "" }

abbrev reversed : SuccessEnvelope TransferReversalResponse
reversed = record {
  error_code = "00000";
  error_message = "Success!";
  payload = record {
    reversal_tran_key = 43;
    was_already_reversed = false;
    new_balance_from = "1000.00";
    new_balance_to = "1000.00";
    event_uuid = "5b2e";
  };
  timestamp = "now";
}

reversed_run :
    reverse_transfer driver settings reversing engine audit "now" (some reversal) 7
    ≡ (sent 200 reversed, 8)
unfolding core_wallet.Handlers.on_bound core_wallet.Handlers.respond
    core_wallet.Requests.should_bind_json transfer_reversal_fields core_wallet.Requests.passes
    core_wallet.Requests.satisfies core_wallet.Posting.run_procedure core_wallet.Posting.lift_driver
    core_wallet.Posting.query core_wallet.Tx.with_tx core_wallet.Tx.attempts core_wallet.Tx.run_tx
    core_wallet.Tx.on_ok core_wallet.Tx.is_conflict core_wallet.Errors.as_domain ok_envelope
    transfer_reversal_resp_from reverse_transfer core_wallet.Service.Reversals.reverse_transfer
    core_wallet.Posting.Reversals.reverse_transfer scan_transfer_reversal
    core_wallet.Requests.Finance.shown_uuid
reversed_run = refl

reverse_transfer-Answered_example :
    Answered driver settings reversing "now" transfer_reversal_fields scan_transfer_reversal
      zero_transfer_reversal audit "post_transfer_reversal"
      (λ req. transfer_reversal_args (transfer_reversal_input req audit))
      (λ _. 200)
      transfer_reversal_resp_from
      (some reversal)
      200
      reversed
      8
reverse_transfer-Answered_example =
    reverse_transfer-Answered driver settings reversing engine audit "now" (some reversal) 7 8 200
      reversed reversed_run
