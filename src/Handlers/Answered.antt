-- ===== src/Handlers/Answered.antt =====
-- http/handler: the responses of the reversals and of the treasury callbacks, whose procedures take no
-- metadata.
use core_wallet.Prelude.{ℕ, String, ◌≡◌, true, Option, some, List, all}
use core_wallet.Tx.{AuditContext, Driver, Settings}
use core_wallet.Posting.{Value, Procedures, Result, ok, run_procedure}
use core_wallet.Posting.Committed.{Committed, run_procedure-Committed}
use core_wallet.Requests.{Engine, Field, field_passes, should_bind_json}
use core_wallet.Requests.Binding.{should_bind_json_bound}
use core_wallet.Handlers.{sent, SuccessEnvelope, ok_envelope, respond, on_bound}
use core_wallet.Handlers.Sent.{respond_sent, on_bound_sent}
use core_wallet.Service
use core_wallet.Posting
use core_wallet.Posting.Reversals.{
  scan_transfer_reversal, zero_transfer_reversal, transfer_reversal_args,
}
use core_wallet.Requests.Reversals.{
  TransferReversalRequest, TransferReversalResponse, transfer_reversal_fields,
  transfer_reversal_resp_from,
}
use core_wallet.Handlers.Reversals.{transfer_reversal_input, reverse_transfer}
use core_wallet.Service.Guards.{passed_on_ok}

module _ {D Q R B : Type 0} (d : Driver D) (r : Settings) (procs : Procedures D) (now : String)
    (fields : Q → List Field) (scan : List Value → R → Option R) (zero : R) (audit : AuditContext)
    (name : String) (args : Q → List Value) (code : R → ℕ) (from : R → B) where
  -- The account of a response with an envelope: the request passes the rules of its fields, the
  -- procedure was called with its arguments in a transaction that committed, and the response is
  -- made of the row that the call answered.
  pub record Answered (body : Option Q) (status : ℕ) (env : SuccessEnvelope B) (db' : D)
      : Type 0 where
    pub req : Q
    pub res : R
    pub decoded : body ≡ some req
    pub passes : all field_passes (fields req) ≡ true
    pub committed : Committed d r procs scan zero audit name (args req) res db'
    pub coded : status ≡ code res
    pub answered : env ≡ ok_envelope (from res) now

  handled :
      (engine : Engine) (service : Q → D → Result R × D) (body : Option Q) (db db' : D) (status : ℕ)
      (env : SuccessEnvelope B)
      → ((req : Q) (db db' : D) (res : R)
          → service req db ≡ (ok res, db')
          → run_procedure d r procs scan zero audit name (args req) db ≡ (ok res, db'))
      → on_bound now
          (should_bind_json engine fields body)
          (λ req db. respond code from now (service req db))
          db
        ≡ (sent status env, db')
      → Answered body status env db'
  handled engine service body db db' status env calls h =
      let (req, binds, went) = on_bound_sent now _ _ db status env db' h in
      let (decoded, passes) = should_bind_json_bound engine fields body req binds in
      let (res, served, coded, answered) = respond_sent code from now _ status env db' went in
      record {
        req = req;
        res = res;
        decoded = decoded;
        passes = passes;
        committed =
            run_procedure-Committed d r procs scan zero audit name (args req) res db db'
              (calls req db db' res served);
        coded = coded;
        answered = answered;
      }

module _ {D : Type 0} (d : Driver D) (r : Settings) (procs : Procedures D) (engine : Engine)
    (audit : AuditContext) (now : String) where
  -- A reversal of a transfer that is answered with an envelope has a body that passes the rules of
  -- its fields; `post_transfer_reversal` was called with the reference, the reason and the
  -- initiator, by default OPS_MANUAL, in a transaction that committed, and the body of the response
  -- is that of the row, with status 200.
  pub reverse_transfer-Answered :
      (body : Option TransferReversalRequest) (db db' : D) (status : ℕ)
      (env : SuccessEnvelope TransferReversalResponse)
      → reverse_transfer d r procs engine audit now body db ≡ (sent status env, db')
      → Answered d r procs now transfer_reversal_fields scan_transfer_reversal
          zero_transfer_reversal audit "post_transfer_reversal"
          (λ req. transfer_reversal_args (transfer_reversal_input req audit))
          (λ _. 200)
          transfer_reversal_resp_from
          body
          status
          env
          db'
  unfolding reverse_transfer Service.Reversals.reverse_transfer Posting.Reversals.reverse_transfer
  reverse_transfer-Answered body db db' status env h =
      handled d r procs now transfer_reversal_fields scan_transfer_reversal zero_transfer_reversal
        audit _ _ (λ _. 200) transfer_reversal_resp_from engine
        (λ req. Service.Reversals.reverse_transfer d r procs (transfer_reversal_input req audit))
        body db db' status env (λ req db db' res e. passed_on_ok _ res db' e) h
