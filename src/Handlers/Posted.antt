-- ===== src/Handlers/Posted.antt =====
-- handler.go: what a response of a posting says of the request and of the database.
use core_wallet.Prelude.{
  map, ◌≢◌, [], ℕ, String, ◌≡◌, refl, true, Option, some, List, all, false, map, ◌≢◌,
}
use core_wallet.Tx.{AuditContext, Driver, Settings}
use core_wallet.Posting.{Value, Procedures, Result, ok, fail, run_procedure}
use core_wallet.Posting.Metadata.{Meta, with_narrative}
use core_wallet.Posting.Committed.{Committed, run_procedure-Committed}
use core_wallet.Posting.Finance
use core_wallet.Posting.Finance.{scan_transfer_result, transfer_args, with_json}
use core_wallet.Posting.Types.{zero_transfer}
use core_wallet.Requests.{Engine, Field, field_passes, should_bind_json, field_error}
use core_wallet.Requests.Finance.{
  TransferRequest, transfer_fields, TransferResponse, transfer_resp_from,
}
use core_wallet.Problem.{ProblemDetails}
use core_wallet.Requests.Binding.{
  should_bind_json_bound, should_bind_json_invalid, problem_status, problem_errors,
}
use core_wallet.Service
use core_wallet.Service.Guards.{transfer_ok}
use core_wallet.Handlers.{
  sent, SuccessEnvelope, ok_envelope, status_for, respond, on_bound, ProblemDetails, refused,
  validation_problem,
}
use core_wallet.Handlers.Sent.{respond_sent, on_bound_sent}
use core_wallet.Handlers.Finance.{transfer_input, transfer}

with_json_ok :
    {D R : Type 0} (m : Result String) (run : String → D → Result R × D) (db db' : D) (res : R)
    → with_json m run db ≡ (ok res, db')
    → (json : String) × (m ≡ ok json) × (run json db ≡ (ok res, db'))
unfolding with_json
with_json_ok (ok json) run db db' res h = (json, refl, h)
with_json_ok (fail e) run db db' res h = absurd cc

module _ {D Q R B : Type 0} (d : Driver D) (r : Settings) (procs : Procedures D)
    (marshal : Meta → Result String) (audit : AuditContext) (now : String) (fields : Q → List Field)
    (meta : Q → Meta) (scan : List Value → R → Option R) (zero : R) (name : String)
    (args : Q → String → List Value) (code : R → ℕ) (from : R → B) where
  -- The account of a response with an envelope: the request passes the rules of its fields, its
  -- metadata was serialised, the procedure was called with its arguments in a transaction that
  -- committed, and the response is made of the row that the call answered.
  pub record Posted (body : Option Q) (status : ℕ) (env : SuccessEnvelope B) (db' : D)
      : Type 0 where
    pub req : Q
    pub json : String
    pub res : R
    pub decoded : body ≡ some req
    pub passes : all field_passes (fields req) ≡ true
    pub serialised : marshal (meta req) ≡ ok json
    pub committed : Committed d r procs scan zero audit name (args req json) res db'
    pub coded : status ≡ code res
    pub answered : env ≡ ok_envelope (from res) now

  -- A service that returns a result only from the serialised call.
  abbrev Calls : (Q → D → Result R × D) → Type 0
  Calls service =
      (req : Q) (db db' : D) (res : R)
      → service req db ≡ (ok res, db')
      → with_json (marshal (meta req))
          (λ json. run_procedure d r procs scan zero audit name (args req json)) db
        ≡ (ok res, db')

  handled :
      (engine : Engine) (service : Q → D → Result R × D) (body : Option Q) (db db' : D) (status : ℕ)
      (env : SuccessEnvelope B)
      → Calls service
      → on_bound now
          (should_bind_json engine fields body)
          (λ req db. respond code from now (service req db))
          db
        ≡ (sent status env, db')
      → Posted body status env db'
  handled engine service body db db' status env calls h =
      let (req, binds, went) = on_bound_sent now _ _ db status env db' h in
      let (decoded, passes) = should_bind_json_bound engine fields body req binds in
      let (res, served, coded, answered) = respond_sent code from now _ status env db' went in
      let (json, serialised, ran) =
        with_json_ok (marshal (meta req)) _ db db' res (calls req db db' res served) in
      record {
        req = req;
        json = json;
        res = res;
        decoded = decoded;
        passes = passes;
        serialised = serialised;
        committed =
            run_procedure-Committed d r procs scan zero audit name (args req json) res db db' ran;
        coded = coded;
        answered = answered;
      }

module _ {D : Type 0} (d : Driver D) (r : Settings) (procs : Procedures D)
    (marshal : Meta → Result String) (engine : Engine) (audit : AuditContext) (now : String) where
  -- A transfer that is answered with an envelope has a body that passes the rules of its fields,
  -- among them that the two accounts differ; `post_transfer` was called with its arguments in a
  -- transaction that committed, and the body and the status of the response are those of the row.
  pub transfer-Posted :
      (body : Option TransferRequest) (db db' : D) (status : ℕ)
      (env : SuccessEnvelope TransferResponse)
      → transfer d r procs marshal engine audit now body db ≡ (sent status env, db')
      → Posted d r procs marshal audit now transfer_fields
          (λ req. with_narrative req.metadata req.narrative)
          scan_transfer_result
          zero_transfer
          "post_transfer"
          (λ req json. transfer_args (transfer_input req audit) json)
          (λ res. status_for res.status)
          transfer_resp_from
          body
          status
          env
          db'
  unfolding transfer Finance.transfer
  transfer-Posted body db db' status env h =
      handled d r procs marshal audit now transfer_fields _ scan_transfer_result zero_transfer _ _ _
        _ engine (λ req. Service.transfer d r procs marshal (transfer_input req audit)) body db db'
        status env
        (λ req db db' res e.
          (transfer_ok d r procs marshal (transfer_input req audit) db db' res e).1)
        h

  -- A transfer whose body breaks a rule is refused with status 400 and the errors of the engine, at
  -- least one, and the database is not touched.
  pub transfer_invalid :
      (req : TransferRequest) (db : D)
      → all field_passes (transfer_fields req) ≡ false
      → (p : ProblemDetails) × (transfer d r procs marshal engine audit now (some req) db
          ≡ (refused p, db))
        × (p.status ≡ 400)
        × (p.errors ≡ map field_error (engine.validate (transfer_fields req)))
        × (engine.validate (transfer_fields req) ≢ [])
  unfolding transfer on_bound
  transfer_invalid req db h =
      let (named, unbound) = should_bind_json_invalid engine transfer_fields req h in
      let errors = engine.validate (transfer_fields req) in
      (
        validation_problem errors now,
        rw (unbound) refl,
        problem_status errors now,
        problem_errors errors now,
        named,
      )
