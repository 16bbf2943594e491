-- ===== src/Handlers/Decided.antt =====
-- http/handler/manual_je.go: the response of a decision on a journal entry.
use core_wallet.Prelude.{String, ℕ, ◌≡◌, refl, true, Option, none, some, List, all, inl, inr, ◌⊎◌}
use core_wallet.Prelude.Ints.{ℤ}
use core_wallet.Eod.{atoi}
use core_wallet.Relay.{to_int}
use core_wallet.Tx.{AuditContext, Driver, Settings}
use core_wallet.Posting.{Value, Procedures, Result, ok, run_procedure}
use core_wallet.Posting.Committed.{Committed, run_procedure-Committed}
use core_wallet.Posting
use core_wallet.Posting.Journals.{
  ManualJeDecisionInput, decision_args, scan_approved, zero_approved, scan_rejected, zero_rejected,
}
use core_wallet.Requests.{Engine, Field, field_passes, bound}
use core_wallet.Requests.Binding.{should_bind_json_bound}
use core_wallet.Requests.Decisions.{
  ManualJeDecisionRequest, ManualJeApproveResponse, ManualJeRejectResponse, Body, empty, present,
  bind_optional, decision_fields, approve_resp_from, reject_resp_from,
}
use core_wallet.Service
use core_wallet.Service.Guards.{passed_on_ok}
use core_wallet.Handlers.{Response, sent, SuccessEnvelope, ok_envelope}
use core_wallet.Handlers.Sent.{respond_sent, on_bound_sent}
use core_wallet.Handlers.Decisions.{with_id, decide_manual_je, approve_manual_je, reject_manual_je}

-- What a body that may be left out says: nothing, or a request that passes its rules.
abbrev Says : {Q : Type 0} → (Q → List Field) → Q → Body Q → Q → Type 0
Says fields zero body req =
    ((body ≡ empty) × (req ≡ zero))
    ⊎ ((body ≡ present (some req)) × (all field_passes (fields req) ≡ true))

bind_optional_bound :
    {Q : Type 0} (engine : Engine) (fields : Q → List Field) (zero : Q) (body : Body Q) (req : Q)
    → bind_optional engine fields zero body ≡ bound req
    → Says fields zero body req
unfolding bind_optional
bind_optional_bound engine fields zero empty req h = inl (refl, cc)
bind_optional_bound engine fields zero (present body) req h =
    let (decoded, passes) = should_bind_json_bound engine fields body req h in inr (cc, passes)

with_id_sent :
    {D B : Type 0} (now wrong : String) (id : Option ℤ) (rest : ℤ → D → Response B × D) (db : D)
    (status : ℕ) (env : SuccessEnvelope B) (db' : D)
    → with_id now wrong id rest db ≡ (sent status env, db')
    → (n : ℤ) × (id ≡ some n) × (rest n db ≡ (sent status env, db'))
unfolding with_id
with_id_sent now wrong none rest db status env db' h = absurd cc
with_id_sent now wrong (some n) rest db status env db' h = (n, refl, h)

module _ {D R B : Type 0} (d : Driver D) (r : Settings) (procs : Procedures D) (now : String)
    (scan : List Value → R → Option R) (zero : R) (audit : AuditContext) (name : String)
    (from : R → B) where
  -- The account of a decision that is answered with an envelope.
  pub record Decided (id : String) (body : Body ManualJeDecisionRequest) (status : ℕ)
      (env : SuccessEnvelope B) (db' : D) : Type 0 where
    pub je_id : ℤ
    pub req : ManualJeDecisionRequest
    pub res : R
    pub numbered : to_int (atoi id) ≡ some je_id
    pub said : Says decision_fields (record { reason = "" }) body req
    pub committed :
        Committed d r procs scan zero audit name
          (decision_args (record { je_id = je_id; reason = req.reason; audit = audit }))
          res
          db'
    pub coded : status ≡ 200
    pub answered : env ≡ ok_envelope (from res) now

  decided :
      (engine : Engine) (action : ManualJeDecisionInput → D → Result R × D) (id : String)
      (body : Body ManualJeDecisionRequest) (db db' : D) (status : ℕ) (env : SuccessEnvelope B)
      → ((inp : ManualJeDecisionInput) (db db' : D) (res : R)
          → action inp db ≡ (ok res, db')
          → run_procedure d r procs scan zero inp.audit name (decision_args inp) db ≡ (ok res, db'))
      → decide_manual_je engine audit now action from id body db ≡ (sent status env, db')
      → Decided id body status env db'
  unfolding decide_manual_je
  decided engine action id body db db' status env calls h =
      let (n, numbered, went) = with_id_sent now _ (to_int (atoi id)) _ db status env db' h in
      let (req, binds, done) = on_bound_sent now _ _ db status env db' went in
      let (res, served, coded, answered) = respond_sent (λ _. 200) from now _ status env db' done in
      record {
        je_id = n;
        req = req;
        res = res;
        numbered = numbered;
        said = bind_optional_bound engine decision_fields _ body req binds;
        committed =
            run_procedure-Committed d r procs scan zero audit name _ res db db'
              (calls (record { je_id = n; reason = req.reason; audit = audit }) db db' res served);
        coded = coded;
        answered = answered;
      }

module _ {D : Type 0} (d : Driver D) (r : Settings) (procs : Procedures D) (engine : Engine)
    (audit : AuditContext) (now : String) where
  -- An approval that is answered with an envelope has a numeric id and a body that is left out or
  -- passes its rules; `approve_manual_je` was called with the id, the actor of the audit context as
  -- the checker and the reason, NULL for an empty one, in a transaction that committed, and the body
  -- of the response is that of the row, with status 200.
  pub approve_manual_je-Decided :
      (id : String) (body : Body ManualJeDecisionRequest) (db db' : D) (status : ℕ)
      (env : SuccessEnvelope ManualJeApproveResponse)
      → approve_manual_je d r procs engine audit now id body db ≡ (sent status env, db')
      → Decided d r procs now scan_approved zero_approved audit "approve_manual_je"
          approve_resp_from id body status env db'
  unfolding approve_manual_je Service.Decisions.approve_manual_je Posting.Journals.approve_manual_je
  approve_manual_je-Decided id body db db' status env h =
      decided d r procs now scan_approved zero_approved audit "approve_manual_je" approve_resp_from
        engine (Service.Decisions.approve_manual_je d r procs) id body db db' status env
        (λ inp db db' res e. passed_on_ok _ res db' e) h

  -- A rejection likewise, by `reject_manual_je`.
  reject_manual_je-Decided :
      (id : String) (body : Body ManualJeDecisionRequest) (db db' : D) (status : ℕ)
      (env : SuccessEnvelope ManualJeRejectResponse)
      → reject_manual_je d r procs engine audit now id body db ≡ (sent status env, db')
      → Decided d r procs now scan_rejected zero_rejected audit "reject_manual_je" reject_resp_from
          id body status env db'
  unfolding reject_manual_je Service.Decisions.reject_manual_je Posting.Journals.reject_manual_je
  reject_manual_je-Decided id body db db' status env h =
      decided d r procs now scan_rejected zero_rejected audit "reject_manual_je" reject_resp_from
        engine (Service.Decisions.reject_manual_je d r procs) id body db db' status env
        (λ inp db db' res e. passed_on_ok _ res db' e) h
