-- ===== src/Handlers/Treasury.antt =====
-- handler.go: MarkAcked, MarkDisbursing, MarkCompleted and Reverse. `ref` is the path parameter.
use core_wallet.Prelude.{String, Option}
use core_wallet.Tx.{AuditContext, Driver, Settings}
use core_wallet.Posting.{Procedures}
use core_wallet.Requests.{Engine, should_bind_json}
use core_wallet.Requests.Treasury.{
  AckRequest, CompletedRequest, ReversalRequest, ack_fields, completed_fields, reversal_fields,
  MarkResponse, ReversalResponse, mark_resp_from, reversal_resp_from,
}
use core_wallet.Service
use core_wallet.Handlers.{Response, respond, on_bound}

module _ {D : Type 0} (d : Driver D) (r : Settings) (procs : Procedures D) (engine : Engine)
    (audit : AuditContext) (now : String) (ref : String) where
  unfoldable pub mark_acked : Option AckRequest → D → Response MarkResponse × D
  mark_acked body db =
      on_bound now (should_bind_json engine ack_fields body)
        (λ req db.
          respond (λ _. 200) mark_resp_from now
            (Service.mark_acked d r procs
              (record {
                ext_payout_ref = ref;
                treasury_batch_id = req.treasury_batch_id;
                audit = audit;
              })
              db))
        db

  unfoldable pub mark_completed : Option CompletedRequest → D → Response MarkResponse × D
  mark_completed body db =
      on_bound now (should_bind_json engine completed_fields body)
        (λ req db.
          respond (λ _. 200) mark_resp_from now
            (Service.mark_completed d r procs
              (record { ext_payout_ref = ref; napas_ref = req.napas_ref; audit = audit }) db))
        db

  unfoldable pub reverse : Option ReversalRequest → D → Response ReversalResponse × D
  reverse body db =
      on_bound now (should_bind_json engine reversal_fields body)
        (λ req db.
          respond (λ _. 200) reversal_resp_from now
            (Service.reverse d r procs
              (record {
                ext_payout_ref = ref;
                fail_code = req.fail_code;
                fail_reason = req.fail_reason;
                initiator = req.initiator;
                audit = audit;
              })
              db))
        db

module _ {D : Type 0} (d : Driver D) (r : Settings) (procs : Procedures D) (audit : AuditContext)
    (now : String) (ref : String) where
  -- `MarkDisbursing`, which reads no body.
  unfoldable pub mark_disbursing : D → Response MarkResponse × D
  mark_disbursing db =
      respond (λ _. 200) mark_resp_from now
        (Service.mark_disbursing d r procs (record { ext_payout_ref = ref; audit = audit }) db)
