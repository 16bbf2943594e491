-- ===== src/Posting/Treasury.antt =====
-- repo/postgres.go, the callbacks of the treasury: Reverse, MarkAcked, MarkDisbursing and
-- MarkCompleted with markGeneric, and their inputs and results of domain/types.go.
use core_wallet.Prelude.{◌>>=◌, String, ℕ, Bool, false, Option, none, some, List, [], ◌∷◌}
use core_wallet.Tx.{AuditContext, Driver, Settings}
use core_wallet.Posting.{Value, text, int, flag, Procedures, Result, run_procedure}
use core_wallet.Posting.Finance.{text_or_kept}
use core_wallet.Posting.Types.{zero_uuid}

pub record ReversalInput : Type 0 where
  pub ext_payout_ref : String
  pub fail_code : String
  pub fail_reason : String
  pub initiator : String
  pub audit : AuditContext

pub record AckInput : Type 0 where
  pub ext_payout_ref : String
  pub treasury_batch_id : String
  pub audit : AuditContext

pub record DisbursingInput : Type 0 where
  pub ext_payout_ref : String
  pub audit : AuditContext

pub record CompletedInput : Type 0 where
  pub ext_payout_ref : String
  pub napas_ref : String
  pub audit : AuditContext

pub record ReversalResult : Type 0 where
  pub reversal_tran_key : ℕ
  pub was_already_reversed : Bool
  pub event_uuid : String

pub record MarkResult : Type 0 where
  pub acct_no : String
  pub status : String
  pub event_uuid : String

abbrev pub zero_reversal : ReversalResult
zero_reversal = record {
  reversal_tran_key = 0;
  was_already_reversed = false;
  event_uuid = zero_uuid;
}

abbrev pub zero_mark : MarkResult
zero_mark = record { acct_no = ""; status = ""; event_uuid = zero_uuid }

-- The scan inside `Reverse`.
unfoldable pub scan_reversal : List Value → ReversalResult → Option ReversalResult
unfolding text_or_kept
scan_reversal (int key ∷ flag again ∷ uuid ∷ []) out = do
  event ← text_or_kept uuid out.event_uuid
  some (record { reversal_tran_key = key; was_already_reversed = again; event_uuid = event })
scan_reversal _ out = none

-- `scanMarkResult`, into a result of its own, which replaces what `out` was.
unfoldable pub scan_mark_result : List Value → MarkResult → Option MarkResult
unfolding text_or_kept
scan_mark_result (text acct ∷ text status ∷ uuid ∷ []) out = do
  event ← text_or_kept uuid zero_uuid
  some (record { acct_no = acct; status = status; event_uuid = event })
scan_mark_result _ out = none

module _ {D : Type 0} (d : Driver D) (r : Settings) (procs : Procedures D) where
  unfoldable pub reverse : ReversalInput → D → Result ReversalResult × D
  reverse inp db =
      run_procedure d r procs scan_reversal zero_reversal inp.audit "post_withdraw_reversal"
        (text inp.ext_payout_ref
          ∷ text inp.fail_code
          ∷ text inp.fail_reason
          ∷ text inp.initiator
          ∷ text inp.audit.channel
          ∷ text inp.audit.actor
          ∷ [])
        db

  -- `markGeneric`.
  unfoldable pub mark_generic : AuditContext → String → List Value → D → Result MarkResult × D
  mark_generic audit name args db =
      run_procedure d r procs scan_mark_result zero_mark audit name args db

  unfoldable pub mark_acked : AckInput → D → Result MarkResult × D
  mark_acked inp db =
      mark_generic inp.audit "mark_withdraw_acked"
        (text inp.ext_payout_ref
          ∷ text inp.treasury_batch_id
          ∷ text inp.audit.channel
          ∷ text inp.audit.actor
          ∷ [])
        db

  unfoldable pub mark_disbursing : DisbursingInput → D → Result MarkResult × D
  mark_disbursing inp db =
      mark_generic inp.audit "mark_withdraw_disbursing"
        (text inp.ext_payout_ref ∷ text inp.audit.channel ∷ text inp.audit.actor ∷ []) db

  unfoldable pub mark_completed : CompletedInput → D → Result MarkResult × D
  mark_completed inp db =
      mark_generic inp.audit "mark_withdraw_completed"
        (text inp.ext_payout_ref
          ∷ text inp.napas_ref
          ∷ text inp.audit.channel
          ∷ text inp.audit.actor
          ∷ [])
        db
