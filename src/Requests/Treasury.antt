-- ===== src/Requests/Treasury.antt =====
-- services/wallet-service/internal/http/dto/dto.go: the requests and responses of the treasury callbacks.
use core_wallet.Prelude.{String, ℕ, Bool, List, [], ◌∷◌}
use core_wallet.Errors.Meta.{tx_status_for_mark}
use core_wallet.Posting.Treasury.{ReversalResult, MarkResult}
use core_wallet.Requests.{required, min_len, max_len, one_of, Field}
use core_wallet.Requests.Finance.{shown_uuid}

pub record AckRequest : Type 0 where
  pub treasury_batch_id : String

unfoldable pub ack_fields : AckRequest → List Field
ack_fields req =
    (record {
      name = "TreasuryBatchID";
      value = req.treasury_batch_id;
      rules = required ∷ min_len 4 ∷ max_len 64 ∷ [];
    })
    ∷ []

pub record CompletedRequest : Type 0 where
  pub napas_ref : String

unfoldable pub completed_fields : CompletedRequest → List Field
completed_fields req =
    (record {
      name = "NapasRef";
      value = req.napas_ref;
      rules = required ∷ min_len 4 ∷ max_len 64 ∷ [];
    })
    ∷ []

pub record ReversalRequest : Type 0 where
  pub fail_code : String
  pub fail_reason : String
  pub initiator : String

unfoldable pub reversal_fields : ReversalRequest → List Field
reversal_fields req =
    (record {
      name = "FailCode";
      value = req.fail_code;
      rules =
          required
          ∷ one_of (
              "NAPAS_INSUFFICIENT_FUNDS" ∷ "BENEF_CLOSED" ∷ "NAPAS_TIMEOUT" ∷ "SLA_TIMEOUT"
              ∷ "OPS_MANUAL" ∷ "UNKNOWN" ∷ [])
          ∷ [];
    })
    ∷ (record {
      name = "FailReason";
      value = req.fail_reason;
      rules = required ∷ min_len 4 ∷ max_len 500 ∷ [];
    })
    ∷ (record {
      name = "Initiator";
      value = req.initiator;
      rules = required ∷ one_of ("TREASURY_FAILED" ∷ "SLA_TIMEOUT" ∷ "OPS_MANUAL" ∷ []) ∷ [];
    })
    ∷ []

pub record MarkResponse : Type 0 where
  pub acct_no : String
  pub status : String
  pub transaction_status : String
  pub event_uuid : String

-- `MarkRespFrom`.
unfoldable pub mark_resp_from : MarkResult → MarkResponse
unfolding shown_uuid
mark_resp_from r = record {
  acct_no = r.acct_no;
  status = r.status;
  transaction_status = tx_status_for_mark r.status;
  event_uuid = shown_uuid r.event_uuid;
}

pub record ReversalResponse : Type 0 where
  pub reversal_tran_key : ℕ
  pub was_already_reversed : Bool
  pub event_uuid : String

-- `ReversalRespFrom`.
unfoldable pub reversal_resp_from : ReversalResult → ReversalResponse
unfolding shown_uuid
reversal_resp_from r = record {
  reversal_tran_key = r.reversal_tran_key;
  was_already_reversed = r.was_already_reversed;
  event_uuid = shown_uuid r.event_uuid;
}
