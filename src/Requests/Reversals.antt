-- ===== src/Requests/Reversals.antt =====
-- services/wallet-service/internal/http/dto: reversal.go, fee.go, and the deposit of group.go.
use core_wallet.Prelude.{String, ℕ, Bool, Option, List, [], ◌∷◌}
use core_wallet.Posting.Metadata.{Meta}
use core_wallet.Posting.Reversals.{
  TransferReversalResult, TopupReversalResult, MerchantWithdrawReversalResult,
}
use core_wallet.Posting.Fees.{FeeChargeResult, FeeChargeReversalResult, MerchantDepositResult}
use core_wallet.Requests.{
  Rule, required, omitempty, money, acct_no, min_len, max_len, one_of, Field,
}
use core_wallet.Requests.Finance.{shown_uuid}

-- The `oneof` of the initiators.
abbrev pub initiator_rules : List Rule
initiator_rules = omitempty ∷ one_of ("OPS_MANUAL" ∷ "FRAUD" ∷ "DISPUTE" ∷ "SYSTEM" ∷ []) ∷ []

pub record TransferReversalRequest : Type 0 where
  pub reference : String
  pub reason : String
  pub initiator : String

unfoldable pub transfer_reversal_fields : TransferReversalRequest → List Field
transfer_reversal_fields req =
    (record {
      name = "Reference";
      value = req.reference;
      rules = required ∷ min_len 8 ∷ max_len 64 ∷ [];
    })
    ∷ (record {
      name = "Reason";
      value = req.reason;
      rules = required ∷ min_len 3 ∷ max_len 500 ∷ [];
    })
    ∷ (record { name = "Initiator"; value = req.initiator; rules = initiator_rules })
    ∷ []

pub record TransferReversalResponse : Type 0 where
  pub reversal_tran_key : ℕ
  pub was_already_reversed : Bool
  pub new_balance_from : String
  pub new_balance_to : String
  pub event_uuid : String

unfoldable pub transfer_reversal_resp_from : TransferReversalResult → TransferReversalResponse
unfolding shown_uuid
transfer_reversal_resp_from r = record {
  reversal_tran_key = r.reversal_tran_key;
  was_already_reversed = r.was_already_reversed;
  new_balance_from = r.new_balance_from;
  new_balance_to = r.new_balance_to;
  event_uuid = shown_uuid r.event_uuid;
}

pub record TopupReversalRequest : Type 0 where
  pub reference : String
  pub reason : String
  pub initiator : String

unfoldable pub topup_reversal_fields : TopupReversalRequest → List Field
topup_reversal_fields req =
    (record {
      name = "Reference";
      value = req.reference;
      rules = required ∷ min_len 8 ∷ max_len 64 ∷ [];
    })
    ∷ (record {
      name = "Reason";
      value = req.reason;
      rules = required ∷ min_len 3 ∷ max_len 500 ∷ [];
    })
    ∷ (record { name = "Initiator"; value = req.initiator; rules = initiator_rules })
    ∷ []

pub record TopupReversalResponse : Type 0 where
  pub reversal_tran_key : ℕ
  pub was_already_reversed : Bool
  pub new_balance : String
  pub event_uuid : String

unfoldable pub topup_reversal_resp_from : TopupReversalResult → TopupReversalResponse
unfolding shown_uuid
topup_reversal_resp_from r = record {
  reversal_tran_key = r.reversal_tran_key;
  was_already_reversed = r.was_already_reversed;
  new_balance = r.new_balance;
  event_uuid = shown_uuid r.event_uuid;
}

pub record MerchantWithdrawReversalRequest : Type 0 where
  pub reference : String
  pub fail_code : String
  pub fail_reason : String
  pub initiator : String

unfoldable pub merchant_withdraw_reversal_fields : MerchantWithdrawReversalRequest → List Field
merchant_withdraw_reversal_fields req =
    (record {
      name = "Reference";
      value = req.reference;
      rules = required ∷ min_len 8 ∷ max_len 64 ∷ [];
    })
    ∷ (record {
      name = "FailCode";
      value = req.fail_code;
      rules = required ∷ min_len 3 ∷ max_len 64 ∷ [];
    })
    ∷ (record {
      name = "FailReason";
      value = req.fail_reason;
      rules = required ∷ min_len 3 ∷ max_len 500 ∷ [];
    })
    ∷ (record { name = "Initiator"; value = req.initiator; rules = initiator_rules })
    ∷ []

pub record MerchantWithdrawReversalResponse : Type 0 where
  pub reversal_tran_key : ℕ
  pub was_already_reversed : Bool
  pub settlement_balance_after : String
  pub event_uuid : String

unfoldable pub merchant_withdraw_reversal_resp_from :
    MerchantWithdrawReversalResult → MerchantWithdrawReversalResponse
unfolding shown_uuid
merchant_withdraw_reversal_resp_from r = record {
  reversal_tran_key = r.reversal_tran_key;
  was_already_reversed = r.was_already_reversed;
  settlement_balance_after = r.settlement_balance_after;
  event_uuid = shown_uuid r.event_uuid;
}

pub record FeeChargeRequest : Type 0 where
  pub acct_no : String
  pub amount : String
  pub reference : String
  pub fee_code : String
  pub narrative : String
  pub metadata : Option Meta

unfoldable pub fee_charge_fields : FeeChargeRequest → List Field
fee_charge_fields req =
    (record { name = "AcctNo"; value = req.acct_no; rules = required ∷ acct_no ∷ [] })
    ∷ (record { name = "Amount"; value = req.amount; rules = required ∷ money ∷ [] })
    ∷ (record {
      name = "Reference";
      value = req.reference;
      rules = required ∷ min_len 8 ∷ max_len 64 ∷ [];
    })
    ∷ (record {
      name = "FeeCode";
      value = req.fee_code;
      rules = omitempty ∷ min_len 2 ∷ max_len 16 ∷ [];
    })
    ∷ (record { name = "Narrative"; value = req.narrative; rules = omitempty ∷ max_len 250 ∷ [] })
    ∷ []

pub record FeeChargeResponse : Type 0 where
  pub tran_internal_id : ℕ
  pub status : String
  pub fee_gross : String
  pub vat_amount : String
  pub new_balance : String
  pub event_uuid : String

unfoldable pub fee_charge_resp_from : FeeChargeResult → FeeChargeResponse
unfolding shown_uuid
fee_charge_resp_from r = record {
  tran_internal_id = r.tran_internal_id;
  status = r.status;
  fee_gross = r.fee_gross;
  vat_amount = r.vat_amount;
  new_balance = r.new_balance;
  event_uuid = shown_uuid r.event_uuid;
}

pub record FeeChargeReversalRequest : Type 0 where
  pub reference : String
  pub reason : String
  pub initiator : String

unfoldable pub fee_reversal_fields : FeeChargeReversalRequest → List Field
fee_reversal_fields req =
    (record {
      name = "Reference";
      value = req.reference;
      rules = required ∷ min_len 8 ∷ max_len 64 ∷ [];
    })
    ∷ (record {
      name = "Reason";
      value = req.reason;
      rules = required ∷ min_len 3 ∷ max_len 500 ∷ [];
    })
    ∷ (record { name = "Initiator"; value = req.initiator; rules = initiator_rules })
    ∷ []

pub record FeeChargeReversalResponse : Type 0 where
  pub reversal_tran_key : ℕ
  pub was_already_reversed : Bool
  pub new_balance : String
  pub event_uuid : String

unfoldable pub fee_reversal_resp_from : FeeChargeReversalResult → FeeChargeReversalResponse
unfolding shown_uuid
fee_reversal_resp_from r = record {
  reversal_tran_key = r.reversal_tran_key;
  was_already_reversed = r.was_already_reversed;
  new_balance = r.new_balance;
  event_uuid = shown_uuid r.event_uuid;
}

pub record MerchantDepositRequest : Type 0 where
  pub group_id : String
  pub amount : String
  pub reference : String
  pub metadata : Option Meta

unfoldable pub deposit_fields : MerchantDepositRequest → List Field
deposit_fields req =
    (record {
      name = "GroupID";
      value = req.group_id;
      rules = required ∷ min_len 2 ∷ max_len 20 ∷ [];
    })
    ∷ (record { name = "Amount"; value = req.amount; rules = required ∷ money ∷ [] })
    ∷ (record {
      name = "Reference";
      value = req.reference;
      rules = required ∷ min_len 8 ∷ max_len 64 ∷ [];
    })
    ∷ []

pub record MerchantDepositResponse : Type 0 where
  pub tran_internal_id : ℕ
  pub status : String
  pub target_acct_no : String
  pub shard_index : Option ℕ
  pub new_balance : String
  pub event_uuid : String

unfoldable pub deposit_resp_from : MerchantDepositResult → MerchantDepositResponse
unfolding shown_uuid
deposit_resp_from r = record {
  tran_internal_id = r.tran_internal_id;
  status = r.status;
  target_acct_no = r.target_acct_no;
  shard_index = r.shard_index;
  new_balance = r.new_balance;
  event_uuid = shown_uuid r.event_uuid;
}
