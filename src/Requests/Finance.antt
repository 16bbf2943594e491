-- ===== src/Requests/Finance.antt =====
-- services/wallet-service/internal/http/dto/dto.go: the requests and responses of the four postings, with
-- their `binding` tags as rules. `Metadata` and `AutoSweep` carry no rule.
use core_wallet.Prelude.{String, ℕ, Bool, Option, List, [], ◌∷◌, str_eq, if◌then◌else◌}
use core_wallet.Errors.Meta.{settled, accepted_technical, pending}
use core_wallet.Posting.Metadata.{Meta}
use core_wallet.Posting.Types.{
  TopupResult, TransferResult, WithdrawResult, MerchantWithdrawResult, zero_uuid,
}
use core_wallet.Requests.{
  required, omitempty, money, acct_no, min_len, max_len, one_of, ne_field, Field,
}

pub record TopupRequest : Type 0 where
  pub acct_no : String
  pub amount : String
  pub reference : String
  pub narrative : String
  pub metadata : Option Meta

unfoldable pub topup_fields : TopupRequest → List Field
topup_fields req =
    (record { name = "AcctNo"; value = req.acct_no; rules = required ∷ acct_no ∷ [] })
    ∷ (record { name = "Amount"; value = req.amount; rules = required ∷ money ∷ [] })
    ∷ (record {
      name = "Reference";
      value = req.reference;
      rules = required ∷ min_len 8 ∷ max_len 64 ∷ [];
    })
    ∷ (record { name = "Narrative"; value = req.narrative; rules = omitempty ∷ max_len 250 ∷ [] })
    ∷ []

pub record TransferRequest : Type 0 where
  pub from_acct_no : String
  pub to_acct_no : String
  pub amount : String
  pub reference : String
  pub tran_type : String
  pub narrative : String
  pub metadata : Option Meta

unfoldable pub transfer_fields : TransferRequest → List Field
transfer_fields req =
    (record { name = "FromAcctNo"; value = req.from_acct_no; rules = required ∷ acct_no ∷ [] })
    ∷ (record {
      name = "ToAcctNo";
      value = req.to_acct_no;
      rules = required ∷ acct_no ∷ ne_field req.from_acct_no ∷ [];
    })
    ∷ (record { name = "Amount"; value = req.amount; rules = required ∷ money ∷ [] })
    ∷ (record {
      name = "Reference";
      value = req.reference;
      rules = required ∷ min_len 8 ∷ max_len 64 ∷ [];
    })
    ∷ (record {
      name = "TranType";
      value = req.tran_type;
      rules = omitempty ∷ one_of ("TRFOUT" ∷ "TRFOUTF" ∷ []) ∷ [];
    })
    ∷ (record { name = "Narrative"; value = req.narrative; rules = omitempty ∷ max_len 250 ∷ [] })
    ∷ []

pub record WithdrawRequest : Type 0 where
  pub acct_no : String
  pub amount : String
  pub reference : String
  pub ext_payout_ref : String
  pub beneficiary_bank : String
  pub beneficiary_acct : String
  pub narrative : String
  pub metadata : Option Meta

unfoldable pub withdraw_fields : WithdrawRequest → List Field
withdraw_fields req =
    (record { name = "AcctNo"; value = req.acct_no; rules = required ∷ acct_no ∷ [] })
    ∷ (record { name = "Amount"; value = req.amount; rules = required ∷ money ∷ [] })
    ∷ (record {
      name = "Reference";
      value = req.reference;
      rules = required ∷ min_len 8 ∷ max_len 64 ∷ [];
    })
    ∷ (record {
      name = "ExtPayoutRef";
      value = req.ext_payout_ref;
      rules = required ∷ min_len 8 ∷ max_len 64 ∷ [];
    })
    ∷ (record {
      name = "BeneficiaryBank";
      value = req.beneficiary_bank;
      rules = required ∷ min_len 3 ∷ max_len 20 ∷ [];
    })
    ∷ (record {
      name = "BeneficiaryAcct";
      value = req.beneficiary_acct;
      rules = required ∷ min_len 6 ∷ max_len 40 ∷ [];
    })
    ∷ (record { name = "Narrative"; value = req.narrative; rules = omitempty ∷ max_len 250 ∷ [] })
    ∷ []

pub record MerchantWithdrawRequest : Type 0 where
  pub group_id : String
  pub amount : String
  pub reference : String
  pub ext_payout_ref : String
  pub auto_sweep : Option Bool

unfoldable pub merchant_withdraw_fields : MerchantWithdrawRequest → List Field
merchant_withdraw_fields req =
    (record {
      name = "GroupID";
      value = req.group_id;
      rules = required ∷ min_len 2 ∷ max_len 32 ∷ [];
    })
    ∷ (record { name = "Amount"; value = req.amount; rules = required ∷ money ∷ [] })
    ∷ (record {
      name = "Reference";
      value = req.reference;
      rules = required ∷ min_len 8 ∷ max_len 64 ∷ [];
    })
    ∷ (record {
      name = "ExtPayoutRef";
      value = req.ext_payout_ref;
      rules = omitempty ∷ min_len 8 ∷ max_len 64 ∷ [];
    })
    ∷ []

-- A UUID that is left out of a body is the zero one.
unfoldable pub shown_uuid : String → String
shown_uuid uuid = if str_eq uuid zero_uuid then "" else uuid

pub record TopupResponse : Type 0 where
  pub tran_internal_id : ℕ
  pub status : String
  pub transaction_status : String
  pub new_balance : String
  pub event_uuid : String

-- `TopupRespFrom`.
unfoldable pub topup_resp_from : TopupResult → TopupResponse
topup_resp_from r = record {
  tran_internal_id = r.tran_internal_id;
  status = r.status;
  transaction_status = settled;
  new_balance = r.new_balance;
  event_uuid = r.event_uuid;
}

pub record TransferResponse : Type 0 where
  pub tran_internal_id : ℕ
  pub status : String
  pub transaction_status : String
  pub new_balance_from : String
  pub new_balance_to : String
  pub fee_gross : String
  pub vat_amount : String
  pub event_uuid : String

-- `TransferRespFrom`.
unfoldable pub transfer_resp_from : TransferResult → TransferResponse
transfer_resp_from r = record {
  tran_internal_id = r.tran_internal_id;
  status = r.status;
  transaction_status = settled;
  new_balance_from = r.new_balance_from;
  new_balance_to = r.new_balance_to;
  fee_gross = r.fee_gross;
  vat_amount = r.vat_amount;
  event_uuid = r.event_uuid;
}

pub record WithdrawResponse : Type 0 where
  pub tran_internal_id : ℕ
  pub status : String
  pub transaction_status : String
  pub new_balance : String
  pub fee_gross : String
  pub vat_amount : String
  pub event_uuid : String

-- `WithdrawRespFrom`.
unfoldable pub withdraw_resp_from : WithdrawResult → WithdrawResponse
withdraw_resp_from r = record {
  tran_internal_id = r.tran_internal_id;
  status = r.status;
  transaction_status = accepted_technical;
  new_balance = r.new_balance;
  fee_gross = r.fee_gross;
  vat_amount = r.vat_amount;
  event_uuid = r.event_uuid;
}

pub record MerchantWithdrawResponse : Type 0 where
  pub tran_internal_id : ℕ
  pub status : String
  pub transaction_status : String
  pub amount : String
  pub fee_gross : String
  pub vat_amount : String
  pub total_deducted : String
  pub settlement_balance_after : String
  pub event_uuid : String

-- `MerchantWithdrawRespFrom`.
unfoldable pub merchant_withdraw_resp_from : MerchantWithdrawResult → MerchantWithdrawResponse
unfolding shown_uuid
merchant_withdraw_resp_from r = record {
  tran_internal_id = r.tran_internal_id;
  status = r.status;
  transaction_status =
      if str_eq r.status "SETTLEMENT_SWEEP_REQUIRED" then pending else accepted_technical;
  amount = r.amount;
  fee_gross = r.fee_gross;
  vat_amount = r.vat_amount;
  total_deducted = r.total_deducted;
  settlement_balance_after = r.settlement_balance_after;
  event_uuid = shown_uuid r.event_uuid;
}
