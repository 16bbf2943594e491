-- ===== src/Posting/Types.antt =====
-- services/wallet-service/internal/domain/types.go: the inputs and results of the four postings, and the
-- zero value of each result. A UUID is its text.
use core_wallet.Prelude.{String, ℕ, Bool, Option}
use core_wallet.Tx.{AuditContext}
use core_wallet.Posting.Metadata.{Meta}

-- The zero `uuid.UUID`.
abbrev pub zero_uuid : String
zero_uuid = "00000000-0000-0000-0000-000000000000"

pub record TopupInput : Type 0 where
  pub acct_no : String
  pub amount : String
  pub reference : String
  pub narrative : String
  pub metadata : Option Meta
  pub audit : AuditContext

pub record TransferInput : Type 0 where
  pub from_acct_no : String
  pub to_acct_no : String
  pub amount : String
  pub reference : String
  pub tran_type : String
  pub narrative : String
  pub metadata : Option Meta
  pub audit : AuditContext

pub record WithdrawInput : Type 0 where
  pub acct_no : String
  pub amount : String
  pub reference : String
  pub ext_payout_ref : String
  pub beneficiary_bank : String
  pub beneficiary_acct : String
  pub narrative : String
  pub metadata : Option Meta
  pub audit : AuditContext

pub record MerchantWithdrawInput : Type 0 where
  pub group_id : String
  pub amount : String
  pub reference : String
  pub ext_payout_ref : String
  pub auto_sweep : Bool
  pub audit : AuditContext

pub record TopupResult : Type 0 where
  pub tran_internal_id : ℕ
  pub status : String
  pub new_balance : String
  pub event_uuid : String

pub record TransferResult : Type 0 where
  pub tran_internal_id : ℕ
  pub status : String
  pub new_balance_from : String
  pub new_balance_to : String
  pub fee_gross : String
  pub vat_amount : String
  pub event_uuid : String

pub record WithdrawResult : Type 0 where
  pub tran_internal_id : ℕ
  pub status : String
  pub new_balance : String
  pub fee_gross : String
  pub vat_amount : String
  pub event_uuid : String

pub record MerchantWithdrawResult : Type 0 where
  pub tran_internal_id : ℕ
  pub status : String
  pub amount : String
  pub fee_gross : String
  pub vat_amount : String
  pub total_deducted : String
  pub settlement_balance_after : String
  pub event_uuid : String

abbrev pub zero_topup : TopupResult
zero_topup = record { tran_internal_id = 0; status = ""; new_balance = ""; event_uuid = zero_uuid }

abbrev pub zero_transfer : TransferResult
zero_transfer = record {
  tran_internal_id = 0;
  status = "";
  new_balance_from = "";
  new_balance_to = "";
  fee_gross = "";
  vat_amount = "";
  event_uuid = zero_uuid;
}

abbrev pub zero_withdraw : WithdrawResult
zero_withdraw = record {
  tran_internal_id = 0;
  status = "";
  new_balance = "";
  fee_gross = "";
  vat_amount = "";
  event_uuid = zero_uuid;
}

abbrev pub zero_merchant_withdraw : MerchantWithdrawResult
zero_merchant_withdraw = record {
  tran_internal_id = 0;
  status = "";
  amount = "";
  fee_gross = "";
  vat_amount = "";
  total_deducted = "";
  settlement_balance_after = "";
  event_uuid = zero_uuid;
}
