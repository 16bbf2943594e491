-- ===== src/Handlers/Reversals.antt =====
-- http/handler: reversal.go, fee.go, and MerchantDeposit of group.go.
use core_wallet.Prelude.{String, Option, str_eq, if◌then◌else◌}
use core_wallet.Tx.{AuditContext, Driver, Settings}
use core_wallet.Posting.{Procedures, Result}
use core_wallet.Posting.Metadata.{Meta}
use core_wallet.Posting.Reversals.{
  TransferReversalInput, TopupReversalInput, MerchantWithdrawReversalInput,
}
use core_wallet.Posting.Fees.{FeeChargeInput, FeeChargeReversalInput, MerchantDepositInput}
use core_wallet.Requests.{Engine, should_bind_json}
use core_wallet.Requests.Reversals.{
  TransferReversalRequest, TopupReversalRequest, MerchantWithdrawReversalRequest,
  FeeChargeReversalRequest, FeeChargeRequest, MerchantDepositRequest, TransferReversalResponse,
  transfer_reversal_fields, TopupReversalResponse, MerchantWithdrawReversalResponse,
  FeeChargeReversalResponse, FeeChargeResponse, MerchantDepositResponse,
  transfer_reversal_resp_from, topup_reversal_fields, merchant_withdraw_reversal_fields,
  fee_reversal_fields, fee_charge_fields, deposit_fields, topup_reversal_resp_from,
  merchant_withdraw_reversal_resp_from, fee_reversal_resp_from, fee_charge_resp_from,
  deposit_resp_from,
}
use core_wallet.Service.Reversals
use core_wallet.Handlers.{Response, status_for, respond, on_bound}

-- The initiator, with its default for an empty one.
abbrev pub initiator_or_default : String → String
initiator_or_default s = if str_eq s "" then "OPS_MANUAL" else s

abbrev pub transfer_reversal_input : TransferReversalRequest → AuditContext → TransferReversalInput
transfer_reversal_input req audit = record {
  orig_reference = req.reference;
  reason = req.reason;
  initiator = initiator_or_default req.initiator;
  audit = audit;
}

abbrev pub topup_reversal_input : TopupReversalRequest → AuditContext → TopupReversalInput
topup_reversal_input req audit = record {
  orig_reference = req.reference;
  reason = req.reason;
  initiator = initiator_or_default req.initiator;
  audit = audit;
}

abbrev pub merchant_withdraw_reversal_input :
    MerchantWithdrawReversalRequest → AuditContext → MerchantWithdrawReversalInput
merchant_withdraw_reversal_input req audit = record {
  orig_reference = req.reference;
  fail_code = req.fail_code;
  fail_reason = req.fail_reason;
  initiator = initiator_or_default req.initiator;
  audit = audit;
}

abbrev pub fee_reversal_input : FeeChargeReversalRequest → AuditContext → FeeChargeReversalInput
fee_reversal_input req audit = record {
  orig_reference = req.reference;
  reason = req.reason;
  initiator = initiator_or_default req.initiator;
  audit = audit;
}

abbrev pub fee_charge_input : FeeChargeRequest → AuditContext → FeeChargeInput
fee_charge_input req audit = record {
  acct_no = req.acct_no;
  amount = req.amount;
  reference = req.reference;
  fee_code = req.fee_code;
  narrative = req.narrative;
  metadata = req.metadata;
  audit = audit;
}

abbrev pub deposit_input : MerchantDepositRequest → AuditContext → MerchantDepositInput
deposit_input req audit = record {
  group_id = req.group_id;
  amount = req.amount;
  reference = req.reference;
  metadata = req.metadata;
  audit = audit;
}

module _ {D : Type 0} (d : Driver D) (r : Settings) (procs : Procedures D) (engine : Engine)
    (audit : AuditContext) (now : String) where
  unfoldable pub reverse_transfer :
      Option TransferReversalRequest → D → Response TransferReversalResponse × D
  reverse_transfer body db =
      on_bound now (should_bind_json engine transfer_reversal_fields body)
        (λ req db.
          respond (λ _. 200) transfer_reversal_resp_from now
            (Reversals.reverse_transfer d r procs (transfer_reversal_input req audit) db))
        db

  unfoldable pub reverse_topup :
      Option TopupReversalRequest → D → Response TopupReversalResponse × D
  reverse_topup body db =
      on_bound now (should_bind_json engine topup_reversal_fields body)
        (λ req db.
          respond (λ _. 200) topup_reversal_resp_from now
            (Reversals.reverse_topup d r procs (topup_reversal_input req audit) db))
        db

  unfoldable pub reverse_merchant_withdraw :
      Option MerchantWithdrawReversalRequest → D → Response MerchantWithdrawReversalResponse × D
  reverse_merchant_withdraw body db =
      on_bound now (should_bind_json engine merchant_withdraw_reversal_fields body)
        (λ req db.
          respond (λ _. 200) merchant_withdraw_reversal_resp_from now
            (Reversals.reverse_merchant_withdraw d r procs
              (merchant_withdraw_reversal_input req audit) db))
        db

  unfoldable pub reverse_fee_charge :
      Option FeeChargeReversalRequest → D → Response FeeChargeReversalResponse × D
  reverse_fee_charge body db =
      on_bound now (should_bind_json engine fee_reversal_fields body)
        (λ req db.
          respond (λ _. 200) fee_reversal_resp_from now
            (Reversals.reverse_fee_charge d r procs (fee_reversal_input req audit) db))
        db

module _ {D : Type 0} (d : Driver D) (r : Settings) (procs : Procedures D)
    (marshal : Meta → Result String) (engine : Engine) (audit : AuditContext) (now : String) where
  unfoldable pub fee_charge : Option FeeChargeRequest → D → Response FeeChargeResponse × D
  fee_charge body db =
      on_bound now (should_bind_json engine fee_charge_fields body)
        (λ req db.
          respond (λ res. status_for res.status) fee_charge_resp_from now
            (Reversals.post_fee_charge d r procs marshal (fee_charge_input req audit) db))
        db

  unfoldable pub merchant_deposit :
      Option MerchantDepositRequest → D → Response MerchantDepositResponse × D
  merchant_deposit body db =
      on_bound now (should_bind_json engine deposit_fields body)
        (λ req db.
          respond (λ res. status_for res.status) deposit_resp_from now
            (Reversals.merchant_deposit d r procs marshal (deposit_input req audit) db))
        db
