-- ===== src/Handlers/Finance.antt =====
-- handler.go: Topup, Transfer, Withdraw and MerchantWithdraw.
use core_wallet.Prelude.{String, Bool, true, Option, none, some}
use core_wallet.Tx.{AuditContext, Driver, Settings}
use core_wallet.Posting.{Procedures, Result}
use core_wallet.Posting.Metadata.{Meta}
use core_wallet.Posting.Types.{TopupInput, TransferInput, WithdrawInput, MerchantWithdrawInput}
use core_wallet.Requests.{Engine, should_bind_json}
use core_wallet.Requests.Finance.{
  TopupRequest, TransferRequest, WithdrawRequest, MerchantWithdrawRequest, topup_fields,
  transfer_fields, withdraw_fields, merchant_withdraw_fields, TopupResponse, TransferResponse,
  WithdrawResponse, MerchantWithdrawResponse, topup_resp_from, transfer_resp_from,
  withdraw_resp_from, merchant_withdraw_resp_from,
}
use core_wallet.Service
use core_wallet.Handlers.{Response, status_for, respond, on_bound}

-- `autoSweep`: true where it is left out.
unfoldable pub auto_sweep_or_default : Option Bool → Bool
auto_sweep_or_default none = true
auto_sweep_or_default (some b) = b

abbrev pub topup_input : TopupRequest → AuditContext → TopupInput
topup_input req audit = record {
  acct_no = req.acct_no;
  amount = req.amount;
  reference = req.reference;
  narrative = req.narrative;
  metadata = req.metadata;
  audit = audit;
}

abbrev pub transfer_input : TransferRequest → AuditContext → TransferInput
transfer_input req audit = record {
  from_acct_no = req.from_acct_no;
  to_acct_no = req.to_acct_no;
  amount = req.amount;
  reference = req.reference;
  tran_type = req.tran_type;
  narrative = req.narrative;
  metadata = req.metadata;
  audit = audit;
}

abbrev pub withdraw_input : WithdrawRequest → AuditContext → WithdrawInput
withdraw_input req audit = record {
  acct_no = req.acct_no;
  amount = req.amount;
  reference = req.reference;
  ext_payout_ref = req.ext_payout_ref;
  beneficiary_bank = req.beneficiary_bank;
  beneficiary_acct = req.beneficiary_acct;
  narrative = req.narrative;
  metadata = req.metadata;
  audit = audit;
}

abbrev pub merchant_withdraw_input : MerchantWithdrawRequest → AuditContext → MerchantWithdrawInput
merchant_withdraw_input req audit = record {
  group_id = req.group_id;
  amount = req.amount;
  reference = req.reference;
  ext_payout_ref = req.ext_payout_ref;
  auto_sweep = auto_sweep_or_default req.auto_sweep;
  audit = audit;
}

module _ {D : Type 0} (d : Driver D) (r : Settings) (procs : Procedures D)
    (marshal : Meta → Result String) (engine : Engine) (audit : AuditContext) (now : String) where
  unfoldable pub topup : Option TopupRequest → D → Response TopupResponse × D
  topup body db =
      on_bound now (should_bind_json engine topup_fields body)
        (λ req db.
          respond (λ res. status_for res.status) topup_resp_from now
            (Service.topup d r procs marshal (topup_input req audit) db))
        db

  unfoldable pub transfer : Option TransferRequest → D → Response TransferResponse × D
  transfer body db =
      on_bound now (should_bind_json engine transfer_fields body)
        (λ req db.
          respond (λ res. status_for res.status) transfer_resp_from now
            (Service.transfer d r procs marshal (transfer_input req audit) db))
        db

  unfoldable pub withdraw : Option WithdrawRequest → D → Response WithdrawResponse × D
  withdraw body db =
      on_bound now (should_bind_json engine withdraw_fields body)
        (λ req db.
          respond (λ res. status_for res.status) withdraw_resp_from now
            (Service.withdraw d r procs marshal (withdraw_input req audit) db))
        db

module _ {D : Type 0} (d : Driver D) (r : Settings) (procs : Procedures D) (engine : Engine)
    (audit : AuditContext) (now : String) where
  unfoldable pub merchant_withdraw :
      Option MerchantWithdrawRequest → D → Response MerchantWithdrawResponse × D
  merchant_withdraw body db =
      on_bound now (should_bind_json engine merchant_withdraw_fields body)
        (λ req db.
          respond (λ res. status_for res.status) merchant_withdraw_resp_from now
            (Service.merchant_withdraw d r procs (merchant_withdraw_input req audit) db))
        db
