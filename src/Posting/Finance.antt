-- ===== src/Posting/Finance.antt =====
-- repo/postgres.go, the four postings Topup, Transfer, Withdraw and MerchantWithdraw. `json.Marshal` is a parameter. A scan
-- that fails leaves `out` alone: the error ends the call, so what it wrote is never read.
use core_wallet.Prelude.{◌>>=◌, String, ℕ, Option, none, some, List, [], ◌∷◌, str_eq, if◌then◌else◌}
use core_wallet.Errors.{of_domain, invalid_request_error}
use core_wallet.Tx.{Driver, Settings}
use core_wallet.Posting.{Value, text, int, flag, null, Procedures, Result, ok, fail, run_procedure}
use core_wallet.Posting.Metadata.{Meta, with_narrative}
use core_wallet.Posting.Types.{
  TopupInput, TransferInput, WithdrawInput, MerchantWithdrawInput, TopupResult, TransferResult,
  WithdrawResult, MerchantWithdrawResult, zero_topup, zero_transfer, zero_withdraw,
  zero_merchant_withdraw,
}

-- `scanTopupResult`.
unfoldable pub scan_topup_result : List Value → TopupResult → Option TopupResult
scan_topup_result (int tran ∷ text status ∷ text balance ∷ text uuid ∷ []) out =
    some (record {
      tran_internal_id = tran;
      status = status;
      new_balance = balance;
      event_uuid = uuid;
    })
scan_topup_result _ out = none

-- `scanTransferResult`.
unfoldable pub scan_transfer_result : List Value → TransferResult → Option TransferResult
scan_transfer_result
      (int tran ∷ text status ∷ text from ∷ text to ∷ text fee ∷ text vat ∷ text uuid ∷ []) out =
    some (record {
      tran_internal_id = tran;
      status = status;
      new_balance_from = from;
      new_balance_to = to;
      fee_gross = fee;
      vat_amount = vat;
      event_uuid = uuid;
    })
scan_transfer_result _ out = none

-- `scanWithdrawResult`.
unfoldable pub scan_withdraw_result : List Value → WithdrawResult → Option WithdrawResult
scan_withdraw_result (int tran ∷ text status ∷ text balance ∷ text fee ∷ text vat ∷ text uuid ∷ [])
      out =
    some (record {
      tran_internal_id = tran;
      status = status;
      new_balance = balance;
      fee_gross = fee;
      vat_amount = vat;
      event_uuid = uuid;
    })
scan_withdraw_result _ out = none

-- `if tran != nil { out.TranInternalID = *tran }`: a NULL leaves the old value.
unfoldable pub int_or_kept : Value → ℕ → Option ℕ
int_or_kept (int n) old = some n
int_or_kept null old = some old
int_or_kept _ old = none

unfoldable pub text_or_kept : Value → String → Option String
text_or_kept (text s) old = some s
text_or_kept null old = some old
text_or_kept _ old = none

-- The scan inside `MerchantWithdraw`.
unfoldable pub scan_merchant_withdraw :
    List Value → MerchantWithdrawResult → Option MerchantWithdrawResult
unfolding int_or_kept text_or_kept
scan_merchant_withdraw
      (tran
        ∷ text status
        ∷ text amount
        ∷ text fee
        ∷ text vat
        ∷ text total
        ∷ text settle
        ∷ uuid
        ∷ [])
      out =
    do
      id ← int_or_kept tran out.tran_internal_id
      event ← text_or_kept uuid out.event_uuid
      some (record {
        tran_internal_id = id;
        status = status;
        amount = amount;
        fee_gross = fee;
        vat_amount = vat;
        total_deducted = total;
        settlement_balance_after = settle;
        event_uuid = event;
      })
scan_merchant_withdraw _ out = none

-- An empty text is passed as NULL.
abbrev pub optional_text : String → Value
optional_text s = if str_eq s "" then null else text s

-- The transfer type, with the procedure's default for an empty one.
abbrev pub tran_type_or_default : String → String
tran_type_or_default s = if str_eq s "" then "TRFOUT" else s

-- The arguments of `post_topup` in order.
abbrev pub topup_args : TopupInput → String → List Value
topup_args inp json =
    text inp.acct_no
    ∷ text inp.amount
    ∷ text inp.reference
    ∷ text json
    ∷ text inp.audit.channel
    ∷ text inp.audit.actor
    ∷ []

-- The arguments of `post_transfer` in order.
abbrev pub transfer_args : TransferInput → String → List Value
transfer_args inp json =
    text inp.from_acct_no
    ∷ text inp.to_acct_no
    ∷ text inp.amount
    ∷ text inp.reference
    ∷ text (tran_type_or_default inp.tran_type)
    ∷ text json
    ∷ text inp.audit.channel
    ∷ text inp.audit.actor
    ∷ []

-- The arguments of `post_withdraw` in order.
abbrev pub withdraw_args : WithdrawInput → String → List Value
withdraw_args inp json =
    text inp.acct_no
    ∷ text inp.amount
    ∷ text inp.reference
    ∷ text inp.ext_payout_ref
    ∷ text inp.beneficiary_bank
    ∷ text inp.beneficiary_acct
    ∷ text json
    ∷ text inp.audit.channel
    ∷ text inp.audit.actor
    ∷ []

-- The arguments of `post_merchant_withdraw` in order.
abbrev pub merchant_withdraw_args : MerchantWithdrawInput → List Value
merchant_withdraw_args inp =
    text inp.group_id
    ∷ text inp.amount
    ∷ text inp.reference
    ∷ optional_text inp.ext_payout_ref
    ∷ flag inp.auto_sweep
    ∷ text inp.audit.channel
    ∷ text inp.audit.actor
    ∷ []

-- The metadata is serialised in front of the transaction.
unfoldable pub with_json :
    {D : Type 0} {R : Type 0} → Result String → (String → D → Result R × D) → D → Result R × D
with_json (ok json) run db = run json db
with_json (fail e) run db =
    (fail (of_domain (invalid_request_error "metadata not serialisable" e)), db)

module _ {D : Type 0} (d : Driver D) (r : Settings) (procs : Procedures D)
    (marshal : Meta → Result String) where
  unfoldable pub topup : TopupInput → D → Result TopupResult × D
  topup inp db =
      with_json (marshal (with_narrative inp.metadata inp.narrative))
        (λ json.
          run_procedure d r procs scan_topup_result zero_topup inp.audit "post_topup"
            (topup_args inp json))
        db

  unfoldable pub transfer : TransferInput → D → Result TransferResult × D
  transfer inp db =
      with_json (marshal (with_narrative inp.metadata inp.narrative))
        (λ json.
          run_procedure d r procs scan_transfer_result zero_transfer inp.audit "post_transfer"
            (transfer_args inp json))
        db

  unfoldable pub withdraw : WithdrawInput → D → Result WithdrawResult × D
  withdraw inp db =
      with_json (marshal (with_narrative inp.metadata inp.narrative))
        (λ json.
          run_procedure d r procs scan_withdraw_result zero_withdraw inp.audit "post_withdraw"
            (withdraw_args inp json))
        db

module _ {D : Type 0} (d : Driver D) (r : Settings) (procs : Procedures D) where
  unfoldable pub merchant_withdraw : MerchantWithdrawInput → D → Result MerchantWithdrawResult × D
  merchant_withdraw inp db =
      run_procedure d r procs scan_merchant_withdraw zero_merchant_withdraw inp.audit
        "post_merchant_withdraw" (merchant_withdraw_args inp) db
