-- ===== src/Posting/Fees.antt =====
-- repo/fee.go, and MerchantDeposit of repo/group.go, with their inputs and results of domain/fee.go and
-- domain/group.go.
use core_wallet.Prelude.{
  ◌>>=◌, String, ℕ, Bool, false, Option, none, some, List, [], ◌∷◌, str_eq, if◌then◌else◌,
}
use core_wallet.Errors.{of_domain, invalid_request_error}
use core_wallet.Tx.{AuditContext, Driver, Settings}
use core_wallet.Posting.{Value, text, int, flag, null, Procedures, Result, ok, fail, run_procedure}
use core_wallet.Posting.Metadata.{Meta, or_empty, with_narrative}
use core_wallet.Posting.Types.{zero_uuid}
use core_wallet.Posting.Finance.{text_or_kept, with_json}

pub record FeeChargeInput : Type 0 where
  pub acct_no : String
  pub amount : String
  pub reference : String
  pub fee_code : String
  pub narrative : String
  pub metadata : Option Meta
  pub audit : AuditContext

pub record FeeChargeResult : Type 0 where
  pub tran_internal_id : ℕ
  pub status : String
  pub fee_gross : String
  pub vat_amount : String
  pub new_balance : String
  pub event_uuid : String

pub record FeeChargeReversalInput : Type 0 where
  pub orig_reference : String
  pub reason : String
  pub initiator : String
  pub audit : AuditContext

pub record FeeChargeReversalResult : Type 0 where
  pub reversal_tran_key : ℕ
  pub was_already_reversed : Bool
  pub new_balance : String
  pub event_uuid : String

pub record MerchantDepositInput : Type 0 where
  pub group_id : String
  pub amount : String
  pub reference : String
  pub metadata : Option Meta
  pub audit : AuditContext

pub record MerchantDepositResult : Type 0 where
  pub tran_internal_id : ℕ
  pub status : String
  pub target_acct_no : String
  pub shard_index : Option ℕ
  pub new_balance : String
  pub event_uuid : String

-- A nullable smallint.
unfoldable pub nullable_int : Value → Option (Option ℕ)
nullable_int (int n) = some (some n)
nullable_int null = some none
nullable_int _ = none

-- The scan inside `PostFeeCharge`.
unfoldable pub scan_fee_charge : List Value → FeeChargeResult → Option FeeChargeResult
scan_fee_charge
      (int tran_internal_id_column
        ∷ text status_column
        ∷ text fee_gross_column
        ∷ text vat_amount_column
        ∷ text new_balance_column
        ∷ text event_uuid_column
        ∷ [])
      out =
    some (record {
      tran_internal_id = tran_internal_id_column;
      status = status_column;
      fee_gross = fee_gross_column;
      vat_amount = vat_amount_column;
      new_balance = new_balance_column;
      event_uuid = event_uuid_column;
    })
scan_fee_charge _ out = none

abbrev pub zero_fee_charge : FeeChargeResult
zero_fee_charge = record {
  tran_internal_id = 0;
  status = "";
  fee_gross = "";
  vat_amount = "";
  new_balance = "";
  event_uuid = zero_uuid;
}

-- The scan inside `ReverseFeeCharge`.
unfoldable pub scan_fee_reversal :
    List Value → FeeChargeReversalResult → Option FeeChargeReversalResult
scan_fee_reversal
      (int reversal_tran_key_column
        ∷ flag was_already_reversed_column
        ∷ text new_balance_column
        ∷ uuid
        ∷ [])
      out =
    do
      event ← text_or_kept uuid out.event_uuid
      some (record {
        reversal_tran_key = reversal_tran_key_column;
        was_already_reversed = was_already_reversed_column;
        new_balance = new_balance_column;
        event_uuid = event;
      })
scan_fee_reversal _ out = none

abbrev pub zero_fee_reversal : FeeChargeReversalResult
zero_fee_reversal = record {
  reversal_tran_key = 0;
  was_already_reversed = false;
  new_balance = "";
  event_uuid = zero_uuid;
}

-- The scan inside `MerchantDeposit`.
unfoldable pub scan_deposit : List Value → MerchantDepositResult → Option MerchantDepositResult
scan_deposit
      (int tran_internal_id_column
        ∷ text status_column
        ∷ text target_acct_no_column
        ∷ index
        ∷ text new_balance_column
        ∷ text event_uuid_column
        ∷ [])
      out =
    do
      found ← nullable_int index
      some (record {
        tran_internal_id = tran_internal_id_column;
        status = status_column;
        target_acct_no = target_acct_no_column;
        shard_index = found;
        new_balance = new_balance_column;
        event_uuid = event_uuid_column;
      })
scan_deposit _ out = none

abbrev pub zero_deposit : MerchantDepositResult
zero_deposit = record {
  tran_internal_id = 0;
  status = "";
  target_acct_no = "";
  shard_index = none;
  new_balance = "";
  event_uuid = zero_uuid;
}

-- The fee code, with the procedure's default for an empty one.
abbrev pub fee_code_or_default : String → String
fee_code_or_default s = if str_eq s "" then "FEECHG" else s

-- The arguments of `post_fee_charge` in order.
abbrev pub fee_charge_args : FeeChargeInput → String → List Value
fee_charge_args inp json =
    text inp.acct_no
    ∷ text inp.amount
    ∷ text inp.reference
    ∷ text (fee_code_or_default inp.fee_code)
    ∷ text inp.narrative
    ∷ text json
    ∷ text inp.audit.channel
    ∷ text inp.audit.actor
    ∷ []

-- The arguments of `post_fee_charge_reversal` in order.
abbrev pub fee_reversal_args : FeeChargeReversalInput → List Value
fee_reversal_args inp =
    text inp.orig_reference
    ∷ text inp.reason
    ∷ text inp.initiator
    ∷ text inp.audit.channel
    ∷ text inp.audit.actor
    ∷ []

-- The arguments of `post_merchant_deposit` in order.
abbrev pub deposit_args : MerchantDepositInput → String → List Value
deposit_args inp json =
    text inp.group_id
    ∷ text inp.amount
    ∷ text inp.reference
    ∷ text json
    ∷ text inp.audit.channel
    ∷ text inp.audit.actor
    ∷ []

-- `MerchantDeposit` serialises its metadata as it is, under another error text.
unfoldable pub with_metadata :
    {D R : Type 0} → Result String → (String → D → Result R × D) → D → Result R × D
with_metadata (ok json) run db = run json db
with_metadata (fail e) run db = (fail (of_domain (invalid_request_error "invalid metadata" e)), db)

module _ {D : Type 0} (d : Driver D) (r : Settings) (procs : Procedures D)
    (marshal : Meta → Result String) where
  unfoldable pub post_fee_charge : FeeChargeInput → D → Result FeeChargeResult × D
  post_fee_charge inp db =
      with_json (marshal (with_narrative inp.metadata inp.narrative))
        (λ json.
          run_procedure d r procs scan_fee_charge zero_fee_charge inp.audit "post_fee_charge"
            (fee_charge_args inp json))
        db

  unfoldable pub merchant_deposit : MerchantDepositInput → D → Result MerchantDepositResult × D
  unfolding or_empty
  merchant_deposit inp db =
      with_metadata (marshal (or_empty inp.metadata))
        (λ json.
          run_procedure d r procs scan_deposit zero_deposit inp.audit "post_merchant_deposit"
            (deposit_args inp json))
        db

module _ {D : Type 0} (d : Driver D) (r : Settings) (procs : Procedures D) where
  unfoldable pub reverse_fee_charge :
      FeeChargeReversalInput → D → Result FeeChargeReversalResult × D
  reverse_fee_charge inp db =
      run_procedure d r procs scan_fee_reversal zero_fee_reversal inp.audit
        "post_fee_charge_reversal" (fee_reversal_args inp) db
