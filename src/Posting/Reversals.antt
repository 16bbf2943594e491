-- ===== src/Posting/Reversals.antt =====
-- repo/reversal.go: the reversals by reference of a transfer, a topup and a merchant withdraw, with their inputs
-- and results of domain/reversal.go.
use core_wallet.Prelude.{String, ℕ, Bool, false, Option, none, some, List, [], ◌∷◌}
use core_wallet.Tx.{AuditContext, Driver, Settings}
use core_wallet.Posting.{Value, text, int, flag, Procedures, Result, run_procedure}
use core_wallet.Posting.Types.{zero_uuid}

pub record TransferReversalInput : Type 0 where
  pub orig_reference : String
  pub reason : String
  pub initiator : String
  pub audit : AuditContext

pub record TransferReversalResult : Type 0 where
  pub reversal_tran_key : ℕ
  pub was_already_reversed : Bool
  pub new_balance_from : String
  pub new_balance_to : String
  pub event_uuid : String

pub record TopupReversalInput : Type 0 where
  pub orig_reference : String
  pub reason : String
  pub initiator : String
  pub audit : AuditContext

pub record TopupReversalResult : Type 0 where
  pub reversal_tran_key : ℕ
  pub was_already_reversed : Bool
  pub new_balance : String
  pub event_uuid : String

pub record MerchantWithdrawReversalInput : Type 0 where
  pub orig_reference : String
  pub fail_code : String
  pub fail_reason : String
  pub initiator : String
  pub audit : AuditContext

pub record MerchantWithdrawReversalResult : Type 0 where
  pub reversal_tran_key : ℕ
  pub was_already_reversed : Bool
  pub settlement_balance_after : String
  pub event_uuid : String

-- The scan inside `ReverseTransfer`.
unfoldable pub scan_transfer_reversal :
    List Value → TransferReversalResult → Option TransferReversalResult
scan_transfer_reversal
      (int reversal_tran_key_column
        ∷ flag was_already_reversed_column
        ∷ text new_balance_from_column
        ∷ text new_balance_to_column
        ∷ text event_uuid_column
        ∷ [])
      out =
    some (record {
      reversal_tran_key = reversal_tran_key_column;
      was_already_reversed = was_already_reversed_column;
      new_balance_from = new_balance_from_column;
      new_balance_to = new_balance_to_column;
      event_uuid = event_uuid_column;
    })
scan_transfer_reversal _ out = none

abbrev pub zero_transfer_reversal : TransferReversalResult
zero_transfer_reversal = record {
  reversal_tran_key = 0;
  was_already_reversed = false;
  new_balance_from = "";
  new_balance_to = "";
  event_uuid = zero_uuid;
}

-- The arguments of `post_transfer_reversal` in order.
abbrev pub transfer_reversal_args : TransferReversalInput → List Value
transfer_reversal_args inp =
    text inp.orig_reference
    ∷ text inp.reason
    ∷ text inp.initiator
    ∷ text inp.audit.channel
    ∷ text inp.audit.actor
    ∷ []

-- The scan inside `ReverseTopup`.
unfoldable pub scan_topup_reversal : List Value → TopupReversalResult → Option TopupReversalResult
scan_topup_reversal
      (int reversal_tran_key_column
        ∷ flag was_already_reversed_column
        ∷ text new_balance_column
        ∷ text event_uuid_column
        ∷ [])
      out =
    some (record {
      reversal_tran_key = reversal_tran_key_column;
      was_already_reversed = was_already_reversed_column;
      new_balance = new_balance_column;
      event_uuid = event_uuid_column;
    })
scan_topup_reversal _ out = none

abbrev pub zero_topup_reversal : TopupReversalResult
zero_topup_reversal = record {
  reversal_tran_key = 0;
  was_already_reversed = false;
  new_balance = "";
  event_uuid = zero_uuid;
}

-- The arguments of `post_topup_reversal` in order.
abbrev pub topup_reversal_args : TopupReversalInput → List Value
topup_reversal_args inp =
    text inp.orig_reference
    ∷ text inp.reason
    ∷ text inp.initiator
    ∷ text inp.audit.channel
    ∷ text inp.audit.actor
    ∷ []

-- The scan inside `ReverseMerchantWithdraw`.
unfoldable pub scan_merchant_withdraw_reversal :
    List Value → MerchantWithdrawReversalResult → Option MerchantWithdrawReversalResult
scan_merchant_withdraw_reversal
      (int reversal_tran_key_column
        ∷ flag was_already_reversed_column
        ∷ text settlement_balance_after_column
        ∷ text event_uuid_column
        ∷ [])
      out =
    some (record {
      reversal_tran_key = reversal_tran_key_column;
      was_already_reversed = was_already_reversed_column;
      settlement_balance_after = settlement_balance_after_column;
      event_uuid = event_uuid_column;
    })
scan_merchant_withdraw_reversal _ out = none

abbrev pub zero_merchant_withdraw_reversal : MerchantWithdrawReversalResult
zero_merchant_withdraw_reversal = record {
  reversal_tran_key = 0;
  was_already_reversed = false;
  settlement_balance_after = "";
  event_uuid = zero_uuid;
}

-- The arguments of `post_merchant_withdraw_reversal` in order.
abbrev pub merchant_withdraw_reversal_args : MerchantWithdrawReversalInput → List Value
merchant_withdraw_reversal_args inp =
    text inp.orig_reference
    ∷ text inp.fail_code
    ∷ text inp.fail_reason
    ∷ text inp.initiator
    ∷ text inp.audit.channel
    ∷ text inp.audit.actor
    ∷ []

module _ {D : Type 0} (d : Driver D) (r : Settings) (procs : Procedures D) where
  unfoldable pub reverse_transfer : TransferReversalInput → D → Result TransferReversalResult × D
  reverse_transfer inp db =
      run_procedure d r procs scan_transfer_reversal zero_transfer_reversal inp.audit
        "post_transfer_reversal" (transfer_reversal_args inp) db

  unfoldable pub reverse_topup : TopupReversalInput → D → Result TopupReversalResult × D
  reverse_topup inp db =
      run_procedure d r procs scan_topup_reversal zero_topup_reversal inp.audit
        "post_topup_reversal" (topup_reversal_args inp) db

  unfoldable pub reverse_merchant_withdraw :
      MerchantWithdrawReversalInput → D → Result MerchantWithdrawReversalResult × D
  reverse_merchant_withdraw inp db =
      run_procedure d r procs scan_merchant_withdraw_reversal zero_merchant_withdraw_reversal
        inp.audit "post_merchant_withdraw_reversal" (merchant_withdraw_reversal_args inp) db
