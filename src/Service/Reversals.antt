-- ===== src/Service/Reversals.antt =====
-- usecase/reversal.go, usecase/fee.go and MerchantDeposit of usecase/group.go.
use core_wallet.Tx.{Driver, Settings}
use core_wallet.Posting.{Procedures, Result}
use core_wallet.Posting.Metadata.{Meta}
use core_wallet.Posting.Reversals
use core_wallet.Posting.Reversals.{
  TransferReversalInput, TransferReversalResult, TopupReversalInput, TopupReversalResult,
  MerchantWithdrawReversalInput, MerchantWithdrawReversalResult,
}
use core_wallet.Posting.Fees
use core_wallet.Posting.Fees.{
  FeeChargeInput, FeeChargeResult, FeeChargeReversalInput, FeeChargeReversalResult,
  MerchantDepositInput, MerchantDepositResult,
}
use core_wallet.Service.{passed_on, String}

module _ {D : Type 0} (d : Driver D) (r : Settings) (procs : Procedures D) where
  unfoldable pub reverse_transfer : TransferReversalInput → D → Result TransferReversalResult × D
  reverse_transfer inp db = passed_on (Reversals.reverse_transfer d r procs inp db)

  unfoldable pub reverse_topup : TopupReversalInput → D → Result TopupReversalResult × D
  reverse_topup inp db = passed_on (Reversals.reverse_topup d r procs inp db)

  unfoldable pub reverse_merchant_withdraw :
      MerchantWithdrawReversalInput → D → Result MerchantWithdrawReversalResult × D
  reverse_merchant_withdraw inp db =
      passed_on (Reversals.reverse_merchant_withdraw d r procs inp db)

  unfoldable pub reverse_fee_charge :
      FeeChargeReversalInput → D → Result FeeChargeReversalResult × D
  reverse_fee_charge inp db = passed_on (Fees.reverse_fee_charge d r procs inp db)

module _ {D : Type 0} (d : Driver D) (r : Settings) (procs : Procedures D)
    (marshal : Meta → Result String) where
  unfoldable pub post_fee_charge : FeeChargeInput → D → Result FeeChargeResult × D
  post_fee_charge inp db = passed_on (Fees.post_fee_charge d r procs marshal inp db)

  unfoldable pub merchant_deposit : MerchantDepositInput → D → Result MerchantDepositResult × D
  merchant_deposit inp db = passed_on (Fees.merchant_deposit d r procs marshal inp db)
