-- ===== src/Service.antt =====
-- services/wallet-service/internal/usecase/wallet.go: `WalletService`, between the handlers and the
-- repository. Its log lines are not modelled.
pub mod Guards
pub mod Reversals
pub mod Decisions
use core_wallet.Prelude.{String, str_eq, if◌then◌else◌}
use core_wallet.Errors.{nil, of_domain, new_error}
use core_wallet.Errors.Codes
use core_wallet.Tx.{Driver, Settings}
use core_wallet.Posting.{Procedures, Result, ok, fail}
use core_wallet.Posting.Metadata.{Meta}
use core_wallet.Posting.Finance
use core_wallet.Posting.Types.{
  TopupInput, TransferInput, WithdrawInput, MerchantWithdrawInput, TopupResult, TransferResult,
  WithdrawResult, MerchantWithdrawResult,
}
use core_wallet.Posting.Treasury
use core_wallet.Posting.Treasury.{
  ReversalInput, AckInput, DisbursingInput, CompletedInput, ReversalResult, MarkResult,
}

-- `if err != nil { return nil, err }; return res, nil`.
abbrev pub passed_on : {R D : Type 0} → Result R × D → Result R × D
passed_on (ok res, db) = (ok res, db)
passed_on (fail e, db) = (fail e, db)

module _ {D : Type 0} (d : Driver D) (r : Settings) (procs : Procedures D)
    (marshal : Meta → Result String) where
  unfoldable pub topup : TopupInput → D → Result TopupResult × D
  topup inp db = passed_on (Finance.topup d r procs marshal inp db)

  -- The guard of `Transfer` in front of the repository.
  unfoldable pub transfer : TransferInput → D → Result TransferResult × D
  transfer inp db =
      let posted = passed_on (Finance.transfer d r procs marshal inp db) in
      if str_eq inp.from_acct_no inp.to_acct_no
      then (
        fail (of_domain (new_error Codes.same_account 400 "from and to are the same account" nil)),
        db,
      )
      else posted

  unfoldable pub withdraw : WithdrawInput → D → Result WithdrawResult × D
  withdraw inp db = passed_on (Finance.withdraw d r procs marshal inp db)

module _ {D : Type 0} (d : Driver D) (r : Settings) (procs : Procedures D) where
  unfoldable pub merchant_withdraw : MerchantWithdrawInput → D → Result MerchantWithdrawResult × D
  merchant_withdraw inp db = passed_on (Finance.merchant_withdraw d r procs inp db)

  unfoldable pub reverse : ReversalInput → D → Result ReversalResult × D
  reverse inp db = passed_on (Treasury.reverse d r procs inp db)

  -- `markTransition`.
  unfoldable pub mark_transition : Result MarkResult × D → Result MarkResult × D
  mark_transition done = passed_on done

  unfoldable pub mark_acked : AckInput → D → Result MarkResult × D
  mark_acked inp db = mark_transition (Treasury.mark_acked d r procs inp db)

  unfoldable pub mark_disbursing : DisbursingInput → D → Result MarkResult × D
  mark_disbursing inp db = mark_transition (Treasury.mark_disbursing d r procs inp db)

  unfoldable pub mark_completed : CompletedInput → D → Result MarkResult × D
  mark_completed inp db = mark_transition (Treasury.mark_completed d r procs inp db)
