-- ===== src/Service/Guards.antt =====
-- usecase/wallet.go: what the repository did where the service returns a result.
use core_wallet.Prelude.{◌≡◌, refl, true, false, str_eq, if◌then◌else◌, Bool, ◌≢◌, String, sym, ◌∙◌}
use core_wallet.Tx.{Driver, Settings}
use core_wallet.Posting.{Procedures, Result, ok, fail}
use core_wallet.Posting.Metadata.{Meta}
use core_wallet.Posting.Finance
use core_wallet.Posting.Types.{TopupInput, TransferInput, TopupResult, TransferResult}
use core_wallet.Service.{topup, transfer, passed_on}

passed_on_same : {R D : Type 0} (s : Result R × D) → passed_on s ≡ s
passed_on_same (ok res, db) = refl
passed_on_same (fail e, db) = refl

guarded :
    {R D : Type 0} (same : Bool) (other s : Result R × D) (res : R) (db' : D)
    → ((res : R) (db : D) → other ≢ (ok res, db))
    → (if same then other else passed_on s) ≡ (ok res, db')
    → (same ≡ false) × (s ≡ (ok res, db'))
guarded true other s res db' never h = absurd (never res db' h)
guarded false other s res db' never h = (refl, sym (passed_on_same s) ∙ h)

module _ {D : Type 0} (d : Driver D) (r : Settings) (procs : Procedures D)
    (marshal : Meta → Result String) where
  pub topup_ok :
      (inp : TopupInput) (db db' : D) (res : TopupResult)
      → topup d r procs marshal inp db ≡ (ok res, db')
      → Finance.topup d r procs marshal inp db ≡ (ok res, db')
  unfolding topup
  topup_ok inp db db' res h = sym (passed_on_same (Finance.topup d r procs marshal inp db)) ∙ h

  -- A transfer that went through is one between two accounts.
  pub transfer_ok :
      (inp : TransferInput) (db db' : D) (res : TransferResult)
      → transfer d r procs marshal inp db ≡ (ok res, db')
      → (str_eq inp.from_acct_no inp.to_acct_no ≡ false)
        × (Finance.transfer d r procs marshal inp db ≡ (ok res, db'))
  unfolding transfer
  transfer_ok inp db db' res h = guarded _ _ _ res db' (λ res db e. cc) h

-- The log lines behind a repository call change nothing of what it returned.
pub passed_on_ok :
    {R D : Type 0} (s : Result R × D) (res : R) (db' : D)
    → passed_on s ≡ (ok res, db')
    → s ≡ (ok res, db')
passed_on_ok s res db' h = sym (passed_on_same s) ∙ h
