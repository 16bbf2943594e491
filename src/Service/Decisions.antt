-- ===== src/Service/Decisions.antt =====
-- usecase/restraint.go and usecase/manual_je.go, the writes. The log lines are not modelled.
use core_wallet.Prelude.{List}
use core_wallet.Tx.{Driver, Settings}
use core_wallet.Posting.{Procedures, Result}
use core_wallet.Posting.Restraints
use core_wallet.Posting.Restraints.{RestraintInput, ReleaseRestraintInput, RestraintResult}
use core_wallet.Posting.Journals
use core_wallet.Posting.Journals.{
  ManualJeInput, ManualJeDecisionInput, ManualJeCreateResult, ManualJeApproveResult,
  ManualJeRejectResult, JeLineJson,
}
use core_wallet.Service.{passed_on, String}

module _ {D : Type 0} (d : Driver D) (r : Settings) (procs : Procedures D) where
  unfoldable pub add_restraint : RestraintInput → D → Result RestraintResult × D
  add_restraint inp db = passed_on (Restraints.add_restraint d r procs inp db)

  unfoldable pub release_restraint : ReleaseRestraintInput → D → Result RestraintResult × D
  release_restraint inp db = passed_on (Restraints.release_restraint d r procs inp db)

  unfoldable pub approve_manual_je : ManualJeDecisionInput → D → Result ManualJeApproveResult × D
  approve_manual_je inp db = passed_on (Journals.approve_manual_je d r procs inp db)

  unfoldable pub reject_manual_je : ManualJeDecisionInput → D → Result ManualJeRejectResult × D
  reject_manual_je inp db = passed_on (Journals.reject_manual_je d r procs inp db)

module _ {D : Type 0} (d : Driver D) (r : Settings) (procs : Procedures D)
    (marshal : List JeLineJson → Result String) where
  unfoldable pub create_manual_je : ManualJeInput → D → Result ManualJeCreateResult × D
  create_manual_je inp db = passed_on (Journals.create_manual_je d r procs marshal inp db)
