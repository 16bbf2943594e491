-- ===== src/Requests/Decisions.antt =====
-- services/wallet-service/internal/http/dto: the writes of restraint.go and manual_je.go. `is_date` says
-- whether `time.Parse` reads a text with the layout 2006-01-02.
use core_wallet.Prelude.{String, ℕ, Bool, Option, List, [], ◌∷◌}
use core_wallet.Posting.Restraints.{RestraintResult}
use core_wallet.Posting.Journals.{ManualJeCreateResult, ManualJeApproveResult, ManualJeRejectResult}
use core_wallet.Requests.{
  required, omitempty, money, acct_no, max_len, layout, Field, Engine, Bound, bound,
  should_bind_json,
}

pub record AddRestraintRequest : Type 0 where
  pub acct_no : String
  pub restraint_type : String
  pub restraint_purpose : String
  pub pledged_amt : String
  pub start_date : String
  pub end_date : String
  pub narrative : String
  pub reference_doc : String

unfoldable pub add_restraint_fields : (String → Bool) → AddRestraintRequest → List Field
add_restraint_fields is_date req =
    (record { name = "AcctNo"; value = req.acct_no; rules = required ∷ acct_no ∷ [] })
    ∷ (record { name = "RestraintType"; value = req.restraint_type; rules = required ∷ [] })
    ∷ (record { name = "RestraintPurpose"; value = req.restraint_purpose; rules = required ∷ [] })
    ∷ (record { name = "PledgedAmt"; value = req.pledged_amt; rules = omitempty ∷ money ∷ [] })
    ∷ (record {
      name = "StartDate";
      value = req.start_date;
      rules = omitempty ∷ layout is_date ∷ [];
    })
    ∷ (record { name = "EndDate"; value = req.end_date; rules = omitempty ∷ layout is_date ∷ [] })
    ∷ (record { name = "Narrative"; value = req.narrative; rules = omitempty ∷ max_len 500 ∷ [] })
    ∷ (record {
      name = "ReferenceDoc";
      value = req.reference_doc;
      rules = omitempty ∷ max_len 500 ∷ [];
    })
    ∷ []

pub record ReleaseRestraintRequest : Type 0 where
  pub reason : String

unfoldable pub release_restraint_fields : ReleaseRestraintRequest → List Field
release_restraint_fields req =
    (record { name = "Reason"; value = req.reason; rules = omitempty ∷ max_len 500 ∷ [] }) ∷ []

pub record RestraintResponse : Type 0 where
  pub restraint_id : ℕ
  pub status : String
  pub pledged_amt : String
  pub available_bal_after : String
  pub version : ℕ

unfoldable pub restraint_resp_from : RestraintResult → RestraintResponse
restraint_resp_from r = record {
  restraint_id = r.restraint_id;
  status = r.status;
  pledged_amt = r.pledged_amt;
  available_bal_after = r.available_bal_after;
  version = r.version;
}

pub record ManualJeDecisionRequest : Type 0 where
  pub reason : String

unfoldable pub decision_fields : ManualJeDecisionRequest → List Field
decision_fields req =
    (record { name = "Reason"; value = req.reason; rules = omitempty ∷ max_len 200 ∷ [] }) ∷ []

pub record ManualJeCreateResponse : Type 0 where
  pub je_id : ℕ
  pub status : String
  pub total_dr : String
  pub total_cr : String
  pub line_count : ℕ

unfoldable pub create_resp_from : ManualJeCreateResult → ManualJeCreateResponse
create_resp_from r = record {
  je_id = r.je_id;
  status = r.status;
  total_dr = r.total_dr;
  total_cr = r.total_cr;
  line_count = r.line_count;
}

pub record ManualJeApproveResponse : Type 0 where
  pub je_id : ℕ
  pub status : String
  pub gl_tran_key : ℕ
  pub posted_lines : ℕ

unfoldable pub approve_resp_from : ManualJeApproveResult → ManualJeApproveResponse
approve_resp_from r = record {
  je_id = r.je_id;
  status = r.status;
  gl_tran_key = r.gl_tran_key;
  posted_lines = r.posted_lines;
}

pub record ManualJeRejectResponse : Type 0 where
  pub je_id : ℕ
  pub status : String

unfoldable pub reject_resp_from : ManualJeRejectResult → ManualJeRejectResponse
reject_resp_from r = record { je_id = r.je_id; status = r.status }

-- A body that may be left out: nothing before the end of the stream, or what is decoded of it.
pub data Body (Q : Type 0) : Type 0 where
  empty : Body Q
  present : Option Q → Body Q

-- `ShouldBindJSON` where `io.EOF` passes, which leaves the zero request unvalidated.
unfoldable pub bind_optional : {Q : Type 0} → Engine → (Q → List Field) → Q → Body Q → Bound Q
bind_optional engine fields zero empty = bound zero
bind_optional engine fields zero (present body) = should_bind_json engine fields body
