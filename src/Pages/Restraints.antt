-- ===== src/Pages/Restraints.antt =====
-- The list of an account's restraints: domain/restraint.go, http/handler/restraint.go, usecase/restraint.go,
-- repo/restraint.go and http/dto/restraint.go. Times are numbers and their texts a parameter; the rows of
-- an account are given from the newest to the oldest.
use core_wallet.Prelude.{
  ℕ, String, Bool, Option, none, some, List, [], map, length, str_eq, str_append, ltb,
  if◌then◌else◌,
}
use core_wallet.Errors.{GoError, nil, of_domain, invalid_request_error, new_error}
use core_wallet.Errors.Codes
use core_wallet.PgErrors.{map_err_if_pg}
use core_wallet.Problem.{render_error}
use core_wallet.Posting.{Result, ok, fail}
use core_wallet.Handlers.{Response, refused, respond}
use core_wallet.Pages.{
  Param, absent, number, invalid, limit_param, before_param, default_page_size, max_page_size,
  clamp, select, next_cursor,
}

pub record RestraintView : Type 0 where
  pub restraint_id : ℕ
  pub acct_no : String
  pub restraint_type : String
  pub purpose : String
  pub pledged_amt : String
  pub start_date : ℕ
  pub end_date : Option ℕ
  pub status : String
  pub narrative : String
  pub reference_doc : String
  pub created_at : ℕ
  pub created_by : String
  pub removed_at : Option ℕ
  pub removed_by : Option String
  pub removed_reason : Option String

pub record RestraintViewResponse : Type 0 where
  pub restraint_id : ℕ
  pub acct_no : String
  pub restraint_type : String
  pub purpose : String
  pub pledged_amt : String
  pub start_date : String
  pub end_date : String
  pub status : String
  pub narrative : String
  pub reference_doc : String
  pub created_at : ℕ
  pub created_by : String
  pub removed_at : Option ℕ
  pub removed_by : Option String
  pub removed_reason : Option String

pub record RestraintListQuery : Type 0 where
  pub acct_no : String
  pub limit : ℕ
  pub before_seq : Option ℕ

pub record RestraintListResponse : Type 0 where
  pub acct_no : String
  pub page_size : ℕ
  pub items : List RestraintViewResponse
  pub count : ℕ
  pub next_cursor : Option ℕ

abbrev date_text : (ℕ → String) → Option ℕ → String
date_text format none = ""
date_text format (some d) = format d

-- `restraintViewResp`, with the format of a date.
unfoldable pub restraint_view_resp : (ℕ → String) → RestraintView → RestraintViewResponse
restraint_view_resp format v = record {
  restraint_id = v.restraint_id;
  acct_no = v.acct_no;
  restraint_type = v.restraint_type;
  purpose = v.purpose;
  pledged_amt = v.pledged_amt;
  start_date = format v.start_date;
  end_date = date_text format v.end_date;
  status = v.status;
  narrative = v.narrative;
  reference_doc = v.reference_doc;
  created_at = v.created_at;
  created_by = v.created_by;
  removed_at = v.removed_at;
  removed_by = v.removed_by;
  removed_reason = v.removed_reason;
}

-- `RestraintListRespFrom`.
unfoldable pub restraint_list_resp_from :
    (ℕ → String) → RestraintListQuery → List RestraintView → RestraintListResponse
restraint_list_resp_from format q views = record {
  acct_no = q.acct_no;
  page_size = q.limit;
  items = map (restraint_view_resp format) views;
  count = length views;
  next_cursor = next_cursor (λ v. v.restraint_id) q.limit views;
}

-- What the read pool answers: the rows of an account, whether it knows the account, and the error of
-- each of the two queries, `nil` for none.
pub record Store : Type 0 where
  pub rows : String → List RestraintView
  pub error : GoError
  pub knows : String → Bool
  pub knows_error : GoError

abbrev unless_failed : GoError → Result (List RestraintView) → Result (List RestraintView)
unless_failed nil r = r
unless_failed e r = fail (map_err_if_pg e)

abbrev known_or_fail : Store → String → List RestraintView → Result (List RestraintView)
known_or_fail store acct [] = unless_failed store.knows_error (
    if store.knows acct
    then ok []
    else fail (
        of_domain (new_error Codes.acct_not_found 404 (str_append "account not found: " acct) nil)))
known_or_fail store acct out = ok out

-- `ListRestraints` of the repository.
unfoldable pub repo_list : Store → RestraintListQuery → Result (List RestraintView)
repo_list store q = unless_failed store.error (
    known_or_fail store q.acct_no
      (select (λ v. v.restraint_id) q.before_seq q.limit (store.rows q.acct_no)))

-- `ListRestraints` of the service, on a copy of the query with the limit clamped.
unfoldable pub service_list : Store → RestraintListQuery → Result (List RestraintView)
unfolding clamp
service_list store q = repo_list store (record q { limit = clamp q.limit })

module _ (format : ℕ → String) (now : String) (store : Store) where
  abbrev refuse : String → Response RestraintListResponse
  refuse text = refused (render_error (of_domain (invalid_request_error text nil)) now)

  abbrev listed : RestraintListQuery → Response RestraintListResponse
  listed q =
      (respond (λ _. 200) (restraint_list_resp_from format q) now (service_list store q, tt {0})).0

  abbrev with_before : String → ℕ → Param → Response RestraintListResponse
  with_before acct limit absent =
      listed (record { acct_no = acct; limit = limit; before_seq = none })
  with_before acct limit (number c) =
      listed (record { acct_no = acct; limit = limit; before_seq = some c })
  with_before acct limit invalid = refuse "invalid before_seq (non-negative integer)"

  -- The clamp in the handler itself.
  abbrev pub capped : ℕ → ℕ
  capped n = if ltb max_page_size n then max_page_size else n

  abbrev with_limit : String → Param → Param → Response RestraintListResponse
  with_limit acct absent before = with_before acct (capped default_page_size) before
  with_limit acct (number n) before = with_before acct (capped n) before
  with_limit acct invalid before = refuse "invalid limit (positive integer)"

  -- `ListRestraints` of the handler, by its query parameters.
  unfoldable pub list_restraints : String → String → String → Response RestraintListResponse
  list_restraints acct limit before =
      if str_eq acct ""
      then refuse "acct_no query parameter is required"
      else with_limit acct (limit_param limit) (before_param before)
