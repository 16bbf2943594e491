-- ===== src/Pages/Journals.antt =====
-- The list of the manual journal entries: domain/manual_je.go, http/handler/manual_je.go,
-- usecase/manual_je.go, repo/manual_je.go and http/dto/manual_je.go. Times are numbers and their texts
-- parameters; the rows are given from the newest to the oldest.
pub mod Cut
pub mod Followed
use core_wallet.Prelude.{
  ℕ, String, Bool, true, false, ◌&&◌, not, Option, none, some, List, [], ◌∷◌, map, length, str_eq,
  str_append, ltb, if◌then◌else◌,
}
use core_wallet.Errors.{GoError, nil, of_domain, invalid_request_error, new_error}
use core_wallet.Errors.Codes
use core_wallet.PgErrors.{map_err_if_pg}
use core_wallet.Problem.{render_error}
use core_wallet.Posting.{Result, ok, fail}
use core_wallet.Handlers.{Response, refused, respond}
use core_wallet.Pages.{
  Param, absent, number, invalid, limit_param, before_param, default_page_size, max_page_size,
  clamp, select, next_cursor,
}

pub record ManualJeLineView : Type 0 where
  pub line_no : ℕ
  pub gl_code : String
  pub tran_nature : String
  pub amount : String
  pub client_no : Option String
  pub narrative : Option String

pub record ManualJeView : Type 0 where
  pub je_id : ℕ
  pub reference : String
  pub accounting_date : ℕ
  pub ccy : String
  pub narrative : String
  pub reason : String
  pub status : String
  pub total_dr : String
  pub total_cr : String
  pub gl_tran_key : Option ℕ
  pub maker_id : String
  pub made_at : ℕ
  pub checker_id : Option String
  pub checked_at : Option ℕ
  pub check_reason : Option String
  pub version : ℕ
  pub lines : List ManualJeLineView

pub record ManualJeLineResponse : Type 0 where
  pub line_no : ℕ
  pub gl_code : String
  pub tran_nature : String
  pub amount : String
  pub client_no : Option String
  pub narrative : Option String

pub record ManualJeViewResponse : Type 0 where
  pub je_id : ℕ
  pub reference : String
  pub accounting_date : String
  pub ccy : String
  pub narrative : String
  pub reason : String
  pub status : String
  pub total_dr : String
  pub total_cr : String
  pub gl_tran_key : Option ℕ
  pub maker_id : String
  pub made_at : String
  pub checker_id : Option String
  pub checked_at : Option String
  pub check_reason : Option String
  pub version : ℕ
  pub lines : List ManualJeLineResponse

pub record ManualJeListQuery : Type 0 where
  pub status : String
  pub limit : ℕ
  pub before_id : Option ℕ

pub record ManualJeListResponse : Type 0 where
  pub status : String
  pub page_size : ℕ
  pub items : List ManualJeViewResponse
  pub count : ℕ
  pub next_cursor : Option ℕ

abbrev line_view : ManualJeLineView → ManualJeLineResponse
line_view l = record {
  line_no = l.line_no;
  gl_code = l.gl_code;
  tran_nature = l.tran_nature;
  amount = l.amount;
  client_no = l.client_no;
  narrative = l.narrative;
}

abbrev time_text : (ℕ → String) → Option ℕ → Option String
time_text format none = none
time_text format (some t) = some (format t)

-- `manualJEView`, with the formats of a date and of a time.
unfoldable pub manual_je_view : (ℕ → String) → (ℕ → String) → ManualJeView → ManualJeViewResponse
manual_je_view date time v = record {
  je_id = v.je_id;
  reference = v.reference;
  accounting_date = date v.accounting_date;
  ccy = v.ccy;
  narrative = v.narrative;
  reason = v.reason;
  status = v.status;
  total_dr = v.total_dr;
  total_cr = v.total_cr;
  gl_tran_key = v.gl_tran_key;
  maker_id = v.maker_id;
  made_at = time v.made_at;
  checker_id = v.checker_id;
  checked_at = time_text time v.checked_at;
  check_reason = v.check_reason;
  version = v.version;
  lines = map line_view v.lines;
}

-- `ManualJEListRespFrom`.
unfoldable pub manual_je_list_resp_from :
    (ℕ → String) → (ℕ → String) → ManualJeListQuery → List ManualJeView → ManualJeListResponse
manual_je_list_resp_from date time q views = record {
  status = q.status;
  page_size = q.limit;
  items = map (manual_je_view date time) views;
  count = length views;
  next_cursor = next_cursor (λ v. v.je_id) q.limit views;
}

-- What the read pool answers, for a status or for all, and its error, `nil` for none.
pub record Ledger : Type 0 where
  pub rows : String → List ManualJeView
  pub error : GoError

abbrev unless_failed : GoError → Result (List ManualJeView) → Result (List ManualJeView)
unless_failed nil r = r
unless_failed e r = fail (map_err_if_pg e)

-- `ListManualJE` of the repository, which clamps the limit once more.
unfoldable pub repo_list : Ledger → ManualJeListQuery → Result (List ManualJeView)
unfolding clamp
repo_list ledger q =
    unless_failed ledger.error
      (ok (select (λ v. v.je_id) q.before_id (clamp q.limit) (ledger.rows q.status)))

-- `ListManualJE` of the service, on a copy of the query with the limit clamped.
unfoldable pub service_list : Ledger → ManualJeListQuery → Result (List ManualJeView)
unfolding clamp
service_list ledger q = repo_list ledger (record q { limit = clamp q.limit })

-- The statuses that the parameter may name.
abbrev is_status : String → Bool
is_status s =
    if str_eq s "PENDING" then true else if str_eq s "POSTED" then true else str_eq s "REJECTED"

module _ (date time : ℕ → String) (now : String) (ledger : Ledger) where
  abbrev refuse : String → Response ManualJeListResponse
  refuse text = refused (render_error (of_domain (invalid_request_error text nil)) now)

  abbrev pub listed : ManualJeListQuery → Response ManualJeListResponse
  listed q =
      (respond (λ _. 200) (manual_je_list_resp_from date time q) now
        (service_list ledger q, tt {0})).0

  abbrev with_before : String → ℕ → Param → Response ManualJeListResponse
  with_before status limit absent =
      listed (record { status = status; limit = limit; before_id = none })
  with_before status limit (number c) =
      listed (record { status = status; limit = limit; before_id = some c })
  with_before status limit invalid = refuse "invalid before_id (non-negative integer)"

  abbrev with_limit : String → Param → Param → Response ManualJeListResponse
  with_limit status absent before = with_before status default_page_size before
  with_limit status (number n) before = with_before status n before
  with_limit status invalid before = refuse "invalid limit (positive integer)"

  -- `ListManualJE` of the handler, by its query parameters: the limit is not clamped here.
  unfoldable pub list_manual_je : String → String → String → Response ManualJeListResponse
  list_manual_je status limit before =
      let found = with_limit status (limit_param limit) (before_param before) in
      if str_eq status ""
      then found
      else if is_status status
      then found
      else refuse "invalid status (PENDING|POSTED|REJECTED)"
