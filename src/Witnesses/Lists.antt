-- ===== src/Witnesses/Lists.antt =====
-- Pages of a list: a journal of 250 entries, and one of three for a client with pages of two.
use core_wallet.Prelude.{
  ℕ, zero, suc, ◌≤◌, ◌≡◌, refl, String, none, some, List, [], ◌∷◌, map, arith,
}
use core_wallet.Errors.{nil}
use core_wallet.Handlers.{sent, SuccessEnvelope, ok_envelope}
use core_wallet.Pages.{number, limit_param, select, clamp}
use core_wallet.Pages.Journals.Followed.{follow, follow_complete}
use core_wallet.Pages.Journals.{
  ManualJeView, ManualJeListQuery, ManualJeListResponse, manual_je_list_resp_from, Ledger,
  list_manual_je, manual_je_view,
}
use core_wallet.Pages.Journals.Cut.{list_manual_je-Cut}

abbrev entry : ℕ → ManualJeView
entry n = record {
  je_id = n;
  reference = "JE-2026";
  accounting_date = 20260131;
  ccy = "VND";
  narrative = "";
  reason = "suspense";
  status = "PENDING";
  total_dr = "100.00";
  total_cr = "100.00";
  gl_tran_key = none;
  maker_id = "ops1";
  made_at = 1;
  checker_id = none;
  checked_at = none;
  check_reason = none;
  version = 1;
  lines = [];
}

abbrev entries : ℕ → List ManualJeView
entries zero = []
entries (suc n) = entry (suc n) ∷ entries n

abbrev journal : Ledger
journal = record { rows = λ _. entries 250; error = nil }

abbrev text : ℕ → String
text _ = "2026-01-31"

abbrev query : ManualJeListQuery
query = record { status = ""; limit = 201; before_id = none }

abbrev envelope : SuccessEnvelope ManualJeListResponse
envelope =
    ok_envelope
      (manual_je_list_resp_from text text query
        (select (λ v. v.je_id) none (clamp 201) (entries 250)))
      "t"

asked : list_manual_je text text "t" journal "" "201" "" ≡ sent 200 envelope
unfolding list_manual_je limit_param core_wallet.Eod.atoi core_wallet.Pages.before_param
    core_wallet.Handlers.respond core_wallet.Pages.Journals.service_list
    core_wallet.Pages.Journals.repo_list
asked = refl

limit_201 : limit_param "201" ≡ number 201
unfolding limit_param core_wallet.Eod.atoi
limit_201 = refl

list_manual_je-Cut_example :
    (envelope.payload.page_size ≡ 201)
    × (envelope.payload.count ≤ 200)
    × (envelope.payload.next_cursor ≡ none)
list_manual_je-Cut_example =
    list_manual_je-Cut text text "t" journal 201 (omega arith) 200 envelope "" "201" "" limit_201
      asked

abbrev small_journal : Ledger
small_journal = record { rows = λ _. entries 3; error = nil }

-- Two pages of two entries.
follow_complete_example :
    follow text text "t" small_journal 4 (record { status = ""; limit = 2; before_id = none })
    ≡ some (map (manual_je_view text text) (entries 3))
follow_complete_example =
    follow_complete text text "t" small_journal "" 2 refl (omega arith) (omega arith)
      ((omega arith, (omega arith, tt)), ((omega arith, tt), (tt, tt)))
