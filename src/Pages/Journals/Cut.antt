-- ===== src/Pages/Journals/Cut.antt =====
-- http/handler/manual_je.go and http/dto/manual_je.go: a page of the journal entries with a limit above
-- the greatest page size.
use core_wallet.Prelude.{
  ℕ, ◌≤◌, ◌<◌, ◌≡◌, refl, sym, ap, ◌∙◌, subst, String, Bool, true, false, Option, none, some, List,
  length, length-take-le, str_eq, if◌then◌else◌, arith,
}
use core_wallet.Errors.{GoError, nil}
use core_wallet.Problem.{ProblemDetails}
use core_wallet.Posting.{ok}
use core_wallet.Handlers.{Response, sent, refused, SuccessEnvelope, ok_envelope, respond}
use core_wallet.Pages.{
  Param, absent, number, invalid, limit_param, before_param, select, clamp, next_cursor,
}
use core_wallet.Pages.Journals.{
  ManualJeView, ManualJeListQuery, ManualJeListResponse, manual_je_list_resp_from, Ledger,
  repo_list, service_list, unless_failed, listed, with_before, with_limit, is_status,
  list_manual_je,
}

clamp_below : (n : ℕ) → clamp n ≤ 200
unfolding clamp
clamp_below n = ground arith

select_short :
    {V : Type 0} (key : V → ℕ) (cursor : Option ℕ) (limit : ℕ) (rows : List V)
    → length (select key cursor limit rows) ≤ limit
unfolding select
select_short key cursor limit rows = length-take-le limit _

next_cursor_short :
    {V : Type 0} (key : V → ℕ) (limit : ℕ) (views : List V)
    → length views < limit
    → next_cursor key limit views ≡ none
unfolding next_cursor
next_cursor_short key limit views h = ground (arith, h)

-- An envelope without a cursor, for at most 200 rows, that gives `n` as the size of the page.
abbrev Cut : ℕ → SuccessEnvelope ManualJeListResponse → Type 0
Cut n env =
    (env.payload.page_size ≡ n) × (env.payload.count ≤ 200) × (env.payload.next_cursor ≡ none)

module _ (date time : ℕ → String) (now : String) (ledger : Ledger) (n : ℕ) (long : 200 < n)
    (code : ℕ) (env : SuccessEnvelope ManualJeListResponse) where
  made-Cut :
      (q : ManualJeListQuery) (views : List ManualJeView)
      → q.limit ≡ n
      → length views ≤ 200
      → Cut n (ok_envelope (manual_je_list_resp_from date time q views) now)
  unfolding ok_envelope manual_je_list_resp_from
  made-Cut q views same short = (
    same,
    short,
    next_cursor_short (λ v. v.je_id) q.limit views (omega (arith, long, same, short)),
  )

  failed_or_Cut :
      (e : GoError) (q : ManualJeListQuery) (views : List ManualJeView)
      → q.limit ≡ n
      → length views ≤ 200
      → (respond
          (λ _. 200)
          (manual_je_list_resp_from date time q)
          now
          (unless_failed e (ok views), tt {0})).0
        ≡ sent code env
      → Cut n env
  unfolding respond
  failed_or_Cut nil q views same short h =
      subst (Cut n) {x = ok_envelope (manual_je_list_resp_from date time q views) now} {y = env}
        (cc) (made-Cut q views same short)
  failed_or_Cut (GoError.domain _ _ _ _ _ _) q views same short h = absurd cc
  failed_or_Cut (GoError.pg _ _) q views same short h = absurd cc
  failed_or_Cut GoError.deadline_exceeded q views same short h = absurd cc
  failed_or_Cut GoError.canceled q views same short h = absurd cc
  failed_or_Cut (GoError.wrap _ _) q views same short h = absurd cc
  failed_or_Cut (GoError.other _) q views same short h = absurd cc

  listed-Cut :
      (q : ManualJeListQuery)
      → q.limit ≡ n
      → listed date time now ledger q ≡ sent code env
      → Cut n env
  unfolding service_list repo_list
  listed-Cut q same h =
      failed_or_Cut ledger.error q _ same
        (omega (
          arith,
          select_short (λ v. v.je_id) q.before_id (clamp (clamp q.limit)) (ledger.rows q.status),
          clamp_below (clamp q.limit),
        ))
        h

  with_before-Cut :
      (status : String) (before : Param)
      → with_before date time now ledger status n before ≡ sent code env
      → Cut n env
  with_before-Cut status absent h =
      listed-Cut (record { status = status; limit = n; before_id = none }) refl h
  with_before-Cut status (number c) h =
      listed-Cut (record { status = status; limit = n; before_id = some c }) refl h
  with_before-Cut status invalid h = absurd cc

  of_statuses :
      (a b : Bool) (found : Response ManualJeListResponse) (p : ProblemDetails)
      → (if a then found else if b then found else refused p) ≡ sent code env
      → found ≡ sent code env
  of_statuses true b found p h = h
  of_statuses false true found p h = h
  of_statuses false false found p h = absurd cc

  -- Where the limit is above 200, a response of `ListManualJE` has no cursor and at most 200 entries,
  -- however many the ledger holds, and it gives the limit of the request as the size of the page.
  pub list_manual_je-Cut :
      (status limit before : String)
      → limit_param limit ≡ number n
      → list_manual_je date time now ledger status limit before ≡ sent code env
      → (env.payload.page_size ≡ n) × (env.payload.count ≤ 200) × (env.payload.next_cursor ≡ none)
  unfolding list_manual_je
  list_manual_je-Cut status limit before long_limit h =
      with_before-Cut status (before_param before) (
        sym (ap (λ p. with_limit date time now ledger status p (before_param before)) long_limit)
        ∙ of_statuses (str_eq status "") (is_status status) _ _ h)
