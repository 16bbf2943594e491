-- ===== src/Pages/Journals/Followed.antt =====
-- A client of ListManualJE that follows `next_cursor`.
use core_wallet.Prelude.{
  ℕ, zero, suc, ◌≤◌, ◌<◌, ◌≡◌, refl, sym, ap, ◌∙◌, String, Option, none, some, List, [], ◌∷◌, ◌++◌,
  map, length, arith, Option-cases, inl, inr,
}
use mathlib.Core.Option
use core_wallet.Errors.{nil}
use core_wallet.Posting.{ok}
use core_wallet.Handlers.{Response, sent, refused, ok_envelope, respond}
use core_wallet.Pages.{select, clamp, next_cursor}
use core_wallet.Pages.Walk.{continued, walk, walk_complete, Descending}
use core_wallet.Pages.Journals.{
  ManualJeView, ManualJeViewResponse, ManualJeListQuery, ManualJeListResponse, manual_je_view,
  manual_je_list_resp_from, Ledger, repo_list, service_list, listed, unless_failed,
}

clamp_in_range : (n : ℕ) → 0 < n → n ≤ 200 → clamp n ≡ n
unfolding clamp
clamp_in_range n pos le = ground (arith, pos, le)

map-append : {A B : Type 0} (f : A → B) (xs ys : List A) → map f (xs ++ ys) ≡ map f xs ++ map f ys
map-append f [] ys = refl
map-append f (x ∷ xs) ys = ap (λ t. f x ∷ t) (map-append f xs ys)

continued-map :
    {A B : Type 0} (f : A → B) (page : List A) (cursor : Option ℕ) (rest : ℕ → Option (List A))
    (rest' : ℕ → Option (List B))
    → ((k : ℕ) → rest' k ≡ Option.map (map f) (rest k))
    → continued (map f page) cursor rest' ≡ Option.map (map f) (continued page cursor rest)
continued-map f page none rest rest' same = refl
continued-map f page (some k) rest rest' same = elim (Option-cases (rest k)) [
  | inl out ↦ rw (same k, out) refl
  | inr (more, read) ↦ rw (same k, read) (ap some (sym (map-append f page more)))
]

module _ (date time : ℕ → String) (now : String) (ledger : Ledger) where
  -- What the client makes of a response.
  abbrev entries_of :
      Response ManualJeListResponse
      → (ℕ → Option (List ManualJeViewResponse))
      → Option (List ManualJeViewResponse)
  entries_of (sent code env) rest = continued env.payload.items env.payload.next_cursor rest
  entries_of (refused problem) rest = none

  -- All that a client reads that asks for a page, and with the same status and limit for the next one
  -- while the response has a cursor; on fuel for the pages, `none` for a refusal.
  unfoldable pub follow : ℕ → ManualJeListQuery → Option (List ManualJeViewResponse)
  follow zero q = none
  follow (suc fuel) q =
      entries_of (listed date time now ledger q)
        (λ k. follow fuel (record q { before_id = some k }))

  module _ (answers : ledger.error ≡ nil) where
    abbrev page : ManualJeListQuery → ℕ → List ManualJeView
    page q n = select (λ v. v.je_id) q.before_id n (ledger.rows q.status)

    served :
        (q : ManualJeListQuery)
        → 0 < q.limit
        → q.limit ≤ 200
        → service_list ledger q ≡ ok (page q q.limit)
    unfolding service_list repo_list
    served q pos le =
        let same = clamp_in_range q.limit pos le in
        ap (λ e. unless_failed e (ok (page q (clamp (clamp q.limit))))) answers
        ∙ ap (λ n. ok (page q n)) (ap clamp same ∙ same)

    listed_page :
        (q : ManualJeListQuery)
        → 0 < q.limit
        → q.limit ≤ 200
        → listed date time now ledger q
          ≡ sent 200 (
              ok_envelope
                (manual_je_list_resp_from date time q
                  (select (λ v. v.je_id) q.before_id q.limit (ledger.rows q.status)))
                now)
    unfolding respond
    listed_page q pos le =
        ap (λ r. (respond (λ _. 200) (manual_je_list_resp_from date time q) now (r, tt {0})).0)
          (served q pos le)

    follow-walk :
        (fuel : ℕ) (q : ManualJeListQuery)
        → 0 < q.limit
        → q.limit ≤ 200
        → follow fuel q
          ≡ Option.map
              (map (manual_je_view date time))
              (walk (λ v. v.je_id) q.limit (ledger.rows q.status) fuel q.before_id)
    unfolding follow walk ok_envelope manual_je_list_resp_from
    follow-walk zero q pos le = refl
    follow-walk (suc fuel) q pos le =
        let page = select (λ v. v.je_id) q.before_id q.limit (ledger.rows q.status) in
        ap (λ r. entries_of r (λ k. follow fuel (record q { before_id = some k })))
          (listed_page q pos le)
        ∙ continued-map (manual_je_view date time) page (next_cursor (λ v. v.je_id) q.limit page)
            (λ k. walk (λ v. v.je_id) q.limit (ledger.rows q.status) fuel (some k))
            (λ k. follow fuel (record q { before_id = some k }))
            (λ k. follow-walk fuel (record q { before_id = some k }) pos le)

  -- With a limit from 1 to 200, a read pool that answers and a journal that does not change and stands
  -- in the order of its ids, no two alike, a client that starts without a cursor and follows
  -- `next_cursor` reads every entry of the status once and from the greatest id to the least, and within
  -- one page more than there are entries.
  pub follow_complete :
      (status : String) (limit : ℕ)
      → ledger.error ≡ nil
      → 0 < limit
      → limit ≤ 200
      → Descending (λ v. v.je_id) (ledger.rows status)
      → follow
          (suc (length (ledger.rows status)))
          (record { status = status; limit = limit; before_id = none })
        ≡ some (map (manual_je_view date time) (ledger.rows status))
  follow_complete status limit answers pos le down =
      follow-walk answers (suc (length (ledger.rows status)))
        (record { status = status; limit = limit; before_id = none }) pos le
      ∙ ap (Option.map (map (manual_je_view date time)))
          (walk_complete (λ v. v.je_id) limit (ledger.rows status) pos down)
