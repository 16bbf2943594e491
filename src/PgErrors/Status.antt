-- ===== src/PgErrors/Status.antt =====
-- `httpStatusFor` of services/wallet-service/internal/repo/errors.go: the HTTP status of a code that a
-- stored procedure raised.
use core_wallet.Prelude.{ℕ, String, Bool, List, [], ◌∷◌, any, str_eq, has_suffix, if◌then◌else◌}
use core_wallet.Errors.Codes.{
  invalid_amount, metadata_too_large, metadata_has_p1, same_account, amount_out_of_range,
  tran_type_inactive, invalid_phone_format, mje_reason_required, mje_invalid_lines, invalid_request,
  mje_maker_cannot_check, tier_insufficient, dr_restraint_active, cr_restraint_active,
  group_restrained, insufficient_funds, tier_limit_exceeded, acct_role_invalid,
  reversal_window_expired, version_conflict, wd_already_completed, wd_already_reversed,
  wd_invalid_state, restraint_already_removed, client_already_exists, phone_already_registered,
  max_wallet_exceeded, group_already_activated, group_already_exists, group_not_activated,
  mje_invalid_state, restraint_type_invalid, restraint_purpose_invalid,
  restraint_type_purpose_conflict, restraint_amt_exceeds_balance, restraint_date_invalid,
  court_order_remove_requires_doc, invalid_client_type, invalid_acct_type, acct_close_nonzero_bal,
  org_fields_required, invalid_shard_count, invalid_group_type, mje_gl_invalid, mje_unbalanced,
  pii_dek_not_set, batch_unbalanced, invalid_date, batch_size_exceeded, gone_online, period_closed,
}

-- A `case` with several values.
unfoldable pub one_of : List String → String → Bool
one_of cases code = any (str_eq code) cases

-- The family fallbacks behind the `switch`.
unfoldable pub family_status : String → ℕ
family_status code =
    if has_suffix code "_NOT_FOUND"
    then 404
    else if has_suffix code "_NOT_ACTIVE"
    then 403
    else if has_suffix code "_CONFLICT"
    then 409
    else 500

abbrev pub bad_request : List String
bad_request =
    invalid_amount ∷ metadata_too_large ∷ metadata_has_p1 ∷ same_account ∷ amount_out_of_range
    ∷ tran_type_inactive ∷ invalid_phone_format ∷ mje_reason_required ∷ mje_invalid_lines
    ∷ invalid_request ∷ []

abbrev pub maker_check : List String
maker_check = mje_maker_cannot_check ∷ []

abbrev pub tier : List String
tier = tier_insufficient ∷ []

abbrev pub locked : List String
locked = dr_restraint_active ∷ cr_restraint_active ∷ group_restrained ∷ []

abbrev pub rule : List String
rule = insufficient_funds ∷ tier_limit_exceeded ∷ acct_role_invalid ∷ reversal_window_expired ∷ []

abbrev pub conflict : List String
conflict =
    version_conflict ∷ wd_already_completed ∷ wd_already_reversed ∷ wd_invalid_state
    ∷ restraint_already_removed ∷ client_already_exists ∷ phone_already_registered
    ∷ max_wallet_exceeded ∷ group_already_activated ∷ group_already_exists ∷ group_not_activated
    ∷ mje_invalid_state ∷ []

abbrev pub unprocessable : List String
unprocessable =
    restraint_type_invalid ∷ restraint_purpose_invalid ∷ restraint_type_purpose_conflict
    ∷ restraint_amt_exceeds_balance ∷ restraint_date_invalid ∷ court_order_remove_requires_doc
    ∷ invalid_client_type ∷ invalid_acct_type ∷ acct_close_nonzero_bal ∷ org_fields_required
    ∷ invalid_shard_count ∷ invalid_group_type ∷ mje_gl_invalid ∷ mje_unbalanced ∷ []

abbrev pub server_fault : List String
server_fault = pii_dek_not_set ∷ batch_unbalanced ∷ []

abbrev pub query_range : List String
query_range = invalid_date ∷ batch_size_exceeded ∷ []

abbrev pub gone : List String
gone = gone_online ∷ []

abbrev pub closed : List String
closed = period_closed ∷ []

unfoldable pub http_status_for : String → ℕ
unfolding one_of family_status
http_status_for code =
    if one_of bad_request code
    then 400
    else if one_of maker_check code
    then 403
    else if one_of tier code
    then 403
    else if one_of locked code
    then 423
    else if one_of rule code
    then 422
    else if one_of conflict code
    then 409
    else if one_of unprocessable code
    then 422
    else if one_of server_fault code
    then 500
    else if one_of query_range code
    then 422
    else if one_of gone code
    then 410
    else if one_of closed code
    then 409
    else family_status code
