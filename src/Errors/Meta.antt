-- ===== src/Errors/Meta.antt =====
-- services/wallet-service/internal/domain/iso20022.go: the standards metadata of an error code, its
-- lookup with the family suffixes, and the whitelist of the codes that a client may see.
use core_wallet.Prelude.{
  String, Bool, true, false, ◌||◌, Option, none, some, List, [], ◌∷◌, ◌++◌, str_eq, has_suffix,
  if◌then◌else◌,
}
use core_wallet.Errors.Codes.{
  invalid_amount, metadata_too_large, metadata_has_p1, same_account, tran_type_inactive,
  acct_not_found, acct_not_active, acct_role_invalid, batch_unbalanced, tier_insufficient,
  amount_out_of_range, dr_restraint_active, cr_restraint_active, group_restrained,
  insufficient_funds, tier_limit_exceeded, version_conflict, pii_dek_not_set, wd_not_found,
  wd_already_completed, wd_invalid_state, wd_already_reversed, reversal_window_expired, internal,
  timeout, unauthorized, forbidden, invalid_request, duplicate_reference, invalid_date, gone_online,
  batch_size_exceeded, restraint_not_found, restraint_already_removed, restraint_type_invalid,
  restraint_purpose_invalid, restraint_type_purpose_conflict, restraint_amt_exceeds_balance,
  restraint_date_invalid, court_order_remove_requires_doc, invalid_client_type,
  client_already_exists, client_not_found, phone_already_registered, invalid_phone_format,
  kyc_not_found, org_fields_required, bank_link_not_found, invalid_acct_type, max_wallet_exceeded,
  acct_close_nonzero_bal, invalid_shard_count, group_already_activated, invalid_group_type,
  group_already_exists, group_not_activated, period_closed, mje_reason_required, mje_invalid_lines,
  mje_gl_invalid, mje_unbalanced, mje_not_found, mje_invalid_state, mje_maker_cannot_check,
}

-- ISO 20022 transaction status codes.
abbrev pub accepted_technical : String
accepted_technical = "ACTC"

abbrev pub in_process : String
in_process = "ACSP"

abbrev pub settled : String
settled = "ACSC"

abbrev pub rejected : String
rejected = "RJCT"

abbrev pub pending : String
pending = "PDNG"

pub record CodeMeta : Type 0 where
  pub title : String
  pub message : String
  pub internal_code : String
  pub iso_reason : String
  pub tx_status : String

abbrev pub meta : String → String → String → String → String → CodeMeta
meta t m e r x = record { title = t; message = m; internal_code = e; iso_reason = r; tx_status = x }

abbrev posting_meta : List (String × CodeMeta)
posting_meta =
    (
      invalid_amount,
      meta "Invalid amount" "The transaction amount is invalid or missing" "E4024" "AM12" rejected,
    )
    ∷ (
      amount_out_of_range,
      meta "Amount out of range" "The amount is outside the allowed range for this transaction type"
          "E4024" "AM02" rejected,
    )
    ∷ (
      metadata_too_large,
      meta "Metadata too large" "The metadata payload exceeds the maximum allowed size (1 KB)"
          "E4007" "" rejected,
    )
    ∷ (
      metadata_has_p1,
      meta "Metadata contains restricted data"
          "The metadata contains forbidden PII keys (phone, email, cccd, passport, full_name, bank_acct_no)"
          "E4008" "" rejected,
    )
    ∷ (
      same_account,
      meta "Same account" "Source and destination accounts must be different" "E4002" "BE01"
          rejected,
    )
    ∷ (
      tran_type_inactive,
      meta "Transaction type not active"
          "The requested transaction type is inactive or does not exist" "E4003" "AG02" rejected,
    )
    ∷ (
      acct_not_found,
      meta "Account not found" "The specified account does not exist" "E3001" "AC01" rejected,
    )
    ∷ (
      acct_not_active,
      meta "Account not active" "The account is blocked or closed and cannot process transactions"
          "E3004" "AC04" rejected,
    )
    ∷ (
      acct_role_invalid,
      meta "Account role invalid"
          "This operation is only allowed on standalone wallets, not SHARD or SETTLEMENT accounts"
          "E3008" "" rejected,
    )
    ∷ (
      batch_unbalanced,
      meta "Batch unbalanced"
          "Internal double-entry invariant violated (sum of debits does not equal sum of credits)"
          "E5003" "" rejected,
    )
    ∷ (
      tier_insufficient,
      meta "KYC tier insufficient"
          "Your KYC tier does not permit this operation; please upgrade your verification level"
          "E2007" "RR04" rejected,
    )
    ∷ (
      dr_restraint_active,
      meta "Debit restraint active"
          "The account has an active debit restraint (hold/lien) preventing this withdrawal or transfer"
          "E3005" "AC06" rejected,
    )
    ∷ (
      cr_restraint_active,
      meta "Credit restraint active"
          "The account has an active credit restraint preventing incoming funds" "E3006" "AC06"
          rejected,
    )
    ∷ (
      group_restrained,
      meta "Group restrained"
          "The merchant group has an active debit restraint preventing this withdrawal" "E3007"
          "AC06" rejected,
    )
    ∷ (
      insufficient_funds,
      meta "Insufficient funds" "The account balance is not sufficient to cover this transaction"
          "E4022" "AM04" rejected,
    )
    ∷ (
      tier_limit_exceeded,
      meta "Transaction limit exceeded"
          "The transaction exceeds the daily or monthly limit for this account tier" "E4023" "AM02"
          rejected,
    )
    ∷ (
      version_conflict,
      meta "Concurrent update conflict"
          "Another transaction updated this account simultaneously; the operation can be retried"
          "E4025" "" pending,
    )
    ∷ (
      duplicate_reference,
      meta "Duplicate reference" "A transaction with this reference has already been processed"
          "E4011" "AM05" "",
    )
    ∷ []

abbrev system_meta : List (String × CodeMeta)
system_meta =
    (
      pii_dek_not_set,
      meta "PII encryption key not configured"
          "The server PII data-encryption key (DEK) is not set; contact system administrator"
          "E5005" "" pending,
    )
    ∷ (
      wd_not_found,
      meta "Withdrawal not found" "No withdrawal record found for the given payout reference"
          "E6101" "" "",
    )
    ∷ (
      wd_already_completed,
      meta "Withdrawal already completed" "This withdrawal has already reached COMPLETED status"
          "E6102" "" "",
    )
    ∷ (
      wd_invalid_state,
      meta "Withdrawal invalid state"
          "The withdrawal is in a state that does not permit this transition" "E6103" "" "",
    )
    ∷ (
      wd_already_reversed,
      meta "Withdrawal already reversed" "This withdrawal has already been reversed" "E6104" "" "",
    )
    ∷ (
      reversal_window_expired,
      meta "Reversal window expired"
          "The original transaction is older than the allowed reversal window; use a GL adjustment instead"
          "E6105" "AG09" rejected,
    )
    ∷ (
      internal,
      meta "Internal error" "An unexpected error occurred; please retry or contact support" "E9001"
          "" pending,
    )
    ∷ (
      timeout,
      meta "Request timed out" "The request exceeded the allowed processing time; you may retry"
          "E9004" "" pending,
    )
    ∷ (
      unauthorized,
      meta "Unauthorized" "Authentication is required or the provided credentials are invalid"
          "E1001" "" "",
    )
    ∷ (
      forbidden,
      meta "Forbidden" "You do not have permission to perform this operation" "E1006" "AG01" "",
    )
    ∷ (
      invalid_request,
      meta "Invalid request" "The request body is malformed or missing required fields" "E4001" ""
          rejected,
    )
    ∷ (
      invalid_date,
      meta "Invalid date" "The as_of_date parameter is invalid or refers to a future date" "E8003"
          "DT01" "",
    )
    ∷ (
      gone_online,
      meta "Data no longer available online"
          "Historical data beyond the online retention period; request an archive extract" "E8001"
          "" "",
    )
    ∷ (
      batch_size_exceeded,
      meta "Batch size exceeded" "The batch request exceeds the maximum number of items (100)"
          "E8004" "" "",
    )
    ∷ (
      period_closed,
      meta "Posting period is closed"
          "The target accounting date is sealed; post against the current open period" "E8005"
          "DT01" rejected,
    )
    ∷ []

abbrev client_meta : List (String × CodeMeta)
client_meta =
    (
      restraint_not_found,
      meta "Restraint not found" "No restraint exists with the specified ID" "E3020" "" "",
    )
    ∷ (
      restraint_already_removed,
      meta "Restraint already removed" "This restraint has already been released or expired" "E3021"
          "" "",
    )
    ∷ (
      restraint_type_invalid,
      meta "Invalid restraint type" "Restraint type must be one of: DEBIT, CREDIT, ALL, INFO"
          "E3022" "" "",
    )
    ∷ (
      restraint_purpose_invalid,
      meta "Invalid restraint purpose" "Restraint purpose is not a recognized value" "E3023" "" "",
    )
    ∷ (
      restraint_type_purpose_conflict,
      meta "Restraint type/purpose conflict"
          "The combination of restraint type and purpose is not allowed (e.g. COURT_ORDER must be ALL)"
          "E3024" "" "",
    )
    ∷ (
      restraint_amt_exceeds_balance,
      meta "Pledged amount exceeds balance"
          "The pledged amount cannot exceed the current account balance" "E3025" "AM04" "",
    )
    ∷ (
      restraint_date_invalid,
      meta "Invalid restraint date range" "The end_date must be on or after the start_date" "E3026"
          "DT01" "",
    )
    ∷ (
      court_order_remove_requires_doc,
      meta "Court order removal requires documentation"
          "Removing a COURT_ORDER or TAX_LIEN restraint requires a reference_doc" "E3027" "RR04" "",
    )
    ∷ (
      invalid_client_type,
      meta "Invalid client type" "Client type must be one of: IND, CORP, MER" "E2010" "" "",
    )
    ∷ (
      client_already_exists,
      meta "Client already exists" "A client with this identity document already exists" "E2009"
          "AM05" "",
    )
    ∷ (
      client_not_found,
      meta "Client not found" "No client record found for the specified client number" "E2011" ""
          "",
    )
    ∷ (
      phone_already_registered,
      meta "Phone already registered"
          "This phone number is already associated with an existing account" "E2002" "AM05" "",
    )
    ∷ (
      invalid_phone_format,
      meta "Invalid phone format" "Phone number must match Vietnam format: 0XXXXXXXXX (10 digits)"
          "E2001" "" rejected,
    )
    ∷ (
      kyc_not_found,
      meta "KYC record not found" "No KYC record exists for this client" "E2012" "" "",
    )
    ∷ (
      org_fields_required,
      meta "Organization fields required"
          "Corporate/merchant clients must provide business_reg_no and legal_rep in extra_data"
          "E2013" "" rejected,
    )
    ∷ (
      bank_link_not_found,
      meta "Bank link not found" "No linked bank account found with the specified ID" "E2014" "" "",
    )
    ∷ (
      invalid_acct_type,
      meta "Invalid account type" "The specified account type does not exist in the system" "E3007"
          "" "",
    )
    ∷ []

abbrev lifecycle_meta : List (String × CodeMeta)
lifecycle_meta =
    (
      max_wallet_exceeded,
      meta "Wallet count limit exceeded"
          "You have reached the maximum number of wallets allowed (CONSUMER: 3 per currency, MERCHANT: 10)"
          "E3002" "" "",
    )
    ∷ (
      acct_close_nonzero_bal,
      meta "Cannot close account with balance"
          "Account closure requires a zero balance; transfer or withdraw all funds first" "E3003" ""
          "",
    )
    ∷ (
      invalid_shard_count,
      meta "Invalid shard count" "Shard count must be 4, 8, or 16" "E3030" "" "",
    )
    ∷ (
      group_already_activated,
      meta "Group already activated" "This merchant group has already been activated with shards"
          "E3031" "" "",
    )
    ∷ (
      invalid_group_type,
      meta "Invalid group type" "Group type must be one of: MERCHANT, AGENT, NOSTRO_HOT" "E3032" ""
          "",
    )
    ∷ (
      group_already_exists,
      meta "Group already exists" "A group with this ID already exists" "E3033" "AM05" "",
    )
    ∷ (
      group_not_activated,
      meta "Group not activated" "This group is still cold (0 shards); activate it before rescaling"
          "E3034" "" "",
    )
    ∷ (
      mje_reason_required,
      meta "Reason required" "A reason is mandatory for a manual journal entry" "E6050" "" "",
    )
    ∷ (
      mje_invalid_lines,
      meta "Invalid journal lines"
          "A journal entry needs at least two lines, each DR or CR with amount > 0" "E6051" "" "",
    )
    ∷ (
      mje_gl_invalid,
      meta "Invalid GL code" "A journal line references a GL code that is unknown or inactive"
          "E6052" "" "",
    )
    ∷ (
      mje_unbalanced,
      meta "Journal entry unbalanced" "Total debits must equal total credits" "E6053" "" "",
    )
    ∷ (
      mje_not_found,
      meta "Journal entry not found" "No manual journal entry exists with the specified id" "E6054"
          "" "",
    )
    ∷ (
      mje_invalid_state,
      meta "Invalid journal entry state"
          "The journal entry is not pending and cannot be approved or rejected" "E6055" "" "",
    )
    ∷ (
      mje_maker_cannot_check,
      meta "Maker cannot check" "The maker of a journal entry cannot approve their own entry"
          "E6056" "" "",
    )
    ∷ []

-- The map `codeMeta`; a code stands in it once.
unfoldable pub code_meta : List (String × CodeMeta)
code_meta = posting_meta ++ (system_meta ++ (client_meta ++ lifecycle_meta))

-- `m, ok := codeMeta[code]`.
unfoldable pub find_meta : String → List (String × CodeMeta) → Option CodeMeta
find_meta code [] = none
find_meta code ((c, m) ∷ rest) = if str_eq c code then some m else find_meta code rest

abbrev pub or_else {ℓ} : {A : Type ℓ} → Option A → A → A
or_else none d = d
or_else (some a) d = a

-- The `switch` of `MetaFor` behind the lookup.
unfoldable pub family_meta : String → CodeMeta
family_meta code =
    if has_suffix code "_NOT_FOUND"
    then meta "Resource not found" "The requested resource does not exist" "" "AC01" rejected
    else if has_suffix code "_NOT_ACTIVE"
    then meta "Resource not active" "The resource is not in an active state" "" "AC04" rejected
    else if has_suffix code "_RESTRAINT_ACTIVE"
    then meta "Account restrained" "The account has an active restraint preventing this operation"
        "" "AC06" rejected
    else meta code code "" "" ""

-- `MetaFor`.
unfoldable pub meta_for : String → CodeMeta
unfolding family_meta
meta_for code = or_else (find_meta code code_meta) (family_meta code)

abbrev pub is_some {ℓ} : {A : Type ℓ} → Option A → Bool
is_some none = false
is_some (some _) = true

-- `IsClientSafeCode`.
unfoldable pub is_client_safe : String → Bool
is_client_safe code =
    if str_eq code "" || str_eq code internal
    then false
    else if is_some (find_meta code code_meta)
    then true
    else has_suffix code "_NOT_FOUND"
      || (has_suffix code "_NOT_ACTIVE" || has_suffix code "_RESTRAINT_ACTIVE")

-- `TxStatusForMark`.
unfoldable pub tx_status_for_mark : String → String
tx_status_for_mark status =
    if str_eq status "ACKED"
    then accepted_technical
    else if str_eq status "DISBURSING"
    then in_process
    else if str_eq status "COMPLETED"
    then settled
    else ""

-- `ReasonFor`.
unfoldable pub reason_for : String → String
unfolding meta_for
reason_for code = (meta_for code).iso_reason
