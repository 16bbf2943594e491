-- ===== src/Errors/Codes.antt =====
-- The canonical error codes of services/wallet-service/internal/domain/errors.go.
use core_wallet.Prelude.{String, List, [], ◌∷◌}

abbrev pub invalid_amount : String
invalid_amount = "INVALID_AMOUNT"

abbrev pub metadata_too_large : String
metadata_too_large = "METADATA_TOO_LARGE"

abbrev pub metadata_has_p1 : String
metadata_has_p1 = "METADATA_HAS_P1"

abbrev pub same_account : String
same_account = "SAME_ACCOUNT"

abbrev pub tran_type_inactive : String
tran_type_inactive = "TRAN_TYPE_INACTIVE"

abbrev pub acct_not_found : String
acct_not_found = "ACCT_NOT_FOUND"

abbrev pub acct_not_active : String
acct_not_active = "ACCT_NOT_ACTIVE"

abbrev pub acct_role_invalid : String
acct_role_invalid = "ACCT_ROLE_INVALID"

abbrev pub batch_unbalanced : String
batch_unbalanced = "BATCH_UNBALANCED"

abbrev pub tier_insufficient : String
tier_insufficient = "TIER_INSUFFICIENT"

abbrev pub amount_out_of_range : String
amount_out_of_range = "AMOUNT_OUT_OF_RANGE"

abbrev pub dr_restraint_active : String
dr_restraint_active = "DR_RESTRAINT_ACTIVE"

abbrev pub cr_restraint_active : String
cr_restraint_active = "CR_RESTRAINT_ACTIVE"

abbrev pub group_restrained : String
group_restrained = "GROUP_RESTRAINED"

abbrev pub insufficient_funds : String
insufficient_funds = "INSUFFICIENT_FUNDS"

abbrev pub tier_limit_exceeded : String
tier_limit_exceeded = "TIER_LIMIT_EXCEEDED"

abbrev pub version_conflict : String
version_conflict = "VERSION_CONFLICT"

abbrev pub pii_dek_not_set : String
pii_dek_not_set = "PII_DEK_NOT_SET"

abbrev pub wd_not_found : String
wd_not_found = "WD_NOT_FOUND"

abbrev pub wd_already_completed : String
wd_already_completed = "WD_ALREADY_COMPLETED"

abbrev pub wd_invalid_state : String
wd_invalid_state = "WD_INVALID_STATE"

abbrev pub wd_already_reversed : String
wd_already_reversed = "WD_ALREADY_REVERSED"

abbrev pub reversal_window_expired : String
reversal_window_expired = "REVERSAL_WINDOW_EXPIRED"

abbrev pub internal : String
internal = "INTERNAL_ERROR"

abbrev pub timeout : String
timeout = "TIMEOUT"

abbrev pub unauthorized : String
unauthorized = "UNAUTHORIZED"

abbrev pub forbidden : String
forbidden = "FORBIDDEN"

abbrev pub invalid_request : String
invalid_request = "INVALID_REQUEST"

abbrev pub duplicate_reference : String
duplicate_reference = "DUPLICATE_REFERENCE"

abbrev pub invalid_date : String
invalid_date = "INVALID_DATE"

abbrev pub gone_online : String
gone_online = "GONE_ONLINE"

abbrev pub batch_size_exceeded : String
batch_size_exceeded = "BATCH_SIZE_EXCEEDED"

abbrev pub restraint_not_found : String
restraint_not_found = "RESTRAINT_NOT_FOUND"

abbrev pub restraint_already_removed : String
restraint_already_removed = "RESTRAINT_ALREADY_REMOVED"

abbrev pub restraint_type_invalid : String
restraint_type_invalid = "RESTRAINT_TYPE_INVALID"

abbrev pub restraint_purpose_invalid : String
restraint_purpose_invalid = "RESTRAINT_PURPOSE_INVALID"

abbrev pub restraint_type_purpose_conflict : String
restraint_type_purpose_conflict = "RESTRAINT_TYPE_PURPOSE_CONFLICT"

abbrev pub restraint_amt_exceeds_balance : String
restraint_amt_exceeds_balance = "RESTRAINT_AMT_EXCEEDS_BALANCE"

abbrev pub restraint_date_invalid : String
restraint_date_invalid = "RESTRAINT_DATE_INVALID"

abbrev pub court_order_remove_requires_doc : String
court_order_remove_requires_doc = "COURT_ORDER_REMOVE_REQUIRES_DOC"

abbrev pub invalid_client_type : String
invalid_client_type = "INVALID_CLIENT_TYPE"

abbrev pub client_already_exists : String
client_already_exists = "CLIENT_ALREADY_EXISTS"

abbrev pub client_not_found : String
client_not_found = "CLIENT_NOT_FOUND"

abbrev pub phone_already_registered : String
phone_already_registered = "PHONE_ALREADY_REGISTERED"

abbrev pub invalid_phone_format : String
invalid_phone_format = "INVALID_PHONE_FORMAT"

abbrev pub kyc_not_found : String
kyc_not_found = "KYC_NOT_FOUND"

abbrev pub org_fields_required : String
org_fields_required = "ORG_FIELDS_REQUIRED"

abbrev pub bank_link_not_found : String
bank_link_not_found = "BANK_LINK_NOT_FOUND"

abbrev pub invalid_acct_type : String
invalid_acct_type = "INVALID_ACCT_TYPE"

abbrev pub max_wallet_exceeded : String
max_wallet_exceeded = "MAX_WALLET_PER_CLIENT_EXCEEDED"

abbrev pub acct_close_nonzero_bal : String
acct_close_nonzero_bal = "ACCT_CLOSE_NONZERO_BAL"

abbrev pub invalid_shard_count : String
invalid_shard_count = "INVALID_SHARD_COUNT"

abbrev pub group_already_activated : String
group_already_activated = "GROUP_ALREADY_ACTIVATED"

abbrev pub invalid_group_type : String
invalid_group_type = "INVALID_GROUP_TYPE"

abbrev pub group_already_exists : String
group_already_exists = "GROUP_ALREADY_EXISTS"

abbrev pub group_not_activated : String
group_not_activated = "GROUP_NOT_ACTIVATED"

abbrev pub period_closed : String
period_closed = "PERIOD_CLOSED"

abbrev pub mje_reason_required : String
mje_reason_required = "MJE_REASON_REQUIRED"

abbrev pub mje_invalid_lines : String
mje_invalid_lines = "MJE_INVALID_LINES"

abbrev pub mje_gl_invalid : String
mje_gl_invalid = "MJE_GL_INVALID"

abbrev pub mje_unbalanced : String
mje_unbalanced = "MJE_UNBALANCED"

abbrev pub mje_not_found : String
mje_not_found = "MJE_NOT_FOUND"

abbrev pub mje_invalid_state : String
mje_invalid_state = "MJE_INVALID_STATE"

abbrev pub mje_maker_cannot_check : String
mje_maker_cannot_check = "MJE_MAKER_CANNOT_CHECK"

-- All of them, in the order of the source.
abbrev pub canonical_codes : List String
canonical_codes =
    invalid_amount ∷ metadata_too_large ∷ metadata_has_p1 ∷ same_account ∷ tran_type_inactive
    ∷ acct_not_found ∷ acct_not_active ∷ acct_role_invalid ∷ batch_unbalanced ∷ tier_insufficient
    ∷ amount_out_of_range ∷ dr_restraint_active ∷ cr_restraint_active ∷ group_restrained
    ∷ insufficient_funds ∷ tier_limit_exceeded ∷ version_conflict ∷ pii_dek_not_set ∷ wd_not_found
    ∷ wd_already_completed ∷ wd_invalid_state ∷ wd_already_reversed ∷ reversal_window_expired
    ∷ internal ∷ timeout ∷ unauthorized ∷ forbidden ∷ invalid_request ∷ duplicate_reference
    ∷ invalid_date ∷ gone_online ∷ batch_size_exceeded ∷ restraint_not_found
    ∷ restraint_already_removed ∷ restraint_type_invalid ∷ restraint_purpose_invalid
    ∷ restraint_type_purpose_conflict ∷ restraint_amt_exceeds_balance ∷ restraint_date_invalid
    ∷ court_order_remove_requires_doc ∷ invalid_client_type ∷ client_already_exists
    ∷ client_not_found ∷ phone_already_registered ∷ invalid_phone_format ∷ kyc_not_found
    ∷ org_fields_required ∷ bank_link_not_found ∷ invalid_acct_type ∷ max_wallet_exceeded
    ∷ acct_close_nonzero_bal ∷ invalid_shard_count ∷ group_already_activated ∷ invalid_group_type
    ∷ group_already_exists ∷ group_not_activated ∷ period_closed ∷ mje_reason_required
    ∷ mje_invalid_lines ∷ mje_gl_invalid ∷ mje_unbalanced ∷ mje_not_found ∷ mje_invalid_state
    ∷ mje_maker_cannot_check ∷ []
