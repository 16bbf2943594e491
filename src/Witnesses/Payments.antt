-- ===== src/Witnesses/Payments.antt =====
-- Concrete postings of the wallet service (http/handler, usecase, repo) and a concrete purge of the
-- retention janitor: a database that counts its postings, and one that counts its aged rows.
use core_wallet.Prelude.{
  ◌==◌, and_true, true_and, ℕ, suc, ◌+◌, ◌-◌, ◌≤◌, ◌<◌, ◌≡◌, ◌≢◌, ◌↔◌, refl, ap, String, Bool, true,
  false, Option, none, some, List, [], ◌∷◌, all, map, min, arith, if◌then◌else◌, Bool-cases, inl,
  inr, codes, not, str_eq, ◌&&◌, sym,
}
use core_wallet.Prelude.Ints.{ℤ, pos}
use core_wallet.Errors.{pg, GoError, nil, other}
use core_wallet.Problem.{ProblemDetails}
use core_wallet.Tx.{AuditContext, Driver, Settings}
use core_wallet.Posting.{null, flag, Value, text, int, Answer, row, failed, Procedures, Result, ok}
use core_wallet.Posting.Metadata.{Json, Meta, lookup, with_narrative}
use core_wallet.Posting.Metadata.Narrative.{lookup-with_narrative}
use core_wallet.Posting.Finance.{scan_transfer_result, transfer_args}
use core_wallet.Posting.Types.{zero_transfer}
use core_wallet.Requests.{satisfies, max_len, Engine, Field, field_passes, field_error}
use core_wallet.Requests.Formats.{is_money}
use core_wallet.Requests.Formats.Patterns.{IsMoney, is_money_iff}
use core_wallet.Requests.Finance.{
  TransferRequest, TransferResponse, transfer_fields, transfer_resp_from,
}
use core_wallet.Handlers.{Response, sent, refused, SuccessEnvelope, ok_envelope, status_for}
use core_wallet.Handlers.Finance.{transfer_input, transfer}
use core_wallet.Posting.Finance.{merchant_withdraw}
use core_wallet.Handlers.Posted.{Posted, transfer-Posted, transfer_invalid}
use core_wallet.Janitor.{Jobs, made}
use core_wallet.Janitor.Retention.{Retention, new_retention, purge}
use core_wallet.Janitor.Retention.Drained.{Ages, purge_terminates}

abbrev faults : List Field → List (String × String)
faults [] = []
faults (f ∷ fields) =
    let rest = faults fields in if field_passes f then rest else (f.name, "rule") ∷ rest

clean_to :
    {A : Type 0} (b : Bool) (x : A) (rest : List A)
    → (if b then rest else x ∷ rest) ≡ []
    → (b ≡ true) × (rest ≡ [])
clean_to true x rest h = (refl, h)
clean_to false x rest h = absurd cc

pub faults_to : (fields : List Field) → faults fields ≡ [] → all field_passes fields ≡ true
faults_to [] h = refl
faults_to (f ∷ fields) h =
    let (fits, rest) = clean_to (field_passes f) (f.name, "rule") (faults fields) h in
    true_and (field_passes f) (all field_passes fields) fits (faults_to fields rest)

pub faults_of : (fields : List Field) → all field_passes fields ≡ true → faults fields ≡ []
faults_of [] h = refl
faults_of (f ∷ fields) h =
    let (fits, rest) = and_true (field_passes f) (all field_passes fields) h in
    rw (fits) (faults_of fields rest)

abbrev pub engine : Engine
engine = record { validate = faults; validate_iff = λ fields. (faults_to fields, faults_of fields) }

-- Every call posts, and answers a row of seven columns.
abbrev posted_row : Answer
posted_row = row (
    int 42
    ∷ text "SUCCESS"
    ∷ text "900.00"
    ∷ text "1100.00"
    ∷ text "0.00"
    ∷ text "0.00"
    ∷ text "4a1f"
    ∷ [])

never_fails :
    (db db' : ℕ) (e : GoError) → ◌≡◌ {A = Answer × ℕ} (posted_row, db + 1) (failed e, db') → e ≢ nil
never_fails db db' e h = absurd cc

pub text_not_nil : (vs : List Value) → other "scan" ≢ nil
text_not_nil vs h = cc

abbrev procs : Procedures ℕ
procs = record {
  call = λ name args db. (posted_row, db + 1);
  scan_error = λ vs. other "scan";
  call_fails = λ name args db db' e h. never_fails db db' e h;
  scan_fails = text_not_nil;
}

abbrev pub driver : Driver ℕ
driver = record {
  begin = λ w. (nil, w);
  begin_read_only = λ w. (nil, w);
  set_timeouts = λ s l w. (nil, w);
  set_config = λ g w. (nil, w);
  commit = λ w. (nil, w);
  rollback = λ w. w;
  ctx_done = λ w. false;
  jitter = λ w. 3;
  wait = λ t w. (false, w);
}

abbrev pub settings : Settings
settings = record {
  statement_timeout_ms = 2500;
  lock_timeout_ms = 1500;
  tx_max_retries = 2;
  pii_dek = "dek";
}

abbrev pub audit : AuditContext
audit = record {
  actor = "alice";
  channel = "API";
  request_id = "r1";
  trace_id = "";
  trace_parent = "";
  ip_address = "10.0.0.1";
  user_agent = "curl";
}

abbrev marshal : Meta → Result String
marshal m = ok "{}"

abbrev request : String → TransferRequest
request amount = record {
  from_acct_no = "AC00000001";
  to_acct_no = "AC00000002";
  amount = amount;
  reference = "ref-0001";
  tran_type = "";
  narrative = "rent";
  metadata = none;
}

abbrev reply : SuccessEnvelope TransferResponse
reply = record {
  error_code = "00000";
  error_message = "Success!";
  payload = record {
    tran_internal_id = 42;
    status = "SUCCESS";
    transaction_status = "ACSC";
    new_balance_from = "900.00";
    new_balance_to = "1100.00";
    fee_gross = "0.00";
    vat_amount = "0.00";
    event_uuid = "4a1f";
  };
  timestamp = "now";
}

posted :
    transfer driver settings procs marshal engine audit "now" (some (request "100.00")) 7
    ≡ (sent 201 reply, 8)
unfolding transfer core_wallet.Handlers.on_bound core_wallet.Handlers.respond
    core_wallet.Requests.should_bind_json transfer_fields core_wallet.Requests.passes
    core_wallet.Requests.satisfies core_wallet.Requests.Formats.is_acct_no is_money
    core_wallet.Requests.Formats.money_matches core_wallet.Requests.Formats.span_digits
    core_wallet.Requests.Formats.is_fraction core_wallet.Service.transfer
    core_wallet.Posting.Finance.transfer core_wallet.Posting.Finance.with_json
    core_wallet.Posting.run_procedure core_wallet.Posting.lift_driver core_wallet.Posting.query
    scan_transfer_result core_wallet.Tx.with_tx core_wallet.Tx.attempts core_wallet.Tx.run_tx
    core_wallet.Tx.on_ok core_wallet.Tx.is_conflict core_wallet.Errors.as_domain ok_envelope
    status_for transfer_resp_from
posted = refl

transfer-Posted_example :
    Posted driver settings procs marshal audit "now" transfer_fields
      (λ req. with_narrative req.metadata req.narrative)
      scan_transfer_result
      zero_transfer
      "post_transfer"
      (λ req json. transfer_args (transfer_input req audit) json)
      (λ res. status_for res.status)
      transfer_resp_from
      (some (request "100.00"))
      201
      reply
      8
transfer-Posted_example =
    transfer-Posted driver settings procs marshal engine audit "now" (some (request "100.00")) 7 8
      201 reply posted

breaks_rules : all field_passes (transfer_fields (request "1.234")) ≡ false
unfolding transfer_fields core_wallet.Requests.passes core_wallet.Requests.satisfies
    core_wallet.Requests.Formats.is_acct_no is_money core_wallet.Requests.Formats.money_matches
    core_wallet.Requests.Formats.span_digits core_wallet.Requests.Formats.is_fraction
breaks_rules = refl

transfer_invalid_example :
    (p : ProblemDetails) × (transfer driver settings procs marshal engine audit "now"
        (some (request "1.234"))
        7
      ≡ (refused p, 7))
    × (p.status ≡ 400)
    × (p.errors ≡ map field_error (faults (transfer_fields (request "1.234"))))
    × (faults (transfer_fields (request "1.234")) ≢ [])
transfer_invalid_example =
    transfer_invalid driver settings procs marshal engine audit "now" (request "1.234") 7
      breaks_rules

is_money_iff_example : (is_money "12.50" ≡ true) ↔ IsMoney (codes "12.50")
is_money_iff_example = is_money_iff "12.50"

lookup-with_narrative_example :
    lookup "narrative" (with_narrative none "rent") ≡ some (Json.text "rent")
lookup-with_narrative_example = lookup-with_narrative none "rent" "narrative"

-- Aged rows, as the state of the database, and a delete of a batch.
abbrev removed : ℤ → ℕ → (ℕ × GoError) × ℕ
removed (pos b) w = ((min b w, nil), w - min b w)
removed _ w = ((0, nil), w)

abbrev jobs : Jobs ℕ
jobs = record {
  ctx_err = λ w. nil;
  begin = λ w. (nil, w);
  set_timeout = λ t w. (nil, w);
  count = λ fn days batch w. removed batch w;
  sweep = λ batch w. (((0, 0, 0), nil), w);
  ensure = λ months w. ((("", ""), nil), w);
  commit = λ w. (nil, w);
  rollback = λ w. w;
}

ages : Ages jobs "fn_purge_outbox_sent" (pos 7) (λ w. w)
ages = record {
  begins = λ w w' h. sym (ap (λ p. p.1) h);
  times = λ t w w' h. sym (ap (λ p. p.1) h);
  counts = λ b w w' n h.
      let many = ap (λ p. p.0.0) h in
      let left = ap (λ p. p.1) h in (sym many, omega (arith, many, left));
  commits = λ w w' h. sym (ap (λ p. p.1) h);
}

abbrev janitor : Retention
janitor = record {
  interval = pos 3600;
  api_days = pos 90;
  outbox_days = pos 7;
  batch_size = pos 4;
  run_timeout = pos 60;
}

purge_terminates_example :
    (end : (ℕ × GoError) × ℕ) × (purge jobs janitor 11 "fn_purge_outbox_sent" (pos 7) 0 10
      ≡ some end)
    × (end.0.0 ≤ 10)
    × (end.0.1 ≡ nil → (end.0.0 ≡ 10) × (end.1 ≡ 0))
unfolding new_retention core_wallet.Janitor.checked core_wallet.Janitor.Retention.validate_retention
    core_wallet.Janitor.validate_config core_wallet.Prelude.Ints.is_positive
purge_terminates_example =
    purge_terminates jobs janitor "fn_purge_outbox_sent" (pos 7) (λ w. w) 10 ages refl (omega arith)

-- A merchant withdraw whose first commit loses a conflict, and whose second attempt finds that the
-- shards have to be swept first, so that its row has no transaction.
abbrev swept_row : Answer
swept_row = row (
    null
    ∷ text "SETTLEMENT_SWEEP_REQUIRED"
    ∷ text "10.00"
    ∷ text "0.00"
    ∷ text "0.00"
    ∷ text "10.00"
    ∷ text "5.00"
    ∷ null
    ∷ [])

abbrev paid_row : Answer
paid_row = row (
    int 42
    ∷ text "SUCCESS"
    ∷ text "10.00"
    ∷ text "0.00"
    ∷ text "0.00"
    ∷ text "10.00"
    ∷ text "90.00"
    ∷ text "4a1f"
    ∷ [])

rows_not_failed :
    (b : Bool) (db db' : ℕ) (e : GoError)
    → ◌≡◌ {A = Answer × ℕ} (if b then paid_row else swept_row, db + 1) (failed e, db')
    → e ≢ nil
rows_not_failed true db db' e h = absurd cc
rows_not_failed false db db' e h = absurd cc

abbrev two_rows : Procedures ℕ
two_rows = record {
  call = λ name args db. (if db == 0 then paid_row else swept_row, db + 1);
  scan_error = λ vs. other "scan";
  call_fails = λ name args db db' e h. rows_not_failed (db == 0) db db' e h;
  scan_fails = text_not_nil;
}

abbrev losing : Driver ℕ
losing = record {
  begin = λ w. (nil, w);
  begin_read_only = λ w. (nil, w);
  set_timeouts = λ s l w. (nil, w);
  set_config = λ g w. (nil, w);
  commit = λ w. (if w == 1 then pg "40001" "conflict" else nil, w);
  rollback = λ w. w;
  ctx_done = λ w. false;
  jitter = λ w. 3;
  wait = λ t w. (false, w);
}

-- The result carries the transaction that was rolled back.
stale_result :
    merchant_withdraw losing settings two_rows
      (record {
        group_id = "G1";
        amount = "10.00";
        reference = "ref-0001";
        ext_payout_ref = "";
        auto_sweep = false;
        audit = audit;
      })
      0
    ≡ (
      ok (record {
        tran_internal_id = 42;
        status = "SETTLEMENT_SWEEP_REQUIRED";
        amount = "10.00";
        fee_gross = "0.00";
        vat_amount = "0.00";
        total_deducted = "10.00";
        settlement_balance_after = "5.00";
        event_uuid = "4a1f";
      }),
      2,
    )
unfolding merchant_withdraw core_wallet.Posting.run_procedure core_wallet.Posting.lift_driver
    core_wallet.Posting.query core_wallet.Tx.with_tx core_wallet.Tx.attempts core_wallet.Tx.run_tx
    core_wallet.Tx.on_ok core_wallet.Tx.is_conflict core_wallet.Errors.as_domain
    core_wallet.Posting.Finance.scan_merchant_withdraw core_wallet.PgErrors.map_pg_error
    core_wallet.PgErrors.map_driver_error core_wallet.Errors.is_deadline
    core_wallet.Errors.is_canceled core_wallet.Errors.as_pg core_wallet.Errors.is_retriable
    core_wallet.PgErrors.map_found_pg
stale_result = refl

-- The bounds of a tag count characters, not bytes.
accents_fit : satisfies (max_len 3) "éàü" ≡ true
unfolding satisfies
accents_fit = refl

accents_exceed : satisfies (max_len 3) "éàüô" ≡ false
unfolding satisfies
accents_exceed = refl
