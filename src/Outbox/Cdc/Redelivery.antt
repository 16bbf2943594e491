-- ===== src/Outbox/Cdc/Redelivery.antt =====
-- CDC mode under redelivery and failure: a message that comes again changes nothing, a SENT or DEAD
-- row is never written, and what a run of messages counts and leaves behind.
use core_wallet.Prelude.{
  ◌&&◌, ◌||◌, not, true, ℕ, ◌+◌, ◌≡◌, refl, ap, sym, ◌∙◌, String, Bool, false, Option, none, some,
  List, [], ◌∷◌, ◌==◌, arith, if◌then◌else◌, Bool-cases, inl, inr, suc,
}
use core_wallet.Outbox.{SentRef, Row, Status, sent, dead, pending, failed, row_id}
use core_wallet.Outbox.Table.{mark_sent_cdc, mark_one_sent}
use core_wallet.Outbox.Cdc.{
  unmarshal_error, zero_event_id, mark_delivered_error, DebeziumEvent, CdcMessage, CdcError, handle,
  handle_event, mark_delivered, event_id_of, Consumed, consume_claim, note_handled, is_skipped,
}

mark_one_sent-twice :
    (now now' : ℕ) (ref ref' : SentRef) (row : Row) (s : Status)
    → ref.event_id ≡ ref'.event_id
    → let once = mark_one_sent now ref s row in
      row.status ≡ s → mark_one_sent now' ref' once.status once ≡ once
unfolding mark_one_sent
mark_one_sent-twice now now' ref ref' row sent e h = rw (h) refl
mark_one_sent-twice now now' ref ref' row dead e h = rw (h) refl
mark_one_sent-twice now now' ref ref' row pending e h =
    elim (Bool-cases (row_id row == ref.event_id)) [
      | inl hit ↦ rw (hit) refl
      | inr miss ↦ rw (miss, h, sym e, miss) refl
    ]
mark_one_sent-twice now now' ref ref' row failed e h =
    elim (Bool-cases (row_id row == ref.event_id)) [
      | inl hit ↦ rw (hit) refl
      | inr miss ↦ rw (miss, h, sym e, miss) refl
    ]

mark_sent_cdc-twice :
    (now now' : ℕ) (ref ref' : SentRef) (rows : List Row)
    → ref.event_id ≡ ref'.event_id
    → mark_sent_cdc now' ref' (mark_sent_cdc now ref rows) ≡ mark_sent_cdc now ref rows
unfolding mark_sent_cdc
mark_sent_cdc-twice now now' ref ref' [] e = refl
mark_sent_cdc-twice now now' ref ref' (r ∷ rows) e = cc (
  mark_one_sent-twice now now' ref ref' r r.status e refl,
  mark_sent_cdc-twice now now' ref ref' rows e,
)

mark_delivered-twice :
    (now now' : ℕ) (db db' : Bool) (ref ref' : SentRef) (rows : List Row)
    → ref.event_id ≡ ref'.event_id
    → (mark_delivered db now ref rows).0 ≡ none
    → (mark_delivered db' now' ref' (mark_delivered db now ref rows).1).1
      ≡ (mark_delivered db now ref rows).1
unfolding mark_delivered
mark_delivered-twice now now' db db' ref ref' rows e h =
    ground (arith, mark_sent_cdc-twice now now' ref ref' rows e)

abbrev ref_of : CdcMessage → DebeziumEvent → SentRef
ref_of msg event = record {
  event_id = event_id_of event;
  partition = msg.partition;
  offset = msg.offset;
}

skips : {A : Type 0} (b : Bool) (x y : A) → b ≡ false → (if b then x else y) ≡ y
skips b x y h = rw (h) refl

handle_event-twice :
    (now now' : ℕ) (db db' : Bool) (first again : CdcMessage) (event : Option DebeziumEvent)
    (rows : List Row)
    → (handle_event db now first event rows).0 ≡ none
    → (handle_event db' now' again event (handle_event db now first event rows).1).1
      ≡ (handle_event db now first event rows).1
unfolding handle_event
handle_event-twice now now' db db' first again none rows h = refl
handle_event-twice now now' db db' first again (some event) rows h =
    elim (Bool-cases (is_skipped event)) [
      | inl skip ↦ rw (skip) refl
      | inr row ↦
          let step =
            skips (is_skipped event) (none, rows) (mark_delivered db now (ref_of first event) rows)
              row in
          rw (row) (
            mark_delivered-twice now now' db db' (ref_of first event) (ref_of again event) rows refl
              (ap (λ r. r.0) (sym step) ∙ h))
    ]

-- A message whose content comes again, at any later time, position and state of the database, leaves
-- the table as the first delivery, handled without an error, left it.
pub handle_redelivered :
    (unmarshal : String → Option DebeziumEvent) (now now' : ℕ) (db_fails db_fails' : Bool)
    (first again : CdcMessage) (rows : List Row)
    → first.value ≡ again.value
    → (handle unmarshal db_fails now first rows).0 ≡ none
    → let rows' = (handle unmarshal db_fails now first rows).1 in
      (handle unmarshal db_fails' now' again rows').1 ≡ rows'
unfolding handle
handle_redelivered unmarshal now now' db db' first again rows same h =
    ap (λ v. (handle_event db' now' again (unmarshal v) (handle unmarshal db now first rows).1).1)
      (sym same)
    ∙ handle_event-twice now now' db db' first again (unmarshal first.value) rows h

-- The messages that `handle` fails on, whatever the table holds: one that is no JSON, and one that is
-- neither a delete nor a tombstone where it names no event or the database fails.
abbrev pub is_failing : Option DebeziumEvent → Bool → Bool
is_failing none db_fails = true
is_failing (some event) db_fails = not (is_skipped event) && (event_id_of event == 0 || db_fails)

-- Any other message marks the row of its event, or none for a delete or a tombstone.
abbrev pub marks : ℕ → CdcMessage → Option DebeziumEvent → List Row → List Row
marks now msg none rows = rows
marks now msg (some event) rows =
    if is_skipped event then rows else mark_sent_cdc now (ref_of msg event) rows

handled_fails :
    (db : Bool) (now : ℕ) (msg : CdcMessage) (event : Option DebeziumEvent) (rows : List Row)
    → is_failing event db ≡ true
    → (e : CdcError) × (handle_event db now msg event rows ≡ (some e, rows))
unfolding handle_event mark_delivered
handled_fails db now msg none rows h = (unmarshal_error, refl)
handled_fails db now msg (some event) rows h = elim (Bool-cases (event_id_of event == 0)) [
  | inl zero ↦ (zero_event_id, ground (arith, h, zero))
  | inr named ↦ (mark_delivered_error, ground (arith, h, named))
]

handled_marks :
    (db : Bool) (now : ℕ) (msg : CdcMessage) (event : Option DebeziumEvent) (rows : List Row)
    → is_failing event db ≡ false
    → handle_event db now msg event rows ≡ (none, marks now msg event rows)
unfolding handle_event mark_delivered
handled_marks db now msg none rows h = absurd cc
handled_marks db now msg (some event) rows h = ground (arith, h)

-- How many messages pass a test.
abbrev pub count : (Bool × ℕ × CdcMessage → Bool) → List (Bool × ℕ × CdcMessage) → ℕ
count p [] = 0
count p (m ∷ messages) = let rest = count p messages in if p m then suc rest else rest

-- The messages in the order in which they were marked consumed, the last one first.
abbrev pub consumed : List (Bool × ℕ × CdcMessage) → List CdcMessage → List CdcMessage
consumed [] before = before
consumed ((db_fails, now, msg) ∷ messages) before = consumed messages (msg ∷ before)

module _ (unmarshal : String → Option DebeziumEvent) where
  abbrev pub failing : Bool × ℕ × CdcMessage → Bool
  failing (db_fails, now, msg) = is_failing (unmarshal msg.value) db_fails

  -- The table behind the messages that do not fail, in order.
  abbrev pub delivered : List (Bool × ℕ × CdcMessage) → List Row → List Row
  delivered [] rows = rows
  delivered ((db_fails, now, msg) ∷ messages) rows = delivered messages (
      if is_failing (unmarshal msg.value) db_fails
      then rows
      else marks now msg (unmarshal msg.value) rows)

  consume_step :
      (db : Bool) (now : ℕ) (msg : CdcMessage) (messages : List (Bool × ℕ × CdcMessage))
      (c : Consumed) (res : Option CdcError × List Row)
      → handle_event db now msg (unmarshal msg.value) c.rows ≡ res
      → consume_claim unmarshal ((db, now, msg) ∷ messages) c
        ≡ consume_claim unmarshal messages (note_handled msg res c)
  unfolding consume_claim handle
  consume_step db now msg messages c res h =
      ap (λ r. consume_claim unmarshal messages (note_handled msg r c)) h

  -- Behind a run of `ConsumeClaim` the errors have grown by the messages that fail, for their content
  -- or for the database at their turn, the successes by the others; the table is the one that the
  -- others left in order, and every message is marked consumed once, a failing one too.
  pub consume_claim_lem :
      (messages : List (Bool × ℕ × CdcMessage)) (c : Consumed)
      → let after = consume_claim unmarshal messages c in
        (after.errors ≡ c.errors + count failing messages)
        × (after.success ≡ c.success + count (λ m. not (failing m)) messages)
        × (after.rows ≡ delivered messages c.rows)
        × (after.marked ≡ consumed messages c.marked)
  unfolding consume_claim note_handled
  consume_claim_lem [] c = (omega arith, omega arith, refl, refl)
  consume_claim_lem ((db, now, msg) ∷ messages) c =
      elim (Bool-cases (is_failing (unmarshal msg.value) db)) [
        | inl fails ↦
            let (e, handled) = handled_fails db now msg (unmarshal msg.value) c.rows fails in
            let (errors, success, rows, marked) =
              consume_claim_lem messages (note_handled msg (some e, c.rows) c) in
            rw (consume_step db now msg messages c (some e, c.rows) handled, fails)
              (omega (arith, errors), omega (arith, success), rows, marked)
        | inr fits ↦
            let handled = handled_marks db now msg (unmarshal msg.value) c.rows fits in
            let (errors, success, rows, marked) =
              consume_claim_lem messages
                (note_handled msg (none, marks now msg (unmarshal msg.value) c.rows) c) in
            rw (consume_step db now msg messages c _ handled, fits)
              (omega (arith, errors), omega (arith, success), rows, marked)
      ]
