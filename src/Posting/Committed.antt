-- ===== src/Posting/Committed.antt =====
-- repo/postgres.go: what the result of a repository method says of the database.
use core_wallet.Prelude.{String, ◌≡◌, refl, ap, ◌≢◌, sym, ◌∙◌, inl, inr, Option, none, some, List}
use core_wallet.Errors.{GoError, nil, Error, as_domain}
use core_wallet.PgErrors.{map_err_if_pg}
use core_wallet.PgErrors.Mapping.{map_err_if_pg_total}
use core_wallet.Tx.{AuditContext, Driver, Settings, audit_gucs}
use core_wallet.Tx.Attempt.{run_tx_iff, Commits}
use core_wallet.Tx.Success.{with_tx_success}
use core_wallet.Posting.{
  Value, Answer, row, failed, Procedures, Conn, ok, fail, put_db, lift_driver, scanned, answered,
  query, finish, run_procedure,
}

mapped_domain :
    (cause e : GoError)
    → cause ≢ nil
    → e ≡ map_err_if_pg cause
    → (de : Error) × (as_domain e ≡ some de)
mapped_domain cause e ne mapped = elim (map_err_if_pg_total cause) [
  | inl (none_at, _) ↦ absurd (ne none_at)
  | inr (de, found) ↦ (de, rw (mapped) found)
]

module _ {D : Type 0} {R : Type 0} where
  -- A step of the lifted driver that succeeds is one of the driver.
  lifted :
      (c c' : Conn D R) (s : GoError × D)
      → put_db c s ≡ (nil, c')
      → (s ≡ (nil, c'.db)) × (c'.out ≡ c.out)
  unfolding put_db
  lifted c c' (e, d) h = (cc, cc)

  scanned_success :
      (procs : Procedures D) (scan : List Value → R → Option R) (vs : List Value) (db : D) (out : R)
      (o : Option R) (c : Conn D R)
      → scanned procs scan vs db out o ≡ (nil, c)
      → (o ≡ some c.out) × (c.db ≡ db)
  unfolding scanned
  scanned_success procs scan vs db out none c h = absurd (procs.scan_fails vs (ap (λ p. p.0) h))
  scanned_success procs scan vs db out (some new) c h = (cc, cc)

  -- A query that succeeds answered a row that fits.
  answered_success :
      (procs : Procedures D) (scan : List Value → R → Option R) (out : R) (a : Answer × D)
      (c : Conn D R)
      → ((e : GoError) (db : D) → a ≡ (failed e, db) → e ≢ nil)
      → answered procs scan out a ≡ (nil, c)
      → (vs : List Value) × (a ≡ (row vs, c.db)) × (scan vs out ≡ some c.out)
  unfolding answered
  answered_success procs scan out (row vs, db) c never h =
      let (fits, at) = scanned_success procs scan vs db out _ c h in (vs, cc, fits)
  answered_success procs scan out (failed e, db) c never h =
      absurd (never e db refl (ap (λ p. p.0) h))

  finish_ok :
      (s : GoError × Conn D R) (r : R) (db' : D)
      → finish s ≡ (ok r, db')
      → (c : Conn D R) × (s ≡ (nil, c)) × (c.out ≡ r) × (c.db ≡ db')
  unfolding finish
  finish_ok (nil, c) r db' h = (c, refl, cc, cc)
  finish_ok (e, c) r db' h = absurd cc

  finish_fail :
      (s : GoError × Conn D R) (e : GoError) (db' : D)
      → finish s ≡ (fail e, db')
      → (cause : GoError) × (cause ≢ nil) × (e ≡ map_err_if_pg cause)
  unfolding finish
  finish_fail (nil, c) e db' h = absurd cc
  finish_fail (cause, c) e db' h = (cause, (λ n. cc), cc)

  -- A failure of a repository method is a domain error.
  pub run_procedure_fails :
      (d : Driver D) (r : Settings) (procs : Procedures D) (scan : List Value → R → Option R)
      (zero : R) (audit : AuditContext) (name : String) (args : List Value) (db db' : D)
      (e : GoError)
      → run_procedure d r procs scan zero audit name args db ≡ (fail e, db')
      → (de : Error) × (as_domain e ≡ some de)
  unfolding run_procedure
  run_procedure_fails d r procs scan zero audit name args db db' e h =
      let (cause, ne, mapped) = finish_fail _ e db' h in mapped_domain cause e ne mapped

  module _ (d : Driver D) (r : Settings) (procs : Procedures D) (scan : List Value → R → Option R)
      (zero : R) (audit : AuditContext) (name : String) (args : List Value) where
    -- The attempt behind a result: the transaction published the audit settings, its call answered
    -- a row, the commit succeeded, and nothing but the deferred rollback came after it.
    pub record Committed (res : R) (db' : D) : Type 0 where
      pub timed : D
      pub before : Conn D R
      pub values : List Value
      pub worked : D
      pub committed : D
      pub audits : d.set_config (audit_gucs audit r.pii_dek) timed ≡ (nil, before.db)
      pub called : procs.call name args before.db ≡ (row values, worked)
      pub fits : scan values before.out ≡ some res
      pub commits : d.commit worked ≡ (nil, committed)
      pub ends : db' ≡ d.rollback committed

    committed_path :
        (res : R) (db' : D) (w₀ c : Conn D R)
        → Commits (lift_driver d) r audit (query procs scan name args) w₀ c
        → c.out ≡ res
        → c.db ≡ db'
        → Committed res db'
    unfolding lift_driver query put_db
    committed_path res db' w₀ c path out at =
        let (audits, _) = lifted path.timed path.audited _ path.audits in
        let (commits, kept) = lifted path.worked path.committed _ path.commits in
        let (vs, called, fits) =
          answered_success procs scan path.audited.out _ path.worked
            (λ e db. procs.call_fails name args path.audited.db db e) path.works in
        record {
          timed = path.timed.db;
          before = path.audited;
          values = vs;
          worked = path.worked.db;
          committed = path.committed.db;
          audits = audits;
          called = called;
          fits = fits ∙ ap some (sym kept ∙ ap (λ w. w.out) (sym path.ends) ∙ out);
          commits = commits;
          ends = sym at ∙ ap (λ w. w.db) path.ends;
        }

    -- A method that returns a result has committed the call that answered it.
    pub run_procedure-Committed :
        (res : R) (db db' : D)
        → run_procedure d r procs scan zero audit name args db ≡ (ok res, db')
        → Committed res db'
    unfolding run_procedure
    run_procedure-Committed res db db' h =
        let (c, done, out, at) = finish_ok _ res db' h in
        let (w₀, one) =
          with_tx_success (lift_driver d) r audit (query procs scan name args) _ c done in
        let path = (run_tx_iff (lift_driver d) r audit (query procs scan name args) w₀ c).0 one in
        committed_path res db' w₀ c path out at
