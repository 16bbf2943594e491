-- ===== src/Posting.antt =====
-- services/wallet-service/internal/repo: how a repository method runs a stored procedure. The values of
-- a call and of the row it returns, the connection with the variable `out` that the closure of `withTx`
-- writes, and the run of one procedure in a transaction; the children hold the methods.
pub mod Metadata
pub mod Types
pub mod Finance
pub mod Treasury
pub mod Reversals
pub mod Fees
pub mod Restraints
pub mod Journals
pub mod Committed
use core_wallet.Prelude.{ℕ, String, Bool, ◌≡◌, ◌≢◌, Option, none, some, List}
use core_wallet.Prelude.Ints.{ℤ}
use core_wallet.Errors.{GoError, nil}
use core_wallet.PgErrors.{map_err_if_pg}
use core_wallet.Tx.{AuditContext, Driver, Settings, with_tx}

-- A parameter of a call, or a column of its row.
pub data Value : Type 0 where
  text : String → Value
  int : ℕ → Value
  int64 : ℤ → Value
  flag : Bool → Value
  null : Value

-- What `QueryRow` of a procedure ends in.
pub data Answer : Type 0 where
  row : List Value → Answer
  failed : GoError → Answer

-- The stored procedures over the state `D` of the database, by name and positional arguments, and
-- the error of a `Scan` whose destinations do not fit the row. Neither failure is the absent error.
pub record Procedures (D : Type 0) : Type 0 where
  pub call : String → List Value → D → Answer × D
  pub scan_error : List Value → GoError
  pub call_fails :
      (name : String) (args : List Value) (db db' : D) (e : GoError)
      → call name args db ≡ (failed e, db')
      → e ≢ nil
  pub scan_fails : (vs : List Value) → scan_error vs ≢ nil

-- The state that an attempt works on: the database, and the method's `out`.
pub record Conn (D : Type 0) (R : Type 0) : Type 0 where
  pub db : D
  pub out : R

-- The result of a repository method.
pub data Result (R : Type 0) : Type 0 where
  ok : R → Result R
  fail : GoError → Result R

module _ {D : Type 0} {R : Type 0} where
  put_db : Conn D R → GoError × D → GoError × Conn D R
  put_db c (e, d) = (e, record c { db = d })

  put_wait : Conn D R → Bool × D → Bool × Conn D R
  put_wait c (ended, d) = (ended, record c { db = d })

  -- The driver works on the database alone: a rollback does not reset `out`.
  unfoldable pub lift_driver : Driver D → Driver (Conn D R)
  unfolding put_db put_wait
  lift_driver d = record {
    begin = λ c. put_db c (d.begin c.db);
    begin_read_only = λ c. put_db c (d.begin_read_only c.db);
    set_timeouts = λ s l c. put_db c (d.set_timeouts s l c.db);
    set_config = λ g c. put_db c (d.set_config g c.db);
    commit = λ c. put_db c (d.commit c.db);
    rollback = λ c. record c { db = d.rollback c.db };
    ctx_done = λ c. d.ctx_done c.db;
    jitter = λ c. d.jitter c.db;
    wait = λ t c. put_wait c (d.wait t c.db);
  }

  module _ (procs : Procedures D) (scan : List Value → R → Option R) where
    scanned : List Value → D → R → Option R → GoError × Conn D R
    scanned vs db out none = (procs.scan_error vs, record { db = db; out = out })
    scanned vs db out (some new) = (nil, record { db = db; out = new })

    answered : R → Answer × D → GoError × Conn D R
    unfolding scanned
    answered out (row vs, db) = scanned vs db out (scan vs out)
    answered out (failed e, db) = (e, record { db = db; out = out })

    -- The closure that a method hands to `withTx`: the query and the scan into `out`.
    unfoldable pub query : String → List Value → Conn D R → GoError × Conn D R
    unfolding answered
    query name args c = answered c.out (procs.call name args c.db)

  finish : GoError × Conn D R → Result R × D
  finish (nil, c) = (ok c.out, c.db)
  finish (e, c) = (fail (map_err_if_pg e), c.db)

  -- A method: one procedure run by `withTx`, with `zero` in `out` at first.
  unfoldable pub run_procedure :
      Driver D
      → Settings
      → Procedures D
      → (List Value → R → Option R)
      → R
      → AuditContext
      → String
      → List Value
      → D
      → Result R × D
  unfolding finish
  run_procedure d r procs scan zero audit name args db = finish (
      with_tx (lift_driver d) r audit (query procs scan name args) (record { db = db; out = zero }))
