-- ===== src/Storage/Tx.antt =====
-- internal/storage/postgres/postgres.go: `WithTx` and `WithTxProbe`, a transaction whose commit may
-- fail, be refused, or lose its response.
pub mod Atomic
use urbino.Base.{Bool, true, false, Option, none, some, if◌then◌else◌}
use urbino.Base.Result.{Result, ok, err}
use urbino.Storage.Errors.{
  Cause, StoreError, ErrorKind, plain, classified, joined, kind_unavailable, outcome_unknown,
  classify_error,
}
use urbino.Storage.Database.{Database, Session}

-- How the call `Commit` ends. `commit_lost durable cause`: the response is lost, and no one but the
-- server knows if the transaction is durable.
pub data CommitResult : Type 0 where
  commit_done : CommitResult
  commit_refused : Cause → CommitResult
  commit_lost : (durable : Bool) → Cause → CommitResult

-- The calls around the statements: `BeginTx`, `Commit`, and the query of the probe.
pub record Connection : Type 0 where
  pub begin : Option Cause
  pub session : Session
  pub commit : CommitResult
  pub probe_fault : Option Cause

-- The statements of a transaction; an error rolls back what they wrote.
abbrev pub Statements : Type 0 → Type 0
Statements X = Session → Database → Result StoreError (X × Database)

-- A probe reads the database after the commit: `some x` proves the commit, with the result that the
-- caller returns, `none` disproves it. It is given the result of the statements.
abbrev pub Probe : Type 0 → Type 0
Probe X = X → Database → Result StoreError (Option X)

unfoldable pub probed :
    {X : Type 0} → Cause → Database → Result StoreError (Option X) → Result StoreError X × Database
probed cause db (err e) = (err (classified kind_unavailable (joined (plain outcome_unknown) e)), db)
probed cause db (ok (some x)) = (ok x, db)
probed cause db (ok none) = (err (classify_error (plain cause)), db)

abbrev pub asked :
    {X : Type 0} → Option Cause → Probe X → X → Database → Result StoreError (Option X)
asked none probe x db = probe x db
asked (some c) probe x db = err (plain c)

unfoldable pub committed :
    {X : Type 0}
    → Connection
    → Option (Probe X)
    → (before : Database) → CommitResult
    → X × Database
    → Result StoreError X × Database
committed c probe before commit_done (x, after) = (ok x, after)
committed c probe before (commit_refused cause) (x, after) =
    (err (classify_error (plain cause)), before)
committed c none before (commit_lost durable cause) (x, after) =
    (err (classify_error (plain cause)), if durable then after else before)
committed c (some probe) before (commit_lost durable cause) (x, after) =
    let found = if durable then after else before in
    probed cause found (asked c.probe_fault probe x found)

abbrev pub after_statements :
    {X : Type 0}
    → Connection
    → Option (Probe X)
    → (before : Database) → Result StoreError (X × Database)
    → Result StoreError X × Database
after_statements c probe before (err e) = (err (classify_error e), before)
after_statements c probe before (ok r) = committed c probe before c.commit r

abbrev pub after_begin :
    {X : Type 0}
    → Connection
    → Option (Probe X)
    → (before : Database) → Option Cause
    → Statements X
    → Result StoreError X × Database
after_begin c probe before (some cause) run = (err (classify_error (plain cause)), before)
after_begin c probe before none run = after_statements c probe before (run c.session before)

unfoldable pub with_tx_probe :
    {X : Type 0}
    → Connection
    → Statements X
    → Option (Probe X)
    → Database
    → Result StoreError X × Database
with_tx_probe c run probe db = after_begin c probe db c.begin run

unfoldable pub with_tx :
    {X : Type 0} → Connection → Statements X → Database → Result StoreError X × Database
unfolding with_tx_probe
with_tx c run db = with_tx_probe c run none db

-- A check before the transaction, which an error leaves out.
abbrev pub checked_run :
    {X : Type 0}
    → Database
    → Result StoreError (Unit {0})
    → Result StoreError X × Database
    → Result StoreError X × Database
checked_run db (err e) run = (err e, db)
checked_run db (ok t) run = run
