-- ===== src/Storage/Tx/Atomic.antt =====
-- internal/storage/postgres/postgres.go: what the result of `WithTxProbe` says of the database.
use urbino.Base.{ap, ◌≡◌, refl, ◌⊎◌, inl, inr, Bool, true, false, Option, none, some}
use urbino.Base.Result.{Result, ok, err, Result-cases}
use urbino.Storage.Errors.{
  Cause, StoreError, plain, outcome_unknown, classify_error, causes, any_cause, is_error,
}
use urbino.Storage.Database.{Database, Session, Statement}
use urbino.Storage.Tx.{
  checked_run, CommitResult, commit_done, commit_refused, commit_lost, Connection, Statements,
  Probe, probed, asked, committed, after_statements, after_begin, with_tx_probe,
}

-- `errors.Is(err, ErrCommitOutcomeUnknown)`.
abbrev pub is_unknown : Cause → Bool
is_unknown outcome_unknown = true
is_unknown c = false

-- An error leaves the database as it was, or says that it does not know.
pub record IsUndone (e : StoreError) (before after : Database) : Type 0 where
  pub undone : (after ≡ before) ⊎ (is_error is_unknown e ≡ true)

-- A result is that of the statements, or the probe's after them, and what they wrote is there.
pub record IsDone {X : Type 0} (run : Result StoreError (X × Database)) (probe : Probe X) (y : X)
    (after : Database) : Type 0 where
  pub value : X
  pub written : run ≡ ok (value, after)
  pub answer : (value ≡ y) ⊎ (probe value after ≡ ok (some y))

-- The two outcomes of a transaction.
abbrev pub IsAtomic :
    {X : Type 0}
    → Result StoreError (X × Database)
    → Probe X
    → Database
    → Result StoreError X × Database
    → Type 0
IsAtomic run probe before (err e, after) = IsUndone e before after
IsAtomic run probe before (ok y, after) = IsDone run probe y after

-- A probe that tells the databases after and before the statements apart: after a commit it does not
-- deny it, and without one it proves it only if the statements wrote nothing.
pub record IsTelling {X : Type 0} (run : Result StoreError (X × Database)) (probe : Probe X)
    (before : Database) : Type 0 where
  pub confirms :
      (x : X) (after : Database) → run ≡ ok (x, after) → probe x after ≡ ok none → after ≡ before
  pub denies :
      (x y : X) (after : Database)
      → run ≡ ok (x, after)
      → probe x before ≡ ok (some y)
      → after ≡ before

module _ {X : Type 0} (run : Result StoreError (X × Database)) (probe : Probe X) (before : Database)
    (telling : IsTelling run probe before) where
  lost_durable :
      (x : X) (after : Database) (cause : Cause) (fault : Option Cause)
      → run ≡ ok (x, after)
      → IsAtomic run probe before (probed cause after (asked fault probe x after))
  unfolding probed causes any_cause
  lost_durable x after cause (some c) h = record { undone = inr refl }
  lost_durable x after cause none h = elim (Result-cases (probe x after)) [
    | inl (none, e) ↦ rw e (record { undone = inl (telling.confirms x after h e) })
    | inl (some y, e) ↦ rw e (record { value = x; written = h; answer = inr e })
    | inr (c, e) ↦ rw e (record { undone = inr refl })
  ]

  lost_undone :
      (x : X) (after : Database) (cause : Cause) (fault : Option Cause)
      → run ≡ ok (x, after)
      → IsAtomic run probe before (probed cause before (asked fault probe x before))
  unfolding probed causes any_cause
  lost_undone x after cause (some c) h = record { undone = inl refl }
  lost_undone x after cause none h = elim (Result-cases (probe x before)) [
    | inl (none, e) ↦ rw e (record { undone = inl refl })
    | inl (some y, e) ↦
        let same = telling.denies x y after h e in
        rw e (record { value = x; written = rw (← same) h; answer = inr e })
    | inr (c, e) ↦ rw e (record { undone = inl refl })
  ]

  committed-IsAtomic :
      (c : Connection) (r : CommitResult) (x : X) (after : Database)
      → run ≡ ok (x, after)
      → IsAtomic run probe before (committed c (some probe) before r (x, after))
  unfolding committed
  committed-IsAtomic c commit_done x after h = record { value = x; written = h; answer = inl refl }
  committed-IsAtomic c (commit_refused cause) x after h = record { undone = inl refl }
  committed-IsAtomic c (commit_lost true cause) x after h =
      lost_durable x after cause c.probe_fault h
  committed-IsAtomic c (commit_lost false cause) x after h =
      lost_undone x after cause c.probe_fault h

  after_statements-IsAtomic :
      (c : Connection) (r : Result StoreError (X × Database))
      → run ≡ r
      → IsAtomic run probe before (after_statements c (some probe) before r)
  after_statements-IsAtomic c (err e) h = record { undone = inl refl }
  after_statements-IsAtomic c (ok (x, after)) h = committed-IsAtomic c c.commit x after h

-- A transaction with a telling probe is atomic, also when the response of the commit is lost: with a
-- result the database is what the statements wrote, and with an error it is as it was, or the error
-- is the one that says that the outcome is unknown.
pub with_tx_probe-IsAtomic :
    {X : Type 0} (c : Connection) (run : Statements X) (probe : Probe X) (db : Database)
    → IsTelling (run c.session db) probe db
    → IsAtomic (run c.session db) probe db (with_tx_probe c run (some probe) db)
unfolding with_tx_probe
with_tx_probe-IsAtomic c run probe db telling = begun c.begin
  where
    begun :
        (b : Option Cause)
        → IsAtomic (run c.session db) probe db (after_begin c (some probe) db b run)
    begun (some cause) = record { undone = inl refl }
    begun none =
        after_statements-IsAtomic (run c.session db) probe db telling c (run c.session db) refl

-- A call that succeeded has passed the checks before its transaction.
pub checked_run-ok :
    {X : Type 0} (db : Database) (r : Result StoreError (Unit {0}))
    (run : Result StoreError X × Database) (x : X) (db' : Database)
    → checked_run db r run ≡ (ok x, db')
    → run ≡ (ok x, db')
checked_run-ok db (ok t) run x db' h = h
checked_run-ok db (err e) run x db' h =
    let f : Path (Result StoreError _) (err e) (ok x) = ap (λ p. p.0) h in cc

pub checked_run-passed :
    {X : Type 0} (db : Database) (r : Result StoreError (Unit {0}))
    (run : Result StoreError X × Database) (x : X) (db' : Database)
    → checked_run db r run ≡ (ok x, db')
    → r ≡ ok tt
checked_run-passed db (ok t) run x db' h = refl
checked_run-passed db (err e) run x db' h =
    let f : Path (Result StoreError _) (err e) (ok x) = ap (λ p. p.0) h in cc

-- A success of a transaction with a telling probe.
pub with_tx_probe-ok :
    {X : Type 0} (c : Connection) (run : Statements X) (probe : Probe X) (db : Database) (y : X)
    (db' : Database)
    → IsTelling (run c.session db) probe db
    → with_tx_probe c run (some probe) db ≡ (ok y, db')
    → IsDone (run c.session db) probe y db'
with_tx_probe-ok c run probe db y db' telling h =
    let a = with_tx_probe-IsAtomic c run probe db telling in rw h at a

-- Statements that fail write nothing.
pub with_tx_probe-refused :
    {X : Type 0} (c : Connection) (run : Statements X) (probe : Option (Probe X)) (db : Database)
    → ((session : Session) → (e : StoreError) × (run session db ≡ err e))
    → (e : StoreError) × (with_tx_probe c run probe db ≡ (err e, db))
unfolding with_tx_probe
with_tx_probe-refused c run probe db fails = begun c.begin
  where
    begun : (b : Option Cause) → (e : StoreError) × (after_begin c probe db b run ≡ (err e, db))
    begun (some cause) = (classify_error (plain cause), refl)
    begun none = let (e, f) = fails c.session in (classify_error e, rw f refl)

-- A transaction without faults.
pub record IsHealthy (c : Connection) : Type 0 where
  pub begins : c.begin ≡ none
  pub accepts : (s : Statement) → c.session.faults s ≡ none
  pub commits : c.commit ≡ commit_done

pub with_tx_probe-healthy :
    {X : Type 0} (c : Connection) (run : Statements X) (probe : Option (Probe X)) (db : Database)
    (x : X) (after : Database)
    → IsHealthy c
    → run c.session db ≡ ok (x, after)
    → with_tx_probe c run probe db ≡ (ok x, after)
unfolding with_tx_probe committed
with_tx_probe-healthy c run probe db x after healthy h =
    rw (healthy.begins, h, healthy.commits) refl

pub with_tx_probe-healthy_err :
    {X : Type 0} (c : Connection) (run : Statements X) (probe : Option (Probe X)) (db : Database)
    (e : StoreError)
    → IsHealthy c
    → run c.session db ≡ err e
    → with_tx_probe c run probe db ≡ (err (classify_error e), db)
unfolding with_tx_probe
with_tx_probe-healthy_err c run probe db e healthy h = rw (healthy.begins, h) refl

module _ {X : Type 0} (c : Connection) (run : Statements X) (db : Database) where
  probed_same : (cause : Cause) (r : Result StoreError (Option X)) → (probed cause db r).1 ≡ db
  unfolding probed
  probed_same cause (err e) = refl
  probed_same cause (ok none) = refl
  probed_same cause (ok (some x)) = refl

  committed_same :
      (probe : Option (Probe X)) (r : CommitResult) (x : X)
      → (committed c probe db r (x, db)).1 ≡ db
  unfolding committed
  committed_same probe commit_done x = refl
  committed_same probe (commit_refused cause) x = refl
  committed_same none (commit_lost true cause) x = refl
  committed_same none (commit_lost false cause) x = refl
  committed_same (some p) (commit_lost true cause) x =
      probed_same cause (asked c.probe_fault p x db)
  committed_same (some p) (commit_lost false cause) x =
      probed_same cause (asked c.probe_fault p x db)

  -- Statements that write nothing leave the database as it was, whatever the commit does.
  pub with_tx_probe-unchanged :
      (probe : Option (Probe X))
      → ((session : Session)
          → ((e : StoreError) × (run session db ≡ err e))
            ⊎ ((x : X) × (run session db ≡ ok (x, db))))
      → (with_tx_probe c run probe db).1 ≡ db
  unfolding with_tx_probe
  with_tx_probe-unchanged probe writes_nothing = begun c.begin
    where
      begun : (b : Option Cause) → (after_begin c probe db b run).1 ≡ db
      begun (some cause) = refl
      begun none = elim (writes_nothing c.session) [
        | inl (e, f) ↦ rw f refl
        | inr (x, f) ↦ rw f (committed_same probe c.commit x)
      ]

module _ {X : Type 0} (P : X → Type 0) (c : Connection) (probe : Probe X)
    (answers : (x y : X) (found : Database) → probe x found ≡ ok (some y) → P y) where
  IsGood : Result StoreError X × Database → Type 0
  IsGood (ok y, db) = P y
  IsGood (err e, db) = Unit

  probed-IsGood :
      (cause : Cause) (fault : Option Cause) (x : X) (db : Database)
      → IsGood (probed cause db (asked fault probe x db))
  unfolding IsGood probed
  probed-IsGood cause (some f) x db = tt
  probed-IsGood cause none x db = elim (Result-cases (probe x db)) [
    | inl (none, e) ↦ rw e tt
    | inl (some y, e) ↦ rw e (answers x y db e)
    | inr (f, e) ↦ rw e tt
  ]

  after-IsGood :
      (db : Database) (r : Result StoreError (X × Database)) (k : CommitResult)
      → c.commit ≡ k
      → ((x : X) (after : Database) → r ≡ ok (x, after) → P x)
      → IsGood (after_statements c (some probe) db r)
  unfolding IsGood committed
  after-IsGood db (err e) k m good = tt
  after-IsGood db (ok (x, after)) commit_done m good = rw m (good x after refl)
  after-IsGood db (ok (x, after)) (commit_refused cause) m good = rw m tt
  after-IsGood db (ok (x, after)) (commit_lost true cause) m good =
      rw m (probed-IsGood cause c.probe_fault x after)
  after-IsGood db (ok (x, after)) (commit_lost false cause) m good =
      rw m (probed-IsGood cause c.probe_fault x db)

  -- What holds of the results of the statements and of the probe holds of a success.
  pub with_tx_probe-result :
      (run : Statements X) (db : Database) (y : X) (db' : Database)
      → ((session : Session) (x : X) (after : Database) → run session db ≡ ok (x, after) → P x)
      → with_tx_probe c run (some probe) db ≡ (ok y, db')
      → P y
  unfolding with_tx_probe IsGood
  with_tx_probe-result run db y db' good h = let g = begun c.begin in rw h at g
    where
      begun : (b : Option Cause) → IsGood (after_begin c (some probe) db b run)
      begun (some cause) = tt
      begun none = after-IsGood db (run c.session db) c.commit refl (good c.session)
