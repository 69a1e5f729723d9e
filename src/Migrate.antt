-- ===== src/Migrate.antt =====
-- internal/storage/migrate/runner.go: the history of the migrations in the database, and the run that
-- brings it up to date. The database is a state; every call of it may fail.
pub mod History
pub mod Run
mod Examples
use urbino.Base.{
  ℕ, ◌≡◌, Bool, true, false, ◌&&◌, ◌||◌, not, List, [], ◌∷◌, Option, none, some, ltb, ◌==◌,
  if◌then◌else◌, length,
}
use urbino.Base.Text.{Text, text_eq}
use urbino.Base.Result.{Result, ok, err, ◌>>=◌, ◌>>◌}

-- A migration as it is loaded; versions are positive.
pub record Migration : Type 0 where
  pub version : ℕ
  pub name : Text
  pub sql : Text
  pub checksum : List ℕ

-- A row of `urbino_schema_migrations`.
pub record HistoryRow : Type 0 where
  pub version : ℕ
  pub name : Text
  pub checksum : List ℕ

pub data MigrateError : Type 0 where
  compatibility drift database no_migrations : MigrateError

-- `LatestVersion`.
unfoldable pub latest_version : List Migration → ℕ
latest_version [] = 0
latest_version (m ∷ []) = m.version
latest_version (m ∷ n ∷ ms) = latest_version (n ∷ ms)

-- The loop of `bytesEqual`, over two slices of one length.
unfoldable pub equal_bytes : List ℕ → List ℕ → Bool
equal_bytes [] right = true
equal_bytes (a ∷ left) [] = false
equal_bytes (a ∷ left) (b ∷ right) = a == b && equal_bytes left right

unfoldable pub bytes_equal : List ℕ → List ℕ → Bool
bytes_equal left right = if not (length left == length right) then false else equal_bytes left right

abbrev pub same_row : HistoryRow → Migration → Bool
same_row row m =
    row.version == m.version && text_eq row.name m.name && bytes_equal row.checksum m.checksum

-- The loop of `validateHistoryRows`; the rows are no more than the migrations.
unfoldable pub rows_match : List HistoryRow → List Migration → Result MigrateError (Unit {0})
rows_match [] ms = ok tt
rows_match (row ∷ rows) [] = err compatibility
rows_match (row ∷ rows) (m ∷ ms) =
    let rest = rows_match rows ms in if not (same_row row m) then err drift else rest

unfoldable pub validate_history_rows :
    List HistoryRow → List Migration → Result MigrateError (Unit {0})
validate_history_rows history migrations =
    if ltb (length migrations) (length history)
    then err compatibility
    else rows_match history migrations

-- `CheckCompatibility`, given the answer of the read.
unfoldable pub check_compatibility :
    Option (List HistoryRow) → List Migration → Result MigrateError (Unit {0})
check_compatibility none migrations = err compatibility
check_compatibility (some history) migrations = do
  validate_history_rows history migrations
  if not (length history == length migrations) then err compatibility else ok tt

-- The database: what the scripts have made, and the rows of the history by version.
pub record Database (X : Type 0) : Type 0 where
  pub schema : X
  pub history : List HistoryRow

-- The answer of a commit: an error may come before the commit is durable, or after it, when only the
-- response is lost.
pub data CommitAnswer : Type 0 where
  commit_done : CommitAnswer
  commit_error : (durable : Bool) → CommitAnswer

-- Which of the calls for one migration answer without an error.
pub record Calls : Type 0 where
  pub exists_ok : Bool
  pub begin_ok : Bool
  pub insert_ok : Bool
  pub commit : CommitAnswer

-- Which of the calls of one run do; `ensureHistory` stands for its two calls and their check.
pub record RunCalls : Type 0 where
  pub acquire_ok : Bool
  pub lock_ok : Bool
  pub ensure_ok : Bool
  pub read_ok : Bool
  pub each : ℕ → Calls

abbrev pub row_of : Migration → HistoryRow
row_of m = record { version = m.version; name = m.name; checksum = m.checksum }

unfoldable pub is_applied : ℕ → List HistoryRow → Bool
is_applied version [] = false
is_applied version (row ∷ rows) = row.version == version || is_applied version rows

-- INSERT, with the rows in the order of the versions.
unfoldable pub insert_row : HistoryRow → List HistoryRow → List HistoryRow
insert_row r [] = r ∷ []
insert_row r (row ∷ rows) =
    let rest = insert_row r rows in if ltb r.version row.version then r ∷ row ∷ rows else row ∷ rest

-- `exec sql` runs a script in a transaction, or gives its error.
module _ {X : Type 0} (exec : Text → X → Option X) where
  -- The database with the migration in it.
  abbrev pub migrated : Migration → Database X → X → Database X
  migrated m db x = record { schema = x; history = insert_row (row_of m) db.history }

  abbrev pub answered :
      CommitAnswer → (before after : Database X) → Result MigrateError (Unit {0}) × Database X
  answered commit_done before after = (ok tt, after)
  answered (commit_error durable) before after = (err database, if durable then after else before)

  -- The transaction: the script, the row and the commit.
  abbrev pub committed :
      Migration → Calls → Database X → Option X → Result MigrateError (Unit {0}) × Database X
  committed m calls db none = (err database, db)
  committed m calls db (some x) =
      if not calls.insert_ok then (err database, db) else answered calls.commit db (migrated m db x)

  unfoldable pub apply_one :
      Migration → Calls → Database X → Result MigrateError (Unit {0}) × Database X
  apply_one m calls db =
      if not calls.exists_ok
      then (err database, db)
      else if is_applied m.version db.history
      then (ok tt, db)
      else if not calls.begin_ok
      then (err database, db)
      else committed m calls db (exec m.sql db.schema)

  -- The loop of `Run`, which ends at the first error.
  unfoldable pub apply_all :
      (ℕ → Calls) → List Migration → Database X → Result MigrateError (Unit {0}) × Database X
  apply_all each [] db = (ok tt, db)
  apply_all each (m ∷ ms) db =
      let (r, db') = apply_one m (each m.version) db in
      elim r [ ok t ↦ apply_all each ms db' | err e ↦ (err e, db') ]

  abbrev pub apply_valid :
      (ℕ → Calls)
      → List Migration
      → Database X
      → Result MigrateError (Unit {0})
      → Result MigrateError (Unit {0}) × Database X
  apply_valid each ms db (err e) = (err e, db)
  apply_valid each ms db (ok t) = apply_all each ms db

  -- `Runner.Run` of an open pool, under the advisory lock.
  unfoldable pub run :
      RunCalls → List Migration → Database X → Result MigrateError (Unit {0}) × Database X
  run calls [] db = (err no_migrations, db)
  run calls (m ∷ ms) db =
      if not calls.acquire_ok || not calls.lock_ok || not calls.ensure_ok || not calls.read_ok
      then (err database, db)
      else apply_valid calls.each (m ∷ ms) db (validate_history_rows db.history (m ∷ ms))
