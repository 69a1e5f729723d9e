-- ===== src/Migrate/Examples.antt =====
-- The theorems on internal/storage/migrate at two migrations, the second of which fails to commit.
use urbino.Base.{
  if◌then◌else◌, ◌==◌, ℕ, ◌≤◌, ◌≡◌, refl, ◌↔◌, true, List, [], ◌∷◌, Option, some, length,
}
use urbino.Base.Text.{Text, codes}
use urbino.Base.Result.{ok}
use urbino.Migrate.{
  commit_done, commit_error, Migration, HistoryRow, Database, Calls, RunCalls, row_of,
  validate_history_rows, run, rows_match,
}
use urbino.Migrate.History.{IsPrefix, validate_history_rows_iff}
use urbino.Migrate.Run.{IsResumable, run-IsResumable}

abbrev first : Migration
first = record { version = 1; name = codes "init"; sql = codes "A"; checksum = 1 ∷ [] }

abbrev second : Migration
second = record { version = 2; name = codes "keys"; sql = codes "B"; checksum = 2 ∷ [] }

abbrev both : List Migration
both = first ∷ second ∷ []

abbrev one_row : List HistoryRow
one_row = row_of first ∷ []

-- A schema is the list of the scripts that have run.
abbrev exec : Text → List Text → Option (List Text)
exec sql x = some (sql ∷ x)

abbrev fresh : Database (List Text)
fresh = record { schema = []; history = [] }

abbrev calls_of : ℕ → Calls
calls_of n = record {
  exists_ok = true;
  begin_ok = true;
  insert_ok = true;
  commit = if n == 2 then commit_error true else commit_done;
}

abbrev calls : RunCalls
calls = record {
  acquire_ok = true;
  lock_ok = true;
  ensure_ok = true;
  read_ok = true;
  each = calls_of;
}

fresh_valid : validate_history_rows fresh.history both ≡ ok tt
unfolding validate_history_rows rows_match
fresh_valid = refl

run-IsResumable_example : IsResumable exec both (run exec calls both fresh)
run-IsResumable_example = run-IsResumable exec calls both fresh (refl, (refl, tt)) fresh_valid

validate_history_rows_iff_example :
    (validate_history_rows one_row both ≡ ok tt)
    ↔ ((length one_row ≤ length both) × IsPrefix one_row both)
validate_history_rows_iff_example = validate_history_rows_iff one_row both
