-- ===== src/Migrate/Run.antt =====
-- What a run of internal/storage/migrate/runner.go leaves in the database, whatever fails.
use mathlib.Core.Path.{subst}
use urbino.Base.{
  take-append-drop, drop, ◌||◌, ◌⊎◌, ℕ, zero, length-map, length-append, suc, ◌≤◌, ◌<◌, ◌≡◌, refl,
  sym, ap, ◌∙◌, inl, inr, true, false, not, List, [], ◌∷◌, ◌++◌, Option, none, some, arith, length,
  map, take, Bool-cases,
}
use urbino.Base.Text.{Text}
use urbino.Base.Result.{Result, ok, err, Result-cases}
use urbino.Migrate.{
  CommitAnswer, commit_done, commit_error, answered, migrated, committed, database, Migration,
  HistoryRow, MigrateError, Database, Calls, RunCalls, row_of, validate_history_rows,
  check_compatibility, is_applied, insert_row, apply_one, apply_all, run,
}
use urbino.Migrate.History.{take_all, validate_history_rows_iff, check_compatibility_iff}

-- Versions from `n` on without a gap, as `loadFS` returns them from 1 on.
abbrev pub IsSequence : ℕ → List Migration → Type 0
IsSequence n [] = Unit
IsSequence n (m ∷ ms) = (m.version ≡ n) × IsSequence (suc n) ms

abbrev AllBelow : ℕ → List HistoryRow → Type 0
AllBelow n [] = Unit
AllBelow n (row ∷ rows) = (row.version < n) × AllBelow n rows

AllBelow-suc : (n : ℕ) (rows : List HistoryRow) → AllBelow n rows → AllBelow (suc n) rows
AllBelow-suc n [] h = tt
AllBelow-suc n (row ∷ rows) (a, h) = (omega (arith, a), AllBelow-suc n rows h)

AllBelow-add :
    (n : ℕ) (rows : List HistoryRow) (row : HistoryRow)
    → AllBelow n rows
    → row.version ≡ n
    → AllBelow (suc n) (rows ++ row ∷ [])
AllBelow-add n [] row h e = (omega (arith, e), tt)
AllBelow-add n (r ∷ rows) row (a, h) e = (omega (arith, a), AllBelow-add n rows row h e)

not_applied : (n : ℕ) (rows : List HistoryRow) → AllBelow n rows → is_applied n rows ≡ false
unfolding is_applied
not_applied n [] h = refl
not_applied n (row ∷ rows) (a, h) = ground (arith, a, not_applied n rows h)

applied :
    (n : ℕ) (rows rest : List HistoryRow) (row : HistoryRow)
    → row.version ≡ n
    → is_applied n (rows ++ row ∷ rest) ≡ true
unfolding is_applied
applied n [] rest row e = ground (arith, e)
applied n (r ∷ rows) rest row e = ground (arith, applied n rows rest row e)

insert_row_last :
    (rows : List HistoryRow) (row : HistoryRow)
    → AllBelow row.version rows
    → insert_row row rows ≡ rows ++ row ∷ []
unfolding insert_row
insert_row_last [] row h = refl
insert_row_last (r ∷ rows) row (a, h) = ground (arith, a, insert_row_last rows row h)

append_assoc : (xs ys zs : List HistoryRow) → (xs ++ ys) ++ zs ≡ xs ++ (ys ++ zs)
append_assoc [] ys zs = refl
append_assoc (x ∷ xs) ys zs = ap (λ (l : List HistoryRow). x ∷ l) (append_assoc xs ys zs)

append_nil : (xs : List HistoryRow) → xs ++ [] ≡ xs
append_nil [] = refl
append_nil (x ∷ xs) = ap (λ (l : List HistoryRow). x ∷ l) (append_nil xs)

take_append : (xs ys : List Migration) → take (length xs) (xs ++ ys) ≡ xs
take_append [] ys = refl
take_append (x ∷ xs) ys = ap (λ (l : List Migration). x ∷ l) (take_append xs ys)

length-take_le : (n : ℕ) (ms : List Migration) → n ≤ length ms → length (take n ms) ≡ n
length-take_le zero ms h = refl
length-take_le (suc n) [] h = absurd (omega (arith, h))
length-take_le (suc n) (m ∷ ms) h = ap suc (length-take_le n ms (omega (arith, h)))

module _ {X : Type 0} (exec : Text → X → Option X) where
  -- What the loop leaves: the rows before it, then those of some more migrations, all of them if
  -- the loop succeeds.
  record Advanced (before : List HistoryRow) (ms : List Migration)
      (result : Result MigrateError (Unit {0}) × Database X) : Type 0 where
    k : ℕ
    bound : k ≤ length ms
    rows : result.1.history ≡ before ++ map row_of (take k ms)
    complete : result.0 ≡ ok tt → k ≡ length ms

  stopped :
      (before : List HistoryRow) (old ms : List Migration) (db : Database X) (e : MigrateError)
      → db.history ≡ before ++ map row_of old
      → Advanced before (old ++ ms) (err e, db)
  stopped before old ms db e h = record {
    k = length old;
    bound = omega (arith, length-append {A = Migration} old ms);
    rows = h ∙ ap (λ (l : List Migration). before ++ map row_of l) (sym (take_append old ms));
    complete = λ c. cc;
  }

  advance :
      (before : List HistoryRow) (m : Migration) (ms : List Migration)
      (result : Result MigrateError (Unit {0}) × Database X)
      → Advanced (before ++ row_of m ∷ []) ms result
      → Advanced before (m ∷ ms) result
  advance before m ms result a = record {
    k = suc a.k;
    bound = omega (arith, a.bound);
    rows = a.rows ∙ append_assoc before (row_of m ∷ []) (map row_of (take a.k ms));
    complete = λ c. ap suc (a.complete c);
  }

  -- The result of `apply_one`, with the rows that it leaves: an error of the commit may leave those of a
  -- success.
  abbrev Outcome :
      (success failure : List HistoryRow) → Result MigrateError (Unit {0}) × Database X → Type 0
  Outcome success failure result =
      ((result.0 ≡ ok tt) × (result.1.history ≡ success))
      ⊎ ((e : MigrateError) × (result.0 ≡ err e)
          × ((result.1.history ≡ failure) ⊎ (result.1.history ≡ success)))

  answered-Outcome :
      (m : Migration) (a : CommitAnswer) (db : Database X) (x : X)
      → AllBelow m.version db.history
      → Outcome (db.history ++ row_of m ∷ []) db.history (answered exec a db (migrated exec m db x))
  answered-Outcome m commit_done db x h = inl (refl, insert_row_last db.history (row_of m) h)
  answered-Outcome m (commit_error true) db x h =
      inr (database, refl, inr (insert_row_last db.history (row_of m) h))
  answered-Outcome m (commit_error false) db x h = inr (database, refl, inl refl)

  committed-Outcome :
      (m : Migration) (calls : Calls) (db : Database X) (o : Option X)
      → AllBelow m.version db.history
      → Outcome (db.history ++ row_of m ∷ []) db.history (committed exec m calls db o)
  committed-Outcome m calls db none h = inr (database, refl, inl refl)
  committed-Outcome m calls db (some x) h = elim (Bool-cases (not calls.insert_ok)) [
    | inl e ↦ rw e (inr (database, refl, inl refl))
    | inr e ↦ rw e (answered-Outcome m calls.commit db x h)
  ]

  new-Outcome :
      (m : Migration) (calls : Calls) (db : Database X)
      → AllBelow m.version db.history
      → Outcome (db.history ++ row_of m ∷ []) db.history (apply_one exec m calls db)
  unfolding apply_one
  new-Outcome m calls db h = elim (Bool-cases (not calls.exists_ok)) [
    | inl e ↦ rw e (inr (database, refl, inl refl))
    | inr e ↦ elim (Bool-cases (not calls.begin_ok)) [
      | inl f ↦ rw (e, not_applied m.version db.history h, f) (inr (database, refl, inl refl))
      | inr f ↦
          rw (e, not_applied m.version db.history h, f)
            (committed-Outcome m calls db (exec m.sql db.schema) h)
    ]
  ]

  old-Outcome :
      (m : Migration) (calls : Calls) (db : Database X)
      → is_applied m.version db.history ≡ true
      → Outcome db.history db.history (apply_one exec m calls db)
  unfolding apply_one
  old-Outcome m calls db h = elim (Bool-cases (not calls.exists_ok)) [
    | inl e ↦ rw e (inr (database, refl, inl refl))
    | inr e ↦ rw (e, h) (inl (refl, refl))
  ]

  -- The loop after the first call, by what that call has left.
  abbrev proceed :
      (ℕ → Calls)
      → List Migration
      → Result MigrateError (Unit {0}) × Database X
      → Result MigrateError (Unit {0}) × Database X
  proceed each ms (ok t, db) = apply_all exec each ms db
  proceed each ms (err e, db) = (err e, db)

  apply_all-proceed :
      (each : ℕ → Calls) (m : Migration) (ms : List Migration) (db : Database X)
      → apply_all exec each (m ∷ ms) db ≡ proceed each ms (apply_one exec m (each m.version) db)
  unfolding apply_all
  apply_all-proceed each m ms db = elim (Result-cases (apply_one exec m (each m.version) db).0) [
    | inl (t, e) ↦ rw (e, apply_all, proceed) refl
    | inr (x, e) ↦ rw (e, apply_all, proceed) refl
  ]

  proceed_with :
      (each : ℕ → Calls) (before : List HistoryRow) (m : Migration) (ms : List Migration)
      (success failure : List HistoryRow) (p : Result MigrateError (Unit {0}) × Database X)
      → Outcome success failure p
      → ((db : Database X)
          → db.history ≡ success
          → Advanced (before ++ row_of m ∷ []) ms (apply_all exec each ms db))
      → ((e : MigrateError) (db : Database X)
          → (db.history ≡ failure) ⊎ (db.history ≡ success)
          → Advanced before (m ∷ ms) (err e, db))
      → Advanced before (m ∷ ms) (proceed each ms p)
  proceed_with each before m ms success failure (ok t, db) (inl (o, h)) good bad =
      advance before m ms _ (good db h)
  proceed_with each before m ms success failure (ok t, db) (inr (e, o, h)) good bad = cc
  proceed_with each before m ms success failure (err e, db) (inl (o, h)) good bad = cc
  proceed_with each before m ms success failure (err e, db) (inr (e', o, h)) good bad = bad e db h

  either : {P : Type 0} → P ⊎ P → P
  either (inl h) = h
  either (inr h) = h

  -- The loop that ends at a new migration, which the error has kept out or let in.
  stopped_at :
      (before : List HistoryRow) (m : Migration) (ms : List Migration) (db db' : Database X)
      (e : MigrateError)
      → db.history ≡ before ++ []
      → (db'.history ≡ db.history) ⊎ (db'.history ≡ db.history ++ row_of m ∷ [])
      → Advanced before (m ∷ ms) (err e, db')
  stopped_at before m ms db db' e h (inl g) = stopped before [] (m ∷ ms) db' e (g ∙ h)
  stopped_at before m ms db db' e h (inr g) =
      stopped before (m ∷ []) ms db' e
        (g ∙ ap (λ (l : List HistoryRow). l ++ row_of m ∷ []) (h ∙ append_nil before))

  all_from :
      (each : ℕ → Calls) (n : ℕ) (before : List HistoryRow) (old ms : List Migration)
      (db : Database X)
      → AllBelow n before
      → IsSequence n (old ++ ms)
      → db.history ≡ before ++ map row_of old
      → Advanced before (old ++ ms) (apply_all exec each (old ++ ms) db)
  unfolding apply_all
  all_from each n before (m ∷ old) ms db b (e, s) h =
      let there : is_applied m.version db.history ≡ true =
        subst (λ (l : List HistoryRow). is_applied m.version l ≡ true) (sym h)
          (applied m.version before (map row_of old) (row_of m) refl) in
      subst (Advanced before (m ∷ (old ++ ms))) (sym (apply_all-proceed each m (old ++ ms) db)) (
        proceed_with each before m (old ++ ms) db.history db.history _
          (old-Outcome m (each m.version) db there)
          (λ db' h'.
            all_from each (suc n) (before ++ row_of m ∷ []) old ms db'
              (AllBelow-add n before (row_of m) b e) s
              (h' ∙ h ∙ sym (append_assoc before (row_of m ∷ []) (map row_of old))))
          (λ x db' h'. stopped before (m ∷ old) ms db' x (either h' ∙ h)))
  all_from each n before [] [] db b s h = record {
    k = 0;
    bound = omega arith;
    rows = h;
    complete = λ c. refl;
  }
  all_from each n before [] (m ∷ ms) db b (e, s) h =
      let low : AllBelow m.version db.history =
        subst (λ (l : List HistoryRow). AllBelow m.version l) (sym (h ∙ append_nil before))
          (subst (λ i. AllBelow i before) (sym e) b) in
      subst (Advanced before (m ∷ ms)) (sym (apply_all-proceed each m ms db)) (
        proceed_with each before m ms (db.history ++ row_of m ∷ []) db.history _
          (new-Outcome m (each m.version) db low)
          (λ db' h'.
            all_from each (suc n) (before ++ row_of m ∷ []) [] ms db'
              (AllBelow-add n before (row_of m) b e) s
              (h'
                ∙ ap (λ (l : List HistoryRow). l ++ row_of m ∷ []) (h ∙ append_nil before)
                ∙ sym (append_nil (before ++ row_of m ∷ []))))
          (λ x db' h'. stopped_at before m ms db db' x h h'))

  -- A database that a run has left, in success or failure, can be migrated on.
  pub record IsResumable (ms : List Migration)
      (result : Result MigrateError (Unit {0}) × Database X) : Type 0 where
    pub valid : validate_history_rows result.1.history ms ≡ ok tt
    pub compatible : result.0 ≡ ok tt → check_compatibility (some result.1.history) ms ≡ ok tt

  all_valid :
      (each : ℕ → Calls) (ms : List Migration) (db : Database X)
      → IsSequence 1 ms
      → validate_history_rows db.history ms ≡ ok tt
      → Advanced [] ms (apply_all exec each ms db)
  all_valid each ms db s v =
      let n = length db.history in
      let split = take-append-drop n ms in
      subst (λ (l : List Migration). Advanced [] l (apply_all exec each l db)) split
        (all_from each 1 [] (take n ms) (drop n ms) db tt
          (subst (λ (l : List Migration). IsSequence 1 l) (sym split) s)
          ((validate_history_rows_iff db.history ms).0 v).1)

  Advanced-IsResumable :
      (ms : List Migration) (result : Result MigrateError (Unit {0}) × Database X)
      → Advanced [] ms result
      → IsResumable ms result
  Advanced-IsResumable ms result a =
      let size : length result.1.history ≡ a.k =
        ap length a.rows ∙ length-map (take a.k ms) row_of ∙ length-take_le a.k ms a.bound in
      record {
        valid =
            (validate_history_rows_iff result.1.history ms).1
              (omega (arith, size, a.bound), a.rows ∙ ap (λ k. map row_of (take k ms)) (sym size));
        compatible = λ c.
            (check_compatibility_iff result.1.history ms).1
              (a.rows ∙ ap (map row_of) (take_all a.k ms (a.complete c)));
      }

  -- However the calls of a run fail, a commit whose response is lost after it was durable included, a database whose history was valid for migrations without gaps
  -- has a valid history afterwards, so a further run can go on from it; if the run succeeds, the
  -- database is compatible with the server.
  pub run-IsResumable :
      (calls : RunCalls) (ms : List Migration) (db : Database X)
      → IsSequence 1 ms
      → validate_history_rows db.history ms ≡ ok tt
      → IsResumable ms (run exec calls ms db)
  unfolding run
  run-IsResumable calls [] db s v = record { valid = v; compatible = λ c. cc }
  run-IsResumable calls (m ∷ ms) db s v =
      elim (Bool-cases
        (not calls.acquire_ok || not calls.lock_ok || not calls.ensure_ok || not calls.read_ok)) [
          | inl e ↦ rw e (record { valid = v; compatible = λ c. cc })
          | inr e ↦
              rw (e, v) (Advanced-IsResumable (m ∷ ms) _ (all_valid calls.each (m ∷ ms) db s v))
        ]
