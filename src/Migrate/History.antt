-- ===== src/Migrate/History.antt =====
-- What `validateHistoryRows` of internal/storage/migrate/runner.go compares.
use mathlib.Core.Path.{subst, ap₂}
use urbino.Base.{
  ℕ, zero, length-map, suc, ◌≤◌, ◌≡◌, refl, sym, ap, ◌∙◌, ◌↔◌, true, not, List, [], ◌∷◌, some,
  arith, ltb, length, map, take,
}
use urbino.Base.Text.{text_eq_iff}
use urbino.Base.Result.{ok, guard-ok, >>-ok}
use urbino.Migrate.{
  Migration, HistoryRow, compatibility, drift, equal_bytes, bytes_equal, same_row, rows_match,
  validate_history_rows, check_compatibility, row_of,
}

equal_bytes_sound : (xs ys : List ℕ) → length xs ≡ length ys → equal_bytes xs ys ≡ true → xs ≡ ys
unfolding equal_bytes
equal_bytes_sound [] [] n h = refl
equal_bytes_sound [] (y ∷ ys) n h = absurd (omega (arith, n))
equal_bytes_sound (x ∷ xs) [] n h = cc
equal_bytes_sound (x ∷ xs) (y ∷ ys) n h =
    ap₂ (λ a (l : List ℕ). a ∷ l) (ground arith)
      (equal_bytes_sound xs ys (omega (arith, n)) (ground arith))

equal_bytes_refl : (xs : List ℕ) → equal_bytes xs xs ≡ true
unfolding equal_bytes
equal_bytes_refl [] = refl
equal_bytes_refl (x ∷ xs) = ground (arith, equal_bytes_refl xs)

bytes_equal_iff : (xs ys : List ℕ) → (bytes_equal xs ys ≡ true) ↔ (xs ≡ ys)
unfolding bytes_equal
bytes_equal_iff xs ys = (
  λ h. equal_bytes_sound xs ys (ground arith) (ground arith),
  λ e. subst (λ (l : List ℕ). bytes_equal xs l ≡ true) e (ground (arith, equal_bytes_refl xs)),
)

same_row_iff : (row : HistoryRow) (m : Migration) → (same_row row m ≡ true) ↔ (row ≡ row_of m)
same_row_iff row m =
    ground (arith, text_eq_iff row.name m.name, bytes_equal_iff row.checksum m.checksum)

-- The rows are those of the first migrations.
abbrev pub IsPrefix : List HistoryRow → List Migration → Type 0
IsPrefix rows ms = rows ≡ map row_of (take (length rows) ms)

rows_match_sound :
    (rows : List HistoryRow) (ms : List Migration) → rows_match rows ms ≡ ok tt → IsPrefix rows ms
unfolding rows_match
rows_match_sound [] ms h = refl
rows_match_sound (row ∷ rows) [] h = cc
rows_match_sound (row ∷ rows) (m ∷ ms) h =
    let (same, rest) = guard-ok (not (same_row row m)) drift (rows_match rows ms) h in
    ap₂ (λ (a : HistoryRow) (l : List HistoryRow). a ∷ l) ((same_row_iff row m).0 (ground arith))
      (rows_match_sound rows ms rest)

rows_match_prefix :
    (rows : List HistoryRow) (ms : List Migration)
    → length rows ≤ length ms
    → IsPrefix rows ms
    → rows_match rows ms ≡ ok tt
unfolding rows_match
rows_match_prefix [] ms n h = refl
rows_match_prefix (row ∷ rows) [] n h = absurd (omega (arith, n))
rows_match_prefix (row ∷ rows) (m ∷ ms) n h =
    let same : row ≡ row_of m = ground arith in
    let rest : IsPrefix rows ms = ground arith in
    rw ((same_row_iff row m).1 same, rows_match_prefix rows ms (omega (arith, n)) rest) refl

-- The history is accepted exactly when it has no more rows than there are migrations and is, row by
-- row, the versions, names and checksums of the first ones.
pub validate_history_rows_iff :
    (history : List HistoryRow) (migrations : List Migration)
    → (validate_history_rows history migrations ≡ ok tt)
      ↔ ((length history ≤ length migrations) × IsPrefix history migrations)
unfolding validate_history_rows
validate_history_rows_iff history migrations = (
  λ h.
      (let (n, m) = guard-ok (ltb (length migrations) (length history)) compatibility _ h in
        (ground arith, rows_match_sound history migrations m)),
  λ (n, p). (let m = rows_match_prefix history migrations n p in ground (arith, m)),
)

pub take_all : (n : ℕ) (ms : List Migration) → n ≡ length ms → take n ms ≡ ms
take_all zero [] e = refl
take_all zero (m ∷ ms) e = absurd (omega (arith, e))
take_all (suc n) [] e = refl
take_all (suc n) (m ∷ ms) e = ap (λ (l : List Migration). m ∷ l) (take_all n ms (omega (arith, e)))

pub complete-IsPrefix : (ms : List Migration) → IsPrefix (map row_of ms) ms
complete-IsPrefix ms =
    ap (map row_of) (sym (take_all (length (map row_of ms)) ms (length-map ms row_of)))

-- The server is compatible exactly with a database whose history is that of all the migrations.
pub check_compatibility_iff :
    (history : List HistoryRow) (migrations : List Migration)
    → (check_compatibility (some history) migrations ≡ ok tt) ↔ (history ≡ map row_of migrations)
unfolding check_compatibility
check_compatibility_iff history migrations = (
  λ h.
      (let (v, n) = >>-ok (validate_history_rows history migrations) _ h in
        let same : length history ≡ length migrations = ground arith in
        ((validate_history_rows_iff history migrations).0 v).1
        ∙ ap (map row_of) (take_all (length history) migrations same)),
  λ e.
      (let same : length history ≡ length migrations = ap length e ∙ length-map migrations row_of in
        let prefix =
          subst (λ (l : List HistoryRow). IsPrefix l migrations) (sym e)
            (complete-IsPrefix migrations) in
        rw ((validate_history_rows_iff history migrations).1 (omega (arith, same), prefix))
          (ground (arith, same))),
)
