-- ===== src/Storage/Found.antt =====
-- internal/storage/postgres: what a SELECT says of the rows of its table.
use urbino.Base.{◌≡◌, ◌≤◌, inl, inr, Bool, true, false, List, [], ◌∷◌, none, Bool-cases, arith}
use urbino.Base.Text.{IsIn, is_here, is_there_in}
use urbino.Storage.Database.{find_row, count_rows}
use urbino.Storage.Tenants.{is_there}

-- A row of the table that passes a test.
pub record IsSelected {A : Type 0} (test : A → Bool) (rows : List A) : Type 0 where
  pub row : A
  pub stands : IsIn row rows
  pub passes : test row ≡ true

later :
    {A : Type 0} (test : A → Bool) (r : A) (rows : List A)
    → IsSelected test rows
    → IsSelected test (r ∷ rows)
later test r rows s = record {
  row = s.row;
  stands = is_there_in r rows s.stands;
  passes = s.passes;
}

pub find_row-IsSelected :
    {A : Type 0} (test : A → Bool) (rows : List A)
    → is_there (find_row test rows) ≡ true
    → IsSelected test rows
unfolding find_row
find_row-IsSelected test [] h = cc
find_row-IsSelected test (r ∷ rows) h = elim (Bool-cases (test r)) [
  | inl hit ↦ record { row = r; stands = is_here rows; passes = hit }
  | inr miss ↦ later test r rows (find_row-IsSelected test rows (rw miss at h))
]

pub count_rows-IsSelected :
    {A : Type 0} (test : A → Bool) (rows : List A) → 1 ≤ count_rows test rows → IsSelected test rows
unfolding count_rows
count_rows-IsSelected test [] h = absurd (omega (arith, h))
count_rows-IsSelected test (r ∷ rows) h = elim (Bool-cases (test r)) [
  | inl hit ↦ record { row = r; stands = is_here rows; passes = hit }
  | inr miss ↦ later test r rows (count_rows-IsSelected test rows (rw miss at h))
]

pub find_row-none_passes :
    {A : Type 0} (test : A → Bool) (r : A) (rows : List A)
    → IsIn r rows
    → find_row test rows ≡ none
    → test r ≡ false
unfolding find_row
find_row-none_passes test r _ (is_here rows) h = elim (Bool-cases (test r)) [
  | inl hit ↦ let h' = rw hit at h in cc
  | inr miss ↦ miss
]
find_row-none_passes test r _ (is_there_in s rows i) h = elim (Bool-cases (test s)) [
  | inl hit ↦ let h' = rw hit at h in cc
  | inr miss ↦ find_row-none_passes test r rows i (rw miss at h)
]
