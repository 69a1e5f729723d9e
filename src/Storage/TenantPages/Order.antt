-- ===== src/Storage/TenantPages/Order.antt =====
-- internal/storage/postgres: what ORDER BY gives, for a total order.
use urbino.Base.{
  sym, inr, inl, ◌≡◌, refl, ap, ◌∙◌, Bool, true, false, List, [], ◌∷◌, Bool-cases, if◌then◌else◌,
}
use urbino.Base.Text.{All}
use urbino.Storage.KeyReads.{filter_rows, insert_row, order_by}

module _ {A : Type 0} (before : A → A → Bool)
    (total : (a b : A) → before a b ≡ false → before b a ≡ true)
    (trans : (a b c : A) → before a b ≡ true → before b c ≡ true → before a c ≡ true) where
  abbrev AllAfter : A → List A → Type 0
  AllAfter r rows = All (λ s. before r s ≡ true) rows

  abbrev pub IsSorted : List A → Type 0
  IsSorted [] = Unit
  IsSorted (r ∷ rows) = AllAfter r rows × IsSorted rows

  all_later : (r s : A) (rows : List A) → before r s ≡ true → AllAfter s rows → AllAfter r rows
  all_later r s [] h all = tt
  all_later r s (t ∷ rows) h all = (trans r s t h all.0, all_later r s rows h all.1)

  insert_row-AllAfter :
      (r s : A) (rows : List A)
      → before s r ≡ true
      → AllAfter s rows
      → AllAfter s (insert_row before r rows)
  unfolding insert_row
  insert_row-AllAfter r s [] h all = (h, tt)
  insert_row-AllAfter r s (t ∷ rows) h all = elim (Bool-cases (before r t)) [
    | inl first ↦ rw first (h, all)
    | inr later ↦ rw later (all.0, insert_row-AllAfter r s rows h all.1)
  ]

  insert_row-IsSorted :
      (r : A) (rows : List A) → IsSorted rows → IsSorted (insert_row before r rows)
  unfolding insert_row
  insert_row-IsSorted r [] h = (tt, tt)
  insert_row-IsSorted r (t ∷ rows) h = elim (Bool-cases (before r t)) [
    | inl first ↦ rw first ((first, all_later r t rows first h.0), h)
    | inr later ↦
        rw later
          (insert_row-AllAfter r t rows (total r t later) h.0, insert_row-IsSorted r rows h.1)
  ]

  pub order_by-IsSorted : (rows : List A) → IsSorted (order_by before rows)
  unfolding order_by
  order_by-IsSorted [] = tt
  order_by-IsSorted (r ∷ rows) = insert_row-IsSorted r _ (order_by-IsSorted rows)

  module _ (keep : A → Bool) where
    filter_rows-AllAfter :
        (r : A) (rows : List A) → AllAfter r rows → AllAfter r (filter_rows keep rows)
    unfolding filter_rows
    filter_rows-AllAfter r [] all = tt
    filter_rows-AllAfter r (t ∷ rows) all = elim (Bool-cases (keep t)) [
      | inl kept ↦ rw kept (all.0, filter_rows-AllAfter r rows all.1)
      | inr gone ↦ rw gone (filter_rows-AllAfter r rows all.1)
    ]

    insert_first : (r : A) (rows : List A) → AllAfter r rows → insert_row before r rows ≡ r ∷ rows
    unfolding insert_row
    insert_first r [] all = refl
    insert_first r (t ∷ rows) all = rw all.0 refl

    filter-insert_kept :
        (r : A) (rows : List A)
        → keep r ≡ true
        → IsSorted rows
        → filter_rows keep (insert_row before r rows) ≡ insert_row before r (filter_rows keep rows)
    unfolding insert_row filter_rows
    filter-insert_kept r [] k h = rw k refl
    filter-insert_kept r (t ∷ rows) k h = elim (Bool-cases (before r t)) [
      | inl first ↦
          rw
            (
              first,
              k,
              insert_first r (filter_rows keep (t ∷ rows))
                  (filter_rows-AllAfter r (t ∷ rows) (first, all_later r t rows first h.0)),
            )
            refl
      | inr later ↦ elim (Bool-cases (keep t)) [
        | inl kept ↦ rw (later, kept, later, filter-insert_kept r rows k h.1) refl
        | inr gone ↦ rw (later, gone, filter-insert_kept r rows k h.1) refl
      ]
    ]

    filter-insert_gone :
        (r : A) (rows : List A)
        → keep r ≡ false
        → filter_rows keep (insert_row before r rows) ≡ filter_rows keep rows
    unfolding insert_row filter_rows
    filter-insert_gone r [] k = rw k refl
    filter-insert_gone r (t ∷ rows) k = elim (Bool-cases (before r t)) [
      | inl first ↦ rw (first, k) refl
      | inr later ↦
          rw later (ap (λ rest. if keep t then t ∷ rest else rest) (filter-insert_gone r rows k))
    ]

    -- A filter may be applied after the order.
    pub order_by-filter :
        (rows : List A)
        → order_by before (filter_rows keep rows) ≡ filter_rows keep (order_by before rows)
    unfolding order_by filter_rows
    order_by-filter [] = refl
    order_by-filter (r ∷ rows) = elim (Bool-cases (keep r)) [
      | inl kept ↦ rw kept (
          ap (insert_row before r) (order_by-filter rows)
          ∙ sym (filter-insert_kept r (order_by before rows) kept (order_by-IsSorted rows)))
      | inr gone ↦
          rw gone (order_by-filter rows ∙ sym (filter-insert_gone r (order_by before rows) gone))
    ]
