-- ===== src/Storage/TenantPages/Complete.antt =====
-- internal/storage/postgres/identity.go: the pages of `ListTenantsPage` are the whole table.
use mathlib.Core.Path.{subst}
use urbino.Base.{
  ◌≡◌, refl, ap, ◌∙◌, sym, inl, inr, ℕ, zero, suc, ◌+◌, ◌-◌, ◌<◌, ◌≤◌, true, false, ◌==◌, List, [],
  ◌∷◌, ◌++◌, Option, none, some, Bool-cases, arith, leb, ltb, take, length, length-append,
  get_elem?,
}
use urbino.Base.Text.{Text, is_empty, All}
use urbino.Base.Result.{ok}
use urbino.Domain.Uuid.{Uuid}
use urbino.Domain.Uuid.Printed.{parse_uuid-to_string}
use urbino.Domain.Scopes.{Tenant}
use urbino.Auth.Time.{Time}
use urbino.Storage.Database.{TenantRow, Database, Session, list_tenants}
use urbino.Storage.KeyReads.{filter_rows, insert_row, order_by}
use urbino.Storage.TenantPages.{
  CursorForm, decode_tenant_cursor, encode_tenant_cursor, tenant_before, is_after, cursor_of,
  tenant_page_limit, page_from, list_tenants_page,
}
use urbino.Storage.TenantPages.Order.{order_by-IsSorted, order_by-filter}
use urbino.Storage.TenantPages.Before.{tenant_before_total, tenant_before_trans}
use urbino.Storage.TenantPages.Walk.{
  walk, tenants_of, IsDistinct, IsListed, order_by-All, order_by-IsDistinct, All-later, rows_after,
  Sorted, later_than,
}

take_all : {A : Type 0} (n : ℕ) (rows : List A) → length rows ≤ n → take n rows ≡ rows
take_all zero [] h = refl
take_all zero (r ∷ rows) h = absurd (omega arith)
take_all (suc n) [] h = refl
take_all (suc n) (r ∷ rows) h = ap (λ rest. r ∷ rest) (take_all n rows (omega arith))

-- A full page of `n + 1` rows out of more than that.
record IsCut {A : Type 0} (n : ℕ) (rows : List A) : Type 0 where
  pub front : List A
  pub last : A
  pub back : List A
  pub whole : rows ≡ front ++ last ∷ back
  pub page : take (suc n) (take (suc (suc n)) rows) ≡ front ++ last ∷ []
  pub at_end : get_elem? (take (suc (suc n)) rows) n ≡ some last
  pub too_many : suc n < length (take (suc (suc n)) rows)

cut : {A : Type 0} (n : ℕ) (rows : List A) → suc n < length rows → IsCut n rows
cut n [] h = absurd (omega arith)
cut n (r ∷ []) h = absurd (omega arith)
cut zero (r ∷ s ∷ rows) h = record {
  front = [];
  last = r;
  back = s ∷ rows;
  whole = refl;
  page = refl;
  at_end = refl;
  too_many = omega arith;
}
cut (suc n) (r ∷ s ∷ rows) h =
    let c = cut n (s ∷ rows) (omega arith) in
    record {
      front = r ∷ c.front;
      last = c.last;
      back = c.back;
      whole = ap (λ rest. r ∷ rest) c.whole;
      page = ap (λ rest. r ∷ rest) c.page;
      at_end = c.at_end;
      too_many = omega (arith, c.too_many);
    }

regroup : {A : Type 0} (xs ys zs : List A) → xs ++ (ys ++ zs) ≡ (xs ++ ys) ++ zs
regroup [] ys zs = refl
regroup (x ∷ xs) ys zs = ap (λ rest. x ∷ rest) (regroup xs ys zs)

append_snoc :
    {A : Type 0} (front : List A) (last : A) (back : List A)
    → (front ++ last ∷ []) ++ back ≡ front ++ last ∷ back
append_snoc [] last back = refl
append_snoc (r ∷ front) last back = ap (λ rest. r ∷ rest) (append_snoc front last back)

tenants_of-append :
    (xs ys : List TenantRow) → tenants_of xs ++ tenants_of ys ≡ tenants_of (xs ++ ys)
tenants_of-append [] ys = refl
tenants_of-append (r ∷ xs) ys = ap (λ rest. r.tenant ∷ rest) (tenants_of-append xs ys)

-- The cursor of a listed row comes back as its time and its identifier.
cursor_of-listed :
    (form : CursorForm) (r : TenantRow) (l : IsListed form r)
    → cursor_of form l.text ≡ ok (some (r.created_at, r.tenant.id))
unfolding decode_tenant_cursor
cursor_of-listed form r l =
    let positive : (r.created_at == 0) ≡ false = ground (arith, l.created) in
    rw (l.not_empty, l.read_back, positive, (parse_uuid-to_string r.tenant.id l.identified).1) refl

encode-listed :
    (form : CursorForm) (r : TenantRow) (l : IsListed form r)
    → encode_tenant_cursor form r ≡ ok l.text
unfolding encode_tenant_cursor
encode-listed form r l = rw l.written refl

length-insert_row :
    (r : TenantRow) (rows : List TenantRow)
    → length (insert_row tenant_before r rows) ≡ suc (length rows)
unfolding insert_row
length-insert_row r [] = refl
length-insert_row r (s ∷ rows) = elim (Bool-cases (tenant_before r s)) [
  | inl first ↦ rw first refl
  | inr later ↦ rw later (ap suc (length-insert_row r rows))
]

length-order_by : (rows : List TenantRow) → length (order_by tenant_before rows) ≡ length rows
unfolding order_by
length-order_by [] = refl
length-order_by (r ∷ rows) =
    length-insert_row r (order_by tenant_before rows) ∙ ap suc (length-order_by rows)

page_size-suc : (limit : ℕ) → (n : ℕ) × (tenant_page_limit limit ≡ suc n)
page_size-suc zero = (49, refl)
page_size-suc (suc n) =
    let some_rows : (suc n == 0) ≡ false = ground arith in
    elim (Bool-cases (ltb 100 (suc n))) [
      | inl large ↦ rw (some_rows, large) (49, refl)
      | inr fits ↦ rw (some_rows, fits) (n, refl)
    ]

short_page :
    (form : CursorForm) (n : ℕ) (rows : List TenantRow)
    → length rows ≤ suc n
    → page_from form (suc n) (take (suc (suc n)) rows) ≡ ok (tenants_of rows, [])
unfolding page_from
short_page form n rows h =
    let few : leb (length rows) (suc n) ≡ true = ground arith in
    rw (take_all (suc (suc n)) rows (omega arith), few) refl

full_page :
    (form : CursorForm) (n : ℕ) (rows : List TenantRow) (c : IsCut n rows)
    (l : IsListed form c.last)
    → page_from form (suc n) (take (suc (suc n)) rows)
      ≡ ok (tenants_of (c.front ++ c.last ∷ []), l.text)
unfolding page_from
full_page form n rows c l =
    let many : leb (length (take (suc (suc n)) rows)) (suc n) ≡ false =
      ground (arith, c.too_many) in
    let before_end : suc n - 1 ≡ n = omega arith in
    rw (many, before_end, c.at_end, encode-listed form c.last l, c.page) refl

module _ (form : CursorForm) (limit : ℕ) (session : Session) (db : Database)
    (accepts : session.faults list_tenants ≡ none) (distinct : IsDistinct db.tenants)
    (listed : All (IsListed form) db.tenants) where
  abbrev in_order : List TenantRow
  in_order = order_by tenant_before db.tenants

  page_of :
      (raw : Text) (bound : Option (Time × Uuid)) (ys : List TenantRow) (n : ℕ)
      → cursor_of form raw ≡ ok bound
      → order_by tenant_before (filter_rows (is_after bound) db.tenants) ≡ ys
      → tenant_page_limit limit ≡ suc n
      → list_tenants_page form limit raw session db ≡ page_from form (suc n) (take (suc (suc n)) ys)
  unfolding list_tenants_page
  page_of raw bound ys n c rows size =
      let one_more : suc n + 1 ≡ suc (suc n) = omega arith in
      rw (c, accepts, size, rows, one_more) refl

  walk_step :
      (pages : ℕ) (raw text : Text) (ts rest : List Tenant)
      → list_tenants_page form limit raw session db ≡ ok (ts, text)
      → is_empty text ≡ false
      → walk form limit session db pages text ≡ ok rest
      → walk form limit session db (suc pages) raw ≡ ok (ts ++ rest)
  unfolding walk
  walk_step pages raw [] ts rest page more h = cc
  walk_step pages raw (b ∷ text) ts rest page more h = rw (page, h) refl

  -- From a cursor whose rows are the last ones of the order, the walk gives these rows.
  walk_from :
      (n pages : ℕ) (pre ys : List TenantRow) (raw : Text) (bound : Option (Time × Uuid))
      → tenant_page_limit limit ≡ suc n
      → in_order ≡ pre ++ ys
      → cursor_of form raw ≡ ok bound
      → order_by tenant_before (filter_rows (is_after bound) db.tenants) ≡ ys
      → length ys < pages
      → walk form limit session db pages raw ≡ ok (tenants_of ys)
  unfolding walk
  walk_from n zero pre ys raw bound size whole c rows enough = absurd (omega arith)
  walk_from n (suc pages) pre ys raw bound size whole c rows enough =
      elim (Bool-cases (ltb (suc n) (length ys))) [
        | inr few ↦
            rw (page_of raw bound ys n c rows size, short_page form n ys (ground (arith, few))) refl
        | inl many ↦
            let k = cut n ys (ground (arith, many)) in
            let split : in_order ≡ (pre ++ k.front) ++ k.last ∷ k.back =
              whole ∙ ap (λ zs. pre ++ zs) k.whole ∙ regroup pre k.front (k.last ∷ k.back) in
            let l : IsListed form k.last =
              All-later (IsListed form) (pre ++ k.front) k.back k.last (
                subst (All (IsListed form)) split
                  (order_by-All (IsListed form) db.tenants listed)) in
            let after : order_by tenant_before (filter_rows (later_than k.last) db.tenants)
                ≡ k.back =
              order_by-filter tenant_before tenant_before_total tenant_before_trans
                (later_than k.last) db.tenants
              ∙ ap (filter_rows (later_than k.last)) split
              ∙ rows_after (pre ++ k.front) k.back k.last
                  (subst Sorted split (
                    order_by-IsSorted tenant_before tenant_before_total tenant_before_trans
                      db.tenants))
                  (subst IsDistinct split (order_by-IsDistinct db.tenants distinct)) in
            let fewer : length k.back < pages =
              omega (arith, ap length k.whole, length-append k.front (k.last ∷ k.back), enough) in
            let split' : in_order ≡ (pre ++ (k.front ++ k.last ∷ [])) ++ k.back =
              whole
              ∙ ap (λ zs. pre ++ zs) (k.whole ∙ sym (append_snoc k.front k.last k.back))
              ∙ regroup pre (k.front ++ k.last ∷ []) k.back in
            let rest =
              walk_from n pages (pre ++ (k.front ++ k.last ∷ [])) k.back l.text
                (some (k.last.created_at, k.last.tenant.id)) size split'
                (cursor_of-listed form k.last l) after fewer in
            walk_step pages raw l.text (tenants_of (k.front ++ k.last ∷ [])) (tenants_of k.back)
              (page_of raw bound ys n c rows size ∙ full_page form n ys k l) l.not_empty rest
            ∙ ap ok (
                tenants_of-append (k.front ++ k.last ∷ []) k.back
                ∙ ap tenants_of (append_snoc k.front k.last k.back ∙ sym k.whole))
      ]

  keep_every : (rows : List TenantRow) → filter_rows (is_after none) rows ≡ rows
  unfolding filter_rows
  keep_every [] = refl
  keep_every (r ∷ rows) = ap (λ rest. r ∷ rest) (keep_every rows)

  first_rows : order_by tenant_before (filter_rows (is_after none) db.tenants) ≡ in_order
  first_rows = ap (order_by tenant_before) (keep_every db.tenants)

  -- A client that follows the cursors from the first page on, over a table that does not change, whose
  -- identifiers are distinct and whose cursors are read back as they were written, when no read fails,
  -- gets the rows of the table, in the order of their creation and each where the order has it, within
  -- one page more than there are tenants, whatever the size of a page.
  pub walk_complete :
      (pages : ℕ)
      → length db.tenants < pages
      → walk form limit session db pages [] ≡ ok (tenants_of (order_by tenant_before db.tenants))
  walk_complete pages enough =
      let (n, size) = page_size-suc limit in
      let short : length in_order < pages = omega (arith, length-order_by db.tenants, enough) in
      walk_from n pages [] in_order [] none size refl refl first_rows short
