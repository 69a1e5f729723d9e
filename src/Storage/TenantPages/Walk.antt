-- ===== src/Storage/TenantPages/Walk.antt =====
-- internal/storage/postgres/identity.go: a client that follows the cursors of `ListTenantsPage`.
use urbino.Base.{
  ◌≡◌, ◌≢◌, refl, ap, ◌∙◌, sym, inl, inr, ℕ, zero, suc, ◌<◌, Bool, true, false, not, List, [], ◌∷◌,
  ◌++◌, some, Bool-cases, map,
}
use urbino.Base.Text.{Text, is_empty, All, eq_of_text_eq}
use urbino.Base.Result.{Result, ok, ◌>>=◌}
use urbino.Domain.Uuid.{IsUuid, to_string}
use urbino.Domain.Scopes.{Tenant}
use urbino.Storage.Errors.{StoreError}
use urbino.Storage.Database.{TenantRow, Database, Session}
use urbino.Storage.KeyReads.{filter_rows, insert_row, order_by}
use urbino.Storage.TenantPages.{CursorForm, tenant_before, is_after, list_tenants_page}
use urbino.Storage.TenantPages.Order.{IsSorted}
use urbino.Storage.TenantPages.Before.{
  tenant_before_refl, tenant_before_total, tenant_before_trans, tenant_before_antisym,
  is_after-before,
}

-- The pages from a cursor on, put together; each is asked for with the cursor that the last one gave.
unfoldable pub walk :
    CursorForm
    → (limit : ℕ) → Session
    → Database
    → (pages : ℕ) → (cursor : Text) → Result StoreError (List Tenant)
walk form limit session db zero raw = ok []
walk form limit session db (suc pages) raw = list_tenants_page form limit raw session db >>= λ page.
    elim (is_empty page.1) [
      | true ↦ ok page.0
      | false ↦ walk form limit session db pages page.1 >>= λ rest. ok (page.0 ++ rest)
    ]

abbrev pub tenants_of : List TenantRow → List Tenant
tenants_of rows = map (λ (r : TenantRow). r.tenant) rows

-- The primary key of `tenants`.
abbrev pub IsDistinct : List TenantRow → Type 0
IsDistinct [] = Unit
IsDistinct (r ∷ rows) = All (λ (s : TenantRow). r.tenant.id ≢ s.tenant.id) rows × IsDistinct rows

-- A row whose cursor can be written and is read back.
pub record IsListed (form : CursorForm) (r : TenantRow) : Type 0 where
  pub created : 0 < r.created_at
  pub identified : IsUuid r.tenant.id
  pub text : Text
  pub written :
      form.write (record { created_at = r.created_at; id = to_string r.tenant.id }) ≡ some text
  pub read_back :
      form.read text ≡ some (record { created_at = r.created_at; id = to_string r.tenant.id })
  pub not_empty : is_empty text ≡ false

insert_row-All :
    (P : TenantRow → Type 0) (r : TenantRow) (rows : List TenantRow)
    → P r
    → All P rows
    → All P (insert_row tenant_before r rows)
unfolding insert_row
insert_row-All P r [] p all = (p, tt)
insert_row-All P r (s ∷ rows) p all = elim (Bool-cases (tenant_before r s)) [
  | inl first ↦ rw first (p, all)
  | inr later ↦ rw later (all.0, insert_row-All P r rows p all.1)
]

pub order_by-All :
    (P : TenantRow → Type 0) (rows : List TenantRow)
    → All P rows
    → All P (order_by tenant_before rows)
unfolding order_by
order_by-All P [] all = tt
order_by-All P (r ∷ rows) all = insert_row-All P r _ all.0 (order_by-All P rows all.1)

insert_row-IsDistinct :
    (r : TenantRow) (rows : List TenantRow)
    → All (λ (s : TenantRow). r.tenant.id ≢ s.tenant.id) rows
    → IsDistinct rows
    → IsDistinct (insert_row tenant_before r rows)
unfolding insert_row
insert_row-IsDistinct r [] all h = (tt, tt)
insert_row-IsDistinct r (s ∷ rows) all h = elim (Bool-cases (tenant_before r s)) [
  | inl first ↦ rw first (all, h)
  | inr later ↦ rw later (
    insert_row-All (λ (t : TenantRow). s.tenant.id ≢ t.tenant.id) r rows (λ e. all.0 (sym e)) h.0,
    insert_row-IsDistinct r rows all.1 h.1,
  )
]

pub order_by-IsDistinct :
    (rows : List TenantRow) → IsDistinct rows → IsDistinct (order_by tenant_before rows)
unfolding order_by
order_by-IsDistinct [] h = tt
order_by-IsDistinct (r ∷ rows) h =
    insert_row-IsDistinct r _ (order_by-All (λ (s : TenantRow). r.tenant.id ≢ s.tenant.id) rows h.0)
      (order_by-IsDistinct rows h.1)

abbrev pub Sorted : List TenantRow → Type 0
Sorted rows = IsSorted tenant_before tenant_before_total tenant_before_trans rows

abbrev pub later_than : TenantRow → TenantRow → Bool
later_than last r = is_after (some (last.created_at, last.tenant.id)) r

pub All-later :
    (P : TenantRow → Type 0) (front back : List TenantRow) (last : TenantRow)
    → All P (front ++ last ∷ back)
    → P last
All-later P [] back last all = all.0
All-later P (r ∷ front) back last all = All-later P front back last all.1

none_skipped :
    (last : TenantRow) (rows : List TenantRow)
    → All (λ s. tenant_before last s ≡ true) rows
    → All (λ (s : TenantRow). last.tenant.id ≢ s.tenant.id) rows
    → filter_rows (later_than last) rows ≡ rows
unfolding filter_rows
none_skipped last [] sorted distinct = refl
none_skipped last (s ∷ rows) sorted distinct = elim (Bool-cases (tenant_before s last)) [
  | inl back ↦ absurd (
      distinct.0
        (eq_of_text_eq last.tenant.id s.tenant.id (tenant_before_antisym last s sorted.0 back)))
  | inr later ↦
      let kept : later_than last s ≡ true = is_after-before last s ∙ ap not later in
      rw kept (ap (λ rest. s ∷ rest) (none_skipped last rows sorted.1 distinct.1))
]

-- After the cursor of a row come the rows that follow it in the order.
pub rows_after :
    (front back : List TenantRow) (last : TenantRow)
    → Sorted (front ++ last ∷ back)
    → IsDistinct (front ++ last ∷ back)
    → filter_rows (later_than last) (front ++ last ∷ back) ≡ back
unfolding filter_rows
rows_after [] back last sorted distinct =
    let gone : later_than last last ≡ false =
      is_after-before last last ∙ ap not (tenant_before_refl last) in
    rw gone (none_skipped last back sorted.0 distinct.0)
rows_after (r ∷ front) back last sorted distinct =
    let gone : later_than last r ≡ false =
      is_after-before last r
      ∙ ap not (All-later (λ s. tenant_before r s ≡ true) front back last sorted.0) in
    rw gone (rows_after front back last sorted.1 distinct.1)
