-- ===== src/Storage/TenantPages.antt =====
-- internal/storage/postgres/identity.go: `ListTenantsPage` with its cursors. The JSON form of a cursor in
-- URL base64 is a parameter.
pub mod Order
pub mod Before
pub mod Walk
pub mod Complete
use urbino.Base.{
  ℕ, ◌+◌, ◌-◌, not, Bool, true, ◌&&◌, ◌||◌, ◌==◌, List, [], Option, none, some, ltb, leb,
  if◌then◌else◌, take, map, length, get_elem?,
}
use urbino.Base.Text.{Text, is_empty}
use urbino.Base.Result.{Result, ok, err, ◌>>=◌, of_option}
use urbino.Domain.Uuid.{UuidError, Uuid, to_string, parse_uuid}
use urbino.Domain.Scopes.{Tenant}
use urbino.Auth.Time.{Time}
use urbino.Storage.Errors.{StoreError, plain, bad_cursor, encoding_failed, classify_error}
use urbino.Storage.Database.{TenantRow, Database, Session, list_tenants, exec, refuse_if}
use urbino.Storage.KeyReads.{filter_rows, order_by, text_le}

-- `tenantCursor`.
pub record TenantCursor : Type 0 where
  pub created_at : Time
  pub id : Text

-- The JSON form in base64: a text that cannot be decoded, and a time that cannot be written, are `none`.
pub record CursorForm : Type 0 where
  pub read : Text → Option TenantCursor
  pub write : TenantCursor → Option Text

abbrev or_bad_cursor : Result UuidError Uuid → Result StoreError Uuid
or_bad_cursor (ok id) = ok id
or_bad_cursor (err e) = err (plain bad_cursor)

-- The cursor with its parsed identifier.
unfoldable pub decode_tenant_cursor : CursorForm → Text → Result StoreError (Time × Uuid)
decode_tenant_cursor form raw = do
  cursor ← of_option (plain bad_cursor) (form.read raw)
  _ ← refuse_if (cursor.created_at == 0) (plain bad_cursor)
  id ← or_bad_cursor (parse_uuid cursor.id)
  ok (cursor.created_at, id)

unfoldable pub encode_tenant_cursor : CursorForm → TenantRow → Result StoreError Text
encode_tenant_cursor form r =
    of_option (classify_error (plain encoding_failed))
      (form.write (record { created_at = r.created_at; id = to_string r.tenant.id }))

abbrev pub tenant_before : TenantRow → TenantRow → Bool
tenant_before a b =
    ltb a.created_at b.created_at
    || (a.created_at == b.created_at) && text_le a.tenant.id b.tenant.id

-- `(created_at, id) > ($1, $2)`, if there is a cursor.
abbrev pub is_after : Option (Time × Uuid) → TenantRow → Bool
is_after none r = true
is_after (some (t, id)) r =
    ltb t r.created_at || (t == r.created_at) && not (text_le r.tenant.id id)

abbrev pub cursor_of : CursorForm → Text → Result StoreError (Option (Time × Uuid))
cursor_of form raw =
    if is_empty raw then ok none else (decode_tenant_cursor form raw >>= λ c. ok (some c))

abbrev pub tenant_page_limit : ℕ → ℕ
tenant_page_limit limit = if (limit == 0) || ltb 100 limit then 50 else limit

-- Of the rows that were read, which are at most one more than `limit`, the page and the cursor of the
-- page that follows, if one does; the index of the last row of the page is then in range.
unfoldable pub page_from :
    CursorForm → (limit : ℕ) → List TenantRow → Result StoreError (List Tenant × Text)
page_from form limit rows =
    if leb (length rows) limit then ok (map (λ (r : TenantRow). r.tenant) rows, []) else (do
      last ← of_option (plain bad_cursor) (get_elem? rows (limit - 1))
      next ← encode_tenant_cursor form last
      ok (map (λ (r : TenantRow). r.tenant) (take limit rows), next))

unfoldable pub list_tenants_page :
    CursorForm
    → (limit : ℕ) → (cursor : Text) → Session
    → Database
    → Result StoreError (List Tenant × Text)
list_tenants_page form limit raw session db = do
  bound ← cursor_of form raw
  _ ← exec session list_tenants
  page_from form (tenant_page_limit limit) (
      take (tenant_page_limit limit + 1)
        (order_by tenant_before (filter_rows (is_after bound) db.tenants)))
