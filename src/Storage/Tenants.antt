-- ===== src/Storage/Tenants.antt =====
-- internal/storage/postgres/identity.go: the tenants, as `IdentityStore` and `adminMutationTx` create,
-- read and update them.
pub mod Versions
use urbino.Base.{
  ℕ, ◌+◌, ◌-◌, ◌^◌, ◌==◌, Bool, true, false, ◌&&◌, ◌||◌, not, List, [], ◌∷◌, ◌++◌, Option, none,
  some, ltb, leb, if◌then◌else◌, length,
}
use urbino.Base.Text.{Text, codes, text_eq, is_empty}
use urbino.Base.Decimal.Print.{format_uint}
use urbino.Base.Result.{Result, ok, err, ◌>>=◌, ◌>>◌, of_option}
use urbino.Domain.Uuid.{Uuid, zero_uuid, is_zero}
use urbino.Domain.Scopes.{ValidationError, Tenant, Project, tenant_validate, tenant_status_valid}
use urbino.Storage.Errors.{
  StoreError, plain, classify_error, pg_error, not_found, version_conflict, bad_tenant,
  bad_tenant_id, bad_update,
}
use urbino.Storage.Database.{
  TenantRow, Database, Session, insert_tenant, update_tenant, tenant_exists, select_tenant, exec,
  refuse_if, find_row, update_rows,
}
use urbino.Storage.Tx.{Connection, Probe, with_tx_probe, checked_run}
use urbino.Storage.Audit.{AuditEvent, result_success, insert_audit_event}

-- A `bigint` column holds no more.
abbrev pub max_bigint : ℕ
max_bigint = 2 ^ 63 - 1

abbrev pub unique_violation : StoreError
unique_violation = classify_error (plain (pg_error (codes "23505")))

abbrev pub numeric_overflow : StoreError
numeric_overflow = classify_error (plain (pg_error (codes "22003")))

abbrev pub has_id : Uuid → TenantRow → Bool
has_id id r = text_eq r.tenant.id id

abbrev pub has_version : Uuid → ℕ → TenantRow → Bool
has_version id version r = has_id id r && (r.tenant.version == version)

abbrev pub is_there {ℓ} : {A : Type ℓ} → Option A → Bool
is_there none = false
is_there (some a) = true

-- `SELECT EXISTS (... WHERE id = $1)`.
abbrev pub exists_tenant : Uuid → Database → Bool
exists_tenant id db = is_there (find_row (has_id id) db.tenants)

abbrev pub tenant_ok : Result ValidationError (Unit {0}) → Result StoreError (Unit {0})
tenant_ok (err e) = err (plain (bad_tenant e))
tenant_ok (ok t) = ok tt

abbrev pub tenant_created : Uuid → Tenant → AuditEvent
tenant_created actor t = record {
  tenant = t.id;
  actor = actor;
  action = codes "tenant.create";
  target_type = codes "tenant";
  target_id = t.id;
  outcome = result_success;
  metadata = (codes "status", t.status) ∷ (codes "currency", t.currency) ∷ [];
}

abbrev pub add_tenant : Session → Tenant → Database → Database
add_tenant session t db = record db {
  tenants = db.tenants ++ record { tenant = t; created_at = session.now } ∷ [];
}

-- The statements of `CreateTenantFor`.
unfoldable pub insert_tenant_row :
    Uuid → Tenant → Session → Database → Result StoreError (Tenant × Database)
insert_tenant_row actor t session db = do
  _ ← exec session insert_tenant
  _ ← refuse_if (exists_tenant t.id db) unique_violation
  db' ← insert_audit_event session (tenant_created actor t) (add_tenant session t db)
  ok (t, db')

-- `adminMutationTx.CreateTenantFor`.
unfoldable pub create_tenant_tx :
    Uuid → Tenant → Session → Database → Result StoreError (Tenant × Database)
create_tenant_tx actor t session db = do
  _ ← tenant_ok (tenant_validate t)
  insert_tenant_row actor t session db

-- A probe that asks if a row exists.
abbrev pub exists_probe : {X : Type 0} → (X → Database → Bool) → Probe X
exists_probe test x db = ok (if test x db then some x else none)

unfoldable pub create_tenant_for :
    Connection → Uuid → Tenant → Database → Result StoreError Tenant × Database
create_tenant_for c actor t db = checked_run db (tenant_ok (tenant_validate t)) (
    with_tx_probe c (insert_tenant_row actor t)
      (some (exists_probe (λ x found. exists_tenant t.id found))) db)

unfoldable pub get_tenant : Session → Uuid → Database → Result StoreError Tenant
get_tenant session id db = if is_zero id then err (plain bad_tenant_id) else (do
  _ ← exec session select_tenant
  r ← of_option (plain not_found) (find_row (has_id id) db.tenants)
  ok r.tenant)

-- `strconv.FormatUint(version, 10)`.
abbrev pub tenant_updated : Uuid → Tenant → AuditEvent
tenant_updated actor t = record {
  tenant = t.id;
  actor = actor;
  action = codes "tenant.update";
  target_type = codes "tenant";
  target_id = t.id;
  outcome = result_success;
  metadata = (codes "status", t.status) ∷ (codes "version", format_uint t.version) ∷ [];
}

-- SET name, status, policy_version = policy_version + 1.
abbrev pub renamed : (name status : Text) → TenantRow → TenantRow
renamed name status r = record r {
  tenant = record r.tenant { name = name; status = status; version = r.tenant.version + 1 };
}

abbrev pub missing_or_stale : Bool → StoreError
missing_or_stale true = plain version_conflict
missing_or_stale false = plain not_found

abbrev pub update_found :
    (actor id : Uuid)
    → (version : ℕ) → (name status : Text) → Session
    → Database
    → Option TenantRow
    → Result StoreError (Tenant × Database)
update_found actor id version name status session db none = do
  _ ← exec session tenant_exists
  err (missing_or_stale (exists_tenant id db))
update_found actor id version name status session db (some r) = do
  _ ← refuse_if (leb max_bigint r.tenant.version) numeric_overflow
  let t = (renamed name status r).tenant
  db' ← insert_audit_event session (tenant_updated actor t) (record db {
    tenants = update_rows (has_version id version) (renamed name status) db.tenants;
  })
  ok (t, db')

abbrev pub bad_tenant_update : Uuid → ℕ → (name status : Text) → Bool
bad_tenant_update id version name status =
    is_zero id
    || version == 0
    || is_empty name
    || ltb 200 (length name)
    || not (tenant_status_valid status)

-- The statements of `UpdateTenantFor`.
unfoldable pub update_tenant_row :
    (actor id : Uuid)
    → (version : ℕ) → (name status : Text) → Session
    → Database
    → Result StoreError (Tenant × Database)
update_tenant_row actor id version name status session db = do
  _ ← exec session update_tenant
  update_found actor id version name status session db
      (find_row (has_version id version) db.tenants)

-- `adminMutationTx.UpdateTenantFor`.
unfoldable pub update_tenant_tx :
    (actor id : Uuid)
    → (version : ℕ) → (name status : Text) → Session
    → Database
    → Result StoreError (Tenant × Database)
update_tenant_tx actor id version name status session db =
    if bad_tenant_update id version name status
    then err (plain bad_update)
    else update_tenant_row actor id version name status session db

-- The probe of an update: the row as it is after it.
abbrev pub has_update : Uuid → ℕ → (name status : Text) → TenantRow → Bool
has_update id version name status r =
    text_eq r.tenant.id id
    && text_eq r.tenant.name name
    && text_eq r.tenant.status status
    && (r.tenant.version == version + 1)

unfoldable pub update_tenant_for :
    Connection
    → (actor id : Uuid) → (version : ℕ) → (name status : Text) → Database
    → Result StoreError Tenant × Database
update_tenant_for c actor id version name status db =
    checked_run db (refuse_if (bad_tenant_update id version name status) (plain bad_update)) (
      with_tx_probe c (update_tenant_row actor id version name status)
        (some (
          exists_probe
            λ x found. is_there (find_row (has_update id version name status) found.tenants)))
        db)
