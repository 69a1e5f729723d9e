-- ===== src/Storage/ApiKeys.antt =====
-- internal/storage/postgres/identity.go and authenticator.go: the public keys, as `IdentityStore`,
-- `adminMutationTx` and `Authenticator` create, revoke, look up, list and count them.
pub mod Changes
pub mod Stored
pub mod Created
pub mod Revoked
use urbino.Base.{
  ℕ, ◌+◌, ◌==◌, Bool, true, false, ◌&&◌, ◌||◌, not, List, [], ◌∷◌, ◌++◌, Option, none, some, ltb,
  leb, if◌then◌else◌, length, map,
}
use urbino.Base.Text.{Text, codes, text_eq, is_empty}
use urbino.Base.Decimal.Print.{format_uint}
use urbino.Base.Result.{Result, ok, err, ◌>>=◌, ◌>>◌, of_option}
use urbino.Domain.Uuid.{Uuid, is_zero}
use urbino.Auth.Time.{Time}
use urbino.Auth.Keys.{
  KeyRecord, Issued, status_active, status_revoked, all_scopes, is_public_scope, is_nil,
}
use urbino.Storage.Errors.{
  StoreError, plain, not_found, membership_required, bad_key_scopes, bad_key_record, bad_key_scope,
}
use urbino.Storage.Database.{
  to_micros, TenantRow, ProjectRow, UserRow, MemberRow, KeyRow, Database, Session, member_exists,
  insert_key, revoke_key, select_key, list_keys, count_keys, exec, refuse_if, find_row, update_rows,
  count_rows,
}
use urbino.Storage.Tx.{checked_run, Connection, with_tx_probe}
use urbino.Storage.Audit.{AuditEvent, result_success, insert_audit_event}
use urbino.Storage.Tenants.{max_bigint, numeric_overflow, unique_violation, is_there, exists_probe}

abbrev pub active_user : (tenant user : Uuid) → UserRow → Bool
active_user tenant user u =
    text_eq u.tenant tenant && text_eq u.id user && text_eq u.status status_active

abbrev pub active_membership : (tenant project user : Uuid) → MemberRow → Bool
active_membership tenant project user m =
    text_eq m.tenant tenant
    && text_eq m.project project
    && text_eq m.user user
    && text_eq m.status status_active

abbrev pub active_project : (tenant project : Uuid) → ProjectRow → Bool
active_project tenant project p =
    text_eq p.tenant tenant && text_eq p.id project && text_eq p.status status_active

abbrev pub active_tenant : Uuid → TenantRow → Bool
active_tenant tenant t = text_eq t.tenant.id tenant && text_eq t.tenant.status status_active

-- The join of `project_members` and `users`.
abbrev pub is_member : (tenant project user : Uuid) → Database → Bool
is_member tenant project user db =
    is_there (find_row (active_membership tenant project user) db.members)
    && is_there (find_row (active_user tenant user) db.users)

unfoldable pub active_project_member :
    (tenant project user : Uuid) → Session → Database → Result StoreError Bool
active_project_member tenant project user session db = do
  _ ← exec session member_exists
  ok (is_member tenant project user db)

unfoldable pub validate_public_key_scopes : List Text → Result StoreError (Unit {0})
validate_public_key_scopes scopes =
    if is_nil scopes
    then err (plain bad_key_scopes)
    else if all_scopes is_public_scope scopes
    then ok tt
    else err (plain bad_key_scopes)

abbrev pub bad_issued : Issued KeyRecord → Bool
bad_issued issued =
    is_empty issued.secret
    || is_empty issued.value
    || is_zero issued.stored.id
    || is_zero issued.stored.tenant
    || is_zero issued.stored.project
    || is_zero issued.stored.user
    || not (length issued.stored.digest == 32)

abbrev pub check_issued : Issued KeyRecord → Result StoreError (Unit {0})
check_issued issued = do
  _ ← validate_public_key_scopes issued.stored.scopes
  refuse_if (bad_issued issued) (plain bad_key_record)

abbrev pub has_public_id : Text → KeyRow → Bool
has_public_id public_id k = text_eq k.stored.public_id public_id

-- The primary key of `api_keys`, and the unique `public_id`.
abbrev pub clashes : KeyRecord → KeyRow → Bool
clashes r k =
    has_public_id r.public_id k || (text_eq k.stored.tenant r.tenant && text_eq k.stored.id r.id)

-- The row of a new key: the literal status, and no time of revocation.
abbrev pub key_row : Session → KeyRecord → KeyRow
key_row session r = record {
  stored = record r {
    status = status_active;
    expires_at = to_micros r.expires_at;
    revoked_at = none;
  };
  created_at = session.now;
}

abbrev pub add_key : KeyRow → Database → Database
add_key row db = record db { api_keys = db.api_keys ++ row ∷ [] }

abbrev pub key_event : Text → Uuid → KeyRecord → AuditEvent
key_event action actor r = record {
  tenant = r.tenant;
  actor = actor;
  action = action;
  target_type = codes "api_key";
  target_id = r.id;
  outcome = result_success;
  metadata = (codes "status", r.status) ∷ (codes "auth_version", format_uint r.auth_version) ∷ [];
}

-- The statements of `CreateAPIKeyFor`.
unfoldable pub insert_key_row :
    Uuid → KeyRecord → Session → Database → Result StoreError (Unit {0} × Database)
insert_key_row actor r session db = do
  member ← active_project_member r.tenant r.project r.user session db
  _ ← refuse_if (not member) (plain membership_required)
  _ ← exec session insert_key
  _ ← refuse_if (is_there (find_row (clashes r) db.api_keys)) unique_violation
  db' ←
      insert_audit_event session
        (key_event (codes "api_key.create") actor (key_row session r).stored)
        (add_key (key_row session r) db)
  ok (tt, db')

-- `adminMutationTx.CreateAPIKeyFor`.
unfoldable pub create_api_key_tx :
    Uuid → Issued KeyRecord → Session → Database → Result StoreError (Unit {0} × Database)
create_api_key_tx actor issued session db = do
  _ ← check_issued issued
  insert_key_row actor issued.stored session db

unfoldable pub create_api_key_for :
    Connection → Uuid → Issued KeyRecord → Database → Result StoreError (Unit {0}) × Database
create_api_key_for c actor issued db = checked_run db (check_issued issued) (
    with_tx_probe c (insert_key_row actor issued.stored)
      (some (
        exists_probe λ x found. is_there (
          find_row
            (λ (k : KeyRow).
              text_eq k.stored.id issued.stored.id
              && text_eq k.stored.tenant issued.stored.tenant
              && has_public_id issued.stored.public_id k)
            found.api_keys)))
      db)

abbrev pub in_scope : (tenant project : Uuid) → Text → KeyRow → Bool
in_scope tenant project public_id k =
    text_eq k.stored.tenant tenant && text_eq k.stored.project project && has_public_id public_id k

-- The WHERE of a revocation.
abbrev pub active_in_scope : (tenant project : Uuid) → Text → KeyRow → Bool
active_in_scope tenant project public_id k =
    in_scope tenant project public_id k && text_eq k.stored.status status_active

-- SET status = 'revoked', revoked_at, auth_version = auth_version + 1.
abbrev pub revoked_key : Time → KeyRow → KeyRow
revoked_key now k = record k {
  stored = record k.stored {
    status = status_revoked;
    revoked_at = some (to_micros now);
    auth_version = k.stored.auth_version + 1;
  };
}

abbrev pub bad_scope : (tenant project : Uuid) → Text → Bool
bad_scope tenant project public_id = is_zero tenant || is_zero project || is_empty public_id

-- The statements of `RevokeAPIKeyFor`.
unfoldable pub revoke_key_row :
    (actor tenant project : Uuid)
    → Text
    → Time
    → Session
    → Database
    → Result StoreError (KeyRecord × Database)
revoke_key_row actor tenant project public_id now session db = do
  _ ← exec session revoke_key
  k ← of_option (plain not_found) (find_row (active_in_scope tenant project public_id) db.api_keys)
  _ ← refuse_if (leb max_bigint k.stored.auth_version) numeric_overflow
  let r = (revoked_key now k).stored
  db' ← insert_audit_event session (key_event (codes "api_key.revoke") actor r) (record db {
    api_keys = update_rows (active_in_scope tenant project public_id) (revoked_key now) db.api_keys;
  })
  ok (r, db')

-- `adminMutationTx.RevokeAPIKeyFor`.
unfoldable pub revoke_api_key_tx :
    (actor tenant project : Uuid)
    → Text
    → Time
    → Session
    → Database
    → Result StoreError (KeyRecord × Database)
revoke_api_key_tx actor tenant project public_id now session db =
    if bad_scope tenant project public_id
    then err (plain bad_key_scope)
    else revoke_key_row actor tenant project public_id now session db

unfoldable pub revoke_api_key_for :
    Connection
    → (actor tenant project : Uuid) → Text
    → Time
    → Database
    → Result StoreError KeyRecord × Database
revoke_api_key_for c actor tenant project public_id now db =
    checked_run db (refuse_if (bad_scope tenant project public_id) (plain bad_key_scope)) (
      with_tx_probe c (revoke_key_row actor tenant project public_id now)
        (some (
          exists_probe λ x found. is_there (
            find_row
              (λ (k : KeyRow).
                in_scope tenant project public_id k && text_eq k.stored.status status_revoked)
              found.api_keys)))
        db)
