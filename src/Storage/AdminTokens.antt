-- ===== src/Storage/AdminTokens.antt =====
-- internal/storage/postgres/identity.go and admin.go: the revocation of an administrator token, and
-- the first administrator.
pub mod Changes
pub mod Left
use urbino.Base.{
  ℕ, ◌+◌, ◌==◌, Bool, true, false, ◌&&◌, ◌||◌, not, List, [], ◌∷◌, ◌++◌, Option, none, some, ltb,
  leb, length,
}
use urbino.Base.Text.{Text, codes, text_eq, is_empty}
use urbino.Base.Decimal.Print.{format_uint}
use urbino.Base.Result.{Result, ok, err, ◌>>=◌, of_option}
use urbino.Domain.Uuid.{Uuid, zero_uuid, is_zero}
use urbino.Auth.Time.{Time}
use urbino.Auth.Keys.{AdminTokenRecord, is_some, status_active}
use urbino.Storage.Errors.{StoreError, plain, not_found, last_token, bad_token_scope}
use urbino.Storage.Database.{
  to_micros, PrincipalRow, Database, Session, lock_admin, count_tokens, revoke_token, exec,
  refuse_if, find_row, update_rows, count_rows,
}
use urbino.Storage.Tx.{checked_run, Connection, with_tx_probe}
use urbino.Storage.Audit.{AuditEvent, result_success, insert_audit_event}
use urbino.Storage.Tenants.{max_bigint, numeric_overflow, is_there, exists_probe}

abbrev pub active_principal : Uuid → PrincipalRow → Bool
active_principal id p = text_eq p.id id && text_eq p.status status_active

-- t.revoked_at IS NULL AND t.expires_at > $1 AND p.status = 'active', over the join with the owner.
abbrev pub usable_token : Database → Time → AdminTokenRecord → Bool
usable_token db now t =
    not (is_some t.revoked_at)
    && ltb now t.expires_at
    && is_there (find_row (active_principal t.principal_id) db.principals)

unfoldable pub available_tokens : Time → Database → ℕ
available_tokens now db = count_rows (usable_token db now) db.admin_tokens

-- The WHERE of a revocation.
abbrev pub unrevoked : Uuid → Text → AdminTokenRecord → Bool
unrevoked principal public_id t =
    text_eq t.principal_id principal && text_eq t.public_id public_id && not (is_some t.revoked_at)

abbrev pub revoked_token : Time → AdminTokenRecord → AdminTokenRecord
revoked_token now t = record t {
  revoked_at = some (to_micros now);
  auth_version = t.auth_version + 1;
}

abbrev pub token_revoked : Uuid → AdminTokenRecord → AuditEvent
token_revoked actor t = record {
  tenant = zero_uuid;
  actor = actor;
  action = codes "admin_token.revoke";
  target_type = codes "admin_token";
  target_id = t.id;
  outcome = result_success;
  metadata = (codes "auth_version", format_uint t.auth_version) ∷ [];
}

unfoldable pub revoke_token_tx :
    (actor principal : Uuid)
    → Text
    → Time
    → Session
    → Database
    → Result StoreError (AdminTokenRecord × Database)
revoke_token_tx actor principal public_id now session db = do
  _ ← exec session revoke_token
  t ← of_option (plain not_found) (find_row (unrevoked principal public_id) db.admin_tokens)
  _ ← refuse_if (leb max_bigint t.auth_version) numeric_overflow
  db' ← insert_audit_event session (token_revoked actor (revoked_token now t)) (record db {
    admin_tokens = update_rows (unrevoked principal public_id) (revoked_token now) db.admin_tokens;
  })
  ok (revoked_token now t, db')

-- The statements of `RevokeAdminTokenFor`; the advisory lock makes the count hold until the commit.
unfoldable pub revoke_token_row :
    (actor principal : Uuid)
    → Text
    → Time
    → Session
    → Database
    → Result StoreError (AdminTokenRecord × Database)
revoke_token_row actor principal public_id now session db = do
  _ ← exec session lock_admin
  _ ← exec session count_tokens
  _ ← refuse_if (leb (available_tokens now db) 1) (plain last_token)
  revoke_token_tx actor principal public_id now session db

abbrev pub check_token_scope : Uuid → Text → Result StoreError (Unit {0})
check_token_scope principal public_id =
    refuse_if (is_zero principal || is_empty public_id) (plain bad_token_scope)

-- `adminMutationTx.RevokeAdminTokenFor`.
unfoldable pub revoke_admin_token_tx :
    (actor principal : Uuid)
    → Text
    → Time
    → Session
    → Database
    → Result StoreError (AdminTokenRecord × Database)
revoke_admin_token_tx actor principal public_id now session db = do
  _ ← check_token_scope principal public_id
  revoke_token_row actor principal public_id now session db

unfoldable pub revoke_admin_token_for :
    Connection
    → (actor principal : Uuid) → Text
    → Time
    → Database
    → Result StoreError AdminTokenRecord × Database
revoke_admin_token_for c actor principal public_id now db =
    checked_run db (check_token_scope principal public_id) (
      with_tx_probe c (revoke_token_row actor principal public_id now)
        (some (
          exists_probe λ x found. is_there (
            find_row
              (λ (t : AdminTokenRecord).
                text_eq t.principal_id principal
                && text_eq t.public_id public_id
                && is_some t.revoked_at)
              found.admin_tokens)))
        db)
