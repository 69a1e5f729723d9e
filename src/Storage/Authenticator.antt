-- ===== src/Storage/Authenticator.antt =====
-- internal/storage/postgres/authenticator.go: `Authenticator`, which reads the identity records at
-- every request. HMAC-SHA-256 is a parameter; the clock's reading is an argument.
pub mod Revocation
mod Examples
use urbino.Base.{if◌then◌else◌, Bool, true, false, ◌&&◌, not, List, [], ◌∷◌, Option, none, some, ℕ}
use urbino.Base.Text.{Text, text_eq}
use urbino.Base.Int64.{int64_of}
use urbino.Base.Result.{Result, ok, err, ◌>>=◌, of_option}
use urbino.Domain.Uuid.{Uuid}
use urbino.Auth.Errors.{AuthError, invalid_credential}
use urbino.Auth.Time.{Time}
use urbino.Auth.Credential.{parse_public_credential, parse_admin_credential}
use urbino.Auth.Headers.{public_listener, admin_listener, parse_headers}
use urbino.Auth.Keys.{Pepper, KeyRecord, AdminTokenRecord, is_some, verify, verify_admin}
use urbino.Auth.Service.{Principal, AdminPrincipal, Request}
use urbino.Storage.Errors.{Cause, StoreError, plain, no_rows, classify_error, is_error}
use urbino.Storage.Database.{
  select_token, PrincipalRow, KeyRow, Database, Session, Statement, select_key, revoke_token, exec,
  find_row,
}
use urbino.Storage.AdminTokens.{active_principal}
use urbino.Storage.KeyReads.{is_usable_row}

-- `auth` errors as they are, the store's classified.
pub data Rejection : Type 0 where
  auth_error : AuthError → Rejection
  database_error : StoreError → Rejection

abbrev pub is_no_rows : Cause → Bool
is_no_rows no_rows = true
is_no_rows c = false

-- The driver's error, which the callers classify.
abbrev pub scanned : Session → Statement → Result StoreError (Unit {0})
scanned session statement = elim (session.faults statement) [
  | none ↦ ok tt
  | some c ↦ err (plain c)
]

unfoldable pub lookup_public : Text → Session → Database → Result StoreError KeyRecord
lookup_public public_id session db = do
  _ ← scanned session select_key
  k ← of_option (plain no_rows) (find_row (is_usable_row public_id db) db.api_keys)
  ok k.stored

-- `auth.ErrInvalidCredential` for a missing row.
abbrev pub looked_up : {X : Type 0} → Result StoreError X → Result Rejection X
looked_up (ok x) = ok x
looked_up (err e) =
    if is_error is_no_rows e
    then err (auth_error invalid_credential)
    else err (database_error (classify_error e))

abbrev pub from_auth : {X : Type 0} → Result AuthError X → Result Rejection X
from_auth (ok x) = ok x
from_auth (err e) = err (auth_error e)

-- The error of the parser, replaced.
abbrev pub parsed : {X : Type 0} → Result AuthError X → Result Rejection X
parsed (ok x) = ok x
parsed (err e) = err (auth_error invalid_credential)

abbrev pub principal_of : KeyRecord → Principal
principal_of r = record {
  tenant_id = r.tenant;
  project_id = r.project;
  user_id = r.user;
  key_id = r.public_id;
  scopes = r.scopes;
  models = r.models;
  auth_version = int64_of r.auth_version;
}

-- The row of a token with its principal.
abbrev pub token_principal : Database → AdminTokenRecord → Option PrincipalRow
token_principal db t = find_row (active_principal t.principal_id) db.principals

abbrev pub usable_token_row : Text → Database → AdminTokenRecord → Bool
usable_token_row public_id db t =
    text_eq t.public_id public_id && not (is_some t.revoked_at) && is_some (token_principal db t)

unfoldable pub lookup_admin :
    Text → Session → Database → Result StoreError (AdminTokenRecord × PrincipalRow)
lookup_admin public_id session db = do
  _ ← scanned session select_token
  t ← of_option (plain no_rows) (find_row (usable_token_row public_id db) db.admin_tokens)
  p ← of_option (plain no_rows) (token_principal db t)
  ok (t, p)

module _ (hmac : List ℕ → Text → List ℕ) where
  unfoldable pub authenticate_public :
      Pepper → Session → Database → Request → (now : Time) → Result Rejection Principal
  authenticate_public pepper session db req now = do
    credential ← from_auth (parse_headers req.header req.query public_listener)
    parts ← parsed (parse_public_credential credential.value)
    r ← looked_up (lookup_public parts.0 session db)
    _ ← from_auth (verify hmac r parts.1 pepper now)
    ok (principal_of r)

  unfoldable pub authenticate_admin :
      Pepper → Session → Database → Request → (now : Time) → Result Rejection AdminPrincipal
  authenticate_admin pepper session db req now = do
    credential ← from_auth (parse_headers req.header req.query admin_listener)
    parts ← parsed (parse_admin_credential credential.value)
    found ← looked_up (lookup_admin parts.0 session db)
    _ ← from_auth (verify_admin hmac found.0 parts.1 pepper now)
    ok (record { admin_id = found.1.id; scopes = found.1.scopes })
