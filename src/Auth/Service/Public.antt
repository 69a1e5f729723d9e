-- ===== src/Auth/Service/Public.antt =====
-- internal/auth/service.go: `IssueKey`, `RevokeKey` and `AuthenticatePublic`. Each reading of the
-- clock is an argument, in the order of the readings.
use urbino.Base.{
  ℕ, ◌+◌, ◌%◌, ◌^◌, Bool, true, false, ◌||◌, not, List, Option, none, some, if◌then◌else◌,
}
use urbino.Base.Text.{Text, text_eq}
use urbino.Base.Int64.{int64_of, int64_eq}
use urbino.Base.Dict.{lookup, insert}
use urbino.Base.Result.{Result, ok, err, ◌>>=◌, ◌>>◌}
use urbino.Domain.Uuid.{is_zero}
use urbino.Domain.Scopes.{scope_valid}
use urbino.Auth.Errors.{
  AuthError, invalid_credential, revoked, version_mismatch, scope_denied, cache_unavailable,
  not_found,
}
use urbino.Auth.Time.{Time, after, sub_time}
use urbino.Auth.Credential.{public_prefix, split_credential}
use urbino.Auth.Headers.{HeaderCredential, public_listener, parse_headers}
use urbino.Auth.Keys.{
  Pepper, KeyRecord, Issued, Entropy, status_revoked, all_scopes, is_nil, is_some, issue, verify,
}
use urbino.Auth.Service.{
  Scope, IssueKeyRequest, Principal, Request, AuthState, Backend, Service, pepper_at,
}

abbrev pub auth_state : KeyRecord → AuthState
auth_state r = record { stored = r; auth_version = int64_of r.auth_version }

abbrev pub principal_of : Text → KeyRecord → Principal
principal_of public_id r = record {
  tenant_id = r.tenant;
  project_id = r.project;
  user_id = r.user;
  key_id = public_id;
  scopes = r.scopes;
  models = r.models;
  auth_version = int64_of r.auth_version;
}

-- The record as a revocation at `at` leaves it.
abbrev pub revoked_record : KeyRecord → Time → KeyRecord
revoked_record r at = record r {
  status = status_revoked;
  revoked_at = some at;
  auth_version = (r.auth_version + 1) % 2 ^ 64;
}

-- Only a key of the tenant and the project that are named.
abbrev pub in_scope : Scope → Result AuthError KeyRecord → Result AuthError KeyRecord
in_scope scope found = do
  r ← found
  if not (text_eq r.tenant scope.tenant_id) || not (text_eq r.project scope.project_id)
      then err not_found
      else ok r

module _ {B : Type 0} (backend : Backend B) where
  -- The key is kept and handed to the backend; an error of the backend is the caller's result.
  abbrev pub put_answered : Bool → Issued KeyRecord → Result AuthError (Issued KeyRecord)
  put_answered true issued = ok issued
  put_answered false issued = err cache_unavailable

  abbrev pub keep_issued :
      Service B
      → Result AuthError (Issued KeyRecord)
      → Result AuthError (Issued KeyRecord) × Service B
  keep_issued s (err e) = (err e, s)
  keep_issued s (ok issued) =
      let id = issued.stored.public_id in
      let (done, b) = backend.put id (auth_state issued.stored) s.ttl s.backend in
      (put_answered done issued, record s { keys = insert id issued.stored s.keys; backend = b })

  -- The record that `RevokeKey` finds, in its own map or with the backend.
  abbrev answered : Option (Option AuthState) × B → Result AuthError KeyRecord × B
  answered (none, b) = (err cache_unavailable, b)
  answered (some none, b) = (err not_found, b)
  answered (some (some state), b) = (ok state.stored, b)

  abbrev pub find_key : Service B → Text → Option KeyRecord → Result AuthError KeyRecord × B
  find_key s public_id (some r) = (ok r, s.backend)
  find_key s public_id none = answered (backend.get public_id s.backend)

  -- `Delete`, then `Put`, which is left out after an error.
  abbrev put_revoked : Text → KeyRecord → Service B → Bool × B → Result AuthError (Unit {0}) × B
  put_revoked public_id r s (false, b) = (err cache_unavailable, b)
  put_revoked public_id r s (true, b) =
      let (done, b') = backend.put public_id (auth_state r) s.ttl b in
      (if done then ok tt else err cache_unavailable, b')

  abbrev pub revoke_found :
      Service B
      → Text
      → Time
      → Result AuthError KeyRecord
      → B
      → Result AuthError (Unit {0}) × Service B
  revoke_found s public_id at (err e) b = (err e, record s { backend = b })
  revoke_found s public_id at (ok r) b =
      let r' = revoked_record r at in
      let (result, b') = put_revoked public_id r' s (backend.delete public_id b) in
      (result, record s { keys = insert public_id r' s.keys; backend = b' })

  unfoldable pub revoke_key :
      Service B → Scope → Text → (at : Time) → Result AuthError (Unit {0}) × Service B
  revoke_key s scope public_id at =
      let (found, b) = find_key s public_id (lookup public_id s.keys) in
      revoke_found s public_id at (in_scope scope found) b

module _ (hmac : List ℕ → Text → List ℕ) where
  -- The key that `IssueKey` makes, with the guards before it.
  unfoldable pub new_key :
      {B : Type 0}
      → Service B
      → IssueKeyRequest
      → (now now' now'' : Time) → Entropy
      → Result AuthError (Issued KeyRecord)
  new_key s req now now' now'' e =
      if is_zero req.scope.tenant_id
        || is_zero req.scope.project_id
        || is_zero req.user_id
        || is_nil req.scopes
        || is_nil req.models
        || not (after req.expires_at now)
      then err invalid_credential
      else if not (all_scopes scope_valid req.scopes)
      then err scope_denied
      else issue hmac (pepper_at s.peppers s.active_id) req.scope.tenant_id req.scope.project_id
          req.user_id req.scopes req.models now' (sub_time req.expires_at now'') e

  abbrev pub verified : Option Pepper → Text → Text → KeyRecord → Time → Result AuthError Principal
  verified none public_id secret r now = err invalid_credential
  verified (some pepper) public_id secret r now = do
    verify hmac r secret pepper now
    if is_some r.revoked_at || text_eq r.status status_revoked
        then err revoked
        else ok (principal_of public_id r)

  -- What follows the answer of the backend on the key that the service keeps as `r`.
  abbrev pub decide :
      Option (Option AuthState)
      → Option Pepper
      → Text
      → Text
      → KeyRecord
      → Time
      → Result AuthError Principal
  decide none pepper public_id secret r now = err cache_unavailable
  decide (some none) pepper public_id secret r now =
      if is_some r.revoked_at || text_eq r.status status_revoked
      then err revoked
      else err cache_unavailable
  decide (some (some state)) pepper public_id secret r now =
      if text_eq state.stored.status status_revoked
      then err revoked
      else if not (int64_eq state.auth_version (int64_of r.auth_version))
      then (if is_some r.revoked_at then err revoked else err version_mismatch)
      else verified pepper public_id secret r now

module _ (hmac : List ℕ → Text → List ℕ) {B : Type 0} (backend : Backend B) where
  unfoldable pub issue_key :
      Service B
      → IssueKeyRequest
      → (now now' now'' : Time) → Entropy
      → Result AuthError (Issued KeyRecord) × Service B
  issue_key s req now now' now'' e = keep_issued backend s (new_key hmac s req now now' now'' e)

  abbrev pub authenticate_known :
      Service B → Text → Text → Option KeyRecord → Time → Result AuthError Principal × Service B
  authenticate_known s public_id secret none now = (err invalid_credential, s)
  authenticate_known s public_id secret (some r) now =
      let (answer, b) = backend.get public_id s.backend in
      (
        decide hmac answer (lookup r.pepper_id s.peppers) public_id secret r now,
        record s { backend = b },
      )

  abbrev pub authenticate_split :
      Service B → Result AuthError (Text × Text) → Time → Result AuthError Principal × Service B
  authenticate_split s (err e) now = (err invalid_credential, s)
  authenticate_split s (ok (public_id, secret)) now =
      authenticate_known s public_id secret (lookup public_id s.keys) now

  abbrev pub authenticate_parsed :
      Service B → Result AuthError HeaderCredential → Time → Result AuthError Principal × Service B
  authenticate_parsed s (err e) now = (err e, s)
  authenticate_parsed s (ok c) now =
      authenticate_split s (split_credential c.value public_prefix) now

  unfoldable pub authenticate_public :
      Service B → Request → Time → Result AuthError Principal × Service B
  authenticate_public s req now =
      authenticate_parsed s (parse_headers req.header req.query public_listener) now
