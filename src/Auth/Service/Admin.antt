-- ===== src/Auth/Service/Admin.antt =====
-- internal/auth/service.go: `BootstrapAdmin`, `IssueAdminToken`, `RevokeAdminToken` and
-- `AuthenticateAdmin`, each under the lock of the service, so one call is one step.
use urbino.Base.{
  ℕ, ◌+◌, ◌%◌, ◌^◌, true, ◌||◌, not, List, [], Option, none, some, ltb, leb, if◌then◌else◌,
}
use urbino.Base.Text.{Text, text_eq, is_empty}
use urbino.Base.Int.{pos, pos_part}
use urbino.Base.Dict.{lookup, insert}
use urbino.Base.Result.{Result, ok, err, ◌>>=◌, ◌>>◌, of_option}
use urbino.Domain.Uuid.{Uuid, is_zero}
use urbino.Auth.Errors.{
  AuthError, invalid_credential, revoked, scope_denied, last_admin_token, not_found,
  already_bootstrapped,
}
use urbino.Auth.Time.{Time}
use urbino.Auth.Credential.{admin_prefix, split_credential}
use urbino.Auth.Headers.{admin_listener, parse_headers}
use urbino.Auth.Keys.{
  Pepper, AdminTokenRecord, Issued, Entropy, all_scopes, contains, is_nil, is_some, non_positive,
  issue_admin, verify_admin,
}
use urbino.Auth.Service.{
  max_admin_token_ttl, bootstrap_admin_scopes, AdminPrincipal, AdminCredential, BootstrapRequest,
  IssueAdminTokenRequest, Request, Service, pepper_at, available, requested,
}

-- The record of a new token under its owner.
abbrev pub owned_by : Uuid → AdminTokenRecord → AdminTokenRecord
owned_by admin_id r = record r { principal_id = admin_id }

abbrev pub keep_admin : {B : Type 0} → Service B → Uuid → Issued AdminTokenRecord → Service B
keep_admin s admin_id issued = record s {
  admins = insert issued.stored.public_id (owned_by admin_id issued.stored) s.admins;
}

abbrev pub credential_of : Uuid → List Text → Issued AdminTokenRecord → AdminCredential
credential_of admin_id scopes issued = record {
  token = issued.value;
  principal = record { admin_id = admin_id; scopes = scopes };
}

abbrev pub keep_bootstrap :
    {B : Type 0}
    → Service B
    → Uuid
    → Result AuthError (Issued AdminTokenRecord)
    → Result AuthError AdminCredential × Service B
keep_bootstrap s admin_id (err e) = (err e, s)
keep_bootstrap s admin_id (ok issued) =
    let principal : AdminPrincipal = record {
      admin_id = admin_id;
      scopes = bootstrap_admin_scopes;
    } in
    (
      ok (credential_of admin_id bootstrap_admin_scopes issued),
      record (keep_admin s admin_id issued) {
        bootstrapped = true;
        principals = insert admin_id principal s.principals;
      },
    )

abbrev pub keep_token :
    {B : Type 0}
    → Service B
    → Uuid
    → Result AuthError (List Text × Issued AdminTokenRecord)
    → Result AuthError AdminCredential × Service B
keep_token s admin_id (err e) = (err e, s)
keep_token s admin_id (ok (scopes, issued)) =
    (ok (credential_of admin_id scopes issued), keep_admin s admin_id issued)

-- The token that `RevokeAdminToken` may revoke.
unfoldable pub revocable :
    {B : Type 0}
    → Service B
    → (clock : Text → Time) → Uuid
    → Text
    → Result AuthError AdminTokenRecord
revocable s clock admin_id public_id =
    if is_zero admin_id || is_empty public_id then err invalid_credential else (do
      r ← of_option not_found (lookup public_id s.admins)
      if not (text_eq r.principal_id admin_id)
          then err not_found
          else if is_some r.revoked_at
          then err revoked
          else if leb (available clock s.admins) 1
          then err last_admin_token
          else ok r)

abbrev pub revoked_token : AdminTokenRecord → Time → AdminTokenRecord
revoked_token r at = record r { revoked_at = some at; auth_version = (r.auth_version + 1) % 2 ^ 64 }

abbrev pub keep_revoked :
    {B : Type 0}
    → Service B
    → Text
    → (at : Time) → Result AuthError AdminTokenRecord
    → Result AuthError (Unit {0}) × Service B
keep_revoked s public_id at (err e) = (err e, s)
keep_revoked s public_id at (ok r) =
    (ok tt, record s { admins = insert public_id (revoked_token r at) s.admins })

unfoldable pub revoke_admin_token :
    {B : Type 0}
    → Service B
    → (clock : Text → Time) → Uuid
    → Text
    → (at : Time) → Result AuthError (Unit {0}) × Service B
revoke_admin_token s clock admin_id public_id at =
    keep_revoked s public_id at (revocable s clock admin_id public_id)

module _ (hmac : List ℕ → Text → List ℕ) where
  -- The tokens that `BootstrapAdmin` and `IssueAdminToken` make, with the guards before them.
  unfoldable pub new_bootstrap :
      {B : Type 0} → Service B → Uuid → Time → Entropy → Result AuthError (Issued AdminTokenRecord)
  new_bootstrap s admin_id now e =
      if s.bootstrapped
      then err already_bootstrapped
      else if is_zero admin_id
      then err invalid_credential
      else issue_admin hmac (pepper_at s.peppers s.active_id) bootstrap_admin_scopes now
          (pos max_admin_token_ttl) e

  abbrev pub held_token :
      {B : Type 0}
      → Service B
      → IssueAdminTokenRequest
      → Time
      → Entropy
      → List Text
      → AdminPrincipal
      → Result AuthError (List Text × Issued AdminTokenRecord)
  held_token s req now e scopes principal =
      if not (all_scopes (contains principal.scopes) scopes) then err scope_denied else (do
        issued ← issue_admin hmac (pepper_at s.peppers s.active_id) scopes now req.ttl e
        ok (scopes, issued))

  abbrev pub wanted_token :
      {B : Type 0}
      → Service B
      → IssueAdminTokenRequest
      → Time
      → Entropy
      → List Text
      → Result AuthError (List Text × Issued AdminTokenRecord)
  wanted_token s req now e scopes =
      of_option not_found (lookup req.admin_id s.principals) >>= held_token s req now e scopes

  unfoldable pub new_token :
      {B : Type 0}
      → Service B
      → IssueAdminTokenRequest
      → Time
      → Entropy
      → Result AuthError (List Text × Issued AdminTokenRecord)
  new_token s req now e =
      if non_positive req.ttl || ltb max_admin_token_ttl (pos_part req.ttl) || is_nil req.scopes
      then err invalid_credential
      else requested [] req.scopes >>= wanted_token s req now e

  abbrev pub verified_admin :
      Option Pepper → Text → AdminTokenRecord → Time → Result AuthError AdminPrincipal
  verified_admin none secret r now = err invalid_credential
  verified_admin (some pepper) secret r now = do
    verify_admin hmac r secret pepper now
    ok (record { admin_id = r.principal_id; scopes = r.scopes })

module _ (hmac : List ℕ → Text → List ℕ) {B : Type 0} where
  unfoldable pub bootstrap_admin :
      Service B → BootstrapRequest → Time → Entropy → Result AuthError AdminCredential × Service B
  bootstrap_admin s req now e =
      keep_bootstrap s req.admin_id (new_bootstrap hmac s req.admin_id now e)

  unfoldable pub issue_admin_token :
      Service B
      → IssueAdminTokenRequest
      → Time
      → Entropy
      → Result AuthError AdminCredential × Service B
  issue_admin_token s req now e = keep_token s req.admin_id (new_token hmac s req now e)

  abbrev pub authenticate_token :
      Service B → Text → Option AdminTokenRecord → Time → Result AuthError AdminPrincipal
  authenticate_token s secret none now = err invalid_credential
  authenticate_token s secret (some r) now =
      verified_admin hmac (lookup r.pepper_id s.peppers) secret r now

  abbrev pub authenticate_parts :
      Service B → Result AuthError (Text × Text) → Time → Result AuthError AdminPrincipal
  authenticate_parts s (err e) now = err invalid_credential
  authenticate_parts s (ok (public_id, secret)) now =
      authenticate_token s secret (lookup public_id s.admins) now

  unfoldable pub authenticate_admin : Service B → Request → Time → Result AuthError AdminPrincipal
  authenticate_admin s req now = do
    c ← parse_headers req.header req.query admin_listener
    authenticate_parts s (split_credential c.value admin_prefix) now
