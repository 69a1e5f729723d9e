-- ===== src/Auth/Service.antt =====
-- internal/auth/service.go: the service that keeps keys and administrators. One call is one step; the
-- revocation backend is a parameter, and the logger is left out.
pub mod Public
pub mod Admin
pub mod Steps
pub mod Held
pub mod Sound
pub mod Authority
pub mod Tokens
pub mod Revoked
pub mod Accepted
pub mod IssuedKeys
mod Examples
use urbino.Base.{
  ◌*◌, ℕ, suc, ◌+◌, ◌%◌, ◌^◌, ◌≡◌, Bool, true, false, ◌&&◌, ◌||◌, not, List, [], ◌∷◌, Option, none,
  some, ltb, leb, ◌==◌, if◌then◌else◌, length,
}
use urbino.Base.Text.{Text, codes, text_eq, is_empty}
use urbino.Base.Int.{ℤ, pos, negsuc, pos_part}
use urbino.Base.Int64.{int64_of}
use urbino.Base.Dict.{Dict, lookup, insert}
use urbino.Base.Result.{Result, ok, err, ◌>>=◌, ◌>>◌}
use urbino.Domain.Uuid.{Uuid, is_zero}
use urbino.Domain.Scopes.{scope_valid, tenants_read, tenants_write, keys_read, keys_write}
use urbino.Auth.Errors.{
  AuthError, invalid_credential, revoked, version_mismatch, scope_denied, cache_unavailable,
  last_admin_token, model_denied, not_found, already_bootstrapped,
}
use urbino.Auth.Time.{Time, second, hour, before, after, sub_time}
use urbino.Auth.Credential.{public_prefix, admin_prefix, split_credential}
use urbino.Auth.Headers.{Values, HeaderCredential, public_listener, admin_listener, parse_headers}
use urbino.Auth.Cache.{max_cache_ttl}
use urbino.Auth.Keys.{
  Pepper, KeyRecord, AdminTokenRecord, Issued, Entropy, status_revoked, all_scopes, contains,
  is_nil, non_positive, is_some, issue, issue_admin, verify, verify_admin,
}

-- `bootstrapAdminTokenTTL` and `maxAdminTokenTTL`.
abbrev pub max_admin_token_ttl : ℕ
max_admin_token_ttl = 24 * hour

abbrev pub bootstrap_admin_scopes : List Text
bootstrap_admin_scopes = tenants_read ∷ tenants_write ∷ keys_read ∷ keys_write ∷ []

pub record Scope : Type 0 where
  pub tenant_id : Uuid
  pub project_id : Uuid

pub record IssueKeyRequest : Type 0 where
  pub scope : Scope
  pub user_id : Uuid
  pub scopes : List Text
  pub models : List Text
  pub expires_at : Time

pub record Principal : Type 0 where
  pub tenant_id : Uuid
  pub project_id : Uuid
  pub user_id : Uuid
  pub key_id : Text
  pub scopes : List Text
  pub models : List Text
  pub auth_version : ℤ

pub record AdminPrincipal : Type 0 where
  pub admin_id : Uuid
  pub scopes : List Text

pub record AdminCredential : Type 0 where
  pub token : Text
  pub principal : AdminPrincipal

-- `BootstrapRequest`.
pub record BootstrapRequest : Type 0 where
  pub admin_id : Uuid
  pub scopes : List Text

pub record IssueAdminTokenRequest : Type 0 where
  pub admin_id : Uuid
  pub scopes : List Text
  pub ttl : ℤ

-- What authentication reads of a request.
pub record Request : Type 0 where
  pub header : Values
  pub query : Values

pub record AuthState : Type 0 where
  pub stored : KeyRecord
  pub auth_version : ℤ

-- `RevocationBackend` with its state in `B`: `get` gives `none` for an error and `some none` for a
-- missing key, the others `false` for an error.
pub record Backend (B : Type 0) : Type 0 where
  pub get : Text → B → Option (Option AuthState) × B
  pub put : Text → AuthState → ℤ → B → Bool × B
  pub delete : Text → B → Bool × B

pub record Options (B : Type 0) : Type 0 where
  pub peppers : Dict (List ℕ)
  pub active_pepper_id : Text
  pub backend : Option B
  pub revocation_ttl : ℤ

pub record Service (B : Type 0) : Type 0 where
  pub peppers : Dict Pepper
  pub active_id : Text
  pub backend : B
  pub ttl : ℤ
  pub keys : Dict KeyRecord
  pub admins : Dict AdminTokenRecord
  pub principals : Dict AdminPrincipal
  pub bootstrapped : Bool

unfoldable pub copy_peppers : Dict (List ℕ) → Result AuthError (Dict Pepper)
copy_peppers [] = ok []
copy_peppers ((id, key) ∷ peppers) =
    let rest = copy_peppers peppers in
    if is_empty id || ltb (length key) 32
    then err invalid_credential
    else rest >>= λ (m : Dict Pepper). ok ((id, record { id = id; key = key }) ∷ m)

-- `m[k]` with the zero value for a missing key.
abbrev pub or_zero : Option Pepper → Pepper
or_zero none = record { id = []; key = [] }
or_zero (some p) = p

unfoldable pub pepper_at : Dict Pepper → Text → Pepper
pepper_at m k = or_zero (lookup k m)

abbrev chosen_ttl : ℤ → ℤ
chosen_ttl (pos n) = if not (n == 0) && leb n max_cache_ttl then pos n else pos (5 * second)
chosen_ttl (negsuc n) = pos (5 * second)

abbrev pub with_active : {B : Type 0} → Options B → B → Dict Pepper → Result AuthError (Service B)
with_active options b peppers =
    if ltb (length (pepper_at peppers options.active_pepper_id).key) 32
    then err invalid_credential
    else ok (record {
      peppers = peppers;
      active_id = options.active_pepper_id;
      backend = b;
      ttl = chosen_ttl options.revocation_ttl;
      keys = [];
      admins = [];
      principals = [];
      bootstrapped = false;
    })

abbrev pub with_backend : {B : Type 0} → Options B → Option B → Result AuthError (Service B)
with_backend options none = err cache_unavailable
with_backend options (some b) =
    if is_empty options.active_pepper_id
    then err cache_unavailable
    else copy_peppers options.peppers >>= with_active options b

unfoldable pub new_service : {B : Type 0} → Options B → Result AuthError (Service B)
new_service options = with_backend options options.backend

unfoldable pub check_public_scope : Principal → Text → Result AuthError (Unit {0})
check_public_scope principal scope =
    if not (contains principal.scopes scope) then err scope_denied else ok tt

unfoldable pub authorize_model : Principal → Text → Result AuthError (Unit {0})
authorize_model principal model =
    if not (contains principal.models model) then err model_denied else ok tt

unfoldable pub check_admin_scope : AdminPrincipal → Text → Result AuthError (Unit {0})
check_admin_scope principal scope =
    if not (contains principal.scopes scope) then err scope_denied else ok tt

-- The administrators' credentials that are neither revoked nor expired; the loop reads the clock
-- for each, `clock id` at the one named `id`.
unfoldable pub available : (Text → Time) → Dict AdminTokenRecord → ℕ
available clock [] = 0
available clock ((id, r) ∷ admins) =
    let rest = available clock admins in
    if not (is_some r.revoked_at) && after r.expires_at (clock id) then suc rest else rest

-- The scopes that are asked for, each once; `seen` holds those before.
unfoldable pub requested : (seen : List Text) → List Text → Result AuthError (List Text)
requested seen [] = ok []
requested seen (s ∷ scopes) =
    let rest = requested (if contains seen s then seen else s ∷ seen) scopes in
    if not (scope_valid s)
    then err scope_denied
    else if contains seen s
    then rest
    else rest >>= λ (r : List Text). ok (s ∷ r)
