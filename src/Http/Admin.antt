-- ===== src/Http/Admin.antt =====
-- internal/httpapi/admin.go: `AdminAPI`, its views and its handlers over the store of
-- internal/storage/postgres. encoding/json, SHA-256, HMAC-SHA-256 and the parser of times are parameters.
use urbino.Base.{
  ℕ, Bool, true, false, ◌&&◌, ◌||◌, not, List, [], ◌∷◌, Option, none, some, if◌then◌else◌,
}
use urbino.Base.Text.{Text, codes, text_eq, is_empty}
use urbino.Base.Space.{trim_space}
use urbino.Base.Result.{Result, ok, err}
use urbino.Domain.Uuid.{to_string}
use urbino.Domain.Scopes.{
  Tenant, tenants_read, tenants_write, keys_read, keys_write, models_read, models_invoke,
  usage_read,
}
use urbino.Auth.Errors.{AuthError, scope_denied}
use urbino.Auth.Time.{Time}
use urbino.Auth.Headers.{Values}
use urbino.Auth.Keys.{KeyRecord, AdminTokenRecord, contains}
use urbino.Auth.Service.{AdminPrincipal}
use urbino.Storage.Database.{Response}
use urbino.Http.Errors.{AdminError, admin_error, bad_request, unauthorized, permission_denied}
use urbino.Http.Parsing.{value_of}

-- `tenantResponse`, `apiKeyResponse`, `adminTokenRevokeResponse` and `capabilityResponse`.
pub record TenantView : Type 0 where
  pub id : Text
  pub name : Text
  pub currency : Text
  pub status : Text
  pub version : ℕ

pub record KeyView : Type 0 where
  pub public_id : Text
  pub tenant_id : Text
  pub project_id : Text
  pub user_id : Text
  pub scopes : List Text
  pub models : List Text
  pub status : Text
  pub expires_at : Time
  pub revoked_at : Option Time
  pub auth_version : ℕ

pub record TokenView : Type 0 where
  pub public_id : Text
  pub principal_id : Text
  pub status : Text
  pub revoked_at : Option Time
  pub auth_version : ℕ

pub record CapabilityView : Type 0 where
  pub name : Text
  pub version : Text
  pub enabled : Bool
  pub scopes : List Text

-- The values that are encoded as JSON. `created_view` holds the one-time key.
pub data View : Type 0 where
  tenant_json : TenantView → View
  key_json : KeyView → View
  created_json : (key : Text) → KeyView → View
  replay_json : KeyView → (message : Text) → (secret_available : Bool) → View
  token_json : TokenView → View
  keys_json : List KeyView → View
  tenants_json : List TenantView → (next_cursor : Option Text) → View
  capabilities_json : List CapabilityView → View

unfoldable pub tenant_view : Tenant → TenantView
tenant_view t = record {
  id = to_string t.id;
  name = t.name;
  currency = t.currency;
  status = t.status;
  version = t.version;
}

unfoldable pub api_key_view : KeyRecord → KeyView
api_key_view r = record {
  public_id = r.public_id;
  tenant_id = to_string r.tenant;
  project_id = to_string r.project;
  user_id = to_string r.user;
  scopes = r.scopes;
  models = r.models;
  status = r.status;
  expires_at = r.expires_at;
  revoked_at = r.revoked_at;
  auth_version = r.auth_version;
}

unfoldable pub admin_token_view : AdminTokenRecord → TokenView
admin_token_view r = record {
  public_id = r.public_id;
  principal_id = to_string r.principal_id;
  status = codes "revoked";
  revoked_at = r.revoked_at;
  auth_version = r.auth_version;
}

abbrev disabled : Text → CapabilityView
disabled name = record { name = name; version = codes "0.1.0"; enabled = false; scopes = [] }

unfoldable pub capability_descriptors : List CapabilityView
capability_descriptors =
    record {
      name = codes "admin_api";
      version = codes "0.1.0";
      enabled = true;
      scopes =
          tenants_read ∷ tenants_write ∷ keys_read ∷ keys_write ∷ models_read ∷ models_invoke
          ∷ usage_read ∷ [];
    }
    ∷ disabled (codes "chat_completions")
    ∷ disabled (codes "responses")
    ∷ disabled (codes "embeddings")
    ∷ []

-- `AuthorizeAdminScope`.
unfoldable pub authorize_admin_scope : AdminPrincipal → Text → Result AuthError (Unit {0})
authorize_admin_scope p scope = if contains p.scopes scope then ok tt else err scope_denied

-- The parts of a request that the handlers read: its method, the URI, the headers and the query, the
-- identifier in the path, and the result of `mime.ParseMediaType` and of reading the body.
pub data BodyRead : Type 0 where
  too_large unreadable : BodyRead
  read : List ℕ → BodyRead

pub record HttpRequest : Type 0 where
  pub method : Text
  pub uri : Text
  pub header : Values
  pub query : Values
  pub path_id : Text
  pub media_type : Option Text
  pub content : BodyRead

abbrev pub is_get : HttpRequest → Bool
is_get r = text_eq r.method (codes "GET")

abbrev pub idempotency_key : HttpRequest → Text
idempotency_key r = trim_space (value_of (codes "Idempotency-Key") r.header)

-- `require`: the key of a mutation, the principal of the middleware, then the scope; an empty scope asks
-- for none.
unfoldable pub require :
    (scope : Text) → HttpRequest → Option AdminPrincipal → Result AdminError AdminPrincipal
require scope r principal =
    if not (is_get r) && is_empty (idempotency_key r)
    then err
        (admin_error 400 bad_request (codes "Idempotency-Key is required for management mutations"))
    else elim principal [
      | none ↦ err (admin_error 401 unauthorized (codes "administrator credential required"))
      | some p ↦
          if is_empty scope || contains p.scopes scope
          then ok p
          else err (
              admin_error 403 permission_denied
                (codes "administrator scope does not permit this operation"))
    ]

-- A reply: an error of the API, the response of a mutation, or a value of a read.
pub data Reply : Type 0 where
  failed : AdminError → Reply
  mutated : Response → Reply
  shown : View → Reply

abbrev pub refuse : Text → AdminError
refuse message = admin_error 400 bad_request message

-- The bodies of the requests.
pub record CreateTenant : Type 0 where
  pub name : Text
  pub currency : Text

pub record UpdateTenant : Type 0 where
  pub name : Option Text
  pub status : Option Text

pub record CreateKey : Type 0 where
  pub tenant_id : Text
  pub project_id : Text
  pub user_id : Text
  pub scopes : List Text
  pub models : List Text
  pub expires_at : Text

pub record RevokeKey : Type 0 where
  pub tenant_id : Text
  pub project_id : Text
