-- ===== src/Http/Handlers/Tenants.antt =====
-- internal/httpapi/admin.go: the handlers of the tenants, and of the capabilities.
use urbino.Base.{
  ℕ, Bool, true, false, ◌&&◌, ◌||◌, List, map, Option, none, some, ltb, if◌then◌else◌, length,
}
use urbino.Base.Text.{Text, codes, is_empty}
use urbino.Base.Space.{trim_space}
use urbino.Base.Result.{Result, ok, err, ◌>>=◌}
use urbino.Domain.Uuid.{UuidError, Uuid, parse_uuid, new_uuid}
use urbino.Domain.Scopes.{Tenant, tenant_active, tenant_validate, tenant_status_valid}
use urbino.Auth.Service.{AdminPrincipal}
use urbino.Storage.Errors.{StoreError, is_error}
use urbino.Storage.Database.{Database, Session}
use urbino.Storage.TenantPages.{CursorForm, list_tenants_page}
use urbino.Storage.Tenants.{get_tenant, create_tenant_tx, update_tenant_tx}
use urbino.Storage.Mutation.{Mutation}
use urbino.Http.Errors.{AdminError, admin_error_status, is_bad_cursor, internal_error}
use urbino.Http.Json.{Token}
use urbino.Http.Parsing.{value_of, parse_limit, parse_if_match_version}
use urbino.Http.Admin.{
  View, tenant_json, tenants_json, tenant_view, HttpRequest, Reply, shown, refuse, CreateTenant,
  UpdateTenant,
}
use urbino.Http.Handlers.{
  or_refuse, from_store, refuse_when, decode_admin_body, Calls, reply_of, run_checked, answered_by,
  mutation_response, mutation_request,
}

abbrev pub next_of : Text → Option Text
next_of cursor = if is_empty cursor then none else some cursor

-- The text of the error tells a bad cursor from an error of the store.
abbrev pub tenants_reply : Result StoreError (List Tenant × Text) → Result AdminError Reply
tenants_reply (ok (ts, next)) = ok (shown (tenants_json (map tenant_view ts) (next_of next)))
tenants_reply (err e) =
    err (if is_error is_bad_cursor e then refuse (codes "invalid cursor") else admin_error_status e)

unfoldable pub handle_list_tenants :
    CursorForm → Session → HttpRequest → Database → Reply × Database
handle_list_tenants form session r db = reply_of (
  do
    limit ← or_refuse (codes "invalid limit") (parse_limit r.query)
    tenants_reply
        (list_tenants_page form limit (trim_space (value_of (codes "cursor") r.query)) session db),
  db,
)

abbrev pub get_reply : Result StoreError Tenant → Result AdminError Reply
get_reply (ok t) = ok (shown (tenant_json (tenant_view t)))
get_reply (err e) = err (admin_error_status e)

unfoldable pub handle_get_tenant : Session → HttpRequest → Database → Reply × Database
handle_get_tenant session r db = reply_of (
  do
    id ← or_refuse (codes "invalid tenant identifier") (parse_uuid r.path_id)
    get_reply (get_tenant session id db),
  db,
)

-- A field that the body leaves out keeps the stored value.
abbrev pub new_name : Text → Option Text → Result AdminError Text
new_name current none = ok current
new_name current (some name) =
    if is_empty (trim_space name) || ltb 200 (length (trim_space name))
    then err (refuse (codes "invalid tenant name"))
    else ok (trim_space name)

abbrev pub new_status : Text → Option Text → Result AdminError Text
new_status current none = ok current
new_status current (some status) =
    if tenant_status_valid status then ok status else err (refuse (codes "invalid tenant status"))

abbrev pub is_absent {ℓ} : {A : Type ℓ} → Option A → Bool
is_absent none = true
is_absent (some a) = false

abbrev pub bad_name : Text → Bool
bad_name name = is_empty name || ltb 200 (length name)

abbrev pub tenant_named : Uuid → Text → Text → Tenant
tenant_named id name currency = record {
  id = id;
  name = name;
  currency = currency;
  status = tenant_active;
  version = 1;
}

abbrev pub new_id : Result UuidError Uuid → Result AdminError Uuid
new_id (ok id) = ok id
new_id (err e) = err internal_error

module _ (encode : View → List ℕ) where
  abbrev pub tenant_mutation : AdminPrincipal → Tenant → Mutation
  tenant_mutation p t session db =
      answered_by (λ u. mutation_response encode 201 (tenant_json (tenant_view u)))
        (create_tenant_tx p.admin_id t session db)

  abbrev pub update_mutation :
      AdminPrincipal → Uuid → (version : ℕ) → (name status : Text) → Mutation
  update_mutation p id version name status session db =
      answered_by (λ u. mutation_response encode 200 (tenant_json (tenant_view u)))
        (update_tenant_tx p.admin_id id version name status session db)

module _ (sha256 : List ℕ → List ℕ) (encode : View → List ℕ) where
  unfoldable pub handle_create_tenant :
      (tokens : List ℕ → List Token)
      → (decode : List ℕ → Option CreateTenant) → Calls
      → HttpRequest
      → AdminPrincipal
      → Database
      → Reply × Database
  handle_create_tenant tokens decode calls r p db =
      run_checked db
        (do
          (raw, body) ← decode_admin_body tokens decode r
          id ← new_id (new_uuid calls.entropy.uuid_bytes calls.entropy.millis)
          _ ← refuse_when (bad_name (trim_space body.name)) (codes "invalid tenant name")
          _ ←
              or_refuse (codes "invalid tenant")
                (tenant_validate (tenant_named id (trim_space body.name) body.currency))
          ok (
            mutation_request sha256 r raw p (codes "tenant.create"),
            tenant_mutation encode p (tenant_named id (trim_space body.name) body.currency),
          ))
        calls.connection

  -- The row is read before the transaction, for the fields that the body leaves out.
  unfoldable pub handle_update_tenant :
      (tokens : List ℕ → List Token)
      → (decode : List ℕ → Option UpdateTenant) → Calls
      → HttpRequest
      → AdminPrincipal
      → Database
      → Reply × Database
  handle_update_tenant tokens decode calls r p db =
      run_checked db
        (do
          id ← or_refuse (codes "invalid tenant identifier") (parse_uuid r.path_id)
          version ←
              or_refuse (codes "If-Match must carry the expected tenant version")
                (parse_if_match_version (value_of (codes "If-Match") r.header))
          (raw, body) ← decode_admin_body tokens decode r
          _ ←
              refuse_when (is_absent body.name && is_absent body.status)
                (codes "at least one of name or status is required")
          current ← from_store (get_tenant calls.connection.session id db)
          name ← new_name current.name body.name
          status ← new_status current.status body.status
          ok (
            mutation_request sha256 r raw p (codes "tenant.update"),
            update_mutation encode p id version name status,
          ))
        calls.connection
