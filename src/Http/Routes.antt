-- ===== src/Http/Routes.antt =====
-- internal/httpapi/admin.go: `Handler` of `AdminAPI`, the middleware with the routes behind it.
pub mod Authorized
use urbino.Base.{ℕ, Bool, true, false, ◌||◌, List, [], ◌∷◌, Option, none, some, if◌then◌else◌}
use urbino.Base.Text.{Text, codes, text_eq}
use urbino.Base.Result.{Result, ok, err}
use urbino.Domain.Scopes.{tenants_read, tenants_write, keys_read, keys_write}
use urbino.Auth.Errors.{AuthError}
use urbino.Auth.Time.{Time}
use urbino.Auth.Headers.{admin_listener}
use urbino.Auth.Keys.{Pepper}
use urbino.Auth.Limiter.{FailureLimiter}
use urbino.Auth.Service.{AdminPrincipal, Request}
use urbino.Storage.Database.{Database}
use urbino.Storage.TenantPages.{CursorForm}
use urbino.Http.Errors.{AdminError}
use urbino.Http.Json.{Token}
use urbino.Http.Middleware.{
  Middleware, Served, rejected, passed_public, passed_admin, Arrival, wrap,
}
use urbino.Http.Admin.{
  View, capabilities_json, capability_descriptors, HttpRequest, Reply, failed, shown, require,
  CreateTenant, UpdateTenant, CreateKey, RevokeKey,
}
use urbino.Http.Handlers.{Calls}
use urbino.Http.Handlers.Tenants.{
  handle_list_tenants, handle_get_tenant, handle_create_tenant, handle_update_tenant,
}
use urbino.Http.Handlers.Keys.{
  handle_list_api_keys, handle_create_api_key, handle_revoke_api_key, handle_revoke_admin_token,
}

-- The patterns of the mux.
pub data Route : Type 0 where
  capabilities_route list_tenants_route create_tenant_route get_tenant_route update_tenant_route :
      Route
  list_keys_route create_key_route revoke_key_route revoke_token_route : Route

unfoldable pub route_scope : Route → Text
route_scope capabilities_route = []
route_scope list_tenants_route = tenants_read
route_scope create_tenant_route = tenants_write
route_scope get_tenant_route = tenants_read
route_scope update_tenant_route = tenants_write
route_scope list_keys_route = keys_read
route_scope create_key_route = keys_write
route_scope revoke_key_route = keys_write
route_scope revoke_token_route = keys_write

-- A pattern for GET serves HEAD as well.
abbrev pub is_read : Text → Bool
is_read method = text_eq method (codes "GET") || text_eq method (codes "HEAD")

unfoldable pub has_method : Route → Text → Bool
has_method capabilities_route method = is_read method
has_method list_tenants_route method = is_read method
has_method create_tenant_route method = text_eq method (codes "POST")
has_method get_tenant_route method = is_read method
has_method update_tenant_route method = text_eq method (codes "PATCH")
has_method list_keys_route method = is_read method
has_method create_key_route method = text_eq method (codes "POST")
has_method revoke_key_route method = text_eq method (codes "POST")
has_method revoke_token_route method = text_eq method (codes "POST")

-- `AdminAPI`, with the functions of the libraries that its handlers call.
pub record AdminApi : Type 0 where
  pub pepper : Pepper
  pub authenticate_admin : Request → Result AuthError AdminPrincipal
  pub sha256 : List ℕ → List ℕ
  pub hmac : List ℕ → Text → List ℕ
  pub encode : View → List ℕ
  pub tokens : List ℕ → List Token
  pub decode_create_tenant : List ℕ → Option CreateTenant
  pub decode_update_tenant : List ℕ → Option UpdateTenant
  pub decode_create_key : List ℕ → Option CreateKey
  pub decode_revoke_key : List ℕ → Option RevokeKey
  pub parse_time : Text → Option Time
  pub cursor_form : CursorForm

module _ (api : AdminApi) where
  unfoldable pub handle_route :
      Route → Calls → HttpRequest → AdminPrincipal → Database → Reply × Database
  handle_route capabilities_route calls r p db =
      (shown (capabilities_json capability_descriptors), db)
  handle_route list_tenants_route calls r p db =
      handle_list_tenants api.cursor_form calls.connection.session r db
  handle_route create_tenant_route calls r p db =
      handle_create_tenant api.sha256 api.encode api.tokens api.decode_create_tenant calls r p db
  handle_route get_tenant_route calls r p db = handle_get_tenant calls.connection.session r db
  handle_route update_tenant_route calls r p db =
      handle_update_tenant api.sha256 api.encode api.tokens api.decode_update_tenant calls r p db
  handle_route list_keys_route calls r p db =
      handle_list_api_keys calls.connection.session calls.now r db
  handle_route create_key_route calls r p db =
      handle_create_api_key api.sha256 api.encode api.hmac api.tokens api.decode_create_key
        api.parse_time api.pepper calls r p db
  handle_route revoke_key_route calls r p db =
      handle_revoke_api_key api.sha256 api.encode api.tokens api.decode_revoke_key calls r p db
  handle_route revoke_token_route calls r p db =
      handle_revoke_admin_token api.sha256 api.encode calls r p db

  abbrev pub handled :
      Route → Calls → HttpRequest → Database → Result AdminError AdminPrincipal → Reply × Database
  handled route calls r db (err e) = (failed e, db)
  handled route calls r db (ok p) = handle_route route calls r p db

  abbrev pub required :
      Route → Calls → HttpRequest → Database → Option AdminPrincipal → Reply × Database
  required route calls r db principal =
      handled route calls r db (require (route_scope route) r principal)

-- The middleware's rejection, the mux's for another method, or the reply of a route.
pub data Answer : Type 0 where
  unauthorized : Answer
  no_such_method : Answer
  replied : Reply → Answer

abbrev pub reply_of_route : Reply × Database → Answer × Database
reply_of_route (reply, db) = (replied reply, db)

abbrev pub arrival_of : HttpRequest → (peer : Text) → (begun ended : Time) → Arrival
arrival_of r peer begun ended = record {
  request = record { header = r.header; query = r.query };
  remote_addr = peer;
  begun = begun;
  ended = ended;
}

module _ (api : AdminApi) where
  abbrev pub dispatched :
      Route → Calls → HttpRequest → Database → Option AdminPrincipal → Answer × Database
  dispatched route calls r db principal =
      if has_method route r.method
      then reply_of_route (required api route calls r db principal)
      else (no_such_method, db)

  abbrev pub served_answer : Route → Calls → HttpRequest → Database → Served → Answer × Database
  served_answer route calls r db rejected = (unauthorized, db)
  served_answer route calls r db (passed_public p) = dispatched route calls r db none
  served_answer route calls r db (passed_admin p) = dispatched route calls r db (some p)

  abbrev pub admin_middleware : Middleware AuthError
  admin_middleware = record {
    mode = admin_listener;
    authenticate_public = none;
    authenticate_admin = some api.authenticate_admin;
  }

  -- The limiter is kept; a route is the one whose path the request has.
  unfoldable pub serve :
      Route
      → Calls
      → FailureLimiter
      → (peer : Text) → (begun ended : Time) → HttpRequest
      → Database
      → (Answer × Database) × Option FailureLimiter
  serve route calls limiter peer begun ended r db =
      let (s, limiter') = wrap admin_middleware (some limiter) (arrival_of r peer begun ended) in
      (served_answer route calls r db s, limiter')
