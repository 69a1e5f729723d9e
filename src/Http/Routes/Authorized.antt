-- ===== src/Http/Routes/Authorized.antt =====
-- internal/httpapi/admin.go behind the middleware: who is answered, and who changes the database.
use urbino.Base.{
  ◌≡◌, refl, sym, ◌⊎◌, inl, inr, Bool, true, false, ◌||◌, ◌&&◌, not, Option, none, some, Bool-cases,
}
use urbino.Base.Text.{Text, codes, text_eq, is_empty, eq_of_text_eq}
use urbino.Base.Result.{Result, ok, err, Result-cases, ok-injective}
use urbino.Auth.Time.{Time}
use urbino.Auth.Headers.{admin_listener}
use urbino.Auth.Keys.{contains}
use urbino.Auth.Limiter.{FailureLimiter}
use urbino.Auth.Service.{AdminPrincipal}
use urbino.Storage.Database.{Database}
use urbino.Http.Errors.{AdminError}
use urbino.Http.Middleware.{Served, rejected, passed_public, passed_admin}
use urbino.Http.Middleware.Guarded.{IsAccepted, IsGuarded, wrap-IsGuarded}
use urbino.Http.Admin.{HttpRequest, is_get, idempotency_key, Reply, failed, require}
use urbino.Http.Handlers.{Calls, reply_of}
use urbino.Http.Handlers.Tenants.{handle_list_tenants, handle_get_tenant}
use urbino.Http.Handlers.Keys.{handle_list_api_keys}
use urbino.Http.Routes.{
  Route, capabilities_route, list_tenants_route, create_tenant_route, get_tenant_route,
  update_tenant_route, list_keys_route, create_key_route, revoke_key_route, revoke_token_route,
  route_scope, has_method, AdminApi, handle_route, required, Answer, unauthorized, no_such_method,
  replied, reply_of_route, dispatched, served_answer, admin_middleware, arrival_of, serve,
}

-- An answer that refuses the request, with the database as it was.
pub data IsRefused (db : Database) : Answer × Database → Type 0 where
  refused_here : IsRefused db (unauthorized, db)
  refused_method : IsRefused db (no_such_method, db)
  refused_reply : (e : AdminError) → IsRefused db (replied (failed e), db)

-- An administrator that the authenticator has accepted for this request, and who holds the scope of the
-- route, if it has one; a request that changes the database has an idempotency key.
pub record IsPermitted (api : AdminApi) (route : Route) (r : HttpRequest) (before after : Database)
    : Type 0 where
  pub principal : AdminPrincipal
  pub accepted :
      IsAccepted admin_listener
        (some api.authenticate_admin)
        (record { header = r.header; query = r.query })
        principal
  pub in_scope :
      (is_empty (route_scope route) || contains principal.scopes (route_scope route)) ≡ true
  pub keyed : (after ≡ before) ⊎ (is_empty (idempotency_key r) ≡ false)

get_or_key : (a b : Bool) → (not a && b) ≡ false → (a ≡ true) ⊎ (b ≡ false)
get_or_key true b h = inl refl
get_or_key false b h = inr h

require-ok :
    (scope : Text) (r : HttpRequest) (p q : AdminPrincipal)
    → require scope r (some p) ≡ ok q
    → (q ≡ p)
      × ((is_empty scope || contains p.scopes scope) ≡ true)
      × ((is_get r ≡ true) ⊎ (is_empty (idempotency_key r) ≡ false))
unfolding require
require-ok scope r p q h =
    let no_key = is_empty (idempotency_key r) in
    let allowed = is_empty scope || contains p.scopes scope in
    elim (Bool-cases (not (is_get r) && no_key)) [
      | inl missing ↦ let h' = rw missing at h in cc
      | inr there ↦ elim (Bool-cases allowed) [
        | inr denied ↦ let h' = rw (there, denied) at h in cc
        | inl allows ↦
            let h' = rw (there, allows) at h in
            (sym (ok-injective h'), allows, get_or_key (is_get r) no_key there)
      ]
    ]

require-none : (scope : Text) (r : HttpRequest) → (e : AdminError) × (require scope r none ≡ err e)
unfolding require
require-none scope r = elim (Bool-cases (not (is_get r) && is_empty (idempotency_key r))) [
  | inl missing ↦ rw missing (_, refl)
  | inr there ↦ rw there (_, refl)
]

reply_of-kept : (x : Result AdminError Reply) (db : Database) → (reply_of (x, db)).1 ≡ db
reply_of-kept (ok reply) db = refl
reply_of-kept (err e) db = refl

not_get :
    (m other : Text)
    → text_eq (codes "GET") other ≡ false
    → text_eq m other ≡ true
    → text_eq m (codes "GET") ≡ true
    → ⊥
not_get m other apart h g =
    let e : text_eq (codes "GET") other ≡ true = rw (← eq_of_text_eq m (codes "GET") g) h in cc

not_post : text_eq (codes "GET") (codes "POST") ≡ false
unfolding text_eq
not_post = refl

not_patch : text_eq (codes "GET") (codes "PATCH") ≡ false
unfolding text_eq
not_patch = refl

-- A route that serves GET changes nothing.
get-kept :
    (api : AdminApi) (route : Route) (calls : Calls) (r : HttpRequest) (p : AdminPrincipal)
    (db : Database)
    → has_method route r.method ≡ true
    → is_get r ≡ true
    → (handle_route api route calls r p db).1 ≡ db
unfolding handle_route has_method handle_list_tenants handle_get_tenant handle_list_api_keys
get-kept api capabilities_route calls r p db h g = refl
get-kept api list_tenants_route calls r p db h g = reply_of-kept _ db
get-kept api get_tenant_route calls r p db h g = reply_of-kept _ db
get-kept api list_keys_route calls r p db h g = reply_of-kept _ db
get-kept api create_tenant_route calls r p db h g =
    absurd (not_get r.method (codes "POST") not_post h g)
get-kept api update_tenant_route calls r p db h g =
    absurd (not_get r.method (codes "PATCH") not_patch h g)
get-kept api create_key_route calls r p db h g =
    absurd (not_get r.method (codes "POST") not_post h g)
get-kept api revoke_key_route calls r p db h g =
    absurd (not_get r.method (codes "POST") not_post h g)
get-kept api revoke_token_route calls r p db h g =
    absurd (not_get r.method (codes "POST") not_post h g)

module _ (api : AdminApi) (route : Route) (calls : Calls) (r : HttpRequest) (db : Database) where
  -- A request that is refused, or permitted.
  abbrev Outcome : Answer × Database → Type 0
  Outcome x = IsRefused db x ⊎ IsPermitted api route r db x.1

  required_outcome :
      (p : AdminPrincipal)
      → IsAccepted admin_listener
          (some api.authenticate_admin)
          (record { header = r.header; query = r.query })
          p
      → has_method route r.method ≡ true
      → Outcome (reply_of_route (required api route calls r db (some p)))
  required_outcome p accepted served =
      elim (Result-cases (require (route_scope route) r (some p))) [
        | inr (e, h) ↦ rw h (inl (refused_reply e))
        | inl (q, h) ↦
            let (same, in_scope, keyed) = require-ok (route_scope route) r p q h in
            let kept_or_keyed : ((handle_route api route calls r q db).1 ≡ db)
                ⊎ (is_empty (idempotency_key r) ≡ false) =
              elim keyed [
                | inl get ↦ inl (get-kept api route calls r q db served get)
                | inr named ↦ inr named
              ] in
            rw h (
              inr (record {
                principal = p;
                accepted = accepted;
                in_scope = in_scope;
                keyed = kept_or_keyed;
              }))
      ]

  required_without : Outcome (reply_of_route (required api route calls r db none))
  required_without = let (e, h) = require-none (route_scope route) r in rw h (inl (refused_reply e))

  dispatched_outcome :
      (principal : Option AdminPrincipal)
      → (has_method route r.method ≡ true
          → Outcome (reply_of_route (required api route calls r db principal)))
      → Outcome (dispatched api route calls r db principal)
  dispatched_outcome principal f = elim (Bool-cases (has_method route r.method)) [
    | inl served ↦ rw served (f served)
    | inr other ↦ rw other (inl refused_method)
  ]

  served_outcome :
      (s : Served)
      → IsGuarded (admin_middleware api) (record { header = r.header; query = r.query }) s
      → Outcome (served_answer api route calls r db s)
  served_outcome rejected g = inl refused_here
  served_outcome (passed_public p) g = dispatched_outcome none (λ served. required_without)
  served_outcome (passed_admin p) (e, accepted) =
      dispatched_outcome (some p) (required_outcome p accepted)

-- Behind the listener of the administrators a request is refused, and then the database stays, or it
-- carries one credential that the authenticator accepts for an administrator who holds the scope of the
-- route; and it has an idempotency key if it changes the database.
pub serve_authorized :
    (api : AdminApi) (route : Route) (calls : Calls) (limiter : FailureLimiter) (peer : Text)
    (begun ended : Time) (r : HttpRequest) (db : Database)
    → IsRefused db (serve api route calls limiter peer begun ended r db).0
      ⊎ IsPermitted api route r db (serve api route calls limiter peer begun ended r db).0.1
unfolding serve
serve_authorized api route calls limiter peer begun ended r db =
    served_outcome api route calls r db _
      (wrap-IsGuarded (admin_middleware api) (some limiter) (arrival_of r peer begun ended))
