-- ===== src/Http/Middleware/Guarded.antt =====
-- internal/httpapi/auth.go: what a request has passed that a handler serves.
use urbino.Base.{◌≡◌, refl, Bool, true, false, Option, none, some}
use urbino.Base.Result.{Result, ok, err}
use urbino.Auth.Errors.{AuthError}
use urbino.Auth.Limiter.{FailureLimiter, begin}
use urbino.Auth.Headers.{
  ListenerMode, public_listener, admin_listener, other, HeaderCredential, parse_headers,
}
use urbino.Auth.Service.{Principal, AdminPrincipal, Request}
use urbino.Http.Middleware.{
  public_answer, ask_public, admin_answer, ask_admin, Middleware, Served, rejected, passed_public,
  passed_admin, Arrival, authenticated, reserved, wrap, ask, if_parsed,
}

-- The headers carry one credential for the listener, and its authenticator accepts the request.
pub record IsAccepted {E P : Type 0} (mode : ListenerMode)
    (authenticate : Option (Request → Result E P)) (r : Request) (p : P) : Type 0 where
  pub credential : HeaderCredential
  pub carried : parse_headers r.header r.query mode ≡ ok credential
  pub check : Request → Result E P
  pub wired : authenticate ≡ some check
  pub accepted : check r ≡ ok p

-- A principal reaches a handler only on the listener of its kind.
abbrev pub IsGuarded : {E : Type 0} → Middleware E → Request → Served → Type 0
IsGuarded m r rejected = Unit
IsGuarded m r (passed_public p) =
    (m.mode ≡ public_listener) × IsAccepted public_listener m.authenticate_public r p
IsGuarded m r (passed_admin p) =
    (m.mode ≡ admin_listener) × IsAccepted admin_listener m.authenticate_admin r p

module _ {E : Type 0} (m : Middleware E) (r : Request) where
  asked :
      (mode : ListenerMode) (c : HeaderCredential)
      → m.mode ≡ mode
      → parse_headers r.header r.query mode ≡ ok c
      → IsGuarded m r (ask m mode r)
  asked admin_listener c e h = by_wiring m.authenticate_admin refl
    where
      by_wiring :
          (f : Option (Request → Result E AdminPrincipal))
          → m.authenticate_admin ≡ f
          → IsGuarded m r (ask_admin f r)
      by_wiring none w = tt
      by_wiring (some check) w = by_answer (check r) refl
        where
          by_answer : (a : Result E AdminPrincipal) → check r ≡ a → IsGuarded m r (admin_answer a)
          by_answer (err x) g = tt
          by_answer (ok p) g =
              (e, record { credential = c; carried = h; check = check; wired = w; accepted = g })
  asked public_listener c e h = by_wiring m.authenticate_public refl
    where
      by_wiring :
          (f : Option (Request → Result E Principal))
          → m.authenticate_public ≡ f
          → IsGuarded m r (ask_public f r)
      by_wiring none w = tt
      by_wiring (some check) w = by_answer (check r) refl
        where
          by_answer : (a : Result E Principal) → check r ≡ a → IsGuarded m r (public_answer a)
          by_answer (err x) g = tt
          by_answer (ok p) g =
              (e, record { credential = c; carried = h; check = check; wired = w; accepted = g })
  asked (other n) c e h = tt

  authenticated-IsGuarded : IsGuarded m r (authenticated m r)
  unfolding authenticated
  authenticated-IsGuarded = by_headers (parse_headers r.header r.query m.mode) refl
    where
      by_headers :
          (a : Result AuthError HeaderCredential)
          → parse_headers r.header r.query m.mode ≡ a
          → IsGuarded m r (if_parsed a (ask m m.mode r))
      by_headers (err x) g = tt
      by_headers (ok c) g = asked m.mode c refl g

-- Whatever the middleware serves, a handler gets a principal only on the listener of its kind, for a
-- request whose headers carry exactly one credential that this listener takes and whose credential the
-- listener's authenticator has accepted with this very principal.
pub wrap-IsGuarded :
    {E : Type 0} (m : Middleware E) (limiter : Option FailureLimiter) (a : Arrival)
    → IsGuarded m a.request (wrap m limiter a).0
unfolding wrap
wrap-IsGuarded m none a = authenticated-IsGuarded m a.request
wrap-IsGuarded m (some k) a = guarded (begin k a.remote_addr a.begun)
  where
    guarded : (p : FailureLimiter × Bool) → IsGuarded m a.request (reserved m a p).0
    guarded (l, false) = tt
    guarded (l, true) = authenticated-IsGuarded m a.request
