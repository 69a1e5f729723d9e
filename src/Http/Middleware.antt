-- ===== src/Http/Middleware.antt =====
-- internal/httpapi/auth.go: `CredentialMiddleware`. The limiter is the state; the address of the peer and
-- the readings of the clock are arguments, and so are the two authenticators.
pub mod Limited
pub mod Traffic
pub mod Guarded
use urbino.Base.{Bool, true, false, Option, none, some}
use urbino.Base.Text.{Text}
use urbino.Base.Result.{Result, ok, err}
use urbino.Auth.Errors.{AuthError}
use urbino.Auth.Time.{Time}
use urbino.Auth.Limiter.{FailureLimiter, begin, record_failure, record_success}
use urbino.Auth.Headers.{
  ListenerMode, public_listener, admin_listener, other, HeaderCredential, parse_headers,
}
use urbino.Auth.Service.{Principal, AdminPrincipal, Request}

-- `CredentialMiddleware`, less its limiter; a nil authenticator is `none`.
pub record Middleware (E : Type 0) : Type 0 where
  pub mode : ListenerMode
  pub authenticate_public : Option (Request → Result E Principal)
  pub authenticate_admin : Option (Request → Result E AdminPrincipal)

-- What is served: the error 401, or the next handler with the principal in its context.
pub data Served : Type 0 where
  rejected : Served
  passed_public : Principal → Served
  passed_admin : AdminPrincipal → Served

-- A request with its peer and the two readings of the clock.
pub record Arrival : Type 0 where
  pub request : Request
  pub remote_addr : Text
  pub begun : Time
  pub ended : Time

abbrev pub public_answer : {E : Type 0} → Result E Principal → Served
public_answer (ok p) = passed_public p
public_answer (err e) = rejected

abbrev pub admin_answer : {E : Type 0} → Result E AdminPrincipal → Served
admin_answer (ok p) = passed_admin p
admin_answer (err e) = rejected

abbrev pub ask_public : {E : Type 0} → Option (Request → Result E Principal) → Request → Served
ask_public none r = rejected
ask_public (some authenticate) r = public_answer (authenticate r)

abbrev pub ask_admin : {E : Type 0} → Option (Request → Result E AdminPrincipal) → Request → Served
ask_admin none r = rejected
ask_admin (some authenticate) r = admin_answer (authenticate r)

abbrev pub ask : {E : Type 0} → Middleware E → ListenerMode → Request → Served
ask m admin_listener r = ask_admin m.authenticate_admin r
ask m public_listener r = ask_public m.authenticate_public r
ask m (other n) r = rejected

abbrev pub if_parsed : Result AuthError HeaderCredential → Served → Served
if_parsed (ok c) s = s
if_parsed (err e) s = rejected

-- The headers, then the authenticator of the listener.
unfoldable pub authenticated : {E : Type 0} → Middleware E → Request → Served
authenticated m r = if_parsed (parse_headers r.header r.query m.mode) (ask m m.mode r)

-- `fail` and `succeed` release the reservation.
abbrev pub release : FailureLimiter → Arrival → Served → FailureLimiter
release l a rejected = record_failure l a.remote_addr a.ended
release l a (passed_public p) = record_success l a.remote_addr a.ended
release l a (passed_admin p) = record_success l a.remote_addr a.ended

abbrev pub reserved :
    {E : Type 0} → Middleware E → Arrival → FailureLimiter × Bool → Served × FailureLimiter
reserved m a (l, false) = (rejected, l)
reserved m a (l, true) = let s = authenticated m a.request in (s, release l a s)

abbrev pub limited :
    {E : Type 0} → Middleware E → Arrival → Option FailureLimiter → Served × Option FailureLimiter
limited m a none = (authenticated m a.request, none)
limited m a (some l) = let (s, l') = reserved m a (begin l a.remote_addr a.begun) in (s, some l')

unfoldable pub wrap :
    {E : Type 0} → Middleware E → Option FailureLimiter → Arrival → Served × Option FailureLimiter
wrap m limiter a = limited m a limiter
