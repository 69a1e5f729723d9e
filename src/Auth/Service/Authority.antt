-- ===== src/Auth/Service/Authority.antt =====
-- Who may administer through internal/auth/service.go.
use mathlib.Core.Path.{subst}
use urbino.Base.{ℕ, ◌≡◌, refl, sym, ap, ◌∙◌, List, Option, none, some, arith}
use urbino.Base.Text.{Text}
use urbino.Base.Dict.{lookup}
use urbino.Base.Result.{Result, ok, err, >>=-ok}
use urbino.Auth.Time.{Time}
use urbino.Auth.Errors.{AuthError}
use urbino.Auth.Headers.{admin_listener, parse_headers}
use urbino.Auth.Keys.{Pepper, AdminTokenRecord, verify_admin}
use urbino.Auth.Service.{
  bootstrap_admin_scopes, AdminPrincipal, Request, Options, Backend, Service, new_service,
}
use urbino.Auth.Service.Admin.{
  verified_admin, authenticate_token, authenticate_parts, authenticate_admin,
}
use urbino.Auth.Service.Held.{IsWithin}
use urbino.Auth.Service.Sound.{new_service-IsSound, Steps-IsSound}
use urbino.Auth.Service.Steps.{Steps}

-- What the service keeps of an administrator that it accepts.
record Accepted {B : Type 0} (s : Service B) (p : AdminPrincipal) : Type 0 where
  id : Text
  r : AdminTokenRecord
  kept : lookup id s.admins ≡ some r
  same : (r.principal_id ≡ p.admin_id) × (r.scopes ≡ p.scopes)

module _ (hmac : List ℕ → Text → List ℕ) where
  verified_admin_ok :
      (pepper : Option Pepper) (secret : Text) (r : AdminTokenRecord) (now : Time)
      (p : AdminPrincipal)
      → verified_admin hmac pepper secret r now ≡ ok p
      → (r.principal_id ≡ p.admin_id) × (r.scopes ≡ p.scopes)
  verified_admin_ok none secret r now p h = cc
  verified_admin_ok (some pepper) secret r now p h =
      let (t, _, e) = >>=-ok (verify_admin hmac r secret pepper now) _ h in
      let same : record { admin_id = r.principal_id; scopes = r.scopes } ≡ p = ground arith in
      (ap (λ (p : AdminPrincipal). p.admin_id) same, ap (λ (p : AdminPrincipal). p.scopes) same)

  token_ok :
      {B : Type 0} (s : Service B) (id secret : Text) (o : Option AdminTokenRecord) (now : Time)
      (p : AdminPrincipal)
      → lookup id s.admins ≡ o
      → authenticate_token hmac s secret o now ≡ ok p
      → Accepted s p
  token_ok s id secret none now p e h = cc
  token_ok s id secret (some r) now p e h = record {
    id = id;
    r = r;
    kept = e;
    same = verified_admin_ok _ secret r now p h;
  }

  parts_ok :
      {B : Type 0} (s : Service B) (parts : Result AuthError (Text × Text)) (now : Time)
      (p : AdminPrincipal)
      → authenticate_parts hmac s parts now ≡ ok p
      → Accepted s p
  parts_ok s (err e) now p h = cc
  parts_ok s (ok (id, secret)) now p h = token_ok s id secret _ now p refl h

  accepted :
      {B : Type 0} (s : Service B) (req : Request) (now : Time) (p : AdminPrincipal)
      → authenticate_admin hmac s req now ≡ ok p
      → Accepted s p
  unfolding authenticate_admin
  accepted s req now p h =
      let (c, _, e) = >>=-ok (parse_headers req.header req.query admin_listener) _ h in
      parts_ok s _ now p e

module _ (hmac : List ℕ → Text → List ℕ) {B : Type 0} (backend : Backend B) where
  -- Whatever calls a new service has answered, a request that it accepts on the management listener
  -- has no scope outside the four of the bootstrap.
  pub authority_never_grows :
      (options : Options B) {s t : Service B} {ids : List Text} (req : Request) (now : Time)
      (p : AdminPrincipal)
      → new_service options ≡ ok s
      → Steps hmac backend ids s t
      → authenticate_admin hmac t req now ≡ ok p
      → IsWithin p.scopes bootstrap_admin_scopes
  authority_never_grows options {s = s} {t = t} req now p n steps h =
      let a = accepted hmac t req now p h in
      let i = Steps-IsSound hmac backend steps (new_service-IsSound options s n) in
      subst (λ l. IsWithin l bootstrap_admin_scopes) a.same.1 (i.tokens a.id a.r a.kept).1

  -- Whatever calls a new service has answered, any two requests that it accepts on the management
  -- listener are of the same administrator.
  pub one_administrator :
      (options : Options B) {s t : Service B} {ids : List Text} (req req' : Request)
      (now now' : Time) (p p' : AdminPrincipal)
      → new_service options ≡ ok s
      → Steps hmac backend ids s t
      → authenticate_admin hmac t req now ≡ ok p
      → authenticate_admin hmac t req' now' ≡ ok p'
      → p.admin_id ≡ p'.admin_id
  one_administrator options {s = s} {t = t} req req' now now' p p' n steps h h' =
      let a = accepted hmac t req now p h in
      let a' = accepted hmac t req' now' p' h' in
      let i = Steps-IsSound hmac backend steps (new_service-IsSound options s n) in
      sym a.same.0 ∙ (i.tokens a.id a.r a.kept).0 ∙ sym (i.tokens a'.id a'.r a'.kept).0 ∙ a'.same.0
