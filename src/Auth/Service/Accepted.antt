-- ===== src/Auth/Service/Accepted.antt =====
-- What `AuthenticatePublic` of internal/auth/service.go has established when it accepts a request.
use mathlib.Core.Path.{subst}
use urbino.Base.{◌||◌, ℕ, ◌≡◌, ◌≢◌, refl, ap, ◌∙◌, true, List, Option, none, some, arith}
use urbino.Base.Text.{Text, text_eq, text_eq_iff}
use urbino.Base.Int64.{int64_of, int64_eq, int64_eq_sound}
use urbino.Base.Dict.{Dict, lookup}
use urbino.Base.Result.{Result, ok, err, >>=-ok, guard-ok}
use urbino.Auth.Errors.{AuthError, revoked}
use urbino.Auth.Time.{Time}
use urbino.Auth.Credential.{public_prefix, split_credential}
use urbino.Auth.Headers.{HeaderCredential, public_listener, parse_headers}
use urbino.Auth.Keys.{Pepper, KeyRecord, status_revoked, is_some, verify}
use urbino.Auth.Keys.Verified.{IsTrusted, verify_iff}
use urbino.Auth.Service.{Principal, Request, AuthState, Backend, Service}
use urbino.Auth.Service.Public.{
  principal_of, verified, decide, authenticate_known, authenticate_split, authenticate_parsed,
  authenticate_public,
}

-- What the backend has said of a key for it to be accepted as the record `r`.
pub record IsCurrent (answer : Option (Option AuthState)) (r : KeyRecord) : Type 0 where
  pub state : AuthState
  pub answered : answer ≡ some (some state)
  pub standing : state.stored.status ≢ status_revoked
  pub version : state.auth_version ≡ int64_of r.auth_version

module _ (hmac : List ℕ → Text → List ℕ) where
  -- A key record that its pepper and the secret verify.
  pub record IsVerified (s : Dict Pepper) (r : KeyRecord) (secret : Text) (now : Time)
      : Type 0 where
    pub pepper : Pepper
    pub kept : lookup r.pepper_id s ≡ some pepper
    pub trusted : IsTrusted hmac r secret pepper now

  verified_ok :
      (o : Option Pepper) (id secret : Text) (r : KeyRecord) (now : Time) (p : Principal)
      → verified hmac o id secret r now ≡ ok p
      → (pepper : Pepper) × (o ≡ some pepper)
        × IsTrusted hmac r secret pepper now
        × (principal_of id r ≡ p)
  verified_ok none id secret r now p h = cc
  verified_ok (some pepper) id secret r now p h =
      let (t, e, g) = >>=-ok (verify hmac r secret pepper now) _ h in
      let (_, same) =
        guard-ok (is_some r.revoked_at || text_eq r.status status_revoked) revoked _ g in
      (pepper, refl, (verify_iff hmac r secret pepper now).0 e, ground arith)

  decide_ok :
      (answer : Option (Option AuthState)) (o : Option Pepper) (id secret : Text) (r : KeyRecord)
      (now : Time) (p : Principal)
      → decide hmac answer o id secret r now ≡ ok p
      → IsCurrent answer r × (verified hmac o id secret r now ≡ ok p)
  decide_ok none o id secret r now p h = cc
  decide_ok (some none) o id secret r now p h = ground arith
  decide_ok (some (some state)) o id secret r now p h =
      let (a, g) = guard-ok (text_eq state.stored.status status_revoked) revoked _ h in
      let same : int64_eq state.auth_version (int64_of r.auth_version) ≡ true = ground arith in
      (
        record {
          state = state;
          answered = refl;
          standing = λ e. ground (arith, text_eq_iff state.stored.status status_revoked);
          version = int64_eq_sound _ _ same;
        },
        ground arith,
      )

module _ (hmac : List ℕ → Text → List ℕ) {B : Type 0} (backend : Backend B) where
  pub record IsAccepted (s : Service B) (req : Request) (now : Time) (p : Principal) : Type 0 where
    pub credential : HeaderCredential
    pub presented : parse_headers req.header req.query public_listener ≡ ok credential
    pub secret : Text
    pub parts : split_credential credential.value public_prefix ≡ ok (p.key_id, secret)
    pub r : KeyRecord
    pub kept : lookup p.key_id s.keys ≡ some r
    pub current : IsCurrent (backend.get p.key_id s.backend).0 r
    pub verified : IsVerified hmac s.peppers r secret now
    pub principal : principal_of p.key_id r ≡ p

  record IsKnown (s : Service B) (id secret : Text) (now : Time) (p : Principal) : Type 0 where
    r : KeyRecord
    kept : lookup id s.keys ≡ some r
    current : IsCurrent (backend.get id s.backend).0 r
    verified : IsVerified hmac s.peppers r secret now
    principal : principal_of id r ≡ p

  authenticate_known-IsKnown :
      (s : Service B) (id secret : Text) (o : Option KeyRecord) (now : Time) (p : Principal)
      → lookup id s.keys ≡ o
      → (authenticate_known hmac backend s id secret o now).0 ≡ ok p
      → IsKnown s id secret now p
  authenticate_known-IsKnown s id secret none now p e h = cc
  authenticate_known-IsKnown s id secret (some r) now p e h =
      let (c, g) = decide_ok hmac _ _ id secret r now p h in
      let (pepper, k, t, same) = verified_ok hmac _ id secret r now p g in
      record {
        r = r;
        kept = e;
        current = c;
        verified = record { pepper = pepper; kept = k; trusted = t };
        principal = same;
      }

  split_ok :
      (s : Service B) (parts : Result AuthError (Text × Text)) (now : Time) (p : Principal)
      → (authenticate_split hmac backend s parts now).0 ≡ ok p
      → (id : Text) × (secret : Text) × (parts ≡ ok (id, secret)) × IsKnown s id secret now p
  split_ok s (err e) now p h = cc
  split_ok s (ok (id, secret)) now p h =
      (id, secret, refl, authenticate_known-IsKnown s id secret _ now p refl h)

  parsed_ok :
      (s : Service B) (req : Request) (now : Time) (p : Principal)
      (o : Result AuthError HeaderCredential)
      → parse_headers req.header req.query public_listener ≡ o
      → (authenticate_parsed hmac backend s o now).0 ≡ ok p
      → IsAccepted s req now p
  parsed_ok s req now p (err e) n h = cc
  parsed_ok s req now p (ok c) n h =
      let (id, secret, e, k) = split_ok s _ now p h in
      let same : id ≡ p.key_id = ap (λ (p : Principal). p.key_id) k.principal in
      record {
        credential = c;
        presented = n;
        secret = secret;
        parts = e ∙ ap (λ i. ok (i, secret)) same;
        r = k.r;
        kept = subst (λ i. lookup i s.keys ≡ some k.r) same k.kept;
        current = subst (λ i. IsCurrent (backend.get i s.backend).0 k.r) same k.current;
        verified = k.verified;
        principal = subst (λ i. principal_of i k.r ≡ p) same k.principal;
      }

  -- A request is accepted on the public listener only if its one credential names a key that the
  -- service keeps, the secret verifies against that key's record under its own pepper, with no
  -- revocation and before the expiry, and the backend knows the key at the same version and not as
  -- revoked. The principal is the one of the service's record.
  pub authenticate_public_sound :
      (s : Service B) (req : Request) (now : Time) (p : Principal)
      → (authenticate_public hmac backend s req now).0 ≡ ok p
      → IsAccepted s req now p
  unfolding authenticate_public
  authenticate_public_sound s req now p h = parsed_ok s req now p _ refl h
