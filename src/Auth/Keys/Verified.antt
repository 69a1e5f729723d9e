-- ===== src/Auth/Keys/Verified.antt =====
-- What the checks of internal/auth/auth.go and admin.go establish when they accept a key.
use urbino.Base.{ℕ, ◌≤◌, ◌<◌, ◌≡◌, ◌≢◌, ◌↔◌, true, false, List, none, some, arith, length}
use urbino.Base.Text.{Text, text_eq_iff, is_empty}
use urbino.Base.Result.{ok}
use urbino.Domain.Uuid.{is_zero}
use urbino.Auth.Time.{Time}
use urbino.Auth.Keys.{
  KeyRecord, AdminTokenRecord, Pepper, status_active, verify, verify_admin, authorize, contains,
}

module _ (hmac : List ℕ → Text → List ℕ) where
  -- A key that may be used at `now` by who presents the secret.
  pub record IsTrusted (r : KeyRecord) (presented : Text) (pepper : Pepper) (now : Time)
      : Type 0 where
    pub named : (is_empty r.public_id ≡ false) × (is_empty r.pepper_id ≡ false)
    pub versioned : 0 < r.auth_version
    pub active : r.status ≡ status_active
    pub peppered : (pepper.id ≡ r.pepper_id) × (32 ≤ length pepper.key)
    pub current : now < r.expires_at
    pub standing : r.revoked_at ≡ none
    pub matching : (length r.digest ≡ 32) × (r.digest ≡ hmac pepper.key presented)

  verify-IsTrusted :
      (r : KeyRecord) (presented : Text) (pepper : Pepper) (now : Time)
      → verify hmac r presented pepper now ≡ ok tt
      → IsTrusted r presented pepper now
  unfolding verify
  verify-IsTrusted r presented pepper now h = record {
    named = (ground arith, ground arith);
    versioned = ground arith;
    active = ground (arith, text_eq_iff r.status status_active);
    peppered = (ground (arith, text_eq_iff pepper.id r.pepper_id), ground arith);
    current = ground arith;
    standing = ground arith;
    matching = (ground arith, ground (arith, text_eq_iff r.digest (hmac pepper.key presented)));
  }

  verify_of_trusted :
      (r : KeyRecord) (presented : Text) (pepper : Pepper) (now : Time)
      → IsTrusted r presented pepper now
      → verify hmac r presented pepper now ≡ ok tt
  unfolding verify
  verify_of_trusted r presented pepper now v = ground (
    arith,
    text_eq_iff r.status status_active,
    text_eq_iff pepper.id r.pepper_id,
    text_eq_iff r.digest (hmac pepper.key presented),
  )

  -- `Verify` accepts a gateway key exactly when the key is named, versioned and active, the pepper is
  -- the key's own and at least 32 bytes long, the key has not expired and carries no revocation, and
  -- its digest of 32 bytes is the one of the presented secret.
  pub verify_iff :
      (r : KeyRecord) (presented : Text) (pepper : Pepper) (now : Time)
      → (verify hmac r presented pepper now ≡ ok tt) ↔ IsTrusted r presented pepper now
  verify_iff r presented pepper now =
      (verify-IsTrusted r presented pepper now, verify_of_trusted r presented pepper now)

  pub record IsTrustedAdmin (r : AdminTokenRecord) (secret : Text) (pepper : Pepper) (now : Time)
      : Type 0 where
    pub named : (is_zero r.id ≡ false) × (is_empty r.public_id ≡ false)
    pub versioned : 0 < r.auth_version
    pub peppered : (r.pepper_id ≡ pepper.id) × (32 ≤ length pepper.key)
    pub current : now < r.expires_at
    pub standing : r.revoked_at ≡ none
    pub matching : (length r.digest ≡ 32) × (r.digest ≡ hmac pepper.key secret)

  -- `VerifyAdmin` accepts an administrator token exactly when it is named and versioned, the pepper is
  -- the token's own and at least 32 bytes long, the token has not expired and carries no revocation,
  -- and its digest of 32 bytes is the one of the secret.
  pub verify_admin_iff :
      (r : AdminTokenRecord) (secret : Text) (pepper : Pepper) (now : Time)
      → (verify_admin hmac r secret pepper now ≡ ok tt) ↔ IsTrustedAdmin r secret pepper now
  unfolding verify_admin
  verify_admin_iff r secret pepper now = (
    λ h. record {
      named = (ground arith, ground arith);
      versioned = ground arith;
      peppered = (ground (arith, text_eq_iff r.pepper_id pepper.id), ground arith);
      current = ground arith;
      standing = ground arith;
      matching = (ground arith, ground (arith, text_eq_iff r.digest (hmac pepper.key secret)));
    },
    λ v.
        ground
          (arith, text_eq_iff r.pepper_id pepper.id, text_eq_iff r.digest (hmac pepper.key secret)),
  )

-- A stored key that may act at `now`.
pub record IsStanding (r : KeyRecord) (now : Time) : Type 0 where
  pub owned : (is_zero r.tenant ≡ false) × (is_zero r.project ≡ false) × (is_zero r.user ≡ false)
  pub named : is_empty r.public_id ≡ false
  pub versioned : 0 < r.auth_version
  pub active : r.status ≡ status_active
  pub current : now < r.expires_at
  pub standing : r.revoked_at ≡ none

-- `Authorize` allows a model and a scope exactly when the stored key has its owner, name and version,
-- is active, has not expired, carries no revocation, and lists both the model and the scope.
pub authorize_iff :
    (r : KeyRecord) (model scope : Text) (now : Time)
    → (authorize r model scope now ≡ ok tt)
      ↔ (IsStanding r now × (contains r.scopes scope ≡ true) × (contains r.models model ≡ true))
unfolding authorize
authorize_iff r model scope now = (
  λ h. (
    record {
      owned = (ground arith, ground arith, ground arith);
      named = ground arith;
      versioned = ground arith;
      active = ground (arith, text_eq_iff r.status status_active);
      current = ground arith;
      standing = ground arith;
    },
    ground arith,
    ground arith,
  ),
  λ v. ground (arith, text_eq_iff r.status status_active),
)

-- A key that carries any revocation time, past or future, is allowed nothing.
pub authorize_revoked :
    (r : KeyRecord) (model scope : Text) (now at : Time)
    → r.revoked_at ≡ some at
    → authorize r model scope now ≢ ok tt
authorize_revoked r model scope now at e h =
    let (v, _, _) = (authorize_iff r model scope now).0 h in cc v.standing
