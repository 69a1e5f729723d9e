-- ===== src/Auth/Keys.antt =====
-- The key records of internal/auth/auth.go and internal/auth/admin.go: issuing, verifying, authorizing.
-- HMAC-SHA-256 is a parameter; random bytes and the clock are arguments.
pub mod Verified
pub mod Issue
pub mod Granted
use urbino.Base.{
  ℕ, suc, ◌+◌, ◌-◌, ◌≡◌, Bool, true, false, ◌&&◌, ◌||◌, not, List, [], ◌∷◌, ◌++◌, Option, none,
  some, ltb, leb, ◌==◌, if◌then◌else◌, length,
}
use urbino.Base.Text.{Text, codes, text_eq, is_empty}
use urbino.Base.Int.{ℤ, pos, negsuc}
use urbino.Base.Result.{Result, ok, err, ◌>>=◌, ◌>>◌}
use urbino.Domain.Uuid.{UuidError, zero_uuid, Uuid, is_zero, new_uuid}
use urbino.Domain.Scopes.{scope_valid, models_read, models_invoke, usage_read}
use urbino.Auth.Errors.{
  AuthError, invalid_credential, expired, revoked, scope_denied, no_key_id, no_public_id, no_secret,
}
use urbino.Auth.Time.{Time, before, add_time}
use urbino.Auth.Base64.{encode}
use urbino.Auth.Credential.{public_prefix, admin_prefix}

abbrev pub status_active : Text
status_active = codes "active"

abbrev pub status_revoked : Text
status_revoked = codes "revoked"

pub record Pepper : Type 0 where
  pub id : Text
  pub key : List ℕ

pub record KeyRecord : Type 0 where
  pub id : Uuid
  pub public_id : Text
  pub tenant : Uuid
  pub project : Uuid
  pub user : Uuid
  pub digest : List ℕ
  pub pepper_id : Text
  pub scopes : List Text
  pub models : List Text
  pub status : Text
  pub expires_at : Time
  pub revoked_at : Option Time
  pub auth_version : ℕ

pub record AdminTokenRecord : Type 0 where
  pub id : Uuid
  pub principal_id : Uuid
  pub public_id : Text
  pub digest : List ℕ
  pub pepper_id : Text
  pub scopes : List Text
  pub expires_at : Time
  pub revoked_at : Option Time
  pub auth_version : ℕ

-- `IssuedKey` and `IssuedAdminToken`.
pub record Issued (R : Type 0) : Type 0 where
  pub stored : R
  pub secret : Text
  pub value : Text

-- What one call of `Issue` draws: the bytes and the milliseconds for `NewUUID`, and the two reads.
pub record Entropy : Type 0 where
  pub uuid_bytes : Option (List ℕ)
  pub millis : ℤ
  pub public_bytes : Option (List ℕ)
  pub secret_bytes : Option (List ℕ)

unfoldable pub is_public_scope : Text → Bool
is_public_scope scope =
    text_eq scope models_read || text_eq scope models_invoke || text_eq scope usage_read

-- The loops that refuse a list of scopes at the first that fails a test.
unfoldable pub all_scopes : (Text → Bool) → List Text → Bool
all_scopes test [] = true
all_scopes test (s ∷ scopes) = test s && all_scopes test scopes

-- The loops `AllowsScope`, `AllowsModel`, `Allows` and `containsScope`.
unfoldable pub contains : List Text → Text → Bool
contains [] s = false
contains (x ∷ xs) s = text_eq x s || contains xs s

abbrev pub is_some {ℓ} : {A : Type ℓ} → Option A → Bool
is_some none = false
is_some (some a) = true

abbrev pub is_nil {ℓ} : {A : Type ℓ} → List A → Bool
is_nil [] = true
is_nil (x ∷ xs) = false

abbrev pub non_positive : ℤ → Bool
non_positive (pos n) = n == 0
non_positive (negsuc n) = true

-- The three draws in their order, and the key made of them.
abbrev pub drawn_from {ℓ} :
    {R : Type ℓ}
    → Result UuidError Uuid
    → Option (List ℕ)
    → Option (List ℕ)
    → (Uuid → List ℕ → List ℕ → R)
    → Result AuthError R
drawn_from (err x) public secret make = err no_key_id
drawn_from (ok id) none secret make = err no_public_id
drawn_from (ok id) (some p) none make = err no_secret
drawn_from (ok id) (some p) (some s) make = ok (make id p s)

unfoldable pub drawn {ℓ} :
    {R : Type ℓ} → Entropy → (Uuid → List ℕ → List ℕ → R) → Result AuthError R
drawn e make = drawn_from (new_uuid e.uuid_bytes e.millis) e.public_bytes e.secret_bytes make

-- `hmac key message` is HMAC-SHA-256.
module _ (hmac : List ℕ → Text → List ℕ) where
  abbrev pub key_made :
      Pepper
      → (tenant project user : Uuid) → (scopes models : List Text) → (now : Time) → (ttl : ℤ) → Uuid
      → List ℕ
      → List ℕ
      → Issued KeyRecord
  key_made current tenant project user scopes models now ttl id public secret = record {
    stored = record {
      id = id;
      public_id = encode public;
      tenant = tenant;
      project = project;
      user = user;
      digest = hmac current.key (encode secret);
      pepper_id = current.id;
      scopes = scopes;
      models = models;
      status = status_active;
      expires_at = add_time now ttl;
      revoked_at = none;
      auth_version = 1;
    };
    secret = encode secret;
    value = public_prefix ++ (encode public ++ b'.' ∷ encode secret);
  }

  unfoldable pub issue :
      Pepper
      → (tenant project user : Uuid) → (scopes models : List Text) → (now : Time) → (ttl : ℤ)
      → Entropy
      → Result AuthError (Issued KeyRecord)
  issue current tenant project user scopes models now ttl e =
      if is_zero tenant
        || is_zero project
        || is_zero user
        || is_empty current.id
        || ltb (length current.key) 32
        || non_positive ttl
        || is_nil scopes
        || is_nil models
      then err invalid_credential
      else if not (all_scopes is_public_scope scopes)
      then err scope_denied
      else drawn e (key_made current tenant project user scopes models now ttl)

  abbrev pub token_made :
      Pepper
      → (scopes : List Text) → (now : Time) → (ttl : ℤ) → Uuid
      → List ℕ
      → List ℕ
      → Issued AdminTokenRecord
  token_made current scopes now ttl id public secret = record {
    stored = record {
      id = id;
      principal_id = zero_uuid;
      public_id = encode public;
      digest = hmac current.key (encode secret);
      pepper_id = current.id;
      scopes = scopes;
      expires_at = add_time now ttl;
      revoked_at = none;
      auth_version = 1;
    };
    secret = encode secret;
    value = admin_prefix ++ (encode public ++ b'.' ∷ encode secret);
  }

  unfoldable pub issue_admin :
      Pepper
      → (scopes : List Text) → (now : Time) → (ttl : ℤ) → Entropy
      → Result AuthError (Issued AdminTokenRecord)
  issue_admin current scopes now ttl e =
      if is_empty current.id || ltb (length current.key) 32 || non_positive ttl || is_nil scopes
      then err invalid_credential
      else if not (all_scopes scope_valid scopes)
      then err scope_denied
      else drawn e (token_made current scopes now ttl)

  unfoldable pub verify : KeyRecord → Text → Pepper → Time → Result AuthError (Unit {0})
  verify r presented pepper now =
      if is_empty r.public_id
        || is_empty r.pepper_id
        || r.auth_version == 0
        || not (text_eq r.status status_active)
        || not (length r.digest == 32)
        || not (text_eq pepper.id r.pepper_id)
        || ltb (length pepper.key) 32
      then err invalid_credential
      else if not (before now r.expires_at)
      then err expired
      else if is_some r.revoked_at
      then err revoked
      else if not (text_eq r.digest (hmac pepper.key presented))
      then err invalid_credential
      else ok tt

  unfoldable pub verify_admin :
      AdminTokenRecord → Text → Pepper → Time → Result AuthError (Unit {0})
  verify_admin r secret pepper now =
      if is_zero r.id || is_empty r.public_id || r.auth_version == 0 || not (length r.digest == 32)
      then err invalid_credential
      else if not (text_eq r.pepper_id pepper.id) || ltb (length pepper.key) 32
      then err invalid_credential
      else if not (before now r.expires_at)
      then err expired
      else if is_some r.revoked_at
      then err revoked
      else if not (text_eq r.digest (hmac pepper.key secret))
      then err invalid_credential
      else ok tt

-- `VerifyRecord` and `Authorize`.
unfoldable pub verify_record : KeyRecord → Time → Result AuthError (Unit {0})
verify_record r now =
    if is_zero r.tenant
      || is_zero r.project
      || is_zero r.user
      || is_empty r.public_id
      || r.auth_version == 0
      || not (text_eq r.status status_active)
    then err invalid_credential
    else if not (before now r.expires_at)
    then err expired
    else if is_some r.revoked_at
    then err revoked
    else ok tt

unfoldable pub authorize : KeyRecord → (model scope : Text) → Time → Result AuthError (Unit {0})
unfolding verify_record
authorize r model scope now = do
  verify_record r now
  if not (contains r.scopes scope) || not (contains r.models model) then err scope_denied else ok tt
