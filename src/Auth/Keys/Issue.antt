-- ===== src/Auth/Keys/Issue.antt =====
-- What `Issue` and `IssueAdmin` of internal/auth hand out.
use mathlib.Core.Path.{subst}
use urbino.Base.{
  ℕ, suc, ◌≤◌, ◌≡◌, refl, sym, ap, true, false, List, [], ◌∷◌, Option, none, some, arith, length,
  if◌then◌else◌,
}
use urbino.Base.Text.{Text, text_eq_refl, is_empty}
use urbino.Base.Int.{ℤ}
use urbino.Base.Result.{Result, ok, err}
use urbino.Domain.Uuid.Fresh.{new_uuid-nonzero}
use urbino.Domain.Uuid.{IsUuid, Uuid, is_zero, new_uuid}
use urbino.Auth.Errors.{expired}
use urbino.Auth.Time.{Time, add_time}
use urbino.Auth.Base64.{encode, contains_byte-encode, is_empty-encode}
use urbino.Auth.Credential.{
  IsPart, public_prefix, admin_prefix, parse_public_credential, parse_admin_credential,
  split_credential_join,
}
use urbino.Auth.Keys.{
  before, drawn_from, UuidError, scope_valid, key_made, token_made, KeyRecord, AdminTokenRecord,
  Pepper, Issued, Entropy, drawn, issue, issue_admin, verify, verify_admin, all_scopes,
  is_public_scope, status_active,
}

-- `rand.Read` fills the slices that the code makes: 16 bytes for the record's identifier, 12 for the
-- public identifier and 32 for the secret.
pub record IsFilled (e : Entropy) : Type 0 where
  pub public_filled : (p : List ℕ) → e.public_bytes ≡ some p → length p ≡ 12
  pub uuid_filled : (b : List ℕ) → e.uuid_bytes ≡ some b → IsUuid b
  pub secret_filled : (s : List ℕ) → e.secret_bytes ≡ some s → length s ≡ 32

-- The draws of a call that succeeded.
module _ {R : Type 0} (make : Uuid → List ℕ → List ℕ → R) (r : R) where
  abbrev pub Draws : Result UuidError Uuid → Option (List ℕ) → Option (List ℕ) → Type 0
  Draws u public secret =
      (id : Uuid) × (p : List ℕ) × (s : List ℕ) × (u ≡ ok id)
      × (public ≡ some p)
      × (secret ≡ some s)
      × (make id p s ≡ r)

  drawn_from_ok :
      (u : Result UuidError Uuid) (public secret : Option (List ℕ))
      → drawn_from u public secret make ≡ ok r
      → Draws u public secret
  drawn_from_ok (err x) public secret h = cc
  drawn_from_ok (ok id) none secret h = cc
  drawn_from_ok (ok id) (some p) none h = cc
  drawn_from_ok (ok id) (some p) (some s) h = (id, p, s, refl, refl, refl, cc)

  pub drawn_ok :
      (e : Entropy)
      → drawn e make ≡ ok r
      → Draws (new_uuid e.uuid_bytes e.millis) e.public_bytes e.secret_bytes
  unfolding drawn
  drawn_ok e h = drawn_from_ok (new_uuid e.uuid_bytes e.millis) e.public_bytes e.secret_bytes h

nonempty_of_length : (s : List ℕ) (n : ℕ) → length s ≡ suc n → is_empty s ≡ false
nonempty_of_length [] n h = absurd (omega arith)
nonempty_of_length (a ∷ s) n h = refl

-- Encoded bytes are a part of a credential.
pub encode-IsPart : (s : List ℕ) (n : ℕ) → length s ≡ suc n → IsPart (encode s)
encode-IsPart s n h = (is_empty-encode s (nonempty_of_length s n h), contains_byte-encode s)

module _ (hmac : List ℕ → Text → List ℕ) where
  -- What `IssueAdmin` puts into a record, without anything known of the draws.
  pub issue_admin_stored :
      (current : Pepper) (scopes : List Text) (now : Time) (ttl : ℤ) (e : Entropy)
      (k : Issued AdminTokenRecord)
      → issue_admin hmac current scopes now ttl e ≡ ok k
      → (k.stored.scopes ≡ scopes)
        × (k.stored.expires_at ≡ add_time now ttl)
        × (k.stored.revoked_at ≡ none)
  unfolding issue_admin
  issue_admin_stored current scopes now ttl e k h =
      let make = token_made hmac current scopes now ttl in
      let draws : drawn e make ≡ ok k = ground arith in
      let (id, p, s, eu, ep, es, made) = drawn_ok make k e draws in
      subst
        (λ (k : Issued AdminTokenRecord).
          (k.stored.scopes ≡ scopes)
          × (k.stored.expires_at ≡ add_time now ttl)
          × (k.stored.revoked_at ≡ none))
        made (refl, refl, refl)

  -- The name of a key record that `Issue` makes is the one that it draws.
  pub issue_named :
      (current : Pepper) (tenant project user : Uuid) (scopes models : List Text) (now : Time)
      (ttl : ℤ) (e : Entropy) (k : Issued KeyRecord)
      → issue hmac current tenant project user scopes models now ttl e ≡ ok k
      → (p : List ℕ) × (e.public_bytes ≡ some p) × (k.stored.public_id ≡ encode p)
  unfolding issue
  issue_named current tenant project user scopes models now ttl e k h =
      let make = key_made hmac current tenant project user scopes models now ttl in
      let draws : drawn e make ≡ ok k = ground arith in
      let (id, p, s, eu, ep, es, made) = drawn_ok make k e draws in
      (p, ep, sym (ap (λ (k : Issued KeyRecord). k.stored.public_id) made))

module _ (hmac : List ℕ → Text → List ℕ)
    (hmac_size : (k : List ℕ) (t : Text) → length (hmac k t) ≡ 32) where
  -- What a key is that `Issue` hands out.
  pub record IsUsable (current : Pepper) (expires : Time) (tenant project user : Uuid)
      (scopes models : List Text) (k : Issued KeyRecord) : Type 0 where
    pub splits : parse_public_credential k.value ≡ ok (k.stored.public_id, k.secret)
    pub verifies :
        (now : Time)
        → verify hmac k.stored k.secret current now
          ≡ (if before now expires then ok tt else err expired)
    pub granted : (k.stored.scopes ≡ scopes) × (all_scopes is_public_scope scopes ≡ true)
    pub allowed : k.stored.models ≡ models
    pub owner : (k.stored.tenant ≡ tenant) × (k.stored.project ≡ project) × (k.stored.user ≡ user)

  issue_parts :
      (current : Pepper) (tenant project user : Uuid) (scopes models : List Text) (now : Time)
      (ttl : ℤ) (e : Entropy) (k : Issued KeyRecord)
      → issue hmac current tenant project user scopes models now ttl e ≡ ok k
      → (is_empty current.id ≡ false)
        × (32 ≤ length current.key)
        × (all_scopes is_public_scope scopes ≡ true)
        × (drawn e (key_made hmac current tenant project user scopes models now ttl) ≡ ok k)
  unfolding issue
  issue_parts current tenant project user scopes models now ttl e k h =
      (ground arith, ground arith, ground arith, ground arith)

  key_made-verify :
      (current : Pepper) (tenant project user : Uuid) (scopes models : List Text) (now : Time)
      (ttl : ℤ) (id : Uuid) (p s : List ℕ)
      → is_empty current.id ≡ false
      → 32 ≤ length current.key
      → is_empty (encode p) ≡ false
      → (later : Time)
      → let k = key_made hmac current tenant project user scopes models now ttl id p s in
        verify hmac k.stored k.secret current later
        ≡ (if before later (add_time now ttl) then ok tt else err expired)
  unfolding verify
  key_made-verify current tenant project user scopes models now ttl id p s named long part later =
      ground (
        arith,
        text_eq_refl status_active,
        text_eq_refl current.id,
        text_eq_refl (hmac current.key (encode s)),
        hmac_size current.key (encode s),
      )

  -- A gateway key that `Issue` hands out can be used: its value is split into its identifier and its
  -- secret, these verify under the same pepper at every time before the expiry and are expired from
  -- then on, and it carries the requested models and scopes, all of which are public scopes.
  pub issue-IsUsable :
      (current : Pepper) (tenant project user : Uuid) (scopes models : List Text) (now : Time)
      (ttl : ℤ) (e : Entropy) (k : Issued KeyRecord)
      → IsFilled e
      → issue hmac current tenant project user scopes models now ttl e ≡ ok k
      → IsUsable current (add_time now ttl) tenant project user scopes models k
  unfolding parse_public_credential
  issue-IsUsable current tenant project user scopes models now ttl e k filled h =
      let make = key_made hmac current tenant project user scopes models now ttl in
      let (named, long, public, draws) =
        issue_parts current tenant project user scopes models now ttl e k h in
      let (id, p, s, eu, ep, es, made) = drawn_ok make k e draws in
      let pp = encode-IsPart p 11 (filled.public_filled p ep) in
      let ps = encode-IsPart s 31 (filled.secret_filled s es) in
      subst (IsUsable current (add_time now ttl) tenant project user scopes models) made (record {
        splits = split_credential_join public_prefix (encode p) (encode s) pp ps;
        verifies =
            key_made-verify current tenant project user scopes models now ttl id p s named long
              pp.0;
        granted = (refl, public);
        allowed = refl;
        owner = (refl, refl, refl);
      })

  -- What an administrator token is that `IssueAdmin` hands out.
  pub record IsUsableAdmin (current : Pepper) (expires : Time) (scopes : List Text)
      (k : Issued AdminTokenRecord) : Type 0 where
    pub splits : parse_admin_credential k.value ≡ ok (k.stored.public_id, k.secret)
    pub verifies :
        (now : Time)
        → verify_admin hmac k.stored k.secret current now
          ≡ (if before now expires then ok tt else err expired)
    pub granted : (k.stored.scopes ≡ scopes) × (all_scopes scope_valid scopes ≡ true)

  issue_admin_parts :
      (current : Pepper) (scopes : List Text) (now : Time) (ttl : ℤ) (e : Entropy)
      (k : Issued AdminTokenRecord)
      → issue_admin hmac current scopes now ttl e ≡ ok k
      → (32 ≤ length current.key)
        × (all_scopes scope_valid scopes ≡ true)
        × (drawn e (token_made hmac current scopes now ttl) ≡ ok k)
  unfolding issue_admin
  issue_admin_parts current scopes now ttl e k h = (ground arith, ground arith, ground arith)

  token_made-verify :
      (current : Pepper) (scopes : List Text) (now : Time) (ttl : ℤ) (id : Uuid) (p s : List ℕ)
      → 32 ≤ length current.key
      → is_empty (encode p) ≡ false
      → is_zero id ≡ false
      → (later : Time)
      → let k = token_made hmac current scopes now ttl id p s in
        verify_admin hmac k.stored k.secret current later
        ≡ (if before later (add_time now ttl) then ok tt else err expired)
  unfolding verify_admin
  token_made-verify current scopes now ttl id p s long part set later = ground (
    arith,
    text_eq_refl current.id,
    text_eq_refl (hmac current.key (encode s)),
    hmac_size current.key (encode s),
  )

  -- An administrator token that `IssueAdmin` hands out can be used: its value is split into its
  -- identifier and its secret, these verify under the same pepper at every time before the expiry and
  -- are expired from then on, and it carries the requested scopes, all of which are known scopes.
  pub issue_admin-IsUsableAdmin :
      (current : Pepper) (scopes : List Text) (now : Time) (ttl : ℤ) (e : Entropy)
      (k : Issued AdminTokenRecord)
      → IsFilled e
      → issue_admin hmac current scopes now ttl e ≡ ok k
      → IsUsableAdmin current (add_time now ttl) scopes k
  unfolding parse_admin_credential
  issue_admin-IsUsableAdmin current scopes now ttl e k filled h =
      let make = token_made hmac current scopes now ttl in
      let (long, known, draws) = issue_admin_parts current scopes now ttl e k h in
      let (id, p, s, eu, ep, es, made) = drawn_ok make k e draws in
      let pp = encode-IsPart p 11 (filled.public_filled p ep) in
      let ps = encode-IsPart s 31 (filled.secret_filled s es) in
      subst (IsUsableAdmin current (add_time now ttl) scopes) made (record {
        splits = split_credential_join admin_prefix (encode p) (encode s) pp ps;
        verifies =
            token_made-verify current scopes now ttl id p s long pp.0
              (new_uuid-nonzero e.uuid_bytes e.millis id filled.uuid_filled eu);
        granted = (refl, known);
      })
