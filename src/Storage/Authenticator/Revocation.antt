-- ===== src/Storage/Authenticator/Revocation.antt =====
-- internal/storage/postgres/authenticator.go and identity.go: a revoked key at the next request.
use urbino.Base.{
  ◌≡◌, refl, ap, ◌∙◌, sym, inl, inr, Bool, true, false, ◌&&◌, List, Option, none, some, ℕ, arith,
  Bool-cases, Option-cases,
}
use urbino.Base.Text.{Text, text_eq, eq_of_text_eq, text_eq_refl}
use urbino.Base.Result.{ok, err, Result-cases}
use urbino.Domain.Uuid.{Uuid}
use urbino.Auth.Errors.{invalid_credential}
use urbino.Auth.Time.{Time}
use urbino.Auth.Credential.{parse_public_credential}
use urbino.Auth.Headers.{HeaderCredential, public_listener, parse_headers}
use urbino.Auth.Keys.{KeyRecord, Pepper, status_active, status_revoked}
use urbino.Auth.Service.{Request}
use urbino.Storage.Errors.{StoreError, plain, no_rows, classify_error, is_error}
use urbino.Storage.Database.{KeyRow, Database, Session, select_key, find_row}
use urbino.Storage.Tx.{Connection}
use urbino.Storage.Rows.{unique_row, find_row-holds, find_row-update_some, update_rows-IsUnique}
use urbino.Storage.ApiKeys.{has_public_id, active_in_scope, revoked_key, revoke_api_key_for}
use urbino.Storage.ApiKeys.Changes.{IsRevokedKey}
use urbino.Storage.ApiKeys.Revoked.{
  UniqueKeys, same_key, has_public_id-same, not_active, revoke_api_key_for-ok, IsRevokedKey-none,
  revoke_api_key_for-gone,
}
use urbino.Storage.KeyReads.{is_usable_row, has_active_owner}
use urbino.Storage.Authenticator.{
  Rejection, auth_error, database_error, is_no_rows, scanned, lookup_public, looked_up,
  authenticate_public,
}

-- The test for the row that a revocation leaves.
abbrev is_revoked_row : Text → KeyRow → Bool
is_revoked_row public_id k = has_public_id public_id k && text_eq k.stored.status status_revoked

revoked_row-has_public_id :
    (public_id : Text) (k : KeyRow)
    → is_revoked_row public_id k ≡ true
    → has_public_id public_id k ≡ true
revoked_row-has_public_id public_id k h = ground arith

left_revoked :
    (tenant project : Uuid) (public_id : Text) (now : Time) (k : KeyRow)
    → active_in_scope tenant project public_id k ≡ true
    → is_revoked_row public_id (revoked_key now k) ≡ true
left_revoked tenant project public_id now k h = ground (arith, text_eq_refl status_revoked)

usable-has_public_id :
    (public_id : Text) (db : Database) (k : KeyRow)
    → is_usable_row public_id db k ≡ true
    → has_public_id public_id k ≡ true
usable-has_public_id public_id db k h = ground arith

-- A revoked row is not usable.
revoked_unusable :
    (public_id : Text) (db : Database) (k : KeyRow)
    → is_revoked_row public_id k ≡ true
    → is_usable_row public_id db k ≡ false
revoked_unusable public_id db k h =
    let a : text_eq k.stored.status status_revoked ≡ true = ground arith in
    let s = eq_of_text_eq k.stored.status status_revoked a in
    rw s (none_usable (has_public_id public_id k))
  where
    none_usable :
        (b : Bool) → (b && text_eq status_revoked status_active && has_active_owner db k) ≡ false
    none_usable true = rw not_active refl
    none_usable false = refl

no_usable_row :
    (actor tenant project : Uuid) (public_id : Text) (now : Time) (db db' : Database)
    (r : KeyRecord)
    → UniqueKeys db
    → IsRevokedKey actor tenant project public_id now db db' r
    → find_row (is_usable_row public_id db') db'.api_keys ≡ none
no_usable_row actor tenant project public_id now db db' r u w =
    let rows = ap (λ (d : Database). d.api_keys) w.written in
    let unique : UniqueKeys db' = rw rows (
      update_rows-IsUnique same_key (active_in_scope tenant project public_id) (revoked_key now)
        (λ k. refl) (λ k s. refl) db.api_keys u) in
    let (s, f) =
      find_row-update_some (active_in_scope tenant project public_id) (is_revoked_row public_id)
        (revoked_key now) (left_revoked tenant project public_id now) db.api_keys w.row w.found in
    let f' : find_row (is_revoked_row public_id) db'.api_keys ≡ some s = rw rows f in
    let key =
      unique_row same_key (has_public_id public_id) (is_revoked_row public_id)
        (has_public_id-same public_id) (revoked_row-has_public_id public_id) db'.api_keys s unique
        f' in
    elim (Option-cases (find_row (is_usable_row public_id db') db'.api_keys)) [
      | inl e ↦ e
      | inr (t, e) ↦
          let key' =
            unique_row same_key (has_public_id public_id) (is_usable_row public_id db')
              (has_public_id-same public_id) (usable-has_public_id public_id db') db'.api_keys t
              unique e in
          let same : Path (Option KeyRow) (some s) (some t) = sym key ∙ key' in
          let one : s ≡ t = cc in
          let no =
            revoked_unusable public_id db' s
              (find_row-holds (is_revoked_row public_id) db'.api_keys s f') in
          let yes : is_usable_row public_id db' s ≡ true =
            rw one (find_row-holds (is_usable_row public_id db') db'.api_keys t e) in
          let both : true ≡ false = sym yes ∙ no in cc
    ]

lookup_gone :
    (public_id : Text) (session : Session) (db : Database)
    → find_row (is_usable_row public_id db) db.api_keys ≡ none
    → (e : StoreError) × (lookup_public public_id session db ≡ err e)
unfolding lookup_public
lookup_gone public_id session db gone = elim (Result-cases (scanned session select_key)) [
  | inl (_, f) ↦ (plain no_rows, rw (f, gone) refl)
  | inr (e, f) ↦ (e, rw f refl)
]

rejected : {X : Type 0} (e : StoreError) → (x : Rejection) × (looked_up {X = X} (err e) ≡ err x)
rejected {X = X} e = elim (Bool-cases (is_error is_no_rows e)) [
  | inl i ↦ (auth_error invalid_credential, rw i refl)
  | inr i ↦ (database_error (classify_error e), rw i refl)
]

-- A key whose revocation has succeeded is refused at every later request of every serving instance,
-- whatever its secret, the pepper and the clock are and whatever the query of the row meets, and a
-- second revocation is an error and changes nothing. The condition is that no two rows share a public
-- identifier, which the database's unique constraint states.
pub revocation_refuses_key :
    (hmac : List ℕ → Text → List ℕ) (c : Connection) (actor tenant project : Uuid)
    (public_id : Text) (now : Time) (db db' : Database) (r : KeyRecord)
    → UniqueKeys db
    → revoke_api_key_for c actor tenant project public_id now db ≡ (ok r, db')
    → (pepper : Pepper) (session : Session) (req : Request) (later : Time) (cred : HeaderCredential)
      (secret : Text)
    → parse_headers req.header req.query public_listener ≡ ok cred
    → parse_public_credential cred.value ≡ ok (public_id, secret)
    → (d : Connection) (other : Uuid)
    → ((x : Rejection) × (authenticate_public hmac pepper session db' req later ≡ err x))
      × ((e : StoreError) × (revoke_api_key_for d other tenant project public_id later db'
            ≡ (err e, db')))
unfolding authenticate_public
revocation_refuses_key hmac c actor tenant project public_id now db db' r u h pepper session req
      later cred secret p q d other =
    let w = revoke_api_key_for-ok actor tenant project public_id now c db db' r u h in
    let (e, f) =
      lookup_gone public_id session db'
        (no_usable_row actor tenant project public_id now db db' r u w) in
    let (x, g) = rejected {X = KeyRecord} e in
    (
      (x, rw (p, q, f, g) refl),
      revoke_api_key_for-gone other tenant project public_id later d db'
          (IsRevokedKey-none actor tenant project public_id now db db' r w),
    )
