-- ===== src/Storage/ApiKeys/Revoked.antt =====
-- internal/storage/postgres/identity.go: a revocation of a public key and its probe, and what a second
-- revocation finds.
use urbino.Base.{
  ◌≡◌, refl, ap, ◌∙◌, sym, inl, inr, Bool, true, false, ◌&&◌, Option, none, some, arith, Bool-cases,
  Option-cases,
}
use urbino.Base.Text.{Text, text_eq, eq_of_text_eq, text_eq_refl}
use urbino.Base.Result.{ok, err, Result-cases}
use urbino.Domain.Uuid.{Uuid}
use urbino.Auth.Time.{Time}
use urbino.Auth.Keys.{KeyRecord, status_active, status_revoked}
use urbino.Storage.Errors.{StoreError, plain, not_found, bad_key_scope}
use urbino.Storage.Database.{KeyRow, Database, Session, revoke_key, exec, refuse_if, find_row}
use urbino.Storage.Tx.{Connection, with_tx_probe}
use urbino.Storage.Tx.Atomic.{IsTelling, checked_run-ok, with_tx_probe-refused}
use urbino.Storage.Rows.{
  IsUnique, unique_row, exists_probe-IsTelling, exists_probe-ok, find_row-holds,
  find_row-update_none, find_row-update_some,
}
use urbino.Storage.Tenants.{is_there, exists_probe}
use urbino.Storage.ApiKeys.{
  has_public_id, in_scope, active_in_scope, bad_scope, revoked_key, revoke_key_row,
  revoke_api_key_for,
}
use urbino.Storage.ApiKeys.Changes.{IsRevokedKey, revoke_key_row-ok}

-- The unique `public_id` of `api_keys`.
abbrev pub same_key : KeyRow → KeyRow → Bool
same_key r = has_public_id r.stored.public_id

abbrev pub UniqueKeys : Database → Type 0
UniqueKeys db = IsUnique same_key db.api_keys

pub has_public_id-same :
    (public_id : Text) (r : KeyRow)
    → has_public_id public_id r ≡ true
    → same_key r ≡ has_public_id public_id
has_public_id-same public_id r h = ap has_public_id (eq_of_text_eq r.stored.public_id public_id h)

-- The test of the probe.
abbrev revoked_in_scope : (tenant project : Uuid) → Text → KeyRow → Bool
revoked_in_scope tenant project public_id k =
    in_scope tenant project public_id k && text_eq k.stored.status status_revoked

active-has_public_id :
    (tenant project : Uuid) (public_id : Text) (k : KeyRow)
    → active_in_scope tenant project public_id k ≡ true
    → has_public_id public_id k ≡ true
active-has_public_id tenant project public_id k h = ground arith

revoked-has_public_id :
    (tenant project : Uuid) (public_id : Text) (k : KeyRow)
    → revoked_in_scope tenant project public_id k ≡ true
    → has_public_id public_id k ≡ true
revoked-has_public_id tenant project public_id k h = ground arith

pub not_active : text_eq status_revoked status_active ≡ false
unfolding text_eq
not_active = refl

ended :
    (tenant project : Uuid) (public_id : Text) (now : Time) (k : KeyRow)
    → active_in_scope tenant project public_id k ≡ true
    → active_in_scope tenant project public_id (revoked_key now k) ≡ false
ended tenant project public_id now k h = ground (arith, not_active)

marked :
    (tenant project : Uuid) (public_id : Text) (now : Time) (k : KeyRow)
    → active_in_scope tenant project public_id k ≡ true
    → revoked_in_scope tenant project public_id (revoked_key now k) ≡ true
marked tenant project public_id now k h = ground (arith, text_eq_refl status_revoked)

active_apart : text_eq status_active status_revoked ≡ false
unfolding text_eq
active_apart = refl

two_statuses :
    (tenant project : Uuid) (public_id : Text) (k : KeyRow)
    → active_in_scope tenant project public_id k ≡ true
    → revoked_in_scope tenant project public_id k ≡ false
two_statuses tenant project public_id k h =
    let a : text_eq k.stored.status status_active ≡ true = ground arith in
    let s = eq_of_text_eq k.stored.status status_active a in
    rw s (other_status (in_scope tenant project public_id k))
  where
    other_status : (b : Bool) → (b && text_eq status_active status_revoked) ≡ false
    other_status true = active_apart
    other_status false = refl

module _ (actor tenant project : Uuid) (public_id : Text) (now : Time) where
  revoke_probe-IsTelling :
      (session : Session) (db : Database)
      → UniqueKeys db
      → IsTelling
          (revoke_key_row actor tenant project public_id now session db)
          (exists_probe λ x found.
            is_there (find_row (revoked_in_scope tenant project public_id) found.api_keys))
          db
  revoke_probe-IsTelling session db u =
      exists_probe-IsTelling _
        (λ x found. is_there (find_row (revoked_in_scope tenant project public_id) found.api_keys))
        db there absent
    where
      there :
          (x : KeyRecord) (after : Database)
          → revoke_key_row actor tenant project public_id now session db ≡ ok (x, after)
          → is_there (find_row (revoked_in_scope tenant project public_id) after.api_keys) ≡ true
      there x after h =
          let w = revoke_key_row-ok actor tenant project public_id now session db x after h in
          let (s, f) =
            find_row-update_some (active_in_scope tenant project public_id)
              (revoked_in_scope tenant project public_id) (revoked_key now)
              (marked tenant project public_id now) db.api_keys w.row w.found in
          rw (ap (λ (d : Database). d.api_keys) w.written, f) refl

      absent :
          (x : KeyRecord) (after : Database)
          → revoke_key_row actor tenant project public_id now session db ≡ ok (x, after)
          → is_there (find_row (revoked_in_scope tenant project public_id) db.api_keys) ≡ false
      absent x after h =
          let w = revoke_key_row-ok actor tenant project public_id now session db x after h in
          let r =
            unique_row same_key (has_public_id public_id) (active_in_scope tenant project public_id)
              (has_public_id-same public_id) (active-has_public_id tenant project public_id)
              db.api_keys w.row u w.found in
          elim (Option-cases (find_row (revoked_in_scope tenant project public_id) db.api_keys)) [
            | inl e ↦ rw e refl
            | inr (s, e) ↦
                let r' =
                  unique_row same_key (has_public_id public_id)
                    (revoked_in_scope tenant project public_id) (has_public_id-same public_id)
                    (revoked-has_public_id tenant project public_id) db.api_keys s u e in
                let same : Path (Option KeyRow) (some w.row) (some s) = sym r ∙ r' in
                let one : w.row ≡ s = cc in
                let no = two_statuses tenant project public_id w.row (
                  find_row-holds (active_in_scope tenant project public_id) db.api_keys w.row
                    w.found) in
                let yes : revoked_in_scope tenant project public_id w.row ≡ true =
                  rw one
                    (find_row-holds (revoked_in_scope tenant project public_id) db.api_keys s e) in
                let both : true ≡ false = sym yes ∙ no in cc
          ]

  -- A success has revoked the row that it found.
  pub revoke_api_key_for-ok :
      (c : Connection) (db db' : Database) (r : KeyRecord)
      → UniqueKeys db
      → revoke_api_key_for c actor tenant project public_id now db ≡ (ok r, db')
      → IsRevokedKey actor tenant project public_id now db db' r
  unfolding revoke_api_key_for
  revoke_api_key_for-ok c db db' r u h =
      revoke_key_row-ok actor tenant project public_id now c.session db r db' (
        exists_probe-ok c (revoke_key_row actor tenant project public_id now)
          (λ x found.
            is_there (find_row (revoked_in_scope tenant project public_id) found.api_keys))
          db r db' (revoke_probe-IsTelling c.session db u)
          (checked_run-ok db (refuse_if (bad_scope tenant project public_id) (plain bad_key_scope))
            (with_tx_probe c (revoke_key_row actor tenant project public_id now)
              (some (
                exists_probe λ x found.
                  is_there (find_row (revoked_in_scope tenant project public_id) found.api_keys)))
              db)
            r db' h))

  pub IsRevokedKey-none :
      (db db' : Database) (r : KeyRecord)
      → IsRevokedKey actor tenant project public_id now db db' r
      → find_row (active_in_scope tenant project public_id) db'.api_keys ≡ none
  IsRevokedKey-none db db' r w = rw (ap (λ (d : Database). d.api_keys) w.written) (
      find_row-update_none (active_in_scope tenant project public_id) (revoked_key now)
        (ended tenant project public_id now) db.api_keys)

  gone_row :
      (session : Session) (db : Database)
      → find_row (active_in_scope tenant project public_id) db.api_keys ≡ none
      → (e : StoreError) × (revoke_key_row actor tenant project public_id now session db ≡ err e)
  unfolding revoke_key_row
  gone_row session db gone = elim (Result-cases (exec session revoke_key)) [
    | inl (_, f) ↦ (plain not_found, rw (f, gone) refl)
    | inr (e, f) ↦ (e, rw f refl)
  ]

  -- A revocation that finds no active key is an error, and writes nothing.
  pub revoke_api_key_for-gone :
      (d : Connection) (db : Database)
      → find_row (active_in_scope tenant project public_id) db.api_keys ≡ none
      → (e : StoreError) × (revoke_api_key_for d actor tenant project public_id now db
          ≡ (err e, db))
  unfolding revoke_api_key_for
  revoke_api_key_for-gone d db gone =
      let (e, f) =
        with_tx_probe-refused d (revoke_key_row actor tenant project public_id now)
          (some (
            exists_probe λ x found.
              is_there (find_row (revoked_in_scope tenant project public_id) found.api_keys)))
          db (λ session. gone_row session db gone) in
      elim (Bool-cases (bad_scope tenant project public_id)) [
        | inl bad ↦ (plain bad_key_scope, rw bad refl)
        | inr good ↦ (e, rw good f)
      ]
