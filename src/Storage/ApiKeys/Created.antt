-- ===== src/Storage/ApiKeys/Created.antt =====
-- internal/storage/postgres/identity.go and authenticator.go: a key that `CreateAPIKeyFor` has stored.
use urbino.Base.{
  ◌≡◌, refl, ap, ◌∙◌, inl, inr, Bool, true, false, ◌&&◌, List, Option, none, some, arith,
  Bool-cases,
}
use urbino.Base.Text.{Text, text_eq, text_eq_refl}
use urbino.Base.Result.{Result, ok, err, >>=-ok, guard-ok}
use urbino.Domain.Uuid.{Uuid}
use urbino.Auth.Keys.{KeyRecord, Issued, all_scopes, is_public_scope, is_nil}
use urbino.Storage.Errors.{StoreError, plain, bad_key_record, bad_key_scopes}
use urbino.Storage.Database.{KeyRow, Database, Session, find_row}
use urbino.Storage.Tx.{Connection, with_tx_probe}
use urbino.Storage.Tx.Atomic.{IsTelling, checked_run-ok, checked_run-passed}
use urbino.Storage.Rows.{
  refuse_if-ok, exists_probe-IsTelling, exists_probe-ok, find_row-append, find_row-narrower,
}
use urbino.Storage.Tenants.{is_there, exists_probe}
use urbino.Storage.ApiKeys.{
  check_issued, validate_public_key_scopes, bad_issued, has_public_id, clashes, key_row,
  insert_key_row, create_api_key_for,
}
use urbino.Storage.Found.{find_row-none_passes}
use urbino.Storage.ApiKeys.Stored.{IsKeptKey, member-IsOwned, complete_of, row_of_issued}
use urbino.Storage.ApiKeys.Changes.{insert_key_row-ok}

-- The test of the probe.
abbrev is_issued : KeyRecord → KeyRow → Bool
is_issued r k =
    text_eq k.stored.id r.id && text_eq k.stored.tenant r.tenant && has_public_id r.public_id k

none_there : {A : Type 0} (o : Option A) → is_there o ≡ false → o ≡ none
none_there none h = refl
none_there (some a) h = cc

issued-clashes : (r : KeyRecord) (k : KeyRow) → is_issued r k ≡ true → clashes r k ≡ true
issued-clashes r k h = ground arith

public_id-clashes :
    (r : KeyRecord) (k : KeyRow) → has_public_id r.public_id k ≡ true → clashes r k ≡ true
public_id-clashes r k h = ground arith

row_is_issued : (session : Session) (r : KeyRecord) → is_issued r (key_row session r) ≡ true
row_is_issued session r =
    rw (text_eq_refl r.id, text_eq_refl r.tenant, text_eq_refl r.public_id) refl

public_scopes :
    (scopes : List Text)
    → validate_public_key_scopes scopes ≡ ok tt
    → all_scopes is_public_scope scopes ≡ true
unfolding validate_public_key_scopes
public_scopes scopes h =
    let (_, g) = guard-ok (is_nil scopes) (plain bad_key_scopes) _ h in
    elim (Bool-cases (all_scopes is_public_scope scopes)) [
      | inl e ↦ e
      | inr e ↦
          let g' : Path (Result StoreError (Unit {0})) (err (plain bad_key_scopes)) (ok tt) =
            rw (← g, e) refl in
          cc
    ]

module _ (actor : Uuid) (r : KeyRecord) where
  insert_probe-IsTelling :
      (session : Session) (db : Database)
      → IsTelling
          (insert_key_row actor r session db)
          (exists_probe λ x found. is_there (find_row (is_issued r) found.api_keys))
          db
  insert_probe-IsTelling session db =
      exists_probe-IsTelling _ (λ x found. is_there (find_row (is_issued r) found.api_keys)) db
        there absent
    where
      there :
          (x : Unit {0}) (after : Database)
          → insert_key_row actor r session db ≡ ok (x, after)
          → is_there (find_row (is_issued r) after.api_keys) ≡ true
      there x after h =
          let w = insert_key_row-ok actor r session db x after h in
          let (s, f) =
            find_row-append (is_issued r) db.api_keys (key_row session r)
              (row_is_issued session r) in
          rw (ap (λ (d : Database). d.api_keys) w.written, f) refl

      absent :
          (x : Unit {0}) (after : Database)
          → insert_key_row actor r session db ≡ ok (x, after)
          → is_there (find_row (is_issued r) db.api_keys) ≡ false
      absent x after h =
          let w = insert_key_row-ok actor r session db x after h in
          let gone = none_there (find_row (clashes r) db.api_keys) w.fresh in
          rw (find_row-narrower (clashes r) (is_issued r) (issued-clashes r) db.api_keys gone) refl

-- What a successful creation of a key says, with its commit and its probe: the owner is an active user
-- and an active member of the project of the key, no identifier of the record is zero, its digest has 32
-- bytes, its secret and value are not empty, its scopes are inference scopes, and no row had its public
-- identifier. Afterwards the table has one row more, which is the issued record, active, not revoked,
-- and with its expiry in whole microseconds.
pub created_key_stored :
    (c : Connection) (actor : Uuid) (issued : Issued KeyRecord) (db db' : Database)
    → create_api_key_for c actor issued db ≡ (ok tt, db')
    → IsKeptKey issued db db'
unfolding create_api_key_for
created_key_stored c actor issued db db' h =
    let r = issued.stored in
    let run =
      with_tx_probe c (insert_key_row actor r)
        (some (exists_probe λ x found. is_there (find_row (is_issued r) found.api_keys))) db in
    let passed = checked_run-passed db (check_issued issued) run tt db' h in
    let (_, scopes, complete) = >>=-ok (validate_public_key_scopes r.scopes) _ passed in
    let w = insert_key_row-ok actor r c.session db tt db' (
      exists_probe-ok c (insert_key_row actor r)
        (λ x found. is_there (find_row (is_issued r) found.api_keys)) db tt db'
        (insert_probe-IsTelling actor r c.session db)
        (checked_run-ok db (check_issued issued) run tt db' h)) in
    let gone = none_there (find_row (clashes r) db.api_keys) w.fresh in
    let new =
      find_row-narrower (clashes r) (has_public_id r.public_id) (public_id-clashes r) db.api_keys
        gone in
    record {
      owned = member-IsOwned r db w.member;
      complete =
          complete_of issued (refuse_if-ok (bad_issued issued) (plain bad_key_record) complete)
            (public_scopes r.scopes scopes);
      fresh = λ k stands e.
          let other = find_row-none_passes (has_public_id r.public_id) k db.api_keys stands new in
          let same : has_public_id r.public_id k ≡ true =
            ap (λ s. text_eq s r.public_id) e ∙ text_eq_refl r.public_id in
          cc;
      row = key_row c.session r;
      added = ap (λ (d : Database). d.api_keys) w.written;
      kept = row_of_issued c.session r;
    }
