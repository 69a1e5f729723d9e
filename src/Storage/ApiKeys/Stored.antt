-- ===== src/Storage/ApiKeys/Stored.antt =====
-- internal/storage/postgres/identity.go: what a new row of `api_keys` holds, and what was asked of it.
use urbino.Base.{
  ◌≡◌, ◌≢◌, refl, ap, ◌∙◌, ◌⊎◌, ◌-◌, ◌%◌, true, false, List, [], ◌∷◌, ◌++◌, none, arith, length,
}
use urbino.Base.Text.{
  Text, codes, text_eq, text_eq_refl, text_eq_iff, eq_of_text_eq, is_empty, All, IsIn,
}
use urbino.Domain.Uuid.{Uuid, zero_uuid, is_zero}
use urbino.Auth.Keys.{KeyRecord, Issued, status_active, all_scopes, is_public_scope}
use urbino.Storage.Database.{KeyRow, MemberRow, UserRow, Database, Session, to_micros}
use urbino.Storage.Found.{find_row-IsSelected}
use urbino.Storage.ApiKeys.{active_membership, active_user, is_member, bad_issued, key_row}

-- The scopes that a gateway key may have.
abbrev pub IsInference : Text → Type 0
IsInference s = (s ≡ codes "models:read") ⊎ (s ≡ codes "models:invoke") ⊎ (s ≡ codes "usage:read")

each-IsInference :
    (scopes : List Text) → all_scopes is_public_scope scopes ≡ true → All IsInference scopes
unfolding all_scopes is_public_scope
each-IsInference [] h = tt
each-IsInference (s ∷ scopes) h = (
  ground (
    arith,
    h,
    text_eq_iff s (codes "models:read"),
    text_eq_iff s (codes "models:invoke"),
    text_eq_iff s (codes "usage:read"),
  ),
  each-IsInference scopes (ground (arith, h)),
)

-- The owner of the key in the tables.
pub record IsOwned (r : KeyRecord) (db : Database) : Type 0 where
  pub member : MemberRow
  pub member_stands : IsIn member db.members
  pub member_of :
      (member.tenant ≡ r.tenant)
      × (member.project ≡ r.project)
      × (member.user ≡ r.user)
      × (member.status ≡ codes "active")
  pub user : UserRow
  pub user_stands : IsIn user db.users
  pub user_is : (user.tenant ≡ r.tenant) × (user.id ≡ r.user) × (user.status ≡ codes "active")

-- The record that was issued, with everything that is asked of it.
pub record IsComplete (issued : Issued KeyRecord) : Type 0 where
  pub secret : (is_empty issued.secret ≡ false) × (is_empty issued.value ≡ false)
  pub identified :
      (issued.stored.id ≢ zero_uuid)
      × (issued.stored.tenant ≢ zero_uuid)
      × (issued.stored.project ≢ zero_uuid)
      × (issued.stored.user ≢ zero_uuid)
  pub digest : length issued.stored.digest ≡ 32
  pub scopes : All IsInference issued.stored.scopes

-- The row of a key, field by field.
pub record IsRowOf (r : KeyRecord) (k : KeyRow) : Type 0 where
  pub identifiers : (k.stored.id ≡ r.id) × (k.stored.public_id ≡ r.public_id)
  pub owner :
      (k.stored.tenant ≡ r.tenant) × (k.stored.project ≡ r.project) × (k.stored.user ≡ r.user)
  pub secret : (k.stored.digest ≡ r.digest) × (k.stored.pepper_id ≡ r.pepper_id)
  pub granted : (k.stored.scopes ≡ r.scopes) × (k.stored.models ≡ r.models)
  pub active : (k.stored.status ≡ codes "active") × (k.stored.revoked_at ≡ none)
  pub expires : k.stored.expires_at ≡ r.expires_at - r.expires_at % 1000
  pub version : k.stored.auth_version ≡ r.auth_version

pub record IsKeptKey (issued : Issued KeyRecord) (db db' : Database) : Type 0 where
  pub owned : IsOwned issued.stored db
  pub complete : IsComplete issued
  pub fresh : (k : KeyRow) → IsIn k db.api_keys → k.stored.public_id ≢ issued.stored.public_id
  pub row : KeyRow
  pub added : db'.api_keys ≡ db.api_keys ++ row ∷ []
  pub kept : IsRowOf issued.stored row

pub member-IsOwned :
    (r : KeyRecord) (db : Database) → is_member r.tenant r.project r.user db ≡ true → IsOwned r db
member-IsOwned r db h =
    let m =
      find_row-IsSelected (active_membership r.tenant r.project r.user) db.members
        (ground (arith, h)) in
    let u = find_row-IsSelected (active_user r.tenant r.user) db.users (ground (arith, h)) in
    let p = m.passes in
    let q = u.passes in
    record {
      member = m.row;
      member_stands = m.stands;
      member_of = (
        eq_of_text_eq m.row.tenant r.tenant (ground (arith, p)),
        eq_of_text_eq m.row.project r.project (ground (arith, p)),
        eq_of_text_eq m.row.user r.user (ground (arith, p)),
        eq_of_text_eq m.row.status status_active (ground (arith, p)),
      );
      user = u.row;
      user_stands = u.stands;
      user_is = (
        eq_of_text_eq u.row.tenant r.tenant (ground (arith, q)),
        eq_of_text_eq u.row.id r.user (ground (arith, q)),
        eq_of_text_eq u.row.status status_active (ground (arith, q)),
      );
    }

not_zero : (id : Uuid) → is_zero id ≡ false → id ≢ zero_uuid
unfolding is_zero
not_zero id h e =
    let same : text_eq id zero_uuid ≡ true =
      ap (λ z. text_eq z zero_uuid) e ∙ text_eq_refl zero_uuid in
    cc

pub complete_of :
    (issued : Issued KeyRecord)
    → bad_issued issued ≡ false
    → all_scopes is_public_scope issued.stored.scopes ≡ true
    → IsComplete issued
complete_of issued h scopes = record {
  secret = (ground (arith, h), ground (arith, h));
  identified = (
    not_zero issued.stored.id (ground (arith, h)),
    not_zero issued.stored.tenant (ground (arith, h)),
    not_zero issued.stored.project (ground (arith, h)),
    not_zero issued.stored.user (ground (arith, h)),
  );
  digest = ground (arith, h);
  scopes = each-IsInference issued.stored.scopes scopes;
}

pub row_of_issued : (session : Session) (r : KeyRecord) → IsRowOf r (key_row session r)
unfolding to_micros
row_of_issued session r = record {
  identifiers = (refl, refl);
  owner = (refl, refl, refl);
  secret = (refl, refl);
  granted = (refl, refl);
  active = (refl, refl);
  expires = refl;
  version = refl;
}
