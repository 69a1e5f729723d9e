-- ===== src/Storage/Tenants/Versions.antt =====
-- internal/storage/postgres/identity.go: the optimistic concurrency of `UpdateTenantFor`.
use urbino.Base.{
  ◌≡◌, refl, ap, ◌∙◌, sym, inl, inr, Bool, true, false, List, Option, none, some, ℕ, arith,
  Bool-cases, Option-cases, leb,
}
use urbino.Base.Text.{Text, text_eq_refl, eq_of_text_eq}
use urbino.Base.Result.{ok, err, >>=-ok, Result-cases, ok-injective}
use urbino.Domain.Uuid.{Uuid}
use urbino.Domain.Scopes.{Tenant}
use urbino.Storage.Errors.{StoreError, plain, bad_update}
use urbino.Storage.Database.{
  TenantRow, Database, Session, update_tenant, tenant_exists, exec, refuse_if, find_row,
  update_rows,
}
use urbino.Storage.Tx.{Connection, with_tx_probe}
use urbino.Storage.Tx.Atomic.{with_tx_probe-refused, checked_run-ok, IsTelling}
use urbino.Storage.Audit.{audit_row, add_audit, insert_audit_event}
use urbino.Storage.Rows.{
  unique_row, IsUnique, exists_probe-ok, exists_probe-IsTelling, find_row-holds,
  find_row-update_none, find_row-update_some, insert_audit_event-ok,
}
use urbino.Storage.Tenants.{
  max_bigint, has_id, has_version, has_update, renamed, exists_tenant, is_there, update_found,
  update_tenant_row, update_tenant_for, bad_tenant_update, exists_probe, tenant_updated,
  missing_or_stale,
}

-- The primary key of `tenants`.
abbrev pub same_tenant : TenantRow → TenantRow → Bool
same_tenant r = has_id r.tenant.id

abbrev pub UniqueTenants : List TenantRow → Type 0
UniqueTenants = IsUnique same_tenant

-- What a successful update found, and what it left.
pub record IsUpdate (actor id : Uuid) (version : ℕ) (name status : Text) (before after : Database)
    (t : Tenant) : Type 0 where
  pub row : TenantRow
  pub event : Uuid
  pub found : find_row (has_version id version) before.tenants ≡ some row
  pub shown : t ≡ (renamed name status row).tenant
  pub written :
      after
      ≡ add_audit (audit_row event (tenant_updated actor t)) (record before {
        tenants = update_rows (has_version id version) (renamed name status) before.tenants;
      })

update_found-ok :
    (actor id : Uuid) (version : ℕ) (name status : Text) (session : Session) (db : Database)
    (o : Option TenantRow) (t : Tenant) (db' : Database)
    → find_row (has_version id version) db.tenants ≡ o
    → update_found actor id version name status session db o ≡ ok (t, db')
    → IsUpdate actor id version name status db db' t
update_found-ok actor id version name status session db none t db' f h =
    let (_, _, h1) = >>=-ok (exec session tenant_exists) _ h in cc
update_found-ok actor id version name status session db (some r) t db' f h =
    let (_, _, h1) = >>=-ok (refuse_if (leb max_bigint r.tenant.version) _) _ h in
    let (d, w, h2) =
      >>=-ok
        (insert_audit_event session (tenant_updated actor (renamed name status r).tenant)
          (record db {
            tenants = update_rows (has_version id version) (renamed name status) db.tenants;
          }))
        _ h1 in
    let p = ok-injective h2 in
    let e : (renamed name status r).tenant ≡ t = ap (λ (x : Tenant × Database). x.0) p in
    let g : d ≡ db' = ap (λ (x : Tenant × Database). x.1) p in
    let (event, a) = insert_audit_event-ok session _ _ d w in
    record {
      row = r;
      event = event;
      found = f;
      shown = sym e;
      written =
          sym g
          ∙ a
          ∙ ap
              (λ (u : Tenant). add_audit (audit_row event (tenant_updated actor u)) (record db {
                tenants = update_rows (has_version id version) (renamed name status) db.tenants;
              }))
              e;
    }

pub update_tenant_row-ok :
    (actor id : Uuid) (version : ℕ) (name status : Text) (session : Session) (db : Database)
    (t : Tenant) (db' : Database)
    → update_tenant_row actor id version name status session db ≡ ok (t, db')
    → IsUpdate actor id version name status db db' t
unfolding update_tenant_row
update_tenant_row-ok actor id version name status session db t db' h =
    let (_, _, h1) = >>=-ok (exec session update_tenant) _ h in
    update_found-ok actor id version name status session db _ t db' refl h1

bumped :
    (id : Uuid) (version : ℕ) (name status : Text) (r : TenantRow)
    → has_version id version r ≡ true
    → has_version id version (renamed name status r) ≡ false
bumped id version name status r h = ground arith

marked :
    (id : Uuid) (version : ℕ) (name status : Text) (r : TenantRow)
    → has_version id version r ≡ true
    → has_update id version name status (renamed name status r) ≡ true
marked id version name status r h = ground (arith, text_eq_refl name, text_eq_refl status)

-- No row has the old version after an update.
pub IsUpdate-none :
    (actor id : Uuid) (version : ℕ) (name status : Text) (db db' : Database) (t : Tenant)
    → IsUpdate actor id version name status db db' t
    → find_row (has_version id version) db'.tenants ≡ none
IsUpdate-none actor id version name status db db' t u =
    rw (ap (λ (d : Database). d.tenants) u.written) (
      find_row-update_none (has_version id version) (renamed name status)
        (bumped id version name status) db.tenants)

has_id-same : (id : Uuid) (r : TenantRow) → has_id id r ≡ true → same_tenant r ≡ has_id id
has_id-same id r h = ap has_id (eq_of_text_eq r.tenant.id id h)

has_version-id :
    (id : Uuid) (version : ℕ) (r : TenantRow) → has_version id version r ≡ true → has_id id r ≡ true
has_version-id id version r h = ground arith

has_update-id :
    (id : Uuid) (version : ℕ) (name status : Text) (r : TenantRow)
    → has_update id version name status r ≡ true
    → has_id id r ≡ true
has_update-id id version name status r h = ground arith

-- One row does not have both versions.
not_both :
    (id : Uuid) (version : ℕ) (name status : Text) (r : TenantRow)
    → has_version id version r ≡ true
    → has_update id version name status r ≡ false
not_both id version name status r h = ground arith

-- The probe of an update tells it from the tables before it.
update_probe-IsTelling :
    (actor id : Uuid) (version : ℕ) (name status : Text) (session : Session) (db : Database)
    → UniqueTenants db.tenants
    → IsTelling
        (update_tenant_row actor id version name status session db)
        (exists_probe
          λ x found. is_there (find_row (has_update id version name status) found.tenants))
        db
update_probe-IsTelling actor id version name status session db u =
    exists_probe-IsTelling _
      (λ x found. is_there (find_row (has_update id version name status) found.tenants)) db there
      absent
  where
    there :
        (x : Tenant) (after : Database)
        → update_tenant_row actor id version name status session db ≡ ok (x, after)
        → is_there (find_row (has_update id version name status) after.tenants) ≡ true
    there x after h =
        let w = update_tenant_row-ok actor id version name status session db x after h in
        let (s, f) =
          find_row-update_some (has_version id version) (has_update id version name status)
            (renamed name status) (marked id version name status) db.tenants w.row w.found in
        rw (ap (λ (d : Database). d.tenants) w.written, f) refl

    absent :
        (x : Tenant) (after : Database)
        → update_tenant_row actor id version name status session db ≡ ok (x, after)
        → is_there (find_row (has_update id version name status) db.tenants) ≡ false
    absent x after h =
        let w = update_tenant_row-ok actor id version name status session db x after h in
        let r =
          unique_row same_tenant (has_id id) (has_version id version) (has_id-same id)
            (has_version-id id version) db.tenants w.row u w.found in
        elim (Option-cases (find_row (has_update id version name status) db.tenants)) [
          | inl e ↦ rw e refl
          | inr (s, e) ↦
              let r' =
                unique_row same_tenant (has_id id) (has_update id version name status)
                  (has_id-same id) (has_update-id id version name status) db.tenants s u e in
              let same : Path (Option TenantRow) (some w.row) (some s) = sym r ∙ r' in
              let one : w.row ≡ s = cc in
              let no : has_update id version name status w.row ≡ false =
                not_both id version name status w.row
                  (find_row-holds (has_version id version) db.tenants w.row w.found) in
              let yes : has_update id version name status s ≡ true =
                find_row-holds (has_update id version name status) db.tenants s e in
              let yes' : has_update id version name status w.row ≡ true = rw one yes in
              let both : true ≡ false = sym yes' ∙ no in cc
        ]

stale_found :
    (actor id : Uuid) (version : ℕ) (name status : Text) (session : Session) (db : Database)
    → (e : StoreError) × (update_found actor id version name status session db none ≡ err e)
stale_found actor id version name status session db =
    elim (Result-cases (exec session tenant_exists)) [
      | inl (_, f) ↦ (missing_or_stale (exists_tenant id db), rw f refl)
      | inr (e, f) ↦ (e, rw f refl)
    ]

stale_row :
    (actor id : Uuid) (version : ℕ) (name status : Text) (session : Session) (db : Database)
    → find_row (has_version id version) db.tenants ≡ none
    → (e : StoreError) × (update_tenant_row actor id version name status session db ≡ err e)
unfolding update_tenant_row
stale_row actor id version name status session db none_left =
    elim (Result-cases (exec session update_tenant)) [
      | inl (_, f) ↦
          let (e, g) = stale_found actor id version name status session db in
          (e, rw (f, none_left) g)
      | inr (e, f) ↦ (e, rw f refl)
    ]

-- After an update that succeeded, the version is the next, and the tables differ from those before
-- it by that row and one audit row. A second update that expects the same version is an error and
-- changes nothing, whoever sends it, whatever it asks for and whatever its statements meet.
pub old_version_refused :
    (c : Connection) (actor id : Uuid) (version : ℕ) (name status : Text) (db db' : Database)
    (t : Tenant)
    → UniqueTenants db.tenants
    → update_tenant_for c actor id version name status db ≡ (ok t, db')
    → (d : Connection) (other : Uuid) (name' status' : Text)
    → IsUpdate actor id version name status db db' t
      × ((e : StoreError) × (update_tenant_for d other id version name' status' db' ≡ (err e, db')))
unfolding update_tenant_for
old_version_refused c actor id version name status db db' t u h d other name' status' =
    (first, second)
  where
    first : IsUpdate actor id version name status db db' t
    first = update_tenant_row-ok actor id version name status c.session db t db' (
        exists_probe-ok c (update_tenant_row actor id version name status)
          (λ x found. is_there (find_row (has_update id version name status) found.tenants)) db t
          db' (update_probe-IsTelling actor id version name status c.session db u)
          (checked_run-ok db
            (refuse_if (bad_tenant_update id version name status) (plain bad_update))
            (with_tx_probe c (update_tenant_row actor id version name status)
              (some (
                exists_probe
                  λ x found. is_there (find_row (has_update id version name status) found.tenants)))
              db)
            t db' h))

    second :
        (e : StoreError) × (update_tenant_for d other id version name' status' db' ≡ (err e, db'))
    second =
        let gone = IsUpdate-none actor id version name status db db' t first in
        let (e, f) =
          with_tx_probe-refused d (update_tenant_row other id version name' status')
            (some (
              exists_probe
                λ x found. is_there (find_row (has_update id version name' status') found.tenants)))
            db' (λ session. stale_row other id version name' status' session db' gone) in
        elim (Bool-cases (bad_tenant_update id version name' status')) [
          | inl bad ↦ (plain bad_update, rw bad refl)
          | inr good ↦ (e, rw good f)
        ]
