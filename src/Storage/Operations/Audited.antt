-- ===== src/Storage/Operations/Audited.antt =====
-- internal/storage/postgres/identity.go: every management operation writes its audit row with its change.
use urbino.Base.{◌≡◌, refl, ap, ◌∙◌, sym, ◌∷◌, ℕ}
use urbino.Base.Text.{Text}
use urbino.Base.Result.{Result, ok, err, >>=-ok, guard-ok, ok-injective, ◌>>=◌}
use urbino.Domain.Uuid.{Uuid}
use urbino.Domain.Scopes.{Tenant, tenant_validate}
use urbino.Auth.Time.{Time}
use urbino.Auth.Keys.{AdminTokenRecord, KeyRecord}
use urbino.Storage.Errors.{StoreError, plain, bad_update, bad_key_scope}
use urbino.Storage.Database.{Database, Session, insert_tenant, exec, refuse_if}
use urbino.Storage.Audit.{AuditEvent, audit_row, insert_audit_event}
use urbino.Storage.Rows.{insert_audit_event-ok}
use urbino.Storage.Tenants.{
  tenant_ok, create_tenant_tx, insert_tenant_row, tenant_created, add_tenant, update_tenant_tx,
  update_tenant_row, bad_tenant_update, exists_tenant, unique_violation,
}
use urbino.Storage.Tenants.Versions.{update_tenant_row-ok}
use urbino.Storage.ApiKeys.{
  check_issued, create_api_key_tx, insert_key_row, revoke_api_key_tx, revoke_key_row, bad_scope,
}
use urbino.Storage.AdminTokens.{revoke_admin_token_tx, check_token_scope, revoke_token_row}
use urbino.Storage.ApiKeys.Changes.{insert_key_row-ok, revoke_key_row-ok}
use urbino.Storage.AdminTokens.Changes.{revoke_token_row-ok}
use urbino.Storage.Operations.{
  Operation, create_tenant, update_tenant_at, create_key, revoke_key_at, revoke_token_of, written,
  apply,
}

-- One audit row, of an event of the actor, and the table of the keys as it was.
pub record IsAudited (actor : Uuid) (before after : Database) : Type 0 where
  pub event : AuditEvent
  pub id : Uuid
  pub by_actor : event.actor ≡ actor
  pub appended : after.audit_events ≡ audit_row id event ∷ before.audit_events
  pub claims_kept : after.claims ≡ before.claims

written-ok :
    {X : Type 0} (r : Result StoreError (X × Database)) (db : Database)
    → written r ≡ ok db
    → (x : X) × (r ≡ ok (x, db))
written-ok (err e) db h = cc
written-ok (ok (x, d)) db h =
    let e : d ≡ db = ok-injective h in (x, ap (λ (z : Database). ok (x, z)) e)

abbrev with_value : {X : Type 0} → X → Database → Result StoreError (X × Database)
with_value x d = ok (x, d)

-- Audited, from the last statements of an operation.
IsAudited-by :
    {X : Type 0} (actor : Uuid) (session : Session) (event : AuditEvent) (x : X)
    (before d : Database) (y : X) (after : Database)
    → event.actor ≡ actor
    → d.audit_events ≡ before.audit_events
    → d.claims ≡ before.claims
    → (insert_audit_event session event d >>= with_value x) ≡ ok (y, after)
    → IsAudited actor before after
IsAudited-by {X = X} actor session event x before d y after a same kept h =
    let (w, g, h1) = >>=-ok (insert_audit_event session event d) _ h in
    let (id, e) = insert_audit_event-ok session event d w g in
    let f : w ≡ after = ap (λ (z : X × Database). z.1) (ok-injective h1) in
    let t = sym f ∙ e in
    record {
      event = event;
      id = id;
      by_actor = a;
      appended =
          ap (λ (z : Database). z.audit_events) t ∙ ap (λ rows. audit_row id event ∷ rows) same;
      claims_kept = ap (λ (z : Database). z.claims) t ∙ kept;
    }

module _ (actor : Uuid) (session : Session) (db after : Database) where
  insert_tenant_row-IsAudited :
      (t u : Tenant)
      → insert_tenant_row actor t session db ≡ ok (u, after)
      → IsAudited actor db after
  unfolding insert_tenant_row
  insert_tenant_row-IsAudited t u h =
      let (_, _, h1) = >>=-ok (exec session insert_tenant) _ h in
      let (_, _, h2) = >>=-ok (refuse_if (exists_tenant t.id db) unique_violation) _ h1 in
      IsAudited-by actor session (tenant_created actor t) t db (add_tenant session t db) u after
        refl refl refl h2

  update_tenant_row-IsAudited :
      (id : Uuid) (version : ℕ) (name status : Text) (t : Tenant)
      → update_tenant_row actor id version name status session db ≡ ok (t, after)
      → IsAudited actor db after
  update_tenant_row-IsAudited id version name status t h =
      let u = update_tenant_row-ok actor id version name status session db t after h in
      record {
        event = _;
        id = u.event;
        by_actor = refl;
        appended = ap (λ (z : Database). z.audit_events) u.written;
        claims_kept = ap (λ (z : Database). z.claims) u.written;
      }

  insert_key_row-IsAudited :
      (r : KeyRecord) (u : Unit {0})
      → insert_key_row actor r session db ≡ ok (u, after)
      → IsAudited actor db after
  insert_key_row-IsAudited r u h =
      let c = insert_key_row-ok actor r session db u after h in
      record {
        event = _;
        id = c.event;
        by_actor = refl;
        appended = ap (λ (z : Database). z.audit_events) c.written;
        claims_kept = ap (λ (z : Database). z.claims) c.written;
      }

  revoke_key_row-IsAudited :
      (tenant project : Uuid) (public_id : Text) (now : Time) (r : KeyRecord)
      → revoke_key_row actor tenant project public_id now session db ≡ ok (r, after)
      → IsAudited actor db after
  revoke_key_row-IsAudited tenant project public_id now r h =
      let c = revoke_key_row-ok actor tenant project public_id now session db r after h in
      record {
        event = _;
        id = c.event;
        by_actor = refl;
        appended = ap (λ (z : Database). z.audit_events) c.written;
        claims_kept = ap (λ (z : Database). z.claims) c.written;
      }

  revoke_token_row-IsAudited :
      (principal : Uuid) (public_id : Text) (now : Time) (r : AdminTokenRecord)
      → revoke_token_row actor principal public_id now session db ≡ ok (r, after)
      → IsAudited actor db after
  revoke_token_row-IsAudited principal public_id now r h =
      let c = revoke_token_row-ok actor principal public_id now session db r after h in
      record {
        event = _;
        id = c.event;
        by_actor = refl;
        appended = ap (λ (z : Database). z.audit_events) c.written;
        claims_kept = ap (λ (z : Database). z.claims) c.written;
      }

-- Every management operation that succeeds has added exactly one audit row to the log, an event of its
-- actor, in the transaction of its change, and has left the table of idempotency keys alone.
pub apply-IsAudited :
    (actor : Uuid) (op : Operation) (session : Session) (db after : Database)
    → apply actor op session db ≡ ok after
    → IsAudited actor db after
unfolding apply create_tenant_tx update_tenant_tx create_api_key_tx revoke_api_key_tx
    revoke_admin_token_tx
apply-IsAudited actor (create_tenant t) session db after h =
    let (u, g) = written-ok _ after h in
    let (_, _, g1) = >>=-ok (tenant_ok (tenant_validate t)) _ g in
    insert_tenant_row-IsAudited actor session db after t u g1
apply-IsAudited actor (update_tenant_at id version name status) session db after h =
    let (t, g) = written-ok _ after h in
    let (_, g1) = guard-ok (bad_tenant_update id version name status) (plain bad_update) _ g in
    update_tenant_row-IsAudited actor session db after id version name status t g1
apply-IsAudited actor (create_key issued) session db after h =
    let (u, g) = written-ok _ after h in
    let (_, _, g1) = >>=-ok (check_issued issued) _ g in
    insert_key_row-IsAudited actor session db after issued.stored u g1
apply-IsAudited actor (revoke_key_at tenant project public_id now) session db after h =
    let (r, g) = written-ok _ after h in
    let (_, g1) = guard-ok (bad_scope tenant project public_id) (plain bad_key_scope) _ g in
    revoke_key_row-IsAudited actor session db after tenant project public_id now r g1
apply-IsAudited actor (revoke_token_of principal public_id now) session db after h =
    let (r, g) = written-ok _ after h in
    let (_, _, g1) = >>=-ok (check_token_scope principal public_id) _ g in
    revoke_token_row-IsAudited actor session db after principal public_id now r g1
