-- ===== src/Storage/ApiKeys/Changes.antt =====
-- internal/storage/postgres/identity.go: what the creation and the revocation of a public key write.
use urbino.Base.{◌≡◌, ap, ◌∙◌, sym, true, false, not, some, leb, arith}
use urbino.Base.Text.{Text, codes}
use urbino.Base.Result.{ok, >>=-ok, of_option-ok, of_option, ok-injective}
use urbino.Domain.Uuid.{Uuid}
use urbino.Auth.Time.{Time}
use urbino.Auth.Keys.{KeyRecord}
use urbino.Storage.Errors.{plain, not_found, membership_required}
use urbino.Storage.Database.{
  KeyRow, Database, Session, member_exists, insert_key, revoke_key, exec, refuse_if, find_row,
  update_rows,
}
use urbino.Storage.Audit.{audit_row, add_audit, insert_audit_event}
use urbino.Storage.Rows.{insert_audit_event-ok, refuse_if-ok}
use urbino.Storage.Tenants.{max_bigint, numeric_overflow, unique_violation, is_there}
use urbino.Storage.ApiKeys.{
  is_member, active_project_member, clashes, key_row, add_key, key_event, insert_key_row,
  active_in_scope, revoked_key, revoke_key_row,
}

pub record IsInsertedKey (actor : Uuid) (r : KeyRecord) (session : Session)
    (before after : Database) : Type 0 where
  pub event : Uuid
  pub member : is_member r.tenant r.project r.user before ≡ true
  pub fresh : is_there (find_row (clashes r) before.api_keys) ≡ false
  pub written :
      after
      ≡ add_audit
          (audit_row event (key_event (codes "api_key.create") actor (key_row session r).stored))
          (add_key (key_row session r) before)

pub insert_key_row-ok :
    (actor : Uuid) (r : KeyRecord) (session : Session) (db : Database) (u : Unit {0})
    (after : Database)
    → insert_key_row actor r session db ≡ ok (u, after)
    → IsInsertedKey actor r session db after
unfolding insert_key_row active_project_member
insert_key_row-ok actor r session db u after h =
    let (b, g, h1) = >>=-ok (active_project_member r.tenant r.project r.user session db) _ h in
    let (_, _, g1) = >>=-ok (exec session member_exists) _ g in
    let m : is_member r.tenant r.project r.user db ≡ b = ok-injective g1 in
    let (_, n, h2) = >>=-ok (refuse_if (not b) (plain membership_required)) _ h1 in
    let b_true = refuse_if-ok (not b) (plain membership_required) n in
    let (_, _, h3) = >>=-ok (exec session insert_key) _ h2 in
    let (_, f, h4) =
      >>=-ok (refuse_if (is_there (find_row (clashes r) db.api_keys)) unique_violation) _ h3 in
    let (d, w, h5) =
      >>=-ok
        (insert_audit_event session
          (key_event (codes "api_key.create") actor (key_row session r).stored)
          (add_key (key_row session r) db))
        _ h4 in
    let (id, e) =
      insert_audit_event-ok session
        (key_event (codes "api_key.create") actor (key_row session r).stored)
        (add_key (key_row session r) db) d w in
    let after_is : d ≡ after = ap (λ (z : Unit {0} × Database). z.1) (ok-injective h5) in
    let positive : b ≡ true = ground arith in
    record {
      event = id;
      member = m ∙ positive;
      fresh = refuse_if-ok (is_there (find_row (clashes r) db.api_keys)) unique_violation f;
      written = sym after_is ∙ e;
    }

pub record IsRevokedKey (actor tenant project : Uuid) (public_id : Text) (now : Time)
    (before after : Database) (r : KeyRecord) : Type 0 where
  pub row : KeyRow
  pub event : Uuid
  pub found : find_row (active_in_scope tenant project public_id) before.api_keys ≡ some row
  pub shown : r ≡ (revoked_key now row).stored
  pub written :
      after
      ≡ add_audit (audit_row event (key_event (codes "api_key.revoke") actor r)) (record before {
        api_keys =
            update_rows
              (active_in_scope tenant project public_id)
              (revoked_key now)
              before.api_keys;
      })

pub revoke_key_row-ok :
    (actor tenant project : Uuid) (public_id : Text) (now : Time) (session : Session)
    (db : Database) (r : KeyRecord) (after : Database)
    → revoke_key_row actor tenant project public_id now session db ≡ ok (r, after)
    → IsRevokedKey actor tenant project public_id now db after r
unfolding revoke_key_row
revoke_key_row-ok actor tenant project public_id now session db r after h =
    let (_, _, h1) = >>=-ok (exec session revoke_key) _ h in
    let (k, f, h2) =
      >>=-ok
        (of_option (plain not_found)
          (find_row (active_in_scope tenant project public_id) db.api_keys))
        _ h1 in
    let (_, _, h3) =
      >>=-ok (refuse_if (leb max_bigint k.stored.auth_version) numeric_overflow) _ h2 in
    let (d, w, h4) =
      >>=-ok
        (insert_audit_event session
          (key_event (codes "api_key.revoke") actor (revoked_key now k).stored)
          (record db {
            api_keys =
                update_rows (active_in_scope tenant project public_id) (revoked_key now)
                  db.api_keys;
          }))
        _ h3 in
    let (id, e) =
      insert_audit_event-ok session
        (key_event (codes "api_key.revoke") actor (revoked_key now k).stored) _ d w in
    let p = ok-injective h4 in
    let r_is : (revoked_key now k).stored ≡ r = ap (λ (z : KeyRecord × Database). z.0) p in
    let after_is : d ≡ after = ap (λ (z : KeyRecord × Database). z.1) p in
    record {
      row = k;
      event = id;
      found = of_option-ok (plain not_found) _ f;
      shown = sym r_is;
      written =
          sym after_is
          ∙ e
          ∙ ap
              (λ (x : KeyRecord).
                add_audit (audit_row id (key_event (codes "api_key.revoke") actor x)) (record db {
                  api_keys =
                      update_rows (active_in_scope tenant project public_id) (revoked_key now)
                        db.api_keys;
                }))
              r_is;
    }
