-- ===== src/Storage/AdminTokens/Changes.antt =====
-- internal/storage/postgres/identity.go: what the revocation of an administrator token writes.
use urbino.Base.{◌≡◌, ap, ◌∙◌, sym, false, some, leb}
use urbino.Base.Text.{Text}
use urbino.Base.Result.{ok, >>=-ok, of_option-ok, of_option, ok-injective}
use urbino.Domain.Uuid.{Uuid}
use urbino.Auth.Time.{Time}
use urbino.Auth.Keys.{AdminTokenRecord}
use urbino.Storage.Errors.{plain, not_found, last_token}
use urbino.Storage.Database.{
  Database, Session, lock_admin, count_tokens, revoke_token, exec, refuse_if, find_row, update_rows,
}
use urbino.Storage.Audit.{audit_row, add_audit, insert_audit_event}
use urbino.Storage.Rows.{insert_audit_event-ok, refuse_if-ok}
use urbino.Storage.Tenants.{max_bigint, numeric_overflow}
use urbino.Storage.AdminTokens.{
  available_tokens, unrevoked, revoked_token, token_revoked, revoke_token_tx, revoke_token_row,
}

pub record IsRevokedToken (actor principal : Uuid) (public_id : Text) (now : Time)
    (before after : Database) (r : AdminTokenRecord) : Type 0 where
  pub row : AdminTokenRecord
  pub event : Uuid
  pub enough : leb (available_tokens now before) 1 ≡ false
  pub found : find_row (unrevoked principal public_id) before.admin_tokens ≡ some row
  pub shown : r ≡ revoked_token now row
  pub written :
      after
      ≡ add_audit (audit_row event (token_revoked actor (revoked_token now row))) (record before {
        admin_tokens =
            update_rows (unrevoked principal public_id) (revoked_token now) before.admin_tokens;
      })

pub revoke_token_row-ok :
    (actor principal : Uuid) (public_id : Text) (now : Time) (session : Session) (db : Database)
    (r : AdminTokenRecord) (after : Database)
    → revoke_token_row actor principal public_id now session db ≡ ok (r, after)
    → IsRevokedToken actor principal public_id now db after r
unfolding revoke_token_row revoke_token_tx
revoke_token_row-ok actor principal public_id now session db r after h =
    let (_, _, h1) = >>=-ok (exec session lock_admin) _ h in
    let (_, _, h2) = >>=-ok (exec session count_tokens) _ h1 in
    let (_, n, h3) = >>=-ok (refuse_if (leb (available_tokens now db) 1) (plain last_token)) _ h2 in
    let (_, _, h4) = >>=-ok (exec session revoke_token) _ h3 in
    let (t, f, h5) =
      >>=-ok
        (of_option (plain not_found) (find_row (unrevoked principal public_id) db.admin_tokens)) _
        h4 in
    let (_, _, h6) = >>=-ok (refuse_if (leb max_bigint t.auth_version) numeric_overflow) _ h5 in
    let (d, w, h7) =
      >>=-ok
        (insert_audit_event session (token_revoked actor (revoked_token now t)) (record db {
          admin_tokens =
              update_rows (unrevoked principal public_id) (revoked_token now) db.admin_tokens;
        }))
        _ h6 in
    let (id, e) = insert_audit_event-ok session (token_revoked actor (revoked_token now t)) _ d w in
    let p = ok-injective h7 in
    record {
      row = t;
      event = id;
      enough = refuse_if-ok (leb (available_tokens now db) 1) (plain last_token) n;
      found = of_option-ok (plain not_found) _ f;
      shown = sym (ap (λ (z : AdminTokenRecord × Database). z.0) p);
      written = sym (ap (λ (z : AdminTokenRecord × Database). z.1) p) ∙ e;
    }
