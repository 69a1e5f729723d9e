-- ===== src/Storage/Audit.antt =====
-- internal/storage/postgres/identity.go: `auditEvent`, its check, and `insertAuditEvent`; `uuidArg`.
use urbino.Base.{
  Bool, false, ◌||◌, not, List, [], ◌∷◌, Option, none, some, ltb, if◌then◌else◌, length,
}
use urbino.Base.Text.{Text, codes, text_eq, is_empty}
use urbino.Base.Result.{Result, ok, err, ◌>>=◌}
use urbino.Domain.Uuid.{UuidError, Uuid, is_zero, to_string, parse_uuid, new_uuid}
use urbino.Storage.Errors.{
  StoreError, plain, bad_audit_action, bad_audit_target, bad_audit_result, bad_audit_metadata,
  no_audit_id,
}
use urbino.Storage.Database.{AuditRow, Database, Session, insert_audit, exec}

pub record AuditEvent : Type 0 where
  pub tenant : Uuid
  pub actor : Uuid
  pub action : Text
  pub target_type : Text
  pub target_id : Uuid
  pub outcome : Text
  pub metadata : List (Text × Text)

abbrev pub actor_admin : Text
actor_admin = codes "admin"

abbrev pub actor_system : Text
actor_system = codes "system"

abbrev pub result_success : Text
result_success = codes "success"

-- The loop over the metadata.
unfoldable pub bad_metadata : List (Text × Text) → Bool
bad_metadata [] = false
bad_metadata ((key, value) ∷ rest) = is_empty key || ltb 200 (length value) || bad_metadata rest

unfoldable pub audit_validate : AuditEvent → Result StoreError (Unit {0})
audit_validate e =
    if is_empty e.action || ltb 120 (length e.action)
    then err (plain bad_audit_action)
    else if is_empty e.target_type || ltb 120 (length e.target_type)
    then err (plain bad_audit_target)
    else if not (
        text_eq e.outcome result_success
        || text_eq e.outcome (codes "denied")
        || text_eq e.outcome (codes "failure"))
    then err (plain bad_audit_result)
    else if bad_metadata e.metadata
    then err (plain bad_audit_metadata)
    else ok tt

abbrev pub arg_of : Uuid → Result UuidError Uuid → Option Uuid
arg_of id (err e) = none
arg_of id (ok parsed) = if is_zero id then none else some parsed

-- The identifier that a statement gets; a zero one is NULL.
unfoldable pub uuid_arg : Uuid → Option Uuid
uuid_arg id = arg_of id (parse_uuid (to_string id))

abbrev pub event_id : Result UuidError Uuid → Result StoreError Uuid
event_id (err e) = err (plain no_audit_id)
event_id (ok id) = ok id

abbrev pub audit_row : Uuid → AuditEvent → AuditRow
audit_row id e = record {
  id = uuid_arg id;
  tenant = uuid_arg e.tenant;
  actor_kind = if is_zero e.actor then actor_system else actor_admin;
  actor_id = if is_zero e.actor then none else uuid_arg e.actor;
  action = e.action;
  target_type = e.target_type;
  target_id = uuid_arg e.target_id;
  outcome = e.outcome;
  metadata = e.metadata;
}

abbrev pub add_audit : AuditRow → Database → Database
add_audit row db = record db { audit_events = row ∷ db.audit_events }

-- Appends one row inside the transaction of the caller.
unfoldable pub insert_audit_event : Session → AuditEvent → Database → Result StoreError Database
insert_audit_event session event db = do
  _ ← audit_validate event
  id ← event_id (new_uuid session.uuid_bytes session.millis)
  _ ← exec session insert_audit
  ok (add_audit (audit_row id event) db)
