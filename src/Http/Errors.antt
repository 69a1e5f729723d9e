-- ===== src/Http/Errors.antt =====
-- internal/domain/error.go, internal/httpapi/errors.go and `adminErrorStatus` of internal/httpapi/admin.go:
-- the statuses, codes and messages that a caller sees.
pub mod Answers
use urbino.Base.{ℕ, Bool, true, false, ◌||◌, List, [], ◌∷◌, ◌++◌, Option, none, some, if◌then◌else◌}
use urbino.Base.Text.{Text, codes}
use urbino.Domain.Uuid.{Uuid, to_string}
use urbino.Storage.Errors.{
  ErrorKind, kind_conflict, kind_unavailable, kind_canceled, kind_query, kind_invalid_config, Cause,
  StoreError, idempotency_conflict, payload_conflict, not_found, bad_cursor, version_conflict,
  membership_required, outcome_unknown, last_token, is_error, database_kind,
}

-- `ErrorClass`.
pub data ErrorClass : Type 0 where
  class_unsupported class_unauthorized class_unknown : ErrorClass

-- `Code`.
pub data Code : Type 0 where
  bad_request unauthorized permission_denied resource_not_found : Code
  code_version_conflict unsupported_capability unknown : Code

pub record DomainError : Type 0 where
  pub class : ErrorClass
  pub code : Code
  pub message : Text
  pub retryable : Bool

abbrev pub unsupported : Text → DomainError
unsupported message = record {
  class = class_unsupported;
  code = unsupported_capability;
  message = message;
  retryable = false;
}

-- The error envelope; `Details` is always empty here.
pub record PublicError : Type 0 where
  pub code : Code
  pub message : Text
  pub request_id : Text
  pub retryable : Bool

abbrev pub status_of_class : ErrorClass → ℕ
status_of_class class_unsupported = 501
status_of_class class_unauthorized = 401
status_of_class class_unknown = 500

-- `WriteDomainError`: the status and the body.
unfoldable pub write_domain_error : Uuid → Option DomainError → ℕ × PublicError
write_domain_error id none = (
  500,
  record {
    code = unknown;
    message = codes "unknown error";
    request_id = to_string id;
    retryable = false;
  },
)
write_domain_error id (some e) = (
  status_of_class e.class,
  record { code = e.code; message = e.message; request_id = to_string id; retryable = e.retryable },
)

unfoldable pub write_unsupported : Uuid → Text → ℕ × PublicError
unfolding write_domain_error
write_unsupported id capability =
    write_domain_error id (some (unsupported (codes "capability is not enabled: " ++ capability)))

-- A status, a code and a message.
pub record AdminError : Type 0 where
  pub status : ℕ
  pub code : Code
  pub message : Text

abbrev pub admin_error : ℕ → Code → Text → AdminError
admin_error status code message = record { status = status; code = code; message = message }

-- The targets of `errors.Is`.
abbrev pub is_key_used : Cause → Bool
is_key_used idempotency_conflict = true
is_key_used payload_conflict = true
is_key_used c = false

abbrev pub is_not_found : Cause → Bool
is_not_found not_found = true
is_not_found c = false

abbrev pub is_version_conflict : Cause → Bool
is_version_conflict version_conflict = true
is_version_conflict c = false

abbrev pub is_membership : Cause → Bool
is_membership membership_required = true
is_membership c = false

abbrev pub is_outcome_unknown : Cause → Bool
is_outcome_unknown outcome_unknown = true
is_outcome_unknown c = false

abbrev pub is_bad_cursor : Cause → Bool
is_bad_cursor bad_cursor = true
is_bad_cursor c = false

abbrev pub is_last_token : Cause → Bool
is_last_token last_token = true
is_last_token c = false

abbrev pub internal_error : AdminError
internal_error = admin_error 500 unknown (codes "management operation failed")

abbrev pub error_of_kind : Option ErrorKind → AdminError
error_of_kind none = internal_error
error_of_kind (some kind_conflict) =
    admin_error 409 code_version_conflict (codes "the resource conflicts with existing state")
error_of_kind (some kind_unavailable) =
    admin_error 503 unknown (codes "the database is unavailable")
error_of_kind (some kind_canceled) = admin_error 503 unknown (codes "the database is unavailable")
error_of_kind (some kind_query) = internal_error
error_of_kind (some kind_invalid_config) = internal_error

unfoldable pub admin_error_status : StoreError → AdminError
admin_error_status e =
    if is_error is_key_used e
    then admin_error 409 code_version_conflict (codes "Idempotency-Key was already used")
    else if is_error is_not_found e
    then admin_error 404 resource_not_found (codes "resource not found")
    else if is_error is_version_conflict e
    then admin_error 412 code_version_conflict
        (codes "the resource version does not match the precondition")
    else if is_error is_membership e
    then admin_error 400 bad_request (codes "the user is not an active member of the project")
    else if is_error is_outcome_unknown e
    then admin_error 503 unknown
        (codes "management operation outcome is unknown; do not retry blindly")
    else if is_error is_last_token e
    then admin_error 409 code_version_conflict
        (codes "the final usable administrator token cannot be revoked")
    else error_of_kind (database_kind e)
