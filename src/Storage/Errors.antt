-- ===== src/Storage/Errors.antt =====
-- internal/storage/postgres/postgres.go: `Error`, `classifyError` and `SafeErrorMessage`, and the
-- errors that internal/storage/postgres/identity.go and admin.go return.
use urbino.Base.{Bool, true, false, ◌||◌, List, [], ◌∷◌, ◌++◌, Option, none, some, if◌then◌else◌}
use urbino.Base.Text.{Text, codes, text_eq}
use urbino.Domain.Scopes.{ValidationError}
use urbino.Auth.Errors.{AuthError}

-- `ErrorKind`.
pub data ErrorKind : Type 0 where
  kind_invalid_config kind_unavailable kind_conflict kind_canceled kind_query : ErrorKind

-- The errors that nothing wraps: the driver's, then the store's own, by their texts, and those of the
-- mutations of internal/httpapi/admin.go that the store passes on.
pub data Cause : Type 0 where
  context_canceled deadline_exceeded commit_rollback no_rows driver_failure : Cause
  pg_error : Text → Cause
  not_found version_conflict membership_required last_token : Cause
  idempotency_conflict payload_conflict outcome_unknown : Cause
  bad_tenant : ValidationError → Cause
  bad_tenant_id bad_update bad_key_scopes bad_key_record bad_key_scope bad_token_scope : Cause
  bad_cursor bad_audit_action bad_audit_target bad_audit_result bad_audit_metadata : Cause
  no_audit_id bad_mutation bad_response incomplete_record : Cause
  bootstrap_failed bootstrap_completed : Cause
  bad_expiry encoding_failed : Cause
  issue_failed : AuthError → Cause

-- An error with what it wraps: `*Error` holds the error that it classifies, `errors.Join` two.
pub data StoreError : Type 0 where
  plain : Cause → StoreError
  classified : ErrorKind → StoreError → StoreError
  joined : StoreError → StoreError → StoreError

-- The tree that `errors.Is` and `errors.As` walk.
unfoldable pub causes : StoreError → List Cause
causes (plain c) = c ∷ []
causes (classified k e) = causes e
causes (joined e f) = causes e ++ causes f

abbrev pub is_cancellation : Cause → Bool
is_cancellation context_canceled = true
is_cancellation deadline_exceeded = true
is_cancellation c = false

unfoldable pub any_cause : (Cause → Bool) → List Cause → Bool
any_cause test [] = false
any_cause test (c ∷ cs) = test c || any_cause test cs

-- `errors.Is(err, target)`, with the test for the target.
abbrev pub is_error : (Cause → Bool) → StoreError → Bool
is_error test e = any_cause test (causes e)

-- `errors.As(err, &pgErr)`: the first server error, by its code.
unfoldable pub pg_code : List Cause → Option Text
pg_code [] = none
pg_code (pg_error code ∷ cs) = some code
pg_code (c ∷ cs) = pg_code cs

unfoldable pub kind_of_code : Option Text → ErrorKind
kind_of_code none = kind_query
kind_of_code (some code) =
    if text_eq code (codes "23505")
      || text_eq code (codes "23503")
      || text_eq code (codes "23514")
      || text_eq code (codes "23P01")
    then kind_conflict
    else if text_eq code (codes "57014")
    then kind_canceled
    else kind_query

-- The kind of the first test that holds.
unfoldable pub error_kind : StoreError → ErrorKind
error_kind e =
    if is_error is_cancellation e then kind_canceled else kind_of_code (pg_code (causes e))

unfoldable pub classify_error : StoreError → StoreError
classify_error e = classified (error_kind e) e

abbrev pub first_of {ℓ} : {A : Type ℓ} → Option A → Option A → Option A
first_of none p = p
first_of (some a) p = some a

-- `errors.As(err, &dbErr)`: the outermost classification.
unfoldable pub database_kind : StoreError → Option ErrorKind
database_kind (plain c) = none
database_kind (classified k e) = some k
database_kind (joined e f) = first_of (database_kind e) (database_kind f)

abbrev pub message_of_kind : ErrorKind → Text
message_of_kind kind_invalid_config = codes "database configuration is invalid"
message_of_kind kind_unavailable = codes "database is unavailable"
message_of_kind kind_conflict = codes "database constraint rejected the operation"
message_of_kind kind_canceled = codes "database operation canceled or timed out"
message_of_kind kind_query = codes "database operation failed"

abbrev pub message_without_kind : Bool → Text
message_without_kind true = codes "database operation canceled or timed out"
message_without_kind false = codes "database operation failed"

abbrev pub message_of : Option ErrorKind → StoreError → Text
message_of (some k) e = message_of_kind k
message_of none e = message_without_kind (is_error is_cancellation e)

unfoldable pub safe_error_message : StoreError → Text
safe_error_message e = message_of (database_kind e) e
