-- ===== src/Http/Errors/Answers.antt =====
-- `adminErrorStatus` of internal/httpapi/admin.go on the errors of internal/storage/postgres, which arrive
-- classified, some of them twice.
use urbino.Base.{ℕ, zero, suc}
use urbino.Base.Text.{codes}
use urbino.Storage.Errors.{
  StoreError, plain, classified, joined, classify_error, pg_error, not_found, version_conflict,
  membership_required, last_token, idempotency_conflict, payload_conflict, outcome_unknown,
  context_canceled, deadline_exceeded, commit_rollback, no_rows, driver_failure, kind_unavailable,
}
use urbino.Http.Errors.{
  AdminError, admin_error, bad_request, resource_not_found, code_version_conflict, unknown,
}

-- `classifyError`, some times.
unfoldable pub classify_times : ℕ → StoreError → StoreError
classify_times zero e = e
classify_times (suc n) e = classify_error (classify_times n e)

-- The contract of the API: which status, code and message an error of the store has.
pub data IsAnswered : StoreError → AdminError → Type 0 where
  used_key :
      IsAnswered
        (plain idempotency_conflict)
        (admin_error 409 code_version_conflict (codes "Idempotency-Key was already used"))
  used_payload :
      IsAnswered
        (plain payload_conflict)
        (admin_error 409 code_version_conflict (codes "Idempotency-Key was already used"))
  missing :
      IsAnswered (plain not_found) (admin_error 404 resource_not_found (codes "resource not found"))
  stale : IsAnswered (plain version_conflict) (
      admin_error 412 code_version_conflict
        (codes "the resource version does not match the precondition"))
  outsider :
      IsAnswered
        (plain membership_required)
        (admin_error 400 bad_request (codes "the user is not an active member of the project"))
  final_token : IsAnswered (plain last_token) (
      admin_error 409 code_version_conflict
        (codes "the final usable administrator token cannot be revoked"))
  -- The probe of a lost commit has failed.
  unknown_commit :
      IsAnswered
        (classified kind_unavailable (joined (plain outcome_unknown) (plain driver_failure)))
        (admin_error 503 unknown
          (codes "management operation outcome is unknown; do not retry blindly"))
  unknown_rows :
      IsAnswered (classified kind_unavailable (joined (plain outcome_unknown) (plain no_rows))) (
        admin_error 503 unknown
          (codes "management operation outcome is unknown; do not retry blindly"))
  -- A unique, a foreign key, a check and an exclusion constraint.
  duplicate :
      IsAnswered
        (plain (pg_error (codes "23505")))
        (admin_error 409 code_version_conflict (codes "the resource conflicts with existing state"))
  unreferenced :
      IsAnswered
        (plain (pg_error (codes "23503")))
        (admin_error 409 code_version_conflict (codes "the resource conflicts with existing state"))
  out_of_check :
      IsAnswered
        (plain (pg_error (codes "23514")))
        (admin_error 409 code_version_conflict (codes "the resource conflicts with existing state"))
  excluded :
      IsAnswered
        (plain (pg_error (codes "23P01")))
        (admin_error 409 code_version_conflict (codes "the resource conflicts with existing state"))
  stopped :
      IsAnswered
        (plain (pg_error (codes "57014")))
        (admin_error 503 unknown (codes "the database is unavailable"))
  canceled :
      IsAnswered
        (plain context_canceled)
        (admin_error 503 unknown (codes "the database is unavailable"))
  timed_out :
      IsAnswered
        (plain deadline_exceeded)
        (admin_error 503 unknown (codes "the database is unavailable"))
  rolled_back :
      IsAnswered
        (plain commit_rollback)
        (admin_error 500 unknown (codes "management operation failed"))
  driver :
      IsAnswered
        (plain driver_failure)
        (admin_error 500 unknown (codes "management operation failed"))
