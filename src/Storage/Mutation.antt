-- ===== src/Storage/Mutation.antt =====
-- internal/storage/postgres/identity.go: `RunAdminMutation`, which claims an idempotency key, runs
-- the mutation and keeps the response for replays, all in one transaction.
pub mod Claims
pub mod Settled
pub mod Once
pub mod Exactly
pub mod Answers
pub mod Conflict
pub mod Fresh
use urbino.Base.{
  ℕ, ◌*◌, ◌==◌, Bool, true, false, ◌&&◌, ◌||◌, not, List, [], ◌∷◌, Option, none, some, ltb, length,
  if◌then◌else◌,
}
use urbino.Base.Text.{Text, codes, text_eq, is_empty}
use urbino.Base.Result.{Result, ok, err, ◌>>=◌, of_option}
use urbino.Domain.Uuid.{Uuid, is_zero}
use urbino.Auth.Keys.{is_nil}
use urbino.Storage.Errors.{
  StoreError, plain, no_rows, idempotency_conflict, payload_conflict, bad_mutation, bad_response,
  incomplete_record,
}
use urbino.Storage.Database.{
  Response, Progress, pending, completed, ClaimRow, Database, Session, insert_claim, select_claim,
  end_claim, complete_claim, exec, refuse_if, find_row, update_rows,
}
use urbino.Storage.Tx.{checked_run, Connection, Statements, Probe, with_tx_probe}

-- `ports.AdminMutationRequest`.
pub record MutationRequest : Type 0 where
  pub principal : Uuid
  pub operation : Text
  pub key_digest : List ℕ
  pub request_digest : List ℕ

-- `ports.AdminMutationOutcome`.
pub record Outcome : Type 0 where
  pub response : Response
  pub replay_response : Response

-- `ports.AdminMutationResult`.
pub record MutationResult : Type 0 where
  pub response : Response
  pub replayed : Bool

abbrev pub legacy_pending_response_body : Text
legacy_pending_response_body =
    codes
      "{\"code\":\"idempotency_outcome_unknown\",\"message\":\"the previous management mutation outcome is unavailable; do not retry with this key\",\"request_id\":\"00000000-0000-0000-0000-000000000000\",\"retryable\":false,\"details\":{}}"

abbrev pub legacy_response : Response
legacy_response = record {
  status = 409;
  content_type = codes "application/json";
  body = legacy_pending_response_body;
}

-- The primary key (principal_id, operation, key_digest).
abbrev pub is_claim : MutationRequest → ClaimRow → Bool
is_claim q row =
    text_eq row.principal q.principal
    && text_eq row.operation q.operation
    && text_eq row.key_digest q.key_digest

abbrev pub new_claim : MutationRequest → ClaimRow
new_claim q = record {
  principal = q.principal;
  operation = q.operation;
  key_digest = q.key_digest;
  request_digest = q.request_digest;
  progress = pending;
}

-- SET state = 'completed' ... WHERE state = 'pending'.
abbrev pub completed_progress : Response → Progress → Progress
completed_progress r pending = completed r
completed_progress r (completed s) = completed s

abbrev pub complete_row : Response → ClaimRow → ClaimRow
complete_row r row = record row { progress = completed_progress r row.progress }

abbrev pub complete : MutationRequest → Response → Database → Database
complete q r db = record db { claims = update_rows (is_claim q) (complete_row r) db.claims }

abbrev pub is_legacy : Progress → Bool
is_legacy pending = false
is_legacy (completed r) = text_eq r.body legacy_pending_response_body

-- What a claim finds: nothing, or the row with its `terminalized` mark.
pub data Claim : Type 0 where
  inserted : Claim
  existing : ClaimRow → (terminalized : Bool) → Claim

-- A row that was left pending is ended with the response that says that its outcome is unknown.
abbrev pub claim_row :
    Session
    → MutationRequest
    → Database
    → ClaimRow
    → Progress
    → Result StoreError (Claim × Database)
claim_row session q db row pending = do
  _ ← exec session end_claim
  ok (existing (complete_row legacy_response row) true, complete q legacy_response db)
claim_row session q db row (completed r) = ok (existing row (is_legacy (completed r)), db)

abbrev pub claim_found :
    Session → MutationRequest → Database → Option ClaimRow → Result StoreError (Claim × Database)
claim_found session q db none = ok (inserted, record db { claims = new_claim q ∷ db.claims })
claim_found session q db (some row) = do
  _ ← exec session select_claim
  claim_row session q db row row.progress

-- INSERT ... ON CONFLICT DO NOTHING, then the row that is in the way.
unfoldable pub claim_admin_idempotency :
    Session → MutationRequest → Database → Result StoreError (Claim × Database)
claim_admin_idempotency session q db = do
  _ ← exec session insert_claim
  claim_found session q db (find_row (is_claim q) db.claims)

unfoldable pub validate_response : Response → Result StoreError (Unit {0})
validate_response r =
    refuse_if
      (ltb r.status 200
        || ltb 599 r.status
        || not (text_eq r.content_type (codes "application/json"))
        || is_nil r.body
        || ltb (64 * 1024) (length r.body))
      (plain bad_response)

abbrev pub replay : Response → MutationResult
replay r = record { response = r; replayed = true }

-- The response of a completed row, which `terminalized` does not check for its body.
abbrev pub stored_response : Progress → Result StoreError MutationResult
stored_response pending = err (plain idempotency_conflict)
stored_response (completed r) =
    if is_nil r.body then err (plain incomplete_record) else ok (replay r)

abbrev pub stale_response : Bool → Progress → Result StoreError MutationResult
stale_response true (completed r) = ok (replay r)
stale_response terminalized progress = err (plain payload_conflict)

unfoldable pub replay_existing :
    MutationRequest → ClaimRow → (terminalized : Bool) → Result StoreError MutationResult
replay_existing q row terminalized =
    if not (text_eq row.request_digest q.request_digest)
    then stale_response terminalized row.progress
    else stored_response row.progress

-- `fn`, which gets the operations of the transaction.
abbrev pub Mutation : Type 0
Mutation = Statements Outcome

unfoldable pub run_claimed :
    MutationRequest → Mutation → Session → Database → Result StoreError (MutationResult × Database)
run_claimed q fn session db = do
  (outcome, db') ← fn session db
  _ ← validate_response outcome.response
  _ ← validate_response outcome.replay_response
  _ ← exec session complete_claim
  ok (
    record { response = outcome.response; replayed = false },
    complete q outcome.replay_response db',
  )

abbrev pub after_claim :
    MutationRequest
    → Mutation
    → Session
    → Claim × Database
    → Result StoreError (MutationResult × Database)
after_claim q fn session (inserted, db) = run_claimed q fn session db
after_claim q fn session (existing row terminalized, db) = do
  r ← replay_existing q row terminalized
  ok (r, db)

unfoldable pub mutation_statements :
    MutationRequest → Mutation → Session → Database → Result StoreError (MutationResult × Database)
mutation_statements q fn session db = do
  found ← claim_admin_idempotency session q db
  after_claim q fn session found

abbrev pub probed_progress : Progress → Result StoreError (Option MutationResult)
probed_progress pending = ok none
probed_progress (completed r) =
    if is_nil r.body then err (plain incomplete_record) else ok (some (replay r))

abbrev pub probed_row : Option ClaimRow → Result StoreError (Option MutationResult)
probed_row none = err (plain no_rows)
probed_row (some row) = probed_progress row.progress

-- The probe asks for the row of this very request; a missing row is an error of the query.
abbrev pub mutation_probe : MutationRequest → Probe MutationResult
mutation_probe q x db = probed_row (
    find_row (λ (row : ClaimRow). is_claim q row && text_eq row.request_digest q.request_digest)
      db.claims)

abbrev pub bad_request : MutationRequest → Bool
bad_request q =
    is_zero q.principal
    || is_empty q.operation
    || not (length q.key_digest == 32)
    || not (length q.request_digest == 32)

unfoldable pub run_admin_mutation :
    Connection → MutationRequest → Mutation → Database → Result StoreError MutationResult × Database
run_admin_mutation c q fn db =
    checked_run db (refuse_if (bad_request q) (plain bad_mutation))
      (with_tx_probe c (mutation_statements q fn) (some (mutation_probe q)) db)
