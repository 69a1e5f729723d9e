-- ===== src/Storage/Database.antt =====
-- The tables of migrations/0001_persistence.sql, 0002_identity.sql and 0003_admin_idempotency_results.sql
-- that internal/storage/postgres/identity.go reads and writes, and the statements that may fail.
use urbino.Base.{
  ◌-◌, ◌%◌, ◌+◌, ℕ, Bool, true, false, List, [], ◌∷◌, Option, none, some, if◌then◌else◌,
}
use urbino.Base.Text.{Text}
use urbino.Base.Int.{ℤ}
use urbino.Base.Result.{Result, ok, err}
use urbino.Domain.Uuid.{Uuid}
use urbino.Domain.Scopes.{Tenant}
use urbino.Auth.Time.{Time}
use urbino.Auth.Keys.{KeyRecord, AdminTokenRecord}
use urbino.Storage.Errors.{Cause, StoreError, plain, classify_error}

-- A TIMESTAMPTZ keeps the whole microseconds of an instant. The times of the rows are of that kind, so
-- that comparing one with an instant, or with its whole microseconds, is the same.
unfoldable pub to_micros : Time → Time
to_micros t = t - t % 1000

pub record TenantRow : Type 0 where
  pub tenant : Tenant
  pub created_at : Time

pub record ProjectRow : Type 0 where
  pub tenant : Uuid
  pub id : Uuid
  pub status : Text

pub record UserRow : Type 0 where
  pub tenant : Uuid
  pub id : Uuid
  pub status : Text

pub record MemberRow : Type 0 where
  pub tenant : Uuid
  pub project : Uuid
  pub user : Uuid
  pub role : Text
  pub status : Text

pub record KeyRow : Type 0 where
  pub stored : KeyRecord
  pub created_at : Time

pub record PrincipalRow : Type 0 where
  pub id : Uuid
  pub status : Text
  pub scopes : List Text

-- `ports.AdminMutationResponse`.
pub record Response : Type 0 where
  pub status : ℕ
  pub content_type : Text
  pub body : List ℕ

-- The columns `state` and `response_*`: their CHECK gives a completed row all of them, a pending row none.
pub data Progress : Type 0 where
  pending : Progress
  completed : Response → Progress

pub record ClaimRow : Type 0 where
  pub principal : Uuid
  pub operation : Text
  pub key_digest : List ℕ
  pub request_digest : List ℕ
  pub progress : Progress

-- A NULL identifier is `none`.
pub record AuditRow : Type 0 where
  pub id : Option Uuid
  pub tenant : Option Uuid
  pub actor_kind : Text
  pub actor_id : Option Uuid
  pub action : Text
  pub target_type : Text
  pub target_id : Option Uuid
  pub outcome : Text
  pub metadata : List (Text × Text)

pub record Database : Type 0 where
  pub tenants : List TenantRow
  pub projects : List ProjectRow
  pub users : List UserRow
  pub members : List MemberRow
  pub api_keys : List KeyRow
  pub principals : List PrincipalRow
  pub admin_tokens : List AdminTokenRecord
  pub claims : List ClaimRow
  pub audit_events : List AuditRow

-- The statements of the store. One transaction sends each at most once.
pub data Statement : Type 0 where
  insert_tenant update_tenant tenant_exists select_tenant list_tenants : Statement
  insert_audit member_exists insert_key revoke_key select_key select_token list_keys count_keys :
      Statement
  lock_admin count_tokens revoke_token : Statement
  insert_claim select_claim end_claim complete_claim : Statement
  lock_bootstrap count_principals insert_principal insert_token : Statement

-- What the server and the machine give to one transaction: the statements that the driver refuses
-- (a lost connection, a timeout, a constraint that the tables do not state), `now()`, and the draws of `NewUUID`.
pub record Session : Type 0 where
  pub faults : Statement → Option Cause
  pub now : Time
  pub uuid_bytes : Option (List ℕ)
  pub millis : ℤ

-- The error of a statement is classified where it is returned.
abbrev pub refused_by : Option Cause → Result StoreError (Unit {0})
refused_by none = ok tt
refused_by (some c) = err (classify_error (plain c))

abbrev pub exec : Session → Statement → Result StoreError (Unit {0})
exec session statement = refused_by (session.faults statement)

-- A test that returns an error.
abbrev pub refuse_if : Bool → StoreError → Result StoreError (Unit {0})
refuse_if true e = err e
refuse_if false e = ok tt

-- WHERE: the first row that a test holds for, and the rows with each such row changed.
unfoldable pub find_row {ℓ} : {A : Type ℓ} → (A → Bool) → List A → Option A
find_row test [] = none
find_row test (r ∷ rows) = if test r then some r else find_row test rows

unfoldable pub update_rows {ℓ} : {A : Type ℓ} → (A → Bool) → (A → A) → List A → List A
update_rows test change [] = []
update_rows test change (r ∷ rows) = (if test r then change r else r) ∷ update_rows test change rows

unfoldable pub count_rows {ℓ} : {A : Type ℓ} → (A → Bool) → List A → ℕ
count_rows test [] = 0
count_rows test (r ∷ rows) = let rest = count_rows test rows in if test r then 1 + rest else rest
