-- ===== src/Storage/Examples.antt =====
-- The theorems on internal/storage/postgres at a small database and calls that meet no failure.
use urbino.Base.{
  ◌⊎◌, zero, suc, ◌<◌, arith, Option, arith, ◌≡◌, refl, ap, true, false, [], ◌∷◌, none, some, ℕ,
  replicate,
}
use urbino.Base.Text.{text_eq_of_eq, All, Text, codes, text_eq}
use urbino.Base.Int.{pos}
use urbino.Base.Result.{Result, ok, err, ok-injective}
use urbino.Domain.Uuid.{Uuid, is_zero, new_uuid}
use urbino.Domain.Scopes.{Tenant, tenant_status_valid, tenant_validate}
use urbino.Storage.Errors.{
  driver_failure, StoreError, plain, classified, kind_query, payload_conflict,
}
use urbino.Storage.Database.{Response, Database, Session, find_row, update_rows}
use urbino.Storage.Tx.{
  probed, commit_done, commit_lost, Connection, committed, probed, with_tx_probe,
}
use urbino.Storage.Tx.Atomic.{IsHealthy}
use urbino.Base.Decimal.Print.{format_uint}
use urbino.Base.Space.{to_upper, trim_space}
use urbino.Domain.Money.{parse_currency}
use urbino.Storage.Audit.{audit_validate, bad_metadata, insert_audit_event}
use urbino.Storage.Tenants.{
  create_tenant_tx, insert_tenant_row, update_tenant_for, update_tenant_row,
}
use urbino.Storage.Tenants.Versions.{UniqueTenants, IsUpdate, old_version_refused}
use urbino.Domain.Uuid.{to_string}
use urbino.Storage.KeyReads.{order_by}
use urbino.Storage.TenantPages.{TenantCursor, CursorForm, tenant_before}
use urbino.Storage.TenantPages.Walk.{walk, tenants_of, IsDistinct, IsListed}
use urbino.Storage.TenantPages.Complete.{walk_complete}
use urbino.Storage.Operations.{create_tenant, apply}
use urbino.Storage.Operations.Audited.{IsAudited, apply-IsAudited}
use urbino.Storage.Mutation.{
  MutationRequest, Outcome, MutationResult, Mutation, new_claim, complete, replay,
  validate_response, bad_request, run_admin_mutation, claim_admin_idempotency, mutation_statements,
  run_claimed,
}
use urbino.Storage.Mutation.Claims.{row_of, KeepsClaims}
use urbino.Storage.Mutation.Exactly.{
  UniqueClaims, IsWhole, IsReplayed, run_admin_mutation-IsWhole, mutation_runs_once,
}
use urbino.Storage.Mutation.Answers.{fresh_mutation_completes}
use urbino.Storage.Mutation.Conflict.{IsReused, IsKept, IsUnserved, payload_conflict_refused}
use urbino.Storage.Mutation.{legacy_pending_response_body}

abbrev an_id : ℕ → Uuid
an_id n = replicate 16 n

abbrev session : Session
session = record {
  faults = λ s. none;
  now = 1000;
  uuid_bytes = some (replicate 16 9);
  millis = pos 1700000000000;
}

abbrev healthy : Connection
healthy = record { begin = none; session = session; commit = commit_done; probe_fault = none }

-- The response of the commit is lost, and the transaction is durable.
abbrev lossy : Connection
lossy = record healthy { commit = commit_lost true driver_failure }

healthy-IsHealthy : IsHealthy healthy
healthy-IsHealthy = record { begins = refl; accepts = λ s. refl; commits = refl }

abbrev first_tenant : Tenant
first_tenant = record {
  id = an_id 1;
  name = codes "First";
  currency = codes "USD";
  status = codes "active";
  version = 1;
}

abbrev second_tenant : Tenant
second_tenant = record first_tenant { id = an_id 2; name = codes "Second" }

abbrev tables : Database
tables = record {
  tenants = record { tenant = first_tenant; created_at = 5 } ∷ [];
  projects = [];
  users = [];
  members = [];
  api_keys = [];
  principals = [];
  admin_tokens = [];
  claims = [];
  audit_events = [];
}

abbrev renamed : Result StoreError Tenant × Database
renamed = update_tenant_for lossy (an_id 7) (an_id 1) 1 (codes "Renamed") (codes "active") tables

renamed_ok : renamed ≡ (ok (record first_tenant { name = codes "Renamed"; version = 2 }), renamed.1)
unfolding update_tenant_for update_tenant_row with_tx_probe committed probed find_row update_rows
    insert_audit_event audit_validate bad_metadata new_uuid is_zero text_eq tenant_status_valid
    format_uint
renamed_ok = refl

one_tenant : UniqueTenants tables.tenants
unfolding find_row
one_tenant = (refl, tt)

old_version_refused_example :
    IsUpdate
      (an_id 7)
      (an_id 1)
      1
      (codes "Renamed")
      (codes "active")
      tables
      renamed.1
      (record first_tenant { name = codes "Renamed"; version = 2 })
    × ((e : StoreError) × (update_tenant_for healthy
            (an_id 8)
            (an_id 1)
            1
            (codes "Other")
            (codes "active")
            renamed.1
          ≡ (err e, renamed.1)))
old_version_refused_example =
    old_version_refused lossy (an_id 7) (an_id 1) 1 (codes "Renamed") (codes "active") tables
      renamed.1 (record first_tenant { name = codes "Renamed"; version = 2 }) one_tenant renamed_ok
      healthy (an_id 8) (codes "Other") (codes "active")

-- A mutation that creates the second tenant, under a key of 32 bytes.
abbrev request : MutationRequest
request = record {
  principal = an_id 7;
  operation = codes "tenant.create";
  key_digest = replicate 32 1;
  request_digest = replicate 32 2;
}

abbrev said : Text → Response
said text = record { status = 201; content_type = codes "application/json"; body = text }

abbrev created : Outcome
created = record { response = said (codes "{}"); replay_response = said (codes "[]") }

-- The database of a success.
abbrev database_of : Result StoreError (Outcome × Database) → Database
database_of (ok p) = p.1
database_of (err e) = tables

abbrev answered : Result StoreError Database → Result StoreError (Outcome × Database)
answered (ok db) = ok (created, db)
answered (err e) = err e

abbrev creation : Mutation
creation s db = answered (apply (an_id 7) (create_tenant second_tenant) s db)

answered-ok :
    (r : Result StoreError Database) (o : Outcome) (db : Database)
    → answered r ≡ ok (o, db)
    → r ≡ ok db
answered-ok (err e) o db h = cc
answered-ok (ok d) o db h =
    let p : Path (Result StoreError (Outcome × Database)) (ok (created, d)) (ok (o, db)) = h in
    ap (λ (z : Outcome × Database). ok z.1) (ok-injective p)

creation-KeepsClaims : KeepsClaims creation
creation-KeepsClaims s db o db' h =
    (apply-IsAudited (an_id 7) (create_tenant second_tenant) s db db'
      (answered-ok (apply (an_id 7) (create_tenant second_tenant) s db) o db' h)).claims_kept

abbrev ran : Result StoreError MutationResult × Database
ran = run_admin_mutation healthy request creation tables

ran_ok : ran ≡ (ok (record { response = said (codes "{}"); replayed = false }), ran.1)
unfolding run_admin_mutation mutation_statements claim_admin_idempotency run_claimed apply
    create_tenant_tx insert_tenant_row tenant_validate parse_currency validate_response
    with_tx_probe committed find_row update_rows insert_audit_event audit_validate bad_metadata
    new_uuid is_zero text_eq tenant_status_valid to_upper trim_space
ran_ok = refl

no_claims : UniqueClaims tables
no_claims = tt

mutation_runs_once_example :
    ((run_admin_mutation lossy request creation ran.1).1 ≡ ran.1)
    × IsReplayed (run_admin_mutation lossy request creation ran.1).0
mutation_runs_once_example =
    mutation_runs_once healthy request creation tables ran.1
      (record { response = said (codes "{}"); replayed = false }) creation-KeepsClaims no_claims
      ran_ok lossy creation

run_admin_mutation-IsWhole_example :
    IsWhole request creation lossy.session tables (run_admin_mutation lossy request creation tables)
run_admin_mutation-IsWhole_example =
    run_admin_mutation-IsWhole lossy request creation tables creation-KeepsClaims no_claims

abbrev claimed : Database
claimed = record tables { claims = new_claim request ∷ [] }

abbrev changed : Database
changed = database_of (creation session claimed)

creation_ok : creation session claimed ≡ ok (created, changed)
unfolding apply create_tenant_tx insert_tenant_row tenant_validate parse_currency find_row
    insert_audit_event audit_validate bad_metadata new_uuid is_zero text_eq tenant_status_valid
    to_upper trim_space
creation_ok = refl

not_claimed : row_of request tables ≡ none
unfolding find_row
not_claimed = refl

good_request : bad_request request ≡ false
unfolding is_zero text_eq
good_request = refl

first_valid : validate_response (said (codes "{}")) ≡ ok tt
unfolding validate_response text_eq
first_valid = refl

second_valid : validate_response (said (codes "[]")) ≡ ok tt
unfolding validate_response text_eq
second_valid = refl

fresh_mutation_completes_example :
    (run_admin_mutation healthy request creation tables ≡ (
      ok (record { response = said (codes "{}"); replayed = false }),
      complete request (said (codes "[]")) changed,
    ))
    × (run_admin_mutation healthy request creation (complete request (said (codes "[]")) changed)
        ≡ (ok (replay (said (codes "[]"))), complete request (said (codes "[]")) changed))
fresh_mutation_completes_example =
    fresh_mutation_completes healthy request creation tables changed created creation-KeepsClaims
      healthy-IsHealthy good_request not_claimed creation_ok first_valid second_valid healthy
      creation healthy-IsHealthy

-- The key of the request with another payload.
abbrev other_request : MutationRequest
other_request = record request { request_digest = replicate 32 3 }

digests_apart : text_eq (replicate 32 3) (replicate 32 2) ≡ false
unfolding text_eq
digests_apart = refl

reused : IsReused request other_request
reused = record {
  principal = refl;
  operation = refl;
  key = refl;
  payload = λ e. let t = text_eq_of_eq (replicate 32 3) (replicate 32 2) e in cc digests_apart;
}

good_other : bad_request other_request ≡ false
unfolding is_zero text_eq
good_other = refl

payload_conflict_refused_example :
    (s : Response) × IsKept other_request ran.1 s
    × ((text_eq s.body legacy_pending_response_body ≡ true)
        ⊎ (IsUnserved (run_admin_mutation lossy other_request creation ran.1) ran.1
            × (run_admin_mutation healthy other_request creation ran.1
                ≡ (err (classified kind_query (plain payload_conflict)), ran.1))))
payload_conflict_refused_example =
    payload_conflict_refused healthy request other_request creation tables ran.1
      (record { response = said (codes "{}"); replayed = false }) creation-KeepsClaims no_claims
      ran_ok reused lossy creation healthy healthy-IsHealthy good_other

applied :
    apply (an_id 7) (create_tenant second_tenant) session tables
    ≡ ok (database_of (creation session tables))
unfolding apply create_tenant_tx insert_tenant_row tenant_validate parse_currency find_row
    insert_audit_event audit_validate bad_metadata new_uuid is_zero text_eq tenant_status_valid
    to_upper trim_space
applied = refl

apply-IsAudited_example : IsAudited (an_id 7) tables (database_of (creation session tables))
apply-IsAudited_example =
    apply-IsAudited (an_id 7) (create_tenant second_tenant) session tables
      (database_of (creation session tables)) applied

-- A cursor as its time and its identifier.
abbrev cursor_read : Text → Option TenantCursor
cursor_read [] = none
cursor_read (t ∷ id) = some (record { created_at = t; id = id })

abbrev form : CursorForm
form = record { read = cursor_read; write = λ c. some (c.created_at ∷ c.id) }

abbrev two_tenants : Database
two_tenants = record tables {
  tenants =
      record { tenant = second_tenant; created_at = 6 }
      ∷ record { tenant = first_tenant; created_at = 5 }
      ∷ [];
}

replicate-small : (n c : ℕ) → c < 256 → All (λ b. b < 256) (replicate n c)
replicate-small zero c h = tt
replicate-small (suc n) c h = (h, replicate-small n c h)

two_tenants-IsDistinct : IsDistinct two_tenants.tenants
two_tenants-IsDistinct = (((λ e. cc), tt), (tt, tt))

first-IsListed : IsListed form (record { tenant = first_tenant; created_at = 5 })
first-IsListed = record {
  created = omega arith;
  identified = (refl, replicate-small 16 1 (omega arith));
  text = 5 ∷ to_string (an_id 1);
  written = refl;
  read_back = refl;
  not_empty = refl;
}

second-IsListed : IsListed form (record { tenant = second_tenant; created_at = 6 })
second-IsListed = record {
  created = omega arith;
  identified = (refl, replicate-small 16 2 (omega arith));
  text = 6 ∷ to_string (an_id 2);
  written = refl;
  read_back = refl;
  not_empty = refl;
}

walk_complete_example :
    walk form 1 session two_tenants 3 []
    ≡ ok (tenants_of (order_by tenant_before two_tenants.tenants))
walk_complete_example =
    walk_complete form 1 session two_tenants refl two_tenants-IsDistinct
      (second-IsListed, (first-IsListed, tt)) 3 (omega arith)
