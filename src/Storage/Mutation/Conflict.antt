-- ===== src/Storage/Mutation/Conflict.antt =====
-- internal/storage/postgres/identity.go: `RunAdminMutation` under a key that was used for another payload.
use urbino.Base.{◌≡◌, ◌≢◌, refl, ◌∙◌, sym, ◌⊎◌, inl, inr, true, false, none, some, Bool-cases}
use urbino.Base.Text.{text_eq, eq_of_text_eq}
use urbino.Base.Result.{Result, ok, err, Result-cases}
use urbino.Storage.Errors.{
  StoreError, plain, classified, kind_query, error_kind, classify_error, causes, any_cause, pg_code,
  kind_of_code, payload_conflict, bad_mutation,
}
use urbino.Storage.Database.{
  Response, completed, ClaimRow, Database, Session, Statement, insert_claim, select_claim,
  refuse_if, exec,
}
use urbino.Storage.Tx.{Connection, with_tx_probe, checked_run}
use urbino.Storage.Tx.Atomic.{IsHealthy, with_tx_probe-refused, with_tx_probe-healthy_err}
use urbino.Storage.Mutation.{
  MutationRequest, MutationResult, Mutation, existing, is_legacy, legacy_pending_response_body,
  replay, replay_existing, claim_admin_idempotency, mutation_statements, mutation_probe,
  bad_request, run_admin_mutation,
}
use urbino.Storage.Mutation.Claims.{row_of, KeepsClaims}
use urbino.Storage.Mutation.Settled.{IsSettled}
use urbino.Storage.Mutation.Exactly.{UniqueClaims, IsRun, run_admin_mutation-IsWhole}

-- The same key of the same principal for the same operation, with another payload.
pub record IsReused (q q' : MutationRequest) : Type 0 where
  pub principal : q'.principal ≡ q.principal
  pub operation : q'.operation ≡ q.operation
  pub key : q'.key_digest ≡ q.key_digest
  pub payload : q'.request_digest ≢ q.request_digest

-- The response that the table of the keys has for a request.
pub record IsKept (q : MutationRequest) (db : Database) (s : Response) : Type 0 where
  pub row : ClaimRow
  pub found : row_of q db ≡ some row
  pub done : row.progress ≡ completed s

-- An error that leaves the database as it is.
abbrev pub IsUnserved : Result StoreError MutationResult × Database → Database → Type 0
IsUnserved r db = (e : StoreError) × (r ≡ (err e, db))

module _ (q q' : MutationRequest) (db : Database) (s : Response) (reused : IsReused q q')
    (settled : IsSettled q db s) where
  same_row : row_of q' db ≡ some settled.row
  same_row = rw (reused.principal, reused.operation, reused.key) settled.found

  kept : IsKept q' db s
  kept = record { row = settled.row; found = same_row; done = settled.done }

  -- A row whose response is not the legacy one answers only the payload that it was written for.
  written_for :
      is_legacy (completed s) ≡ false → text_eq settled.row.request_digest q.request_digest ≡ true
  unfolding replay_existing
  written_for live = elim (Bool-cases (text_eq settled.row.request_digest q.request_digest)) [
    | inl e ↦ e
    | inr e ↦
        let f : Path (Result StoreError MutationResult) (err (plain payload_conflict))
            (ok (replay s)) =
          rw (← settled.answer, e, live) refl in
        cc
  ]

  other_payload :
      is_legacy (completed s) ≡ false → text_eq settled.row.request_digest q'.request_digest ≡ false
  other_payload live =
      let mine = eq_of_text_eq settled.row.request_digest q.request_digest (written_for live) in
      elim (Bool-cases (text_eq settled.row.request_digest q'.request_digest)) [
        | inl e ↦
            let theirs = eq_of_text_eq settled.row.request_digest q'.request_digest e in
            absurd (reused.payload (sym theirs ∙ mine))
        | inr e ↦ e
      ]

  refused_row :
      is_legacy (completed s) ≡ false
      → replay_existing q' settled.row (is_legacy (completed s)) ≡ err (plain payload_conflict)
  unfolding replay_existing
  refused_row live = rw (other_payload live, live) refl

  -- The claim finds the row, unless one of its calls fails.
  claim_found_row :
      (session : Session)
      → ((e : StoreError) × (claim_admin_idempotency session q' db ≡ err e))
        ⊎ (claim_admin_idempotency session q' db
            ≡ ok (existing settled.row (is_legacy (completed s)), db))
  unfolding claim_admin_idempotency
  claim_found_row session = elim (Result-cases (exec session insert_claim)) [
    | inr (e, f) ↦ inl (e, rw f refl)
    | inl (_, f) ↦ elim (Result-cases (exec session select_claim)) [
      | inr (e, g) ↦ inl (e, rw (f, same_row, g) refl)
      | inl (_, g) ↦ inr (rw (f, same_row, g, settled.done) refl)
    ]
  ]

  conflict_fails :
      is_legacy (completed s) ≡ false
      → (fn : Mutation) (session : Session)
      → (e : StoreError) × (mutation_statements q' fn session db ≡ err e)
  unfolding mutation_statements
  conflict_fails live fn session = elim (claim_found_row session) [
    | inl (e, f) ↦ (e, rw f refl)
    | inr f ↦ (plain payload_conflict, rw (f, refused_row live) refl)
  ]

  claim_healthy_row :
      (session : Session)
      → ((t : Statement) → session.faults t ≡ none)
      → claim_admin_idempotency session q' db
        ≡ ok (existing settled.row (is_legacy (completed s)), db)
  unfolding claim_admin_idempotency
  claim_healthy_row session accepts =
      rw (accepts insert_claim, same_row, accepts select_claim) (rw settled.done refl)

  conflict_named :
      is_legacy (completed s) ≡ false
      → (fn : Mutation) (session : Session) → ((t : Statement) → session.faults t ≡ none)
      → mutation_statements q' fn session db ≡ err (plain payload_conflict)
  unfolding mutation_statements
  conflict_named live fn session accepts =
      rw (claim_healthy_row session accepts, refused_row live) refl

  refused :
      is_legacy (completed s) ≡ false
      → (c : Connection) (fn : Mutation) → IsUnserved (run_admin_mutation c q' fn db) db
  unfolding run_admin_mutation
  refused live c fn = checked (refuse_if (bad_request q') (plain bad_mutation))
    where
      checked :
          (r : Result StoreError (Unit {0}))
          → IsUnserved
              (checked_run db r
                (with_tx_probe c (mutation_statements q' fn) (some (mutation_probe q')) db))
              db
      checked (err e) = (e, refl)
      checked (ok t) =
          with_tx_probe-refused c (mutation_statements q' fn) (some (mutation_probe q')) db
            (conflict_fails live fn)

  named :
      is_legacy (completed s) ≡ false
      → (c : Connection) (fn : Mutation) → IsHealthy c
      → bad_request q' ≡ false
      → run_admin_mutation c q' fn db ≡ (err (classified kind_query (plain payload_conflict)), db)
  unfolding run_admin_mutation classify_error error_kind causes any_cause pg_code kind_of_code
  named live c fn healthy good = rw good (
      with_tx_probe-healthy_err c (mutation_statements q' fn) (some (mutation_probe q')) db
        (plain payload_conflict) healthy (conflict_named live fn c.session healthy.accepts))

-- A key that has succeeded once is refused for another payload. After a success, with the mutation run
-- or a replay, on a table with one row for a key and by a mutation that keeps out of that table, the
-- table has a response for the key. Unless that is the legacy response, which says that the first
-- outcome is unknown, every request of the same principal, operation and key with another payload ends
-- with an error and leaves the database as it is, whatever it would run and whatever its calls meet; as
-- the request is well-formed, the error is the one for a conflict of payloads when none of its calls
-- fails.
pub payload_conflict_refused :
    (c : Connection) (q q' : MutationRequest) (fn : Mutation) (db db' : Database)
    (y : MutationResult)
    → KeepsClaims fn
    → UniqueClaims db
    → run_admin_mutation c q fn db ≡ (ok y, db')
    → IsReused q q'
    → (d : Connection) (other : Mutation) (healthy : Connection) → IsHealthy healthy
    → bad_request q' ≡ false
    → (s : Response) × IsKept q' db' s
      × ((text_eq s.body legacy_pending_response_body ≡ true)
          ⊎ (IsUnserved (run_admin_mutation d q' other db') db'
              × (run_admin_mutation healthy q' other db'
                  ≡ (err (classified kind_query (plain payload_conflict)), db'))))
payload_conflict_refused c q q' fn db db' y keeps unique h reused d other healthy fine good =
    let whole = run_admin_mutation-IsWhole c q fn db keeps unique in
    let run : IsRun q fn c.session db db' = rw h at whole in
    let s = run.response in
    let settled = run.settled in
    (
      s,
      kept q q' db' s reused settled,
      elim (Bool-cases (text_eq s.body legacy_pending_response_body)) [
        | inl legacy ↦ inl legacy
        | inr live ↦ inr (
          refused q q' db' s reused settled live d other,
          named q q' db' s reused settled live healthy other fine good,
        )
      ],
    )
