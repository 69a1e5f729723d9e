-- ===== src/Storage/Mutation/Settled.antt =====
-- internal/storage/postgres/identity.go: a key whose response is stored, and what `RunAdminMutation`
-- does with it.
use urbino.Base.{
  ◌≡◌, refl, ap, ◌∙◌, sym, ◌⊎◌, inl, inr, true, false, Option, none, some, Bool-cases,
}
use urbino.Base.Result.{Result, ok, err, Result-cases, ok-injective}
use urbino.Storage.Errors.{incomplete_record, StoreError, plain, bad_mutation}
use urbino.Storage.Database.{
  Response, Progress, pending, completed, ClaimRow, Database, Session, Statement, insert_claim,
  select_claim, exec, refuse_if,
}
use urbino.Storage.Tx.{Connection, with_tx_probe, checked_run}
use urbino.Storage.Tx.Atomic.{
  IsHealthy, with_tx_probe-healthy, with_tx_probe-unchanged, with_tx_probe-result, checked_run-ok,
}
use urbino.Storage.Mutation.{
  probed_progress, is_nil, MutationRequest, MutationResult, Mutation, existing, is_legacy,
  claim_admin_idempotency, replay, replay_existing, mutation_statements, mutation_probe, probed_row,
  bad_request, run_admin_mutation,
}
use urbino.Storage.Mutation.Claims.{row_of}

-- The key of a request is used up, and the response that it is answered with from then on.
pub record IsSettled (q : MutationRequest) (db : Database) (s : Response) : Type 0 where
  pub row : ClaimRow
  pub found : row_of q db ≡ some row
  pub done : row.progress ≡ completed s
  pub answer : replay_existing q row (is_legacy (completed s)) ≡ ok (replay s)

module _ (q : MutationRequest) (db : Database) (s : Response) (settled : IsSettled q db s) where
  claim_settled :
      (session : Session)
      → ((e : StoreError) × (claim_admin_idempotency session q db ≡ err e))
        ⊎ (claim_admin_idempotency session q db
            ≡ ok (existing settled.row (is_legacy (completed s)), db))
  unfolding claim_admin_idempotency
  claim_settled session = elim (Result-cases (exec session insert_claim)) [
    | inr (e, f) ↦ inl (e, rw f refl)
    | inl (_, f) ↦ elim (Result-cases (exec session select_claim)) [
      | inr (e, g) ↦ inl (e, rw (f, settled.found, g) refl)
      | inl (_, g) ↦ inr (rw (f, settled.found, g, settled.done) refl)
    ]
  ]

  -- The statements fail or answer with the stored response; the mutation is not run.
  pub mutation_settled :
      (fn : Mutation) (session : Session)
      → ((e : StoreError) × (mutation_statements q fn session db ≡ err e))
        ⊎ (mutation_statements q fn session db ≡ ok (replay s, db))
  unfolding mutation_statements
  mutation_settled fn session = elim (claim_settled session) [
    | inl (e, f) ↦ inl (e, rw f refl)
    | inr f ↦ inr (rw (f, settled.answer) refl)
  ]

  claim_healthy :
      (session : Session)
      → ((t : Statement) → session.faults t ≡ none)
      → claim_admin_idempotency session q db
        ≡ ok (existing settled.row (is_legacy (completed s)), db)
  unfolding claim_admin_idempotency
  claim_healthy session accepts =
      rw (accepts insert_claim, settled.found, accepts select_claim) (rw settled.done refl)

  healthy_settled :
      (fn : Mutation) (session : Session)
      → ((t : Statement) → session.faults t ≡ none)
      → mutation_statements q fn session db ≡ ok (replay s, db)
  unfolding mutation_statements
  healthy_settled fn session accepts = rw (claim_healthy session accepts, settled.answer) refl

  pub run_unchanged : (c : Connection) (fn : Mutation) → (run_admin_mutation c q fn db).1 ≡ db
  unfolding run_admin_mutation
  run_unchanged c fn = checked (refuse_if (bad_request q) (plain bad_mutation))
    where
      writes_nothing :
          (session : Session)
          → ((e : StoreError) × (mutation_statements q fn session db ≡ err e))
            ⊎ ((x : MutationResult) × (mutation_statements q fn session db ≡ ok (x, db)))
      writes_nothing session = elim (mutation_settled fn session) [
        | inl f ↦ inl f
        | inr f ↦ inr (replay s, f)
      ]

      checked :
          (r : Result StoreError (Unit {0}))
          → (checked_run db r
              (with_tx_probe c (mutation_statements q fn) (some (mutation_probe q)) db)).1
            ≡ db
      checked (err e) = refl
      checked (ok t) =
          with_tx_probe-unchanged c (mutation_statements q fn) db (some (mutation_probe q))
            writes_nothing

  pub run_healthy :
      (c : Connection) (fn : Mutation)
      → bad_request q ≡ false
      → IsHealthy c
      → run_admin_mutation c q fn db ≡ (ok (replay s), db)
  unfolding run_admin_mutation
  run_healthy c fn good healthy = rw good (
      with_tx_probe-healthy c (mutation_statements q fn) (some (mutation_probe q)) db (replay s) db
        healthy (healthy_settled fn c.session healthy.accepts))

probed_replay :
    (p : Progress) (y : MutationResult) → probed_progress p ≡ ok (some y) → y.replayed ≡ true
probed_replay pending y h = cc
probed_replay (completed r) y h = elim (Bool-cases (is_nil r.body)) [
  | inl e ↦
      let h' : Path (Result StoreError (Option MutationResult)) (err (plain incomplete_record))
          (ok (some y)) =
        rw (← h, e) refl in
      cc
  | inr e ↦
      let h' : Path (Result StoreError (Option MutationResult)) (ok (some (replay r)))
          (ok (some y)) =
        rw (← h, e) refl in
      let same : replay r ≡ y = cc in rw (← same) refl
]

row_replay :
    (o : Option ClaimRow) (y : MutationResult) → probed_row o ≡ ok (some y) → y.replayed ≡ true
row_replay none y h = cc
row_replay (some row) y h = probed_replay row.progress y h

-- Every answer from then on is a replay.
pub run_settled-replayed :
    (q : MutationRequest) (db : Database) (s : Response)
    → IsSettled q db s
    → (c : Connection) (fn : Mutation) (y : MutationResult) (db' : Database)
    → run_admin_mutation c q fn db ≡ (ok y, db')
    → y.replayed ≡ true
unfolding run_admin_mutation
run_settled-replayed q db s settled c fn y db' h =
    with_tx_probe-result (λ (x : MutationResult). x.replayed ≡ true) c (mutation_probe q)
      (λ x z found e. row_replay _ z e) (mutation_statements q fn) db y db'
      (λ session x after e. statements session x after e)
      (checked_run-ok db (refuse_if (bad_request q) (plain bad_mutation))
        (with_tx_probe c (mutation_statements q fn) (some (mutation_probe q)) db) y db' h)
  where
    statements :
        (session : Session) (x : MutationResult) (after : Database)
        → mutation_statements q fn session db ≡ ok (x, after)
        → x.replayed ≡ true
    statements session x after e = elim (mutation_settled q db s settled fn session) [
      | inl (e', f) ↦
          let g : Path (Result StoreError (MutationResult × Database)) (err e') (ok (x, after)) =
            sym f ∙ e in
          cc
      | inr f ↦
          let g : Path (Result StoreError (MutationResult × Database)) (ok (replay s, db))
              (ok (x, after)) =
            sym f ∙ e in
          let same : replay s ≡ x = ap (λ (p : MutationResult × Database). p.0) (ok-injective g) in
          rw (← same) refl
    ]
