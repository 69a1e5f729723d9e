-- ===== src/Storage/Mutation/Exactly.antt =====
-- internal/storage/postgres/identity.go: `RunAdminMutation` as a whole, with its commit and its probe.
use urbino.Base.{
  ◌≡◌, refl, ap, ◌∙◌, sym, ◌⊎◌, inl, inr, Bool, true, false, ◌&&◌, List, [], ◌∷◌, Option, none,
  some, Bool-cases, arith,
}
use urbino.Base.Text.{text_eq, eq_of_text_eq}
use urbino.Base.Result.{Result, ok, err}
use urbino.Auth.Keys.{is_nil}
use urbino.Storage.Errors.{StoreError, plain, bad_mutation, incomplete_record}
use urbino.Storage.Database.{
  Response, Progress, pending, completed, ClaimRow, Database, Session, refuse_if, find_row,
  update_rows,
}
use urbino.Storage.Tx.{Connection, with_tx_probe, checked_run}
use urbino.Storage.Tx.Atomic.{IsUndone, IsAtomic, IsTelling, with_tx_probe-IsAtomic}
use urbino.Storage.Rows.{IsUnique, unique_row}
use urbino.Storage.Mutation.{
  MutationRequest, MutationResult, Mutation, is_claim, complete_row, completed_progress, complete,
  legacy_response, replay, mutation_statements, mutation_probe, probed_progress, probed_row,
  bad_request, run_admin_mutation,
}
use urbino.Storage.Mutation.Claims.{KeepsClaims, IsFirstRun}
use urbino.Storage.Mutation.Settled.{IsSettled, run_unchanged, run_settled-replayed}
use urbino.Storage.Mutation.Once.{IsReplay, statements_settle}

-- The primary key of `admin_idempotency`.
abbrev pub same_claim : ClaimRow → ClaimRow → Bool
same_claim r s =
    text_eq s.principal r.principal
    && text_eq s.operation r.operation
    && text_eq s.key_digest r.key_digest

abbrev pub UniqueClaims : Database → Type 0
UniqueClaims db = IsUnique same_claim db.claims

is_claim-parts :
    (q : MutationRequest) (r : ClaimRow)
    → is_claim q r ≡ true
    → (text_eq r.principal q.principal ≡ true)
      × (text_eq r.operation q.operation ≡ true)
      × (text_eq r.key_digest q.key_digest ≡ true)
is_claim-parts q r h = ground arith

is_claim-same :
    (q : MutationRequest) (r : ClaimRow) → is_claim q r ≡ true → same_claim r ≡ is_claim q
is_claim-same q r h =
    let (a, b, c) = is_claim-parts q r h in
    let p = eq_of_text_eq r.principal q.principal a in
    let o = eq_of_text_eq r.operation q.operation b in
    let k = eq_of_text_eq r.key_digest q.key_digest c in rw (p, o, k) refl

-- The test of the probe.
abbrev is_request : MutationRequest → ClaimRow → Bool
is_request q row = is_claim q row && text_eq row.request_digest q.request_digest

is_request-is_claim :
    (q : MutationRequest) (r : ClaimRow) → is_request q r ≡ true → is_claim q r ≡ true
is_request-is_claim q r h = ground arith

-- No row of the key is pending after it was completed.
completed_all :
    (q : MutationRequest) (s : Response) (rows : List ClaimRow) (r : ClaimRow)
    → find_row (is_request q) (update_rows (is_claim q) (complete_row s) rows) ≡ some r
    → (t : Response) × (r.progress ≡ completed t)
unfolding find_row update_rows
completed_all q s [] r h = cc
completed_all q s (p ∷ rows) r h = elim (Bool-cases (is_claim q p)) [
  | inl e ↦ elim (Bool-cases (is_request q (complete_row s p))) [
    | inl i ↦
        let g : Path (Option ClaimRow) (some (complete_row s p)) (some r) = rw (← h, e, i) refl in
        let same : complete_row s p ≡ r = cc in
        by_progress p.progress (sym (ap (λ (x : ClaimRow). x.progress) same))
    | inr i ↦ completed_all q s rows r (rw (← h, e, i) refl)
  ]
  | inr e ↦
      let i : is_request q p ≡ false = rw e refl in completed_all q s rows r (rw (← h, e, i) refl)
]
  where
    by_progress :
        (p' : Progress)
        → r.progress ≡ completed_progress s p'
        → (t : Response) × (r.progress ≡ completed t)
    by_progress pending h' = (s, h')
    by_progress (completed t) h' = (t, h')

probed_none :
    (o : Option ClaimRow)
    → probed_row o ≡ ok none
    → (r : ClaimRow) × (o ≡ some r) × (r.progress ≡ pending)
probed_none none h = cc
probed_none (some r) h = (r, refl, by_progress r.progress h)
  where
    by_progress : (p : Progress) → probed_progress p ≡ ok none → p ≡ pending
    by_progress pending h' = refl
    by_progress (completed t) h' = elim (Bool-cases (is_nil t.body)) [
      | inl e ↦
          let g : Path (Result StoreError (Option MutationResult)) (err (plain incomplete_record))
              (ok none) =
            rw (← h', e) refl in
          cc
      | inr e ↦
          let g : Path (Result StoreError (Option MutationResult)) (ok (some (replay t)))
              (ok none) =
            rw (← h', e) refl in
          cc
    ]

probed_some :
    (o : Option ClaimRow) (y : MutationResult)
    → probed_row o ≡ ok (some y)
    → (r : ClaimRow) × (t : Response) × (o ≡ some r) × (r.progress ≡ completed t)
probed_some none y h = cc
probed_some (some r) y h = let (t, e) = by_progress r.progress h in (r, t, refl, e)
  where
    by_progress :
        (p : Progress) → probed_progress p ≡ ok (some y) → (t : Response) × (p ≡ completed t)
    by_progress pending h' = cc
    by_progress (completed t) h' = (t, refl)

module _ (q : MutationRequest) (fn : Mutation) (session : Session) (db : Database)
    (keeps : KeepsClaims fn) (unique : UniqueClaims db) where
  -- The probe tells a commit from none.
  mutation_probe-IsTelling : IsTelling (mutation_statements q fn session db) (mutation_probe q) db
  mutation_probe-IsTelling = record {
    confirms = λ x after h e. confirmed x after h e;
    denies = λ x y after h e. denied x y after h e;
  }
    where
      completed_by :
          (s : Response) (d after : Database)
          → after ≡ complete q s d
          → probed_row (find_row (is_request q) after.claims) ≡ ok none
          → after ≡ db
      completed_by s d after w e =
          let (r, f, p) = probed_none (find_row (is_request q) after.claims) e in
          let f' : find_row (is_request q) (update_rows (is_claim q) (complete_row s) d.claims)
              ≡ some r =
            ap (λ (z : Database). find_row (is_request q) z.claims) (sym w) ∙ f in
          let (t, g) = completed_all q s d.claims r f' in
          let both : Path Progress pending (completed t) = sym p ∙ g in cc

      confirmed :
          (x : MutationResult) (after : Database)
          → mutation_statements q fn session db ≡ ok (x, after)
          → mutation_probe q x after ≡ ok none
          → after ≡ db
      confirmed x after h e = elim ((statements_settle q fn session db x after keeps h).2) [
        | inl first ↦ completed_by first.outcome.replay_response first.changed after first.written e
        | inr again ↦ elim again.kept [
          | inl same ↦ same
          | inr (p, w) ↦ completed_by legacy_response db after w e
        ]
      ]

      denied :
          (x y : MutationResult) (after : Database)
          → mutation_statements q fn session db ≡ ok (x, after)
          → mutation_probe q x db ≡ ok (some y)
          → after ≡ db
      denied x y after h e =
          let (r, t, f, p) = probed_some (find_row (is_request q) db.claims) y e in
          let there =
            unique_row same_claim (is_claim q) (is_request q) (is_claim-same q)
              (is_request-is_claim q) db.claims r unique f in
          elim ((statements_settle q fn session db x after keeps h).2) [
            | inl first ↦
                let both : Path (Option ClaimRow) none (some r) = sym first.fresh ∙ there in cc
            | inr again ↦ elim again.kept [
              | inl same ↦ same
              | inr (p', w) ↦
                  let same : Path (Option ClaimRow) (some again.row) (some r) =
                    sym again.found ∙ there in
                  let one : again.row ≡ r = cc in
                  let both : Path Progress pending (completed t) =
                    sym p' ∙ ap (λ (z : ClaimRow). z.progress) one ∙ p in
                  cc
            ]
          ]

-- What a success tells: the statements ran as a whole, and either they ran the mutation under a fresh
-- key and kept its response, or they found the response and at most ended a pending row.
pub record IsRun (q : MutationRequest) (fn : Mutation) (session : Session) (before after : Database)
    : Type 0 where
  pub response : Response
  pub value : MutationResult
  pub settled : IsSettled q after response
  pub how : IsFirstRun q fn session before after value ⊎ IsReplay q before after value response

-- The two outcomes of `RunAdminMutation`.
abbrev pub IsWhole :
    MutationRequest
    → Mutation
    → Session
    → Database
    → Result StoreError MutationResult × Database
    → Type 0
IsWhole q fn session before (err e, after) = IsUndone e before after
IsWhole q fn session before (ok y, after) = IsRun q fn session before after

-- `RunAdminMutation` is all or nothing, also when the response of the commit is lost, for a mutation
-- that keeps out of the table of the keys: a success has run the mutation, its audit rows and the
-- stored response together under a key that was fresh, or has answered from a stored response; an
-- error leaves the database as it was, or is the one that says that the outcome is unknown.
pub run_admin_mutation-IsWhole :
    (c : Connection) (q : MutationRequest) (fn : Mutation) (db : Database)
    → KeepsClaims fn
    → UniqueClaims db
    → IsWhole q fn c.session db (run_admin_mutation c q fn db)
unfolding run_admin_mutation
run_admin_mutation-IsWhole c q fn db keeps unique =
    checked (refuse_if (bad_request q) (plain bad_mutation))
  where
    whole :
        (r : Result StoreError MutationResult × Database)
        → IsAtomic (mutation_statements q fn c.session db) (mutation_probe q) db r
        → IsWhole q fn c.session db r
    whole (err e, after) a = a
    whole (ok y, after) a =
        let (s, settled, how) = statements_settle q fn c.session db a.value after keeps a.written in
        record { response = s; value = a.value; settled = settled; how = how }

    checked :
        (r : Result StoreError (Unit {0}))
        → IsWhole q fn c.session db (
            checked_run db r
              (with_tx_probe c (mutation_statements q fn) (some (mutation_probe q)) db))
    checked (err e) = record { undone = inl refl }
    checked (ok t) =
        whole (with_tx_probe c (mutation_statements q fn) (some (mutation_probe q)) db) (
          with_tx_probe-IsAtomic c (mutation_statements q fn) (mutation_probe q) db
            (mutation_probe-IsTelling q fn c.session db keeps unique))

-- An answer that did not run the mutation.
abbrev pub IsReplayed : Result StoreError MutationResult → Type 0
IsReplayed (ok y) = y.replayed ≡ true
IsReplayed (err e) = Unit

-- A mutation runs at most once under a key: after a success, with the mutation run or a replay, no
-- request of the same key and payload changes the database, whatever it would run and whatever its
-- calls meet, and if it succeeds its answer is marked as a replay.
pub mutation_runs_once :
    (c : Connection) (q : MutationRequest) (fn : Mutation) (db db' : Database) (y : MutationResult)
    → KeepsClaims fn
    → UniqueClaims db
    → run_admin_mutation c q fn db ≡ (ok y, db')
    → (d : Connection) (other : Mutation)
    → ((run_admin_mutation d q other db').1 ≡ db') × IsReplayed (run_admin_mutation d q other db').0
mutation_runs_once c q fn db db' y keeps unique h d other =
    let whole = run_admin_mutation-IsWhole c q fn db keeps unique in
    let run : IsRun q fn c.session db db' = rw h at whole in
    (run_unchanged q db' run.response run.settled d other, answered run.settled)
  where
    answered : {s : Response} → IsSettled q db' s → IsReplayed (run_admin_mutation d q other db').0
    answered {s = s} settled = by_result (run_admin_mutation d q other db') refl
      where
        by_result :
            (r : Result StoreError MutationResult × Database)
            → run_admin_mutation d q other db' ≡ r
            → IsReplayed r.0
        by_result (ok z, db'') e = run_settled-replayed q db' s settled d other z db'' e
        by_result (err z, db'') e = tt
