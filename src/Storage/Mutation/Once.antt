-- ===== src/Storage/Mutation/Once.antt =====
-- internal/storage/postgres/identity.go: a mutation under one key runs at most once.
use urbino.Base.{
  ◌≡◌, refl, ap, ◌∙◌, sym, ◌⊎◌, inl, inr, Bool, true, false, not, ◌∷◌, Option, none, some,
  Bool-cases, arith,
}
use urbino.Base.Text.{text_eq, text_eq_refl}
use urbino.Base.Result.{Result, ok, err, >>=-ok, ok-injective, ◌>>=◌}
use urbino.Auth.Keys.{is_nil}
use urbino.Storage.Errors.{StoreError, plain, bad_response, incomplete_record}
use urbino.Storage.Database.{
  Response, Progress, pending, completed, ClaimRow, Database, Session, insert_claim, select_claim,
  end_claim, exec, find_row,
}
use urbino.Storage.Rows.{refuse_if-ok, find_row-update_same}
use urbino.Storage.Mutation.{
  MutationRequest, MutationResult, Mutation, existing, is_claim, new_claim, complete_row, complete,
  is_legacy, legacy_response, legacy_pending_response_body, claim_row, claim_found,
  claim_admin_idempotency, validate_response, replay, stored_response, stale_response,
  replay_existing, after_claim, mutation_statements,
}
use urbino.Storage.Mutation.Claims.{row_of, KeepsClaims, IsFirstRun, first_run}
use urbino.Storage.Mutation.Settled.{IsSettled}

new_claim-is_claim : (q : MutationRequest) → is_claim q (new_claim q) ≡ true
new_claim-is_claim q =
    rw (text_eq_refl q.principal, text_eq_refl q.operation, text_eq_refl q.key_digest) refl

body_there : (r : Response) → validate_response r ≡ ok tt → is_nil r.body ≡ false
unfolding validate_response
body_there r h = let g = refuse_if-ok _ (plain bad_response) h in ground arith

-- A run that ran the mutation has stored its response.
pub first_settles :
    (q : MutationRequest) (fn : Mutation) (session : Session) (db db' : Database)
    (r : MutationResult)
    → KeepsClaims fn
    → (f : IsFirstRun q fn session db db' r) → IsSettled q db' f.outcome.replay_response
unfolding find_row replay_existing
first_settles q fn session db db' r keeps f = record {
  row = complete_row f.outcome.replay_response (new_claim q);
  found =
      rw (f.written, keeps session _ f.outcome f.changed f.ran)
        (find_row-update_same (is_claim q) (complete_row f.outcome.replay_response) (λ s. refl)
          (new_claim q ∷ db.claims) (new_claim q) (rw (new_claim-is_claim q) refl));
  done = refl;
  answer = rw (text_eq_refl q.request_digest, body_there f.outcome.replay_response f.kept) refl;
}

stored_answer :
    (r : Response) (x : MutationResult) → stored_response (completed r) ≡ ok x → x ≡ replay r
stored_answer r x h = elim (Bool-cases (is_nil r.body)) [
  | inl e ↦
      let g : Path (Result StoreError MutationResult) (err (plain incomplete_record)) (ok x) =
        rw (← h, e) refl in
      cc
  | inr e ↦
      let g : Path (Result StoreError MutationResult) (ok (replay r)) (ok x) = rw (← h, e) refl in
      cc
]

stale_answer :
    (t : Bool) (r : Response) (x : MutationResult)
    → stale_response t (completed r) ≡ ok x
    → x ≡ replay r
stale_answer true r x h = cc
stale_answer false r x h = cc

answer_replay :
    (q : MutationRequest) (row : ClaimRow) (t : Bool) (r : Response) (x : MutationResult)
    → row.progress ≡ completed r
    → replay_existing q row t ≡ ok x
    → x ≡ replay r
unfolding replay_existing
answer_replay q row t r x p h =
    elim (Bool-cases (not (text_eq row.request_digest q.request_digest))) [
      | inl e ↦ stale_answer t r x (rw (← h, e, p) refl)
      | inr e ↦ stored_answer r x (rw (← h, e, p) refl)
    ]

legacy_answer :
    (q : MutationRequest) (row : ClaimRow)
    → row.progress ≡ pending
    → replay_existing q (complete_row legacy_response row) true ≡ ok (replay legacy_response)
unfolding replay_existing
legacy_answer q row p = elim (Bool-cases (text_eq row.request_digest q.request_digest)) [
  | inl e ↦ rw (e, p) refl
  | inr e ↦ rw (e, p) refl
]

-- What a run did that found a row: it answered with the stored response and wrote nothing, unless the
-- row was pending, which it ended.
pub record IsReplay (q : MutationRequest) (before after : Database) (x : MutationResult)
    (s : Response) : Type 0 where
  pub row : ClaimRow
  pub found : row_of q before ≡ some row
  pub answer : x ≡ replay s
  pub kept :
      (after ≡ before) ⊎ (row.progress ≡ pending) × (after ≡ complete q legacy_response before)

module _ (q : MutationRequest) (fn : Mutation) (session : Session) (db : Database) where
  existing_settles :
      (row : ClaimRow) (p : Progress) (x : MutationResult) (after : Database)
      → row_of q db ≡ some row
      → row.progress ≡ p
      → (claim_row session q db row p >>= after_claim q fn session) ≡ ok (x, after)
      → (s : Response) × IsSettled q after s × IsReplay q db after x s
  existing_settles row pending x after f p h =
      let (c, g, h1) = >>=-ok (claim_row session q db row pending) _ h in
      let (_, _, g1) = >>=-ok (exec session end_claim) _ g in
      let e : (existing (complete_row legacy_response row) true, complete q legacy_response db)
          ≡ c =
        ok-injective g1 in
      let h2 : after_claim q fn session
            (existing (complete_row legacy_response row) true, complete q legacy_response db)
          ≡ ok (x, after) =
        ap (after_claim q fn session) e ∙ h1 in
      let (y, a, h3) = >>=-ok (replay_existing q (complete_row legacy_response row) true) _ h2 in
      let y_is : replay legacy_response ≡ y = ok-injective (sym (legacy_answer q row p) ∙ a) in
      let same = ok-injective h3 in
      let x_is : y ≡ x = ap (λ (z : MutationResult × Database). z.0) same in
      let after_is : complete q legacy_response db ≡ after =
        ap (λ (z : MutationResult × Database). z.1) same in
      (
        legacy_response,
        record {
          row = complete_row legacy_response row;
          found = rw (← after_is) (
              find_row-update_same (is_claim q) (complete_row legacy_response) (λ s. refl) db.claims
                row f);
          done = rw p refl;
          answer = rw (text_eq_refl legacy_pending_response_body) (legacy_answer q row p);
        },
        record { row = row; found = f; answer = sym (y_is ∙ x_is); kept = inr (p, sym after_is) },
      )
  existing_settles row (completed r) x after f p h =
      let (y, a, h3) = >>=-ok (replay_existing q row (is_legacy (completed r))) _ h in
      let same = ok-injective h3 in
      let x_is : y ≡ x = ap (λ (z : MutationResult × Database). z.0) same in
      let after_is : db ≡ after = ap (λ (z : MutationResult × Database). z.1) same in
      let y_is = answer_replay q row (is_legacy (completed r)) r y p a in
      (
        r,
        record { row = row; found = rw (← after_is) f; done = p; answer = a ∙ ap ok y_is },
        record { row = row; found = f; answer = sym x_is ∙ y_is; kept = inl (sym after_is) },
      )

  found_settles :
      (o : Option ClaimRow) (x : MutationResult) (after : Database)
      → KeepsClaims fn
      → row_of q db ≡ o
      → (claim_found session q db o >>= after_claim q fn session) ≡ ok (x, after)
      → (s : Response) × IsSettled q after s
        × (IsFirstRun q fn session db after x ⊎ IsReplay q db after x s)
  found_settles none x after keeps f h =
      let first = first_run q fn session db x after f h in
      (first.outcome.replay_response, first_settles q fn session db after x keeps first, inl first)
  found_settles (some row) x after keeps f h =
      let (c, g, h1) = >>=-ok (claim_found session q db (some row)) _ h in
      let (_, _, g1) = >>=-ok (exec session select_claim) _ g in
      let (s, settled, answered) =
        existing_settles row row.progress x after f refl
          (ap (λ r. r >>= after_claim q fn session) g1 ∙ h1) in
      (s, settled, inr answered)

  -- The statements that succeed settle the key.
  pub statements_settle :
      (x : MutationResult) (after : Database)
      → KeepsClaims fn
      → mutation_statements q fn session db ≡ ok (x, after)
      → (s : Response) × IsSettled q after s
        × (IsFirstRun q fn session db after x ⊎ IsReplay q db after x s)
  unfolding mutation_statements claim_admin_idempotency
  statements_settle x after keeps h =
      let (c, g, h1) = >>=-ok (claim_admin_idempotency session q db) _ h in
      let (_, _, g1) = >>=-ok (exec session insert_claim) _ g in
      found_settles (row_of q db) x after keeps refl
        (ap (λ r. r >>= after_claim q fn session) g1 ∙ h1)
