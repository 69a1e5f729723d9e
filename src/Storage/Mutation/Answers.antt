-- ===== src/Storage/Mutation/Answers.antt =====
-- internal/storage/postgres/identity.go: what `RunAdminMutation` answers when nothing fails around it.
use urbino.Base.{◌≡◌, refl, false, ◌∷◌, none, some}
use urbino.Base.Result.{ok}
use urbino.Storage.Database.{Database, Session, Statement, insert_claim, complete_claim}
use urbino.Storage.Tx.{Connection}
use urbino.Storage.Tx.Atomic.{IsHealthy, with_tx_probe-healthy}
use urbino.Storage.Mutation.{
  MutationRequest, Outcome, MutationResult, Mutation, new_claim, complete, replay,
  validate_response, run_claimed, claim_admin_idempotency, mutation_statements, mutation_probe,
  bad_request, run_admin_mutation,
}
use urbino.Storage.Mutation.Claims.{row_of, KeepsClaims, IsFirstRun}
use urbino.Storage.Mutation.Settled.{IsSettled, run_healthy}
use urbino.Storage.Mutation.Once.{first_settles}

module _ (q : MutationRequest) (fn : Mutation) (db : Database) (o : Outcome) (changed : Database)
    (good : bad_request q ≡ false) (fresh : row_of q db ≡ none)
    (first : validate_response o.response ≡ ok tt)
    (kept : validate_response o.replay_response ≡ ok tt) where
  abbrev pub answer_of : MutationResult
  answer_of = record { response = o.response; replayed = false }

  fresh_statements :
      (session : Session)
      → ((t : Statement) → session.faults t ≡ none)
      → fn session (record db { claims = new_claim q ∷ db.claims }) ≡ ok (o, changed)
      → mutation_statements q fn session db ≡ ok (answer_of, complete q o.replay_response changed)
  unfolding mutation_statements claim_admin_idempotency run_claimed
  fresh_statements session accepts ran =
      rw (accepts insert_claim, fresh, ran, first, kept, accepts complete_claim) refl

-- A mutation under a fresh key, whose two responses are well-formed, completes when no call fails: it
-- is answered with its own response, and its database keeps the other one; from then on every request
-- of that key and payload that meets no failure is answered with the kept response, and its database
-- stays.
pub fresh_mutation_completes :
    (c : Connection) (q : MutationRequest) (fn : Mutation) (db changed : Database) (o : Outcome)
    → KeepsClaims fn
    → IsHealthy c
    → bad_request q ≡ false
    → row_of q db ≡ none
    → fn c.session (record db { claims = new_claim q ∷ db.claims }) ≡ ok (o, changed)
    → validate_response o.response ≡ ok tt
    → validate_response o.replay_response ≡ ok tt
    → (d : Connection) (other : Mutation) → IsHealthy d
    → (run_admin_mutation c q fn db ≡ (
      ok (record { response = o.response; replayed = false }),
      complete q o.replay_response changed,
    ))
      × (run_admin_mutation d q other (complete q o.replay_response changed)
          ≡ (ok (replay o.replay_response), complete q o.replay_response changed))
unfolding run_admin_mutation
fresh_mutation_completes c q fn db changed o keeps healthy good fresh ran first kept d other again =
    (
      rw good (
          with_tx_probe-healthy c (mutation_statements q fn) (some (mutation_probe q)) db
            (answer_of q fn db o changed good fresh first kept)
            (complete q o.replay_response changed) healthy
            (fresh_statements q fn db o changed good fresh first kept c.session healthy.accepts
              ran)),
      run_healthy q (complete q o.replay_response changed) o.replay_response settled d other good
          again,
    )
  where
    done :
        IsFirstRun q fn c.session db
          (complete q o.replay_response changed)
          (answer_of q fn db o changed good fresh first kept)
    done = record {
      outcome = o;
      changed = changed;
      fresh = fresh;
      ran = ran;
      checked = first;
      kept = kept;
      written = refl;
      answer = refl;
    }

    settled : IsSettled q (complete q o.replay_response changed) o.replay_response
    settled =
        first_settles q fn c.session db (complete q o.replay_response changed)
          (answer_of q fn db o changed good fresh first kept) keeps done
