-- ===== src/Storage/Mutation/Claims.antt =====
-- internal/storage/postgres/identity.go: what `RunAdminMutation` does with a key that was used before.
use urbino.Base.{◌≡◌, ap, sym, false, ◌∷◌, Option, none}
use urbino.Base.Result.{ok, >>=-ok, ok-injective}
use urbino.Storage.Database.{ClaimRow, Database, Session, complete_claim, exec, find_row}
use urbino.Storage.Mutation.{
  MutationRequest, Outcome, MutationResult, Mutation, is_claim, new_claim, complete,
  validate_response, run_claimed,
}

-- The row of a request in the table.
abbrev pub row_of : MutationRequest → Database → Option ClaimRow
row_of q db = find_row (is_claim q) db.claims

-- The mutation keeps out of the table of the keys, as the interface that it gets has no call for it.
abbrev pub KeepsClaims : Mutation → Type 0
KeepsClaims fn =
    (session : Session) (db : Database) (o : Outcome) (db' : Database)
    → fn session db ≡ ok (o, db')
    → db'.claims ≡ db.claims

-- What a run that was not a replay has done.
pub record IsFirstRun (q : MutationRequest) (fn : Mutation) (session : Session)
    (before after : Database) (r : MutationResult) : Type 0 where
  pub outcome : Outcome
  pub changed : Database
  pub fresh : row_of q before ≡ none
  pub ran :
      fn session (record before { claims = new_claim q ∷ before.claims }) ≡ ok (outcome, changed)
  pub checked : validate_response outcome.response ≡ ok tt
  pub kept : validate_response outcome.replay_response ≡ ok tt
  pub written : after ≡ complete q outcome.replay_response changed
  pub answer : r ≡ record { response = outcome.response; replayed = false }

pub first_run :
    (q : MutationRequest) (fn : Mutation) (session : Session) (db : Database) (r : MutationResult)
    (db' : Database)
    → row_of q db ≡ none
    → run_claimed q fn session (record db { claims = new_claim q ∷ db.claims }) ≡ ok (r, db')
    → IsFirstRun q fn session db db' r
unfolding run_claimed
first_run q fn session db r db' f h =
    let (p, ran, h1) = >>=-ok (fn session (record db { claims = new_claim q ∷ db.claims })) _ h in
    let (_, checked, h2) = >>=-ok (validate_response p.0.response) _ h1 in
    let (_, kept, h3) = >>=-ok (validate_response p.0.replay_response) _ h2 in
    let (_, _, h4) = >>=-ok (exec session complete_claim) _ h3 in
    let e = ok-injective h4 in
    record {
      outcome = p.0;
      changed = p.1;
      fresh = f;
      ran = ran;
      checked = checked;
      kept = kept;
      written = sym (ap (λ (x : MutationResult × Database). x.1) e);
      answer = sym (ap (λ (x : MutationResult × Database). x.0) e);
    }
