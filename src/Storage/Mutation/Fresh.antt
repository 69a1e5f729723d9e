-- ===== src/Storage/Mutation/Fresh.antt =====
-- internal/storage/postgres/identity.go: a success of `RunAdminMutation` under a fresh key.
use mathlib.Core.Path.{subst}
use urbino.Base.{◌≡◌, ap, inl, inr, false, none, some, Bool-cases}
use urbino.Base.Result.{Result, ok, Result-cases, ok-injective}
use urbino.Storage.Errors.{StoreError}
use urbino.Storage.Database.{Database}
use urbino.Storage.Tx.{Connection}
use urbino.Storage.Tx.Atomic.{IsHealthy, with_tx_probe-healthy, with_tx_probe-healthy_err}
use urbino.Storage.Mutation.{
  MutationRequest, MutationResult, Mutation, mutation_statements, mutation_probe, bad_request,
  run_admin_mutation,
}
use urbino.Storage.Mutation.Claims.{row_of, KeepsClaims, IsFirstRun}
use urbino.Storage.Mutation.Once.{statements_settle}

module _ (c : Connection) (q : MutationRequest) (fn : Mutation) (db db' : Database)
    (y : MutationResult) (healthy : IsHealthy c) (keeps : KeepsClaims fn)
    (fresh : row_of q db ≡ none) (h : run_admin_mutation c q fn db ≡ (ok y, db')) where
  -- The request was well-formed.
  pub success_good : bad_request q ≡ false
  unfolding run_admin_mutation
  success_good = elim (Bool-cases (bad_request q)) [
    | inl bad ↦ let h' = rw bad at h in cc
    | inr good ↦ good
  ]

  of_statements :
      (x : MutationResult) (after : Database)
      → mutation_statements q fn c.session db ≡ ok (x, after)
      → IsFirstRun q fn c.session db after x
  of_statements x after g =
      let (s, _, how) = statements_settle q fn c.session db x after keeps g in
      elim how [ inl first ↦ first | inr replayed ↦ let found = replayed.found in cc ]

  -- The mutation was run.
  pub success_first : IsFirstRun q fn c.session db db' y
  unfolding run_admin_mutation
  success_first = elim (Result-cases (mutation_statements q fn c.session db)) [
    | inl ((x, after), g) ↦
        let h' =
          rw
            (
              success_good,
              with_tx_probe-healthy c (mutation_statements q fn) (some (mutation_probe q)) db x
                  after healthy g,
            )
            at h in
        let same_answer : x ≡ y =
          ok-injective (ap (λ (r : Result StoreError MutationResult × Database). r.0) h') in
        let same_db : after ≡ db' =
          ap (λ (r : Result StoreError MutationResult × Database). r.1) h' in
        subst (λ z. IsFirstRun q fn c.session db db' z) same_answer
          (subst (λ d. IsFirstRun q fn c.session db d x) same_db (of_statements x after g))
    | inr (e, g) ↦
        let h' =
          rw
            (
              success_good,
              with_tx_probe-healthy_err c (mutation_statements q fn) (some (mutation_probe q)) db e
                  healthy g,
            )
            at h in
        cc
  ]
