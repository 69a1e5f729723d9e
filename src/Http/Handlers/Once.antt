-- ===== src/Http/Handlers/Once.antt =====
-- internal/httpapi/admin.go with internal/storage/postgres: the key of a creation is shown once.
use urbino.Base.{◌≡◌, refl, ap, ◌∙◌, sym, ℕ, false, not, List, Option, none}
use urbino.Base.Text.{Text, codes}
use urbino.Base.Space.{trim_space}
use urbino.Base.Result.{Result, ok, err, >>=-ok, guard-ok, ok-injective}
use urbino.Domain.Uuid.{Uuid, parse_uuid}
use urbino.Auth.Time.{Time, before, sub_time}
use urbino.Auth.Keys.{KeyRecord, Issued, Pepper, issue}
use urbino.Auth.Service.{AdminPrincipal}
use urbino.Storage.Errors.{StoreError, plain, bad_expiry}
use urbino.Storage.Database.{Response, Database, Session}
use urbino.Storage.Tx.Atomic.{IsHealthy}
use urbino.Storage.ApiKeys.{create_api_key_tx}
use urbino.Storage.Operations.{create_key, apply}
use urbino.Storage.Operations.Audited.{apply-IsAudited}
use urbino.Storage.Mutation.{MutationRequest, Outcome, MutationResult, Mutation, run_admin_mutation}
use urbino.Storage.Mutation.Claims.{row_of, KeepsClaims}
use urbino.Storage.Mutation.Settled.{run_healthy}
use urbino.Storage.Mutation.Once.{first_settles}
use urbino.Storage.Mutation.Fresh.{success_good, success_first}
use urbino.Http.Errors.{AdminError}
use urbino.Http.Json.{Token}
use urbino.Http.Parsing.{key_scopes, key_models}
use urbino.Http.Admin.{
  shown, View, created_json, replay_json, api_key_view, HttpRequest, Reply, failed, mutated,
  CreateKey,
}
use urbino.Http.Handlers.{
  Connection, or_refuse, or_say, some_or_refuse, decode_admin_body, Calls, mutation_reply,
  run_checked, mutation_response, mutation_request,
}
use urbino.Http.Handlers.Keys.{
  replay_message, issued_or, created_outcome, key_mutation, handle_create_api_key,
}

module _ (encode : View → List ℕ) (hmac : List ℕ → Text → List ℕ) (p : AdminPrincipal)
    (pepper : Pepper) (calls : Calls) (tenant project user : Uuid) (scopes models : List Text)
    (expires_at : Time) where
  abbrev the_mutation : Mutation
  the_mutation =
      key_mutation encode hmac p pepper calls tenant project user scopes models expires_at

  -- A mutation that succeeds has issued a key, and answers with it.
  key_mutation-ok :
      (session : Session) (db : Database) (o : Outcome) (db' : Database)
      → the_mutation session db ≡ ok (o, db')
      → (issued : Issued KeyRecord) × (o ≡ created_outcome encode issued)
        × (create_api_key_tx p.admin_id issued session db ≡ ok (tt, db'))
  unfolding key_mutation
  key_mutation-ok session db o db' h =
      let (_, h1) = guard-ok (not (before calls.now expires_at)) (plain bad_expiry) _ h in
      let (issued, _, h2) =
        >>=-ok
          (issued_or (
            issue hmac pepper tenant project user scopes models calls.now
              (sub_time expires_at calls.now) calls.entropy))
          _ h1 in
      let (stored, g, h3) = >>=-ok (create_api_key_tx p.admin_id issued session db) _ h2 in
      let e = ok-injective h3 in
      let same : stored.1 ≡ db' = ap (λ (z : Outcome × Database). z.1) e in
      (
        issued,
        sym (ap (λ (z : Outcome × Database). z.0) e),
        g ∙ ap (λ (d : Database). ok (tt, d)) same,
      )

  key_mutation-KeepsClaims : KeepsClaims the_mutation
  unfolding apply
  key_mutation-KeepsClaims session db o db' h =
      let (issued, _, g) = key_mutation-ok session db o db' h in
      (apply-IsAudited p.admin_id (create_key issued) session db db' (rw g refl)).claims_kept

run_checked-ok :
    (db : Database) (x : Result AdminError (MutationRequest × Mutation)) (c : Connection)
    (resp : Response) (db' : Database)
    → run_checked db x c ≡ (mutated resp, db')
    → (v : MutationRequest × Mutation) × (x ≡ ok v)
run_checked-ok db (ok v) c resp db' h = (v, refl)
run_checked-ok db (err e) c resp db' h = cc

abbrev response_or : Response → Reply → Response
response_or d (mutated resp) = resp
response_or d (shown v) = d
response_or d (failed e) = d

mutation_reply-mutated :
    (x : Result StoreError MutationResult × Database) (resp : Response) (db' : Database)
    → mutation_reply x ≡ (mutated resp, db')
    → (y : MutationResult) × (x ≡ (ok y, db')) × (y.response ≡ resp)
mutation_reply-mutated (err e, db) resp db' h = cc
mutation_reply-mutated (ok y, db) resp db' h = (
  y,
  ap (λ (z : Reply × Database). (ok y, z.1)) h,
  ap (λ (z : Reply × Database). response_or y.response z.0) h,
)

module _ (sha256 : List ℕ → List ℕ) (encode : View → List ℕ) (hmac : List ℕ → Text → List ℕ)
    (tokens : List ℕ → List Token) (decode : List ℕ → Option CreateKey)
    (parse_time : Text → Option Time) (pepper : Pepper) (r : HttpRequest) (p : AdminPrincipal) where
  -- A request that the handler runs, and that it would run with any process.
  record IsParsed (raw : List ℕ) : Type 0 where
    pub tenant : Uuid
    pub project : Uuid
    pub user : Uuid
    pub scopes : List Text
    pub models : List Text
    pub expires_at : Time
    pub handled :
        (calls : Calls) (db : Database)
        → handle_create_api_key sha256 encode hmac tokens decode parse_time pepper calls r p db
          ≡ mutation_reply (
              run_admin_mutation calls.connection
                (mutation_request sha256 r raw p (codes "api_key.create"))
                (the_mutation encode hmac p pepper calls tenant project user scopes models
                  expires_at)
                db)

  module _ (raw : List ℕ) (body : CreateKey)
      (read : decode_admin_body tokens decode r ≡ ok (raw, body)) where
    runs_with :
        (tenant project user : Uuid) (scopes models : List Text) (expires_at : Time)
        → or_refuse (codes "invalid tenant_id") (parse_uuid body.tenant_id) ≡ ok tenant
        → or_refuse (codes "invalid project_id") (parse_uuid body.project_id) ≡ ok project
        → or_refuse (codes "invalid user_id") (parse_uuid body.user_id) ≡ ok user
        → or_say (key_scopes body.scopes) ≡ ok scopes
        → or_say (key_models body.models) ≡ ok models
        → some_or_refuse
            (codes "expires_at must be an RFC 3339 timestamp")
            (parse_time (trim_space body.expires_at))
          ≡ ok expires_at
        → (calls : Calls) (db : Database)
        → handle_create_api_key sha256 encode hmac tokens decode parse_time pepper calls r p db
          ≡ mutation_reply (
              run_admin_mutation calls.connection
                (mutation_request sha256 r raw p (codes "api_key.create"))
                (the_mutation encode hmac p pepper calls tenant project user scopes models
                  expires_at)
                db)
    unfolding handle_create_api_key
    runs_with tenant project user scopes models expires_at g1 g2 g3 g4 g5 g6 calls db =
        rw (read, g1, g2, g3, g4, g5, g6) refl

    parsed :
        (calls : Calls) (db : Database) (resp : Response) (db' : Database)
        → handle_create_api_key sha256 encode hmac tokens decode parse_time pepper calls r p db
          ≡ (mutated resp, db')
        → IsParsed raw
    unfolding handle_create_api_key
    parsed calls db resp db' h =
        let (v, e) = run_checked-ok db _ calls.connection resp db' h in
        let e0 = rw read at e in
        let (tenant, g1, e1) =
          >>=-ok (or_refuse (codes "invalid tenant_id") (parse_uuid body.tenant_id)) _ e0 in
        let (project, g2, e2) =
          >>=-ok (or_refuse (codes "invalid project_id") (parse_uuid body.project_id)) _ e1 in
        let (user, g3, e3) =
          >>=-ok (or_refuse (codes "invalid user_id") (parse_uuid body.user_id)) _ e2 in
        let (scopes, g4, e4) = >>=-ok (or_say (key_scopes body.scopes)) _ e3 in
        let (models, g5, e5) = >>=-ok (or_say (key_models body.models)) _ e4 in
        let (expires_at, g6, e6) =
          >>=-ok
            (some_or_refuse (codes "expires_at must be an RFC 3339 timestamp")
              (parse_time (trim_space body.expires_at)))
            _ e5 in
        record {
          tenant = tenant;
          project = project;
          user = user;
          scopes = scopes;
          models = models;
          expires_at = expires_at;
          handled = runs_with tenant project user scopes models expires_at g1 g2 g3 g4 g5 g6;
        }

  -- When no call fails, a creation under a fresh idempotency key that succeeds has answered with the
  -- one-time value of a key that it has just issued; and the same request afterwards, with any process
  -- whose calls do not fail, is answered with the record of that key, with no value, and changes nothing.
  pub key_shown_once :
      (calls again : Calls) (db db' : Database) (raw : List ℕ) (body : CreateKey) (resp : Response)
      → IsHealthy calls.connection
      → IsHealthy again.connection
      → decode_admin_body tokens decode r ≡ ok (raw, body)
      → row_of (mutation_request sha256 r raw p (codes "api_key.create")) db ≡ none
      → handle_create_api_key sha256 encode hmac tokens decode parse_time pepper calls r p db
        ≡ (mutated resp, db')
      → (issued : Issued KeyRecord) × (resp
          ≡ mutation_response encode 201 (created_json issued.value (api_key_view issued.stored)))
        × (handle_create_api_key sha256 encode hmac tokens decode parse_time pepper again r p db'
            ≡ (
              mutated (
                  mutation_response encode 201
                    (replay_json (api_key_view issued.stored) replay_message false)),
              db',
            ))
  key_shown_once calls again db db' raw body resp healthy healthy' read fresh h =
      let w = parsed raw body read calls db resp db' h in
      let q = mutation_request sha256 r raw p (codes "api_key.create") in
      let fn =
        the_mutation encode hmac p pepper calls w.tenant w.project w.user w.scopes w.models
          w.expires_at in
      let keeps =
        key_mutation-KeepsClaims encode hmac p pepper calls w.tenant w.project w.user w.scopes
          w.models w.expires_at in
      let (y, ran, same) =
        mutation_reply-mutated (run_admin_mutation calls.connection q fn db) resp db'
          (sym (w.handled calls db) ∙ h) in
      let good = success_good calls.connection q fn db db' y healthy keeps fresh ran in
      let first = success_first calls.connection q fn db db' y healthy keeps fresh ran in
      let settled = first_settles q fn calls.connection.session db db' y keeps first in
      let (issued, made, _) =
        key_mutation-ok encode hmac p pepper calls w.tenant w.project w.user w.scopes w.models
          w.expires_at calls.connection.session _ first.outcome first.changed first.ran in
      (
        issued,
        sym same
            ∙ ap (λ (z : MutationResult). z.response) first.answer
            ∙ ap (λ (o : Outcome). o.response) made,
        w.handled again db'
            ∙ ap mutation_reply (
                run_healthy q db' first.outcome.replay_response settled again.connection _ good
                  healthy')
            ∙ ap (λ (o : Outcome). (mutated o.replay_response, db')) made,
      )
