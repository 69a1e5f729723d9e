-- ===== src/Http/Handlers/Keys.antt =====
-- internal/httpapi/admin.go: the handlers of the public keys and of the administrator tokens.
use urbino.Base.{ℕ, Bool, false, ◌||◌, not, List, [], Option, if◌then◌else◌, map}
use urbino.Base.Text.{Text, codes, text_eq, is_empty}
use urbino.Base.Space.{trim_space}
use urbino.Base.Result.{Result, ok, err, ◌>>=◌}
use urbino.Domain.Uuid.{Uuid, parse_uuid}
use urbino.Auth.Errors.{AuthError}
use urbino.Auth.Time.{Time, before, sub_time}
use urbino.Auth.Keys.{KeyRecord, Issued, Pepper, issue}
use urbino.Auth.Service.{AdminPrincipal}
use urbino.Storage.Errors.{StoreError, plain, bad_expiry, issue_failed}
use urbino.Storage.Database.{Database, Session}
use urbino.Storage.ApiKeys.{create_api_key_tx, revoke_api_key_tx}
use urbino.Storage.KeyReads.{list_api_keys_at}
use urbino.Storage.AdminTokens.{revoke_admin_token_tx}
use urbino.Storage.Mutation.{Outcome, Mutation}
use urbino.Http.Errors.{AdminError, admin_error_status}
use urbino.Http.Json.{Token}
use urbino.Http.Parsing.{value_of, parse_limit, key_scopes, key_models, scope_from_query}
use urbino.Http.Admin.{
  View, key_json, created_json, replay_json, token_json, keys_json, api_key_view, admin_token_view,
  HttpRequest, Reply, shown, CreateKey, RevokeKey,
}
use urbino.Http.Handlers.{
  or_refuse, or_say, some_or_refuse, refuse_when, decode_admin_body, Calls, reply_of, run_checked,
  answered_by, mutation_response, mutation_request,
}

abbrev pub is_status_filter : Text → Bool
is_status_filter s =
    is_empty s
    || text_eq s (codes "active")
    || text_eq s (codes "revoked")
    || text_eq s (codes "expired")

abbrev pub keys_reply : Result StoreError (List KeyRecord) → Result AdminError Reply
keys_reply (ok rs) = ok (shown (keys_json (map api_key_view rs)))
keys_reply (err e) = err (admin_error_status e)

unfoldable pub handle_list_api_keys :
    Session → (now : Time) → HttpRequest → Database → Reply × Database
handle_list_api_keys session now r db = reply_of (
  do
    scope ←
        some_or_refuse (codes "tenant_id and project_id are required") (scope_from_query r.query)
    _ ←
        refuse_when (not (is_status_filter (value_of (codes "status") r.query)))
          (codes "invalid key status filter")
    limit ← or_refuse (codes "invalid limit") (parse_limit r.query)
    keys_reply
        (list_api_keys_at scope.0 scope.1 (value_of (codes "status") r.query) limit now session db),
  db,
)

abbrev pub replay_message : Text
replay_message =
    codes "the one-time secret is no longer available; rotate the key to obtain a new secret"

abbrev pub issued_or : Result AuthError (Issued KeyRecord) → Result StoreError (Issued KeyRecord)
issued_or (ok i) = ok i
issued_or (err e) = err (plain (issue_failed e))

module _ (encode : View → List ℕ) where
  -- The first response has the key; the one for replays has the same record and no key.
  abbrev pub created_outcome : Issued KeyRecord → Outcome
  created_outcome issued = record {
    response =
        mutation_response encode 201 (created_json issued.value (api_key_view issued.stored));
    replay_response =
        mutation_response encode 201
          (replay_json (api_key_view issued.stored) replay_message false);
  }

module _ (encode : View → List ℕ) (hmac : List ℕ → Text → List ℕ) where
  unfoldable pub key_mutation :
      AdminPrincipal
      → Pepper
      → Calls
      → (tenant project user : Uuid) → (scopes models : List Text) → (expires_at : Time) → Mutation
  key_mutation p pepper calls tenant project user scopes models expires_at session db =
      if not (before calls.now expires_at) then err (plain bad_expiry) else (do
        issued ← issued_or (
            issue hmac pepper tenant project user scopes models calls.now
              (sub_time expires_at calls.now) calls.entropy)
        stored ← create_api_key_tx p.admin_id issued session db
        ok (created_outcome encode issued, stored.1))

module _ (sha256 : List ℕ → List ℕ) (encode : View → List ℕ) (hmac : List ℕ → Text → List ℕ) where
  unfoldable pub handle_create_api_key :
      (tokens : List ℕ → List Token)
      → (decode : List ℕ → Option CreateKey) → (parse_time : Text → Option Time) → Pepper
      → Calls
      → HttpRequest
      → AdminPrincipal
      → Database
      → Reply × Database
  handle_create_api_key tokens decode parse_time pepper calls r p db =
      run_checked db
        (do
          (raw, body) ← decode_admin_body tokens decode r
          tenant ← or_refuse (codes "invalid tenant_id") (parse_uuid body.tenant_id)
          project ← or_refuse (codes "invalid project_id") (parse_uuid body.project_id)
          user ← or_refuse (codes "invalid user_id") (parse_uuid body.user_id)
          scopes ← or_say (key_scopes body.scopes)
          models ← or_say (key_models body.models)
          expires_at ←
              some_or_refuse (codes "expires_at must be an RFC 3339 timestamp")
                (parse_time (trim_space body.expires_at))
          ok (
            mutation_request sha256 r raw p (codes "api_key.create"),
            key_mutation encode hmac p pepper calls tenant project user scopes models expires_at,
          ))
        calls.connection

module _ (encode : View → List ℕ) where
  abbrev pub revoke_mutation : AdminPrincipal → (tenant project : Uuid) → Text → Time → Mutation
  revoke_mutation p tenant project public_id now session db =
      answered_by (λ k. mutation_response encode 200 (key_json (api_key_view k)))
        (revoke_api_key_tx p.admin_id tenant project public_id now session db)

  -- A token of the caller only: its principal is the scope. The request has no body.
  abbrev pub token_mutation : AdminPrincipal → Text → Time → Mutation
  token_mutation p public_id now session db =
      answered_by (λ t. mutation_response encode 200 (token_json (admin_token_view t)))
        (revoke_admin_token_tx p.admin_id p.admin_id public_id now session db)

module _ (sha256 : List ℕ → List ℕ) (encode : View → List ℕ) where
  unfoldable pub handle_revoke_api_key :
      (tokens : List ℕ → List Token)
      → (decode : List ℕ → Option RevokeKey) → Calls
      → HttpRequest
      → AdminPrincipal
      → Database
      → Reply × Database
  handle_revoke_api_key tokens decode calls r p db =
      run_checked db
        (do
          _ ← refuse_when (is_empty (trim_space r.path_id)) (codes "invalid key identifier")
          (raw, body) ← decode_admin_body tokens decode r
          tenant ← or_refuse (codes "invalid tenant_id") (parse_uuid body.tenant_id)
          project ← or_refuse (codes "invalid project_id") (parse_uuid body.project_id)
          ok (
            mutation_request sha256 r raw p (codes "api_key.revoke"),
            revoke_mutation encode p tenant project (trim_space r.path_id) calls.now,
          ))
        calls.connection

  unfoldable pub handle_revoke_admin_token :
      Calls → HttpRequest → AdminPrincipal → Database → Reply × Database
  handle_revoke_admin_token calls r p db =
      run_checked db
        (do
          _ ← refuse_when (is_empty (trim_space r.path_id)) (codes "invalid token identifier")
          ok (
            mutation_request sha256 r [] p (codes "admin_token.revoke"),
            token_mutation encode p (trim_space r.path_id) calls.now,
          ))
        calls.connection
