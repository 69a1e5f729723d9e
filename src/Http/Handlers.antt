-- ===== src/Http/Handlers.antt =====
-- internal/httpapi/admin.go: `decodeAdminBody`, `runMutation` and the handlers of `AdminAPI`, each on the
-- principal that `require` has let through.
pub mod Tenants
pub mod Keys
pub mod Once
mod Examples
use urbino.Base.{
  ℕ, ◌-◌, Bool, true, false, ◌&&◌, ◌||◌, not, List, [], ◌∷◌, ◌++◌, Option, none, some, ltb, ◌==◌,
  if◌then◌else◌, length, map,
}
use urbino.Base.Text.{Text, codes, text_eq, is_empty}
use urbino.Base.Int.{ℤ, pos}
use urbino.Base.Space.{trim_space}
use urbino.Base.Result.{Result, ok, err, ◌>>=◌}
use urbino.Domain.Uuid.{UuidError, Uuid, parse_uuid, new_uuid}
use urbino.Domain.Scopes.{
  Tenant, tenant_active, ValidationError, tenant_validate, tenant_status_valid,
}
use urbino.Auth.Errors.{AuthError}
use urbino.Auth.Time.{Time, before}
use urbino.Auth.Keys.{KeyRecord, Issued, Pepper, Entropy, issue}
use urbino.Auth.Service.{AdminPrincipal}
use urbino.Storage.Errors.{StoreError, plain, bad_expiry, issue_failed}
use urbino.Storage.Database.{Response, Database, Session}
use urbino.Storage.Tx.{Connection}
use urbino.Storage.Tenants.{get_tenant, create_tenant_tx, update_tenant_tx}
use urbino.Storage.ApiKeys.{create_api_key_tx, revoke_api_key_tx}
use urbino.Storage.KeyReads.{list_api_keys_at}
use urbino.Storage.AdminTokens.{revoke_admin_token_tx}
use urbino.Storage.Mutation.{MutationRequest, Outcome, MutationResult, Mutation, run_admin_mutation}
use urbino.Http.Errors.{AdminError, admin_error, admin_error_status, bad_request, internal_error}
use urbino.Http.Json.{Token, JsonError, check_duplicate_json_keys}
use urbino.Http.Parsing.{
  ParseError, limit_out_of_range, no_scopes, bad_scope, no_models, bad_model, if_match_required,
  if_match_invalid, value_of, parse_limit, parse_if_match_version, key_scopes, key_models,
  scope_from_query,
}
use urbino.Http.Admin.{
  View, tenant_json, key_json, created_json, replay_json, token_json, keys_json, tenant_view,
  api_key_view, admin_token_view, BodyRead, too_large, unreadable, read, HttpRequest,
  idempotency_key, Reply, failed, mutated, shown, refuse, CreateTenant, UpdateTenant, CreateKey,
  RevokeKey,
}

abbrev pub or_refuse {ℓ κ} : {E : Type ℓ} {A : Type κ} → Text → Result E A → Result AdminError A
or_refuse message (ok a) = ok a
or_refuse message (err e) = err (refuse message)

-- The texts of the errors of `keyScopes` and `keyModels`.
abbrev pub parse_message : ParseError → Text
parse_message no_scopes = codes "scopes must not be empty"
parse_message bad_scope = codes "scope is not grantable to a gateway key"
parse_message no_models = codes "models must not be empty"
parse_message bad_model = codes "model name is invalid"
parse_message limit_out_of_range = codes "limit out of range"
parse_message if_match_required = codes "If-Match is required"
parse_message if_match_invalid = codes "If-Match is invalid"

abbrev pub or_say {ℓ} : {A : Type ℓ} → Result ParseError A → Result AdminError A
or_say (ok a) = ok a
or_say (err e) = err (refuse (parse_message e))

abbrev pub from_store {ℓ} : {A : Type ℓ} → Result StoreError A → Result AdminError A
from_store (ok a) = ok a
from_store (err e) = err (admin_error_status e)

abbrev pub some_or_refuse {ℓ} : {A : Type ℓ} → Text → Option A → Result AdminError A
some_or_refuse message none = err (refuse message)
some_or_refuse message (some a) = ok a

abbrev pub refuse_when : Bool → Text → Result AdminError (Unit {0})
refuse_when true message = err (refuse message)
refuse_when false message = ok tt

abbrev pub invalid_json : Text
invalid_json = codes "request body is invalid JSON"

-- The bytes of a body that may be decoded.
abbrev pub read_bytes : BodyRead → Result AdminError (List ℕ)
read_bytes too_large = err (admin_error 413 bad_request (codes "request body is too large"))
read_bytes unreadable = err (refuse (codes "request body is unreadable"))
read_bytes (read raw) = ok raw

abbrev pub is_json : Option Text → Bool
is_json none = false
is_json (some media) = text_eq media (codes "application/json")

abbrev pub need_json : Bool → Result AdminError (Unit {0})
need_json true = ok tt
need_json false = err (admin_error 415 bad_request (codes "Content-Type must be application/json"))

-- `tokens` is the tokenizer of encoding/json, `decode` its strict decoder with the check that nothing
-- follows the value.
unfoldable pub decode_admin_body :
    {B : Type 0}
    → (tokens : List ℕ → List Token) → (decode : List ℕ → Option B) → HttpRequest
    → Result AdminError (List ℕ × B)
decode_admin_body tokens decode r = do
  _ ← need_json (is_json r.media_type)
  raw ← read_bytes r.content
  _ ← or_refuse invalid_json (check_duplicate_json_keys (tokens raw))
  body ← some_or_refuse invalid_json (decode raw)
  ok (raw, body)

-- What a handler gets from the process: the connection, `now`, and the draws of an identifier or a key.
pub record Calls : Type 0 where
  pub connection : Connection
  pub now : Time
  pub entropy : Entropy

abbrev pub reply_of : Result AdminError Reply × Database → Reply × Database
reply_of (ok r, db) = (r, db)
reply_of (err e, db) = (failed e, db)

-- `result.Response` or the error of the store.
abbrev pub mutation_reply : Result StoreError MutationResult × Database → Reply × Database
mutation_reply (ok r, db) = (mutated r.response, db)
mutation_reply (err e, db) = (failed (admin_error_status e), db)

abbrev pub run_checked :
    Database → Result AdminError (MutationRequest × Mutation) → Connection → Reply × Database
run_checked db (err e) c = (failed e, db)
run_checked db (ok (q, fn)) c = mutation_reply (run_admin_mutation c q fn db)

-- A mutation that is answered with one value, first and on replays.
abbrev pub answered_by :
    {X : Type 0}
    → (X → Response)
    → Result StoreError (X × Database)
    → Result StoreError (Outcome × Database)
answered_by view (err e) = err e
answered_by view (ok (x, db)) = ok (record { response = view x; replay_response = view x }, db)

module _ (encode : View → List ℕ) where
  -- `adminMutationResponse`.
  abbrev pub mutation_response : ℕ → View → Response
  mutation_response status v = record {
    status = status;
    content_type = codes "application/json";
    body = encode v;
  }

module _ (sha256 : List ℕ → List ℕ) where
  -- `runMutation`: the digests of the key and of the request, whose body is empty if it was not decoded.
  unfoldable pub mutation_request :
      HttpRequest → (raw : List ℕ) → AdminPrincipal → (operation : Text) → MutationRequest
  mutation_request r raw p operation = record {
    principal = p.admin_id;
    operation = operation;
    key_digest = sha256 (idempotency_key r);
    request_digest = sha256 (
        r.method
        ++ codes " "
        ++ r.uri
        ++ codes " "
        ++ sha256 raw
        ++ 0 ∷ codes "if-match:"
        ++ trim_space (value_of (codes "If-Match") r.header));
  }
