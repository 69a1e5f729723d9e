-- ===== src/Http/Handlers/Examples.antt =====
-- The creation of a key at a small database and calls that meet no failure.
use urbino.Base.{◌++◌, ◌⊎◌, ◌≡◌, refl, ℕ, false, List, [], ◌∷◌, Option, none, some, replicate}
use urbino.Base.Text.{Text, codes, text_eq}
use urbino.Base.Int.{pos}
use urbino.Base.Result.{ok}
use urbino.Domain.Uuid.{Uuid, to_string, parse_uuid}
use urbino.Auth.Credential.{admin_prefix}
use urbino.Domain.Scopes.{keys_write, models_invoke}
use urbino.Auth.Keys.{drawn, issue, KeyRecord, Issued, Pepper, status_active}
use urbino.Auth.Service.{AdminPrincipal}
use urbino.Auth.Time.{Time, sub_time}
use urbino.Storage.Database.{Response, Database, find_row}
use urbino.Storage.Tx.{Connection, commit_done}
use urbino.Storage.Tx.Atomic.{IsHealthy}
use urbino.Storage.Mutation.Claims.{row_of}
use urbino.Http.Parsing.{key_scopes, accepted_scopes, key_models, accepted_models, value_of}
use urbino.Storage.Mutation.{run_admin_mutation}
use urbino.Base.Space.{trim_space, space_width}
use urbino.Base.Decimal.Print.{format_uint}
use urbino.Domain.Uuid.{has_dashes, uuid_digits, is_zero, new_uuid}
use urbino.Domain.Scopes.{is_in}
use urbino.Auth.Keys.{is_public_scope, all_scopes, issue, drawn}
use urbino.Auth.Base64.{encode}
use urbino.Storage.Tx.{with_tx_probe, committed, probed}
use urbino.Storage.Mutation.{
  mutation_statements, claim_admin_idempotency, run_claimed, validate_response,
}
use urbino.Storage.ApiKeys.{
  create_api_key_tx, validate_public_key_scopes, insert_key_row, active_project_member,
}
use urbino.Storage.Audit.{audit_validate, bad_metadata, insert_audit_event}
use urbino.Storage.Database.{update_rows}
use urbino.Http.Json.{
  check_duplicate_json_keys, scan_members, scan_json_value, Token, open_object, close_object,
}
use urbino.Http.Admin.{
  View, created_json, replay_json, keys_json, api_key_view, read, HttpRequest, Reply, failed,
  mutated, shown, CreateKey,
}
use urbino.Http.Handlers.{decode_admin_body, Calls, mutation_response, mutation_request}
use urbino.Http.Handlers.Keys.{key_mutation, replay_message, handle_create_api_key}
use urbino.Auth.Limiter.{FailureLimiter, max_failure_buckets}
use urbino.Http.Routes.{AdminApi, create_key_route, serve}
use urbino.Http.Routes.Authorized.{IsRefused, IsPermitted, serve_authorized}
use urbino.Http.Handlers.Once.{key_shown_once}

abbrev an_id : ℕ → Uuid
an_id n = replicate 16 n

abbrev healthy : Connection
healthy = record {
  begin = none;
  session = record {
    faults = λ s. none;
    now = 1000;
    uuid_bytes = some (replicate 16 9);
    millis = pos 1700000000000;
  };
  commit = commit_done;
  probe_fault = none;
}

-- One active user who is a member of one active project.
abbrev tables : Database
tables = record {
  tenants = [];
  projects = record { tenant = an_id 1; id = an_id 2; status = status_active } ∷ [];
  users = record { tenant = an_id 1; id = an_id 3; status = status_active } ∷ [];
  members =
      record {
        tenant = an_id 1;
        project = an_id 2;
        user = an_id 3;
        role = codes "member";
        status = status_active;
      }
      ∷ [];
  api_keys = [];
  principals = [];
  admin_tokens = [];
  claims = [];
  audit_events = [];
}

abbrev pepper : Pepper
pepper = record { id = codes "p"; key = replicate 32 0 }

-- Functions in place of the encoder, the decoder, the digests and the parser of times.
abbrev toy_encode : View → List ℕ
toy_encode v = codes "{}"

abbrev toy_sha256 : List ℕ → List ℕ
toy_sha256 s = replicate 32 1

abbrev toy_hmac : List ℕ → Text → List ℕ
toy_hmac key message = replicate 32 0

abbrev toy_tokens : List ℕ → List Token
toy_tokens raw = open_object ∷ close_object ∷ []

abbrev body : CreateKey
body = record {
  tenant_id = to_string (an_id 1);
  project_id = to_string (an_id 2);
  user_id = to_string (an_id 3);
  scopes = models_invoke ∷ [];
  models = codes "m" ∷ [];
  expires_at = codes "t";
}

abbrev toy_decode : List ℕ → Option CreateKey
toy_decode raw = some body

abbrev toy_time : Text → Option Time
toy_time s = some 5000

abbrev calls : Calls
calls = record {
  connection = healthy;
  now = 1500;
  entropy = record {
    uuid_bytes = some (replicate 16 4);
    millis = pos 1700000000000;
    public_bytes = some (replicate 12 1);
    secret_bytes = some (replicate 32 1);
  };
}

abbrev request : HttpRequest
request = record {
  method = codes "POST";
  uri = codes "/admin/v1/api-keys";
  header =
      (codes "Idempotency-Key", codes "k" ∷ [])
      ∷ (codes "Authorization", (codes "Bearer " ++ admin_prefix ++ codes "id.secret") ∷ [])
      ∷ [];
  query = [];
  path_id = [];
  media_type = some (codes "application/json");
  content = read (codes "{}");
}

abbrev administrator : AdminPrincipal
administrator = record { admin_id = an_id 7; scopes = keys_write ∷ [] }

abbrev created : Reply × Database
created =
    handle_create_api_key toy_sha256 toy_encode toy_hmac toy_tokens toy_decode toy_time pepper calls
      request administrator tables

abbrev response_of : Reply → Response
response_of (mutated r) = r
response_of (failed e) = mutation_response toy_encode 0 (keys_json [])
response_of (shown v) = mutation_response toy_encode 0 v

healthy-IsHealthy : IsHealthy healthy
healthy-IsHealthy = record { begins = refl; accepts = λ s. refl; commits = refl }

body_read : decode_admin_body toy_tokens toy_decode request ≡ ok (codes "{}", body)
unfolding decode_admin_body check_duplicate_json_keys scan_json_value scan_members text_eq
body_read = refl

fresh :
    row_of
      (mutation_request toy_sha256 request (codes "{}") administrator (codes "api_key.create"))
      tables
    ≡ none
unfolding find_row
fresh = refl

key_created : created ≡ (mutated (response_of created.0), created.1)
unfolding handle_create_api_key decode_admin_body key_scopes accepted_scopes key_models
    accepted_models key_mutation check_duplicate_json_keys scan_json_value scan_members
    mutation_request value_of issue drawn run_admin_mutation text_eq find_row parse_uuid trim_space
    to_string has_dashes uuid_digits is_public_scope is_zero with_tx_probe mutation_statements
    claim_admin_idempotency run_claimed sub_time all_scopes new_uuid create_api_key_tx
    validate_public_key_scopes encode insert_key_row format_uint space_width is_in api_key_view
    active_project_member audit_validate bad_metadata insert_audit_event update_rows
    validate_response committed probed
key_created = refl

key_shown_once_example :
    (issued : Issued KeyRecord) × (response_of created.0
      ≡ mutation_response toy_encode 201 (created_json issued.value (api_key_view issued.stored)))
    × (handle_create_api_key toy_sha256 toy_encode toy_hmac toy_tokens toy_decode toy_time pepper
          calls request administrator created.1
        ≡ (
          mutated (
              mutation_response toy_encode 201
                (replay_json (api_key_view issued.stored) replay_message false)),
          created.1,
        ))
key_shown_once_example =
    key_shown_once toy_sha256 toy_encode toy_hmac toy_tokens toy_decode toy_time pepper request
      administrator calls calls tables created.1 (codes "{}") body (response_of created.0)
      healthy-IsHealthy healthy-IsHealthy body_read fresh key_created

abbrev api : AdminApi
api = record {
  pepper = pepper;
  authenticate_admin = λ r. ok administrator;
  sha256 = toy_sha256;
  hmac = toy_hmac;
  encode = toy_encode;
  tokens = toy_tokens;
  decode_create_tenant = λ raw. none;
  decode_update_tenant = λ raw. none;
  decode_create_key = toy_decode;
  decode_revoke_key = λ raw. none;
  parse_time = toy_time;
  cursor_form = record { read = λ raw. none; write = λ cursor. none };
}

abbrev limiter : FailureLimiter
limiter = record { limit = 2; window = 10; max = max_failure_buckets; buckets = [] }

serve_authorized_example :
    IsRefused tables (serve api create_key_route calls limiter (codes "h") 5 6 request tables).0
    ⊎ IsPermitted api create_key_route request tables
        (serve api create_key_route calls limiter (codes "h") 5 6 request tables).0.1
serve_authorized_example =
    serve_authorized api create_key_route calls limiter (codes "h") 5 6 request tables
