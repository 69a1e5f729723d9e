-- ===== src/Auth/Service/Examples.antt =====
-- The theorems on internal/auth/service.go at a run of a small service.
use urbino.Base.{
  ◌-◌, if◌then◌else◌, ℕ, ◌+◌, ◌*◌, ◌%◌, ◌<◌, ◌≡◌, ◌≢◌, refl, ◌↔◌, true, false, List, [], ◌∷◌, ◌++◌,
  some, arith, length, length-replicate, replicate,
}
use urbino.Base.Text.{
  IsIn, trim_prefix, split_byte, split_byte, trim_prefix, has_prefix, text_eq_refl, Text, codes,
  text_eq,
}
use urbino.Base.Space.{trim_space, space_width}
use urbino.Base.Int.{ℤ, pos}
use urbino.Base.Int64.{int64_of}
use urbino.Base.Dict.{Dict, lookup, insert, delete, lookup-insert}
use urbino.Base.Result.{Result, ok, err}
use urbino.Domain.Uuid.{IsUuid, new_uuid, is_zero, Uuid}
use urbino.Domain.Scopes.{scope_valid, models_invoke, keys_read}
use urbino.Auth.Errors.{AuthError, already_bootstrapped}
use urbino.Auth.Time.{Time, hour, add_time, sub_time}
use urbino.Auth.Base64.{encode}
use urbino.Auth.Credential.{split_credential}
use urbino.Auth.Keys.{
  authorize, token_made, AdminTokenRecord, verify, verify_admin, issue_admin, is_public_scope,
  all_scopes, drawn, issue, key_made, Pepper, KeyRecord, Issued, Entropy, contains,
}
use urbino.Auth.Keys.Issue.{IsFilled}
use urbino.Auth.Keys.Granted.{issued_key_authorizes}
use urbino.Auth.Headers.{
  fields, header_values, has_query_credential, authorization_candidate, key_candidate, choose,
  equal_fold, fold_case, gateway_credential, HeaderCredential, public_listener, parse_headers,
}
use urbino.Auth.Service.{
  ltb, pos_part, available, requested, max_admin_token_ttl, int64_of, copy_peppers, IssueKeyRequest,
  Principal, AdminPrincipal, AdminCredential, BootstrapRequest, IssueAdminTokenRequest, Request,
  AuthState, Backend, Options, Service, new_service, bootstrap_admin_scopes, pepper_at,
}
use urbino.Auth.Service.Public.{
  auth_state, new_key, issue_key, revoke_key, authenticate_public, principal_of,
}
use urbino.Auth.Service.Admin.{
  revocable, new_bootstrap, new_token, credential_of, bootstrap_admin, issue_admin_token,
  revoke_admin_token, authenticate_admin,
}
use urbino.Auth.Service.Accepted.{IsAccepted, authenticate_public_sound}
use urbino.Auth.Service.IssuedKeys.{IsActive, new_service-IsActive, issued_key_accepted, IsOwner}
use urbino.Auth.Service.Revoked.{revoked_key_refused}
use urbino.Auth.Service.Tokens.{
  bootstrap_once, issue_admin_token_narrows, revoke_admin_token_leaves_one, IsNarrowed,
  IsRevocation,
}
use urbino.Auth.Service.Held.{IsWithin}
use urbino.Auth.Service.Authority.{authority_never_grows, one_administrator}
use mathlib.Core.Path.{subst}
use mathlib.Core.Option.{some-injective}
use urbino.Auth.Service.Steps.{Step, Steps}

-- A function with results of 32 bytes in place of HMAC-SHA-256.
unfoldable sum : List ℕ → ℕ
sum [] = 0
sum (a ∷ s) = (a + 7 * sum s) % 256

abbrev toy_hmac : List ℕ → Text → List ℕ
toy_hmac key message = replicate 32 (sum message)

toy_hmac_size : (k : List ℕ) (t : Text) → length (toy_hmac k t) ≡ 32
toy_hmac_size k t = length-replicate {A = ℕ} 32 (sum t)

-- A backend that never fails.
abbrev map_backend : Backend (Dict AuthState)
map_backend = record {
  get = λ k b. (some (lookup k b), b);
  put = λ k state ttl b. (true, insert k state b);
  delete = λ k b. (true, delete k b);
}

map_get_put :
    (id : Text) (state : AuthState) (ttl : ℤ) (b : Dict AuthState)
    → (map_backend.put id state ttl b).0 ≡ true
    → (map_backend.get id (map_backend.put id state ttl b).1).0 ≡ some (some state)
map_get_put id state ttl b h = rw (lookup-insert id id state b, text_eq_refl id) refl

abbrev options : Options (Dict AuthState)
options = record {
  peppers = (codes "p1", replicate 32 9) ∷ [];
  active_pepper_id = codes "p1";
  backend = some [];
  revocation_ttl = pos 1000000000;
}

abbrev service : Service (Dict AuthState)
service = record {
  peppers = (codes "p1", record { id = codes "p1"; key = replicate 32 9 }) ∷ [];
  active_id = codes "p1";
  backend = [];
  ttl = pos 1000000000;
  keys = [];
  admins = [];
  principals = [];
  bootstrapped = false;
}

service_made : new_service options ≡ ok service
unfolding new_service copy_peppers pepper_at lookup text_eq
service_made = refl

abbrev some_id : Uuid
some_id = replicate 16 1

abbrev entropy : ℕ → Entropy
entropy n = record {
  uuid_bytes = some (replicate 16 n);
  millis = pos 1700000000000;
  public_bytes = some (replicate 12 n);
  secret_bytes = some (replicate 32 n);
}

-- A key.
abbrev key_request : IssueKeyRequest
key_request = record {
  scope = record { tenant_id = some_id; project_id = some_id };
  user_id = some_id;
  scopes = models_invoke ∷ [];
  models = codes "m" ∷ [];
  expires_at = 2000;
}

abbrev key_issued : Result AuthError (Issued KeyRecord) × Service (Dict AuthState)
key_issued = issue_key toy_hmac map_backend service key_request 1000 1000 1000 (entropy 1)

abbrev stamped_id : ℕ → Uuid
stamped_id n = 1 ∷ 0x8b ∷ 0xcf ∷ 0xe5 ∷ 0x68 ∷ 0 ∷ (0x70 + n) ∷ n ∷ (0x80 + n) ∷ replicate 7 n

abbrev pepper : Pepper
pepper = record { id = codes "p1"; key = replicate 32 9 }

abbrev key : Issued KeyRecord
key =
    key_made toy_hmac pepper some_id some_id some_id (models_invoke ∷ []) (codes "m" ∷ []) 1000
      (pos 1000) (stamped_id 1) (replicate 12 1) (replicate 32 1)

key_issued_ok : key_issued.0 ≡ ok key
unfolding issue_key new_key issue drawn new_uuid is_zero all_scopes scope_valid is_public_scope
    text_eq pepper_at lookup sub_time
key_issued_ok = refl

abbrev key_request_of : Request
key_request_of = record { header = (codes "X-Api-Key", key.value ∷ []) ∷ []; query = [] }

abbrev key_credential : HeaderCredential
key_credential = record { kind = gateway_credential; value = key.value }

key_parsed :
    parse_headers key_request_of.header key_request_of.query public_listener ≡ ok key_credential
unfolding parse_headers header_values has_query_credential authorization_candidate key_candidate
    choose equal_fold fold_case text_eq has_prefix trim_space encode
key_parsed = refl

key-IsFilled : IsFilled (entropy 1)
key-IsFilled = record {
  public_filled = λ p e. ground (arith, e);
  uuid_filled = λ b e. subst IsUuid (some-injective _ _ e) (omega arith);
  secret_filled = λ p e. ground (arith, e);
}

pepper-IsActive : IsActive service (pepper_at service.peppers service.active_id)
pepper-IsActive = new_service-IsActive options service service_made

early : 1999 < add_time 1000 (sub_time 2000 1000)
unfolding sub_time
early = omega arith

-- The entries are forgotten when their time to live, a second, is over.
abbrev elapse : ℕ → Dict AuthState → Dict AuthState
elapse t b = if ltb t 1000000000 then b else []

elapse_keeps :
    (id : Text) (state : AuthState) (b : Dict AuthState) (t : ℕ)
    → (map_backend.put id state service.ttl b).0 ≡ true
    → t < pos_part service.ttl
    → (map_backend.get id (elapse t (map_backend.put id state service.ttl b).1)).0
      ≡ some (some state)
elapse_keeps id state b t done h =
    let alive : ltb t 1000000000 ≡ true = ground (arith, h) in
    rw alive (map_get_put id state service.ttl b done)

issued_key_accepted_example :
    (p : Principal) × ((authenticate_public toy_hmac map_backend
        (record key_issued.1 { backend = elapse (1999 - 1000) key_issued.1.backend })
        key_request_of
        1999).0
      ≡ ok p)
    × IsOwner toy_hmac toy_hmac_size map_backend key_request key p
issued_key_accepted_example =
    issued_key_accepted toy_hmac toy_hmac_size map_backend elapse service key_request 1000 1000 1000
      (entropy 1) key key_request_of 1000 1999 key_credential elapse_keeps pepper-IsActive
      key-IsFilled key_issued_ok key_parsed refl early (omega arith) (omega arith)

-- The principal of the key.
abbrev key_principal : Principal
key_principal = principal_of key.stored.public_id key.stored

key_accepted :
    (authenticate_public toy_hmac map_backend key_issued.1 key_request_of 1999).0 ≡ ok key_principal
unfolding authenticate_public parse_headers has_query_credential authorization_candidate
    header_values equal_fold text_eq key_candidate trim_space encode choose has_prefix
    split_credential split_byte trim_prefix lookup issue_key new_key fold_case all_scopes drawn
    is_public_scope issue verify pepper_at sub_time insert int64_of scope_valid is_zero new_uuid sum
    space_width
key_accepted = refl

authenticate_public_sound_example :
    IsAccepted toy_hmac map_backend key_issued.1 key_request_of 1999 key_principal
authenticate_public_sound_example =
    authenticate_public_sound toy_hmac map_backend key_issued.1 key_request_of 1999 key_principal
      key_accepted

-- A second key, and the revocation of the first one.
abbrev key' : Issued KeyRecord
key' =
    key_made toy_hmac pepper some_id some_id some_id (models_invoke ∷ []) (codes "m" ∷ []) 1000
      (pos 1000) (stamped_id 2) (replicate 12 2) (replicate 32 2)

abbrev two_keys : Service (Dict AuthState)
two_keys = record service {
  keys = (key.stored.public_id, key.stored) ∷ (key'.stored.public_id, key'.stored) ∷ [];
  backend =
      (key.stored.public_id, auth_state key.stored)
      ∷ (key'.stored.public_id, auth_state key'.stored)
      ∷ [];
}

two_keys_issued :
    (issue_key toy_hmac map_backend key_issued.1 key_request 1000 1000 1000 (entropy 2)).1
    ≡ two_keys
unfolding issue_key new_key issue drawn new_uuid is_zero all_scopes scope_valid is_public_scope
    text_eq pepper_at lookup insert sub_time encode
two_keys_issued = refl

abbrev revocation : Result AuthError (Unit {0}) × Service (Dict AuthState)
revocation = revoke_key map_backend two_keys key_request.scope key.stored.public_id 1500

abbrev request' : Request
request' = record { header = (codes "x-api-key", key'.value ∷ []) ∷ []; query = [] }

abbrev principal' : Principal
principal' = principal_of key'.stored.public_id key'.stored

second_accepted :
    (authenticate_public toy_hmac map_backend revocation.1 request' 1600).0 ≡ ok principal'
unfolding authenticate_public revoke_key verify parse_headers header_values has_query_credential
    authorization_candidate key_candidate choose equal_fold fold_case text_eq has_prefix trim_space
    encode split_credential trim_prefix split_byte lookup insert delete int64_of sum
second_accepted = refl

first_kept : lookup key.stored.public_id two_keys.keys ≡ some key.stored
unfolding lookup text_eq encode
first_kept = refl

nothing_drawn : contains [] key.stored.public_id ≡ false
unfolding contains
nothing_drawn = refl

revoked_key_refused_example : principal'.key_id ≢ key.stored.public_id
revoked_key_refused_example =
    revoked_key_refused toy_hmac map_backend key.stored.public_id two_keys key_request.scope 1500
      key.stored request' 1600 principal' first_kept refl refl (Steps.done revocation.1)
      nothing_drawn second_accepted

-- The bootstrap.
abbrev boot_request : BootstrapRequest
boot_request = record { admin_id = some_id; scopes = [] }

abbrev booted : Result AuthError AdminCredential × Service (Dict AuthState)
booted = bootstrap_admin toy_hmac service boot_request 1000 (entropy 3)

abbrev boot_token : Issued AdminTokenRecord
boot_token =
    token_made toy_hmac pepper bootstrap_admin_scopes 1000 (pos max_admin_token_ttl) (stamped_id 3)
      (replicate 12 3) (replicate 32 3)

booted_ok : booted.0 ≡ ok (credential_of some_id bootstrap_admin_scopes boot_token)
unfolding bootstrap_admin new_bootstrap issue_admin drawn new_uuid is_zero all_scopes scope_valid
    text_eq pepper_at lookup
booted_ok = refl

bootstrap_once_example :
    bootstrap_admin toy_hmac booted.1 boot_request 2000 (entropy 4)
    ≡ (err already_bootstrapped, booted.1)
bootstrap_once_example =
    bootstrap_once toy_hmac map_backend service boot_request boot_request 1000 2000 (entropy 3)
      (entropy 4) (credential_of some_id bootstrap_admin_scopes boot_token) booted_ok
      (Steps.done booted.1)

boot_steps : Steps toy_hmac map_backend [] service booted.1
boot_steps =
    Steps.next (Step.bootstraps service boot_request 1000 (entropy 3)) (Steps.done booted.1)

abbrev admin_request : Request
admin_request = record {
  header = (codes "Authorization", (codes "Bearer " ++ boot_token.value) ∷ []) ∷ [];
  query = [];
}

abbrev administrator : AdminPrincipal
administrator = record { admin_id = some_id; scopes = bootstrap_admin_scopes }

administrator_accepted : authenticate_admin toy_hmac booted.1 admin_request 2000 ≡ ok administrator
unfolding bootstrap_admin new_bootstrap issue_admin drawn new_uuid is_zero all_scopes scope_valid
    pepper_at authenticate_admin verify_admin parse_headers header_values has_query_credential
    authorization_candidate key_candidate choose equal_fold fold_case text_eq has_prefix trim_space
    fields encode split_credential trim_prefix split_byte lookup insert sum
administrator_accepted = refl

authority_never_grows_example : IsWithin administrator.scopes bootstrap_admin_scopes
authority_never_grows_example =
    authority_never_grows toy_hmac map_backend options admin_request 2000 administrator service_made
      boot_steps administrator_accepted

one_administrator_example : administrator.admin_id ≡ administrator.admin_id
one_administrator_example =
    one_administrator toy_hmac map_backend options admin_request admin_request 2000 2000
      administrator administrator service_made boot_steps administrator_accepted
      administrator_accepted

-- A second token, with one of the scopes, and the revocation of the first one.
abbrev token_request : IssueAdminTokenRequest
token_request = record { admin_id = some_id; scopes = keys_read ∷ keys_read ∷ []; ttl = pos hour }

abbrev token' : Issued AdminTokenRecord
token' =
    token_made toy_hmac pepper (keys_read ∷ []) 2000 (pos hour) (stamped_id 4) (replicate 12 4)
      (replicate 32 4)

abbrev tokens_issued : Result AuthError AdminCredential × Service (Dict AuthState)
tokens_issued = issue_admin_token toy_hmac booted.1 token_request 2000 (entropy 4)

token_issued_ok : tokens_issued.0 ≡ ok (credential_of some_id (keys_read ∷ []) token')
unfolding issue_admin_token new_token requested contains bootstrap_admin new_bootstrap issue_admin
    drawn new_uuid is_zero all_scopes scope_valid text_eq pepper_at lookup insert
token_issued_ok = refl

issue_admin_token_narrows_example :
    IsNarrowed booted.1 tokens_issued.1 token_request 2000
      (credential_of some_id (keys_read ∷ []) token')
issue_admin_token_narrows_example =
    issue_admin_token_narrows toy_hmac booted.1 token_request 2000 (entropy 4)
      (credential_of some_id (keys_read ∷ []) token') token_issued_ok

abbrev always : Text → Time
always id = 3000

token_revoked :
    (revoke_admin_token tokens_issued.1 always some_id boot_token.stored.public_id 3000).0 ≡ ok tt
unfolding revoke_admin_token revocable available encode issue_admin_token new_token requested
    contains bootstrap_admin new_bootstrap issue_admin drawn new_uuid is_zero all_scopes scope_valid
    text_eq pepper_at lookup insert
token_revoked = refl

revoke_admin_token_leaves_one_example :
    IsRevocation tokens_issued.1
      (revoke_admin_token tokens_issued.1 always some_id boot_token.stored.public_id 3000).1
      always
      some_id
      boot_token.stored.public_id
      3000
revoke_admin_token_leaves_one_example =
    revoke_admin_token_leaves_one tokens_issued.1 always some_id boot_token.stored.public_id 3000
      token_revoked

key_drawn :
    issue toy_hmac pepper some_id some_id some_id
      (models_invoke ∷ [])
      (codes "m" ∷ [])
      1000
      (pos 1000)
      (entropy 1)
    ≡ ok key
unfolding issue drawn new_uuid is_zero all_scopes is_public_scope text_eq
key_drawn = refl

issued_key_authorizes_example : (authorize key.stored (codes "m") models_invoke 1500 ≡ ok tt) ↔ (
    (1500 < add_time 1000 (pos 1000))
    × IsIn models_invoke (models_invoke ∷ [])
    × IsIn (codes "m") (codes "m" ∷ []))
issued_key_authorizes_example =
    issued_key_authorizes toy_hmac pepper some_id some_id some_id (models_invoke ∷ [])
      (codes "m" ∷ []) 1000 (pos 1000) (entropy 1) key (codes "m") models_invoke 1500 key-IsFilled
      key_drawn
