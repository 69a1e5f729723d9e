-- ===== src/Storage/Authenticator/Examples.antt =====
-- The theorems on the keys and the tokens of internal/storage/postgres at a small database.
use urbino.Base.{◌≡◌, refl, true, List, [], ◌∷◌, ◌++◌, none, some, ℕ, replicate}
use urbino.Base.Text.{Text, codes, text_eq, split_byte, has_prefix, trim_prefix}
use urbino.Base.Decimal.Print.{format_uint}
use urbino.Base.Space.{trim_space}
use urbino.Base.Int.{pos}
use urbino.Base.Result.{Result, ok, err}
use urbino.Domain.Uuid.{Uuid, is_zero, new_uuid}
use urbino.Domain.Scopes.{models_read}
use urbino.Auth.Credential.{public_prefix, split_credential, parse_public_credential}
use urbino.Auth.Headers.{
  gateway_credential, HeaderCredential, public_listener, parse_headers, header_values,
  has_query_credential, authorization_candidate, key_candidate, choose, equal_fold, fold_case,
}
use urbino.Auth.Keys.{
  KeyRecord, AdminTokenRecord, Issued, Pepper, status_active, all_scopes, is_public_scope,
}
use urbino.Auth.Service.{Request}
use urbino.Storage.Errors.{StoreError, driver_failure}
use urbino.Storage.Database.{to_micros, Database, Session, find_row, update_rows, count_rows}
use urbino.Storage.Tx.{commit_done, commit_lost, Connection, committed, probed, with_tx_probe}
use urbino.Storage.Audit.{audit_validate, bad_metadata, insert_audit_event}
use urbino.Storage.ApiKeys.{
  active_project_member, validate_public_key_scopes, key_row, insert_key_row, create_api_key_for,
  revoke_key_row, revoke_api_key_for,
}
use urbino.Storage.ApiKeys.Stored.{IsKeptKey}
use urbino.Storage.ApiKeys.Created.{created_key_stored}
use urbino.Storage.ApiKeys.Revoked.{UniqueKeys}
use urbino.Storage.Authenticator.{Rejection, authenticate_public}
use urbino.Storage.Authenticator.Revocation.{revocation_refuses_key}
use urbino.Storage.AdminTokens.{
  available_tokens, revoke_token_tx, revoke_token_row, revoke_admin_token_for,
}
use urbino.Storage.AdminTokens.Left.{IsLeft, IsMarked, UniqueTokens, store_revocation_leaves_token}

abbrev an_id : ℕ → Uuid
an_id n = replicate 16 n

abbrev session : Session
session = record {
  faults = λ s. none;
  now = 1000;
  uuid_bytes = some (replicate 16 9);
  millis = pos 1700000000000;
}

abbrev healthy : Connection
healthy = record { begin = none; session = session; commit = commit_done; probe_fault = none }

-- The response of the commit is lost, and the transaction is durable.
abbrev lossy : Connection
lossy = record healthy { commit = commit_lost true driver_failure }

abbrev token : ℕ → Text → AdminTokenRecord
token n public_id = record {
  id = an_id n;
  principal_id = an_id 7;
  public_id = public_id;
  digest = replicate 32 0;
  pepper_id = codes "p";
  scopes = [];
  expires_at = 5000;
  revoked_at = none;
  auth_version = 1;
}

abbrev tables : Database
tables = record {
  tenants = [];
  projects = record { tenant = an_id 1; id = an_id 2; status = status_active } ∷ [];
  users = record { tenant = an_id 1; id = an_id 3; status = status_active } ∷ [];
  members =
      record {
        tenant = an_id 1;
        project = an_id 2;
        user = an_id 3;
        role = codes "member";
        status = status_active;
      }
      ∷ [];
  api_keys = [];
  principals = record { id = an_id 7; status = status_active; scopes = [] } ∷ [];
  admin_tokens = token 5 (codes "one") ∷ token 6 (codes "two") ∷ [];
  claims = [];
  audit_events = [];
}

abbrev issued : Issued KeyRecord
issued = record {
  stored = record {
    id = an_id 4;
    public_id = codes "key";
    tenant = an_id 1;
    project = an_id 2;
    user = an_id 3;
    digest = replicate 32 0;
    pepper_id = codes "p";
    scopes = models_read ∷ [];
    models = [];
    status = status_active;
    expires_at = 5000;
    revoked_at = none;
    auth_version = 1;
  };
  secret = codes "s";
  value = codes "v";
}

abbrev with_key : Result StoreError (Unit {0}) × Database
with_key = create_api_key_for lossy (an_id 7) issued tables

with_key_ok : with_key ≡ (ok tt, with_key.1)
unfolding to_micros create_api_key_for insert_key_row active_project_member
    validate_public_key_scopes all_scopes is_public_scope with_tx_probe committed probed find_row
    insert_audit_event audit_validate bad_metadata new_uuid is_zero text_eq format_uint
with_key_ok = refl

created_key_stored_example : IsKeptKey issued tables with_key.1
created_key_stored_example = created_key_stored lossy (an_id 7) issued tables with_key.1 with_key_ok

abbrev keyed : Database
keyed = record tables { api_keys = key_row session issued.stored ∷ [] }

abbrev revocation : Result StoreError KeyRecord × Database
revocation = revoke_api_key_for lossy (an_id 7) (an_id 1) (an_id 2) (codes "key") 2000 keyed

abbrev revoked_record : KeyRecord
revoked_record = record issued.stored {
  status = codes "revoked";
  revoked_at = some 2000;
  auth_version = 2;
}

revocation_ok : revocation ≡ (ok revoked_record, revocation.1)
unfolding to_micros revoke_api_key_for revoke_key_row with_tx_probe committed probed find_row
    update_rows insert_audit_event audit_validate bad_metadata new_uuid is_zero text_eq format_uint
revocation_ok = refl

one_key : UniqueKeys keyed
unfolding find_row
one_key = (refl, tt)

abbrev request : Request
request = record {
  header = (codes "X-Api-Key", (public_prefix ++ codes "key.secret") ∷ []) ∷ [];
  query = [];
}

abbrev credential : Text
credential = public_prefix ++ codes "key.secret"

toy_hmac : List ℕ → Text → List ℕ
toy_hmac key message = replicate 32 0

abbrev header_credential : HeaderCredential
header_credential = record { kind = gateway_credential; value = credential }

abbrev pepper : Pepper
pepper = record { id = codes "p"; key = replicate 32 0 }

request_parsed : parse_headers request.header request.query public_listener ≡ ok header_credential
unfolding parse_headers header_values has_query_credential authorization_candidate key_candidate
    choose equal_fold fold_case text_eq has_prefix trim_space
request_parsed = refl

credential_parsed : parse_public_credential credential ≡ ok (codes "key", codes "secret")
unfolding parse_public_credential split_credential trim_prefix has_prefix split_byte
credential_parsed = refl

revocation_refuses_key_example :
    ((x : Rejection) × (authenticate_public toy_hmac pepper session revocation.1 request 1500
        ≡ err x))
    × ((e : StoreError) × (revoke_api_key_for healthy
            (an_id 8)
            (an_id 1)
            (an_id 2)
            (codes "key")
            1500
            revocation.1
          ≡ (err e, revocation.1)))
revocation_refuses_key_example =
    revocation_refuses_key toy_hmac lossy (an_id 7) (an_id 1) (an_id 2) (codes "key") 2000 keyed
      revocation.1 revoked_record one_key revocation_ok pepper session request 1500
      header_credential (codes "secret") request_parsed credential_parsed healthy (an_id 8)

abbrev token_revocation : Result StoreError AdminTokenRecord × Database
token_revocation = revoke_admin_token_for healthy (an_id 7) (an_id 7) (codes "one") 2000 tables

abbrev revoked_token_record : AdminTokenRecord
revoked_token_record = record (token 5 (codes "one")) { revoked_at = some 2000; auth_version = 2 }

token_revocation_ok : token_revocation ≡ (ok revoked_token_record, token_revocation.1)
unfolding to_micros revoke_admin_token_for revoke_token_row revoke_token_tx available_tokens
    count_rows with_tx_probe committed find_row update_rows insert_audit_event audit_validate
    bad_metadata new_uuid is_zero text_eq format_uint
token_revocation_ok = refl

two_tokens : UniqueTokens tables
unfolding find_row text_eq
two_tokens = (refl, (refl, tt))

store_revocation_leaves_token_example :
    IsLeft 2000 token_revocation.1
    × IsMarked (an_id 7) (codes "one") 2000 token_revocation.1 revoked_token_record
store_revocation_leaves_token_example =
    store_revocation_leaves_token (an_id 7) (an_id 7) (codes "one") 2000 healthy tables
      token_revocation.1 revoked_token_record two_tokens token_revocation_ok
