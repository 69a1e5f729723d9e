-- ===== src/Storage/KeyReads.antt =====
-- internal/storage/postgres/identity.go and authenticator.go: the queries of the public keys, by
-- `LookupAPIKey`, `lookupPublic`, `ListAPIKeysAt` and `CountAPIKeysAt`.
use urbino.Base.{
  ℕ, Bool, true, false, ◌&&◌, ◌||◌, ◌==◌, not, List, [], ◌∷◌, ltb, leb, if◌then◌else◌, take, map,
}
use urbino.Base.Text.{Text, codes, text_eq, is_empty}
use urbino.Base.Result.{Result, ok, err, ◌>>=◌, of_option}
use urbino.Domain.Uuid.{Uuid, is_zero}
use urbino.Auth.Time.{Time}
use urbino.Auth.Keys.{KeyRecord, status_active, status_revoked}
use urbino.Storage.Errors.{StoreError, plain, not_found, bad_key_scope}
use urbino.Storage.Database.{
  KeyRow, Database, Session, select_key, list_keys, count_keys, exec, find_row, count_rows,
}
use urbino.Storage.Tenants.{is_there}
use urbino.Storage.ApiKeys.{active_tenant, active_project, is_member, has_public_id, in_scope}

-- The joins of a key with its tenant, its project, its user and the membership, all of them active.
abbrev pub has_active_owner : Database → KeyRow → Bool
has_active_owner db k =
    is_there (find_row (active_tenant k.stored.tenant) db.tenants)
    && is_there (find_row (active_project k.stored.tenant k.stored.project) db.projects)
    && is_member k.stored.tenant k.stored.project k.stored.user db

-- `errors` of a lookup: the store's, or `auth.ErrRevoked`.
pub data LookupError : Type 0 where
  store_error : StoreError → LookupError
  key_revoked : LookupError

abbrev pub from_store {ℓ} : {A : Type ℓ} → Result StoreError A → Result LookupError A
from_store (ok a) = ok a
from_store (err e) = err (store_error e)

abbrev pub unless_revoked : KeyRecord → Result LookupError KeyRecord
unless_revoked r = if not (text_eq r.status status_active) then err key_revoked else ok r

unfoldable pub lookup_api_key :
    (tenant project : Uuid) → Text → Session → Database → Result LookupError KeyRecord
lookup_api_key tenant project public_id session db =
    if is_zero tenant || is_zero project || is_empty public_id
    then err (store_error (plain bad_key_scope))
    else (do
      _ ← from_store (exec session select_key)
      k ← from_store (
          of_option (plain not_found) (
            find_row (λ (k : KeyRow). in_scope tenant project public_id k && has_active_owner db k)
              db.api_keys))
      unless_revoked k.stored)

-- `Authenticator.lookupPublic`; no row is `pgx.ErrNoRows`.
abbrev pub is_usable_row : Text → Database → KeyRow → Bool
is_usable_row public_id db k =
    has_public_id public_id k && text_eq k.stored.status status_active && has_active_owner db k

-- CASE WHEN status = 'active' AND expires_at <= $3 THEN 'expired' ELSE status END.
unfoldable pub status_at : Time → KeyRecord → Text
status_at now r =
    if text_eq r.status status_active && leb r.expires_at now then codes "expired" else r.status

abbrev pub of_project : (tenant project : Uuid) → KeyRow → Bool
of_project tenant project k = text_eq k.stored.tenant tenant && text_eq k.stored.project project

unfoldable pub filter_rows {ℓ} : {A : Type ℓ} → (A → Bool) → List A → List A
filter_rows test [] = []
filter_rows test (r ∷ rows) = let rest = filter_rows test rows in if test r then r ∷ rest else rest

-- ORDER BY, with the order as an argument: a stable insertion.
unfoldable pub insert_row {ℓ} : {A : Type ℓ} → (A → A → Bool) → A → List A → List A
insert_row before r [] = r ∷ []
insert_row before r (s ∷ rows) =
    let rest = insert_row before r rows in if before r s then r ∷ s ∷ rows else s ∷ rest

unfoldable pub order_by {ℓ} : {A : Type ℓ} → (A → A → Bool) → List A → List A
order_by before [] = []
order_by before (r ∷ rows) = insert_row before r (order_by before rows)

-- The order of texts by their bytes.
unfoldable pub text_le : Text → Text → Bool
text_le [] t = true
text_le (c ∷ s) [] = false
text_le (c ∷ s) (d ∷ t) = ltb c d || (c == d) && text_le s t

abbrev pub key_before : KeyRow → KeyRow → Bool
key_before a b =
    ltb a.created_at b.created_at
    || (a.created_at == b.created_at) && text_le a.stored.public_id b.stored.public_id

abbrev pub page_limit : ℕ → ℕ
page_limit limit = if (limit == 0) || ltb 1000 limit then 1000 else limit

abbrev pub shown_at : Time → KeyRow → KeyRecord
shown_at now k = record k.stored { status = status_at now k.stored }

abbrev pub has_status : Time → Text → KeyRow → Bool
has_status now status k = is_empty status || text_eq (status_at now k.stored) status

unfoldable pub list_api_keys_at :
    (tenant project : Uuid)
    → (status : Text) → (limit : ℕ) → (now : Time) → Session
    → Database
    → Result StoreError (List KeyRecord)
list_api_keys_at tenant project status limit now session db =
    if is_zero tenant || is_zero project then err (plain bad_key_scope) else (do
      _ ← exec session list_keys
      ok (
          map (shown_at now) (
            take (page_limit limit) (
              order_by key_before (
                filter_rows (λ (k : KeyRow). of_project tenant project k && has_status now status k)
                  db.api_keys)))))

pub record KeyCounts : Type 0 where
  pub total : ℕ
  pub active : ℕ
  pub revoked : ℕ

abbrev pub live_at : Time → KeyRow → Bool
live_at now k = text_eq k.stored.status status_active && ltb now k.stored.expires_at

unfoldable pub count_api_keys_at :
    (tenant project : Uuid) → (now : Time) → Session → Database → Result StoreError KeyCounts
count_api_keys_at tenant project now session db =
    if is_zero tenant || is_zero project then err (plain bad_key_scope) else (do
      _ ← exec session count_keys
      let rows = filter_rows (of_project tenant project) db.api_keys
      ok (record {
        total = count_rows (λ k. true) rows;
        active = count_rows (live_at now) rows;
        revoked = count_rows (λ (k : KeyRow). text_eq k.stored.status status_revoked) rows;
      }))
