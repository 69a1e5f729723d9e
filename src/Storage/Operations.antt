-- ===== src/Storage/Operations.antt =====
-- internal/ports/admin.go: `AdminMutationTx`, the operations that a management mutation may use, over
-- the methods of `adminMutationTx` in internal/storage/postgres/identity.go.
pub mod Audited
use urbino.Base.{ℕ}
use urbino.Base.Text.{Text}
use urbino.Base.Result.{Result, ok, ◌>>=◌}
use urbino.Domain.Uuid.{Uuid}
use urbino.Domain.Scopes.{Tenant}
use urbino.Auth.Time.{Time}
use urbino.Auth.Keys.{KeyRecord, Issued}
use urbino.Storage.Errors.{StoreError}
use urbino.Storage.Database.{Database, Session}
use urbino.Storage.Tenants.{create_tenant_tx, update_tenant_tx}
use urbino.Storage.ApiKeys.{create_api_key_tx, revoke_api_key_tx}
use urbino.Storage.AdminTokens.{revoke_admin_token_tx}

-- The calls of the interface, with their arguments.
pub data Operation : Type 0 where
  create_tenant : Tenant → Operation
  update_tenant_at : Uuid → (version : ℕ) → (name status : Text) → Operation
  create_key : Issued KeyRecord → Operation
  revoke_key_at : (tenant project : Uuid) → Text → Time → Operation
  revoke_token_of : Uuid → Text → Time → Operation

abbrev pub written : {X : Type 0} → Result StoreError (X × Database) → Result StoreError Database
written r = r >>= λ p. ok p.1

-- What a call of an actor writes.
unfoldable pub apply : Uuid → Operation → Session → Database → Result StoreError Database
apply actor (create_tenant t) session db = written (create_tenant_tx actor t session db)
apply actor (update_tenant_at id version name status) session db =
    written (update_tenant_tx actor id version name status session db)
apply actor (create_key issued) session db = written (create_api_key_tx actor issued session db)
apply actor (revoke_key_at tenant project public_id now) session db =
    written (revoke_api_key_tx actor tenant project public_id now session db)
apply actor (revoke_token_of principal public_id now) session db =
    written (revoke_admin_token_tx actor principal public_id now session db)
