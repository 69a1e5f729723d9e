-- ===== src/Auth/Service/Steps.antt =====
-- The steps of internal/auth/service.go: every call that changes the service, with any arguments.
use urbino.Base.{ℕ, List, [], ◌∷◌, ◌++◌, Option, none, some}
use urbino.Base.Text.{Text}
use urbino.Domain.Uuid.{Uuid}
use urbino.Auth.Time.{Time}
use urbino.Auth.Base64.{encode}
use urbino.Auth.Keys.{Entropy}
use urbino.Auth.Service.{
  Scope, IssueKeyRequest, BootstrapRequest, IssueAdminTokenRequest, Request, Backend, Service,
}
use urbino.Auth.Service.Public.{issue_key, revoke_key, authenticate_public}
use urbino.Auth.Service.Admin.{bootstrap_admin, issue_admin_token, revoke_admin_token}

-- The public identifier that an issue of a key draws.
abbrev pub drawn_ids : Option (List ℕ) → List Text
drawn_ids none = []
drawn_ids (some p) = encode p ∷ []

module _ (hmac : List ℕ → Text → List ℕ) {B : Type 0} (backend : Backend B) where
  -- A step, with the identifiers that are drawn for a key in it.
  pub data Step : List Text → Service B → Service B → Type 0 where
    issues_key :
        (s : Service B) (req : IssueKeyRequest) (now now' now'' : Time) (e : Entropy)
        → Step (drawn_ids e.public_bytes) s (issue_key hmac backend s req now now' now'' e).1
    revokes_key :
        (s : Service B) (scope : Scope) (public_id : Text) (at : Time)
        → Step [] s (revoke_key backend s scope public_id at).1
    authenticates :
        (s : Service B) (req : Request) (now : Time)
        → Step [] s (authenticate_public hmac backend s req now).1
    bootstraps :
        (s : Service B) (req : BootstrapRequest) (now : Time) (e : Entropy)
        → Step [] s (bootstrap_admin hmac s req now e).1
    issues_token :
        (s : Service B) (req : IssueAdminTokenRequest) (now : Time) (e : Entropy)
        → Step [] s (issue_admin_token hmac s req now e).1
    revokes_token :
        (s : Service B) (clock : Text → Time) (admin_id : Uuid) (public_id : Text) (at : Time)
        → Step [] s (revoke_admin_token s clock admin_id public_id at).1
    -- The backend changes by itself.
    backend_step : (s : Service B) (b : B) → Step [] s (record s { backend = b })

  -- Any number of steps.
  pub data Steps : List Text → Service B → Service B → Type 0 where
    done : (s : Service B) → Steps [] s s
    next :
        {ids ids' : List Text} {s t u : Service B}
        → Step ids s t
        → Steps ids' t u
        → Steps (ids ++ ids') s u
