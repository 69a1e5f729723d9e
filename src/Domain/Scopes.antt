-- ===== src/Domain/Scopes.antt =====
-- internal/domain/types.go: permission scopes, capabilities, and the entities that are validated field
-- by field (tenants, projects, principals, requests, attempts).
use urbino.Base.{
  ◌<◌, ℕ, ◌≡◌, refl, ◌↔◌, Bool, true, false, ◌||◌, not, List, [], ◌∷◌, arith, ◌==◌, if◌then◌else◌,
}
use urbino.Base.Text.{Text, codes, text_eq, text_eq_iff, is_empty, All}
use urbino.Base.Result.{Result, ok, err}
use urbino.Domain.State.{RequestState, request_valid, AttemptState, attempt_valid}
use urbino.Domain.Uuid.{Uuid, is_zero}
use urbino.Domain.Money.{parse_currency}

-- `PermissionScope` and its constants.
abbrev pub tenants_read : Text
tenants_read = codes "tenants:read"

abbrev pub tenants_write : Text
tenants_write = codes "tenants:write"

abbrev pub models_read : Text
models_read = codes "models:read"

abbrev pub models_invoke : Text
models_invoke = codes "models:invoke"

abbrev pub usage_read : Text
usage_read = codes "usage:read"

abbrev pub keys_read : Text
keys_read = codes "admin:keys:read"

abbrev pub keys_write : Text
keys_write = codes "admin:keys:write"

unfoldable pub scope_valid : Text → Bool
scope_valid s =
    text_eq s tenants_read
    || text_eq s tenants_write
    || text_eq s models_read
    || text_eq s models_invoke
    || text_eq s usage_read
    || text_eq s keys_read
    || text_eq s keys_write

unfoldable pub capability_valid : Text → Bool
capability_valid n =
    text_eq n (codes "admin_api")
    || text_eq n (codes "chat_completions")
    || text_eq n (codes "responses")
    || text_eq n (codes "embeddings")

pub data ValidationError : Type 0 where
  missing_capability invalid_tenant invalid_project invalid_principal : ValidationError
  invalid_request invalid_attempt bad_currency zero_version : ValidationError
  unknown_scope duplicate_scope : Text → ValidationError

-- A search of the keys of a map that is used as a set.
unfoldable pub is_in : Text → List Text → Bool
is_in s [] = false
is_in s (x ∷ xs) = text_eq x s || is_in s xs

-- The loop over the scopes; `seen` holds those that were read.
unfoldable pub validate_scopes : List Text → List Text → Result ValidationError (Unit {0})
validate_scopes seen [] = ok tt
validate_scopes seen (scope ∷ scopes) =
    let rest = validate_scopes (scope ∷ seen) scopes in
    if not (scope_valid scope)
    then err (unknown_scope scope)
    else if is_in scope seen
    then err (duplicate_scope scope)
    else rest

pub record CapabilityDescriptor : Type 0 where
  pub name : Text
  pub version : Text
  pub enabled : Bool
  pub scopes : List Text

unfoldable pub capability_validate : CapabilityDescriptor → Result ValidationError (Unit {0})
capability_validate c =
    if not (capability_valid c.name) || is_empty c.version
    then err missing_capability
    else validate_scopes [] c.scopes

abbrev pub tenant_active : Text
tenant_active = codes "active"

abbrev pub tenant_disabled : Text
tenant_disabled = codes "disabled"

unfoldable pub tenant_status_valid : Text → Bool
tenant_status_valid s = text_eq s tenant_active || text_eq s tenant_disabled

pub record Tenant : Type 0 where
  pub id : Uuid
  pub name : Text
  pub currency : Text
  pub status : Text
  pub version : ℕ

unfoldable pub tenant_validate : Tenant → Result ValidationError (Unit {0})
tenant_validate t =
    if is_zero t.id || is_empty t.name || t.version == 0 || not (tenant_status_valid t.status)
    then err invalid_tenant
    else elim (parse_currency t.currency) [ ok c ↦ ok tt | err e ↦ err bad_currency ]

pub record Project : Type 0 where
  pub id : Uuid
  pub tenant : Uuid
  pub name : Text
  pub version : ℕ

unfoldable pub project_validate : Project → Result ValidationError (Unit {0})
project_validate p =
    if is_zero p.id || is_zero p.tenant || is_empty p.name || p.version == 0
    then err invalid_project
    else ok tt

pub record Principal : Type 0 where
  pub id : Uuid
  pub tenant : Uuid
  pub project : Uuid
  pub scopes : List Text
  pub version : ℕ
  pub disabled : Bool

unfoldable pub principal_validate : Principal → Result ValidationError (Unit {0})
principal_validate p =
    if is_zero p.id || is_zero p.tenant || is_zero p.project || p.version == 0
    then err invalid_principal
    else validate_scopes [] p.scopes

pub record Request : Type 0 where
  pub id : Uuid
  pub tenant : Uuid
  pub project : Uuid
  pub principal : Uuid
  pub state : RequestState
  pub model : Text
  pub protocol : Text

unfoldable pub request_validate : Request → Result ValidationError (Unit {0})
request_validate r =
    if is_zero r.id
      || is_zero r.tenant
      || is_zero r.project
      || is_zero r.principal
      || is_empty r.model
      || is_empty r.protocol
      || not (request_valid r.state)
    then err invalid_request
    else ok tt

pub record Attempt : Type 0 where
  pub id : Uuid
  pub request : Uuid
  pub number : ℕ
  pub state : AttemptState
  pub credential_version : ℕ

unfoldable pub attempt_validate : Attempt → Result ValidationError (Unit {0})
attempt_validate a =
    if is_zero a.id
      || is_zero a.request
      || a.number == 0
      || not (attempt_valid a.state)
      || a.credential_version == 0
    then err invalid_attempt
    else ok tt

unfoldable pub new_credential_version : ℕ → Result ValidationError ℕ
new_credential_version value = if value == 0 then err zero_version else ok value

-- No text stands twice.
abbrev pub AllDistinct : List Text → Type 0
AllDistinct [] = Unit
AllDistinct (x ∷ xs) = (is_in x xs ≡ false) × AllDistinct xs

-- No text of the second list is in the first.
abbrev Apart : List Text → List Text → Type 0
Apart seen = All (λ s. is_in s seen ≡ false)

Apart-cons :
    (s : Text) (seen xs : List Text) → Apart seen xs → is_in s xs ≡ false → Apart (s ∷ seen) xs
unfolding is_in
Apart-cons s seen [] h k = tt
Apart-cons s seen (x ∷ xs) h k =
    (ground (arith, text_eq_iff s x, text_eq_iff x s), Apart-cons s seen xs h.1 (ground arith))

Apart-uncons :
    (s : Text) (seen xs : List Text) → Apart (s ∷ seen) xs → Apart seen xs × (is_in s xs ≡ false)
unfolding is_in
Apart-uncons s seen [] h = (tt, refl)
Apart-uncons s seen (x ∷ xs) h =
    let ih = Apart-uncons s seen xs h.1 in
    ((ground arith, ih.0), ground (arith, text_eq_iff s x, text_eq_iff x s))

validate_scopes-seen :
    (seen scopes : List Text)
    → (validate_scopes seen scopes ≡ ok tt)
      ↔ (All (λ s. scope_valid s ≡ true) scopes × AllDistinct scopes × Apart seen scopes)
unfolding validate_scopes
validate_scopes-seen seen [] = (λ _. (tt, tt, tt), λ _. refl)
validate_scopes-seen seen (s ∷ scopes) = (
  λ h.
      let ih = (validate_scopes-seen (s ∷ seen) scopes).0 (ground arith) in
      let apart = Apart-uncons s seen scopes ih.2 in
      ((ground arith, ih.0), (apart.1, ih.1), (ground arith, apart.0)),
  λ h.
      let ih =
        (validate_scopes-seen (s ∷ seen) scopes).1
          (h.0.1, h.1.1, Apart-cons s seen scopes h.2.1 h.1.0) in
      ground (arith, ih),
)

abbrev pub AreScopes : List Text → Type 0
AreScopes scopes = All (λ s. scope_valid s ≡ true) scopes × AllDistinct scopes

Apart-nil : (scopes : List Text) → Apart [] scopes
unfolding is_in
Apart-nil [] = tt
Apart-nil (s ∷ scopes) = (refl, Apart-nil scopes)

validate_scopes_ok : (scopes : List Text) → validate_scopes [] scopes ≡ ok tt → AreScopes scopes
validate_scopes_ok scopes h = let all = (validate_scopes-seen [] scopes).0 h in (all.0, all.1)

validate_scopes_of : (scopes : List Text) → AreScopes scopes → validate_scopes [] scopes ≡ ok tt
validate_scopes_of scopes h = (validate_scopes-seen [] scopes).1 (h.0, h.1, Apart-nil scopes)

principal_fields :
    (p : Principal)
    → (principal_validate p ≡ ok tt) ↔ (
        (is_zero p.id ≡ false)
        × (is_zero p.tenant ≡ false)
        × (is_zero p.project ≡ false)
        × (0 < p.version)
        × (validate_scopes [] p.scopes ≡ ok tt))
unfolding principal_validate
principal_fields p = (λ h. ground arith, λ h. ground arith)

-- A principal is valid exactly when its identifiers and its version are set, and its scopes are known
-- scopes with none repeated.
pub principal_validate_iff :
    (p : Principal)
    → (principal_validate p ≡ ok tt) ↔ (
        (is_zero p.id ≡ false)
        × (is_zero p.tenant ≡ false)
        × (is_zero p.project ≡ false)
        × (0 < p.version)
        × AreScopes p.scopes)
principal_validate_iff p = (
  λ h.
      let (a, b, c, d, e) = (principal_fields p).0 h in (a, b, c, d, validate_scopes_ok p.scopes e),
  λ (a, b, c, d, e). (principal_fields p).1 (a, b, c, d, validate_scopes_of p.scopes e),
)
