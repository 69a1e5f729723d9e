-- ===== src/Auth/Service/Revoked.antt =====
-- A key that `RevokeKey` of internal/auth/service.go has revoked, through the later steps.
use mathlib.Core.Option.{some-injective}
use mathlib.Core.Path.{subst}
use urbino.Base.{
  ℕ, ◌≡◌, ◌≢◌, refl, sym, ap, ◌∙◌, inl, inr, false, ◌||◌, not, List, [], ◌∷◌, ◌++◌, some, arith,
  Option-cases, Bool-cases,
}
use urbino.Base.Text.{Text, text_eq, text_eq_iff, text_eq_refl}
use urbino.Base.Dict.{Dict, lookup, lookup-insert}
use urbino.Base.Result.{Result, ok, err, guard-ok}
use urbino.Auth.Errors.{AuthError, invalid_credential, scope_denied}
use urbino.Auth.Time.{Time}
use urbino.Auth.Keys.{all_scopes, KeyRecord, Issued, Entropy, AdminTokenRecord, contains}
use urbino.Auth.Keys.Issue.{issue_named}
use urbino.Auth.Service.{
  scope_valid, HeaderCredential, Uuid, Scope, IssueKeyRequest, Principal, Request, Backend, Service,
}
use urbino.Auth.Service.Public.{
  issue_key, revoke_key, authenticate_public, new_key, keep_issued, revoke_found, revoked_record,
  authenticate_split, authenticate_parsed,
}
use urbino.Auth.Service.Admin.{
  bootstrap_admin, issue_admin_token, revoke_admin_token, keep_bootstrap, keep_token, keep_revoked,
}
use urbino.Auth.Service.Accepted.{authenticate_public_sound}
use urbino.Auth.Service.Steps.{Step, Steps, drawn_ids}

-- The service keeps the key as revoked.
record IsRevoked {B : Type 0} (id : Text) (s : Service B) : Type 0 where
  r : KeyRecord
  at : Time
  kept : lookup id s.keys ≡ some r
  marked : r.revoked_at ≡ some at

IsRevoked-same :
    {B : Type 0} (id : Text) (s t : Service B) → t.keys ≡ s.keys → IsRevoked id s → IsRevoked id t
IsRevoked-same id s t e i = record {
  r = i.r;
  at = i.at;
  kept = ap (λ (m : Dict KeyRecord). lookup id m) e ∙ i.kept;
  marked = i.marked;
}

contains-append :
    (xs ys : List Text) (x : Text) → contains (xs ++ ys) x ≡ (contains xs x || contains ys x)
unfolding contains
contains-append [] ys x = refl
contains-append (y ∷ xs) ys x = ground (arith, contains-append xs ys x)

module _ {B : Type 0} (s : Service B) where
  keep_bootstrap_keys :
      (a : Uuid) (r : Result AuthError (Issued AdminTokenRecord))
      → (keep_bootstrap s a r).1.keys ≡ s.keys
  keep_bootstrap_keys a (err e) = refl
  keep_bootstrap_keys a (ok k) = refl

  keep_token_keys :
      (a : Uuid) (r : Result AuthError (List Text × Issued AdminTokenRecord))
      → (keep_token s a r).1.keys ≡ s.keys
  keep_token_keys a (err e) = refl
  keep_token_keys a (ok (scopes, k)) = refl

  keep_revoked_keys :
      (id : Text) (at : Time) (r : Result AuthError AdminTokenRecord)
      → (keep_revoked s id at r).1.keys ≡ s.keys
  keep_revoked_keys id at (err e) = refl
  keep_revoked_keys id at (ok r) = refl

module _ (hmac : List ℕ → Text → List ℕ) {B : Type 0} (backend : Backend B) (s : Service B) where
  authenticate_split_keys :
      (parts : Result AuthError (Text × Text)) (now : Time)
      → (authenticate_split hmac backend s parts now).1.keys ≡ s.keys
  authenticate_split_keys (err e) now = refl
  authenticate_split_keys (ok (id, secret)) now = elim (Option-cases (lookup id s.keys)) [
    | inl e ↦ rw e refl
    | inr (r, e) ↦ rw e refl
  ]

  authenticate_parsed_keys :
      (c : Result AuthError HeaderCredential) (now : Time)
      → (authenticate_parsed hmac backend s c now).1.keys ≡ s.keys
  authenticate_parsed_keys (err e) now = refl
  authenticate_parsed_keys (ok c) now = authenticate_split_keys _ now

  new_key_named :
      (req : IssueKeyRequest) (now now' now'' : Time) (e : Entropy) (k : Issued KeyRecord)
      → new_key hmac s req now now' now'' e ≡ ok k
      → drawn_ids e.public_bytes ≡ k.stored.public_id ∷ []
  unfolding new_key
  new_key_named req now now' now'' e k h =
      let (_, g) = guard-ok _ invalid_credential _ h in
      let (_, made) = guard-ok (not (all_scopes scope_valid req.scopes)) scope_denied _ g in
      let (p, ep, named) = issue_named hmac _ _ _ _ _ _ _ _ e k made in
      ap drawn_ids ep ∙ ap (λ (i : Text). i ∷ []) (sym named)

  issue-IsRevoked :
      (id : Text) (req : IssueKeyRequest) (now now' now'' : Time) (e : Entropy)
      (o : Result AuthError (Issued KeyRecord))
      → new_key hmac s req now now' now'' e ≡ o
      → contains (drawn_ids e.public_bytes) id ≡ false
      → IsRevoked id s
      → IsRevoked id (keep_issued backend s o).1
  unfolding contains
  issue-IsRevoked id req now now' now'' e (err x) n c i = IsRevoked-same id s _ refl i
  issue-IsRevoked id req now now' now'' e (ok k) n c i =
      let named = new_key_named req now now' now'' e k n in
      let apart : text_eq k.stored.public_id id ≡ false = ground (arith, rw named at c) in
      record {
        r = i.r;
        at = i.at;
        kept = rw (lookup-insert k.stored.public_id id k.stored s.keys, apart) i.kept;
        marked = i.marked;
      }

module _ {B : Type 0} (backend : Backend B) (s : Service B) where
  revoke-IsRevoked :
      (id id' : Text) (at : Time) (found : Result AuthError KeyRecord) (b : B)
      → IsRevoked id s
      → IsRevoked id (revoke_found backend s id' at found b).1
  revoke-IsRevoked id id' at (err e) b i = IsRevoked-same id s _ refl i
  revoke-IsRevoked id id' at (ok r) b i = elim (Bool-cases (text_eq id' id)) [
    | inl e ↦ record {
      r = revoked_record r at;
      at = at;
      kept = rw (lookup-insert id' id (revoked_record r at) s.keys, e) refl;
      marked = refl;
    }
    | inr e ↦ record {
      r = i.r;
      at = i.at;
      kept = rw (lookup-insert id' id (revoked_record r at) s.keys, e) i.kept;
      marked = i.marked;
    }
  ]

  revoke_marks :
      (id : Text) (at : Time) (r : KeyRecord) (b : B)
      → IsRevoked id (revoke_found backend s id at (ok r) b).1
  revoke_marks id at r b = record {
    r = revoked_record r at;
    at = at;
    kept = rw (lookup-insert id id (revoked_record r at) s.keys, text_eq_refl id) refl;
    marked = refl;
  }

module _ (hmac : List ℕ → Text → List ℕ) {B : Type 0} (backend : Backend B) (id : Text) where
  Step-IsRevoked :
      {ids : List Text} {s t : Service B}
      → Step hmac backend ids s t
      → contains ids id ≡ false
      → IsRevoked id s
      → IsRevoked id t
  unfolding issue_key revoke_key authenticate_public bootstrap_admin issue_admin_token
      revoke_admin_token
  Step-IsRevoked (Step.issues_key s req now now' now'' e) c i =
      issue-IsRevoked hmac backend s id req now now' now'' e _ refl c i
  Step-IsRevoked (Step.revokes_key s scope id' at) c i = revoke-IsRevoked backend s id id' at _ _ i
  Step-IsRevoked (Step.authenticates s req now) c i =
      IsRevoked-same id s _ (authenticate_parsed_keys hmac backend s _ now) i
  Step-IsRevoked (Step.bootstraps s req now e) c i =
      IsRevoked-same id s _ (keep_bootstrap_keys s req.admin_id _) i
  Step-IsRevoked (Step.issues_token s req now e) c i =
      IsRevoked-same id s _ (keep_token_keys s req.admin_id _) i
  Step-IsRevoked (Step.revokes_token s clock a id' at) c i =
      IsRevoked-same id s _ (keep_revoked_keys s id' at _) i
  Step-IsRevoked (Step.backend_step s b) c i = IsRevoked-same id s _ refl i

  Steps-IsRevoked :
      {ids : List Text} {s t : Service B}
      → Steps hmac backend ids s t
      → contains ids id ≡ false
      → IsRevoked id s
      → IsRevoked id t
  Steps-IsRevoked (Steps.done s) c i = i
  Steps-IsRevoked (Steps.next {ids = ids} {ids' = ids'} p q) c i =
      Steps-IsRevoked q (ground (arith, contains-append ids ids' id, c))
        (Step-IsRevoked p (ground (arith, contains-append ids ids' id, c)) i)

  revoke_key_marks :
      (s : Service B) (scope : Scope) (at : Time) (r : KeyRecord)
      → lookup id s.keys ≡ some r
      → r.tenant ≡ scope.tenant_id
      → r.project ≡ scope.project_id
      → IsRevoked id (revoke_key backend s scope id at).1
  unfolding revoke_key
  revoke_key_marks s scope at r kept own own' =
      rw
        (
          kept,
          (text_eq_iff r.tenant scope.tenant_id).1 own,
          (text_eq_iff r.project scope.project_id).1 own',
        )
        (revoke_marks backend s id at r s.backend)

  -- After a call of `RevokeKey` for a key that the service keeps, under the key's tenant and project,
  -- no request is accepted under that key's identifier, whether or not the backend failed in the call
  -- and whatever calls and changes of the backend follow, as long as none of them draws the same
  -- identifier for a new key.
  pub revoked_key_refused :
      (s : Service B) (scope : Scope) (at : Time) (r : KeyRecord) {t : Service B} {ids : List Text}
      (req : Request) (now : Time) (p : Principal)
      → lookup id s.keys ≡ some r
      → r.tenant ≡ scope.tenant_id
      → r.project ≡ scope.project_id
      → Steps hmac backend ids (revoke_key backend s scope id at).1 t
      → contains ids id ≡ false
      → (authenticate_public hmac backend t req now).0 ≡ ok p
      → p.key_id ≢ id
  revoked_key_refused s scope at r {t = t} req now p kept own own' steps apart h same =
      let i = Steps-IsRevoked steps apart (revoke_key_marks s scope at r kept own own') in
      let a = authenticate_public_sound hmac backend t req now p h in
      let k : lookup id t.keys ≡ some a.r = subst (λ j. lookup j t.keys ≡ some a.r) same a.kept in
      let one : a.r ≡ i.r = some-injective _ _ (sym k ∙ i.kept) in
      cc (a.verified.trusted.standing, i.marked, one)
