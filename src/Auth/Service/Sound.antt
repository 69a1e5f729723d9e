-- ===== src/Auth/Service/Sound.antt =====
-- The administrators that internal/auth/service.go keeps, through its steps.
use mathlib.Core.Path.{subst}
use urbino.Base.{
  ℕ, ◌≡◌, refl, sym, ap, ◌∙◌, inl, inr, true, false, List, [], Option, none, some, arith,
  Bool-cases, Option-cases,
}
use urbino.Base.Text.{Text}
use urbino.Base.Dict.{lookup-insert_cases, lookup-empty, Dict, lookup}
use urbino.Base.Result.{>>=-ok, Result, ok, err, ◌>>=◌}
use urbino.Domain.Uuid.{Uuid}
use urbino.Auth.Errors.{AuthError}
use urbino.Auth.Time.{Time}
use urbino.Auth.Keys.{Pepper, KeyRecord, AdminTokenRecord, Issued, Entropy, contains, issue_admin}
use urbino.Auth.Service.{
  max_admin_token_ttl, pos, pepper_at, with_active, copy_peppers, with_backend, HeaderCredential,
  bootstrap_admin_scopes, AdminPrincipal, IssueAdminTokenRequest, Options, Backend, Service,
  new_service,
}
use urbino.Auth.Service.Public.{
  authenticate_split, authenticate_parsed, revoke_found, keep_issued, issue_key, revoke_key,
  authenticate_public,
}
use urbino.Auth.Service.Admin.{
  keep_token, revocable, new_token, new_bootstrap, keep_revoked, keep_bootstrap, keep_admin,
  bootstrap_admin, issue_admin_token, revoke_admin_token,
}
use urbino.Auth.Keys.Issue.{issue_admin_stored}
use urbino.Auth.Service.Held.{IsWithin, new_token_ok}
use urbino.Auth.Service.Steps.{Step, Steps}

-- The administrators are the same in both states.
abbrev pub SameAdmins : {B : Type 0} → Service B → Service B → Type 0
SameAdmins s t =
    (t.admins ≡ s.admins) × (t.principals ≡ s.principals) × (t.bootstrapped ≡ s.bootstrapped)

module _ (hmac : List ℕ → Text → List ℕ) {B : Type 0} (backend : Backend B) where
  pub keep_issued-SameAdmins :
      (s : Service B) (r : Result AuthError (Issued KeyRecord))
      → SameAdmins s (keep_issued backend s r).1
  keep_issued-SameAdmins s (ok k) = (refl, refl, refl)
  keep_issued-SameAdmins s (err e) = (refl, refl, refl)

  pub revoke_found-SameAdmins :
      (s : Service B) (public_id : Text) (at : Time) (found : Result AuthError KeyRecord) (b : B)
      → SameAdmins s (revoke_found backend s public_id at found b).1
  revoke_found-SameAdmins s public_id at (err e) b = (refl, refl, refl)
  revoke_found-SameAdmins s public_id at (ok r) b = (refl, refl, refl)

  authenticate_split-SameAdmins :
      (s : Service B) (parts : Result AuthError (Text × Text)) (now : Time)
      → SameAdmins s (authenticate_split hmac backend s parts now).1
  authenticate_split-SameAdmins s (err e) now = (refl, refl, refl)
  authenticate_split-SameAdmins s (ok (public_id, secret)) now =
      elim (Option-cases (lookup public_id s.keys)) [
        | inl e ↦ rw e (refl, refl, refl)
        | inr (r, e) ↦ rw e (refl, refl, refl)
      ]

  pub authenticate_parsed-SameAdmins :
      (s : Service B) (c : Result AuthError HeaderCredential) (now : Time)
      → SameAdmins s (authenticate_parsed hmac backend s c now).1
  authenticate_parsed-SameAdmins s (err e) now = (refl, refl, refl)
  authenticate_parsed-SameAdmins s (ok c) now = authenticate_split-SameAdmins s _ now

-- At most one administrator, whose tokens stay within the scopes of the bootstrap.
pub record IsSound {B : Type 0} (s : Service B) : Type 0 where
  pub owner : Uuid
  pub fresh : s.bootstrapped ≡ false → (s.admins ≡ []) × (s.principals ≡ [])
  pub tokens :
      (id : Text) (r : AdminTokenRecord)
      → lookup id s.admins ≡ some r
      → (r.principal_id ≡ owner) × IsWithin r.scopes bootstrap_admin_scopes
  pub owners :
      (a : Uuid) (p : AdminPrincipal)
      → lookup a s.principals ≡ some p
      → (a ≡ owner) × (p.scopes ≡ bootstrap_admin_scopes)

SameAdmins-IsSound : {B : Type 0} (s t : Service B) → SameAdmins s t → IsSound s → IsSound t
SameAdmins-IsSound s t (a, p, b) i = record {
  owner = i.owner;
  fresh = λ e. let (ea, ep) = i.fresh (sym b ∙ e) in (a ∙ ea, p ∙ ep);
  tokens = λ id r e. i.tokens id r (sym (ap (λ (m : Dict AdminTokenRecord). lookup id m) a) ∙ e);
  owners = λ id r e. i.owners id r (sym (ap (λ (m : Dict AdminPrincipal). lookup id m) p) ∙ e);
}

with_active_empty :
    {B : Type 0} (options : Options B) (b : B) (peppers : Dict Pepper) (s : Service B)
    → with_active options b peppers ≡ ok s
    → (s.admins ≡ []) × (s.principals ≡ [])
with_active_empty options b peppers s h = (ground arith, ground arith)

with_backend_empty :
    {B : Type 0} (options : Options B) (b : Option B) (s : Service B)
    → with_backend options b ≡ ok s
    → (s.admins ≡ []) × (s.principals ≡ [])
with_backend_empty options none s h = cc
with_backend_empty options (some b) s h =
    let rest : (copy_peppers options.peppers >>= with_active options b) ≡ ok s = ground arith in
    let (peppers, _, e) = >>=-ok (copy_peppers options.peppers) (with_active options b) rest in
    with_active_empty options b peppers s e

pub new_service-IsSound :
    {B : Type 0} (options : Options B) (s : Service B) → new_service options ≡ ok s → IsSound s
unfolding new_service
new_service-IsSound options s h =
    let (a, p) = with_backend_empty options options.backend s h in
    record {
      owner = [];
      fresh = λ _. (a, p);
      tokens = λ id r e. lookup-empty id r s.admins a e;
      owners = λ id r e. lookup-empty id r s.principals p e;
    }

revocable_found :
    {B : Type 0} (s : Service B) (clock : Text → Time) (a : Uuid) (id : Text) (r : AdminTokenRecord)
    → revocable s clock a id ≡ ok r
    → lookup id s.admins ≡ some r
unfolding revocable
revocable_found s clock a id r h = ground arith

module _ {B : Type 0} (s : Service B) (i : IsSound s) where
  keep_bootstrap-IsSound :
      (a : Uuid) (k : Issued AdminTokenRecord)
      → s.bootstrapped ≡ false
      → k.stored.scopes ≡ bootstrap_admin_scopes
      → IsSound (keep_bootstrap s a (ok k)).1
  keep_bootstrap-IsSound a k b e =
      let (ea, ep) = i.fresh b in
      record {
        owner = a;
        fresh = λ f. cc;
        tokens = λ id r h. elim (lookup-insert_cases _ id _ r s.admins h) [
          | inl (n, f) ↦
              subst
                (λ (r : AdminTokenRecord).
                  (r.principal_id ≡ a) × IsWithin r.scopes bootstrap_admin_scopes)
                f
                (
                  refl,
                  λ x.
                      subst
                        (λ (l : List Text).
                          contains l x ≡ true → contains bootstrap_admin_scopes x ≡ true)
                        (sym e) (λ m. m),
                )
          | inr f ↦ lookup-empty id r s.admins ea f
        ];
        owners = λ id r h. elim (lookup-insert_cases a id _ r s.principals h) [
          | inl (n, f) ↦ (sym n, sym (ap (λ (p : AdminPrincipal). p.scopes) f))
          | inr f ↦ lookup-empty id r s.principals ep f
        ];
      }

  keep_admin-IsSound :
      (a : Uuid) (k : Issued AdminTokenRecord)
      → a ≡ i.owner
      → IsWithin k.stored.scopes bootstrap_admin_scopes
      → s.bootstrapped ≡ true
      → IsSound (keep_admin s a k)
  keep_admin-IsSound a k e w b = record {
    owner = i.owner;
    fresh = λ f. cc;
    tokens = λ id r h. elim (lookup-insert_cases _ id _ r s.admins h) [
      | inl (n, f) ↦
          subst
            (λ (r : AdminTokenRecord).
              (r.principal_id ≡ i.owner) × IsWithin r.scopes bootstrap_admin_scopes)
            f (e, w)
      | inr f ↦ i.tokens id r f
    ];
    owners = i.owners;
  }

  keep_revoked-IsSound :
      (id : Text) (at : Time) (r : AdminTokenRecord)
      → lookup id s.admins ≡ some r
      → IsSound (keep_revoked s id at (ok r)).1
  keep_revoked-IsSound public_id at r h = record {
    owner = i.owner;
    fresh = λ f. lookup-empty public_id r s.admins (i.fresh f).0 h;
    tokens = λ id t e. elim (lookup-insert_cases _ id _ t s.admins e) [
      | inl (n, f) ↦
          subst
            (λ (r : AdminTokenRecord).
              (r.principal_id ≡ i.owner) × IsWithin r.scopes bootstrap_admin_scopes)
            f (i.tokens public_id r h)
      | inr f ↦ i.tokens id t f
    ];
    owners = i.owners;
  }

  requested-IsSound :
      (hmac : List ℕ → Text → List ℕ) (req : IssueAdminTokenRequest) (now : Time) (e : Entropy)
      (r : Result AuthError (List Text × Issued AdminTokenRecord))
      → new_token hmac s req now e ≡ r
      → IsSound (keep_token s req.admin_id r).1
  requested-IsSound hmac req now e (err x) h = i
  requested-IsSound hmac req now e (ok (scopes, k)) h =
      let t = new_token_ok hmac s req now e scopes k h in
      let (own, all) = i.owners req.admin_id t.holder t.known in
      keep_admin-IsSound req.admin_id k own
        (λ x m.
          subst (λ (l : List Text). contains l x ≡ true) all
            (t.held x (subst (λ (l : List Text). contains l x ≡ true) t.stored.0 m)))
        (elim (Bool-cases s.bootstrapped) [
          | inl b ↦ b
          | inr b ↦ lookup-empty req.admin_id t.holder s.principals (i.fresh b).1 t.known
        ])

  bootstrapped-IsSound :
      (hmac : List ℕ → Text → List ℕ) (a : Uuid) (now : Time) (e : Entropy)
      (r : Result AuthError (Issued AdminTokenRecord))
      → new_bootstrap hmac s a now e ≡ r
      → IsSound (keep_bootstrap s a r).1
  unfolding new_bootstrap
  bootstrapped-IsSound hmac a now e (err x) h = i
  bootstrapped-IsSound hmac a now e (ok k) h =
      let f : s.bootstrapped ≡ false = ground arith in
      let made : issue_admin hmac (pepper_at s.peppers s.active_id) bootstrap_admin_scopes now
            (pos max_admin_token_ttl) e
          ≡ ok k =
        ground arith in
      keep_bootstrap-IsSound a k f (issue_admin_stored hmac _ _ _ _ e k made).0

  revoked-IsSound :
      (clock : Text → Time) (a : Uuid) (id : Text) (at : Time)
      (r : Result AuthError AdminTokenRecord)
      → revocable s clock a id ≡ r
      → IsSound (keep_revoked s id at r).1
  revoked-IsSound clock a id at (err x) h = i
  revoked-IsSound clock a id at (ok r) h =
      keep_revoked-IsSound id at r (revocable_found s clock a id r h)

pub Step-IsSound :
    (hmac : List ℕ → Text → List ℕ) {B : Type 0} (backend : Backend B) {ids : List Text}
    {s t : Service B}
    → Step hmac backend ids s t
    → IsSound s
    → IsSound t
unfolding issue_key revoke_key authenticate_public bootstrap_admin issue_admin_token
    revoke_admin_token
Step-IsSound hmac backend (Step.issues_key s req now now' now'' e) i =
    SameAdmins-IsSound s _ (keep_issued-SameAdmins hmac backend s _) i
Step-IsSound hmac backend (Step.revokes_key s scope id at) i =
    SameAdmins-IsSound s _ (revoke_found-SameAdmins hmac backend s id at _ _) i
Step-IsSound hmac backend (Step.authenticates s req now) i =
    SameAdmins-IsSound s _ (authenticate_parsed-SameAdmins hmac backend s _ now) i
Step-IsSound hmac backend (Step.bootstraps s req now e) i =
    bootstrapped-IsSound s i hmac req.admin_id now e _ refl
Step-IsSound hmac backend (Step.issues_token s req now e) i =
    requested-IsSound s i hmac req now e _ refl
Step-IsSound hmac backend (Step.revokes_token s clock a id at) i =
    revoked-IsSound s i clock a id at _ refl
Step-IsSound hmac backend (Step.backend_step s b) i = SameAdmins-IsSound s _ (refl, refl, refl) i

pub Steps-IsSound :
    (hmac : List ℕ → Text → List ℕ) {B : Type 0} (backend : Backend B) {ids : List Text}
    {s t : Service B}
    → Steps hmac backend ids s t
    → IsSound s
    → IsSound t
Steps-IsSound hmac backend (Steps.done s) i = i
Steps-IsSound hmac backend (Steps.next p q) i =
    Steps-IsSound hmac backend q (Step-IsSound hmac backend p i)
