-- ===== src/Auth/Service/Tokens.antt =====
-- What `BootstrapAdmin`, `IssueAdminToken` and `RevokeAdminToken` of internal/auth/service.go do to
-- the service.
use mathlib.Core.Path.{subst}
use urbino.Base.{
  ◌&&◌, ◌≢◌, ◌||◌, ◌⊎◌, ◌<◌, ℕ, suc, ◌≤◌, ◌≡◌, refl, ap, ◌∙◌, inl, inr, true, not, List, [], ◌∷◌,
  none, some, arith, if◌then◌else◌, Bool-cases,
}
use urbino.Base.Text.{IsIn, is_here, is_there_in, text_eq_refl, Text, text_eq_iff}
use urbino.Base.Int.{pos_part}
use urbino.Base.Dict.{Dict, lookup, insert, lookup-insert}
use urbino.Base.Result.{Result, ok, err, >>=-ok, guard-ok, of_option, of_option-ok}
use urbino.Domain.Uuid.{Uuid, is_zero}
use urbino.Auth.Errors.{
  invalid_credential, scope_denied, AuthError, already_bootstrapped, not_found,
}
use urbino.Auth.Time.{Time, add_time}
use urbino.Auth.Keys.{is_some, AdminTokenRecord, Issued, Entropy, contains}
use urbino.Auth.Service.{
  after, is_empty, scope_valid, max_admin_token_ttl, AdminPrincipal, AdminCredential,
  BootstrapRequest, IssueAdminTokenRequest, Backend, Service, available, requested,
}
use urbino.Auth.Service.Public.{authenticate_public, revoke_key, issue_key}
use urbino.Auth.Service.Admin.{
  owned_by, keep_admin, credential_of, bootstrap_admin, issue_admin_token, revoke_admin_token,
  revocable, revoked_token, keep_bootstrap, keep_token, keep_revoked, new_bootstrap, new_token,
}
use urbino.Auth.Service.Held.{IsWithin, new_token_ok}
use urbino.Auth.Service.Sound.{
  keep_issued-SameAdmins, revoke_found-SameAdmins, authenticate_parsed-SameAdmins,
}
use urbino.Auth.Service.Steps.{Step, Steps}

keep_token_bootstrapped :
    {B : Type 0} (s : Service B) (a : Uuid)
    (r : Result AuthError (List Text × Issued AdminTokenRecord))
    → (keep_token s a r).1.bootstrapped ≡ s.bootstrapped
keep_token_bootstrapped s a (err e) = refl
keep_token_bootstrapped s a (ok (scopes, k)) = refl

keep_revoked_bootstrapped :
    {B : Type 0} (s : Service B) (id : Text) (at : Time) (r : Result AuthError AdminTokenRecord)
    → (keep_revoked s id at r).1.bootstrapped ≡ s.bootstrapped
keep_revoked_bootstrapped s id at (err e) = refl
keep_revoked_bootstrapped s id at (ok r) = refl

keep_bootstrap_bootstrapped :
    {B : Type 0} (s : Service B) (a : Uuid) (r : Result AuthError (Issued AdminTokenRecord))
    → s.bootstrapped ≡ true
    → (keep_bootstrap s a r).1.bootstrapped ≡ true
keep_bootstrap_bootstrapped s a (err e) h = h
keep_bootstrap_bootstrapped s a (ok k) h = refl

keep_bootstrap_sets :
    {B : Type 0} (s : Service B) (a : Uuid) (r : Result AuthError (Issued AdminTokenRecord))
    (c : AdminCredential)
    → (keep_bootstrap s a r).0 ≡ ok c
    → (keep_bootstrap s a r).1.bootstrapped ≡ true
keep_bootstrap_sets s a (err e) c h = cc
keep_bootstrap_sets s a (ok k) c h = refl

module _ (hmac : List ℕ → Text → List ℕ) {B : Type 0} (backend : Backend B) where
  Step-bootstrapped :
      {ids : List Text} {s t : Service B}
      → Step hmac backend ids s t
      → s.bootstrapped ≡ true
      → t.bootstrapped ≡ true
  unfolding issue_key revoke_key authenticate_public bootstrap_admin issue_admin_token
      revoke_admin_token
  Step-bootstrapped (Step.issues_key s req now now' now'' e) b =
      (keep_issued-SameAdmins hmac backend s _).2 ∙ b
  Step-bootstrapped (Step.revokes_key s scope id at) b =
      (revoke_found-SameAdmins hmac backend s id at _ _).2 ∙ b
  Step-bootstrapped (Step.authenticates s req now) b =
      (authenticate_parsed-SameAdmins hmac backend s _ now).2 ∙ b
  Step-bootstrapped (Step.bootstraps s req now e) b = keep_bootstrap_bootstrapped s req.admin_id _ b
  Step-bootstrapped (Step.issues_token s req now e) b = keep_token_bootstrapped s req.admin_id _ ∙ b
  Step-bootstrapped (Step.revokes_token s clock a id at) b = keep_revoked_bootstrapped s id at _ ∙ b
  Step-bootstrapped (Step.backend_step s b') b = b

  Steps-bootstrapped :
      {ids : List Text} {s t : Service B}
      → Steps hmac backend ids s t
      → s.bootstrapped ≡ true
      → t.bootstrapped ≡ true
  Steps-bootstrapped (Steps.done s) b = b
  Steps-bootstrapped (Steps.next p q) b = Steps-bootstrapped q (Step-bootstrapped p b)

  -- Once a bootstrap has succeeded, every later one is refused and changes nothing, whatever calls
  -- come between.
  pub bootstrap_once :
      (s : Service B) {u : Service B} {ids : List Text} (req req' : BootstrapRequest)
      (now now' : Time) (e e' : Entropy) (c : AdminCredential)
      → (bootstrap_admin hmac s req now e).0 ≡ ok c
      → Steps hmac backend ids (bootstrap_admin hmac s req now e).1 u
      → bootstrap_admin hmac u req' now' e' ≡ (err already_bootstrapped, u)
  unfolding bootstrap_admin new_bootstrap
  bootstrap_once s {u = u} req req' now now' e e' c h steps =
      let b = Steps-bootstrapped steps (keep_bootstrap_sets s req.admin_id _ c h) in rw b refl

-- The scopes that are asked for, without repetition, are as a set those of the request.
requested-contains :
    (seen scopes r : List Text)
    → requested seen scopes ≡ ok r
    → (x : Text) → contains r x ≡ true
    → contains scopes x ≡ true
unfolding requested contains
requested-contains seen [] r h x m = ground arith
requested-contains seen (s ∷ scopes) r h x m =
    let seen' = if contains seen s then seen else s ∷ seen in
    let (v, g) = guard-ok (not (scope_valid s)) scope_denied _ h in
    elim (Bool-cases (contains seen s)) [
      | inl e ↦ let g' = rw e at g in grind (arith, requested-contains seen scopes r g' x m)
      | inr e ↦
          let g' = rw e at g in
          let (q, eq, er) = >>=-ok (requested (s ∷ seen) scopes) _ g' in
          grind (arith, requested-contains (s ∷ seen) scopes q eq x)
    ]

contains-requested :
    (seen scopes r : List Text)
    → requested seen scopes ≡ ok r
    → (x : Text) → contains scopes x ≡ true
    → (contains r x ≡ true) ⊎ (contains seen x ≡ true)
unfolding requested contains
contains-requested seen [] r h x m = cc
contains-requested seen (s ∷ scopes) r h x m =
    let (v, g) = guard-ok (not (scope_valid s)) scope_denied _ h in
    elim (Bool-cases (contains seen s)) [
      | inl e ↦
          let g' = rw e at g in
          grind (arith, text_eq_iff s x, contains-requested seen scopes r g' x)
      | inr e ↦
          let g' = rw e at g in
          let (q, eq, er) = >>=-ok (requested (s ∷ seen) scopes) _ g' in
          grind (arith, text_eq_iff s x, contains-requested (s ∷ seen) scopes q eq x)
    ]

-- A token for no more than was asked for and than its owner holds, and for at most a day.
pub record IsNarrowed {B : Type 0} (s t : Service B) (req : IssueAdminTokenRequest) (now : Time)
    (c : AdminCredential) : Type 0 where
  pub owned : c.principal.admin_id ≡ req.admin_id
  pub asked : (x : Text) → contains c.principal.scopes x ≡ contains req.scopes x
  pub holder : AdminPrincipal
  pub known : lookup req.admin_id s.principals ≡ some holder
  pub held : IsWithin c.principal.scopes holder.scopes
  pub lifetime : (0 < pos_part req.ttl) × (pos_part req.ttl ≤ max_admin_token_ttl)
  pub id : Text
  pub r : AdminTokenRecord
  pub kept : lookup id t.admins ≡ some r
  pub stored :
      (r.principal_id ≡ req.admin_id)
      × (r.scopes ≡ c.principal.scopes)
      × (r.expires_at ≡ add_time now req.ttl)
      × (r.revoked_at ≡ none)

same_contents :
    (scopes r : List Text)
    → requested [] scopes ≡ ok r
    → (x : Text) → contains r x ≡ contains scopes x
unfolding contains
same_contents scopes r h x =
    grind (arith, requested-contains [] scopes r h x, contains-requested [] scopes r h x)

lookup-insert_self : {V : Type 0} (k : Text) (v : V) (m : Dict V) → lookup k (insert k v m) ≡ some v
lookup-insert_self k v m = rw (lookup-insert k k v m, text_eq_refl k) refl

module _ (hmac : List ℕ → Text → List ℕ) {B : Type 0} (s : Service B) where
  keep_token-IsNarrowed :
      (req : IssueAdminTokenRequest) (now : Time) (e : Entropy) (c : AdminCredential)
      (r : Result AuthError (List Text × Issued AdminTokenRecord))
      → new_token hmac s req now e ≡ r
      → (keep_token s req.admin_id r).0 ≡ ok c
      → IsNarrowed s (keep_token s req.admin_id r).1 req now c
  keep_token-IsNarrowed req now e c (err x) n h = cc
  keep_token-IsNarrowed req now e c (ok (scopes, k)) n h =
      let t = new_token_ok hmac s req now e scopes k n in
      let made : credential_of req.admin_id scopes k ≡ c = ground arith in
      subst (IsNarrowed s (keep_admin s req.admin_id k) req now) made (record {
        owned = refl;
        asked = same_contents req.scopes scopes t.asked;
        holder = t.holder;
        known = t.known;
        held = t.held;
        lifetime = t.lifetime;
        id = k.stored.public_id;
        r = owned_by req.admin_id k.stored;
        kept = lookup-insert_self _ _ s.admins;
        stored = (refl, t.stored.0, t.stored.1, t.stored.2);
      })

  -- A token that is issued carries exactly the scopes that were asked for, all of which its owner
  -- holds. It is kept as the owner's, unrevoked, and expires after the lifetime that was asked for,
  -- which is above 0 and at most 24 hours.
  pub issue_admin_token_narrows :
      (req : IssueAdminTokenRequest) (now : Time) (e : Entropy) (c : AdminCredential)
      → (issue_admin_token hmac s req now e).0 ≡ ok c
      → IsNarrowed s (issue_admin_token hmac s req now e).1 req now c
  unfolding issue_admin_token
  issue_admin_token_narrows req now e c h = keep_token-IsNarrowed req now e c _ refl h

available-insert :
    (clock : Text → Time) (id : Text) (r r' : AdminTokenRecord) (m : Dict AdminTokenRecord)
    → lookup id m ≡ some r
    → available clock m ≤ suc (available clock (insert id r' m))
unfolding lookup insert available
available-insert clock id r r' [] h = cc
available-insert clock id r r' ((j, w) ∷ m) h =
    grind (arith, text_eq_iff j id, available-insert clock id r r' m)

-- A token that is neither revoked nor expired by the clock's reading for it.
pub record IsLeft (clock : Text → Time) (admins : Dict AdminTokenRecord) : Type 0 where
  pub name : Text
  pub token : AdminTokenRecord
  pub stands : IsIn (name, token) admins
  pub unrevoked : token.revoked_at ≡ none
  pub unexpired : clock name < token.expires_at

available-IsLeft :
    (clock : Text → Time) (m : Dict AdminTokenRecord) → 1 ≤ available clock m → IsLeft clock m
unfolding available
available-IsLeft clock [] h = absurd (omega (arith, h))
available-IsLeft clock ((id, r) ∷ m) h =
    elim (Bool-cases (not (is_some r.revoked_at) && after r.expires_at (clock id))) [
      | inl usable ↦ record {
        name = id;
        token = r;
        stands = is_here m;
        unrevoked = ground (arith, usable);
        unexpired = ground (arith, usable);
      }
      | inr spent ↦
          let l = available-IsLeft clock m (rw spent at h) in
          record {
            name = l.name;
            token = l.token;
            stands = is_there_in (id, r) m l.stands;
            unrevoked = l.unrevoked;
            unexpired = l.unexpired;
          }
    ]

-- The service after the revocation of one administrator's token.
pub record IsRevocation {B : Type 0} (s t : Service B) (clock : Text → Time) (a : Uuid) (id : Text)
    (at : Time) : Type 0 where
  pub r : AdminTokenRecord
  pub was : (lookup id s.admins ≡ some r) × (r.principal_id ≡ a) × (r.revoked_at ≡ none)
  pub marked : AdminTokenRecord
  pub now_revoked : (lookup id t.admins ≡ some marked) × (marked.revoked_at ≡ some at)
  pub unchanged :
      (marked.principal_id ≡ a)
      × (marked.scopes ≡ r.scopes)
      × (marked.digest ≡ r.digest)
      × (marked.expires_at ≡ r.expires_at)
  pub others : (j : Text) → id ≢ j → lookup j t.admins ≡ lookup j s.admins
  pub left : IsLeft clock t.admins

module _ {B : Type 0} (s : Service B) (clock : Text → Time) where
  keep_revoked-IsRevocation :
      (a : Uuid) (id : Text) (at : Time) (o : Result AuthError AdminTokenRecord)
      → revocable s clock a id ≡ o
      → (keep_revoked s id at o).0 ≡ ok tt
      → IsRevocation s (keep_revoked s id at o).1 clock a id at
  unfolding revocable
  keep_revoked-IsRevocation a id at (err e) n h = cc
  keep_revoked-IsRevocation a id at (ok r) n h =
      let (g, n') = guard-ok (is_zero a || is_empty id) invalid_credential _ n in
      let (r', f, c) = >>=-ok (of_option not_found (lookup id s.admins)) _ n' in
      let same : r' ≡ r = ground arith in
      let kept : lookup id s.admins ≡ some r =
        of_option-ok not_found (lookup id s.admins) f ∙ ap some same in
      let many : 2 ≤ available clock s.admins = ground arith in
      record {
        r = r;
        was = (kept, ground (arith, text_eq_iff r.principal_id a), ground arith);
        marked = revoked_token r at;
        now_revoked = (lookup-insert_self id _ s.admins, refl);
        unchanged = (ground (arith, text_eq_iff r.principal_id a), refl, refl, refl);
        others = λ j n.
            ground (arith, text_eq_iff id j, lookup-insert id j (revoked_token r at) s.admins);
        left =
            available-IsLeft clock _
              (omega (arith, many, available-insert clock id r (revoked_token r at) s.admins kept));
      }

  -- A revocation that succeeds was of a token of the named administrator without revocation. It sets the
  -- time of the revocation on that token alone, whose owner, scopes, digest and expiry stay, and leaves
  -- a token that has no revocation and an expiry after the clock's reading for it.
  pub revoke_admin_token_leaves_one :
      (a : Uuid) (id : Text) (at : Time)
      → (revoke_admin_token s clock a id at).0 ≡ ok tt
      → IsRevocation s (revoke_admin_token s clock a id at).1 clock a id at
  unfolding revoke_admin_token
  revoke_admin_token_leaves_one a id at h = keep_revoked-IsRevocation a id at _ refl h
