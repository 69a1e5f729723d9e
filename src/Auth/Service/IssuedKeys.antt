-- ===== src/Auth/Service/IssuedKeys.antt =====
-- From `IssueKey` to `AuthenticatePublic` of internal/auth/service.go.
use mathlib.Core.Path.{subst}
use urbino.Base.{
  lt→ltb, ℕ, ◌+◌, ◌-◌, ◌≤◌, ◌<◌, ◌≡◌, refl, sym, ap, ◌∙◌, Bool, true, false, ◌||◌, not, List, [],
  ◌∷◌, Option, none, some, arith, ltb, length,
}
use urbino.Base.Text.{Text, text_eq_iff, text_eq_refl, is_empty}
use urbino.Base.Int.{pos_part}
use urbino.Base.Int64.{int64_of, int64_eq_refl}
use urbino.Base.Dict.{Dict, lookup, lookup-insert}
use urbino.Base.Result.{ok-injective, Result, ok, err, >>=-ok, guard-ok}
use urbino.Auth.Errors.{cache_unavailable, AuthError, invalid_credential, scope_denied}
use urbino.Auth.Time.{Time, add_time, sub_time}
use urbino.Auth.Credential.{public_prefix, split_credential, parse_public_credential}
use urbino.Auth.Headers.{HeaderCredential, public_listener, parse_headers}
use urbino.Auth.Keys.{
  is_nil, status_revoked, status_active, all_scopes, Pepper, KeyRecord, Issued, Entropy, verify,
}
use urbino.Auth.Keys.Verified.{IsTrusted, verify_iff}
use urbino.Auth.Keys.Issue.{IsFilled, issue-IsUsable}
use urbino.Auth.Service.{
  after, is_zero, scope_valid, or_zero, Options, IssueKeyRequest, Request, AuthState, Backend,
  Service, Principal, new_service, pepper_at, copy_peppers, with_active, with_backend,
}
use urbino.Auth.Service.Public.{
  decide, verified, put_answered, auth_state, principal_of, issue_key, authenticate_public, new_key,
  keep_issued,
}

-- The active pepper of a service.
pub record IsActive {B : Type 0} (s : Service B) (pepper : Pepper) : Type 0 where
  pub kept : lookup s.active_id s.peppers ≡ some pepper
  pub named : pepper.id ≡ s.active_id
  pub long : 32 ≤ length pepper.key

copied_name :
    (peppers : Dict (List ℕ)) (m : Dict Pepper) (id : Text) (p : Pepper)
    → copy_peppers peppers ≡ ok m
    → lookup id m ≡ some p
    → p.id ≡ id
unfolding copy_peppers lookup
copied_name [] m id p h e = ground arith
copied_name ((j, key) ∷ peppers) m id p h e =
    let (_, g) = guard-ok (is_empty j || ltb (length key) 32) invalid_credential _ h in
    let (rest, er, em) = >>=-ok (copy_peppers peppers) _ g in
    grind (arith, text_eq_iff j id, copied_name peppers rest id p er, em)

or_zero_long : (o : Option Pepper) → 32 ≤ length (or_zero o).key → o ≡ some (or_zero o)
or_zero_long none h = absurd (omega (arith, h))
or_zero_long (some p) h = refl

with_active-IsActive :
    {B : Type 0} (options : Options B) (b : B) (m : Dict Pepper) (s : Service B)
    → copy_peppers options.peppers ≡ ok m
    → with_active options b m ≡ ok s
    → IsActive s (pepper_at s.peppers s.active_id)
unfolding pepper_at
with_active-IsActive {B = B} options b m s c h =
    let p = or_zero (lookup options.active_pepper_id m) in
    let (short, made) = guard-ok (ltb (length p.key) 32) invalid_credential _ h in
    let long : 32 ≤ length p.key = ground arith in
    let kept = or_zero_long (lookup options.active_pepper_id m) long in
    subst (λ (s : Service B). IsActive s (or_zero (lookup s.active_id s.peppers)))
      (ok-injective made)
      (record {
        kept = kept;
        named = copied_name options.peppers m options.active_pepper_id p c kept;
        long = long;
      })

with_backend-IsActive :
    {B : Type 0} (options : Options B) (b : Option B) (s : Service B)
    → with_backend options b ≡ ok s
    → IsActive s (pepper_at s.peppers s.active_id)
with_backend-IsActive options none s h = cc
with_backend-IsActive options (some b) s h =
    let (_, g) = guard-ok (is_empty options.active_pepper_id) cache_unavailable _ h in
    let (m, em, made) = >>=-ok (copy_peppers options.peppers) (with_active options b) g in
    with_active-IsActive options b m s em made

-- A service that `New` makes has an active pepper under its own name, of at least 32 bytes.
pub new_service-IsActive :
    {B : Type 0} (options : Options B) (s : Service B)
    → new_service options ≡ ok s
    → IsActive s (pepper_at s.peppers s.active_id)
unfolding new_service
new_service-IsActive options s h = with_backend-IsActive options options.backend s h

put_answered_ok :
    {B : Type 0} (backend : Backend B) (done : Bool) (k' k : Issued KeyRecord)
    → put_answered backend done k' ≡ ok k
    → (done ≡ true) × (k' ≡ k)
put_answered_ok backend true k' k h = (refl, ok-injective h)
put_answered_ok backend false k' k h = cc

module _ (hmac : List ℕ → Text → List ℕ)
    (hmac_size : (k : List ℕ) (t : Text) → length (hmac k t) ≡ 32) {B : Type 0}
    (backend : Backend B) where
  verified_accepts :
      (id secret : Text) (r : KeyRecord) (pepper : Pepper) (later : Time)
      → verify hmac r secret pepper later ≡ ok tt
      → IsTrusted hmac r secret pepper later
      → verified hmac (some pepper) id secret r later ≡ ok (principal_of id r)
  verified_accepts id secret r pepper later v i =
      rw v (ground (arith, i.standing, i.active, text_eq_iff r.status status_revoked))

  decide_accepts :
      (id secret : Text) (r : KeyRecord) (pepper : Pepper) (later : Time)
      → r.status ≡ status_active
      → verified hmac (some pepper) id secret r later ≡ ok (principal_of id r)
      → decide hmac (some (some (auth_state r))) (some pepper) id secret r later
        ≡ ok (principal_of id r)
  decide_accepts id secret r pepper later a v =
      ground
        (arith, a, v, int64_eq_refl (int64_of r.auth_version), text_eq_iff r.status status_revoked)

  accepts :
      (t : Service B) (req : Request) (later : Time) (c : HeaderCredential) (k : Issued KeyRecord)
      (pepper : Pepper)
      → parse_headers req.header req.query public_listener ≡ ok c
      → split_credential c.value public_prefix ≡ ok (k.stored.public_id, k.secret)
      → lookup k.stored.public_id t.keys ≡ some k.stored
      → lookup k.stored.pepper_id t.peppers ≡ some pepper
      → (backend.get k.stored.public_id t.backend).0 ≡ some (some (auth_state k.stored))
      → verify hmac k.stored k.secret pepper later ≡ ok tt
      → (authenticate_public hmac backend t req later).0
        ≡ ok (principal_of k.stored.public_id k.stored)
  unfolding authenticate_public
  accepts t req later c k pepper parsed parts kept peppered answer v =
      let i = (verify_iff hmac k.stored k.secret pepper later).0 v in
      rw (parsed, parts, kept, answer, peppered)
        (decide_accepts _ _ k.stored pepper later i.active
          (verified_accepts _ _ k.stored pepper later v i))

  abbrev IsKept : (s t : Service B) (k : Issued KeyRecord) → Type 0
  IsKept s t k =
      (lookup k.stored.public_id t.keys ≡ some k.stored)
      × (t.peppers ≡ s.peppers)
      × ((backend.put k.stored.public_id (auth_state k.stored) s.ttl s.backend).0 ≡ true)
      × (t.backend ≡ (backend.put k.stored.public_id (auth_state k.stored) s.ttl s.backend).1)

  keep_issued-IsKept :
      (s : Service B) (o : Result AuthError (Issued KeyRecord)) (k : Issued KeyRecord)
      → (keep_issued backend s o).0 ≡ ok k
      → (o ≡ ok k) × IsKept s (keep_issued backend s o).1 k
  keep_issued-IsKept s (err e) k h = cc
  keep_issued-IsKept s (ok k') k h =
      let (done, same) = put_answered_ok backend _ k' k h in
      (
        ap ok same,
        subst (IsKept s (keep_issued backend s (ok k')).1) same (
          rw
              (
                lookup-insert k'.stored.public_id k'.stored.public_id k'.stored s.keys,
                text_eq_refl k'.stored.public_id,
              )
              refl,
          refl,
          done,
          refl,
        ),
      )

  -- What a request is accepted as under a key that was issued on this request.
  pub record IsOwner (r : IssueKeyRequest) (k : Issued KeyRecord) (p : Principal) : Type 0 where
    pub tenant : p.tenant_id ≡ r.scope.tenant_id
    pub project : p.project_id ≡ r.scope.project_id
    pub user : p.user_id ≡ r.user_id
    pub key : p.key_id ≡ k.stored.public_id
    pub scopes : p.scopes ≡ r.scopes
    pub models : p.models ≡ r.models

  -- A key that `IssueKey` has returned is accepted: a request on the public listener whose one
  -- credential is the key's value, and which comes before the key's expiry and before the time to live
  -- of the service's entries in the backend is over, is accepted for the tenant, the project and the
  -- user, with the scopes and the models, that the key was asked for. The backend is one that keeps
  -- what it was given for the time to live that it was given; it may forget it then. The service's
  -- active pepper is one that it has, the random source has filled its buffers, and no call of the
  -- service comes between.
  pub issued_key_accepted :
      (elapse : ℕ → B → B) (s : Service B) (r : IssueKeyRequest) (now now' now'' : Time)
      (e : Entropy) (k : Issued KeyRecord) (req : Request) (put_at later : Time)
      (c : HeaderCredential)
      → ((id : Text) (state : AuthState) (b : B) (t : ℕ)
          → (backend.put id state s.ttl b).0 ≡ true
          → t < pos_part s.ttl
          → (backend.get id (elapse t (backend.put id state s.ttl b).1)).0 ≡ some (some state))
      → IsActive s (pepper_at s.peppers s.active_id)
      → IsFilled e
      → (issue_key hmac backend s r now now' now'' e).0 ≡ ok k
      → parse_headers req.header req.query public_listener ≡ ok c
      → c.value ≡ k.value
      → later < add_time now' (sub_time r.expires_at now'')
      → put_at ≤ later
      → later < put_at + pos_part s.ttl
      → let after_issue = (issue_key hmac backend s r now now' now'' e).1 in
        (p : Principal) × ((authenticate_public hmac backend
            (record after_issue { backend = elapse (later - put_at) after_issue.backend })
            req
            later).0
          ≡ ok p)
        × IsOwner r k p
  unfolding issue_key new_key parse_public_credential
  issued_key_accepted elapse s r now now' now'' e k req put_at later c get_put active filled h
        parsed value early begun fresh =
      let alive : later - put_at < pos_part s.ttl = omega (arith, begun, fresh) in
      let pepper = pepper_at s.peppers s.active_id in
      let (made, held) = keep_issued-IsKept s _ k h in
      let (kept, peppers, done, put) = held in
      let answer =
        get_put k.stored.public_id (auth_state k.stored) s.backend (later - put_at) done alive in
      let (_, g) =
        guard-ok
          (is_zero r.scope.tenant_id
            || is_zero r.scope.project_id
            || is_zero r.user_id
            || is_nil r.scopes
            || is_nil r.models
            || not (after r.expires_at now))
          invalid_credential _ made in
      let (_, issued) = guard-ok (not (all_scopes scope_valid r.scopes)) scope_denied _ g in
      let u =
        issue-IsUsable hmac hmac_size pepper r.scope.tenant_id r.scope.project_id r.user_id r.scopes
          r.models now' (sub_time r.expires_at now'') e k filled issued in
      let v : verify hmac k.stored k.secret pepper later ≡ ok tt =
        u.verifies later ∙ (rw (lt→ltb later _ early) refl) in
      let i = (verify_iff hmac k.stored k.secret pepper later).0 v in
      (
        principal_of k.stored.public_id k.stored,
        accepts _ req later c k pepper parsed
            (ap (λ (v : Text). split_credential v public_prefix) value ∙ u.splits) kept
            (ap (λ (m : Dict Pepper). lookup k.stored.pepper_id m) peppers
              ∙ ap (λ (i : Text). lookup i s.peppers) (sym i.peppered.0 ∙ active.named)
              ∙ active.kept)
            (ap (λ (b : B). (backend.get k.stored.public_id (elapse (later - put_at) b)).0) put
              ∙ answer)
            v,
        record {
          tenant = u.owner.0;
          project = u.owner.1;
          user = u.owner.2;
          key = refl;
          scopes = u.granted.0;
          models = u.allowed;
        },
      )
