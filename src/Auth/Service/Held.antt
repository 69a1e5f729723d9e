-- ===== src/Auth/Service/Held.antt =====
-- What `IssueAdminToken` of internal/auth/service.go has established when it makes a token.
use mathlib.Core.Path.{subst}
use urbino.Base.{◌||◌, ◌≤◌, ◌<◌, ℕ, ◌≡◌, ap, ◌∙◌, true, not, List, [], ◌∷◌, none, some, arith}
use urbino.Base.Text.{Text, text_eq_iff}
use urbino.Base.Dict.{lookup}
use urbino.Base.Result.{of_option-ok, guard-ok, of_option, >>=-ok, ok, ◌>>=◌}
use urbino.Auth.Errors.{not_found, not_found, invalid_credential, scope_denied}
use urbino.Auth.Time.{add_time, Time}
use urbino.Auth.Keys.{
  is_nil, non_positive, AdminTokenRecord, Issued, Entropy, contains, all_scopes, issue_admin,
}
use urbino.Auth.Service.{
  ltb, max_admin_token_ttl, pepper_at, pos_part, requested, AdminPrincipal, IssueAdminTokenRequest,
  Service,
}
use urbino.Auth.Service.Admin.{wanted_token, held_token, new_token}
use urbino.Auth.Keys.Issue.{issue_admin_stored}

-- Every scope of the first list is in the second.
abbrev pub IsWithin : List Text → List Text → Type 0
IsWithin xs ys = (x : Text) → contains xs x ≡ true → contains ys x ≡ true

pub all_scopes-IsWithin : (xs ys : List Text) → all_scopes (contains ys) xs ≡ true → IsWithin xs ys
unfolding all_scopes contains
all_scopes-IsWithin [] ys h x m = cc
all_scopes-IsWithin (s ∷ xs) ys h x m = grind (arith, text_eq_iff s x, all_scopes-IsWithin xs ys)

-- What `IssueAdminToken` has established when it makes a token.
pub record IsHeld {B : Type 0} (s : Service B) (req : IssueAdminTokenRequest) (now : Time)
    (scopes : List Text) (k : Issued AdminTokenRecord) : Type 0 where
  pub lifetime : (0 < pos_part req.ttl) × (pos_part req.ttl ≤ max_admin_token_ttl)
  pub asked : requested [] req.scopes ≡ ok scopes
  pub holder : AdminPrincipal
  pub known : lookup req.admin_id s.principals ≡ some holder
  pub held : IsWithin scopes holder.scopes
  pub stored :
      (k.stored.scopes ≡ scopes)
      × (k.stored.expires_at ≡ add_time now req.ttl)
      × (k.stored.revoked_at ≡ none)

module _ {B : Type 0} (hmac : List ℕ → Text → List ℕ) (s : Service B) where
  held_token_ok :
      (req : IssueAdminTokenRequest) (now : Time) (e : Entropy) (asked scopes : List Text)
      (p : AdminPrincipal) (k : Issued AdminTokenRecord)
      → held_token hmac s req now e asked p ≡ ok (scopes, k)
      → (asked ≡ scopes)
        × IsWithin scopes p.scopes
        × (issue_admin hmac (pepper_at s.peppers s.active_id) scopes now req.ttl e ≡ ok k)
  held_token_ok req now e asked scopes p k h =
      let (within, made) = guard-ok (not (all_scopes (contains p.scopes) asked)) scope_denied _ h in
      let (k', ek, rk) =
        >>=-ok (issue_admin hmac (pepper_at s.peppers s.active_id) asked now req.ttl e) _ made in
      let same : asked ≡ scopes = ground arith in
      let same' : k' ≡ k = ground arith in
      let all : all_scopes (contains p.scopes) asked ≡ true = ground arith in
      (
        same,
        subst (λ l. IsWithin l p.scopes) same (all_scopes-IsWithin asked p.scopes all),
        subst (λ l. issue_admin hmac (pepper_at s.peppers s.active_id) l now req.ttl e ≡ ok k) same
            (ek ∙ ap ok same'),
      )

  pub new_token_ok :
      (req : IssueAdminTokenRequest) (now : Time) (e : Entropy) (scopes : List Text)
      (k : Issued AdminTokenRecord)
      → new_token hmac s req now e ≡ ok (scopes, k)
      → IsHeld s req now scopes k
  unfolding new_token
  new_token_ok req now e scopes k h =
      let (limits, rest) =
        guard-ok
          (non_positive req.ttl || ltb max_admin_token_ttl (pos_part req.ttl) || is_nil req.scopes)
          invalid_credential (requested [] req.scopes >>= wanted_token hmac s req now e) h in
      let (asked, ea, ra) = >>=-ok (requested [] req.scopes) (wanted_token hmac s req now e) rest in
      let (p, ep, rp) =
        >>=-ok (of_option not_found (lookup req.admin_id s.principals))
          (held_token hmac s req now e asked) ra in
      let (same, within, made) = held_token_ok req now e asked scopes p k rp in
      record {
        lifetime = (ground arith, ground arith);
        asked = ea ∙ ap ok same;
        holder = p;
        known = of_option-ok not_found (lookup req.admin_id s.principals) ep;
        held = within;
        stored = issue_admin_stored hmac _ scopes now req.ttl e k made;
      }
