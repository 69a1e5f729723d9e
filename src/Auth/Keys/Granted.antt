-- ===== src/Auth/Keys/Granted.antt =====
-- internal/auth/auth.go: what `Authorize` allows under a key that `Issue` has handed out.
use mathlib.Core.Path.{subst}
use urbino.Base.{◌≡◌, refl, ◌↔◌, inl, inr, ℕ, ◌<◌, true, false, List, [], ◌∷◌, arith, Bool-cases}
use urbino.Base.Text.{Text, text_eq, text_eq_refl, eq_of_text_eq, IsIn, is_here, is_there_in}
use urbino.Base.Int.{ℤ}
use urbino.Base.Result.{ok}
use urbino.Domain.Uuid.{Uuid, is_zero}
use urbino.Auth.Time.{Time, add_time}
use urbino.Auth.Keys.{
  KeyRecord, Issued, Pepper, Entropy, contains, key_made, drawn, issue, authorize,
}
use urbino.Auth.Keys.Issue.{IsFilled, drawn_ok, encode-IsPart}
use urbino.Auth.Keys.Verified.{IsStanding, authorize_iff}

contains-IsIn : (xs : List Text) (x : Text) → contains xs x ≡ true → IsIn x xs
unfolding contains
contains-IsIn [] x h = cc
contains-IsIn (y ∷ xs) x h = elim (Bool-cases (text_eq y x)) [
  | inl same ↦ subst (λ z. IsIn z (y ∷ xs)) (eq_of_text_eq y x same) (is_here xs)
  | inr other ↦ is_there_in y xs (contains-IsIn xs x (ground (arith, h, other)))
]

contains_of : (x : Text) (xs : List Text) → IsIn x xs → contains xs x ≡ true
unfolding contains
contains_of x _ (is_here xs) = rw (text_eq_refl x) refl
contains_of x _ (is_there_in y xs h) = ground (arith, contains_of x xs h)

-- What `Authorize` allows.
abbrev pub IsAllowed :
    (scopes models : List Text)
    → (expires : Time) → KeyRecord
    → (model scope : Text) → Time
    → Type 0
IsAllowed scopes models expires r model scope later =
    (authorize r model scope later ≡ ok tt)
    ↔ ((later < expires) × IsIn scope scopes × IsIn model models)

standing-IsAllowed :
    (r : KeyRecord) (model scope : Text) (later : Time)
    → (later < r.expires_at → IsStanding r later)
    → IsAllowed r.scopes r.models r.expires_at r model scope later
standing-IsAllowed r model scope later stands = (
  λ h.
      let (s, c, m) = (authorize_iff r model scope later).0 h in
      (s.current, contains-IsIn r.scopes scope c, contains-IsIn r.models model m),
  λ (early, c, m).
      (authorize_iff r model scope later).1
        (stands early, contains_of scope r.scopes c, contains_of model r.models m),
)

module _ (hmac : List ℕ → Text → List ℕ) where
  guards :
      (current : Pepper) (tenant project user : Uuid) (scopes models : List Text) (now : Time)
      (ttl : ℤ) (e : Entropy) (k : Issued KeyRecord)
      → issue hmac current tenant project user scopes models now ttl e ≡ ok k
      → (is_zero tenant ≡ false)
        × (is_zero project ≡ false)
        × (is_zero user ≡ false)
        × (drawn e (key_made hmac current tenant project user scopes models now ttl) ≡ ok k)
  unfolding issue
  guards current tenant project user scopes models now ttl e k h =
      (ground arith, ground arith, ground arith, ground arith)

  -- Under a key that `Issue` has handed out, with a random source that has filled its buffers,
  -- `Authorize` allows a model and a scope exactly when the time is before the expiry of the key, the
  -- scope is one of those and the model is one of those that the key was issued for, at whatever place
  -- of the lists.
  pub issued_key_authorizes :
      (current : Pepper) (tenant project user : Uuid) (scopes models : List Text) (now : Time)
      (ttl : ℤ) (e : Entropy) (k : Issued KeyRecord) (model scope : Text) (later : Time)
      → IsFilled e
      → issue hmac current tenant project user scopes models now ttl e ≡ ok k
      → (authorize k.stored model scope later ≡ ok tt)
        ↔ ((later < add_time now ttl) × IsIn scope scopes × IsIn model models)
  issued_key_authorizes current tenant project user scopes models now ttl e k model scope later
        filled h =
      let make = key_made hmac current tenant project user scopes models now ttl in
      let (t, p, u, draws) = guards current tenant project user scopes models now ttl e k h in
      let (id, public, s, eu, ep, es, made) = drawn_ok make k e draws in
      let part = encode-IsPart public 11 (filled.public_filled public ep) in
      subst
        (λ (k : Issued KeyRecord).
          IsAllowed scopes models (add_time now ttl) k.stored model scope later)
        made
        (standing-IsAllowed (make id public s).stored model scope later (λ early. record {
          owned = (t, p, u);
          named = part.0;
          versioned = omega arith;
          active = refl;
          current = early;
          standing = refl;
        }))
