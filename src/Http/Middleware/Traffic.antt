-- ===== src/Http/Middleware/Traffic.antt =====
-- internal/httpapi/auth.go with the failure limiter of internal/auth/auth.go: requests of a peer and of others,
-- one after the other.
use urbino.Base.{◌≡◌, ◌⊎◌, inl, inr, ℕ, suc, ◌<◌, Bool, true, false, List, [], ◌∷◌}
use urbino.Base.Text.{Text, text_eq}
use urbino.Auth.Time.{Time}
use urbino.Auth.Limiter.{FailureLimiter, begin}
use urbino.Auth.Limiter.Identity.{normalize_identity}
use urbino.Auth.Limiter.Others.{
  HasPlace, IsUntouched, IsUntouched-trans, begin-IsUntouched, record_failure-IsUntouched,
  record_success-IsUntouched,
}
use urbino.Http.Middleware.{
  Middleware, Served, passed_public, passed_admin, release, rejected, Arrival, authenticated,
  reserved,
}

-- The limiter after one request, and after some.
abbrev pub after_one : {E : Type 0} → Middleware E → FailureLimiter → Arrival → FailureLimiter
after_one m l a = (reserved m a (begin l a.remote_addr a.begun)).1

abbrev pub after_all : {E : Type 0} → Middleware E → FailureLimiter → List Arrival → FailureLimiter
after_all m l [] = l
after_all m l (a ∷ xs) = after_all m (after_one m l a) xs

-- A request of the address that fails, with its two readings of the clock before the end of a window.
pub record IsFailure {E : Type 0} (m : Middleware E) (addr : Text) (end : Time) (a : Arrival)
    : Type 0 where
  pub from_addr : a.remote_addr ≡ addr
  pub begun_early : a.begun < end
  pub ended_early : a.ended < end
  pub fails : authenticated m a.request ≡ rejected

-- A request of another peer, while the limiter has a window for that peer or a free place.
pub record IsForeign (addr : Text) (l : FailureLimiter) (a : Arrival) : Type 0 where
  pub other : text_eq (normalize_identity a.remote_addr) (normalize_identity addr) ≡ false
  pub place : HasPlace (normalize_identity a.remote_addr) l

-- Requests that reach a limiter one after the other, with the count of those of the address; these fail
-- before the end of a window.
pub data Traffic {E : Type 0} (m : Middleware E) (addr : Text) (end : Time)
    : FailureLimiter → List Arrival → ℕ → Type 0 where
  quiet : (l : FailureLimiter) → Traffic m addr end l [] 0
  own :
      {l : FailureLimiter} {xs : List Arrival} {n : ℕ} (a : Arrival)
      → IsFailure m addr end a
      → Traffic m addr end (after_one m l a) xs n
      → Traffic m addr end l (a ∷ xs) (suc n)
  foreign :
      {l : FailureLimiter} {xs : List Arrival} {n : ℕ} (a : Arrival)
      → IsForeign addr l a
      → Traffic m addr end (after_one m l a) xs n
      → Traffic m addr end l (a ∷ xs) n

-- The window of an address after a request of another peer.
pub after_one-IsUntouched :
    {E : Type 0} (m : Middleware E) (addr : Text) (l : FailureLimiter) (a : Arrival)
    → IsForeign addr l a
    → IsUntouched (normalize_identity addr) l (after_one m l a)
after_one-IsUntouched m addr l a f =
    let (begun, after) = begin-IsUntouched mine a.remote_addr f.other l a.begun f.place in
    ended (begin l a.remote_addr a.begun) begun after
  where
    mine : Text
    mine = normalize_identity addr

    released :
        (l' : FailureLimiter) (r : Served)
        → HasPlace (normalize_identity a.remote_addr) l'
        → IsUntouched mine l' (release l' a r)
    released l' rejected p = record_failure-IsUntouched mine a.remote_addr f.other l' a.ended p
    released l' (passed_public x) p =
        record_success-IsUntouched mine a.remote_addr f.other l' a.ended p
    released l' (passed_admin x) p =
        record_success-IsUntouched mine a.remote_addr f.other l' a.ended p

    ended :
        (p : FailureLimiter × Bool)
        → IsUntouched mine l p.0
        → (p.1 ≡ false) ⊎ HasPlace (normalize_identity a.remote_addr) p.0
        → IsUntouched mine l (reserved m a p).1
    ended (l', false) u t = u
    ended (l', true) u (inl e) = absurd cc
    ended (l', true) u (inr t) =
        IsUntouched-trans mine l l' (release l' a (authenticated m a.request)) u
          (released l' (authenticated m a.request) t)
