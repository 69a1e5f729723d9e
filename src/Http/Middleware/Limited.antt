-- ===== src/Http/Middleware/Limited.antt =====
-- internal/httpapi/auth.go with the failure limiter of internal/auth/auth.go: a peer whose requests fail.
use mathlib.Core.Path.{subst}
use urbino.Base.{
  ◌≡◌, refl, ap, ◌∙◌, sym, ◌⊎◌, inl, inr, ℕ, ◌+◌, ◌≤◌, ◌<◌, Bool, true, false, List, ◌∷◌, none,
  some, arith, ltb, Bool-cases,
}
use urbino.Base.Text.{Text, is_empty}
use urbino.Base.Dict.{lookup}
use urbino.Auth.Time.{Time}
use urbino.Auth.Limiter.{FailureLimiter, current, begin, record_failure}
use urbino.Auth.Limiter.Identity.{normalize_identity}
use urbino.Auth.Limiter.Blocking.{
  Counted, current_counted, begin_counted, begin_refused, next_count, fail_once-Counted,
  fail_once_first, fail_once,
}
use urbino.Http.Middleware.{Middleware, rejected, Arrival, authenticated, reserved, wrap}
use urbino.Http.Middleware.Traffic.{
  after_one, after_all, IsFailure, IsForeign, Traffic, after_one-IsUntouched,
}

failed_release :
    {E : Type 0} (m : Middleware E) (a : Arrival) (p : FailureLimiter × Bool)
    → authenticated m a.request ≡ rejected
    → p.1 ≡ true
    → (reserved m a p).1 ≡ record_failure p.0 a.remote_addr a.ended
failed_release m a (l, true) f h = rw f refl
failed_release m a (l, false) f h = cc

refused_kept :
    {E : Type 0} (m : Middleware E) (a : Arrival) (p : FailureLimiter × Bool)
    → p.1 ≡ false
    → (reserved m a p).1 ≡ p.0
refused_kept m a (l, false) h = refl
refused_kept m a (l, true) h = cc

refused_rejected :
    {E : Type 0} (m : Middleware E) (a : Arrival) (p : FailureLimiter × Bool)
    → p.1 ≡ false
    → (reserved m a p).0 ≡ rejected
refused_rejected m a (l, false) h = refl
refused_rejected m a (l, true) h = cc

begin_first :
    (l : FailureLimiter) (addr : Text) (t : Time)
    → is_empty addr ≡ false
    → lookup (normalize_identity addr) l.buckets ≡ none
    → 0 < l.limit
    → (begin l addr t).1 ≡ true
unfolding begin current
begin_first l addr t named none_yet pos = rw (named, none_yet) (ground arith)

module _ {E : Type 0} (m : Middleware E) (addr : Text) (named : is_empty addr ≡ false)
    (limit window : ℕ) (s : Time) (pos_s : 0 < s) (pos_limit : 0 < limit) where
  after_one-Counted :
      (l : FailureLimiter) (k : ℕ) (a : Arrival)
      → Counted addr named l limit window s k
      → IsFailure m addr (s + window) a
      → Counted addr named (after_one m l a) limit window s (next_count addr named k limit)
  after_one-Counted l k a h f =
      let begun = begin_counted addr named l limit window s k h pos_s a.begun f.begun_early in
      let same_addr : (begin l a.remote_addr a.begun) ≡ begin l addr a.begun =
        ap (λ x. begin l x a.begun) f.from_addr in
      elim (Bool-cases (ltb k limit)) [
        | inl less ↦
            let t =
              failed_release m a (begin l a.remote_addr a.begun) f.fails
                (ap (λ (p : FailureLimiter × Bool). p.1) same_addr ∙ begun ∙ less) in
            let u : after_one m l a ≡ fail_once l addr a.begun a.ended =
              t ∙ ap (λ x. record_failure (begin l x a.begun).0 x a.ended) f.from_addr in
            subst (λ x. Counted addr named x limit window s (next_count addr named k limit)) (sym u)
              (fail_once-Counted addr named l limit window s k a.begun a.ended h pos_s pos_limit
                f.begun_early f.ended_early)
        | inr full ↦
            let refusal = ap (λ (p : FailureLimiter × Bool). p.1) same_addr ∙ begun ∙ full in
            let kept = begin_refused addr named l a.begun (
              rw (current_counted addr named l limit window s k h pos_s a.begun f.begun_early)
                (ground (arith, h.same_limit, full))) in
            let u : after_one m l a ≡ l =
              refused_kept m a (begin l a.remote_addr a.begun) refusal
              ∙ ap (λ (p : FailureLimiter × Bool). p.0) same_addr
              ∙ kept in
            subst (λ x. Counted addr named x limit window s (next_count addr named k limit)) (sym u)
              (rw full h)
      ]

  foreign-Counted :
      (l : FailureLimiter) (k : ℕ) (a : Arrival)
      → Counted addr named l limit window s k
      → IsForeign addr l a
      → Counted addr named (after_one m l a) limit window s k
  foreign-Counted l k a h f =
      let u = after_one-IsUntouched m addr l a f in
      record {
        held = u.held ∙ h.held;
        same_limit = u.same_limit ∙ h.same_limit;
        same_window = u.same_window ∙ h.same_window;
      }

  Traffic-Counted :
      {l : FailureLimiter} {xs : List Arrival} {n : ℕ}
      → Traffic m addr (s + window) l xs n
      → (k : ℕ) → Counted addr named l limit window s k
      → k ≤ limit
      → (c : ℕ) × Counted addr named (after_all m l xs) limit window s c
        × (c ≤ limit)
        × ((k + n ≤ c) ⊎ (limit ≤ c))
  Traffic-Counted (Traffic.quiet _) k h le = (k, h, le, inl (omega arith))
  Traffic-Counted (Traffic.own {l = l} a f t) k h le =
      let (c, counted, le', far) =
        Traffic-Counted t (next_count addr named k limit) (after_one-Counted l k a h f)
          (ground arith) in
      (c, counted, le', ground arith)
  Traffic-Counted (Traffic.foreign {l = l} a f t) k h le =
      Traffic-Counted t k (foreign-Counted l k a h f) le

-- A peer that the limiter does not know, and whose requests fail at least as often as the limit allows
-- before the window of the first of them is over, is rejected for the rest of that window: whatever
-- credential its next request carries and whatever the authenticators would say, no handler serves it.
-- The requests reach the limiter one after the other. Those of other peers may come between, with any
-- outcome, as long as the limiter has a window for their peer or a free place when they come; a limiter
-- that is full may evict the window of the peer.
pub failed_requests_block :
    {E : Type 0} (m later : Middleware E) (l : FailureLimiter) (first : Arrival) (xs : List Arrival)
    (n : ℕ) (a : Arrival)
    → is_empty first.remote_addr ≡ false
    → lookup (normalize_identity first.remote_addr) l.buckets ≡ none
    → 0 < first.begun
    → 0 < l.limit
    → IsFailure m first.remote_addr (first.begun + l.window) first
    → Traffic m first.remote_addr (first.begun + l.window) (after_one m l first) xs n
    → l.limit ≤ n + 1
    → a.remote_addr ≡ first.remote_addr
    → a.begun < first.begun + l.window
    → (wrap later (some (after_all m l (first ∷ xs))) a).0 ≡ rejected
unfolding wrap
failed_requests_block m later l first xs n a named none_yet pos_t pos_limit f fs enough same live =
    let addr = first.remote_addr in
    let free : (begin l addr first.begun).1 ≡ true = admitted in
    let opened : after_one m l first ≡ fail_once l addr first.begun first.ended =
      failed_release m first (begin l addr first.begun) f.fails free in
    let counted =
      subst (λ x. Counted addr named x l.limit l.window first.begun 1) (sym opened)
        (fail_once_first addr named l first.begun first.ended none_yet pos_t pos_limit
          f.ended_early) in
    let (c, all, le, far) =
      Traffic-Counted m addr named l.limit l.window first.begun pos_t pos_limit fs 1 counted
        (omega arith) in
    let full : (begin (after_all m l (first ∷ xs)) addr a.begun).1 ≡ false =
      begin_counted addr named (after_all m l (first ∷ xs)) l.limit l.window first.begun c all pos_t
        a.begun live
      ∙ ground arith in
    refused_rejected later a (begin (after_all m l (first ∷ xs)) a.remote_addr a.begun)
      (ap (λ x. (begin (after_all m l (first ∷ xs)) x a.begun).1) same ∙ full)
  where
    admitted : (begin l first.remote_addr first.begun).1 ≡ true
    admitted = begin_first l first.remote_addr first.begun named none_yet pos_limit
