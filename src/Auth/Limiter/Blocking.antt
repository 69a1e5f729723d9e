-- ===== src/Auth/Limiter/Blocking.antt =====
-- What `FailureLimiter` (internal/auth/auth.go) does to one identity that fails again and again.
use mathlib.Core.Path.{subst}
use urbino.Base.{
  ℕ, ◌+◌, ◌≤◌, ◌<◌, ◌≡◌, refl, sym, ◌∙◌, inl, inr, true, false, ◌||◌, none, some, arith,
  if◌then◌else◌, Bool-cases, leb, ltb, ◌==◌,
}
use urbino.Base.Text.{Text, text_eq_refl, is_empty}
use urbino.Base.Dict.{lookup, lookup-insert, lookup-delete}
use urbino.Auth.Time.{Time}
use urbino.Auth.Limiter.Identity.{normalize_identity}
use urbino.Auth.Limiter.{
  FailureBucket, FailureLimiter, is_over, store, make_room, current, fresh_bucket, is_empty_bucket,
  failed_bucket, begin, record_failure,
}
use urbino.Auth.Limiter.Bounds.{store-settings}

pub lookup-store :
    (l : FailureLimiter) (key : Text) (b : FailureBucket) (now : Time)
    → is_empty_bucket b ≡ false
    → lookup key (store l key b now).buckets ≡ some b
unfolding store
lookup-store l key b now h =
    rw h (lookup-insert key key b (make_room l key now).buckets ∙ rw (text_eq_refl key) refl)

lookup-store_empty :
    (l : FailureLimiter) (key : Text) (b : FailureBucket) (now : Time)
    → is_empty_bucket b ≡ true
    → lookup key (store l key b now).buckets ≡ none
unfolding store
lookup-store_empty l key b now h =
    rw h (lookup-delete key key l.buckets ∙ rw (text_eq_refl key) refl)

-- An attempt that is begun at `t` and fails at `t'`.
abbrev pub fail_once : FailureLimiter → Text → Time → Time → FailureLimiter
fail_once l identity t t' = record_failure (begin l identity t).0 identity t'

module _ (identity : Text) (named : is_empty identity ≡ false) where
  abbrev key : Text
  key = normalize_identity identity

  -- `k` failures are counted since `s`, and nothing is under way.
  pub record Counted (l : FailureLimiter) (limit window : ℕ) (s : Time) (k : ℕ) : Type 0 where
    pub held : lookup key l.buckets ≡ some (record { started = s; count = k; in_flight = 0 })
    pub same_limit : l.limit ≡ limit
    pub same_window : l.window ≡ window

  module _ (l : FailureLimiter) (limit window : ℕ) (s : Time) (k : ℕ)
      (h : Counted l limit window s k) (pos_s : 0 < s) where
    pub current_counted :
        (t : Time)
        → t < s + window
        → current l key t ≡ record { started = s; count = k; in_flight = 0 }
    unfolding current
    current_counted t live = rw h.held (ground (arith, h.same_window))

    -- A further attempt in the window is refused exactly when the limit is reached.
    pub begin_counted : (t : Time) → t < s + window → (begin l identity t).1 ≡ ltb k limit
    unfolding begin
    begin_counted t live = rw (named, current_counted t live) (ground (arith, h.same_limit))

  -- The bucket of an attempt that was begun.
  module _ (l : FailureLimiter) (limit window : ℕ) (b : FailureBucket) (t' : Time)
      (held : lookup key l.buckets ≡ some b) (same_limit : l.limit ≡ limit)
      (same_window : l.window ≡ window) (pos_s : 0 < b.started) (live : t' < b.started + window)
      (pos_limit : 0 < limit) where
    failure_held : lookup key (record_failure l identity t').buckets ≡ some (failed_bucket limit b)
    unfolding record_failure current
    failure_held =
        rw (named, held)
          (subst
            (λ (c : FailureBucket).
              lookup key (store l key (failed_bucket l.limit c) t').buckets
              ≡ some (failed_bucket limit b))
            same
            (subst
              (λ (n : ℕ).
                lookup key (store l key (failed_bucket l.limit b) t').buckets
                ≡ some (failed_bucket n b))
              same_limit (lookup-store l key (failed_bucket l.limit b) t' (ground arith))))
      where
        same : b ≡ (if b.started == 0 || is_over l.window b.started t' then fresh_bucket t' else b)
        same = ground arith

    failure_settings :
        ((record_failure l identity t').limit ≡ limit)
        × ((record_failure l identity t').window ≡ window)
    unfolding record_failure
    failure_settings =
        rw named
          (ground (arith, store-settings l key (failed_bucket l.limit (current l key t')) t'))

  begin_held :
      (l : FailureLimiter) (t : Time) (c : FailureBucket)
      → current l key t ≡ c
      → leb l.limit (c.count + c.in_flight) ≡ false
      → (lookup key (begin l identity t).0.buckets
          ≡ some (record c { in_flight = c.in_flight + 1 }))
        × ((begin l identity t).0.limit ≡ l.limit)
        × ((begin l identity t).0.window ≡ l.window)
  unfolding begin
  begin_held l t c e free =
      let b : FailureBucket = record c { in_flight = c.in_flight + 1 } in
      rw (named, e, free)
        (
          lookup-store l key b t (ground arith),
          (store-settings l key b t).1,
          (store-settings l key b t).2,
        )

  pub begin_refused :
      (l : FailureLimiter) (t : Time)
      → leb l.limit ((current l key t).count + (current l key t).in_flight) ≡ true
      → (begin l identity t).0 ≡ l
  unfolding begin
  begin_refused l t full = rw (named, full) refl

  abbrev pub next_count : ℕ → ℕ → ℕ
  next_count k limit = if ltb k limit then k + 1 else k

  failure-Counted :
      (l : FailureLimiter) (limit window : ℕ) (s : Time) (k flying : ℕ) (t' : Time)
      → lookup key l.buckets ≡ some (record { started = s; count = k; in_flight = flying })
      → flying ≤ 1
      → l.limit ≡ limit
      → l.window ≡ window
      → 0 < s
      → 0 < limit
      → t' < s + window
      → Counted (record_failure l identity t') limit window s (next_count k limit)
  failure-Counted l limit window s k flying t' held one el ew pos_s pos_limit live =
      let b : FailureBucket = record { started = s; count = k; in_flight = flying } in
      let done = failure_held l limit window b t' held el ew pos_s live pos_limit in
      let settings = failure_settings l limit window b t' held el ew pos_s live pos_limit in
      record { held = done ∙ ground arith; same_limit = settings.0; same_window = settings.1 }

  -- One more failed attempt is counted until the limit is reached.
  pub fail_once-Counted :
      (l : FailureLimiter) (limit window : ℕ) (s : Time) (k : ℕ) (t t' : Time)
      → Counted l limit window s k
      → 0 < s
      → 0 < limit
      → t < s + window
      → t' < s + window
      → Counted (fail_once l identity t t') limit window s (next_count k limit)
  fail_once-Counted l limit window s k t t' h pos_s pos_limit live live' =
      let now = current_counted l limit window s k h pos_s t live in
      elim (Bool-cases (ltb k limit)) [
        | inl less ↦
            (let (held, el, ew) =
                begin_held l t (record { started = s; count = k; in_flight = 0 }) now
                  (ground (arith, h.same_limit)) in
              failure-Counted (begin l identity t).0 limit window s k 1 t' held (omega arith)
                (el ∙ h.same_limit) (ew ∙ h.same_window) pos_s pos_limit live')
        | inr full ↦
            subst
              (λ (m : FailureLimiter).
                Counted (record_failure m identity t') limit window s (next_count k limit))
              (sym (begin_refused l t (rw now (ground (arith, h.same_limit)))))
              (failure-Counted l limit window s k 0 t' h.held (omega arith) h.same_limit
                h.same_window pos_s pos_limit live')
      ]

  -- The first failed attempt of an identity opens its window.
  pub fail_once_first :
      (l : FailureLimiter) (t t' : Time)
      → lookup key l.buckets ≡ none
      → 0 < t
      → 0 < l.limit
      → t' < t + l.window
      → Counted (fail_once l identity t t') l.limit l.window t 1
  fail_once_first l t t' none_yet pos_t pos_limit live' =
      let (held, el, ew) =
        begin_held l t (fresh_bucket t) (unfold current in rw none_yet refl) (ground arith) in
      subst (Counted (fail_once l identity t t') l.limit l.window t) (ground arith) (
        failure-Counted (begin l identity t).0 l.limit l.window t 0 1 t' held (omega arith) el ew
          pos_t pos_limit live')
