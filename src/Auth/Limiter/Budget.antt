-- ===== src/Auth/Limiter/Budget.antt =====
-- The reservation arithmetic of `FailureLimiter` (internal/auth/auth.go) over every sequence of calls.
use mathlib.Core.Path.{subst}
use urbino.Base.{
  ◌==◌, Option-cases, ℕ, ◌+◌, ◌-◌, ◌≤◌, ◌≡◌, ◌∙◌, inl, inr, false, ◌&&◌, ◌||◌, not, List, [], ◌∷◌,
  some, arith, length, Bool-cases, leb,
}
use urbino.Base.Text.{Text, text_eq, is_empty, All}
use urbino.Base.Dict.{Dict, lookup, insert, delete}
use urbino.Base.Int.{ℤ, pos_part}
use urbino.Base.Result.{ok}
use urbino.Auth.Time.{Time}
use urbino.Auth.Limiter.Identity.{normalize_identity, normalize_identity-nonempty}
use urbino.Auth.Limiter.{
  FailureBucket, FailureLimiter, Victims, no_victims, sweep, victim, is_over, drop_victim, evict,
  make_room, store, capacity, current, fresh_bucket, failed_bucket, new_failure_limiter,
  max_failure_buckets, allow, begin, record_failure, record_success,
}
use urbino.Auth.Limiter.Bounds.{next, IsBounded, store-IsBounded, store-settings}

-- The calls that change a limiter.
pub data Op : Type 0 where
  allow_at begin_at failure_at success_at : Text → Time → Op

abbrev pub apply : FailureLimiter → Op → FailureLimiter
apply l (allow_at identity now) = (allow l identity now).0
apply l (begin_at identity now) = (begin l identity now).0
apply l (failure_at identity now) = record_failure l identity now
apply l (success_at identity now) = record_success l identity now

abbrev pub run : FailureLimiter → List Op → FailureLimiter
run l [] = l
run l (op ∷ ops) = run (apply l op) ops

-- A property holds behind a call if it held before and each write that the call makes keeps it.
module _ (P : FailureLimiter → Type 0) (l : FailureLimiter) (identity : Text) (now : Time)
    (h : P l) where
  abbrev key : Text
  key = normalize_identity identity

  abbrev bucket : FailureBucket
  bucket = current l key now

  allow-keeps :
      (is_empty identity ≡ false
        → leb l.limit bucket.count ≡ false
        → P (store l key (record bucket { count = bucket.count + 1 }) now))
      → P (allow l identity now).0
  unfolding allow
  allow-keeps write = elim (Bool-cases (is_empty identity)) [
    | inl e ↦ rw e h
    | inr e ↦ elim (Bool-cases (leb l.limit bucket.count)) [
      | inl f ↦ rw (e, f) h
      | inr f ↦ rw (e, f) (write e f)
    ]
  ]

  begin-keeps :
      (is_empty identity ≡ false
        → leb l.limit (bucket.count + bucket.in_flight) ≡ false
        → P (store l key (record bucket { in_flight = bucket.in_flight + 1 }) now))
      → P (begin l identity now).0
  unfolding begin
  begin-keeps write = elim (Bool-cases (is_empty identity)) [
    | inl e ↦ rw e h
    | inr e ↦ elim (Bool-cases (leb l.limit (bucket.count + bucket.in_flight))) [
      | inl f ↦ rw (e, f) h
      | inr f ↦ rw (e, f) (write e f)
    ]
  ]

  failure-keeps :
      (is_empty identity ≡ false → P (store l key (failed_bucket l.limit bucket) now))
      → P (record_failure l identity now)
  unfolding record_failure
  failure-keeps write = elim (Bool-cases (is_empty identity)) [
    | inl e ↦ rw e h
    | inr e ↦ rw e (write e)
  ]

  success-keeps :
      (is_empty identity ≡ false
        → P (store l key (record bucket { in_flight = bucket.in_flight - 1 }) now))
      → P (record_success l identity now)
  unfolding record_success
  success-keeps write = elim (Bool-cases (is_empty identity)) [
    | inl e ↦ rw e h
    | inr e ↦ rw e (write e)
  ]

-- The map is bounded by a capacity that does not change.
abbrev IsWithin : ℕ → FailureLimiter → Type 0
IsWithin n l = IsBounded l × (capacity l ≡ n)

store-IsWithin :
    (n : ℕ) (l : FailureLimiter) (identity : Text) (b : FailureBucket) (now : Time)
    → IsWithin n l
    → is_empty identity ≡ false
    → IsWithin n (store l (normalize_identity identity) b now)
store-IsWithin n l identity b now (h, c) e = (
  store-IsBounded l (normalize_identity identity) b now (normalize_identity-nonempty identity e) h,
  (store-settings l (normalize_identity identity) b now).0 ∙ c,
)

apply-IsWithin : (n : ℕ) (l : FailureLimiter) (op : Op) → IsWithin n l → IsWithin n (apply l op)
apply-IsWithin n l (allow_at identity now) h =
    allow-keeps (IsWithin n) l identity now h (λ e _. store-IsWithin n l identity _ now h e)
apply-IsWithin n l (begin_at identity now) h =
    begin-keeps (IsWithin n) l identity now h (λ e _. store-IsWithin n l identity _ now h e)
apply-IsWithin n l (failure_at identity now) h =
    failure-keeps (IsWithin n) l identity now h (λ e. store-IsWithin n l identity _ now h e)
apply-IsWithin n l (success_at identity now) h =
    success-keeps (IsWithin n) l identity now h (λ e. store-IsWithin n l identity _ now h e)

run-IsWithin : (n : ℕ) (l : FailureLimiter) (ops : List Op) → IsWithin n l → IsWithin n (run l ops)
run-IsWithin n l [] h = h
run-IsWithin n l (op ∷ ops) h = run-IsWithin n (apply l op) ops (apply-IsWithin n l op h)

new-IsWithin :
    (limit window : ℤ) (l : FailureLimiter)
    → new_failure_limiter limit window ≡ ok l
    → IsWithin max_failure_buckets l
unfolding new_failure_limiter capacity
new-IsWithin limit window l h = (record { size = ground arith; named = ground arith }, ground arith)

-- However many identities fail to authenticate, in any order and at any times, a limiter never tracks
-- more than 4096 of them.
pub limiter_never_grows :
    (limit window : ℤ) (l : FailureLimiter) (ops : List Op)
    → new_failure_limiter limit window ≡ ok l
    → length (run l ops).buckets ≤ max_failure_buckets
limiter_never_grows limit window l ops h =
    let (b, c) = run-IsWithin max_failure_buckets l ops (new-IsWithin limit window l h) in
    omega (arith, b.size, c)

-- A property of every bucket.
abbrev Every : (FailureBucket → Type 0) → Dict FailureBucket → Type 0
Every Q m = All (λ e. Q e.1) m

module _ (Q : FailureBucket → Type 0) where
  Every-insert :
      (key : Text) (b : FailureBucket) (m : Dict FailureBucket)
      → Q b
      → Every Q m
      → Every Q (insert key b m)
  unfolding insert
  Every-insert key b [] q h = (q, tt)
  Every-insert key b ((k, c) ∷ m) q h = elim (Bool-cases (text_eq k key)) [
    | inl e ↦ rw e (q, h.1)
    | inr e ↦ rw e (h.0, Every-insert key b m q h.1)
  ]

  Every-delete : (key : Text) (m : Dict FailureBucket) → Every Q m → Every Q (delete key m)
  unfolding delete
  Every-delete key [] h = tt
  Every-delete key ((k, c) ∷ m) h = elim (Bool-cases (text_eq k key)) [
    | inl e ↦ rw e (Every-delete key m h.1)
    | inr e ↦ rw e (h.0, Every-delete key m h.1)
  ]

  Every-lookup :
      (key : Text) (m : Dict FailureBucket) (b : FailureBucket)
      → Every Q m
      → lookup key m ≡ some b
      → Q b
  unfolding lookup
  Every-lookup key [] b h e = cc
  Every-lookup key ((k, c) ∷ m) b h e = elim (Bool-cases (text_eq k key)) [
    | inl same ↦ subst Q (ground (arith, same)) h.0
    | inr other ↦ Every-lookup key m b h.1 (ground (arith, other))
  ]

  Every-sweep :
      (window : ℕ) (now : Time) (keep : Text) (v : Victims) (m : Dict FailureBucket)
      → Every Q m
      → Every Q (sweep window now keep v m).0
  unfolding sweep
  Every-sweep window now keep v [] h = tt
  Every-sweep window now keep v ((k, c) ∷ m) h =
      elim (Bool-cases (not (text_eq k keep) && is_over window c.started now)) [
        | inl gone ↦ rw gone (Every-sweep window now keep (next window now keep v k c) m h.1)
        | inr stays ↦ rw stays (h.0, Every-sweep window now keep (next window now keep v k c) m h.1)
      ]

  Every-evict :
      (l : FailureLimiter) (now : Time) (keep : Text)
      → Every Q l.buckets
      → Every Q (evict l now keep).buckets
  unfolding evict drop_victim
  Every-evict l now keep h =
      let s = Every-sweep l.window now keep no_victims l.buckets h in
      ground (
        arith,
        s,
        Every-delete (victim (sweep l.window now keep no_victims l.buckets).1)
            (sweep l.window now keep no_victims l.buckets).0 s,
      )

  Every-make_room :
      (l : FailureLimiter) (identity : Text) (now : Time)
      → Every Q l.buckets
      → Every Q (make_room l identity now).buckets
  unfolding make_room
  Every-make_room l identity now h = ground (arith, Every-evict l now identity h)

  Every-store :
      (l : FailureLimiter) (identity : Text) (b : FailureBucket) (now : Time)
      → Q b
      → Every Q l.buckets
      → Every Q (store l identity b now).buckets
  unfolding store
  Every-store l identity b now q h = ground (
    arith,
    Every-delete identity l.buckets h,
    Every-insert identity b (make_room l identity now).buckets q (Every-make_room l identity now h),
  )

  Every-current :
      (l : FailureLimiter) (identity : Text) (now : Time)
      → Q (fresh_bucket now)
      → Every Q l.buckets
      → Q (current l identity now)
  unfolding current
  Every-current l identity now q h = elim (Option-cases (lookup identity l.buckets)) [
    | inl e ↦ rw e q
    | inr (b, e) ↦ elim (Bool-cases (b.started == 0 || is_over l.window b.started now)) [
      | inl o ↦ rw (e, o) q
      | inr o ↦ rw (e, o) (Every-lookup identity l.buckets b h e)
    ]
  ]

-- The failures that are counted and the attempts that are under way do not pass the limit together.
abbrev pub InBudget : ℕ → FailureBucket → Type 0
InBudget limit b = b.count + b.in_flight ≤ limit

abbrev IsInBudget : ℕ → FailureLimiter → Type 0
IsInBudget n l = Every (InBudget n) l.buckets × (l.limit ≡ n)

store-IsInBudget :
    (n : ℕ) (l : FailureLimiter) (identity : Text) (b : FailureBucket) (now : Time)
    → IsInBudget n l
    → InBudget n b
    → IsInBudget n (store l identity b now)
store-IsInBudget n l identity b now (h, c) q =
    (Every-store (InBudget n) l identity b now q h, (store-settings l identity b now).1 ∙ c)

current-InBudget :
    (n : ℕ) (l : FailureLimiter) (identity : Text) (now : Time)
    → IsInBudget n l
    → InBudget n (current l identity now)
current-InBudget n l identity now h = Every-current (InBudget n) l identity now (omega arith) h.0

-- The calls of the request path: all but `Allow`.
abbrev pub IsRequestOp : Op → Type 0
IsRequestOp (allow_at identity now) = ⊥
IsRequestOp _ = Unit

apply-IsInBudget :
    (n : ℕ) (l : FailureLimiter) (op : Op)
    → IsRequestOp op
    → IsInBudget n l
    → IsInBudget n (apply l op)
apply-IsInBudget n l (allow_at identity now) r h = absurd r
apply-IsInBudget n l (begin_at identity now) r h =
    begin-keeps (IsInBudget n) l identity now h
      (λ e f. store-IsInBudget n l (normalize_identity identity) _ now h (ground (arith, h.1)))
apply-IsInBudget n l (failure_at identity now) r h =
    failure-keeps (IsInBudget n) l identity now h (λ e.
      store-IsInBudget n l (normalize_identity identity) _ now h
        (ground (arith, h.1, current-InBudget n l (normalize_identity identity) now h)))
apply-IsInBudget n l (success_at identity now) r h =
    success-keeps (IsInBudget n) l identity now h (λ e.
      store-IsInBudget n l (normalize_identity identity) _ now h
        (ground (arith, current-InBudget n l (normalize_identity identity) now h)))

run-IsInBudget :
    (n : ℕ) (l : FailureLimiter) (ops : List Op)
    → All IsRequestOp ops
    → IsInBudget n l
    → IsInBudget n (run l ops)
run-IsInBudget n l [] r h = h
run-IsInBudget n l (op ∷ ops) r h =
    run-IsInBudget n (apply l op) ops r.1 (apply-IsInBudget n l op r.0 h)

new-IsInBudget :
    (limit window : ℤ) (l : FailureLimiter)
    → new_failure_limiter limit window ≡ ok l
    → IsInBudget (pos_part limit) l
unfolding new_failure_limiter
new-IsInBudget limit window l h = (ground arith, ground arith)

-- Over every sequence of `Begin`, `RecordFailure` and `RecordSuccess`, matched or not, for any
-- identities and at any times, the failures that a bucket counts and its attempts under way together
-- never pass the limit.
pub limiter_in_budget :
    (limit window : ℤ) (l : FailureLimiter) (ops : List Op) (identity : Text) (b : FailureBucket)
    → new_failure_limiter limit window ≡ ok l
    → All IsRequestOp ops
    → lookup identity (run l ops).buckets ≡ some b
    → b.count + b.in_flight ≤ pos_part limit
limiter_in_budget limit window l ops identity b made r found =
    Every-lookup (InBudget (pos_part limit)) identity (run l ops).buckets b
      (run-IsInBudget (pos_part limit) l ops r (new-IsInBudget limit window l made)).0 found
