-- ===== src/Auth/Limiter.antt =====
-- `FailureLimiter` of internal/auth/auth.go. A method runs under the lock, so it is one step; the map
-- is an association list, and `range` visits it in its order.
pub mod Identity
pub mod Bounds
pub mod Budget
pub mod Blocking
pub mod Others
use urbino.Base.{
  ℕ, suc, ◌+◌, ◌-◌, ◌≡◌, Bool, true, false, ◌&&◌, ◌||◌, not, List, [], ◌∷◌, Option, none, some, ltb,
  leb, ◌==◌, if◌then◌else◌, length,
}
use urbino.Base.Text.{Text, text_eq, is_empty}
use urbino.Base.Dict.{Dict, lookup, insert, delete}
use urbino.Base.Int.{ℤ, pos, pos_part}
use urbino.Base.Result.{Result, ok, err}
use urbino.Auth.Errors.{AuthError, rate_limited}
use urbino.Auth.Time.{Time, before}
use urbino.Auth.Keys.{non_positive}
use urbino.Auth.Limiter.Identity.{normalize_identity}

abbrev pub max_failure_buckets : ℕ
max_failure_buckets = 4096

pub record FailureBucket : Type 0 where
  pub started : Time
  pub count : ℕ
  pub in_flight : ℕ

pub record FailureLimiter : Type 0 where
  pub limit : ℕ
  pub window : ℕ
  pub max : ℕ
  pub buckets : Dict FailureBucket

unfoldable pub new_failure_limiter : (limit window : ℤ) → Result AuthError FailureLimiter
new_failure_limiter limit window =
    if non_positive limit || non_positive window
    then err rate_limited
    else ok (record {
      limit = pos_part limit;
      window = pos_part window;
      max = max_failure_buckets;
      buckets = [];
    })

abbrev pub is_empty_bucket : FailureBucket → Bool
is_empty_bucket b = b.count == 0 && b.in_flight == 0

abbrev pub fresh_bucket : Time → FailureBucket
fresh_bucket now = record { started = now; count = 0; in_flight = 0 }

-- `now.Before(started.Add(window))` fails.
abbrev pub is_over : ℕ → Time → Time → Bool
is_over window started now = not (before now (started + window))

-- `currentLocked`; a missing bucket is the zero value, whose start is the zero time.
abbrev pub current_of : Option FailureBucket → ℕ → Time → FailureBucket
current_of none window now = fresh_bucket now
current_of (some b) window now =
    if b.started == 0 || is_over window b.started now then fresh_bucket now else b

unfoldable pub current : FailureLimiter → Text → Time → FailureBucket
current l identity now = current_of (lookup identity l.buckets) l.window now

unfoldable pub capacity : FailureLimiter → ℕ
capacity l = if ltb 0 l.max then l.max else max_failure_buckets

-- The variables of the loop of `evictLocked`; an empty key is none.
pub record Victims : Type 0 where
  pub oldest : Text
  pub oldest_started : Time
  pub oldest_reserved : Text
  pub reserved_started : Time

abbrev pub no_victims : Victims
no_victims = record { oldest = []; oldest_started = 0; oldest_reserved = []; reserved_started = 0 }

unfoldable pub note : Victims → Text → FailureBucket → Victims
note v key b =
    if b.in_flight == 0
    then (if is_empty v.oldest || before b.started v.oldest_started
        then record v { oldest = key; oldest_started = b.started }
        else v)
    else if is_empty v.oldest_reserved || before b.started v.reserved_started
    then record v { oldest_reserved = key; reserved_started = b.started }
    else v

-- The loop: what stays of the map, and the candidates. The identity to keep is passed over, a window
-- that is over is deleted, and any other bucket is a candidate.
unfoldable pub sweep :
    ℕ → Time → (keep : Text) → Victims → Dict FailureBucket → Dict FailureBucket × Victims
sweep window now keep v [] = ([], v)
sweep window now keep v ((key, b) ∷ m) =
    let passed = text_eq key keep in
    let over = is_over window b.started now in
    let (kept, victims) = sweep window now keep (if passed || over then v else note v key b) m in
    (if not passed && over then kept else (key, b) ∷ kept, victims)

abbrev pub victim : Victims → Text
victim v = if is_empty v.oldest then v.oldest_reserved else v.oldest

-- The end of `evictLocked`.
unfoldable pub drop_victim : FailureLimiter → Dict FailureBucket × Victims → FailureLimiter
drop_victim l (kept, v) =
    if ltb (length kept) (capacity l) || is_empty (victim v)
    then record l { buckets = kept }
    else record l { buckets = delete (victim v) kept }

unfoldable pub evict : FailureLimiter → Time → (keep : Text) → FailureLimiter
evict l now keep = drop_victim l (sweep l.window now keep no_victims l.buckets)

abbrev pub is_tracked : Option FailureBucket → Bool
is_tracked none = false
is_tracked (some b) = true

-- The room that `storeLocked` makes for an identity.
unfoldable pub make_room : FailureLimiter → Text → Time → FailureLimiter
make_room l identity now =
    if not (is_tracked (lookup identity l.buckets)) && leb (capacity l) (length l.buckets)
    then evict l now identity
    else l

unfoldable pub store : FailureLimiter → Text → FailureBucket → Time → FailureLimiter
store l identity b now =
    if is_empty_bucket b
    then record l { buckets = delete identity l.buckets }
    else (let r = make_room l identity now in record r { buckets = insert identity b r.buckets })

unfoldable pub allow : FailureLimiter → Text → Time → FailureLimiter × Bool
allow l identity now =
    if is_empty identity
    then (l, false)
    else (let id = normalize_identity identity in
        let b = current l id now in
        if leb l.limit b.count
        then (l, false)
        else (store l id (record b { count = b.count + 1 }) now, true))

unfoldable pub begin : FailureLimiter → Text → Time → FailureLimiter × Bool
begin l identity now =
    if is_empty identity
    then (l, false)
    else (let id = normalize_identity identity in
        let b = current l id now in
        if leb l.limit (b.count + b.in_flight)
        then (l, false)
        else (store l id (record b { in_flight = b.in_flight + 1 }) now, true))

unfoldable pub check : FailureLimiter → Text → Time → Bool
check l identity now =
    if is_empty identity
    then false
    else (let b = current l (normalize_identity identity) now in
        ltb (b.count + b.in_flight) l.limit)

-- `-` stops at 0, as the test of the code does.
abbrev pub failed_bucket : ℕ → FailureBucket → FailureBucket
failed_bucket limit b = record b {
  in_flight = b.in_flight - 1;
  count = if ltb b.count limit then b.count + 1 else b.count;
}

unfoldable pub record_failure : FailureLimiter → Text → Time → FailureLimiter
record_failure l identity now =
    if is_empty identity
    then l
    else (let id = normalize_identity identity in
        store l id (failed_bucket l.limit (current l id now)) now)

unfoldable pub record_success : FailureLimiter → Text → Time → FailureLimiter
record_success l identity now =
    if is_empty identity
    then l
    else (let id = normalize_identity identity in
        let b = current l id now in store l id (record b { in_flight = b.in_flight - 1 }) now)
