-- ===== src/Auth/Limiter/Bounds.antt =====
-- The capacity of the map of `FailureLimiter` (internal/auth/auth.go): what the sweep and the
-- eviction leave.
use urbino.Base.{
  ℕ, ◌+◌, ◌≤◌, ◌<◌, ◌≡◌, refl, inl, inr, ◌⊎◌, true, false, ◌||◌, [], ◌∷◌, arith, length,
  if◌then◌else◌, Bool-cases,
}
use urbino.Base.Text.{Text, text_eq, text_eq_refl, is_empty, All}
use urbino.Base.Dict.{Dict, lookup, insert, delete, length-delete}
use urbino.Auth.Time.{Time}
use urbino.Auth.Limiter.{
  FailureBucket, FailureLimiter, Victims, no_victims, note, sweep, victim, is_over, drop_victim,
  evict, make_room, store, capacity, is_tracked,
}

-- A key of a map.
abbrev pub Tracks : Dict FailureBucket → Text → Type 0
Tracks m key = is_tracked (lookup key m) ≡ true

length-insert_tracked :
    (key : Text) (b : FailureBucket) (m : Dict FailureBucket)
    → Tracks m key
    → length (insert key b m) ≡ length m
unfolding lookup insert
length-insert_tracked key b [] h = cc
length-insert_tracked key b ((k, c) ∷ m) h = ground (arith, length-insert_tracked key b m)

length-insert :
    (key : Text) (b : FailureBucket) (m : Dict FailureBucket)
    → length (insert key b m) ≤ length m + 1
unfolding insert
length-insert key b [] = omega arith
length-insert key b ((k, c) ∷ m) = ground (arith, length-insert key b m)

length-delete_tracked :
    (key : Text) (m : Dict FailureBucket) → Tracks m key → length (delete key m) < length m
unfolding lookup delete
length-delete_tracked key [] h = cc
length-delete_tracked key ((k, c) ∷ m) h =
    ground (arith, length-delete_tracked key m, length-delete key m)

-- Every key is a text that is not empty.
abbrev pub AreNamed : Dict FailureBucket → Type 0
AreNamed m = All (λ e. is_empty e.0 ≡ false) m

AreNamed-insert :
    (key : Text) (b : FailureBucket) (m : Dict FailureBucket)
    → is_empty key ≡ false
    → AreNamed m
    → AreNamed (insert key b m)
unfolding insert
AreNamed-insert key b [] k h = (k, tt)
AreNamed-insert key b ((j, c) ∷ m) k h = ground (arith, AreNamed-insert key b m k)

AreNamed-delete : (key : Text) (m : Dict FailureBucket) → AreNamed m → AreNamed (delete key m)
unfolding delete
AreNamed-delete key [] h = tt
AreNamed-delete key ((j, c) ∷ m) h = ground (arith, AreNamed-delete key m)

module _ (window : ℕ) (now : Time) (keep : Text) where
  -- The candidates with which the loop goes on behind a bucket.
  abbrev pub next : Victims → Text → FailureBucket → Victims
  next v key b = if text_eq key keep || is_over window b.started now then v else note v key b

  length-sweep :
      (v : Victims) (m : Dict FailureBucket) → length (sweep window now keep v m).0 ≤ length m
  unfolding sweep
  length-sweep v [] = omega arith
  length-sweep v ((key, b) ∷ m) = ground (arith, length-sweep (next v key b) m)

  AreNamed-sweep :
      (v : Victims) (m : Dict FailureBucket) → AreNamed m → AreNamed (sweep window now keep v m).0
  unfolding sweep
  AreNamed-sweep v [] h = tt
  AreNamed-sweep v ((key, b) ∷ m) h = ground (arith, AreNamed-sweep (next v key b) m)

  -- A candidate without reservations is one from before, or a key that stays.
  sweep-oldest :
      (v : Victims) (m : Dict FailureBucket)
      → let r = sweep window now keep v m in (r.1.oldest ≡ v.oldest) ⊎ Tracks r.0 r.1.oldest
  unfolding sweep note lookup
  sweep-oldest v [] = inl refl
  sweep-oldest v ((key, b) ∷ m) = ground (arith, sweep-oldest (next v key b) m, text_eq_refl key)

  sweep-reserved :
      (v : Victims) (m : Dict FailureBucket)
      → let r = sweep window now keep v m in
        (r.1.oldest_reserved ≡ v.oldest_reserved) ⊎ Tracks r.0 r.1.oldest_reserved
  unfolding sweep note lookup
  sweep-reserved v [] = inl refl
  sweep-reserved v ((key, b) ∷ m) =
      ground (arith, sweep-reserved (next v key b) m, text_eq_refl key)

  sweep-persists :
      (v : Victims) (m : Dict FailureBucket)
      → AreNamed m
      → is_empty (victim v) ≡ false
      → is_empty (victim (sweep window now keep v m).1) ≡ false
  unfolding sweep note
  sweep-persists v [] n h = h
  sweep-persists v ((key, b) ∷ m) n h = ground (arith, sweep-persists (next v key b) m n.1)

  -- If any bucket but the kept one is left, there is a candidate.
  sweep-finds :
      (v : Victims) (m : Dict FailureBucket)
      → AreNamed m
      → is_tracked (lookup keep m) ≡ false
      → 0 < length (sweep window now keep v m).0
      → is_empty (victim (sweep window now keep v m).1) ≡ false
  unfolding sweep note lookup
  sweep-finds v [] n u h = absurd (omega arith)
  sweep-finds v ((key, b) ∷ m) n u h =
      ground (arith, sweep-finds (next v key b) m n.1, sweep-persists (next v key b) m n.1)

  victim-Tracks :
      (m : Dict FailureBucket)
      → let r = sweep window now keep no_victims m in
        is_empty (victim r.1) ≡ false → Tracks r.0 (victim r.1)
  victim-Tracks m h = ground (arith, sweep-oldest no_victims m, sweep-reserved no_victims m)

capacity-pos : (l : FailureLimiter) → 0 < capacity l
unfolding capacity
capacity-pos l = ground arith

drop_victim-length :
    (l : FailureLimiter) (kept : Dict FailureBucket) (v : Victims)
    → length kept ≤ capacity l
    → (0 < length kept → is_empty (victim v) ≡ false)
    → (is_empty (victim v) ≡ false → Tracks kept (victim v))
    → length (drop_victim l (kept, v)).buckets < capacity l
unfolding drop_victim
drop_victim-length l kept v size found tracked =
    ground (arith, capacity-pos l, length-delete_tracked (victim v) kept)

drop_victim-AreNamed :
    (l : FailureLimiter) (kept : Dict FailureBucket) (v : Victims)
    → AreNamed kept
    → AreNamed (drop_victim l (kept, v)).buckets
unfolding drop_victim
drop_victim-AreNamed l kept v n = ground (arith, AreNamed-delete (victim v) kept)

-- A map within the capacity, whose keys are not empty.
pub record IsBounded (l : FailureLimiter) : Type 0 where
  pub size : length l.buckets ≤ capacity l
  pub named : AreNamed l.buckets

-- Eviction for an identity that is not in the map leaves room for it.
evict-length :
    (l : FailureLimiter) (now : Time) (keep : Text)
    → IsBounded l
    → is_tracked (lookup keep l.buckets) ≡ false
    → length (evict l now keep).buckets < capacity l
unfolding evict
evict-length l now keep h u =
    drop_victim-length l (sweep l.window now keep no_victims l.buckets).0
      (sweep l.window now keep no_victims l.buckets).1
      (omega (arith, length-sweep l.window now keep no_victims l.buckets, h.size))
      (sweep-finds l.window now keep no_victims l.buckets h.named u)
      (victim-Tracks l.window now keep l.buckets)

evict-AreNamed :
    (l : FailureLimiter) (now : Time) (keep : Text)
    → AreNamed l.buckets
    → AreNamed (evict l now keep).buckets
unfolding evict
evict-AreNamed l now keep n =
    drop_victim-AreNamed l (sweep l.window now keep no_victims l.buckets).0
      (sweep l.window now keep no_victims l.buckets).1
      (AreNamed-sweep l.window now keep no_victims l.buckets n)

evict-settings :
    (l : FailureLimiter) (now : Time) (keep : Text)
    → (capacity (evict l now keep) ≡ capacity l)
      × ((evict l now keep).limit ≡ l.limit)
      × ((evict l now keep).window ≡ l.window)
unfolding evict drop_victim capacity
evict-settings l now keep = (ground arith, ground arith, ground arith)

make_room-settings :
    (l : FailureLimiter) (identity : Text) (now : Time)
    → (capacity (make_room l identity now) ≡ capacity l)
      × ((make_room l identity now).limit ≡ l.limit)
      × ((make_room l identity now).window ≡ l.window)
unfolding make_room
make_room-settings l identity now = ground (arith, evict-settings l now identity)

pub store-settings :
    (l : FailureLimiter) (identity : Text) (b : FailureBucket) (now : Time)
    → (capacity (store l identity b now) ≡ capacity l)
      × ((store l identity b now).limit ≡ l.limit)
      × ((store l identity b now).window ≡ l.window)
unfolding store capacity make_room evict drop_victim
store-settings l identity b now = (ground arith, ground arith, ground arith)

make_room-room :
    (l : FailureLimiter) (identity : Text) (now : Time)
    → IsBounded l
    → Tracks (make_room l identity now).buckets identity
        × (length (make_room l identity now).buckets ≤ capacity l)
      ⊎ (length (make_room l identity now).buckets < capacity l)
unfolding make_room
make_room-room l identity now h = elim (Bool-cases (is_tracked (lookup identity l.buckets))) [
  | inl t ↦ inl (ground arith, ground (arith, h.size))
  | inr u ↦ inr (ground (arith, evict-length l now identity h u))
]

make_room-AreNamed :
    (l : FailureLimiter) (identity : Text) (now : Time)
    → AreNamed l.buckets
    → AreNamed (make_room l identity now).buckets
unfolding make_room
make_room-AreNamed l identity now n = ground (arith, evict-AreNamed l now identity)

store-length :
    (l : FailureLimiter) (identity : Text) (b : FailureBucket) (now : Time)
    → IsBounded l
    → length (store l identity b now).buckets ≤ capacity l
unfolding store
store-length l identity b now h = ground (
  arith,
  h.size,
  make_room-room l identity now h,
  length-delete identity l.buckets,
  length-insert identity b (make_room l identity now).buckets,
  length-insert_tracked identity b (make_room l identity now).buckets,
)

store-AreNamed :
    (l : FailureLimiter) (identity : Text) (b : FailureBucket) (now : Time)
    → is_empty identity ≡ false
    → AreNamed l.buckets
    → AreNamed (store l identity b now).buckets
unfolding store
store-AreNamed l identity b now e n = ground (
  arith,
  AreNamed-delete identity l.buckets,
  make_room-AreNamed l identity now,
  AreNamed-insert identity b (make_room l identity now).buckets e,
)

-- Writing a bucket keeps the map within its capacity: if the map is full and the identity is new,
-- some other bucket goes first.
pub store-IsBounded :
    (l : FailureLimiter) (identity : Text) (b : FailureBucket) (now : Time)
    → is_empty identity ≡ false
    → IsBounded l
    → IsBounded (store l identity b now)
store-IsBounded l identity b now e h = record {
  size = omega (arith, store-length l identity b now h, store-settings l identity b now);
  named = store-AreNamed l identity b now e h.named;
}
