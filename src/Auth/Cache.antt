-- ===== src/Auth/Cache.antt =====
-- `RevocationCache` of internal/auth/auth.go. The store is the argument that each call reads: `none` is
-- its error. A call is one step; the lock is held for each access of the map.
pub mod Freshness
use urbino.Base.{
  ℕ, ◌+◌, ◌-◌, ◌*◌, ◌≡◌, Bool, true, false, ◌&&◌, ◌||◌, not, [], Option, none, some, ltb, ◌==◌,
  if◌then◌else◌,
}
use urbino.Base.Text.{Text, is_empty}
use urbino.Base.Dict.{Dict, lookup, insert, delete}
use urbino.Base.Int.{ℤ, pos, pos_part}
use urbino.Base.Result.{Result, ok, err}
use urbino.Auth.Errors.{AuthError, cache_unavailable, revoked, version_mismatch}
use urbino.Auth.Time.{Time, second, before, after}
use urbino.Auth.Keys.{non_positive}

abbrev pub max_cache_ttl : ℕ
max_cache_ttl = 5 * 1000000000

pub record RevocationState : Type 0 where
  pub revoked : Bool
  pub auth_version : ℕ
  pub checked_at : Time

pub record RevocationEntry : Type 0 where
  pub state : RevocationState
  pub expires_at : Time

pub record RevocationCache : Type 0 where
  pub ttl : ℕ
  pub values : Dict RevocationEntry

abbrev pub Store : Type 0
Store = Text → Option RevocationState

-- `has_store` is false for a nil store.
unfoldable pub new_revocation_cache : (has_store : Bool) → ℤ → Result AuthError RevocationCache
new_revocation_cache has_store ttl =
    if not has_store || non_positive ttl || ltb max_cache_ttl (pos_part ttl)
    then err cache_unavailable
    else ok (record { ttl = pos_part ttl; values = [] })

unfoldable pub check_revocation : RevocationState → ℕ → Result AuthError (Unit {0})
check_revocation state auth_version =
    if state.revoked
    then err AuthError.revoked
    else if not (state.auth_version == auth_version)
    then err version_mismatch
    else ok tt

-- `CheckedAt.After(now.Add(time.Second)) || now.Sub(CheckedAt) > ttl`: a difference below zero does
-- not pass a ttl, which is positive.
abbrev pub is_stale : ℕ → Time → Time → Bool
is_stale ttl checked_at now = after checked_at (now + second) || ltb ttl (now - checked_at)

-- A hit: an entry that has not expired.
unfoldable pub check_cached : ℕ → RevocationState → ℕ → Time → Result AuthError (Unit {0})
check_cached ttl state auth_version now =
    if not (state.checked_at == 0) && is_stale ttl state.checked_at now
    then err cache_unavailable
    else check_revocation state auth_version

-- A state without a time is given the time of the call.
abbrev pub stamped : Time → RevocationState → RevocationState
stamped now state = if state.checked_at == 0 then record state { checked_at = now } else state

-- A miss: the store's answer is kept and used, unless it is an error or stale.
unfoldable pub keep_answer :
    (stale : Bool)
    → RevocationCache
    → Text
    → ℕ
    → Time
    → RevocationState
    → RevocationCache × Result AuthError (Unit {0})
keep_answer true c public_id auth_version now state = (c, err cache_unavailable)
keep_answer false c public_id auth_version now state = (
  record c {
    values =
        insert public_id (record { state = stamped now state; expires_at = now + c.ttl }) c.values;
  },
  check_revocation (stamped now state) auth_version,
)

unfoldable pub check_store :
    RevocationCache
    → Text
    → ℕ
    → Time
    → Option RevocationState
    → RevocationCache × Result AuthError (Unit {0})
unfolding keep_answer
check_store c public_id auth_version now none = (c, err cache_unavailable)
check_store c public_id auth_version now (some state) =
    keep_answer (not (state.checked_at == 0) && is_stale c.ttl state.checked_at now) c public_id
      auth_version now state

-- The entry that a call may use.
abbrev pub live_entry : Option RevocationEntry → Time → Option RevocationState
live_entry none now = none
live_entry (some entry) now = if before now entry.expires_at then some entry.state else none

unfoldable pub check_live :
    Option RevocationState
    → Store
    → RevocationCache
    → Text
    → ℕ
    → Time
    → RevocationCache × Result AuthError (Unit {0})
unfolding check_cached check_store
check_live (some state) store c public_id auth_version now =
    (c, check_cached c.ttl state auth_version now)
check_live none store c public_id auth_version now =
    check_store c public_id auth_version now (store public_id)

unfoldable pub check :
    Store → RevocationCache → Text → ℕ → Time → RevocationCache × Result AuthError (Unit {0})
unfolding check_live check_revocation
check store c public_id auth_version now =
    if is_empty public_id || auth_version == 0
    then (c, err cache_unavailable)
    else check_live (live_entry (lookup public_id c.values) now) store c public_id auth_version now

unfoldable pub invalidate : RevocationCache → Text → RevocationCache
invalidate c public_id = record c { values = delete public_id c.values }
