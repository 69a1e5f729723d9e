-- ===== src/Auth/Examples.antt =====
-- The theorems on internal/auth/auth.go at concrete values.
use mathlib.Core.List.{Permᴰ}
use urbino.Base.{
  ◌+◌, ◌≤◌, ◌≡◌, ◌≢◌, refl, inl, inr, ◌↔◌, Bool, true, false, List, [], ◌∷◌, ◌++◌, none, some,
  arith,
}
use urbino.Base.Text.{Text, codes, text_eq, has_prefix, trim_prefix, split_byte}
use urbino.Base.Space.{to_lower, trim_space}
use urbino.Base.Int.{pos, pos_part}
use urbino.Base.Dict.{lookup, insert, delete}
use urbino.Base.Result.{ok}
use urbino.Auth.Credential.{
  public_prefix, IsPart, split_credential, parse_public_credential, split_credential_iff,
}
use urbino.Auth.Headers.{
  Values, HeaderCredential, gateway_credential, public_listener, parse_headers, header_values,
  has_query_credential, authorization_candidate, key_candidate, choose, equal_fold, fold_case,
}
use urbino.Auth.Headers.Chosen.{IsChosen, parse_headers_sound}
use urbino.Auth.Headers.Order.{parse_headers_perm}
use urbino.Auth.Cache.{RevocationCache, Store, new_revocation_cache, check}
use urbino.Auth.Cache.Freshness.{Call, IsHonest, revocation_takes_effect, run as run_calls}
use urbino.Auth.Limiter.{
  FailureLimiter, FailureBucket, max_failure_buckets, new_failure_limiter, begin, record_failure,
  current, capacity, make_room, store,
}
use urbino.Auth.Limiter.Identity.{normalize_identity, split_host, cut_last}
use urbino.Auth.Limiter.Budget.{Op, run, limiter_in_budget}

abbrev value : Text
value = codes "gw_live_k1.s1"

split_credential_iff_example :
    (split_credential value public_prefix ≡ ok (codes "k1", codes "s1")) ↔ (
      (value ≡ public_prefix ++ (codes "k1" ++ b'.' ∷ codes "s1"))
      × IsPart (codes "k1")
      × IsPart (codes "s1"))
split_credential_iff_example = split_credential_iff value public_prefix (codes "k1") (codes "s1")

value_parsed : parse_public_credential value ≡ ok (codes "k1", codes "s1")
unfolding parse_public_credential split_credential has_prefix trim_prefix split_byte
value_parsed = refl

abbrev headers : Values
headers = (codes "Accept", codes "*" ∷ []) ∷ (codes "X-Api-Key", codes " gw_live_k1.s1 " ∷ []) ∷ []

abbrev headers' : Values
headers' = (codes "X-Api-Key", codes " gw_live_k1.s1 " ∷ []) ∷ (codes "Accept", codes "*" ∷ []) ∷ []

abbrev credential : HeaderCredential
credential = record { kind = gateway_credential; value = value }

-- A parameter of the query with another name than a credential's.
abbrev query : Values
query = (codes "limit", codes "20" ∷ []) ∷ []

query_parsed : parse_headers headers query public_listener ≡ ok credential
unfolding parse_headers header_values has_query_credential authorization_candidate key_candidate
    choose equal_fold fold_case text_eq has_prefix trim_space to_lower
query_parsed = refl

headers_parsed : parse_headers headers [] public_listener ≡ ok credential
unfolding parse_headers header_values has_query_credential authorization_candidate key_candidate
    choose equal_fold fold_case text_eq has_prefix trim_space
headers_parsed = refl

parse_headers_sound_example : IsChosen headers query public_listener credential
parse_headers_sound_example =
    parse_headers_sound headers query public_listener credential query_parsed

parse_headers_perm_example :
    parse_headers headers [] public_listener ≡ parse_headers headers' [] public_listener
parse_headers_perm_example = parse_headers_perm public_listener (Permᴰ.swap refl refl) Permᴰ.nil

-- A store that reports a key as unrevoked, and one that reports it as revoked.
abbrev store_of : Bool → Store
store_of revoked key = some (record { revoked = revoked; auth_version = 1; checked_at = 0 })

abbrev call_before : Call
call_before = record { store = store_of false; key = codes "k1"; version = 1; now = 1000 }

abbrev call_after : Call
call_after = record { store = store_of true; key = codes "k1"; version = 1; now = 7000000000 }

abbrev cache : RevocationCache
cache = record { ttl = 5000000000; values = [] }

cache_made : new_revocation_cache true (pos 5000000000) ≡ ok cache
unfolding new_revocation_cache
cache_made = refl

before-IsHonest : IsHonest (codes "k1") 1000 call_before
before-IsHonest = record { running = omega arith; reported = λ state e. inr (ground (arith, e)) }

after-IsHonest : IsHonest (codes "k1") 1000 call_after
after-IsHonest = record { running = omega arith; reported = λ state e. inl (ground (arith, e)) }

revocation_takes_effect_example :
    (check call_after.store
      (run_calls cache (call_before ∷ []))
      (codes "k1")
      call_after.version
      call_after.now).1
    ≢ ok tt
revocation_takes_effect_example =
    revocation_takes_effect (codes "k1") 1000 true (pos 5000000000) cache (call_before ∷ [])
      call_after cache_made (before-IsHonest, tt) after-IsHonest refl (omega arith)

abbrev limiter : FailureLimiter
limiter = record { limit = 1; window = 10; max = max_failure_buckets; buckets = [] }

limiter_made : new_failure_limiter (pos 1) (pos 10) ≡ ok limiter
unfolding new_failure_limiter
limiter_made = refl

abbrev peer : Text
peer = codes "h"

abbrev ops : List Op
ops = Op.begin_at peer 5 ∷ Op.failure_at peer 6 ∷ []

abbrev bucket : FailureBucket
bucket = record { started = 5; count = 1; in_flight = 0 }

bucket_kept : lookup peer (run limiter ops).buckets ≡ some bucket
unfolding begin record_failure current capacity make_room store normalize_identity split_host
    cut_last lookup insert delete text_eq
bucket_kept = refl

limiter_in_budget_example : bucket.count + bucket.in_flight ≤ pos_part (pos 1)
limiter_in_budget_example =
    limiter_in_budget (pos 1) (pos 10) limiter ops peer bucket limiter_made (tt, (tt, tt))
      bucket_kept

unknown_peer : lookup (normalize_identity peer) limiter.buckets ≡ none
unfolding lookup
unknown_peer = refl
