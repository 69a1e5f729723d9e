-- ===== src/Http/Examples.antt =====
-- The theorems on internal/httpapi at small requests, bodies and errors.
use urbino.Base.{inr, length, false, ◌≡◌, ◌≢◌, refl, ℕ, [], ◌∷◌, none, some, arith}
use urbino.Base.Text.{codes, text_eq}
use urbino.Base.Result.{Result, err}
use urbino.Base.Dict.{lookup, insert, delete}
use urbino.Auth.Headers.{
  public_listener, parse_headers, header_values, has_query_credential, authorization_candidate,
  key_candidate, choose,
}
use urbino.Auth.Limiter.{
  FailureLimiter, max_failure_buckets, capacity, begin, record_failure, store, make_room, current,
}
use urbino.Auth.Limiter.Identity.{normalize_identity, split_host, cut_last}
use urbino.Auth.Service.{Principal, Request}
use urbino.Storage.Errors.{plain}
use urbino.Http.Middleware.{Middleware, rejected, Arrival, wrap, authenticated}
use urbino.Http.Middleware.Limited.{failed_requests_block}
use urbino.Http.Middleware.Traffic.{after_one, after_all, IsFailure, IsForeign, Traffic}
use urbino.Http.Middleware.Guarded.{IsGuarded, wrap-IsGuarded}
use urbino.Http.Json.{open_object, close_object, text, out_of_fuel, check_duplicate_json_keys}
use urbino.Http.Json.Ends.{check_duplicate_json_keys-ends}
use urbino.Http.Json.Keys.{
  Value, plain, object, member, no_member, value_tokens, is_clean, Verdict,
  check_duplicate_json_keys-clean,
}

abbrev limiter : FailureLimiter
limiter = record { limit = 2; window = 10; max = max_failure_buckets; buckets = [] }

-- An authenticator that accepts no request.
abbrev refusing : Request → Result (Unit {0}) Principal
refusing r = err tt

abbrev middleware : Middleware (Unit {0})
middleware = record {
  mode = public_listener;
  authenticate_public = some refusing;
  authenticate_admin = none;
}

abbrev arrival : ℕ → Arrival
arrival t = record {
  request = record { header = []; query = [] };
  remote_addr = codes "h";
  begun = t;
  ended = t;
}

arrival_fails : authenticated middleware (arrival 5).request ≡ rejected
unfolding authenticated parse_headers header_values has_query_credential authorization_candidate
    key_candidate choose
arrival_fails = refl

first-IsFailure : IsFailure middleware (codes "h") 15 (arrival 5)
first-IsFailure = record {
  from_addr = refl;
  begun_early = omega arith;
  ended_early = omega arith;
  fails = arrival_fails;
}

second-IsFailure : IsFailure middleware (codes "h") 15 (arrival 6)
second-IsFailure = record {
  from_addr = refl;
  begun_early = omega arith;
  ended_early = omega arith;
  fails = arrival_fails;
}

unknown_peer : lookup (normalize_identity (codes "h")) limiter.buckets ≡ none
unfolding lookup
unknown_peer = refl

-- A request of another peer, which comes between.
abbrev guest : Arrival
guest = record (arrival 5) { remote_addr = codes "g" }

abbrev limiter_used : FailureLimiter
limiter_used = after_one middleware limiter (arrival 5)

room_left : (length limiter_used.buckets ≡ 1) × (capacity limiter_used ≡ 4096)
unfolding begin record_failure store make_room current capacity lookup insert delete authenticated
    parse_headers header_values has_query_credential authorization_candidate key_candidate choose
    text_eq normalize_identity split_host cut_last
room_left = (refl, refl)

names_apart : text_eq (normalize_identity (codes "g")) (normalize_identity (codes "h")) ≡ false
unfolding text_eq normalize_identity split_host cut_last
names_apart = refl

guest-IsForeign : IsForeign (codes "h") limiter_used guest
guest-IsForeign = record {
  other = names_apart;
  place = inr (omega (arith, room_left.0, room_left.1));
}

traffic : Traffic middleware (codes "h") 15 limiter_used (guest ∷ arrival 6 ∷ []) 1
traffic = Traffic.foreign guest guest-IsForeign (
    Traffic.own (arrival 6) second-IsFailure
      (Traffic.quiet (after_all middleware limiter_used (guest ∷ arrival 6 ∷ []))))

failed_requests_block_example :
    (wrap middleware
      (some (after_all middleware limiter (arrival 5 ∷ guest ∷ arrival 6 ∷ [])))
      (arrival 7)).0
    ≡ rejected
failed_requests_block_example =
    failed_requests_block middleware middleware limiter (arrival 5) (guest ∷ arrival 6 ∷ []) 1
      (arrival 7) refl unknown_peer (omega arith) (omega arith) first-IsFailure traffic
      (omega arith) refl (omega arith)

wrap-IsGuarded_example :
    IsGuarded middleware (arrival 5).request (wrap middleware (some limiter) (arrival 5)).0
wrap-IsGuarded_example = wrap-IsGuarded middleware (some limiter) (arrival 5)

check_duplicate_json_keys-ends_example :
    check_duplicate_json_keys
      (open_object ∷ text (codes "a") ∷ open_object ∷ close_object ∷ text (codes "a") ∷ [])
    ≢ err out_of_fuel
check_duplicate_json_keys-ends_example =
    check_duplicate_json_keys-ends
      (open_object ∷ text (codes "a") ∷ open_object ∷ close_object ∷ text (codes "a") ∷ [])

-- `{"a": {"a": 1}, "a": 2}`
abbrev twice : Value
twice = object (
    member (codes "a") (object (member (codes "a") plain no_member))
      (member (codes "a") plain no_member))

check_duplicate_json_keys-clean_example :
    Verdict (is_clean 0 twice) (check_duplicate_json_keys (value_tokens twice []))
check_duplicate_json_keys-clean_example = check_duplicate_json_keys-clean twice
