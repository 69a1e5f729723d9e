-- ===== src/Auth/Cache/Freshness.antt =====
-- How old the knowledge can be on which `RevocationCache.Check` lets a key pass.
use mathlib.Core.Path.{sym, subst}
use urbino.Base.{
  ◌∙◌, ◌⊎◌, ℕ, ◌+◌, ◌≤◌, ◌<◌, ◌≡◌, ◌≢◌, refl, inl, inr, Bool, true, false, ◌||◌, ◌⊎◌, List, [], ◌∷◌,
  Option, none, some, arith, ◌==◌, if◌then◌else◌, Bool-cases,
}
use urbino.Base.Text.{text_eq_refl, eq_of_text_eq, Text, text_eq, All}
use urbino.Base.Dict.{lookup, insert, lookup-insert}
use urbino.Base.Result.{ok, err}
use urbino.Auth.Time.{Time, second}
use urbino.Auth.Cache.{
  max_cache_ttl, ℤ, cache_unavailable, new_revocation_cache, before, keep_answer, is_empty,
  check_live, RevocationState, RevocationEntry, RevocationCache, Store, stamped, check,
  check_cached, check_store, check_revocation, live_entry,
}

-- What holds of every state that the cache keeps for a key: `Known key state`.
module _ (Known : Text → RevocationState → Type 0) where
  abbrev pub Keeps : RevocationCache → Type 0
  Keeps c =
      (key : Text) (entry : RevocationEntry)
      → lookup key c.values ≡ some entry
      → Known key entry.state × (0 < entry.state.checked_at)

  -- What the store answers is known once it has a time.
  abbrev pub Answers : Store → Text → Time → Type 0
  Answers store key now =
      (state : RevocationState) → store key ≡ some state → Known key (stamped now state)

  -- A state on which a key passes at `now`.
  pub record Passes (ttl : ℕ) (key : Text) (version : ℕ) (now : Time) : Type 0 where
    pub state : RevocationState
    pub known : Known key state
    pub standing : state.revoked ≡ false
    pub same_version : state.auth_version ≡ version
    pub not_ahead : state.checked_at ≤ now + second
    pub not_old : now ≤ state.checked_at + ttl

  Keeps-insert :
      (c : RevocationCache) (key : Text) (entry : RevocationEntry)
      → Keeps c
      → Known key entry.state
      → 0 < entry.state.checked_at
      → Keeps (record c { values = insert key entry c.values })
  Keeps-insert c key entry keeps known set other found e = elim (Bool-cases (text_eq key other)) [
    | inl same ↦
        (let g : some entry ≡ some found = rw (lookup-insert key other entry c.values, same) at e in
          let f : entry ≡ found = cc in
          subst (λ (x : RevocationEntry). Known other x.state × (0 < x.state.checked_at)) f
            (subst (λ (t : Text). Known t entry.state) (eq_of_text_eq key other same) known, set))
    | inr differs ↦ keeps other found (rw (lookup-insert key other entry c.values, differs) at e)
  ]

  keep_answer-Keeps :
      (stale : Bool) (c : RevocationCache) (key : Text) (version : ℕ) (now : Time)
      (state : RevocationState)
      → 0 < now
      → Known key (stamped now state)
      → Keeps c
      → Keeps (keep_answer stale c key version now state).0
  unfolding keep_answer
  keep_answer-Keeps true c key version now state later known keeps = keeps
  keep_answer-Keeps false c key version now state later known keeps =
      Keeps-insert c key (record { state = stamped now state; expires_at = now + c.ttl }) keeps
        known (ground arith)

  check_store-Keeps :
      (c : RevocationCache) (key : Text) (version : ℕ) (now : Time)
      (answer : Option RevocationState)
      → 0 < now
      → ((state : RevocationState) → answer ≡ some state → Known key (stamped now state))
      → Keeps c
      → Keeps (check_store c key version now answer).0
  unfolding check_store
  check_store-Keeps c key version now none later known keeps = keeps
  check_store-Keeps c key version now (some state) later known keeps =
      keep_answer-Keeps _ c key version now state later (known state refl) keeps

  check_live-Keeps :
      (live : Option RevocationState) (store : Store) (c : RevocationCache) (key : Text)
      (version : ℕ) (now : Time)
      → 0 < now
      → Answers store key now
      → Keeps c
      → Keeps (check_live live store c key version now).0
  unfolding check_live
  check_live-Keeps (some state) store c key version now later known keeps = keeps
  check_live-Keeps none store c key version now later known keeps =
      check_store-Keeps c key version now (store key) later known keeps

  -- A call keeps the invariant.
  pub check-Keeps :
      (store : Store) (c : RevocationCache) (key : Text) (version : ℕ) (now : Time)
      → 0 < now
      → Answers store key now
      → Keeps c
      → Keeps (check store c key version now).0
  unfolding check
  check-Keeps store c key version now later known keeps =
      elim (is_empty key || version == 0)
        as (λ b.
          Keeps
            (if b
              then (c, err cache_unavailable)
              else check_live (live_entry (lookup key c.values) now) store c key version now).0) [
                | true ↦ keeps
                | false ↦
                    check_live-Keeps (live_entry (lookup key c.values) now) store c key version now
                      later known keeps
              ]

  check_cached-Passes :
      (ttl : ℕ) (key : Text) (state : RevocationState) (version : ℕ) (now : Time)
      → Known key state
      → 0 < state.checked_at
      → check_cached ttl state version now ≡ ok tt
      → Passes ttl key version now
  unfolding check_cached check_revocation
  check_cached-Passes ttl key state version now known set h = record {
    state = state;
    known = known;
    standing = ground arith;
    same_version = ground arith;
    not_ahead = ground arith;
    not_old = ground arith;
  }

  check_store-Passes :
      (c : RevocationCache) (key : Text) (version : ℕ) (now : Time)
      (answer : Option RevocationState)
      → ((state : RevocationState) → answer ≡ some state → Known key (stamped now state))
      → (check_store c key version now answer).1 ≡ ok tt
      → Passes c.ttl key version now
  unfolding check_store check_revocation
  check_store-Passes c key version now none known h = cc
  check_store-Passes c key version now (some state) known h = record {
    state = stamped now state;
    known = known state refl;
    standing = ground arith;
    same_version = ground arith;
    not_ahead = ground arith;
    not_old = ground arith;
  }

  check_live-Passes :
      (found : Option RevocationEntry) (store : Store) (c : RevocationCache) (key : Text)
      (version : ℕ) (now : Time)
      → ((entry : RevocationEntry)
          → found ≡ some entry
          → Known key entry.state × (0 < entry.state.checked_at))
      → Answers store key now
      → (check_live (live_entry found now) store c key version now).1 ≡ ok tt
      → Passes c.ttl key version now
  unfolding check_live
  check_live-Passes none store c key version now kept known h =
      check_store-Passes c key version now (store key) known h
  check_live-Passes (some entry) store c key version now kept known h =
      elim (Bool-cases (before now entry.expires_at)) [
        | inl live ↦
            check_cached-Passes c.ttl key entry.state version now (kept entry refl).0
              (kept entry refl).1 (rw (live, check_live) at h)
        | inr dead ↦
            check_store-Passes c key version now (store key) known (rw (dead, check_live) at h)
      ]

  -- A key passes only on a state that the cache or the store knows for it: one that is not revoked,
  -- has the key's version, and was checked at most the cache's time to live ago and at most one
  -- second ahead.
  pub check-Passes :
      (store : Store) (c : RevocationCache) (key : Text) (version : ℕ) (now : Time)
      → Answers store key now
      → Keeps c
      → (check store c key version now).1 ≡ ok tt
      → Passes c.ttl key version now
  unfolding check
  check-Passes store c key version now known keeps h =
      check_live-Passes (lookup key c.values) store c key version now (keeps key) known
        (ground arith)

-- One call, with what the store would answer at that moment.
pub record Call : Type 0 where
  pub store : Store
  pub key : Text
  pub version : ℕ
  pub now : Time

abbrev pub run : RevocationCache → List Call → RevocationCache
run c [] = c
run c (call ∷ calls) = run (check call.store c call.key call.version call.now).0 calls

-- Since `cutoff` the store has reported `key` as revoked: an answer that says otherwise was checked
-- at `cutoff` or before. (An answer without a time counts as checked when it is given.)
pub record IsHonest (key : Text) (cutoff : Time) (call : Call) : Type 0 where
  pub running : 0 < call.now
  pub reported :
      (state : RevocationState)
      → call.store key ≡ some state
      → (state.revoked ≡ true) ⊎ ((stamped call.now state).checked_at ≤ cutoff)

abbrev RevokedSince : Text → Time → Text → RevocationState → Type 0
RevokedSince key cutoff other state =
    (text_eq other key ≡ true) → (state.revoked ≡ true) ⊎ (state.checked_at ≤ cutoff)

stamped-revoked : (now : Time) (s : RevocationState) → (stamped now s).revoked ≡ s.revoked
stamped-revoked now s = ground arith

module _ (key : Text) (cutoff : Time) where
  honest-Answers :
      (call : Call)
      → IsHonest key cutoff call
      → Answers (RevokedSince key cutoff) call.store call.key call.now
  honest-Answers call honest state e same =
      let k : call.key ≡ key = eq_of_text_eq call.key key same in
      elim (honest.reported state (subst (λ (t : Text). call.store t ≡ some state) k e)) [
        | inl r ↦ inl (stamped-revoked call.now state ∙ r)
        | inr old ↦ inr old
      ]

  run-Keeps :
      (c : RevocationCache) (calls : List Call)
      → All (IsHonest key cutoff) calls
      → Keeps (RevokedSince key cutoff) c
      → Keeps (RevokedSince key cutoff) (run c calls)
  run-Keeps c [] honest keeps = keeps
  run-Keeps c (call ∷ calls) honest keeps =
      run-Keeps (check call.store c call.key call.version call.now).0 calls honest.1 (
        check-Keeps (RevokedSince key cutoff) call.store c call.key call.version call.now
          honest.0.running (honest-Answers call honest.0) keeps)

check-ttl :
    (store : Store) (c : RevocationCache) (key : Text) (version : ℕ) (now : Time)
    → (check store c key version now).0.ttl ≡ c.ttl
unfolding check check_live check_store keep_answer
check-ttl store c key version now = ground arith

run-ttl : (c : RevocationCache) (calls : List Call) → (run c calls).ttl ≡ c.ttl
run-ttl c [] = refl
run-ttl c (call ∷ calls) =
    run-ttl (check call.store c call.key call.version call.now).0 calls
    ∙ check-ttl call.store c call.key call.version call.now

new_cache_empty :
    (has_store : Bool) (ttl : ℤ) (c : RevocationCache)
    → new_revocation_cache has_store ttl ≡ ok c
    → (c.values ≡ []) × (c.ttl ≤ max_cache_ttl)
unfolding new_revocation_cache
new_cache_empty has_store ttl c h = (ground arith, ground arith)

empty-Keeps :
    (Known : Text → RevocationState → Type 0) (c : RevocationCache) → c.values ≡ [] → Keeps Known c
unfolding lookup
empty-Keeps Known c e key entry h = ground arith

-- A revocation takes effect within five seconds. Take any cache that `NewRevocationCache` gives, and
-- any calls for any keys, between which the store may change, but where, from `cutoff` on, it does
-- not report `key` as unrevoked. A later call for that key that starts more than five seconds after
-- `cutoff` does not let the key pass.
pub revocation_takes_effect :
    (key : Text) (cutoff : Time) (has_store : Bool) (ttl : ℤ) (c : RevocationCache)
    (calls : List Call) (last : Call)
    → new_revocation_cache has_store ttl ≡ ok c
    → All (IsHonest key cutoff) calls
    → IsHonest key cutoff last
    → last.key ≡ key
    → cutoff + max_cache_ttl < last.now
    → (check last.store (run c calls) key last.version last.now).1 ≢ ok tt
revocation_takes_effect key cutoff has_store ttl c calls last made honest honest_last same late
      passes =
    let (empty, short) = new_cache_empty has_store ttl c made in
    let keeps =
      run-Keeps key cutoff c calls honest (empty-Keeps (RevokedSince key cutoff) c empty) in
    let answers : Answers (RevokedSince key cutoff) last.store key last.now =
      subst (λ (t : Text). Answers (RevokedSince key cutoff) last.store t last.now) same
        (honest-Answers key cutoff last honest_last) in
    let p =
      check-Passes (RevokedSince key cutoff) last.store (run c calls) key last.version last.now
        answers keeps passes in
    elim (p.known (text_eq_refl key)) [
      | inl r ↦ cc (sym r ∙ p.standing)
      | inr old ↦ absurd (omega (arith, run-ttl c calls, p.not_old))
    ]
