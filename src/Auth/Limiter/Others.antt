-- ===== src/Auth/Limiter/Others.antt =====
-- What the calls of `FailureLimiter` (internal/auth/auth.go) for one identity leave of another's window.
use urbino.Base.{
  ◌≡◌, refl, ◌∙◌, ◌⊎◌, inl, inr, true, false, ◌<◌, ◌+◌, length, arith, leb, Bool-cases,
}
use urbino.Base.Text.{Text, text_eq, is_empty}
use urbino.Base.Dict.{lookup, lookup-insert, lookup-delete}
use urbino.Auth.Time.{Time}
use urbino.Auth.Limiter.Identity.{normalize_identity}
use urbino.Auth.Limiter.{
  FailureBucket, FailureLimiter, is_tracked, is_empty_bucket, capacity, make_room, store, current,
  begin, record_failure, record_success,
}
use urbino.Auth.Limiter.Bounds.{store-settings}
use urbino.Auth.Limiter.Blocking.{lookup-store}

-- The limiter has a window for the identity or a place for one.
abbrev pub HasPlace : Text → FailureLimiter → Type 0
HasPlace other l = (is_tracked (lookup other l.buckets) ≡ true) ⊎ (length l.buckets < capacity l)

-- The window of an identity and the settings are as they were.
pub record IsUntouched (mine : Text) (l l' : FailureLimiter) : Type 0 where
  pub held : lookup mine l'.buckets ≡ lookup mine l.buckets
  pub same_limit : l'.limit ≡ l.limit
  pub same_window : l'.window ≡ l.window

IsUntouched-refl : (mine : Text) (l : FailureLimiter) → IsUntouched mine l l
IsUntouched-refl mine l = record { held = refl; same_limit = refl; same_window = refl }

pub IsUntouched-trans :
    (mine : Text) (l m n : FailureLimiter)
    → IsUntouched mine l m
    → IsUntouched mine m n
    → IsUntouched mine l n
IsUntouched-trans mine l m n a b = record {
  held = b.held ∙ a.held;
  same_limit = b.same_limit ∙ a.same_limit;
  same_window = b.same_window ∙ a.same_window;
}

make_room-kept :
    (l : FailureLimiter) (other : Text) (now : Time) → HasPlace other l → make_room l other now ≡ l
unfolding make_room
make_room-kept l other now (inl tracked) = rw tracked refl
make_room-kept l other now (inr free) = ground arith

module _ (mine other : Text) (apart : text_eq other mine ≡ false) where
  lookup-store_other :
      (l : FailureLimiter) (b : FailureBucket) (now : Time)
      → HasPlace other l
      → lookup mine (store l other b now).buckets ≡ lookup mine l.buckets
  unfolding store
  lookup-store_other l b now place = elim (Bool-cases (is_empty_bucket b)) [
    | inl e ↦ rw e (lookup-delete other mine l.buckets ∙ rw apart refl)
    | inr e ↦
        rw (e, make_room-kept l other now place)
          (lookup-insert other mine b l.buckets ∙ rw apart refl)
  ]

  store-IsUntouched :
      (l : FailureLimiter) (b : FailureBucket) (now : Time)
      → HasPlace other l
      → IsUntouched mine l (store l other b now)
  store-IsUntouched l b now place = record {
    held = lookup-store_other l b now place;
    same_limit = (store-settings l other b now).1;
    same_window = (store-settings l other b now).2;
  }

module _ (mine identity : Text) (apart : text_eq (normalize_identity identity) mine ≡ false) where
  pub record_failure-IsUntouched :
      (l : FailureLimiter) (now : Time)
      → HasPlace (normalize_identity identity) l
      → IsUntouched mine l (record_failure l identity now)
  unfolding record_failure
  record_failure-IsUntouched l now place = elim (Bool-cases (is_empty identity)) [
    | inl e ↦ rw e (IsUntouched-refl mine l)
    | inr e ↦ rw e (store-IsUntouched mine (normalize_identity identity) apart l _ now place)
  ]

  pub record_success-IsUntouched :
      (l : FailureLimiter) (now : Time)
      → HasPlace (normalize_identity identity) l
      → IsUntouched mine l (record_success l identity now)
  unfolding record_success
  record_success-IsUntouched l now place = elim (Bool-cases (is_empty identity)) [
    | inl e ↦ rw e (IsUntouched-refl mine l)
    | inr e ↦ rw e (store-IsUntouched mine (normalize_identity identity) apart l _ now place)
  ]

  -- A begun attempt has a window.
  pub begin-IsUntouched :
      (l : FailureLimiter) (now : Time)
      → HasPlace (normalize_identity identity) l
      → IsUntouched mine l (begin l identity now).0
        × (((begin l identity now).1 ≡ false)
            ⊎ HasPlace (normalize_identity identity) (begin l identity now).0)
  unfolding begin
  begin-IsUntouched l now place = elim (Bool-cases (is_empty identity)) [
    | inl e ↦ rw e (IsUntouched-refl mine l, inl refl)
    | inr e ↦
        let id = normalize_identity identity in
        let b = current l id now in
        elim (Bool-cases (leb l.limit (b.count + b.in_flight))) [
          | inl full ↦ rw (e, full) (IsUntouched-refl mine l, inl refl)
          | inr free ↦
              let c : FailureBucket = record b { in_flight = b.in_flight + 1 } in
              rw (e, free)
                (
                  store-IsUntouched mine id apart l c now place,
                  inr (inl (rw (lookup-store l id c now (ground arith)) refl)),
                )
        ]
  ]
