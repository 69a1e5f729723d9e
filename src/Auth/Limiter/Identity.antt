-- ===== src/Auth/Limiter/Identity.antt =====
-- `normalizeLimiterIdentity` of internal/auth/auth.go, with the standard library's `net.SplitHostPort`
-- and `strings.Trim`.
use mathlib.Core.Path.{subst}
use mathlib.Core.List.{reverse-cons, reverse-reverse}
use urbino.Base.{
  inr, inl, Bool-cases, Option-cases, ℕ, ◌≡◌, refl, false, ◌||◌, not, [], ◌∷◌, ◌++◌, reverse,
  Option, none, some, arith, ◌==◌, if◌then◌else◌,
}
use urbino.Base.Text.{Text, is_empty, contains_byte}

-- A text cut at the first place where a byte stands, `none` if it does not occur.
abbrev add_front : ℕ → Option (Text × Text) → Option (Text × Text)
add_front c none = none
add_front c (some (a, b)) = some (c ∷ a, b)

unfoldable pub cut : ℕ → Text → Option (Text × Text)
cut sep [] = none
cut sep (c ∷ s) = let rest = cut sep s in if c == sep then some ([], s) else add_front c rest

-- The same at the last place.
unfoldable pub cut_last : ℕ → Text → Option (Text × Text)
cut_last sep [] = none
cut_last sep (c ∷ s) =
    let rest = cut_last sep s in
    elim rest [ some (a, b) ↦ some (c ∷ a, b) | none ↦ if c == sep then some ([], s) else none ]

-- Behind the bracket that closes a host stand a colon and the port, which holds no further colon; no
-- other bracket may occur.
port_after : Text → Text → Option Text
port_after host [] = none
port_after host (c ∷ port) =
    if not (c == b':')
      || contains_byte b':' port
      || contains_byte b'[' host
      || contains_byte b'[' port
      || contains_byte b']' port
    then none
    else some host

bracketed : Option (Text × Text) → Option Text
bracketed none = none
bracketed (some (host, tail)) = port_after host tail

-- A host without brackets: the text before its only colon.
plain : Option (Text × Text) → Option Text
plain none = none
plain (some (host, port)) =
    if contains_byte b':' host
      || contains_byte b'[' host
      || contains_byte b'[' port
      || contains_byte b']' host
      || contains_byte b']' port
    then none
    else some host

-- The host of `net.SplitHostPort`: `none` is an error.
unfoldable pub split_host : Text → Option Text
unfolding port_after bracketed plain
split_host [] = none
split_host (c ∷ s) = if c == b'[' then bracketed (cut b']' s) else plain (cut_last b':' (c ∷ s))

-- `strings.Trim(host, "[]")`.
unfoldable pub skip_brackets : Text → Text
skip_brackets [] = []
skip_brackets (c ∷ s) = if c == b'[' || c == b']' then skip_brackets s else c ∷ s

abbrev pub trim_brackets : Text → Text
trim_brackets s = reverse (skip_brackets (reverse (skip_brackets s)))

abbrev pub host_or : Option Text → Text → Text
host_or none identity = identity
host_or (some host) identity = if is_empty host then identity else trim_brackets host

unfoldable pub normalize_identity : Text → Text
normalize_identity identity = host_or (split_host identity) identity

cut-append :
    (sep : ℕ) (a b : Text) → contains_byte sep a ≡ false → cut sep (a ++ sep ∷ b) ≡ some (a, b)
unfolding cut contains_byte
cut-append sep [] b h = ground arith
cut-append sep (c ∷ a) b h = ground (arith, cut-append sep a b)

cut_last-none : (sep : ℕ) (b : Text) → contains_byte sep b ≡ false → cut_last sep b ≡ none
unfolding cut_last contains_byte
cut_last-none sep [] h = refl
cut_last-none sep (c ∷ b) h = ground (arith, cut_last-none sep b)

cut_last-append :
    (sep : ℕ) (a b : Text) → contains_byte sep b ≡ false → cut_last sep (a ++ sep ∷ b) ≡ some (a, b)
unfolding cut_last
cut_last-append sep [] b h = ground (arith, cut_last-none sep b h)
cut_last-append sep (c ∷ a) b h = ground (arith, cut_last-append sep a b h)

-- A text without brackets.
abbrev pub NoBrackets : Text → Type 0
NoBrackets s = (contains_byte b'[' s ≡ false) × (contains_byte b']' s ≡ false)

skip_brackets-id : (s : Text) → NoBrackets s → skip_brackets s ≡ s
unfolding skip_brackets contains_byte
skip_brackets-id [] h = refl
skip_brackets-id (c ∷ s) h = ground arith

contains_byte-append :
    (c : ℕ) (s t : Text)
    → contains_byte c s ≡ false
    → contains_byte c t ≡ false
    → contains_byte c (s ++ t) ≡ false
unfolding contains_byte
contains_byte-append c [] t h k = k
contains_byte-append c (d ∷ s) t h k = ground (arith, contains_byte-append c s t)

contains_byte-reverse :
    (c : ℕ) (s : Text) → contains_byte c s ≡ false → contains_byte c (reverse s) ≡ false
unfolding contains_byte
contains_byte-reverse c [] h = refl
contains_byte-reverse c (d ∷ s) h = rw (reverse-cons d s) (
    contains_byte-append c (reverse s) (d ∷ []) (contains_byte-reverse c s (ground arith))
      (ground arith))

trim_brackets-id : (s : Text) → NoBrackets s → trim_brackets s ≡ s
trim_brackets-id s h =
    rw
      (
        skip_brackets-id s h,
        skip_brackets-id (reverse s)
            (contains_byte-reverse b'[' s h.0, contains_byte-reverse b']' s h.1),
      )
      (reverse-reverse s)

first_byte : (c : ℕ) (s : Text) → contains_byte b'[' (c ∷ s) ≡ false → (c == b'[') ≡ false
unfolding contains_byte
first_byte c s h = ground arith

split_host_plain :
    (host port : Text)
    → is_empty host ≡ false
    → NoBrackets host
    → NoBrackets port
    → contains_byte b':' host ≡ false
    → contains_byte b':' port ≡ false
    → split_host (host ++ b':' ∷ port) ≡ some host
unfolding split_host
split_host_plain [] port e h p ch cp = cc
split_host_plain (c ∷ host) port e h p ch cp =
    rw (first_byte c host h.0, cut_last-append b':' (c ∷ host) port cp, ch, h.0, p.0, h.1, p.1) refl

split_host_bracketed :
    (host port : Text)
    → NoBrackets host
    → NoBrackets port
    → contains_byte b':' port ≡ false
    → split_host (b'[' ∷ (host ++ b']' ∷ b':' ∷ port)) ≡ some host
unfolding split_host
split_host_bracketed host port h p cp =
    rw (cut-append b']' host (b':' ∷ port) h.1, cp, h.0, p.0, p.1) refl

-- The port of an address does not matter: both forms, `host:port` and `[host]:port`, are counted
-- under the host. The host is not empty, neither part has a bracket, the port has no colon, and in
-- the first form the host has none.
pub normalize_identity_host :
    (host port : Text)
    → is_empty host ≡ false
    → NoBrackets host
    → NoBrackets port
    → contains_byte b':' port ≡ false
    → (normalize_identity (b'[' ∷ (host ++ b']' ∷ b':' ∷ port)) ≡ host)
      × (contains_byte b':' host ≡ false → normalize_identity (host ++ b':' ∷ port) ≡ host)
unfolding normalize_identity
normalize_identity_host host port e h p cp = (
  rw (split_host_bracketed host port h p cp, e) (trim_brackets-id host h),
  λ ch. rw (split_host_plain host port e h p ch cp, e) (trim_brackets-id host h),
)

cut-front : (sep : ℕ) (s a b : Text) → cut sep s ≡ some (a, b) → contains_byte sep a ≡ false
unfolding cut contains_byte
cut-front sep [] a b h = cc
cut-front sep (c ∷ s) a b h = elim (Option-cases (cut sep s)) [
  | inl e ↦ ground (arith, e)
  | inr ((x, y), e) ↦ ground (arith, e, cut-front sep s x y e)
]

port_after-front :
    (x y host : Text) → port_after x y ≡ some host → (x ≡ host) × (contains_byte b'[' x ≡ false)
unfolding port_after
port_after-front x [] host h = cc
port_after-front x (c ∷ y) host h = (ground arith, ground arith)

bracketed-NoBrackets :
    (o : Option (Text × Text)) (host : Text)
    → ((x y : Text) → o ≡ some (x, y) → contains_byte b']' x ≡ false)
    → bracketed o ≡ some host
    → NoBrackets host
unfolding bracketed
bracketed-NoBrackets none host front h = cc
bracketed-NoBrackets (some (x, y)) host front h =
    let (same, bare) = port_after-front x y host h in subst NoBrackets same (bare, front x y refl)

plain-NoBrackets : (o : Option (Text × Text)) (host : Text) → plain o ≡ some host → NoBrackets host
unfolding plain
plain-NoBrackets none host h = cc
plain-NoBrackets (some (x, y)) host h = (ground arith, ground arith)

split_host-NoBrackets : (s host : Text) → split_host s ≡ some host → NoBrackets host
unfolding split_host
split_host-NoBrackets [] host h = cc
split_host-NoBrackets (c ∷ s) host h = elim (Bool-cases (c == b'[')) [
  | inl e ↦ bracketed-NoBrackets (cut b']' s) host (cut-front b']' s) (ground arith)
  | inr e ↦ plain-NoBrackets (cut_last b':' (c ∷ s)) host (ground arith)
]

-- An identity that is not empty is counted under a key that is not empty.
pub normalize_identity-nonempty :
    (identity : Text) → is_empty identity ≡ false → is_empty (normalize_identity identity) ≡ false
unfolding normalize_identity
normalize_identity-nonempty identity h = elim (Option-cases (split_host identity)) [
  | inl e ↦ rw e h
  | inr (host, e) ↦ elim (Bool-cases (is_empty host)) [
    | inl none_left ↦ rw (e, none_left) h
    | inr left ↦
        rw (e, left) (rw (trim_brackets-id host (split_host-NoBrackets identity host e)) left)
  ]
]
