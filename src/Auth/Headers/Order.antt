-- ===== src/Auth/Headers/Order.antt =====
-- `ParseHeaders` of internal/auth/auth.go, and the order in which `range` visits the maps.
use mathlib.Core.Path.{subst}
use mathlib.Core.List.{Permᴰ}
use urbino.Base.{
  ◌≤◌, ◌≡◌, refl, sym, ap, ◌∙◌, inl, inr, ◌⊎◌, List, [], ◌∷◌, ◌++◌, arith, length, length-append,
  if◌then◌else◌, Bool-cases,
}
use urbino.Base.Text.{Text, codes}
use urbino.Auth.Headers.{
  ListenerMode, Values, equal_fold, header_values, has_query_credential, authorization_candidate,
  key_candidate, parse_headers,
}

-- Two lists of values that no caller tells apart: they are equal, or both hold more than one value.
abbrev Alike : List Text → List Text → Type 0
Alike xs ys = (xs ≡ ys) ⊎ ((2 ≤ length xs) × (2 ≤ length ys))

Alike-trans : (xs ys zs : List Text) → Alike xs ys → Alike ys zs → Alike xs zs
Alike-trans xs ys zs (inl e) h = subst (λ (l : List Text). Alike l zs) (sym e) h
Alike-trans xs ys zs (inr (a, b)) (inl e) = inr (a, subst (λ (l : List Text). 2 ≤ length l) e b)
Alike-trans xs ys zs (inr (a, b)) (inr (c, d)) = inr (a, d)

Alike-append : (vs xs ys : List Text) → Alike xs ys → Alike (vs ++ xs) (vs ++ ys)
Alike-append vs xs ys (inl e) = inl (ap (λ (l : List Text). vs ++ l) e)
Alike-append vs xs ys (inr (a, b)) =
    inr
      (omega (arith, length-append {A = Text} vs xs), omega (arith, length-append {A = Text} vs ys))

Alike-swap : (vs ws xs : List Text) → Alike (vs ++ (ws ++ xs)) (ws ++ (vs ++ xs))
Alike-swap [] ws xs = inl refl
Alike-swap (v ∷ vs) [] xs = inl refl
Alike-swap (v ∷ vs) (w ∷ ws) xs = inr (
  omega (arith, length-append {A = Text} vs (w ∷ (ws ++ xs)), length-append {A = Text} ws xs),
  omega (arith, length-append {A = Text} ws (v ∷ (vs ++ xs)), length-append {A = Text} vs xs),
)

entry : Text → Text × List Text → List Text → List Text
entry name (key, values) rest = if equal_fold key name then values ++ rest else rest

entry-cons :
    (name : Text) (a : Text × List Text) (xs ys : List Text)
    → Alike xs ys
    → Alike (entry name a xs) (entry name a ys)
unfolding entry
entry-cons name (key, vs) xs ys h = elim (Bool-cases (equal_fold key name)) [
  | inl e ↦ rw e (Alike-append vs xs ys h)
  | inr e ↦ rw e h
]

entry-swap :
    (name : Text) (a b : Text × List Text) (xs : List Text)
    → Alike (entry name a (entry name b xs)) (entry name b (entry name a xs))
unfolding entry
entry-swap name (key, vs) (key', ws) xs = elim (Bool-cases (equal_fold key name)) [
  | inl e ↦ elim (Bool-cases (equal_fold key' name)) [
    | inl e' ↦ rw (e, e') (Alike-swap vs ws xs)
    | inr e' ↦ rw (e, e') (inl refl)
  ]
  | inr e ↦ rw e (inl refl)
]

header_values-perm :
    (name : Text)
    → {headers headers' : Values} → Permᴰ headers headers'
    → Alike (header_values headers name) (header_values headers' name)
unfolding header_values entry
header_values-perm name Permᴰ.nil = inl refl
header_values-perm name (Permᴰ.cons {a = a} {b = b} {l₁ = l} {l₂ = l'} e p) =
    subst
      (λ (c : Text × List Text). Alike (header_values (a ∷ l) name) (header_values (c ∷ l') name)) e
      (entry-cons name a _ _ (header_values-perm name p))
header_values-perm name (Permᴰ.swap {a = a} {b = b} {a' = a'} {b' = b'} {l = l} e f) =
    subst
      (λ (c : Text × List Text).
        Alike (header_values (a ∷ b ∷ l) name) (header_values (a' ∷ c ∷ l) name))
      e
      (subst
        (λ (c : Text × List Text).
          Alike (header_values (a ∷ b ∷ l) name) (header_values (c ∷ a ∷ l) name))
        f (entry-swap name a b (header_values l name)))
header_values-perm name (Permᴰ.trans p q) =
    Alike-trans _ _ _ (header_values-perm name p) (header_values-perm name q)

has_query_credential-perm :
    {query query' : Values}
    → Permᴰ query query'
    → has_query_credential query ≡ has_query_credential query'
unfolding has_query_credential
has_query_credential-perm Permᴰ.nil = refl
has_query_credential-perm (Permᴰ.cons {a = a} {b = b} e p) =
    grind (arith, has_query_credential-perm p, e)
has_query_credential-perm (Permᴰ.swap e f) = ground (arith, e, f)
has_query_credential-perm (Permᴰ.trans p q) =
    has_query_credential-perm p ∙ has_query_credential-perm q

authorization-Alike :
    (xs ys : List Text) → Alike xs ys → authorization_candidate xs ≡ authorization_candidate ys
unfolding authorization_candidate
authorization-Alike xs ys (inl e) = ap authorization_candidate e
authorization-Alike [] ys (inr (a, b)) = absurd (omega (arith, a))
authorization-Alike (x ∷ []) ys (inr (a, b)) = absurd (omega (arith, a))
authorization-Alike (x ∷ y ∷ xs) [] (inr (a, b)) = absurd (omega (arith, b))
authorization-Alike (x ∷ y ∷ xs) (z ∷ []) (inr (a, b)) = absurd (omega (arith, b))
authorization-Alike (x ∷ y ∷ xs) (z ∷ w ∷ ys) (inr (a, b)) = refl

key-Alike : (xs ys : List Text) → Alike xs ys → key_candidate xs ≡ key_candidate ys
unfolding key_candidate
key-Alike xs ys (inl e) = ap key_candidate e
key-Alike [] ys (inr (a, b)) = absurd (omega (arith, a))
key-Alike (x ∷ []) ys (inr (a, b)) = absurd (omega (arith, a))
key-Alike (x ∷ y ∷ xs) [] (inr (a, b)) = absurd (omega (arith, b))
key-Alike (x ∷ y ∷ xs) (z ∷ []) (inr (a, b)) = absurd (omega (arith, b))
key-Alike (x ∷ y ∷ xs) (z ∷ w ∷ ys) (inr (a, b)) = refl

-- The result, credential or error, does not depend on the order of the headers or of the query's
-- values, in which Go's `range` visits the maps.
pub parse_headers_perm :
    {headers headers' query query' : Values} (mode : ListenerMode)
    → Permᴰ headers headers'
    → Permᴰ query query'
    → parse_headers headers query mode ≡ parse_headers headers' query' mode
unfolding parse_headers
parse_headers_perm mode p q =
    rw
      (
        has_query_credential-perm q,
        authorization-Alike _ _ (header_values-perm (codes "Authorization") p),
        key-Alike _ _ (header_values-perm (codes "X-API-Key") p),
        key-Alike _ _ (header_values-perm (codes "X-Goog-Api-Key") p),
      )
      refl
