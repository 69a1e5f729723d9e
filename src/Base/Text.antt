-- ===== src/Base/Text.antt =====
-- Go strings as lists of bytes, with the parts of the package `strings` that the program calls.
use Prim.Native.Char.{code}
use Prim.Native.String.{String}
use urbino.Base.Tests.{Bool-cases, ◌==◌, if◌then◌else◌, ==_iff}
use urbino.Base.Lists.{length, drop}
use Prim.Native.Nat.{ℕ}
use mathlib.Core.Path.{◌≡◌, refl}
use mathlib.Core.Logic.{◌↔◌, inl, inr}
use mathlib.Core.Bool.{Bool, true, false, ◌&&◌, ◌||◌}
use mathlib.Core.List.{List, [], ◌∷◌, ◌++◌, reverse, reverse_aux}
use native.Mathlib.Omega.{arith}

abbrev pub Text : Type 0
Text = List ℕ

-- The bytes of a literal, which is ASCII wherever this is used.
abbrev pub codes : String → Text
codes String.[] = []
codes (String.◌∷◌ c s) = code c ∷ codes s

-- `s == t` on strings.
unfoldable pub text_eq : Text → Text → Bool
text_eq [] [] = true
text_eq [] (d ∷ t) = false
text_eq (c ∷ s) [] = false
text_eq (c ∷ s) (d ∷ t) = (c == d) && text_eq s t

pub text_eq_refl : (s : Text) → text_eq s s ≡ true
unfolding text_eq
text_eq_refl [] = refl
text_eq_refl (c ∷ s) = ground (arith, text_eq_refl s)

pub eq_of_text_eq : (s t : Text) → text_eq s t ≡ true → s ≡ t
unfolding text_eq
eq_of_text_eq [] [] h = refl
eq_of_text_eq [] (d ∷ t) h = ground arith
eq_of_text_eq (c ∷ s) [] h = ground arith
eq_of_text_eq (c ∷ s) (d ∷ t) h = ground (arith, eq_of_text_eq s t)

pub text_eq_of_eq : (s t : Text) → s ≡ t → text_eq s t ≡ true
text_eq_of_eq s t e = rw e (text_eq_refl t)

pub text_eq_iff : (s t : Text) → (text_eq s t ≡ true) ↔ (s ≡ t)
text_eq_iff s t = (eq_of_text_eq s t, text_eq_of_eq s t)

abbrev pub is_empty : Text → Bool
is_empty [] = true
is_empty (c ∷ s) = false

-- `strings.HasPrefix`.
unfoldable pub has_prefix : Text → Text → Bool
has_prefix s [] = true
has_prefix [] (p ∷ ps) = false
has_prefix (c ∷ s) (p ∷ ps) = (c == p) && has_prefix s ps

-- `strings.TrimPrefix`.
unfoldable pub trim_prefix : Text → Text → Text
trim_prefix s p = if has_prefix s p then drop (length p) s else s

pub has_prefix-append : (p s : Text) → has_prefix (p ++ s) p ≡ true
unfolding has_prefix
has_prefix-append [] s = refl
has_prefix-append (c ∷ p) s = ground (arith, has_prefix-append p s)

pub drop-append : (p s : Text) → drop (length p) (p ++ s) ≡ s
drop-append [] s = refl
drop-append (c ∷ p) s = drop-append p s

pub append-drop : (s p : Text) → has_prefix s p ≡ true → p ++ drop (length p) s ≡ s
unfolding has_prefix
append-drop s [] h = refl
append-drop [] (c ∷ p) h = ground arith
append-drop (d ∷ s) (c ∷ p) h = ground (arith, append-drop s p)

-- Whether a byte occurs, `strings.IndexByte(s, c) >= 0`.
unfoldable pub contains_byte : ℕ → Text → Bool
contains_byte c [] = false
contains_byte c (d ∷ s) = (d == c) || contains_byte c s

-- `strings.Split(s, sep)` with a separator of one byte: never empty, the pieces in order.
abbrev pub cons_first : ℕ → List Text → List Text
cons_first c [] = (c ∷ []) ∷ []
cons_first c (p ∷ ps) = (c ∷ p) ∷ ps

unfoldable pub split_byte : ℕ → Text → List Text
split_byte sep [] = [] ∷ []
split_byte sep (c ∷ s) =
    let rest = split_byte sep s in if c == sep then [] ∷ rest else cons_first c rest

-- A piece without the separator ends where the separator stands.
pub split_byte_one : (sep : ℕ) (a : Text) → contains_byte sep a ≡ false → split_byte sep a ≡ a ∷ []
unfolding split_byte contains_byte
split_byte_one sep [] h = refl
split_byte_one sep (c ∷ a) h = ground (arith, split_byte_one sep a)

pub split_byte_next :
    (sep : ℕ) (a s : Text)
    → contains_byte sep a ≡ false
    → split_byte sep (a ++ sep ∷ s) ≡ a ∷ split_byte sep s
unfolding split_byte contains_byte
split_byte_next sep [] s h = ground arith
split_byte_next sep (c ∷ a) s h = ground (arith, split_byte_next sep a s)

-- The shape of a text from its pieces.
pub data Pieces (sep : ℕ) : Text → List Text → Type 0 where
  last : (a : Text) → contains_byte sep a ≡ false → Pieces sep a (a ∷ [])
  next :
      (a s : Text) (ps : List Text)
      → contains_byte sep a ≡ false
      → Pieces sep s ps
      → Pieces sep (a ++ sep ∷ s) (a ∷ ps)

Pieces-cons_first :
    (sep c : ℕ) (s : Text) (ps : List Text)
    → (c == sep) ≡ false
    → Pieces sep s ps
    → Pieces sep (c ∷ s) (cons_first c ps)
unfolding contains_byte
Pieces-cons_first sep c _ _ h (last a n) = last (c ∷ a) (ground arith)
Pieces-cons_first sep c _ _ h (next a s ps n p) = next (c ∷ a) s ps (ground arith) p

split_byte-Pieces_skip :
    (sep c : ℕ) (s : Text) (ps : List Text)
    → c ≡ sep
    → Pieces sep s ps
    → Pieces sep (c ∷ s) ([] ∷ ps)
unfolding contains_byte
split_byte-Pieces_skip sep c s ps e p = rw e (next [] s ps refl p)

pub split_byte-Pieces : (sep : ℕ) (s : Text) → Pieces sep s (split_byte sep s)
unfolding split_byte contains_byte
split_byte-Pieces sep [] = last [] refl
split_byte-Pieces sep (c ∷ s) = elim (Bool-cases (c == sep)) [
  | inl e ↦ rw e (
      split_byte-Pieces_skip sep c s (split_byte sep s) ((==_iff c sep).0 e)
        (split_byte-Pieces sep s))
  | inr e ↦ rw e (Pieces-cons_first sep c s (split_byte sep s) e (split_byte-Pieces sep s))
]

-- An element of a list, by the place where it stands.
pub data IsIn {A : Type 0} (x : A) : List A → Type 0 where
  is_here : (xs : List A) → IsIn x (x ∷ xs)
  is_there_in : (y : A) (xs : List A) → IsIn x xs → IsIn x (y ∷ xs)

-- A property of every element, as a tuple.
abbrev pub All {ℓ κ} : {A : Type ℓ} → (A → Type κ) → List A → Type κ
All P [] = Unit
All P (x ∷ xs) = P x × All P xs

pub IsIn-All : {A : Type 0} (P : A → Type 0) (x : A) (xs : List A) → All P xs → IsIn x xs → P x
IsIn-All P x _ all (is_here xs) = all.0
IsIn-All P x _ all (is_there_in y xs h) = IsIn-All P x xs all.1 h

pub All-append {ℓ κ} :
    {A : Type ℓ} (P : A → Type κ) (front back : List A)
    → All P front × All P back
    → All P (front ++ back)
All-append P [] back (_, q) = q
All-append P (a ∷ front) back ((p, ps), q) = (p, All-append P front back (ps, q))

All-reverse_aux {ℓ κ} :
    {A : Type ℓ} (P : A → Type κ) (xs ys : List A) → All P xs → All P ys → All P (reverse_aux xs ys)
All-reverse_aux P [] ys hx hy = hy
All-reverse_aux P (x ∷ xs) ys hx hy = All-reverse_aux P xs (x ∷ ys) hx.1 (hx.0, hy)

pub All-reverse {ℓ κ} : {A : Type ℓ} (P : A → Type κ) (xs : List A) → All P xs → All P (reverse xs)
All-reverse P xs h = All-reverse_aux P xs [] h tt
