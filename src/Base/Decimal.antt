-- ===== src/Base/Decimal.antt =====
-- Decimal text: `strconv.ParseUint` in base 10, and the verbs %d and %06d of `fmt`.
pub mod Print
use urbino.Base.Tests.{ltb, leb, if◌then◌else◌, Bool-cases}
use urbino.Base.Lists.{length, replicate, length-append, length-replicate}
use urbino.Base.Text.{Text, is_empty, All, All-append}
use urbino.Base.Space.{IsGraphic}
use Prim.Native.Nat.{ℕ, zero, suc, ◌+◌, ◌-◌, ◌*◌, ◌/◌, ◌%◌, ◌^◌, ◌≤◌, ◌<◌}
use mathlib.Core.Path.{◌≡◌, refl, sym, ap, ◌∙◌}
use mathlib.Core.Logic.{inl, inr}
use mathlib.Core.Bool.{Bool, true, false, ◌&&◌}
use mathlib.Core.Option.{Option, none, some}
use mathlib.Core.List.{List, [], ◌∷◌, ◌++◌}
use native.Mathlib.Nat.{pow-zero, pow-succ', mul_assoc, mul_comm, add-zero}
use native.Mathlib.Omega.{arith}

abbrev pub is_digit : ℕ → Bool
is_digit c = leb b'0' c && leb c b'9'

unfoldable pub all_digits : Text → Bool
all_digits [] = true
all_digits (c ∷ s) = is_digit c && all_digits s

-- The number that digits stand for, behind a number read before.
unfoldable pub dec_value : ℕ → Text → ℕ
dec_value acc [] = acc
dec_value acc (c ∷ s) = dec_value (acc * 10 + (c - b'0')) s

-- `strconv.ParseUint(s, 10, bits)`: `none` is a syntax or range error.
unfoldable pub parse_uint : ℕ → Text → Option ℕ
parse_uint bits s =
    if is_empty s
    then none
    else if all_digits s
    then (if ltb (dec_value 0 s) (2 ^ bits) then some (dec_value 0 s) else none)
    else none

-- `n` with `k` zeros behind it.
scale : ℕ → ℕ → ℕ
scale zero n = n
scale (suc k) n = scale k (n * 10)

scale-eq : (k n : ℕ) → scale k n ≡ n * 10 ^ k
unfolding scale
scale-eq zero n = omega (arith, pow-zero 10)
scale-eq (suc k) n =
    scale-eq k (n * 10) ∙ mul_assoc n 10 (10 ^ k) ∙ ap (λ (m : ℕ). n * m) (sym (pow-succ' 10 k))

scale_mono : (k a b : ℕ) → a ≤ b → scale k a ≤ scale k b
unfolding scale
scale_mono zero a b h = h
scale_mono (suc k) a b h = scale_mono k (a * 10) (b * 10) (omega arith)

le-scale : (k a : ℕ) → a ≤ scale k a
unfolding scale
le-scale zero a = omega arith
le-scale (suc k) a = omega (arith, le-scale k (a * 10))

pub dec_value-append :
    (acc : ℕ) (s t : Text) → dec_value acc (s ++ t) ≡ dec_value (dec_value acc s) t
unfolding dec_value
dec_value-append acc [] t = refl
dec_value-append acc (c ∷ s) t = dec_value-append (acc * 10 + (c - b'0')) s t

dec_value-zeros : (acc k : ℕ) → dec_value acc (replicate k b'0') ≡ scale k acc
unfolding dec_value scale
dec_value-zeros acc zero = refl
dec_value-zeros acc (suc k) =
    ap (λ (n : ℕ). dec_value n (replicate k b'0')) (add-zero (acc * 10))
    ∙ dec_value-zeros (acc * 10) k

-- Zeros behind the digits multiply by powers of ten, zeros before them change nothing.
pub dec_value-append_zeros :
    (s : Text) (k : ℕ) → dec_value 0 (s ++ replicate k b'0') ≡ dec_value 0 s * 10 ^ k
dec_value-append_zeros s k =
    dec_value-append 0 s (replicate k b'0')
    ∙ dec_value-zeros (dec_value 0 s) k
    ∙ scale-eq k (dec_value 0 s)

pub dec_value-zeros_append :
    (k : ℕ) (s : Text) → dec_value 0 (replicate k b'0' ++ s) ≡ dec_value 0 s
unfolding dec_value
dec_value-zeros_append zero s = refl
dec_value-zeros_append (suc k) s = dec_value-zeros_append k s

dec_value-lt_scale :
    (acc : ℕ) (s : Text) → all_digits s ≡ true → dec_value acc s < scale (length s) (suc acc)
unfolding dec_value all_digits scale
dec_value-lt_scale acc [] h = omega arith
dec_value-lt_scale acc (c ∷ s) h = ground (
  arith,
  dec_value-lt_scale (acc * 10 + (c - b'0')) s,
  scale_mono (length s) (suc (acc * 10 + (c - b'0'))) (suc acc * 10),
)

-- `k` digits stand for a number below the k-th power of ten.
pub dec_value-lt : (s : Text) → all_digits s ≡ true → dec_value 0 s < 10 ^ length s
dec_value-lt s h = omega (arith, dec_value-lt_scale 0 s h, scale-eq (length s) 1)

pub le-dec_value : (acc : ℕ) (s : Text) → acc ≤ dec_value acc s
unfolding dec_value
le-dec_value acc [] = omega arith
le-dec_value acc (c ∷ s) = omega (arith, le-dec_value (acc * 10 + (c - b'0')) s)

pub all_digits-append :
    (s t : Text) → all_digits s ≡ true → all_digits t ≡ true → all_digits (s ++ t) ≡ true
unfolding all_digits
all_digits-append [] t h k = k
all_digits-append (c ∷ s) t h k = ground (arith, all_digits-append s t)

pub all_digits-zeros : (k : ℕ) → all_digits (replicate k b'0') ≡ true
unfolding all_digits
all_digits-zeros zero = refl
all_digits-zeros (suc k) = all_digits-zeros k

-- Digits are graphic, and none is a point.
pub All-IsGraphic_of_digits : (s : Text) → all_digits s ≡ true → All IsGraphic s
unfolding all_digits
All-IsGraphic_of_digits [] h = tt
All-IsGraphic_of_digits (c ∷ s) h = (ground arith, All-IsGraphic_of_digits s (ground arith))
