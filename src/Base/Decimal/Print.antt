-- ===== src/Base/Decimal/Print.antt =====
-- Printing numbers in decimal, and reading them back.
use Prim.Native.Nat.{ℕ, zero, suc, ◌+◌, ◌-◌, ◌/◌, ◌%◌, ◌^◌, ◌≤◌, ◌<◌}
use mathlib.Core.Path.{◌≡◌, refl, sym, ap, ◌∙◌}
use mathlib.Core.Logic.{inl, inr}
use mathlib.Core.Bool.{true, false}
use mathlib.Core.List.{[], ◌∷◌, ◌++◌, append_assoc}
use native.Mathlib.Omega.{arith}
use native.Mathlib.Nat.{pow-suc}
use urbino.Base.Tests.{ltb, if◌then◌else◌, Bool-cases}
use urbino.Base.Lists.{length, replicate, length-append, length-replicate}
use urbino.Base.Text.{Text, is_empty}
use urbino.Base.Int.{ℤ, pos, negsuc}
use urbino.Base.Decimal.{
  all_digits, dec_value, dec_value-zeros_append, all_digits-append, all_digits-zeros,
}

-- The digits of `n` before `acc`, with fuel above the number of digits.
digits_before : ℕ → ℕ → Text → Text
digits_before zero n acc = acc
digits_before (suc fuel) n acc =
    let rest = digits_before fuel (n / 10) ((b'0' + n % 10) ∷ acc) in
    if ltb n 10 then (b'0' + n % 10) ∷ acc else rest

-- The verb %d at an unsigned number.
unfoldable pub format_uint : ℕ → Text
unfolding digits_before
format_uint n = digits_before (suc n) n []

-- The verb %d at a signed number.
unfoldable pub format_int : ℤ → Text
unfolding format_uint
format_int (pos n) = format_uint n
format_int (negsuc n) = b'-' ∷ format_uint (suc n)

abbrev pub pad_zeros : ℕ → Text → Text
pad_zeros width s = replicate (width - length s) b'0' ++ s

-- The verb %06d: the sign counts for the width.
unfoldable pub format_int06 : ℤ → Text
unfolding format_uint
format_int06 (pos n) = pad_zeros 6 (format_uint n)
format_int06 (negsuc n) = b'-' ∷ pad_zeros 5 (format_uint (suc n))

digits_before-append :
    (fuel n : ℕ) (acc : Text) → digits_before fuel n acc ≡ digits_before fuel n [] ++ acc
unfolding digits_before
digits_before-append zero n acc = refl
digits_before-append (suc fuel) n acc = elim (Bool-cases (ltb n 10)) [
  | inl e ↦ rw e refl
  | inr e ↦ rw e (
      digits_before-append fuel (n / 10) ((b'0' + n % 10) ∷ acc)
      ∙ sym (append_assoc (digits_before fuel (n / 10) []) ((b'0' + n % 10) ∷ []) acc)
      ∙ ap (λ (s : Text). s ++ acc)
          (sym (digits_before-append fuel (n / 10) ((b'0' + n % 10) ∷ []))))
]

digits_before-value :
    (fuel n : ℕ) (acc : Text) → n < fuel → dec_value 0 (digits_before fuel n acc) ≡ dec_value n acc
unfolding digits_before dec_value
digits_before-value zero n acc h = elim h [ ]
digits_before-value (suc fuel) n acc h = elim (Bool-cases (ltb n 10)) [
  | inl e ↦ rw e (ap (λ (m : ℕ). dec_value m acc) (ground arith))
  | inr e ↦ rw e (
      digits_before-value fuel (n / 10) ((b'0' + n % 10) ∷ acc) (ground arith)
      ∙ ap (λ (m : ℕ). dec_value m acc) (omega arith))
]

digits_before-digits :
    (fuel n : ℕ) (acc : Text) → all_digits acc ≡ true → all_digits (digits_before fuel n acc) ≡ true
unfolding digits_before all_digits
digits_before-digits zero n acc h = h
digits_before-digits (suc fuel) n acc h =
    ground (arith, digits_before-digits fuel (n / 10) ((b'0' + n % 10) ∷ acc))

digits_before-nonempty :
    (fuel n : ℕ) (d : ℕ) (acc : Text) → is_empty (digits_before fuel n (d ∷ acc)) ≡ false
unfolding digits_before
digits_before-nonempty zero n d acc = refl
digits_before-nonempty (suc fuel) n d acc =
    ground (arith, digits_before-nonempty fuel (n / 10) (b'0' + n % 10) (d ∷ acc))

-- A number below 10 ^ (suc k) has at most k + 1 digits.
digits_before-length :
    (fuel n k : ℕ) (acc : Text)
    → n < 10 ^ suc k
    → length (digits_before fuel n acc) ≤ suc k + length acc
unfolding digits_before
digits_before-length zero n k acc h = omega arith
digits_before-length (suc fuel) n zero acc h = ground (arith, pow-suc 10 0)
digits_before-length (suc fuel) n (suc k) acc h =
    ground (arith, digits_before-length fuel (n / 10) k ((b'0' + n % 10) ∷ acc), pow-suc 10 (suc k))

-- Printed numbers are not empty, hold digits only, and read back as themselves.
pub format_uint-value : (n : ℕ) → dec_value 0 (format_uint n) ≡ n
unfolding format_uint dec_value
format_uint-value n = digits_before-value (suc n) n [] (omega arith)

pub format_uint-digits : (n : ℕ) → all_digits (format_uint n) ≡ true
unfolding format_uint all_digits
format_uint-digits n = digits_before-digits (suc n) n [] refl

pub format_uint-nonempty : (n : ℕ) → is_empty (format_uint n) ≡ false
unfolding format_uint
format_uint-nonempty n = ground (arith, digits_before-nonempty n (n / 10) (b'0' + n % 10) [])

pub format_uint-length : (n k : ℕ) → n < 10 ^ suc k → length (format_uint n) ≤ suc k
unfolding format_uint
format_uint-length n k h = omega (arith, digits_before-length (suc n) n k [] h)

-- Padding to six places keeps digits and value, and gives six bytes.
pub pad_zeros-digits : (w : ℕ) (s : Text) → all_digits s ≡ true → all_digits (pad_zeros w s) ≡ true
pad_zeros-digits w s h =
    all_digits-append (replicate (w - length s) b'0') s (all_digits-zeros (w - length s)) h

pub pad_zeros-length : (w : ℕ) (s : Text) → length s ≤ w → length (pad_zeros w s) ≡ w
pad_zeros-length w s h = omega (
  arith,
  length-append {A = ℕ} (replicate (w - length s) b'0') s,
  length-replicate {A = ℕ} (w - length s) b'0',
)

pub pad_zeros-value : (w : ℕ) (s : Text) → dec_value 0 (pad_zeros w s) ≡ dec_value 0 s
pad_zeros-value w s = dec_value-zeros_append (w - length s) s
