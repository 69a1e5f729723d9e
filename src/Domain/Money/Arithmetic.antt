-- ===== src/Domain/Money/Arithmetic.antt =====
-- `Money.Add` and `Money.Multiply` of internal/domain/money.go, against the sums and products of numbers.
use native.Mathlib.Nat
use native.Mathlib.Nat.{div-lt_iff_lt-mul}
use urbino.Base.{leb, ℕ, zero, suc, ◌+◌, ◌*◌, ◌/◌, ◌≤◌, ◌<◌, ◌≡◌, arith, ltb, if◌then◌else◌}
use urbino.Base.Text.{text_eq}
use urbino.Base.Int.{pos, ◌+ℤ◌, ◌-ℤ◌, ltb_ℤ}
use urbino.Base.Int64.{int64_of_small, uint64_of_small, max_int64, add_int64}
use urbino.Base.Result.{ok, err}
use urbino.Domain.Money.{
  different_currencies, addition_overflow, multiplication_overflow, Money, validate, add, multiply,
}

-- `Validate` passes an amount of `n` micro-units, which an int64 holds.
pub record IsAmount (m : Money) (n : ℕ) : Type 0 where
  pub valid : validate m ≡ ok tt
  pub micros : m.micros ≡ pos n
  pub fits : n ≤ max_int64

-- The sum as the code forms it, on two amounts.
sum_wraps_not : (a b : ℕ) → a + b ≤ max_int64 → add_int64 (pos a) (pos b) ≡ pos (a + b)
unfolding add_int64 ◌+ℤ◌
sum_wraps_not a b h = ground arith

difference_test :
    (a b : ℕ) → a ≤ max_int64 → ltb_ℤ (pos max_int64 -ℤ pos a) (pos b) ≡ ltb max_int64 (a + b)
unfolding ◌-ℤ◌
difference_test a b h = ground arith

-- Two amounts are added exactly if their currencies are the same text and the sum fits an int64;
-- otherwise the call returns the error for the currencies, or the one for the overflow. No sum ever
-- wraps.
pub add_exact :
    (m k : Money) (a b : ℕ)
    → IsAmount m a
    → IsAmount k b
    → add m k ≡ (
        if text_eq m.currency k.currency
        then (if leb (a + b) max_int64
            then ok (record { currency = m.currency; micros = pos (a + b) })
            else err addition_overflow)
        else err different_currencies)
unfolding add
add_exact m k a b hm hk =
    rw (hm.valid, hk.valid, hm.micros, hk.micros, difference_test a b hm.fits)
      (ground (arith, sum_wraps_not a b))

-- `Add` does not depend on the order of two amounts in one currency.
pub add_comm :
    (m k : Money) (a b : ℕ)
    → IsAmount m a
    → IsAmount k b
    → m.currency ≡ k.currency
    → add m k ≡ add k m
add_comm m k a b hm hk e =
    rw (add_exact m k a b hm hk, add_exact k m b a hk hm, e) (rw (Nat.add_comm a b))

product_test : (a f : ℕ) → 0 < f → ltb (max_int64 / f) a ≡ ltb max_int64 (a * f)
product_test a f h = ground (
  arith,
  (div-lt_iff_lt-mul {k = f} {x = max_int64} {y = a} h).0,
  (div-lt_iff_lt-mul {k = f} {x = max_int64} {y = a} h).1,
)

-- An amount is multiplied exactly if the product fits an int64, and otherwise the call returns the
-- error for the overflow: no product ever wraps.
pub multiply_exact :
    (m : Money) (a factor : ℕ)
    → IsAmount m a
    → multiply m factor ≡ (
        if leb (a * factor) max_int64
        then ok (record { currency = m.currency; micros = pos (a * factor) })
        else err multiplication_overflow)
unfolding multiply
multiply_exact m a zero h =
    rw (h.valid, h.micros, uint64_of_small a h.fits) (ground (arith, int64_of_small (a * 0)))
multiply_exact m a (suc f) h =
    rw (h.valid, h.micros, uint64_of_small a h.fits, product_test a (suc f) (omega arith))
      (ground (arith, int64_of_small (a * suc f)))
