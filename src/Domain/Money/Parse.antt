-- ===== src/Domain/Money/Parse.antt =====
-- What `ParseMoney` of internal/domain/money.go accepts, against decimal notation.
use mathlib.Core.Path.{sym, subst}
use urbino.Base.{
  inr, inl, List, ℕ, ◌+◌, ◌-◌, ◌*◌, ◌^◌, ◌%◌, ◌≤◌, ◌<◌, ◌≡◌, refl, ap, ◌∙◌, true, false, [], ◌∷◌,
  ◌++◌, leb, if◌then◌else◌, length, replicate, arith, length-append, length-replicate,
}
use urbino.Base.Text.{
  split_byte-Pieces, split_byte_next, split_byte_one, Pieces, split_byte, codes, has_prefix,
  contains_byte, Text, is_empty,
}
use urbino.Base.Int.{pos}
use urbino.Base.Int64.{max_int64, int64_of}
use urbino.Base.Decimal.{
  all_digits, dec_value, parse_uint, dec_value-lt, le-dec_value, dec_value-append_zeros,
  all_digits-append, all_digits-zeros,
}
use urbino.Base.Result.{Result-cases, Result, ok, err}
use urbino.Domain.Money.{
  parse_currency, trim_space, parse_money, parse_parts, check_parts, Money, MoneyError,
  parse_overflow, parse_digits, parse_digits_from, micros_of,
}

-- Decimal notation with at most six places, and the micro-units that it stands for.
pub data Decimal : Text → ℕ → Type 0 where
  whole :
      (w : Text) → is_empty w ≡ false → all_digits w ≡ true → Decimal w (dec_value 0 w * 1000000)
  point :
      (w f : Text)
      → is_empty w ≡ false
      → all_digits w ≡ true
      → all_digits f ≡ true
      → length f ≤ 6
      → Decimal (w ++ b'.' ∷ f) (dec_value 0 w * 1000000 + dec_value 0 f * 10 ^ (6 - length f))

-- What an amount of `n` micro-units is read as.
abbrev pub amount : Text → ℕ → Result MoneyError Money
amount currency n =
    if leb n max_int64
    then ok (record { currency = currency; micros = pos n })
    else err parse_overflow

-- The uint64 accumulator does not wrap while the value fits.
parse_digits_from-eq :
    (acc : ℕ) (s : Text)
    → all_digits s ≡ true
    → dec_value acc s < 2 ^ 64
    → parse_digits_from acc s ≡ dec_value acc s
unfolding parse_digits_from dec_value all_digits
parse_digits_from-eq acc [] d h = refl
parse_digits_from-eq acc (c ∷ s) d h =
    ap (λ (n : ℕ). parse_digits_from n s) step
    ∙ parse_digits_from-eq (acc * 10 + (c - b'0')) s (ground arith) h
  where
    step : (acc * 10 + (c + 2 ^ 64 - b'0') % 2 ^ 64) % 2 ^ 64 ≡ acc * 10 + (c - b'0')
    step = ground (arith, le-dec_value (acc * 10 + (c - b'0')) s)

-- The digits of a fraction, filled up to six places.
fraction_value :
    (f : Text)
    → all_digits f ≡ true
    → length f ≤ 6
    → (parse_digits (f ++ replicate (6 - length f) b'0') ≡ dec_value 0 f * 10 ^ (6 - length f))
      × (dec_value 0 f * 10 ^ (6 - length f) < 1000000)
unfolding parse_digits
fraction_value f d h =
    let zeros : Text = replicate (6 - length f) b'0' in
    let filled : all_digits (f ++ zeros) ≡ true =
      all_digits-append f zeros d (all_digits-zeros (6 - length f)) in
    let size : length (f ++ zeros) ≡ 6 =
      omega (arith, length-append {A = ℕ} f zeros, length-replicate {A = ℕ} (6 - length f) b'0') in
    let bound : dec_value 0 (f ++ zeros) < 1000000 =
      subst (λ (k : ℕ). dec_value 0 (f ++ zeros) < 10 ^ k) size
        (dec_value-lt (f ++ zeros) filled) in
    let value = dec_value-append_zeros f (6 - length f) in
    (parse_digits_from-eq 0 (f ++ zeros) filled (omega arith) ∙ value, omega (arith, value))

micros_of-amount :
    (c w f : Text)
    → is_empty w ≡ false
    → all_digits w ≡ true
    → all_digits f ≡ true
    → length f ≤ 6
    → micros_of c w f ≡ amount c (dec_value 0 w * 1000000 + dec_value 0 f * 10 ^ (6 - length f))
unfolding micros_of parse_uint int64_of
micros_of-amount c w f e dw df h =
    ground (arith, (fraction_value f df h).0, (fraction_value f df h).1)

no_point : (w : Text) → all_digits w ≡ true → contains_byte b'.' w ≡ false
unfolding all_digits contains_byte
no_point [] h = refl
no_point (c ∷ w) h = ground (arith, no_point w)

-- The tests on the parts pass exactly for decimal parts.
check_parts-amount :
    (c v w f : Text)
    → is_empty w ≡ false
    → all_digits w ≡ true
    → all_digits f ≡ true
    → length f ≤ 6
    → check_parts c v w f ≡ amount c (dec_value 0 w * 1000000 + dec_value 0 f * 10 ^ (6 - length f))
unfolding check_parts
check_parts-amount c v w f e dw df h = ground (arith, micros_of-amount c w f e dw df h)

check_parts_sound :
    (c v w f : Text) {m : Money}
    → check_parts c v w f ≡ ok m
    → (is_empty w ≡ false) × (all_digits w ≡ true) × (all_digits f ≡ true) × (length f ≤ 6)
unfolding check_parts
check_parts_sound c v w f h = ground arith

whole_only :
    (w : Text) → dec_value 0 w * 1000000 + dec_value 0 [] * 10 ^ (6 - 0) ≡ dec_value 0 w * 1000000
unfolding dec_value
whole_only w = omega arith

parse_parts-amount :
    (c v t : Text) (n : ℕ) → Decimal t n → parse_parts c v (split_byte b'.' t) ≡ amount c n
unfolding parse_parts
parse_parts-amount c v _ _ (Decimal.whole w e d) = rw (split_byte_one b'.' w (no_point w d)) (
    check_parts-amount c v w [] e d (unfold all_digits in refl) (omega arith)
    ∙ ap (amount c) (whole_only w))
parse_parts-amount c v _ _ (Decimal.point w f e dw df h) =
    rw (split_byte_next b'.' w f (no_point w dw), split_byte_one b'.' f (no_point f df))
      (check_parts-amount c v w f e dw df h)

-- A decimal begins with a digit, so it is not empty and has no sign.
unsigned :
    (t : Text) (n : ℕ)
    → Decimal t n
    → (is_empty t ≡ false) × (has_prefix t (codes "-") ≡ false) × (has_prefix t (codes "+") ≡ false)
unfolding has_prefix all_digits
unsigned _ _ (Decimal.whole [] e d) = cc
unsigned _ _ (Decimal.whole (c ∷ w) e d) = ground arith
unsigned _ _ (Decimal.point [] f e dw df h) = cc
unsigned _ _ (Decimal.point (c ∷ w) f e dw df h) = ground arith

-- An amount in decimal notation with at most six places is read as exactly the micro-units that it
-- stands for, whatever white space is around it, and is refused as an overflow exactly when these
-- pass the largest int64. The currency must be one that is read.
pub parse_money-Decimal :
    (currency text c : Text) (n : ℕ)
    → parse_currency currency ≡ ok c
    → Decimal (trim_space text) n
    → parse_money currency text ≡ amount c n
unfolding parse_money
parse_money-Decimal currency text c n p d =
    let u = unsigned (trim_space text) n d in
    rw (p, u.0, u.1, u.2) (parse_parts-amount c (trim_space text) (trim_space text) n d)

amount_sound :
    (c : Text) (n : ℕ) (m : Money)
    → amount c n ≡ ok m
    → (n ≤ max_int64) × (m ≡ record { currency = c; micros = pos n })
amount_sound c n m h = (ground arith, ground arith)

parse_parts_sound :
    (c v t : Text) (ps : List Text) (m : Money)
    → Pieces b'.' t ps
    → parse_parts c v ps ≡ ok m
    → (n : ℕ) × Decimal t n × (amount c n ≡ ok m)
unfolding parse_parts
parse_parts_sound c v _ _ m (Pieces.last a np) h =
    let (e, dw, df, len) = check_parts_sound c v a [] h in
    (
      dec_value 0 a * 1000000,
      Decimal.whole a e dw,
      sym (check_parts-amount c v a [] e dw df len ∙ ap (amount c) (whole_only a)) ∙ h,
    )
parse_parts_sound c v _ _ m (Pieces.next a _ _ np (Pieces.last b no')) h =
    let (e, dw, df, len) = check_parts_sound c v a b h in
    (_, Decimal.point a b e dw df len, sym (check_parts-amount c v a b e dw df len) ∙ h)
parse_parts_sound c v _ _ m (Pieces.next a _ _ np (Pieces.next b _ _ no' (Pieces.last d np''))) h =
    cc
parse_parts_sound c v _ _ m
      (Pieces.next a _ _ np (Pieces.next b _ _ no' (Pieces.next d _ _ np'' r))) h =
    cc

-- Whatever `ParseMoney` accepts is decimal notation with at most six places, and the result is the
-- exact number of micro-units, an int64, in the currency that was read.
pub parse_money_sound :
    (currency text : Text) (m : Money)
    → parse_money currency text ≡ ok m
    → (n : ℕ) × Decimal (trim_space text) n
      × (n ≤ max_int64)
      × (m.micros ≡ pos n)
      × (parse_currency currency ≡ ok m.currency)
unfolding parse_money
parse_money_sound currency text m h = elim (Result-cases (parse_currency currency)) [
  | inl (c, p) ↦
      (let rest : parse_parts c (trim_space text) (split_byte b'.' (trim_space text)) ≡ ok m =
          ground (arith, p) in
        let (n, d, a) =
          parse_parts_sound c (trim_space text) (trim_space text)
            (split_byte b'.' (trim_space text)) m (split_byte-Pieces b'.' (trim_space text)) rest in
        let (le, same) = amount_sound c n m a in
        (
          n,
          d,
          le,
          ap (λ (x : Money). x.micros) same,
          p ∙ ap (λ (x : Money). ok x.currency) (sym same),
        ))
  | inr (x, p) ↦ cc p
]
