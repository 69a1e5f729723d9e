-- ===== src/Domain/Money/RoundTrip.antt =====
-- `Money.String` of internal/domain/money.go, read back by `ParseMoney`.
use mathlib.Core.Path.{subst}
use urbino.Base.{
  ℕ, ◌+◌, ◌*◌, ◌/◌, ◌%◌, ◌^◌, ◌-◌, ◌⊎◌, inl, inr, ◌≤◌, ◌≡◌, refl, ◌∙◌, true, [], ◌∷◌, ◌++◌, length,
  arith, reverse,
}
use urbino.Base.Text.{Text, All, All-append, All-reverse, codes, text_eq, text_eq_iff}
use urbino.Base.Space.{IsGraphic, IsHeadGraphic, trim_space, trim_space_id, to_upper}
use urbino.Base.Int.{pos}
use urbino.Base.Int64.{max_int64}
use urbino.Base.Decimal.{dec_value, All-IsGraphic_of_digits}
use urbino.Base.Decimal.Print.{
  format_uint, format_int, format_int06, pad_zeros, format_uint-digits, format_uint-nonempty,
  format_uint-value, format_uint-length, pad_zeros-digits, pad_zeros-length, pad_zeros-value,
}
use urbino.Base.Result.{ok}
use urbino.Domain.Money.{Money, is_supported, parse_currency, parse_money, to_string}
use urbino.Domain.Money.Parse.{Decimal, parse_money-Decimal}

head_of_All : (s : Text) → All IsGraphic s → IsHeadGraphic s
head_of_All [] h = tt
head_of_All (c ∷ s) h = h.0

-- Text of graphic bytes only has nothing to trim.
trim_space-graphic : (s : Text) → All IsGraphic s → trim_space s ≡ s
trim_space-graphic s h =
    trim_space_id s (head_of_All s h) (head_of_All (reverse s) (All-reverse IsGraphic s h))

printed : ℕ → Text
printed n = format_uint (n / 1000000) ++ b'.' ∷ pad_zeros 6 (format_uint (n % 1000000))

printed-Decimal : (n : ℕ) → Decimal (printed n) n
unfolding printed
printed-Decimal n = subst (Decimal (printed n)) value (
    Decimal.point w f (format_uint-nonempty (n / 1000000)) (format_uint-digits (n / 1000000))
      (pad_zeros-digits 6 _ (format_uint-digits (n % 1000000))) (omega (arith, six)))
  where
    w : Text
    w = format_uint (n / 1000000)

    f : Text
    f = pad_zeros 6 (format_uint (n % 1000000))

    six : length f ≡ 6
    six = pad_zeros-length 6 _ (format_uint-length (n % 1000000) 5 (omega arith))

    one : (k : ℕ) → k ≡ 6 → 10 ^ (6 - k) ≡ 1
    one k e = rw e refl

    value : dec_value 0 w * 1000000 + dec_value 0 f * 10 ^ (6 - length f) ≡ n
    value = rw (one (length f) six) (
        omega (
          arith,
          format_uint-value (n / 1000000),
          format_uint-value (n % 1000000),
          pad_zeros-value 6 (format_uint (n % 1000000)),
        ))

printed-IsGraphic : (n : ℕ) → All IsGraphic (printed n)
unfolding printed
printed-IsGraphic n = All-append IsGraphic (format_uint (n / 1000000)) _ (
  All-IsGraphic_of_digits _ (format_uint-digits (n / 1000000)),
  (
    omega arith,
    All-IsGraphic_of_digits _ (pad_zeros-digits 6 _ (format_uint-digits (n % 1000000))),
  ),
)

supported_cases :
    (c : Text)
    → is_supported c ≡ true
    → (c ≡ codes "CNY")
      ⊎ (c ≡ codes "EUR")
      ⊎ (c ≡ codes "GBP")
      ⊎ (c ≡ codes "JPY")
      ⊎ (c ≡ codes "USD")
unfolding is_supported
supported_cases c h = ground (
  arith,
  text_eq_iff c (codes "CNY"),
  text_eq_iff c (codes "EUR"),
  text_eq_iff c (codes "GBP"),
  text_eq_iff c (codes "JPY"),
  text_eq_iff c (codes "USD"),
)

-- A supported currency is read as itself.
parse_currency_supported : (c : Text) → is_supported c ≡ true → parse_currency c ≡ ok c
unfolding parse_currency trim_space to_upper text_eq
parse_currency_supported c h = elim (supported_cases c h) [
  | inl e ↦ rw e refl
  | inr (inl e) ↦ rw e refl
  | inr (inr (inl e)) ↦ rw e refl
  | inr (inr (inr (inl e))) ↦ rw e refl
  | inr (inr (inr (inr e))) ↦ rw e refl
]

-- An amount in a supported currency that an int64 holds is printed as its currency, a blank and a
-- number, and `ParseMoney` reads that number back as the same amount.
pub parse_money-to_string :
    (m : Money) (n : ℕ)
    → is_supported m.currency ≡ true
    → m.micros ≡ pos n
    → n ≤ max_int64
    → (text : Text) × (to_string m ≡ m.currency ++ b' ' ∷ text)
      × (parse_money m.currency text ≡ ok m)
unfolding to_string
parse_money-to_string m n s e h = (
  printed n,
  rw e (unfold printed format_int format_int06 in refl),
  parse_money-Decimal m.currency (printed n) m.currency n (parse_currency_supported m.currency s)
        (rw (trim_space-graphic (printed n) (printed-IsGraphic n)) (printed-Decimal n))
      ∙ ground arith,
)
