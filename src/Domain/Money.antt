-- ===== src/Domain/Money.antt =====
-- internal/domain/money.go: currencies, and amounts in micro-units of an int64.
pub mod Parse
pub mod Arithmetic
pub mod RoundTrip
use urbino.Base.{
  ℕ, suc, ◌+◌, ◌-◌, ◌*◌, ◌/◌, ◌%◌, ◌^◌, Bool, ◌&&◌, ◌||◌, not, List, [], ◌∷◌, ◌++◌, none, some, ltb,
  ◌==◌, if◌then◌else◌, length, replicate,
}
use urbino.Base.Text.{Text, codes, text_eq, is_empty, has_prefix, split_byte}
use urbino.Base.Space.{trim_space, to_upper}
use urbino.Base.Int.{ℤ, pos, negsuc, ltb_ℤ, ◌-ℤ◌}
use urbino.Base.Int64.{max_int64, int64_of, uint64_of, is_negative, add_int64}
use urbino.Base.Decimal.{all_digits, parse_uint}
use urbino.Base.Decimal.Print.{format_int, format_int06}
use urbino.Base.Result.{Result, ok, err, ◌>>=◌, ◌>>◌}

pub data MoneyError : Type 0 where
  invalid_currency : Text → MoneyError
  negative_money not_decimal too_precise parse_overflow : MoneyError
  invalid_money : Text → MoneyError
  different_currencies addition_overflow multiplication_overflow : MoneyError

-- `supportedCurrencies`.
unfoldable pub is_supported : Text → Bool
is_supported c =
    text_eq c (codes "CNY")
    || text_eq c (codes "EUR")
    || text_eq c (codes "GBP")
    || text_eq c (codes "JPY")
    || text_eq c (codes "USD")

unfoldable pub parse_currency : Text → Result MoneyError Text
unfolding is_supported
parse_currency value =
    let currency = to_upper (trim_space value) in
    if not (is_supported currency) then err (invalid_currency value) else ok currency

pub record Money : Type 0 where
  pub currency : Text
  pub micros : ℤ

unfoldable pub new_money : Text → ℤ → Result MoneyError Money
new_money currency micros = do
  parsed ← parse_currency currency
  if is_negative micros
      then err negative_money
      else ok (record { currency = parsed; micros = micros })

-- `parseDigits`: a uint64, so each step wraps.
parse_digits_from : ℕ → Text → ℕ
parse_digits_from result [] = result
parse_digits_from result (r ∷ value) =
    parse_digits_from ((result * 10 + (r + 2 ^ 64 - b'0') % 2 ^ 64) % 2 ^ 64) value

unfoldable pub parse_digits : Text → ℕ
unfolding parse_digits_from
parse_digits value = parse_digits_from 0 value

-- The end of `ParseMoney`, where the digits of both parts are known to be digits.
unfoldable pub micros_of : Text → Text → Text → Result MoneyError Money
micros_of parsed whole_part fraction = elim (parse_uint 63 whole_part) [
  | none ↦ err parse_overflow
  | some whole ↦
      if ltb (max_int64 / 1000000) whole
      then err parse_overflow
      else (let padded = fraction ++ replicate (6 - length fraction) b'0' in
          let micros = int64_of (whole * 1000000 + parse_digits padded) in
          if is_negative micros
          then err parse_overflow
          else ok (record { currency = parsed; micros = micros }))
]

-- The tests of `ParseMoney` on the parts of the amount. An amount with no point has the empty
-- fraction; more than two parts are refused first, as is an empty first part.
check_parts : Text → Text → Text → Text → Result MoneyError Money
check_parts parsed value whole fraction =
    if is_empty whole
    then err (invalid_money value)
    else if ltb 6 (length fraction)
    then err too_precise
    else if not (all_digits whole && all_digits fraction)
    then err (invalid_money value)
    else micros_of parsed whole fraction

unfoldable pub parse_parts : Text → Text → List Text → Result MoneyError Money
unfolding check_parts
parse_parts parsed value [] = err (invalid_money value)
parse_parts parsed value (whole ∷ []) = check_parts parsed value whole []
parse_parts parsed value (whole ∷ fraction ∷ []) = check_parts parsed value whole fraction
parse_parts parsed value (_ ∷ _ ∷ _ ∷ _) = err (invalid_money value)

unfoldable pub parse_money : Text → Text → Result MoneyError Money
unfolding parse_parts
parse_money currency text = do
  parsed ← parse_currency currency
  let value = trim_space text
  if is_empty value || has_prefix value (codes "-") || has_prefix value (codes "+")
      then err not_decimal
      else parse_parts parsed value (split_byte b'.' value)

unfoldable pub validate : Money → Result MoneyError (Unit {0})
validate m = do
  _ ← parse_currency m.currency
  if is_negative m.micros then err negative_money else ok tt

-- `other.Micros > math.MaxInt64 - m.Micros` is read after both are known not to be negative.
unfoldable pub add : Money → Money → Result MoneyError Money
unfolding validate
add m other = do
  validate m
  validate other
  if not (text_eq m.currency other.currency)
      then err different_currencies
      else if ltb_ℤ (pos max_int64 -ℤ m.micros) other.micros
      then err addition_overflow
      else ok (record { currency = m.currency; micros = add_int64 m.micros other.micros })

unfoldable pub multiply : Money → ℕ → Result MoneyError Money
unfolding validate
multiply m factor = do
  validate m
  if not (factor == 0) && ltb (max_int64 / factor) (uint64_of m.micros)
      then err multiplication_overflow
      else ok (record { currency = m.currency; micros = int64_of (uint64_of m.micros * factor) })

negated : ℕ → ℤ
negated n = pos 0 -ℤ pos n

-- Go's division rounds towards zero, and the remainder has the sign of the dividend.
micros_whole : ℤ → ℤ
micros_whole (pos n) = pos (n / 1000000)
micros_whole (negsuc n) = negated (suc n / 1000000)

micros_fraction : ℤ → ℤ
micros_fraction (pos n) = pos (n % 1000000)
micros_fraction (negsuc n) = negated (suc n % 1000000)

unfoldable pub to_string : Money → Text
unfolding micros_whole micros_fraction negated
to_string m =
    m.currency
    ++ (b' '
        ∷ (format_int (micros_whole m.micros) ++ (b'.' ∷ format_int06 (micros_fraction m.micros))))
