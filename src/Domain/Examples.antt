-- ===== src/Domain/Examples.antt =====
-- The theorems on internal/domain at concrete values.
use urbino.Base.{
  ◌+◌, ◌≡◌, refl, ◌↔◌, true, false, List, [], ◌∷◌, ◌++◌, arith, leb, if◌then◌else◌, length,
  replicate,
}
use urbino.Base.Text.{Text, codes, text_eq}
use urbino.Base.Decimal.{all_digits, dec_value}
use urbino.Base.Space.{to_upper, trim_space}
use urbino.Base.Int.{pos}
use urbino.Base.Int64.{max_int64}
use urbino.Base.Result.{ok, err}
use urbino.Domain.State.{RequestState, transition_request}
use urbino.Domain.State.Lives.{AllAccepted, RequestStep, transition_request_iff}
use urbino.Domain.Money.{
  Money, parse_currency, parse_money, is_supported, to_string, add, addition_overflow,
  different_currencies, validate,
}
use urbino.Domain.Money.Parse.{Decimal, amount, parse_money-Decimal}
use urbino.Domain.Money.Arithmetic.{IsAmount, add_exact}
use urbino.Domain.Money.RoundTrip.{parse_money-to_string}
use urbino.Domain.Uuid.{Uuid, IsUuid, parse_uuid, to_string as uuid_text}
use urbino.Domain.Uuid.Printed.{parse_uuid-to_string}
use urbino.Domain.Scopes.{Principal, models_read, usage_read}
use urbino.Domain.Usage.{IsConsistent, Usage, Completeness, UsageSource, validate as usage_validate}
use urbino.Domain.Usage.Consistent.{usage_validate_iff}

transition_request_iff_example :
    (transition_request RequestState.pending RequestState.running ≡ ok tt)
    ↔ RequestStep RequestState.pending RequestState.running
transition_request_iff_example = transition_request_iff RequestState.pending RequestState.running

abbrev whole_life : List RequestState
whole_life = RequestState.running ∷ RequestState.succeeded ∷ []

whole_life_accepted : AllAccepted transition_request RequestState.pending whole_life
unfolding transition_request
whole_life_accepted = (refl, (refl, tt))

abbrev price_text : Text
price_text = codes " 12.50 "

usd_parsed : parse_currency (codes "usd") ≡ ok (codes "USD")
unfolding parse_currency is_supported to_upper trim_space text_eq
usd_parsed = refl

price-Decimal : Decimal (trim_space price_text) 12500000
unfolding trim_space all_digits dec_value
price-Decimal = Decimal.point (codes "12") (codes "50") refl refl refl (omega arith)

parse_money-Decimal_example : parse_money (codes "usd") price_text ≡ amount (codes "USD") 12500000
parse_money-Decimal_example =
    parse_money-Decimal (codes "usd") price_text (codes "USD") 12500000 usd_parsed price-Decimal

abbrev price : Money
price = record { currency = codes "USD"; micros = pos 12500000 }

price_supported : is_supported price.currency ≡ true
unfolding is_supported text_eq
price_supported = refl

parse_money-to_string_example :
    (text : Text) × (to_string price ≡ price.currency ++ b' ' ∷ text)
    × (parse_money price.currency text ≡ ok price)
parse_money-to_string_example =
    parse_money-to_string price 12500000 price_supported refl (omega arith)

price-IsAmount : IsAmount price 12500000
unfolding validate parse_currency is_supported to_upper trim_space text_eq
price-IsAmount = record { valid = refl; micros = refl; fits = omega arith }

add_exact_example : add price price ≡ (
    if text_eq price.currency price.currency
    then (if leb (12500000 + 12500000) max_int64
        then ok (record { currency = price.currency; micros = pos (12500000 + 12500000) })
        else err addition_overflow)
    else err different_currencies)
add_exact_example = add_exact price price 12500000 12500000 price-IsAmount price-IsAmount

abbrev random : Uuid
random = replicate 16 0xab

random-IsUuid : IsUuid random
random-IsUuid = omega arith

parse_uuid-to_string_example :
    (length (uuid_text random) ≡ 36) × (parse_uuid (uuid_text random) ≡ ok random)
parse_uuid-to_string_example = parse_uuid-to_string random random-IsUuid

abbrev reader : Principal
reader = record {
  id = random;
  tenant = random;
  project = random;
  scopes = models_read ∷ usage_read ∷ [];
  version = 1;
  disabled = false;
}

abbrev usage : Usage
usage = record {
  request = random;
  attempt = random;
  input_tokens = pos 10;
  output_tokens = pos 20;
  total_tokens = pos 30;
  input_known = true;
  output_known = true;
  total_known = true;
  cache_read_tokens = record { value = pos 0; known = false };
  cache_write_tokens = record { value = pos 0; known = false };
  reasoning_tokens = record { value = pos 4; known = true };
  completeness = Completeness.complete;
  source = UsageSource.provider;
  is_estimate = false;
  provider_version = [];
  rate_tier = [];
}

usage_validate_iff_example : (usage_validate usage ≡ ok tt) ↔ IsConsistent usage
usage_validate_iff_example = usage_validate_iff usage
