-- ===== src/Domain/Usage.antt =====
-- internal/domain/types.go: the usage of one attempt, and its consistency check.
pub mod Consistent
use urbino.Base.{
  ◌<◌, ℕ, suc, ◌+◌, ◌≤◌, ◌≡◌, refl, ◌↔◌, ◌⊎◌, inl, inr, Bool, true, false, ◌&&◌, ◌||◌, not, List,
  [], ◌∷◌, arith, ◌==◌, if◌then◌else◌,
}
use urbino.Base.Text.{Text, codes, text_eq}
use urbino.Base.Int.{ℤ, pos, negsuc, ◌+ℤ◌, ◌-ℤ◌, ◌≤ℤ◌, ltb_ℤ}
use urbino.Base.Int64.{max_int64, add_int64, is_negative, uint64_of, int64_of}
use urbino.Base.Result.{Result, ok, err, ◌>>=◌, ◌>>◌}
use urbino.Domain.Uuid.{Uuid, is_zero}

-- `UsageCompleteness` and `UsageSource`: the constants, and the texts that are none of them.
pub data Completeness : Type 0 where
  complete partial missing : Completeness
  other : Text → Completeness

pub data UsageSource : Type 0 where
  unknown provider gateway : UsageSource
  other : Text → UsageSource

pub record UsageDimension : Type 0 where
  pub value : ℤ
  pub known : Bool

-- The token counts are int64.
pub record Usage : Type 0 where
  pub request : Uuid
  pub attempt : Uuid
  pub input_tokens : ℤ
  pub output_tokens : ℤ
  pub total_tokens : ℤ
  pub input_known : Bool
  pub output_known : Bool
  pub total_known : Bool
  pub cache_read_tokens : UsageDimension
  pub cache_write_tokens : UsageDimension
  pub reasoning_tokens : UsageDimension
  pub completeness : Completeness
  pub source : UsageSource
  pub is_estimate : Bool
  pub provider_version : Text
  pub rate_tier : Text

pub data UsageError : Type 0 where
  invalid_usage unknown_carries_value total_below_sum total_below_dimension : UsageError
  invalid_dimension incomplete_complete partial_not_partial missing_known : UsageError
  invalid_completeness invalid_source : Text → UsageError

abbrev is_nonzero : ℤ → Bool
is_nonzero (pos n) = not (n == 0)
is_nonzero (negsuc n) = true

abbrev count_if : Bool → ℕ → ℕ
count_if true n = suc n
count_if false n = n

abbrev known_count : Usage → ℕ
known_count u = count_if u.total_known (count_if u.output_known (count_if u.input_known 0))

-- The loop over the three further dimensions.
unfoldable pub check_dimensions : List UsageDimension → Result UsageError (Unit {0})
check_dimensions [] = ok tt
check_dimensions (d ∷ ds) =
    let rest = check_dimensions ds in
    if is_negative d.value || (not d.known && is_nonzero d.value)
    then err invalid_dimension
    else rest

abbrev source_is_unknown : UsageSource → Bool
source_is_unknown UsageSource.unknown = true
source_is_unknown _ = false

unfoldable pub check_completeness : Completeness → ℕ → UsageSource → Result UsageError (Unit {0})
check_completeness complete count source =
    if not (count == 3) || source_is_unknown source then err incomplete_complete else ok tt
check_completeness partial count source =
    if count == 0 || count == 3 then err partial_not_partial else ok tt
check_completeness missing count source = if not (count == 0) then err missing_known else ok tt
check_completeness (Completeness.other c) count source = err (invalid_completeness c)

unfoldable pub check_source : UsageSource → Result UsageError (Unit {0})
check_source (UsageSource.other s) = err (invalid_source s)
check_source _ = ok tt

-- The total against the dimensions, where it is known.
unfoldable pub check_total : Usage → Result UsageError (Unit {0})
check_total u =
    if not u.total_known
    then ok tt
    else if ltb_ℤ u.total_tokens (add_int64 u.input_tokens u.output_tokens)
        && u.input_known
        && u.output_known
    then err total_below_sum
    else if (u.input_known && ltb_ℤ u.total_tokens u.input_tokens)
        || (u.output_known && ltb_ℤ u.total_tokens u.output_tokens)
    then err total_below_dimension
    else ok tt

-- `u.InputTokens > math.MaxInt64-u.OutputTokens` is read where the output is not negative.
unfoldable pub check_amounts : Usage → Result UsageError (Unit {0})
check_amounts u =
    if is_zero u.request
      || is_zero u.attempt
      || is_negative u.input_tokens
      || is_negative u.output_tokens
      || is_negative u.total_tokens
      || ltb_ℤ (pos max_int64 -ℤ u.output_tokens) u.input_tokens
    then err invalid_usage
    else if (not u.input_known && is_nonzero u.input_tokens)
        || (not u.output_known && is_nonzero u.output_tokens)
        || (not u.total_known && is_nonzero u.total_tokens)
    then err unknown_carries_value
    else ok tt

unfoldable pub validate : Usage → Result UsageError (Unit {0})
validate u = do
  check_amounts u
  check_total u
  check_dimensions (u.cache_read_tokens ∷ u.cache_write_tokens ∷ u.reasoning_tokens ∷ [])
  check_completeness u.completeness (known_count u) u.source
  check_source u.source

-- What a consistent usage is, over the integers.
abbrev pub IsCarried : Bool → ℤ → Type 0
IsCarried known v = (pos 0 ≤ℤ v) × ((known ≡ true) ⊎ (v ≡ pos 0))

abbrev pub AgreesWithCount : Completeness → ℕ → UsageSource → Type 0
AgreesWithCount complete n source = (n ≡ 3) × (source_is_unknown source ≡ false)
AgreesWithCount partial n source = (0 < n) × (n < 3)
AgreesWithCount missing n source = n ≡ 0
AgreesWithCount (Completeness.other c) n source = ⊥

abbrev pub IsNamed : UsageSource → Type 0
IsNamed (UsageSource.other s) = ⊥
IsNamed _ = Unit

pub record IsConsistent (u : Usage) : Type 0 where
  pub named : (is_zero u.request ≡ false) × (is_zero u.attempt ≡ false)
  pub input : IsCarried u.input_known u.input_tokens
  pub output : IsCarried u.output_known u.output_tokens
  pub total : IsCarried u.total_known u.total_tokens
  pub sum_fits : u.input_tokens +ℤ u.output_tokens ≤ℤ pos max_int64
  pub total_covers :
      u.total_known ≡ true
      → u.input_known ≡ true
      → u.output_known ≡ true
      → u.input_tokens +ℤ u.output_tokens ≤ℤ u.total_tokens
  pub total_covers_input :
      u.total_known ≡ true → u.input_known ≡ true → u.input_tokens ≤ℤ u.total_tokens
  pub total_covers_output :
      u.total_known ≡ true → u.output_known ≡ true → u.output_tokens ≤ℤ u.total_tokens
  pub cache_read : IsCarried u.cache_read_tokens.known u.cache_read_tokens.value
  pub cache_write : IsCarried u.cache_write_tokens.known u.cache_write_tokens.value
  pub reasoning : IsCarried u.reasoning_tokens.known u.reasoning_tokens.value
  pub completeness : AgreesWithCount u.completeness (known_count u) u.source
  pub source : IsNamed u.source
