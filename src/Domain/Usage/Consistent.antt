-- ===== src/Domain/Usage/Consistent.antt =====
-- `Usage.Validate` of internal/domain/types.go, against consistency over the integers.
use urbino.Base.{ℕ, ◌≤◌, ◌≡◌, refl, ◌↔◌, true, false, List, [], ◌∷◌, arith}
use urbino.Base.Int.{pos, ◌+ℤ◌, ◌-ℤ◌, ◌≤ℤ◌}
use urbino.Base.Int64.{max_int64, add_int64}
use urbino.Base.Result.{>>-ok, ok}
use urbino.Domain.Usage.{
  is_zero, Usage, validate, check_amounts, check_total, check_dimensions, check_completeness,
  check_source, IsConsistent, IsCarried, AgreesWithCount, IsNamed, Completeness, UsageSource,
  UsageDimension, known_count,
}

module _ (u : Usage) where
  abbrev Amounts : Type 0
  Amounts =
      (is_zero u.request ≡ false)
      × (is_zero u.attempt ≡ false)
      × IsCarried u.input_known u.input_tokens
      × IsCarried u.output_known u.output_tokens
      × IsCarried u.total_known u.total_tokens
      × (u.input_tokens +ℤ u.output_tokens ≤ℤ pos max_int64)

  check_amounts_ok : check_amounts u ≡ ok tt → Amounts
  unfolding check_amounts ◌+ℤ◌ ◌-ℤ◌
  check_amounts_ok h =
      (ground arith, ground arith, ground arith, ground arith, ground arith, ground arith)

  check_amounts_of : Amounts → check_amounts u ≡ ok tt
  unfolding check_amounts ◌+ℤ◌ ◌-ℤ◌
  check_amounts_of h = ground arith

  abbrev Totals : Type 0
  Totals =
      (u.total_known ≡ true
        → u.input_known ≡ true
        → u.output_known ≡ true
        → u.input_tokens +ℤ u.output_tokens ≤ℤ u.total_tokens)
      × (u.total_known ≡ true → u.input_known ≡ true → u.input_tokens ≤ℤ u.total_tokens)
      × (u.total_known ≡ true → u.output_known ≡ true → u.output_tokens ≤ℤ u.total_tokens)

  -- The sum is exact once the amounts are checked.
  sum_exact : Amounts → add_int64 u.input_tokens u.output_tokens ≡ u.input_tokens +ℤ u.output_tokens
  unfolding add_int64 ◌+ℤ◌
  sum_exact h = ground arith

  check_total_ok : Amounts → check_total u ≡ ok tt → Totals
  unfolding check_total
  check_total_ok h t =
      let e = sum_exact h in (λ a b c. ground arith, λ a b. ground arith, λ a b. ground arith)

  check_total_of : Amounts → Totals → check_total u ≡ ok tt
  unfolding check_total
  check_total_of h t = ground (arith, sum_exact h)

check_dimensions_ok :
    (a b c : UsageDimension)
    → check_dimensions (a ∷ b ∷ c ∷ []) ≡ ok tt
    → IsCarried a.known a.value × IsCarried b.known b.value × IsCarried c.known c.value
unfolding check_dimensions
check_dimensions_ok a b c h = (ground arith, ground arith, ground arith)

check_dimensions_of :
    (a b c : UsageDimension)
    → IsCarried a.known a.value
    → IsCarried b.known b.value
    → IsCarried c.known c.value
    → check_dimensions (a ∷ b ∷ c ∷ []) ≡ ok tt
unfolding check_dimensions
check_dimensions_of a b c x y z = ground arith

check_completeness_ok :
    (c : Completeness) (n : ℕ) (s : UsageSource)
    → n ≤ 3
    → check_completeness c n s ≡ ok tt
    → AgreesWithCount c n s
unfolding check_completeness
check_completeness_ok Completeness.complete n s k h = (ground arith, ground arith)
check_completeness_ok Completeness.partial n s k h = (ground arith, ground arith)
check_completeness_ok Completeness.missing n s k h = ground arith
check_completeness_ok (Completeness.other c) n s k h = cc

check_completeness_of :
    (c : Completeness) (n : ℕ) (s : UsageSource)
    → AgreesWithCount c n s
    → check_completeness c n s ≡ ok tt
unfolding check_completeness
check_completeness_of Completeness.complete n s h = ground arith
check_completeness_of Completeness.partial n s h = ground arith
check_completeness_of Completeness.missing n s h = ground arith
check_completeness_of (Completeness.other c) n s h = absurd h

check_source_ok : (s : UsageSource) → check_source s ≡ ok tt → IsNamed s
unfolding check_source
check_source_ok (UsageSource.other s) h = cc
check_source_ok _ h = tt

check_source_of : (s : UsageSource) → IsNamed s → check_source s ≡ ok tt
unfolding check_source
check_source_of (UsageSource.other s) h = absurd h
check_source_of _ h = refl

known_count-le : (u : Usage) → known_count u ≤ 3
known_count-le u = ground arith

abbrev dimensions : Usage → List UsageDimension
dimensions u = u.cache_read_tokens ∷ u.cache_write_tokens ∷ u.reasoning_tokens ∷ []

-- The five checks, one behind the other.
abbrev AllPass : Usage → Type 0
AllPass u =
    (check_amounts u ≡ ok tt)
    × (check_total u ≡ ok tt)
    × (check_dimensions (dimensions u) ≡ ok tt)
    × (check_completeness u.completeness (known_count u) u.source ≡ ok tt)
    × (check_source u.source ≡ ok tt)

validate-AllPass : (u : Usage) → validate u ≡ ok tt → AllPass u
unfolding validate
validate-AllPass u h =
    let (a, r) = >>-ok (check_amounts u) _ h in
    let (b, r') = >>-ok (check_total u) _ r in
    let (c, r'') = >>-ok (check_dimensions (dimensions u)) _ r' in
    let (d, e) = >>-ok (check_completeness u.completeness (known_count u) u.source) _ r'' in
    (a, b, c, d, e)

validate_of_AllPass : (u : Usage) → AllPass u → validate u ≡ ok tt
unfolding validate
validate_of_AllPass u (a, b, c, d, e) = rw (a, b, c, d, e) refl

AllPass-IsConsistent : (u : Usage) → AllPass u → IsConsistent u
AllPass-IsConsistent u (a, b, c, d, e) =
    let m = check_amounts_ok u a in
    let t = check_total_ok u m b in
    let ds = check_dimensions_ok u.cache_read_tokens u.cache_write_tokens u.reasoning_tokens c in
    record {
      named = (m.0, m.1);
      input = m.2;
      output = m.3;
      total = m.4;
      sum_fits = m.5;
      total_covers = t.0;
      total_covers_input = t.1;
      total_covers_output = t.2;
      cache_read = ds.0;
      cache_write = ds.1;
      reasoning = ds.2;
      completeness =
          check_completeness_ok u.completeness (known_count u) u.source (known_count-le u) d;
      source = check_source_ok u.source e;
    }

IsConsistent-AllPass : (u : Usage) → IsConsistent u → AllPass u
IsConsistent-AllPass u v =
    let m : Amounts u = (v.named.0, v.named.1, v.input, v.output, v.total, v.sum_fits) in
    (
      check_amounts_of u m,
      check_total_of u m (v.total_covers, v.total_covers_input, v.total_covers_output),
      check_dimensions_of u.cache_read_tokens u.cache_write_tokens u.reasoning_tokens v.cache_read
          v.cache_write v.reasoning,
      check_completeness_of u.completeness (known_count u) u.source v.completeness,
      check_source_of u.source v.source,
    )

-- `Validate` accepts a usage exactly when it is consistent over the integers: both identifiers are
-- set, no count is negative or carried by a dimension that is not known, the sum of input and output
-- fits an int64, a known total covers what is known of it, and completeness and source agree with the
-- number of known dimensions.
pub usage_validate_iff : (u : Usage) → (validate u ≡ ok tt) ↔ IsConsistent u
usage_validate_iff u = (
  λ h. AllPass-IsConsistent u (validate-AllPass u h),
  λ v. validate_of_AllPass u (IsConsistent-AllPass u v),
)
