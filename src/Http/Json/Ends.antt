-- ===== src/Http/Json/Ends.antt =====
-- internal/httpapi/admin.go: the scan of a body comes to an end.
use urbino.Base.{
  ◌≢◌, inl, inr, ℕ, zero, suc, ◌+◌, ◌*◌, ◌≤◌, List, [], ◌∷◌, ltb, length, arith, Bool-cases,
}
use urbino.Base.Text.{Text}
use urbino.Base.Result.{Result, ok, err, ◌>>=◌}
use urbino.Domain.Scopes.{is_in}
use urbino.Http.Json.{
  Token, open_object, close_object, open_array, close_array, scalar, text, JsonError, too_deep,
  no_token, bad_key, duplicate_key, out_of_fuel, max_depth, next_token, has_more, unless_deep,
  scan_json_value, scan_members, scan_items, check_duplicate_json_keys,
}

-- A scan of `n` tokens that ends: with an error of the code's, or with no more tokens than `n`.
pub data Ends (n : ℕ) : Result JsonError (List Token) → Type 0 where
  ends_ok : (ts : List Token) → length ts ≤ n → Ends n (ok ts)
  ends_deep : Ends n (err too_deep)
  ends_short : Ends n (err no_token)
  ends_bad : Ends n (err bad_key)
  ends_twice : Ends n (err duplicate_key)

next-Ends : (n : ℕ) (r : Result JsonError (List Token)) → Ends n r → Ends n (r >>= next_token)
next-Ends n _ (ends_ok [] h) = ends_short
next-Ends n _ (ends_ok (t ∷ ts) h) = ends_ok ts (omega arith)
next-Ends n _ ends_deep = ends_deep
next-Ends n _ ends_short = ends_short
next-Ends n _ ends_bad = ends_bad
next-Ends n _ ends_twice = ends_twice

then-Ends :
    (n : ℕ) (r : Result JsonError (List Token)) (f : List Token → Result JsonError (List Token))
    → Ends n r
    → ((ts : List Token) → length ts ≤ n → Ends n (f ts))
    → Ends n (r >>= f)
then-Ends n _ f (ends_ok ts h) g = g ts h
then-Ends n _ f ends_deep g = ends_deep
then-Ends n _ f ends_short g = ends_short
then-Ends n _ f ends_bad g = ends_bad
then-Ends n _ f ends_twice g = ends_twice

wider : (m n : ℕ) (r : Result JsonError (List Token)) → m ≤ n → Ends m r → Ends n r
wider m n _ le (ends_ok ts h) = ends_ok ts (omega arith)
wider m n _ le ends_deep = ends_deep
wider m n _ le ends_short = ends_short
wider m n _ le ends_bad = ends_bad
wider m n _ le ends_twice = ends_twice

deep-Ends :
    (n depth : ℕ) (r : Result JsonError (List Token)) → Ends n r → Ends n (unless_deep depth r)
deep-Ends n depth r e = elim (Bool-cases (ltb max_depth depth)) [
  | inl deep ↦ rw deep ends_deep
  | inr fits ↦ rw fits e
]

mutual
  unfolding scan_json_value scan_members scan_items

  -- A value leaves fewer tokens than it got.
  value-Ends :
      (fuel depth n : ℕ) (ts : List Token)
      → length ts ≤ suc n
      → 2 * length ts + 1 ≤ fuel
      → Ends n (scan_json_value fuel depth ts)
  value-Ends zero depth n ts le enough = absurd (omega arith)
  value-Ends (suc fuel) depth n [] le enough = deep-Ends n depth _ ends_short
  value-Ends (suc fuel) depth n (open_object ∷ ts) le enough =
      deep-Ends n depth _
        (next-Ends n _ (members-Ends fuel depth n [] ts (omega arith) (omega arith)))
  value-Ends (suc fuel) depth n (open_array ∷ ts) le enough =
      deep-Ends n depth _ (next-Ends n _ (items-Ends fuel depth n ts (omega arith) (omega arith)))
  value-Ends (suc fuel) depth n (close_object ∷ ts) le enough =
      deep-Ends n depth _ (next-Ends n _ (ends_ok ts (omega arith)))
  value-Ends (suc fuel) depth n (close_array ∷ ts) le enough =
      deep-Ends n depth _ (next-Ends n _ (ends_ok ts (omega arith)))
  value-Ends (suc fuel) depth n (scalar ∷ ts) le enough =
      deep-Ends n depth _ (ends_ok ts (omega arith))
  value-Ends (suc fuel) depth n (text s ∷ ts) le enough =
      deep-Ends n depth _ (ends_ok ts (omega arith))

  members-Ends :
      (fuel depth n : ℕ) (seen : List Text) (ts : List Token)
      → length ts ≤ n
      → 2 * length ts + 2 ≤ fuel
      → Ends n (scan_members fuel depth seen ts)
  members-Ends zero depth n seen ts le enough = absurd (omega arith)
  members-Ends (suc fuel) depth n seen [] le enough = ends_ok [] (omega arith)
  members-Ends (suc fuel) depth n seen (close_object ∷ ts) le enough = ends_ok _ le
  members-Ends (suc fuel) depth n seen (close_array ∷ ts) le enough = ends_ok _ le
  members-Ends (suc fuel) depth n seen (open_object ∷ ts) le enough = ends_bad
  members-Ends (suc fuel) depth n seen (open_array ∷ ts) le enough = ends_bad
  members-Ends (suc fuel) depth n seen (scalar ∷ ts) le enough = ends_bad
  members-Ends (suc fuel) depth n seen (text key ∷ ts) le enough =
      elim (Bool-cases (is_in key seen)) [
        | inl twice ↦ rw (twice, scan_members) ends_twice
        | inr fresh ↦
            rw (fresh, scan_members)
              (wider (length ts) n _ (omega arith) (
                then-Ends (length ts) _ (scan_members fuel depth (key ∷ seen))
                  (value-Ends fuel (suc depth) (length ts) ts (omega arith) (omega arith))
                  (λ rest short.
                    members-Ends fuel depth (length ts) (key ∷ seen) rest short (omega arith))))
      ]

  items-Ends :
      (fuel depth n : ℕ) (ts : List Token)
      → length ts ≤ n
      → 2 * length ts + 2 ≤ fuel
      → Ends n (scan_items fuel depth ts)
  items-Ends zero depth n ts le enough = absurd (omega arith)
  items-Ends (suc fuel) depth n [] le enough = ends_ok [] le
  items-Ends (suc fuel) depth n (t ∷ ts) le enough = elim (Bool-cases (has_more (t ∷ ts))) [
    | inl more ↦
        rw (more, scan_items)
          (wider (length ts) n _ (omega arith) (
            then-Ends (length ts) _ (scan_items fuel depth)
              (value-Ends fuel (suc depth) (length ts) (t ∷ ts) (omega arith) (omega arith))
              (λ rest short. items-Ends fuel depth (length ts) rest short (omega arith))))
    | inr none_left ↦ rw (none_left, scan_items) (ends_ok (t ∷ ts) le)
  ]

Ends-fueled : (n : ℕ) (r : Result JsonError (List Token)) → Ends n r → r ≢ err out_of_fuel
Ends-fueled n _ (ends_ok ts h) e = cc
Ends-fueled n _ ends_deep e = cc
Ends-fueled n _ ends_short e = cc
Ends-fueled n _ ends_bad e = cc
Ends-fueled n _ ends_twice e = cc

-- The scan of a body ends: it never runs out of the fuel that it is given, which is twice the number of
-- the tokens, plus one.
pub check_duplicate_json_keys-ends :
    (ts : List Token) → check_duplicate_json_keys ts ≢ err out_of_fuel
unfolding check_duplicate_json_keys
check_duplicate_json_keys-ends ts =
    Ends-fueled (length ts) _
      (value-Ends (2 * length ts + 1) 0 (length ts) ts (omega arith) (omega arith))
