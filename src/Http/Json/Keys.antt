-- ===== src/Http/Json/Keys.antt =====
-- internal/httpapi/admin.go: which JSON values the scan of a body accepts.
use urbino.Base.{
  ◌≡◌, refl, inl, inr, ℕ, zero, suc, ◌+◌, ◌*◌, ◌≤◌, Bool, true, false, ◌&&◌, not, List, [], ◌∷◌,
  leb, ltb, length, arith, Bool-cases,
}
use urbino.Base.Text.{Text}
use urbino.Base.Result.{Result, ok, err, ◌>>=◌}
use urbino.Domain.Scopes.{is_in}
use urbino.Http.Json.{
  Token, open_object, close_object, open_array, close_array, scalar, text, JsonError, too_deep,
  duplicate_key, max_depth, next_token, has_more, unless_deep, scan_json_value, scan_members,
  scan_items, check_duplicate_json_keys,
}

-- A JSON value, with the members of an object in their order.
mutual
  pub data Value : Type 0 where
    plain : Value
    string : Text → Value
    object : Members → Value
    array : Items → Value

  pub data Members : Type 0 where
    no_member : Members
    member : Text → Value → Members → Members

  pub data Items : Type 0 where
    no_item : Items
    item : Value → Items → Items

-- Its tokens, followed by others.
unfoldable mutual
  pub value_tokens : Value → List Token → List Token
  value_tokens plain ts = scalar ∷ ts
  value_tokens (string s) ts = text s ∷ ts
  value_tokens (object ms) ts = open_object ∷ members_tokens ms (close_object ∷ ts)
  value_tokens (array xs) ts = open_array ∷ items_tokens xs (close_array ∷ ts)

  pub members_tokens : Members → List Token → List Token
  members_tokens no_member ts = ts
  members_tokens (member k v ms) ts = text k ∷ value_tokens v (members_tokens ms ts)

  pub items_tokens : Items → List Token → List Token
  items_tokens no_item ts = ts
  items_tokens (item v xs) ts = value_tokens v (items_tokens xs ts)

-- No object has a key twice, and no value is nested deeper than the bound.
unfoldable mutual
  pub is_clean : (depth : ℕ) → Value → Bool
  is_clean depth plain = leb depth max_depth
  is_clean depth (string s) = leb depth max_depth
  is_clean depth (object ms) = leb depth max_depth && members_clean depth [] ms
  is_clean depth (array xs) = leb depth max_depth && items_clean depth xs

  pub members_clean : (depth : ℕ) → (seen : List Text) → Members → Bool
  members_clean depth seen no_member = true
  members_clean depth seen (member k v ms) =
      not (is_in k seen) && is_clean (suc depth) v && members_clean depth (k ∷ seen) ms

  pub items_clean : (depth : ℕ) → Items → Bool
  items_clean depth no_item = true
  items_clean depth (item v xs) = is_clean (suc depth) v && items_clean depth xs

-- A scan that passes over a clean value, or fails on another.
pub data Scanned (ts : List Token) : Bool → Result JsonError (List Token) → Type 0 where
  passes : Scanned ts true (ok ts)
  fails : (e : JsonError) → Scanned ts false (err e)

then-Scanned :
    (ts us : List Token) (a b : Bool) (r : Result JsonError (List Token))
    (f : List Token → Result JsonError (List Token))
    → Scanned us a r
    → Scanned ts b (f us)
    → Scanned ts (a && b) (r >>= f)
then-Scanned ts us _ b _ f passes s = s
then-Scanned ts us _ b _ f (fails e) s = fails e

closed :
    (t : Token) (ts : List Token) (a : Bool) (r : Result JsonError (List Token))
    → Scanned (t ∷ ts) a r
    → Scanned ts a (r >>= next_token)
closed t ts _ _ passes = passes
closed t ts _ _ (fails e) = fails e

in_depth :
    (ts : List Token) (depth : ℕ) (a : Bool) (r : Result JsonError (List Token))
    → Scanned ts a r
    → Scanned ts (leb depth max_depth && a) (unless_deep depth r)
in_depth ts depth a r s = elim (Bool-cases (ltb max_depth depth)) [
  | inl deep ↦
      let out : leb depth max_depth ≡ false = ground arith in rw (deep, out) (fails too_deep)
  | inr fits ↦ let within : leb depth max_depth ≡ true = ground arith in rw (fits, within) s
]

and_true : (b : Bool) → (b && true) ≡ b
and_true true = refl
and_true false = refl

more_value : (v : Value) (ts : List Token) → has_more (value_tokens v ts) ≡ true
unfolding value_tokens
more_value plain ts = refl
more_value (string s) ts = refl
more_value (object ms) ts = refl
more_value (array xs) ts = refl

mutual
  unfolding value_tokens members_tokens items_tokens

  longer_value : (v : Value) (ts : List Token) → length ts + 1 ≤ length (value_tokens v ts)
  longer_value plain ts = omega arith
  longer_value (string s) ts = omega arith
  longer_value (object ms) ts = omega (arith, longer_members ms (close_object ∷ ts))
  longer_value (array xs) ts = omega (arith, longer_items xs (close_array ∷ ts))

  longer_members : (ms : Members) (ts : List Token) → length ts ≤ length (members_tokens ms ts)
  longer_members no_member ts = omega arith
  longer_members (member k v ms) ts =
      omega (arith, longer_members ms ts, longer_value v (members_tokens ms ts))

  longer_items : (xs : Items) (ts : List Token) → length ts ≤ length (items_tokens xs ts)
  longer_items no_item ts = omega arith
  longer_items (item v xs) ts =
      omega (arith, longer_items xs ts, longer_value v (items_tokens xs ts))

mutual
  unfolding scan_json_value scan_members scan_items value_tokens members_tokens items_tokens
      is_clean members_clean items_clean

  value-Scanned :
      (fuel depth : ℕ) (v : Value) (ts : List Token)
      → 2 * length (value_tokens v ts) + 1 ≤ fuel
      → Scanned ts (is_clean depth v) (scan_json_value fuel depth (value_tokens v ts))
  value-Scanned zero depth v ts enough = absurd (omega arith)
  value-Scanned (suc fuel) depth plain ts enough =
      rw (← and_true (leb depth max_depth)) (in_depth ts depth true _ passes)
  value-Scanned (suc fuel) depth (string s) ts enough =
      rw (← and_true (leb depth max_depth)) (in_depth ts depth true _ passes)
  value-Scanned (suc fuel) depth (object ms) ts enough =
      in_depth ts depth (members_clean depth [] ms) _
        (closed close_object ts _ _ (members-Scanned fuel depth [] ms ts (omega arith)))
  value-Scanned (suc fuel) depth (array xs) ts enough =
      in_depth ts depth (items_clean depth xs) _
        (closed close_array ts _ _ (items-Scanned fuel depth xs ts (omega arith)))

  members-Scanned :
      (fuel depth : ℕ) (seen : List Text) (ms : Members) (ts : List Token)
      → 2 * length (members_tokens ms (close_object ∷ ts)) ≤ fuel
      → Scanned
          (close_object ∷ ts)
          (members_clean depth seen ms)
          (scan_members fuel depth seen (members_tokens ms (close_object ∷ ts)))
  members-Scanned zero depth seen ms ts enough =
      absurd (omega (arith, longer_members ms (close_object ∷ ts)))
  members-Scanned (suc fuel) depth seen no_member ts enough = passes
  members-Scanned (suc fuel) depth seen (member k v ms) ts enough =
      elim (Bool-cases (is_in k seen)) [
        | inl twice ↦ rw (twice, scan_members) (fails duplicate_key)
        | inr fresh ↦
            rw (fresh, scan_members)
              (then-Scanned (close_object ∷ ts) (members_tokens ms (close_object ∷ ts))
                (is_clean (suc depth) v) (members_clean depth (k ∷ seen) ms) _
                (scan_members fuel depth (k ∷ seen))
                (value-Scanned fuel (suc depth) v (members_tokens ms (close_object ∷ ts))
                  (omega arith))
                (members-Scanned fuel depth (k ∷ seen) ms ts
                  (omega (arith, longer_value v (members_tokens ms (close_object ∷ ts))))))
      ]

  items-Scanned :
      (fuel depth : ℕ) (xs : Items) (ts : List Token)
      → 2 * length (items_tokens xs (close_array ∷ ts)) + 2 ≤ fuel
      → Scanned
          (close_array ∷ ts)
          (items_clean depth xs)
          (scan_items fuel depth (items_tokens xs (close_array ∷ ts)))
  items-Scanned zero depth xs ts enough = absurd (omega (arith, longer_items xs (close_array ∷ ts)))
  items-Scanned (suc fuel) depth no_item ts enough = passes
  items-Scanned (suc fuel) depth (item v xs) ts enough =
      rw (more_value v (items_tokens xs (close_array ∷ ts)), scan_items)
        (then-Scanned (close_array ∷ ts) (items_tokens xs (close_array ∷ ts))
          (is_clean (suc depth) v) (items_clean depth xs) _ (scan_items fuel depth)
          (value-Scanned fuel (suc depth) v (items_tokens xs (close_array ∷ ts)) (omega arith))
          (items-Scanned fuel depth xs ts
            (omega (arith, longer_value v (items_tokens xs (close_array ∷ ts))))))

-- What `scanned` says of a body that is one value.
pub data Verdict : Bool → Result JsonError (List Token) → Type 0 where
  accepted : Verdict true (ok [])
  refused : (e : JsonError) → Verdict false (err e)

verdict : (b : Bool) (r : Result JsonError (List Token)) → Scanned [] b r → Verdict b r
verdict _ _ passes = accepted
verdict _ _ (fails e) = refused e

-- The scan of a body that is a JSON value accepts exactly the values in which no object, at any place,
-- has a key twice and nothing is nested deeper than 32; it reads an accepted body to its end.
pub check_duplicate_json_keys-clean :
    (v : Value) → Verdict (is_clean 0 v) (check_duplicate_json_keys (value_tokens v []))
unfolding check_duplicate_json_keys
check_duplicate_json_keys-clean v =
    verdict (is_clean 0 v) _
      (value-Scanned (2 * length (value_tokens v []) + 1) 0 v [] (omega arith))
