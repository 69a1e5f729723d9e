-- ===== src/Http/Json.antt =====
-- internal/httpapi/admin.go: `checkDuplicateJSONKeys` and `scanJSONValue`, over the tokens that
-- encoding/json's decoder gives; the end of the list stands for its errors and for the end of the body.
pub mod Ends
pub mod Keys
use urbino.Base.{
  ℕ, zero, suc, ◌+◌, ◌*◌, Bool, true, false, List, [], ◌∷◌, ltb, length, if◌then◌else◌,
}
use urbino.Base.Text.{Text}
use urbino.Base.Result.{Result, ok, err, ◌>>=◌}
use urbino.Domain.Scopes.{is_in}

-- A `json.Delim`, a string, or another token.
pub data Token : Type 0 where
  open_object close_object open_array close_array scalar : Token
  text : Text → Token

pub data JsonError : Type 0 where
  too_deep no_token bad_key duplicate_key out_of_fuel : JsonError

abbrev pub max_depth : ℕ
max_depth = 32

-- `decoder.Token()` and `decoder.More()`.
abbrev pub next_token : List Token → Result JsonError (List Token)
next_token [] = err no_token
next_token (t ∷ ts) = ok ts

abbrev pub has_more : List Token → Bool
has_more [] = false
has_more (close_object ∷ ts) = false
has_more (close_array ∷ ts) = false
has_more (open_object ∷ ts) = true
has_more (open_array ∷ ts) = true
has_more (scalar ∷ ts) = true
has_more (text s ∷ ts) = true

abbrev pub unless_deep : ℕ → Result JsonError (List Token) → Result JsonError (List Token)
unless_deep depth r = if ltb max_depth depth then err too_deep else r

-- The loops recurse on fuel, as does the scan of a value.
unfoldable mutual
  pub scan_json_value : (fuel depth : ℕ) → List Token → Result JsonError (List Token)
  scan_json_value zero depth ts = err out_of_fuel
  scan_json_value (suc fuel) depth [] = unless_deep depth (err no_token)
  scan_json_value (suc fuel) depth (open_object ∷ ts) =
      unless_deep depth (scan_members fuel depth [] ts >>= next_token)
  scan_json_value (suc fuel) depth (open_array ∷ ts) =
      unless_deep depth (scan_items fuel depth ts >>= next_token)
  scan_json_value (suc fuel) depth (close_object ∷ ts) = unless_deep depth (next_token ts)
  scan_json_value (suc fuel) depth (close_array ∷ ts) = unless_deep depth (next_token ts)
  scan_json_value (suc fuel) depth (scalar ∷ ts) = unless_deep depth (ok ts)
  scan_json_value (suc fuel) depth (text s ∷ ts) = unless_deep depth (ok ts)

  pub scan_members :
      (fuel depth : ℕ) → (seen : List Text) → List Token → Result JsonError (List Token)
  scan_members zero depth seen ts = err out_of_fuel
  scan_members (suc fuel) depth seen [] = ok []
  scan_members (suc fuel) depth seen (close_object ∷ ts) = ok (close_object ∷ ts)
  scan_members (suc fuel) depth seen (close_array ∷ ts) = ok (close_array ∷ ts)
  scan_members (suc fuel) depth seen (open_object ∷ ts) = err bad_key
  scan_members (suc fuel) depth seen (open_array ∷ ts) = err bad_key
  scan_members (suc fuel) depth seen (scalar ∷ ts) = err bad_key
  scan_members (suc fuel) depth seen (text key ∷ ts) = elim (is_in key seen) [
    | true ↦ err duplicate_key
    | false ↦ scan_json_value fuel (suc depth) ts >>= scan_members fuel depth (key ∷ seen)
  ]

  pub scan_items : (fuel depth : ℕ) → List Token → Result JsonError (List Token)
  scan_items zero depth ts = err out_of_fuel
  scan_items (suc fuel) depth ts = elim (has_more ts) [
    | true ↦ scan_json_value fuel (suc depth) ts >>= scan_items fuel depth
    | false ↦ ok ts
  ]

-- The whole body; the fuel is enough for its tokens.
unfoldable pub check_duplicate_json_keys : List Token → Result JsonError (List Token)
check_duplicate_json_keys ts = scan_json_value (2 * length ts + 1) 0 ts
