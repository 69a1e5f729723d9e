-- ===== src/Auth/Base64.antt =====
-- `base64.RawURLEncoding.EncodeToString`, by which internal/auth turns random bytes into text.
use urbino.Base.{
  ℕ, ◌+◌, ◌-◌, ◌*◌, ◌/◌, ◌%◌, ◌≡◌, refl, false, List, [], ◌∷◌, arith, ltb, ◌==◌, if◌then◌else◌,
}
use urbino.Base.Text.{codes, Text, is_empty, contains_byte}

abbrev pub base64_char : ℕ → ℕ
base64_char d =
    if ltb d 26
    then b'A' + d
    else if ltb d 52
    then b'a' + (d - 26)
    else if ltb d 62
    then b'0' + (d - 52)
    else if d == 62
    then b'-'
    else b'_'

unfoldable pub encode : List ℕ → Text
encode [] = []
encode (a ∷ []) = base64_char (a / 4) ∷ base64_char (a % 4 * 16) ∷ []
encode (a ∷ b ∷ []) =
    base64_char (a / 4) ∷ base64_char (a % 4 * 16 + b / 16) ∷ base64_char (b % 16 * 4) ∷ []
encode (a ∷ b ∷ c ∷ s) =
    base64_char (a / 4)
    ∷ base64_char (a % 4 * 16 + b / 16)
    ∷ base64_char (b % 16 * 4 + c / 64)
    ∷ base64_char (c % 64)
    ∷ encode s

base64_char-ne_point : (d : ℕ) → (base64_char d == b'.') ≡ false
base64_char-ne_point d = ground arith

-- Encoded bytes hold no point, and are not empty if there is a byte.
pub contains_byte-encode : (s : List ℕ) → contains_byte b'.' (encode s) ≡ false
unfolding encode contains_byte
contains_byte-encode [] = refl
contains_byte-encode (a ∷ []) =
    rw (base64_char-ne_point (a / 4), base64_char-ne_point (a % 4 * 16)) refl
contains_byte-encode (a ∷ b ∷ []) =
    rw
      (
        base64_char-ne_point (a / 4),
        base64_char-ne_point (a % 4 * 16 + b / 16),
        base64_char-ne_point (b % 16 * 4),
      )
      refl
contains_byte-encode (a ∷ b ∷ c ∷ s) =
    rw
      (
        base64_char-ne_point (a / 4),
        base64_char-ne_point (a % 4 * 16 + b / 16),
        base64_char-ne_point (b % 16 * 4 + c / 64),
        base64_char-ne_point (c % 64),
      )
      (contains_byte-encode s)

pub is_empty-encode : (s : List ℕ) → is_empty s ≡ false → is_empty (encode s) ≡ false
unfolding encode
is_empty-encode [] h = h
is_empty-encode (a ∷ []) h = refl
is_empty-encode (a ∷ b ∷ []) h = refl
is_empty-encode (a ∷ b ∷ c ∷ s) h = refl

encode_test : encode (255 ∷ 254 ∷ 253 ∷ 1 ∷ []) ≡ codes "__79AQ"
unfolding encode
encode_test = refl
