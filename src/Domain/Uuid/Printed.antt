-- ===== src/Domain/Uuid/Printed.antt =====
-- The text of an identifier and its parser, internal/domain/identity.go.
use mathlib.Core.Path.{subst}
use urbino.Base.{
  Option, ℕ, ◌/◌, ◌%◌, ◌<◌, ◌≡◌, refl, ap, true, List, [], ◌∷◌, none, some, length, arith,
}
use urbino.Base.Text.{Text, All}
use urbino.Base.Space.{IsGraphic, trim_space, trim_space_id}
use urbino.Base.Result.{ok}
use urbino.Domain.Uuid.{
  has_dashes, Uuid, IsUuid, hex_value, hex_char, hex_byte, decode_hex, encode_hex, uuid_digits,
  decoded_uuid, parse_uuid, to_string,
}

hex_value-hex_char : (d : ℕ) → d < 16 → hex_value (hex_char d) ≡ some d
hex_value-hex_char d h = ground arith

hex_char-IsGraphic : (d : ℕ) → d < 16 → IsGraphic (hex_char d)
hex_char-IsGraphic d h = ground arith

decode_hex-encode_hex : (s : List ℕ) → All (λ b. b < 256) s → decode_hex (encode_hex s) ≡ some s
unfolding decode_hex encode_hex
decode_hex-encode_hex [] h = refl
decode_hex-encode_hex (b ∷ s) h =
    rw
      (
        hex_value-hex_char (b / 16) (omega arith),
        hex_value-hex_char (b % 16) (omega arith),
        decode_hex-encode_hex s h.1,
      )
      (ap (λ (n : ℕ). some (n ∷ s)) (omega arith))

-- The text that an identifier is printed as, its digits and its dashes.
module _ (b0 b1 b2 b3 b4 b5 b6 b7 b8 b9 b10 b11 b12 b13 b14 b15 : ℕ) where
  abbrev id16 : Uuid
  id16 = b0 ∷ b1 ∷ b2 ∷ b3 ∷ b4 ∷ b5 ∷ b6 ∷ b7 ∷ b8 ∷ b9 ∷ b10 ∷ b11 ∷ b12 ∷ b13 ∷ b14 ∷ b15 ∷ []

  printed_digits : uuid_digits (to_string id16) ≡ encode_hex id16
  unfolding to_string uuid_digits
  printed_digits = refl

  printed_shape : (length (to_string id16) ≡ 36) × (has_dashes (to_string id16) ≡ true)
  unfolding to_string has_dashes
  printed_shape = (refl, refl)

  printed_trimmed : b0 < 256 → b15 < 256 → trim_space (to_string id16) ≡ to_string id16
  unfolding to_string
  printed_trimmed h k =
      trim_space_id (to_string id16) (hex_char-IsGraphic (b0 / 16) (omega arith))
        (hex_char-IsGraphic (b15 % 16) (omega arith))

  parse_printed : All (λ b. b < 256) id16 → parse_uuid (to_string id16) ≡ ok id16
  unfolding parse_uuid
  parse_printed h =
      rw
        (
          printed_trimmed h.0 h.1.1.1.1.1.1.1.1.1.1.1.1.1.1.1.0,
          printed_shape.0,
          printed_shape.1,
          printed_digits,
          decode_hex-encode_hex id16 h,
        )
        refl

-- An identifier is printed in the canonical form of 36 bytes, and the parser reads that back.
pub parse_uuid-to_string :
    (id : Uuid) → IsUuid id → (length (to_string id) ≡ 36) × (parse_uuid (to_string id) ≡ ok id)
parse_uuid-to_string
      (b0 ∷ b1 ∷ b2 ∷ b3 ∷ b4 ∷ b5 ∷ b6 ∷ b7 ∷ b8 ∷ b9 ∷ b10 ∷ b11 ∷ b12 ∷ b13 ∷ b14 ∷ b15 ∷ []) h =
    (
      (printed_shape b0 b1 b2 b3 b4 b5 b6 b7 b8 b9 b10 b11 b12 b13 b14 b15).0,
      parse_printed b0 b1 b2 b3 b4 b5 b6 b7 b8 b9 b10 b11 b12 b13 b14 b15 h.1,
    )
parse_uuid-to_string _ h = absurd (omega arith)

-- The value of an option, if there is one, has a property.
abbrev IfSome {ℓ κ} : {A : Type ℓ} → (A → Type κ) → Option A → Type κ
IfSome P none = Unit
IfSome P (some a) = P a

abbrev Bytes : List ℕ → Type 0
Bytes = All (λ b. b < 256)

hex_byte-IfSome :
    (x y : Option ℕ) (z : Option (List ℕ))
    → IfSome (λ d. d < 16) x
    → IfSome (λ d. d < 16) y
    → IfSome Bytes z
    → IfSome Bytes (hex_byte x y z)
hex_byte-IfSome (some a) (some b) (some s) h k l = (omega arith, l)
hex_byte-IfSome (some a) (some b) none h k l = tt
hex_byte-IfSome (some a) none z h k l = tt
hex_byte-IfSome none y z h k l = tt

hex_value-IfSome : (c : ℕ) → IfSome (λ d. d < 16) (hex_value c)
hex_value-IfSome c = ground arith

decode_hex-Bytes : (s : Text) → IfSome Bytes (decode_hex s)
unfolding decode_hex
decode_hex-Bytes [] = tt
decode_hex-Bytes (a ∷ []) = tt
decode_hex-Bytes (a ∷ b ∷ s) =
    hex_byte-IfSome (hex_value a) (hex_value b) (decode_hex s) (hex_value-IfSome a)
      (hex_value-IfSome b) (decode_hex-Bytes s)

decoded_uuid-IsUuid :
    (o : Option (List ℕ)) (id : Uuid) → IfSome Bytes o → decoded_uuid o ≡ ok id → IsUuid id
unfolding decoded_uuid
decoded_uuid-IsUuid none id b h = cc
decoded_uuid-IsUuid (some decoded) id b h =
    let same : decoded ≡ id = ground arith in (ground arith, subst Bytes same b)

-- Whatever the parser accepts is 16 bytes, and was 36 bytes with four dashes once trimmed.
pub parse_uuid_sound :
    (text : Text) (id : Uuid)
    → parse_uuid text ≡ ok id
    → IsUuid id × (length (trim_space text) ≡ 36) × (has_dashes (trim_space text) ≡ true)
unfolding parse_uuid
parse_uuid_sound text id h =
    let decoded : decoded_uuid (decode_hex (uuid_digits (trim_space text))) ≡ ok id =
      ground arith in
    (
      decoded_uuid-IsUuid (decode_hex (uuid_digits (trim_space text))) id
          (decode_hex-Bytes (uuid_digits (trim_space text))) decoded,
      ground arith,
      ground arith,
    )
