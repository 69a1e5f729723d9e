-- ===== src/Domain/Uuid.antt =====
-- internal/domain/identity.go: identifiers of 16 bytes, their text, and how they are made. The named
-- identifiers (TenantID and the others) are the same 16 bytes under their own parsers.
pub mod Printed
pub mod Fresh
use Prim.Native.Nat.{bit_and, bit_or}
use urbino.Base.{
  ℕ, suc, ◌+◌, ◌-◌, ◌*◌, ◌/◌, ◌%◌, ◌^◌, ◌<◌, ◌≡◌, Bool, true, false, ◌&&◌, ◌||◌, not, List, [], ◌∷◌,
  ◌++◌, Option, none, some, ltb, leb, ◌==◌, if◌then◌else◌, length, replicate, take, drop, get_elem?,
  get_or, set,
}
use urbino.Base.Text.{text_eq, All, Text}
use urbino.Base.Space.{trim_space}
use urbino.Base.Int.{ℤ, pos, negsuc, pos_part}
use urbino.Base.Int64.{is_negative}
use urbino.Base.Result.{Result, ok, err, ◌>>=◌}

-- `[16]byte`.
abbrev pub Uuid : Type 0
Uuid = List ℕ

abbrev pub IsUuid : Uuid → Type 0
IsUuid id = (length id ≡ 16) × All (λ b. b < 256) id

abbrev pub zero_uuid : Uuid
zero_uuid = replicate 16 0

unfoldable pub is_zero : Uuid → Bool
is_zero id = text_eq id zero_uuid

pub data UuidError : Type 0 where
  no_random out_of_range invalid_uuid : UuidError

-- `value[i] == c`, at an index that is in range where the code reads it.
abbrev pub byte_is : Text → ℕ → ℕ → Bool
byte_is value i c = elim (get_elem? value i) [ none ↦ false | some d ↦ d == c ]

-- `value[i:j]`.
abbrev pub slice : Text → ℕ → ℕ → Text
slice value i j = take (j - i) (drop i value)

-- `hex.DecodeString`: pairs of hexadecimal digits of either case.
abbrev hex_value : ℕ → Option ℕ
hex_value c =
    if leb b'0' c && leb c b'9'
    then some (c - b'0')
    else if leb b'a' c && leb c b'f'
    then some (c - b'a' + 10)
    else if leb b'A' c && leb c b'F'
    then some (c - b'A' + 10)
    else none

abbrev hex_byte : Option ℕ → Option ℕ → Option (List ℕ) → Option (List ℕ)
hex_byte (some a) (some b) (some s) = some ((a * 16 + b) ∷ s)
hex_byte _ _ _ = none

pub decode_hex : Text → Option (List ℕ)
decode_hex [] = some []
decode_hex (a ∷ []) = none
decode_hex (a ∷ b ∷ s) = hex_byte (hex_value a) (hex_value b) (decode_hex s)

-- The verb %x at bytes.
abbrev hex_char : ℕ → ℕ
hex_char d = if ltb d 10 then b'0' + d else b'a' + (d - 10)

pub encode_hex : List ℕ → Text
encode_hex [] = []
encode_hex (b ∷ s) = hex_char (b / 16) ∷ hex_char (b % 16) ∷ encode_hex s

-- The 32 digits of a text in the canonical form.
unfoldable pub uuid_digits : Text → Text
uuid_digits value =
    slice value 0 8
    ++ (slice value 9 13 ++ (slice value 14 18 ++ (slice value 19 23 ++ drop 24 value)))

unfoldable pub has_dashes : Text → Bool
has_dashes value =
    byte_is value 8 b'-' && byte_is value 13 b'-' && byte_is value 18 b'-' && byte_is value 23 b'-'

decoded_uuid : Option (List ℕ) → Result UuidError Uuid
decoded_uuid none = err invalid_uuid
decoded_uuid (some decoded) = if not (length decoded == 16) then err invalid_uuid else ok decoded

unfoldable pub parse_uuid : Text → Result UuidError Uuid
unfolding decode_hex decoded_uuid
parse_uuid text =
    let value = trim_space text in
    if not (length value == 36) || not (has_dashes value)
    then err invalid_uuid
    else decoded_uuid (decode_hex (uuid_digits value))

unfoldable pub to_string : Uuid → Text
unfolding encode_hex
to_string id =
    encode_hex (slice id 0 4)
    ++ (b'-'
        ∷ (encode_hex (slice id 4 6)
            ++ (b'-'
                ∷ (encode_hex (slice id 6 8)
                    ++ (b'-'
                        ∷ (encode_hex (slice id 8 10) ++ (b'-' ∷ encode_hex (slice id 10 16))))))))

-- `NewUUID`: the random bytes are those that `rand.Read` gives, if it gives any, and `ms` is the
-- clock's Unix time in milliseconds.
unfoldable pub new_uuid : Option (List ℕ) → ℤ → Result UuidError Uuid
new_uuid none ms = err no_random
new_uuid (some random) ms =
    if is_negative ms || ltb 0xffffffffffff (pos_part ms)
    then err out_of_range
    else (let t = pos_part ms in
        let id1 =
          set (set (set random 0 (t / 2 ^ 40 % 256)) 1 (t / 2 ^ 32 % 256)) 2 (t / 2 ^ 24 % 256) in
        let id2 = set (set (set id1 3 (t / 2 ^ 16 % 256)) 4 (t / 2 ^ 8 % 256)) 5 (t % 256) in
        let id3 = set id2 6 (bit_or (bit_and (get_or id2 6 0) 0x0f) 0x70) in
        ok (set id3 8 (bit_or (bit_and (get_or id3 8 0) 0x3f) 0x80)))
