-- ===== src/Domain/Uuid/Fresh.antt =====
-- The layout of the identifiers that `NewUUID` of internal/domain/identity.go makes.
use mathlib.Core.Path.{sym, subst}
use Prim.Native.Nat.{bit_and, bit_or}
use urbino.Base.{
  inr, inl, Bool-cases, Option, ℕ, zero, suc, ◌+◌, ◌*◌, ◌/◌, ◌%◌, ◌^◌, ◌≤◌, ◌<◌, ◌≡◌, refl, Bool,
  true, false, ◌&&◌, List, [], ◌∷◌, none, some, arith, ◌==◌, ==_iff, get_or, drop,
}
use urbino.Base.Text.{text_eq}
use urbino.Base.Int.{ℤ, pos}
use urbino.Base.Result.{ok}
use urbino.Domain.Uuid.{is_zero, Uuid, IsUuid, new_uuid}

-- A test of two functions at the numbers below a bound, by evaluation.
agree_until : (f g : ℕ → ℕ) → ℕ → Bool
agree_until f g zero = true
agree_until f g (suc bound) = agree_until f g bound && (f bound == g bound)

agree_at : (f g : ℕ → ℕ) (bound b : ℕ) → b < bound → agree_until f g bound ≡ true → f b ≡ g b
unfolding agree_until
agree_at f g zero b low h = absurd (omega (arith, low))
agree_at f g (suc bound) b low h = elim (Bool-cases (b == bound)) [
  | inl same ↦
      subst (λ i. f i ≡ g i) (sym ((==_iff b bound).0 same))
        ((==_iff (f bound) (g bound)).0 (ground arith))
  | inr other ↦ agree_at f g bound b (ground (arith, low)) (ground arith)
]

abbrev with_version : ℕ → ℕ
with_version b = bit_or (bit_and b 0x0f) 0x70

abbrev with_variant : ℕ → ℕ
with_variant b = bit_or (bit_and b 0x3f) 0x80

version_table : agree_until with_version (λ b. b % 16 + 0x70) 256 ≡ true
unfolding agree_until
version_table = refl

variant_table : agree_until with_variant (λ b. b % 64 + 0x80) 256 ≡ true
unfolding agree_until
variant_table = refl

version_byte : (b : ℕ) → b < 256 → with_version b ≡ b % 16 + 0x70
version_byte b h = agree_at with_version (λ b. b % 16 + 0x70) 256 b h version_table

variant_byte : (b : ℕ) → b < 256 → with_variant b ≡ b % 64 + 0x80
variant_byte b h = agree_at with_variant (λ b. b % 64 + 0x80) 256 b h variant_table

-- The first six bytes as a big-endian number.
abbrev pub timestamp : Uuid → ℕ
timestamp id =
    get_or id 0 0 * 2 ^ 40
    + get_or id 1 0 * 2 ^ 32
    + get_or id 2 0 * 2 ^ 24
    + get_or id 3 0 * 2 ^ 16
    + get_or id 4 0 * 2 ^ 8
    + get_or id 5 0

-- The layout of version 7 over the random bytes.
pub record IsVersion7 (random : Uuid) (ms : ℕ) (id : Uuid) : Type 0 where
  pub sixteen : IsUuid id
  pub time : timestamp id ≡ ms
  pub version : get_or id 6 0 ≡ 0x70 + get_or random 6 0 % 16
  pub rand_a : get_or id 7 0 ≡ get_or random 7 0
  pub variant : get_or id 8 0 ≡ 0x80 + get_or random 8 0 % 64
  pub rand_b : drop 9 id ≡ drop 9 random

time_bytes :
    (t : ℕ)
    → t ≤ 0xffffffffffff
    → t / 2 ^ 40 % 256 * 2 ^ 40
        + t / 2 ^ 32 % 256 * 2 ^ 32
        + t / 2 ^ 24 % 256 * 2 ^ 24
        + t / 2 ^ 16 % 256 * 2 ^ 16
        + t / 2 ^ 8 % 256 * 2 ^ 8
        + t % 256
      ≡ t
time_bytes t h = omega arith

fresh_layout :
    (b0 b1 b2 b3 b4 b5 b6 b7 b8 b9 b10 b11 b12 b13 b14 b15 : ℕ) (ms : ℕ)
    → IsUuid
        (b0 ∷ b1 ∷ b2 ∷ b3 ∷ b4 ∷ b5 ∷ b6 ∷ b7 ∷ b8 ∷ b9 ∷ b10 ∷ b11 ∷ b12 ∷ b13 ∷ b14 ∷ b15 ∷ [])
    → ms ≤ 0xffffffffffff
    → (id : Uuid) × (new_uuid
          (some (
            b0 ∷ b1 ∷ b2 ∷ b3 ∷ b4 ∷ b5 ∷ b6 ∷ b7 ∷ b8 ∷ b9 ∷ b10 ∷ b11 ∷ b12 ∷ b13 ∷ b14 ∷ b15
            ∷ []))
          (pos ms)
        ≡ ok id)
      × IsVersion7
          (b0 ∷ b1 ∷ b2 ∷ b3 ∷ b4 ∷ b5 ∷ b6 ∷ b7 ∷ b8 ∷ b9 ∷ b10 ∷ b11 ∷ b12 ∷ b13 ∷ b14 ∷ b15 ∷ [])
          ms
          id
unfolding new_uuid
fresh_layout b0 b1 b2 b3 b4 b5 b6 b7 b8 b9 b10 b11 b12 b13 b14 b15 ms h k = (
  ms / 2 ^ 40 % 256
      ∷ ms / 2 ^ 32 % 256
      ∷ ms / 2 ^ 24 % 256
      ∷ ms / 2 ^ 16 % 256
      ∷ ms / 2 ^ 8 % 256
      ∷ ms % 256
      ∷ with_version b6
      ∷ b7
      ∷ with_variant b8
      ∷ b9
      ∷ b10
      ∷ b11
      ∷ b12
      ∷ b13
      ∷ b14
      ∷ b15
      ∷ [],
  ground arith,
  record {
    sixteen = omega (arith, version_byte b6, variant_byte b8);
    time = time_bytes ms k;
    version = omega (arith, version_byte b6);
    rand_a = refl;
    variant = omega (arith, variant_byte b8);
    rand_b = refl;
  },
)

-- With 16 random bytes, and a clock between the years 1970 and 10889, `NewUUID` gives 16 bytes that
-- hold the clock's milliseconds in the first six, the version 7, the variant of RFC 9562, and the
-- random bits elsewhere.
pub new_uuid-IsVersion7 :
    (random : Uuid) (ms : ℕ)
    → IsUuid random
    → ms ≤ 0xffffffffffff
    → (id : Uuid) × (new_uuid (some random) (pos ms) ≡ ok id) × IsVersion7 random ms id
new_uuid-IsVersion7
      (b0 ∷ b1 ∷ b2 ∷ b3 ∷ b4 ∷ b5 ∷ b6 ∷ b7 ∷ b8 ∷ b9 ∷ b10 ∷ b11 ∷ b12 ∷ b13 ∷ b14 ∷ b15 ∷ []) ms
      h k =
    fresh_layout b0 b1 b2 b3 b4 b5 b6 b7 b8 b9 b10 b11 b12 b13 b14 b15 ms h k
new_uuid-IsVersion7 _ ms h k = absurd (omega arith)

nonzero_bytes :
    (b0 b1 b2 b3 b4 b5 b6 b7 b8 b9 b10 b11 b12 b13 b14 b15 : ℕ) (ms : ℤ) (id : Uuid)
    → b6 < 256
    → new_uuid
        (some (
          b0 ∷ b1 ∷ b2 ∷ b3 ∷ b4 ∷ b5 ∷ b6 ∷ b7 ∷ b8 ∷ b9 ∷ b10 ∷ b11 ∷ b12 ∷ b13 ∷ b14 ∷ b15 ∷ []))
        ms
      ≡ ok id
    → is_zero id ≡ false
unfolding new_uuid is_zero text_eq
nonzero_bytes b0 b1 b2 b3 b4 b5 b6 b7 b8 b9 b10 b11 b12 b13 b14 b15 ms id h e =
    ground (arith, version_byte b6)

nonzero_some :
    (random : Uuid) (ms : ℤ) (id : Uuid)
    → IsUuid random
    → new_uuid (some random) ms ≡ ok id
    → is_zero id ≡ false
nonzero_some
      (b0 ∷ b1 ∷ b2 ∷ b3 ∷ b4 ∷ b5 ∷ b6 ∷ b7 ∷ b8 ∷ b9 ∷ b10 ∷ b11 ∷ b12 ∷ b13 ∷ b14 ∷ b15 ∷ []) ms
      id h e =
    nonzero_bytes b0 b1 b2 b3 b4 b5 b6 b7 b8 b9 b10 b11 b12 b13 b14 b15 ms id (omega arith) e
nonzero_some _ ms id h e = absurd (omega arith)

-- An identifier that `NewUUID` makes is not the zero identifier.
pub new_uuid-nonzero :
    (random : Option (List ℕ)) (ms : ℤ) (id : Uuid)
    → ((b : List ℕ) → random ≡ some b → IsUuid b)
    → new_uuid random ms ≡ ok id
    → is_zero id ≡ false
new_uuid-nonzero none ms id h e = unfold new_uuid in cc
new_uuid-nonzero (some random) ms id h e = nonzero_some random ms id (h random refl) e
