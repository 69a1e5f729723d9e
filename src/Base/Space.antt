-- ===== src/Base/Space.antt =====
-- `strings.TrimSpace` and the case mappings of the package `strings`, over the bytes of UTF-8.
use Prim.Native.Nat.{ℕ, zero, suc, ◌+◌, ◌-◌, ◌<◌}
use mathlib.Core.Path.{◌≡◌, refl}
use mathlib.Core.Bool.{Bool, ◌&&◌, ◌||◌}
use mathlib.Core.List.{[], ◌∷◌, ◌++◌, reverse, reverse-reverse}
use native.Mathlib.Omega.{arith}
use urbino.Base.Tests.{leb, ◌==◌, if◌then◌else◌}
use urbino.Base.Text.{Text, codes}

-- White space of one byte: tab to carriage return, and the blank.
abbrev pub is_space : ℕ → Bool
is_space c = (leb 9 c && leb c 13) || c == 32

-- U+0085 and U+00A0.
abbrev pub is_space2 : ℕ → ℕ → Bool
is_space2 a b = a == 0xc2 && (b == 0x85 || b == 0xa0)

-- U+1680, U+2000 to U+200A, U+2028, U+2029, U+202F, U+205F and U+3000.
abbrev pub is_space3 : ℕ → ℕ → ℕ → Bool
is_space3 a b c =
    (a == 0xe1 && b == 0x9a && c == 0x80)
    || (a == 0xe2
        && b == 0x80
        && ((leb 0x80 c && leb c 0x8a) || c == 0xa8 || c == 0xa9 || c == 0xaf))
    || (a == 0xe2 && b == 0x81 && c == 0x9f)
    || (a == 0xe3 && b == 0x80 && c == 0x80)

-- The bytes of the white space that a text begins with: 0 if it begins with none.
abbrev width2 : ℕ → Text → ℕ
width2 a [] = 0
width2 a (b ∷ []) = if is_space2 a b then 2 else 0
width2 a (b ∷ c ∷ s) = if is_space2 a b then 2 else if is_space3 a b c then 3 else 0

unfoldable pub space_width : ℕ → Text → ℕ
space_width a s = if is_space a then 1 else width2 a s

-- The same at the end of a text, which is read backwards.
abbrev last_width2 : ℕ → Text → ℕ
last_width2 c [] = 0
last_width2 c (b ∷ []) = if is_space2 b c then 2 else 0
last_width2 c (b ∷ a ∷ s) = if is_space2 b c then 2 else if is_space3 a b c then 3 else 0

pub last_width : ℕ → Text → ℕ
last_width c s = if is_space c then 1 else last_width2 c s

-- The first argument counts the bytes of a white space that are still to be skipped.
pub skip_spaces : (ℕ → Text → ℕ) → ℕ → Text → Text
skip_spaces width k [] = []
skip_spaces width (suc k) (c ∷ s) = skip_spaces width k s
skip_spaces width zero (c ∷ s) = elim (width c s) [ zero ↦ c ∷ s | suc k ↦ skip_spaces width k s ]

unfoldable pub trim_space : Text → Text
unfolding space_width last_width skip_spaces
trim_space s = reverse (skip_spaces last_width 0 (reverse (skip_spaces space_width 0 s)))

-- A byte that begins and ends no white space: ASCII, and neither blank nor control.
abbrev pub IsGraphic : ℕ → Type 0
IsGraphic c = (32 < c) × (c < 128)

space_width-graphic : (c : ℕ) (s : Text) → IsGraphic c → space_width c s ≡ 0
unfolding space_width
space_width-graphic c [] h = ground arith
space_width-graphic c (b ∷ []) h = ground arith
space_width-graphic c (b ∷ d ∷ s) h = ground arith

last_width-graphic : (c : ℕ) (s : Text) → IsGraphic c → last_width c s ≡ 0
unfolding last_width
last_width-graphic c [] h = ground arith
last_width-graphic c (b ∷ []) h = ground arith
last_width-graphic c (b ∷ d ∷ s) h = ground arith

-- The first byte of a text, if there is one, is graphic.
abbrev pub IsHeadGraphic : Text → Type 0
IsHeadGraphic [] = Unit
IsHeadGraphic (c ∷ s) = IsGraphic c

skip_spaces-head : (s : Text) → IsHeadGraphic s → skip_spaces space_width 0 s ≡ s
unfolding skip_spaces
skip_spaces-head [] h = refl
skip_spaces-head (c ∷ s) h = rw (space_width-graphic c s h, skip_spaces) refl

skip_spaces-last : (s : Text) → IsHeadGraphic s → skip_spaces last_width 0 s ≡ s
unfolding skip_spaces
skip_spaces-last [] h = refl
skip_spaces-last (c ∷ s) h = rw (last_width-graphic c s h, skip_spaces) refl

-- Text with graphic bytes at both ends is trimmed already.
pub trim_space_id : (s : Text) → IsHeadGraphic s → IsHeadGraphic (reverse s) → trim_space s ≡ s
unfolding trim_space
trim_space_id s h t = rw (skip_spaces-head s h, skip_spaces-last (reverse s) t) (reverse-reverse s)

-- `strings.ToUpper`, compared with ASCII text only: U+0131 and U+017F are the two characters outside
-- ASCII with a capital in ASCII (I and S); all others stay outside ASCII and are left as they are.
unfoldable pub to_upper : Text → Text
to_upper [] = []
to_upper (c ∷ []) = (if leb b'a' c && leb c b'z' then c - 32 else c) ∷ []
to_upper (c ∷ d ∷ s) =
    let two = to_upper s in
    let one = to_upper (d ∷ s) in
    if c == 0xc4 && d == 0xb1
    then b'I' ∷ two
    else if c == 0xc5 && d == 0xbf
    then b'S' ∷ two
    else (if leb b'a' c && leb c b'z' then c - 32 else c) ∷ one

-- `strings.ToLower`, compared with ASCII text only: U+0130 and U+212A (the Kelvin sign) are the two
-- characters outside ASCII with a small letter in ASCII (i and k).
unfoldable pub to_lower : Text → Text
to_lower [] = []
to_lower (c ∷ []) = (if leb b'A' c && leb c b'Z' then c + 32 else c) ∷ []
to_lower (c ∷ d ∷ []) =
    let one = to_lower (d ∷ []) in
    if c == 0xc4 && d == 0xb0
    then b'i' ∷ []
    else (if leb b'A' c && leb c b'Z' then c + 32 else c) ∷ one
to_lower (c ∷ d ∷ e ∷ s) =
    let one = to_lower (d ∷ e ∷ s) in
    let two = to_lower (e ∷ s) in
    let three = to_lower s in
    if c == 0xc4 && d == 0xb0
    then b'i' ∷ two
    else if c == 0xe2 && d == 0x84 && e == 0xaa
    then b'k' ∷ three
    else (if leb b'A' c && leb c b'Z' then c + 32 else c) ∷ one

to_upper_test : to_upper (codes "uSd9z" ++ 0xc5 ∷ 0xbf ∷ []) ≡ codes "USD9ZS"
unfolding to_upper
to_upper_test = refl

trim_space_test :
    trim_space (32 ∷ 0xe3 ∷ 0x80 ∷ 0x80 ∷ codes "a b" ++ 0xc2 ∷ 0xa0 ∷ 10 ∷ []) ≡ codes "a b"
unfolding trim_space
trim_space_test = refl
