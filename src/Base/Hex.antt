-- ===== src/Base/Hex.antt =====
-- Hexadecimal digests: `bytes.hex`, `bytes.fromhex` and the test `_hex256` of store.py.
use Prim.Native.Nat.{ℕ, ◌+◌, ◌-◌, ◌*◌, ◌/◌, ◌%◌, ◌<◌}
use mathlib.Core.Path.{◌≡◌, refl, ap}
use mathlib.Core.Bool.{Bool, true, false, ◌&&◌, ◌||◌}
use mathlib.Core.Option.{Option, none, some}
use mathlib.Core.List.{List, [], ◌∷◌}
use native.Mathlib.Omega.{arith}
use curator_skill_registry.Base.Tests.{leb, ltb, ◌==◌, if◌then◌else◌}
use curator_skill_registry.Base.Lists.{length, all, All}
use curator_skill_registry.Base.Texts.{Text}

abbrev pub Bytes : Type 0
Bytes = List ℕ

abbrev pub IsByte : ℕ → Type 0
IsByte b = b < 256

-- A digest of SHA-256: 32 bytes.
pub record IsDigest (b : Bytes) : Type 0 where
  pub size : length b ≡ 32
  pub bytes : All IsByte b

hex_digit : ℕ → ℕ
hex_digit n = if leb n 9 then b'0' + n else b'a' + (n - 10)

-- `b.hex()`
unfoldable pub hex : Bytes → Text
unfolding hex_digit
hex [] = []
hex (b ∷ bs) = hex_digit (b / 16) ∷ hex_digit (b % 16) ∷ hex bs

digit_value : ℕ → Option ℕ
digit_value c =
    if leb b'0' c && leb c b'9'
    then some (c - b'0')
    else if leb b'a' c && leb c b'f'
    then some (c - b'a' + 10)
    else if leb b'A' c && leb c b'F'
    then some (c - b'A' + 10)
    else none

-- the ASCII white space that `bytes.fromhex` skips between bytes
is_space : ℕ → Bool
is_space c = (leb 9 c && leb c 13) || c == 32

byte_of : Option ℕ → Option ℕ → Option Bytes → Option Bytes
byte_of (some h) (some l) (some bs) = some ((h * 16 + l) ∷ bs)
byte_of _ _ _ = none

-- `bytes.fromhex(t)`; `none` is its ValueError
unfoldable pub from_hex : Text → Option Bytes
unfolding digit_value is_space byte_of
from_hex [] = some []
from_hex (c ∷ []) = if is_space c then some [] else none
from_hex (c ∷ d ∷ r) =
    let skipped = from_hex (d ∷ r) in
    let rest = from_hex r in
    if is_space c then skipped else byte_of (digit_value c) (digit_value d) rest

-- `_hex256(value)`: 64 digits of "0123456789abcdef"
unfoldable pub is_lower_hex : ℕ → Bool
is_lower_hex c = (leb b'0' c && leb c b'9') || (leb b'a' c && leb c b'f')

unfoldable pub hex256 : Text → Bool
unfolding is_lower_hex
hex256 t = length t == 64 && all is_lower_hex t

hex_digit_value : (n : ℕ) → n < 16 → digit_value (hex_digit n) ≡ some n
unfolding hex_digit digit_value
hex_digit_value n h = ground arith

hex_digit-not-space : (n : ℕ) → n < 16 → is_space (hex_digit n) ≡ false
unfolding hex_digit is_space
hex_digit-not-space n h = ground arith

hex_digit-is_lower_hex : (n : ℕ) → n < 16 → is_lower_hex (hex_digit n) ≡ true
unfolding hex_digit is_lower_hex
hex_digit-is_lower_hex n h = ground arith

byte_halves : (b : ℕ) → b < 256 → (b / 16) * 16 + b % 16 ≡ b
byte_halves b h = omega arith

hex-cons : (b : ℕ) (bs : Bytes) → hex (b ∷ bs) ≡ hex_digit (b / 16) ∷ hex_digit (b % 16) ∷ hex bs
unfolding hex
hex-cons b bs = refl

from_hex-pair :
    (c d : ℕ) (r : Text)
    → is_space c ≡ false
    → from_hex (c ∷ d ∷ r) ≡ byte_of (digit_value c) (digit_value d) (from_hex r)
unfolding from_hex
from_hex-pair c d r h = rw h

-- Reading back what `hex` writes gives the same bytes.
pub from_hex-hex : (bs : Bytes) → All IsByte bs → from_hex (hex bs) ≡ some bs
from_hex-hex [] h = unfold hex from_hex in refl
from_hex-hex (b ∷ bs) h =
    let hi : b / 16 < 16 = omega (arith, h.0) in
    let lo : b % 16 < 16 = omega arith in
    rw
      (
        hex-cons b bs,
        from_hex-pair (hex_digit (b / 16)) (hex_digit (b % 16)) (hex bs) (hex_digit-not-space _ hi),
        hex_digit_value _ hi,
        hex_digit_value _ lo,
        from_hex-hex bs h.1,
      )
      (unfold byte_of in ap (λ n. some (n ∷ bs)) (byte_halves b h.0))

hex_digit-ascii : (n : ℕ) → n < 16 → ltb (hex_digit n) 128 ≡ true
unfolding hex_digit
hex_digit-ascii n h = ground arith

-- The digits are ASCII.
pub hex-ascii : (bs : Bytes) → All IsByte bs → all (λ c. ltb c 128) (hex bs) ≡ true
hex-ascii [] h = unfold hex in refl
hex-ascii (b ∷ bs) h =
    let hi : b / 16 < 16 = omega (arith, h.0) in
    let lo : b % 16 < 16 = omega arith in
    rw (hex-cons b bs) (rw (hex_digit-ascii _ hi, hex_digit-ascii _ lo) (hex-ascii bs h.1))

length-hex : (bs : Bytes) → length (hex bs) ≡ 2 * length bs
unfolding hex
length-hex [] = omega arith
length-hex (b ∷ bs) = omega (arith, length-hex bs)

all-hex : (bs : Bytes) → All IsByte bs → all is_lower_hex (hex bs) ≡ true
all-hex [] h = unfold hex in refl
all-hex (b ∷ bs) h =
    let hi : b / 16 < 16 = omega (arith, h.0) in
    let lo : b % 16 < 16 = omega arith in
    rw (hex-cons b bs)
      (rw (hex_digit-is_lower_hex _ hi, hex_digit-is_lower_hex _ lo) (all-hex bs h.1))

pub hex256-hex : (bs : Bytes) → IsDigest bs → hex256 (hex bs) ≡ true
unfolding hex256
hex256-hex bs h = ground (arith, all-hex bs h.bytes, length-hex bs)
