-- ===== src/Prelude/Words.antt =====
-- Bytes and words: big-endian fields of a packet, C integers of 16 and 32 bits.
use Prim.Native.Nat.{ℕ, ◌+◌, ◌-◌, ◌*◌, ◌/◌, ◌%◌, ◌^◌, ◌<◌}
use mathlib.Core.Path.{◌≡◌}
use mathlib.Core.Bool.{Bool, true, false}
use mathlib.Core.List.{List, [], ◌∷◌}
use native.Mathlib.Omega.{arith}
use rmtdos_utils.Prelude.Tests.{ltb, if◌then◌else◌}
use rmtdos_utils.Prelude.Lists.{get_or}

abbrev pub byte : List ℕ → ℕ → ℕ
byte xs i = get_or xs i 0

-- `htons` and `htonl` before a store: the most significant byte comes first.
abbrev pub be16 : ℕ → List ℕ
be16 n = (n / 256 % 256) ∷ (n % 256) ∷ []

abbrev pub be32 : ℕ → List ℕ
be32 n = (n / 2 ^ 24 % 256) ∷ (n / 2 ^ 16 % 256) ∷ (n / 256 % 256) ∷ (n % 256) ∷ []

-- `ntohs` and `ntohl` after a load at a byte offset.
abbrev pub get_be16 : List ℕ → ℕ → ℕ
get_be16 xs i = byte xs i * 256 + byte xs (i + 1)

abbrev pub get_be32 : List ℕ → ℕ → ℕ
get_be32 xs i =
    byte xs i * 2 ^ 24 + byte xs (i + 1) * 2 ^ 16 + byte xs (i + 2) * 256 + byte xs (i + 3)

abbrev pub u16 : ℕ → ℕ
u16 n = n % 2 ^ 16

abbrev pub u32 : ℕ → ℕ
u32 n = n % 2 ^ 32

-- The signed numbers: `negsuc n` is -(n + 1).
pub data ℤ : Type 0 where
  pos : ℕ → ℤ
  negsuc : ℕ → ℤ

abbrev pub minus_one : ℤ
minus_one = negsuc 0

abbrev pub is_neg : ℤ → Bool
is_neg (pos n) = false
is_neg (negsuc n) = true

-- A 16-bit register read as the `int` of the 16-bit compiler, and an `int` put in a register.
abbrev pub int_of_u16 : ℕ → ℤ
int_of_u16 w = if ltb w (2 ^ 15) then pos w else negsuc (2 ^ 16 - 1 - w)

abbrev pub u16_of_int : ℤ → ℕ
u16_of_int (pos n) = n % 2 ^ 16
u16_of_int (negsuc n) = 2 ^ 16 - 1 - n % 2 ^ 16

pub be16_roundtrip : (n : ℕ) → n < 2 ^ 16 → (n / 256 % 256) * 256 + n % 256 ≡ n
be16_roundtrip n h = omega arith

pub be32_roundtrip :
    (n : ℕ)
    → n < 2 ^ 32
    → (n / 2 ^ 24 % 256) * 2 ^ 24 + (n / 2 ^ 16 % 256) * 2 ^ 16 + (n / 256 % 256) * 256 + n % 256
      ≡ n
be32_roundtrip n h = omega arith
