-- ===== src/Prelude/Words.antt =====
-- Machine words as native numbers. The operations with a constant mask or shift are written in the
-- arithmetic that they are: `x >> k`, `x & (2^k - 1)`, `(x & (1 << k)) != 0`, and a cast to w bits.
use Prim.Native.Nat.{ℕ, ◌+◌, ◌*◌, ◌/◌, ◌%◌, ◌^◌, ◌<◌}
use mathlib.Core.Bool.{Bool}
use mathlib.Core.List.{List, ◌∷◌}
use bacnet_sim.Prelude.Tests.{◌==◌}

abbrev pub shr : ℕ → ℕ → ℕ
shr x k = x / 2 ^ k

abbrev pub low_bits : ℕ → ℕ → ℕ
low_bits x k = x % 2 ^ k

abbrev pub has_bit : ℕ → ℕ → Bool
has_bit x k = x / 2 ^ k % 2 == 1

-- `x as u8`, `x as u16`, `x as u32`
abbrev pub as_u8 : ℕ → ℕ
as_u8 x = x % 2 ^ 8

abbrev pub as_u16 : ℕ → ℕ
as_u16 x = x % 2 ^ 16

abbrev pub as_u32 : ℕ → ℕ
as_u32 x = x % 2 ^ 32

-- `u16::from_be_bytes`, `u32::from_be_bytes`
abbrev pub be16 : ℕ → ℕ → ℕ
be16 a b = a * 256 + b

abbrev pub be32 : ℕ → ℕ → ℕ → ℕ → ℕ
be32 a b c d = ((a * 256 + b) * 256 + c) * 256 + d

-- `x.to_be_bytes()` of a u16, of a u32 and of a u64, followed by `rest`
abbrev pub be16_bytes : ℕ → List ℕ → List ℕ
be16_bytes x rest = (x / 256 % 256) ∷ (x % 256) ∷ rest

abbrev pub be32_bytes : ℕ → List ℕ → List ℕ
be32_bytes x rest = be16_bytes (x / 2 ^ 16) (be16_bytes (x % 2 ^ 16) rest)

abbrev pub be64_bytes : ℕ → List ℕ → List ℕ
be64_bytes x rest = be32_bytes (x / 2 ^ 32) (be32_bytes (x % 2 ^ 32) rest)

abbrev pub IsByte : ℕ → Type 0
IsByte b = b < 256

abbrev pub IsU16 : ℕ → Type 0
IsU16 x = x < 2 ^ 16

abbrev pub IsU32 : ℕ → Type 0
IsU32 x = x < 2 ^ 32

abbrev pub IsU64 : ℕ → Type 0
IsU64 x = x < 2 ^ 64
