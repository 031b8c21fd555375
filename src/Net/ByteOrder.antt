-- ===== src/Net/ByteOrder.antt =====
-- `encoding/binary` and the byte order of the machine.
use rate_limiter.Base.{ℕ, ◌+◌, ◌*◌, ◌/◌, ◌%◌, ◌^◌, ◌<◌, ◌≡◌, [], ◌∷◌, Bytes, arith}

pub data Endian : Type 0 where
  little big : Endian

-- `binary.BigEndian.Uint32(b)` of four bytes
unfoldable pub be_u32 : Bytes → ℕ
be_u32 (a ∷ b ∷ c ∷ d ∷ _) = a * 2 ^ 24 + b * 2 ^ 16 + c * 2 ^ 8 + d
be_u32 _ = 0

-- `binary.BigEndian.PutUint32(b, n)`
unfoldable pub put_be_u32 : ℕ → Bytes
put_be_u32 n = (n / 2 ^ 24 % 256) ∷ (n / 2 ^ 16 % 256) ∷ (n / 2 ^ 8 % 256) ∷ (n % 256) ∷ []

-- A `uint32` in the machine's memory.
unfoldable pub host_u32 : Endian → ℕ → Bytes
unfolding put_be_u32
host_u32 Endian.big n = put_be_u32 n
host_u32 Endian.little n =
    (n % 256) ∷ (n / 2 ^ 8 % 256) ∷ (n / 2 ^ 16 % 256) ∷ (n / 2 ^ 24 % 256) ∷ []

-- A `uint64` in the machine's memory.
unfoldable pub host_u64 : Endian → ℕ → Bytes
unfolding host_u32
host_u64 Endian.big n =
    (n / 2 ^ 56 % 256)
    ∷ (n / 2 ^ 48 % 256)
    ∷ (n / 2 ^ 40 % 256)
    ∷ (n / 2 ^ 32 % 256)
    ∷ (n / 2 ^ 24 % 256)
    ∷ (n / 2 ^ 16 % 256)
    ∷ (n / 2 ^ 8 % 256)
    ∷ (n % 256)
    ∷ []
host_u64 Endian.little n =
    (n % 256)
    ∷ (n / 2 ^ 8 % 256)
    ∷ (n / 2 ^ 16 % 256)
    ∷ (n / 2 ^ 24 % 256)
    ∷ (n / 2 ^ 32 % 256)
    ∷ (n / 2 ^ 40 % 256)
    ∷ (n / 2 ^ 48 % 256)
    ∷ (n / 2 ^ 56 % 256)
    ∷ []

-- What a load of a `__u64` from memory gives.
unfoldable pub load_u64 : Endian → Bytes → ℕ
load_u64 Endian.big (a ∷ b ∷ c ∷ d ∷ e ∷ f ∷ g ∷ h ∷ _) =
    a * 2 ^ 56 + b * 2 ^ 48 + c * 2 ^ 40 + d * 2 ^ 32 + e * 2 ^ 24 + f * 2 ^ 16 + g * 2 ^ 8 + h
load_u64 Endian.little (a ∷ b ∷ c ∷ d ∷ e ∷ f ∷ g ∷ h ∷ _) =
    h * 2 ^ 56 + g * 2 ^ 48 + f * 2 ^ 40 + e * 2 ^ 32 + d * 2 ^ 24 + c * 2 ^ 16 + b * 2 ^ 8 + a
load_u64 _ _ = 0

-- A load reads back what the machine stored.
pub load_u64-host_u64 : (e : Endian) (n : ℕ) → n < 2 ^ 64 → load_u64 e (host_u64 e n) ≡ n
unfolding load_u64 host_u64
load_u64-host_u64 Endian.big n h = omega arith
load_u64-host_u64 Endian.little n h = omega arith
