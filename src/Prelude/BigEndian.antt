-- ===== src/Prelude/BigEndian.antt =====
-- Big-endian numbers: `big.Int`'s bytes, and encoding/binary's int64 and int32.
use plot_thread.Prelude.Tests.{ltb, if◌then◌else◌}
use plot_thread.Prelude.Lists.{length, length-append}
use plot_thread.Prelude.Int.{ℤ, pos, negsuc, IsInt64}
use plot_thread.Prelude.Bytes.{Bytes}
use Prim.Native.Nat.{ℕ, zero, suc, ◌+◌, ◌-◌, ◌*◌, ◌/◌, ◌%◌, ◌^◌, ◌<◌}
use mathlib.Core.Path.{◌≡◌, refl}
use mathlib.Core.List.{[], ◌∷◌, ◌++◌}
use native.Mathlib.Omega.{arith}
use native.Mathlib.Nat.{pow-suc}

-- The lowest k bytes of a number, the highest first.
unfoldable pub big_endian : ℕ → ℕ → Bytes
big_endian zero n = []
big_endian (suc k) n = big_endian k (n / 256) ++ (n % 256) ∷ []

from_bytes : ℕ → Bytes → ℕ
from_bytes acc [] = acc
from_bytes acc (b ∷ bs) = from_bytes (acc * 256 + b) bs

unfoldable pub from_big_endian : Bytes → ℕ
unfolding from_bytes
from_big_endian b = from_bytes 0 b

from_bytes-append :
    (acc : ℕ) (xs : Bytes) (b : ℕ) → from_bytes acc (xs ++ b ∷ []) ≡ from_bytes acc xs * 256 + b
unfolding from_bytes
from_bytes-append acc [] b = refl
from_bytes-append acc (x ∷ xs) b = from_bytes-append (acc * 256 + x) xs b

pub length-big_endian : (k n : ℕ) → length (big_endian k n) ≡ k
unfolding big_endian
length-big_endian zero n = refl
length-big_endian (suc k) n =
    omega (
      arith,
      length-append (big_endian k (n / 256)) ((n % 256) ∷ []),
      length-big_endian k (n / 256),
    )

pub from_big_endian-big_endian : (k n : ℕ) → n < 256 ^ k → from_big_endian (big_endian k n) ≡ n
unfolding from_big_endian big_endian
from_big_endian-big_endian zero n h = omega arith
from_big_endian-big_endian (suc k) n h = omega (
  arith,
  from_bytes-append 0 (big_endian k (n / 256)) (n % 256),
  from_big_endian-big_endian k (n / 256) (omega (arith, pow-suc 256 k)),
)

-- Two's complement.
unfoldable pub to_uint64 : ℤ → ℕ
to_uint64 (pos n) = n
to_uint64 (negsuc n) = 18446744073709551615 - n

unfoldable pub from_uint64 : ℕ → ℤ
from_uint64 n = if ltb n 9223372036854775808 then pos n else negsuc (18446744073709551615 - n)

-- `binary.Write(buf, binary.BigEndian, int64)` and `binary.Read`
unfoldable pub write_int64 : ℤ → Bytes
write_int64 x = big_endian 8 (to_uint64 x)

unfoldable pub read_int64 : Bytes → ℤ
read_int64 b = from_uint64 (from_big_endian b)

pub read_int64-write_int64 : (x : ℤ) → IsInt64 x → read_int64 (write_int64 x) ≡ x
unfolding read_int64 write_int64 to_uint64 from_uint64
read_int64-write_int64 (pos n) h = ground (arith, from_big_endian-big_endian 8 n)
read_int64-write_int64 (negsuc n) h =
    ground (arith, from_big_endian-big_endian 8 (18446744073709551615 - n))
