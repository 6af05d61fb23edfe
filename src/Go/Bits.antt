-- ===== src/Go/Bits.antt =====
-- Go's `int` as a 64-bit pattern: the shifts of a mask, the conversion to `uint16`, and
-- `bits.Len`.
pub mod Laws
use chaosblade_exec_os.Prelude.{ℕ, zero, suc, ◌+◌, ◌*◌, ◌/◌, ◌%◌, ◌^◌, ltb, if◌then◌else◌}

-- x <<= 1
unfoldable pub shl_one : ℕ → ℕ
shl_one x = x * 2 % 2 ^ 64

-- x >> 1, which copies the sign bit
unfoldable pub sar_one : ℕ → ℕ
sar_one x = if ltb x (2 ^ 63) then x / 2 else x / 2 + 2 ^ 63

-- uint16(x)
unfoldable pub to_uint16 : ℕ → ℕ
to_uint16 x = x % 2 ^ 16

-- `bits.Len`: the digits that are left, on fuel that is at least their number
unfoldable pub bit_len_from : ℕ → ℕ → ℕ
bit_len_from zero x = 0
bit_len_from (suc fuel) zero = 0
bit_len_from (suc fuel) (suc x) = suc (bit_len_from fuel (suc x / 2))

-- bits.Len(uint(x))
unfoldable pub bit_len : ℕ → ℕ
unfolding bit_len_from
bit_len x = bit_len_from 64 x
