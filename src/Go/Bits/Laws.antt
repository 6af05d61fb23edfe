-- ===== src/Go/Bits/Laws.antt =====
-- Laws of `bit_and` at variables, by the recursion on binary digits that it stands for.
use Prim.Native.Nat.{digits, bit_and-bitwise}
use native.Mathlib.Nat.{pow-suc, one-le-pow, add-zero, add-suc}
use chaosblade_exec_os.Prelude.{
  ℕ, zero, suc, ◌+◌, ◌-◌, ◌*◌, ◌/◌, ◌%◌, ◌^◌, ◌≤◌, ◌<◌, min, bit_and, ◌≡◌, refl, ap, arith,
}
use chaosblade_exec_os.Go.Bits.{bit_len_from, bit_len}

abbrev and_of : ℕ → ℕ → ℕ → ℕ
and_of fuel a b = digits (λ y. 0) min fuel a b

-- More fuel than the left number changes nothing.
and_of_more :
    (small large a b : ℕ) → a ≤ small → small ≤ large → and_of small a b ≡ and_of large a b
and_of_more zero zero zero b h k = refl
and_of_more zero (suc large) zero b h k = refl
and_of_more (suc small) (suc large) zero b h k = refl
and_of_more (suc small) (suc large) (suc a) b h k =
    ap (λ (rest : ℕ). rest * 2 + min (suc a % 2) (b % 2))
      (and_of_more small large (suc a / 2) (b / 2) (omega arith) (omega arith))
and_of_more (suc small) zero a b h k = absurd (omega arith)
and_of_more zero large (suc a) b h k = absurd (omega arith)

-- The lowest digit apart.
pub bit_and-digit : (a b : ℕ) → bit_and a b ≡ bit_and (a / 2) (b / 2) * 2 + min (a % 2) (b % 2)
bit_and-digit zero b = omega (arith, bit_and-bitwise 0 b, bit_and-bitwise 0 (b / 2))
bit_and-digit (suc a) b = omega (
  arith,
  bit_and-bitwise (suc a) b,
  bit_and-bitwise (suc a / 2) (b / 2),
  and_of_more (suc a / 2) a (suc a / 2) (b / 2) (omega arith) (omega arith),
)

pub zero-bit_and : (b : ℕ) → bit_and 0 b ≡ 0
zero-bit_and b = bit_and-bitwise 0 b

pub mul-pow-suc : (q k : ℕ) → q * 2 ^ suc k ≡ 2 * (q * 2 ^ k)
mul-pow-suc q k = omega (arith, ap (λ (t : ℕ). q * t) (pow-suc 2 k))

pub pow_pos : (k : ℕ) → 0 < 2 ^ k
pow_pos k = one-le-pow k 2 (omega arith)

pub pow_sum : (k c : ℕ) → 2 ^ (k + c) ≡ 2 ^ k * 2 ^ c
pow_sum k zero = rw add-zero (omega arith)
pow_sum k (suc c) =
    rw add-suc (omega (arith, pow-suc 2 (k + c), pow_sum k c, pow-suc 2 c, mul-pow-suc (2 ^ k) c))

pub bit_and-zero : (a : ℕ) → bit_and a 0 ≡ 0
bit_and-zero a = below a a (omega arith)
  where
    below : (n a : ℕ) → a ≤ n → bit_and a 0 ≡ 0
    below n zero h = zero-bit_and 0
    below zero (suc a) h = absurd (omega arith)
    below (suc n) (suc a) h =
        omega (arith, bit_and-digit (suc a) 0, below n (suc a / 2) (omega arith))

-- A multiple of 2 ^ k as mask ignores the k lowest digits.
pub bit_and-shifted :
    (k q r s : ℕ) → r < 2 ^ k → bit_and (q * 2 ^ k + r) (s * 2 ^ k) ≡ bit_and q s * 2 ^ k
bit_and-shifted zero q r s h = ground arith
bit_and-shifted (suc k) q r s h = ground (
  arith,
  bit_and-digit (q * 2 ^ suc k + r) (s * 2 ^ suc k),
  mul-pow-suc q k,
  mul-pow-suc s k,
  mul-pow-suc (bit_and q s) k,
  bit_and-shifted k q (r / 2) s (omega (arith, pow-suc 2 k)),
)

-- A mask of ones that is wide enough keeps the number.
pub bit_and-ones : (k q : ℕ) → q < 2 ^ k → bit_and q (2 ^ k - 1) ≡ q
bit_and-ones zero zero h = zero-bit_and 0
bit_and-ones zero (suc q) h = absurd (omega arith)
bit_and-ones (suc k) q h = ground (
  arith,
  bit_and-digit q (2 ^ suc k - 1),
  pow-suc 2 k,
  one-le-pow k 2,
  bit_and-ones k (q / 2) (omega (arith, pow-suc 2 k)),
)

bit_len_from-bound : (fuel x : ℕ) → x < 2 ^ fuel → x < 2 ^ bit_len_from fuel x
unfolding bit_len_from
bit_len_from-bound zero x h = h
bit_len_from-bound (suc fuel) zero h = omega arith
bit_len_from-bound (suc fuel) (suc x) h = omega (
  arith,
  pow-suc 2 fuel,
  pow-suc 2 (bit_len_from fuel (suc x / 2)),
  bit_len_from-bound fuel (suc x / 2) (omega (arith, pow-suc 2 fuel)),
)

-- A number has no more digits than `bits.Len` says.
pub bit_len-bound : (x : ℕ) → x < 2 ^ 64 → x < 2 ^ bit_len x
unfolding bit_len
bit_len-bound x h = bit_len_from-bound 64 x h
