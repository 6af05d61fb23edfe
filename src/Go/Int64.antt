-- ===== src/Go/Int64.antt =====
-- The arithmetic of Go's 64-bit integers, which wraps around, and its conversion of unsigned ones.
use chaosblade_exec_os.Prelude.{
  ℕ, zero, suc, ◌+◌, ◌-◌, ◌*◌, ◌/◌, ◌%◌, ◌^◌, ◌<◌, ◌≤◌, ◌≡◌, refl, Bool, true, false, leb, ltb,
  if◌then◌else◌, arith, lt→ltb, le→leb, ltb→lt, leb→le, Bool-cases, inl, inr,
}
use chaosblade_exec_os.Go.Strconv.{ℤ, pos, negsuc}

unfoldable pub negated : ℕ → ℤ
negated zero = pos 0
negated (suc n) = negsuc n

unfoldable pub wrap : ℤ → ℤ
wrap (pos n) =
    if ltb (n % 2 ^ 64) (2 ^ 63) then pos (n % 2 ^ 64) else negsuc (2 ^ 64 - n % 2 ^ 64 - 1)
wrap (negsuc n) =
    if ltb (n % 2 ^ 64) (2 ^ 63) then negsuc (n % 2 ^ 64) else pos (2 ^ 64 - n % 2 ^ 64 - 1)

-- int64(n) for an unsigned number
unfoldable pub int64 : ℕ → ℤ
unfolding wrap
int64 n = wrap (pos n)

-- The difference of two numbers.
unfoldable pub difference : ℕ → ℕ → ℤ
difference m n = if leb n m then pos (m - n) else negsuc (n - m - 1)

unfoldable pub plus : ℤ → ℤ → ℤ
unfolding wrap difference
plus (pos m) (pos n) = wrap (pos (m + n))
plus (pos m) (negsuc n) = wrap (difference m (n + 1))
plus (negsuc m) (pos n) = wrap (difference n (m + 1))
plus (negsuc m) (negsuc n) = wrap (negsuc (m + n + 1))

unfoldable pub minus : ℤ → ℤ → ℤ
unfolding wrap difference
minus (pos m) (pos n) = wrap (difference m n)
minus (pos m) (negsuc n) = wrap (pos (m + n + 1))
minus (negsuc m) (pos n) = wrap (negsuc (m + n))
minus (negsuc m) (negsuc n) = wrap (difference n m)

unfoldable pub times : ℤ → ℤ → ℤ
unfolding wrap negated
times (pos m) (pos n) = wrap (pos (m * n))
times (pos m) (negsuc n) = wrap (negated (m * (n + 1)))
times (negsuc m) (pos n) = wrap (negated ((m + 1) * n))
times (negsuc m) (negsuc n) = wrap (pos ((m + 1) * (n + 1)))

-- Division by a positive number, towards 0.
unfoldable pub quotient : ℤ → ℕ → ℤ
unfolding negated
quotient (pos n) d = pos (n / d)
quotient (negsuc n) d = negated ((n + 1) / d)

unfoldable pub is_positive : ℤ → Bool
is_positive (pos zero) = false
is_positive (pos (suc n)) = true
is_positive (negsuc n) = false

-- a < b
unfoldable pub less : ℤ → ℤ → Bool
less (pos m) (pos n) = ltb m n
less (pos m) (negsuc n) = false
less (negsuc m) (pos n) = true
less (negsuc m) (negsuc n) = ltb n m

small_remainder : (n : ℕ) → n < 2 ^ 63 → n % 2 ^ 64 ≡ n
small_remainder n small = omega arith

pub wrap-small : (n : ℕ) → n < 2 ^ 63 → wrap (pos n) ≡ pos n
unfolding wrap
wrap-small n small = rw (small_remainder n small, lt→ltb n (2 ^ 63) small) refl

-- A difference of numbers in the range is exact.
pub minus-small : (m n : ℕ) → n ≤ m → m < 2 ^ 63 → minus (pos m) (pos n) ≡ pos (m - n)
unfolding minus difference
minus-small m n below small = rw (le→leb n m below) (wrap-small (m - n) (omega arith))

-- A number of 64 bits.
abbrev pub IsInt64 : ℤ → Type 0
IsInt64 (pos n) = n < 2 ^ 63
IsInt64 (negsuc n) = n < 2 ^ 63

wrap-IsInt64 : (z : ℤ) → IsInt64 (wrap z)
unfolding wrap
wrap-IsInt64 (pos n) = elim (Bool-cases (ltb (n % 2 ^ 64) (2 ^ 63))) [
  | inl low ↦ rw low (ltb→lt _ _ low)
  | inr high ↦ rw high (ground arith)
]
wrap-IsInt64 (negsuc n) = elim (Bool-cases (ltb (n % 2 ^ 64) (2 ^ 63))) [
  | inl low ↦ rw low (ltb→lt _ _ low)
  | inr high ↦ rw high (ground arith)
]

pub plus-IsInt64 : (a b : ℤ) → IsInt64 (plus a b)
unfolding plus
plus-IsInt64 (pos m) (pos n) = wrap-IsInt64 (pos (m + n))
plus-IsInt64 (pos m) (negsuc n) = wrap-IsInt64 (difference m (n + 1))
plus-IsInt64 (negsuc m) (pos n) = wrap-IsInt64 (difference n (m + 1))
plus-IsInt64 (negsuc m) (negsuc n) = wrap-IsInt64 (negsuc (m + n + 1))

-- A difference below 0 is exact.
pub minus-below : (m n : ℕ) → m < n → n < 2 ^ 63 → minus (pos m) (pos n) ≡ negsuc (n - m - 1)
unfolding minus difference wrap
minus-below m n below small = elim (Bool-cases (leb n m)) [
  | inl other ↦ absurd (ground (arith, leb→le n m other))
  | inr expected ↦
      let size : (n - m - 1) % 2 ^ 64 ≡ n - m - 1 = omega arith in
      rw expected (rw (size, lt→ltb (n - m - 1) (2 ^ 63) (omega arith)) refl)
]
