-- ===== src/Ports/Masks/Round.antt =====
-- One round of `buildMaskForRange`: the block of ports that its entry covers.
use native.Mathlib.Decide.{dec_lt}
use native.Mathlib.Numerals.{add-one}
use native.Mathlib.Nat.{pow-suc, pow-le-pow_right}
use chaosblade_exec_os.Prelude.{
  ℕ, zero, suc, ◌+◌, ◌-◌, ◌*◌, ◌/◌, ◌%◌, ◌^◌, ◌≤◌, ◌<◌, ◌≡◌, refl, sym, ◌∙◌, inl, inr, ap, Option,
  some, none, arith, bit_and, ◌==◌, Bool-cases, true, leb, ltb, ◌&&◌,
}
use chaosblade_exec_os.Go.Bits.{shl_one, sar_one, to_uint16}
use chaosblade_exec_os.Go.Bits.Laws.{
  pow_pos, pow_sum, bit_and-shifted, bit_and-zero, bit_and-digit, mul-pow-suc, zero-bit_and,
  bit_len-bound,
}
use chaosblade_exec_os.Ports.Masks.{MaskEntry, lowest_bit, widen, last_of_length, next_mask}

-- The bit above q * 2 ^ o is the lowest digit of q.
bit_and-lowest : (q o : ℕ) → bit_and (q * 2 ^ o) (2 ^ o) ≡ q % 2 * 2 ^ o
bit_and-lowest q o =
    ground (arith, bit_and-shifted o q 0 1 (pow_pos o), bit_and-digit q 1, bit_and-zero (q / 2))

lowest_digit : (cur q o : ℕ) → cur ≡ q * 2 ^ o → (bit_and cur (2 ^ o) == 0) ≡ true → q % 2 ≡ 0
lowest_digit cur q o e h = grind (arith, bit_and-lowest q o, pow_pos o)

half_of_even : (q : ℕ) → q % 2 ≡ 0 → q ≡ 2 * (q / 2)
half_of_even q h = omega arith

halve : (cur q o : ℕ) → cur ≡ q * 2 ^ o → q % 2 ≡ 0 → cur ≡ q / 2 * 2 ^ (o + 1)
halve cur q o e h =
    rw add-one
      (omega (arith, e, mul-pow-suc (q / 2) o, ap (λ (t : ℕ). t * 2 ^ o) (half_of_even q h)))

-- The search for the lowest bit returns, and what it returns divides the number.
lowest_bit_total :
    (fuel q o cur : ℕ)
    → cur ≡ q * 2 ^ o
    → 0 < q
    → q < 2 ^ fuel
    → (r : ℕ) × (p : ℕ) × (lowest_bit fuel cur o ≡ some r) × (cur ≡ p * 2 ^ r) × (0 < p)
unfolding lowest_bit
lowest_bit_total zero q o cur e pos h = absurd (omega arith)
lowest_bit_total (suc fuel) q o cur e pos h = elim (Bool-cases (bit_and cur (2 ^ o) == 0)) [
  | inr stop ↦ (o, q, rw stop, e, pos)
  | inl more ↦
      let even : q % 2 ≡ 0 = lowest_digit cur q o e more in
      let (r, p, found, e', pos') =
        lowest_bit_total fuel (q / 2) (o + 1) cur (halve cur q o e even) (omega (arith, even))
          (omega (arith, pow-suc 2 fuel)) in
      (r, p, rw more found, e', pos')
]

-- On 0 the search runs through any fuel: `buildMaskForRange(0, end)` does not return.
pub lowest_bit-zero : (fuel o : ℕ) → lowest_bit fuel 0 o ≡ none
unfolding lowest_bit
lowest_bit-zero zero o = refl
lowest_bit-zero (suc fuel) o = ground (arith, zero-bit_and (2 ^ o), lowest_bit-zero fuel (o + 1))

last_of_length_bounds :
    (cur end : ℕ)
    → cur ≤ end
    → cur < 2 ^ 64
    → (cur ≤ last_of_length cur end) × (last_of_length cur end ≤ end)
unfolding last_of_length
last_of_length_bounds cur end h w = ground (arith, bit_len-bound cur)

sar_mask : (c : ℕ) → c < 63 → sar_one (2 ^ 64 - 2 ^ suc c) ≡ 2 ^ 64 - 2 ^ c
unfolding sar_one
sar_mask c h =
    ground
      (arith, pow-suc 2 c, pow_pos c, pow-le-pow_right {n = 2} (omega arith) {i = suc c} {j = 63} h)

shl_mask : (c : ℕ) → c < 64 → shl_one (2 ^ 64 - 2 ^ c) ≡ 2 ^ 64 - 2 ^ suc c
unfolding shl_one
shl_mask c h =
    omega
      (arith, pow-suc 2 c, pow_pos c, pow-le-pow_right {n = 2} (omega arith) {i = suc c} {j = 64} h)

abbrev Widened : ℕ → ℕ → ℕ → Option (ℕ × ℕ) → Type 0
Widened cur x o result =
    (c : ℕ) × (result ≡ some (2 ^ 64 - 2 ^ c, c)) × (c ≤ o) × (cur + 2 ^ c ≤ x + 1)

-- The inner loop returns a block that begins at `cur` and ends no later than `x`.
widen_total :
    (fuel cur x o cnt : ℕ)
    → cnt ≤ o
    → o < cnt + fuel
    → o < 63
    → cur + 2 ^ (cnt - 1) ≤ x + 1
    → Widened cur x o (widen fuel cur x o (2 ^ 64 - 2 ^ cnt) cnt)
unfolding widen
widen_total zero cur x o cnt h f w start = absurd (omega arith)
widen_total (suc fuel) cur x o cnt h f w start =
    elim (Bool-cases (cnt == o && leb (cur + 2 ^ cnt - 1) x)) [
      | inl done ↦ (cnt, rw done, h, ground (arith, pow_pos cnt))
      | inr go ↦ elim (Bool-cases (ltb x (cur + 2 ^ cnt - 1))) [
        | inl over ↦ rw (go, over) (stopped cnt h start over)
        | inr under ↦
            let (c, found, le, fits) =
              widen_total fuel cur x o (cnt + 1) (ground (arith, pow_pos cnt)) (omega arith) w
                (ground (arith, pow_pos cnt)) in
            (c, rw (go, under, shl_mask cnt (omega arith), ← add-one cnt) found, le, fits)
      ]
    ]
  where
    stopped :
        (k : ℕ)
        → k ≤ o
        → cur + 2 ^ (k - 1) ≤ x + 1
        → ltb x (cur + 2 ^ k - 1) ≡ true
        → Widened cur x o (some (sar_one (2 ^ 64 - 2 ^ k), k - 1))
    stopped zero le s over = absurd (ground arith)
    stopped (suc k) le s over =
        (k, rw (sar_mask k (omega arith)) (ground arith), omega arith, ground arith)

-- The value and mask of a round: the mask ignores the digits of the block.
abbrev pub block_entry : ℕ → ℕ → MaskEntry
block_entry cur c = record { value = cur; mask = 2 ^ 16 - 2 ^ c }

-- A round covers the ports from `cur` to `cur + 2 ^ c - 1`, which are aligned and within the range.
abbrev pub Blocked : ℕ → ℕ → Option (MaskEntry × ℕ) → Type 0
Blocked cur end result =
    (c : ℕ) × (q : ℕ) × (result ≡ some (block_entry cur c, c))
    × (cur ≡ q * 2 ^ c)
    × (cur + 2 ^ c ≤ end + 1)
    × (c ≤ 16)

aligned_below : (p q c o : ℕ) → p * 2 ^ o ≡ q → c ≤ o → (d : ℕ) × (q ≡ d * 2 ^ c)
aligned_below p q c o e h = (p * 2 ^ (o - c), omega (arith, e, ap (λ (t : ℕ). p * t) split))
  where
    split : 2 ^ o ≡ 2 ^ (o - c) * 2 ^ c
    split = ap (λ (t : ℕ). 2 ^ t) (omega arith) ∙ pow_sum (o - c) c

uint16_mask : (c : ℕ) → c ≤ 16 → to_uint16 (2 ^ 64 - 2 ^ c) ≡ 2 ^ 16 - 2 ^ c
unfolding to_uint16
uint16_mask c h =
    omega (arith, pow_pos c, pow-le-pow_right {n = 2} (omega arith) {i = c} {j = 16} h)

uint16_small : (x : ℕ) → x < 2 ^ 16 → to_uint16 x ≡ x
unfolding to_uint16
uint16_small x h = omega arith

exponent_bound : (p o cur : ℕ) → cur ≡ p * 2 ^ o → 0 < p → cur < 2 ^ 16 → o < 16
exponent_bound p o cur e pos h = elim (dec_lt o 16) [
  | yes lt ↦ lt
  | no ge ↦
      absurd (grind (arith, pow-le-pow_right {n = 2} (omega arith) {i = 16} {j = o} (omega arith)))
]

next_mask_found :
    (cur end o c : ℕ)
    → cur < 2 ^ 16
    → c ≤ 16
    → lowest_bit 64 cur 0 ≡ some o
    → widen 65 cur (last_of_length cur end) o (2 ^ 64 - 1) 0 ≡ some (2 ^ 64 - 2 ^ c, c)
    → next_mask cur end ≡ some (block_entry cur c, c)
unfolding next_mask
next_mask_found cur end o c small le found widened =
    rw (found, next_mask) (rw (widened, next_mask) (rw (uint16_mask c le, uint16_small cur small)))

-- A round returns.
pub next_mask_total :
    (cur end : ℕ) → 0 < cur → cur ≤ end → end < 2 ^ 16 → Blocked cur end (next_mask cur end)
next_mask_total cur end pos h w =
    let (o, p, found, aligned, pos') =
      lowest_bit_total 64 cur 0 cur (omega arith) pos (omega arith) in
    let small : o < 16 = exponent_bound p o cur aligned pos' (omega arith) in
    let (low, high) = last_of_length_bounds cur end h (omega arith) in
    let (c, widened, le, fits) =
      widen_total 65 cur (last_of_length cur end) o 0 (omega arith) (omega arith) (omega arith)
        (omega (arith, low)) in
    let (d, e) = aligned_below p cur c o (sym aligned) le in
    let top : c ≤ 16 = omega (arith, small, le) in
    (
      c,
      d,
      next_mask_found cur end o c (omega arith) top found widened,
      e,
      omega (arith, fits, high),
      top,
    )
