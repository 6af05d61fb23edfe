-- ===== src/Ports/Masks.antt =====
-- `buildMaskForRange` of exec/network/tc/network_tc.go: a port range as values under masks.
-- Its three loops take fuel; `none` means that the fuel ran out.
pub mod Round
pub mod Cover
use chaosblade_exec_os.Prelude.{
  ℕ, zero, suc, ◌+◌, ◌-◌, ◌^◌, Option, none, some, List, [], ◌∷◌, ◌&&◌, ltb, leb, ◌==◌,
  if◌then◌else◌, bit_and, ◌≡◌, refl, true, false,
}
use chaosblade_exec_os.Go.Bits.{shl_one, sar_one, to_uint16, bit_len}

-- One entry of `masks`: []uint16{value, mask}.
pub record MaskEntry : Type 0 where
  pub value : ℕ
  pub mask : ℕ

-- `for (cur & (1 << o)) == 0 { o++ }`
unfoldable pub lowest_bit : ℕ → ℕ → ℕ → Option ℕ
lowest_bit zero cur o = none
lowest_bit (suc fuel) cur o =
    let more = lowest_bit fuel cur (o + 1) in if bit_and cur (2 ^ o) == 0 then more else some o

-- The inner `for`: the mask and its count of free bits.
unfoldable pub widen : ℕ → ℕ → ℕ → ℕ → ℕ → ℕ → Option (ℕ × ℕ)
widen zero cur x o mask cnt = none
widen (suc fuel) cur x o mask cnt =
    let upper = cur + 2 ^ cnt - 1 in
    let more = widen fuel cur x o (shl_one mask) (cnt + 1) in
    if cnt == o && leb upper x
    then some (mask, cnt)
    else if ltb x upper
    then some (sar_one mask, cnt - 1)
    else more

-- `x`: the last number of as many digits as `cur`, and no more than `end`.
unfoldable pub last_of_length : ℕ → ℕ → ℕ
unfolding bit_len
last_of_length cur end = let x = 2 ^ bit_len cur - 1 in if ltb end x then end else x

-- One round of the outer loop, as the entry and its count of free bits.
unfoldable pub next_mask : ℕ → ℕ → Option (MaskEntry × ℕ)
unfolding lowest_bit widen last_of_length shl_one sar_one to_uint16
next_mask cur end = elim (lowest_bit 64 cur 0) [
  | none ↦ none
  | some o ↦ elim (widen 65 cur (last_of_length cur end) o (2 ^ 64 - 1) 0) [
    | none ↦ none
    | some (mask, cnt) ↦ some (record { value = to_uint16 cur; mask = to_uint16 mask }, cnt)
  ]
]

unfoldable pub masks_from : ℕ → ℕ → ℕ → Option (List MaskEntry)
unfolding next_mask
masks_from zero cur end = none
masks_from (suc fuel) cur end = elim (leb cur end) [
  | false ↦ some []
  | true ↦ elim (next_mask cur end) [
    | none ↦ none
    | some (entry, cnt) ↦ elim (masks_from fuel (cur + 2 ^ cnt) end) [
      | none ↦ none
      | some rest ↦ some (entry ∷ rest)
    ]
  ]
]

-- buildMaskForRange: one round for each port of the range is more than enough.
unfoldable pub build_mask_for_range : ℕ → ℕ → Option (List MaskEntry)
unfolding masks_from
build_mask_for_range start end = masks_from (end + 2 - start) start end

-- 9-12 as `buildMaskForRange` splits it: 9, the pair 10-11, and 12.
range_9_12 :
    build_mask_for_range 9 12
    ≡ some (
        record { value = 9; mask = 0xffff }
        ∷ record { value = 10; mask = 0xfffe }
        ∷ record { value = 12; mask = 0xffff }
        ∷ [])
unfolding build_mask_for_range
range_9_12 = refl
