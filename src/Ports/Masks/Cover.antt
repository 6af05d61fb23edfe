-- ===== src/Ports/Masks/Cover.antt =====
-- What the entries of `buildMaskForRange` select, as tc's `match ip sport VALUE MASK` reads them:
-- the ports whose `&` with the mask is the value.
use native.Mathlib.Nat.{div-add-mod', mod-lt}
use chaosblade_exec_os.Prelude.{
  ℕ, zero, suc, ◌+◌, ◌-◌, ◌*◌, ◌/◌, ◌%◌, ◌^◌, ◌≤◌, ◌<◌, ◌≡◌, refl, sym, ◌∙◌, ap, ap₂, some, List,
  [], ◌∷◌, Bool, true, ◌&&◌, arith, bit_and, ◌==◌, leb, ltb, if◌then◌else◌, Bool-cases, inl, inr,
}
use chaosblade_exec_os.Go.Bits.Laws.{pow_pos, pow_sum, bit_and-shifted, bit_and-ones}
use chaosblade_exec_os.Ports.Masks.{MaskEntry, next_mask, masks_from, build_mask_for_range}
use chaosblade_exec_os.Ports.Masks.Round.{block_entry, next_mask_total}

-- Does the filter of the entry select the port?
unfoldable pub selects : MaskEntry → ℕ → Bool
selects e p = bit_and p e.mask == e.value

-- The number of filters that select the port.
unfoldable pub filters_for : ℕ → List MaskEntry → ℕ
filters_for p [] = 0
filters_for p (e ∷ es) = (if selects e p then 1 else 0) + filters_for p es

two_pow_16 : (c : ℕ) → c ≤ 16 → 2 ^ 16 ≡ 2 ^ (16 - c) * 2 ^ c
two_pow_16 c h = ap (λ (t : ℕ). 2 ^ t) {x = 16} (omega arith) ∙ pow_sum (16 - c) c

narrow : (p s t : ℕ) → 0 < t → p < s * t → p / t < s
narrow p s t pos h = grind arith

sub_one_suc : {s : ℕ} → suc s - 1 ≡ s
sub_one_suc = omega arith

sub_one_mul : (s t : ℕ) → (s - 1) * t ≡ s * t - t
sub_one_mul zero t = omega arith
sub_one_mul (suc s) t = rw sub_one_suc (omega arith)

quotient_remainder : (p t : ℕ) → p ≡ p / t * t + p % t
quotient_remainder p t = sym (div-add-mod' p t)

bit_and-block : (p c : ℕ) → c ≤ 16 → p < 2 ^ 16 → bit_and p (2 ^ 16 - 2 ^ c) ≡ p / 2 ^ c * 2 ^ c
bit_and-block p c h w = aligned ∙ ap (λ (t : ℕ). t * 2 ^ c) kept
  where
    below : p / 2 ^ c < 2 ^ (16 - c)
    below = narrow p (2 ^ (16 - c)) (2 ^ c) (pow_pos c) (omega (arith, two_pow_16 c h))

    kept : bit_and (p / 2 ^ c) (2 ^ (16 - c) - 1) ≡ p / 2 ^ c
    kept = bit_and-ones (16 - c) (p / 2 ^ c) below

    parts : p ≡ p / 2 ^ c * 2 ^ c + p % 2 ^ c
    parts = quotient_remainder p (2 ^ c)

    mask : 2 ^ 16 - 2 ^ c ≡ (2 ^ (16 - c) - 1) * 2 ^ c
    mask = omega (arith, two_pow_16 c h, sub_one_mul (2 ^ (16 - c)) (2 ^ c))

    aligned : bit_and p (2 ^ 16 - 2 ^ c) ≡ bit_and (p / 2 ^ c) (2 ^ (16 - c) - 1) * 2 ^ c
    aligned =
        ap₂ bit_and parts mask
        ∙ bit_and-shifted c (p / 2 ^ c) (p % 2 ^ c) (2 ^ (16 - c) - 1) (mod-lt p (pow_pos c))

-- The numbers of one block share the quotient.
same_block : (p q t : ℕ) → 0 < t → (p / t * t == q * t) ≡ (leb (q * t) p && ltb p (q * t + t))
same_block p q t pos = grind arith

selects-block :
    (p cur q c : ℕ)
    → cur ≡ q * 2 ^ c
    → c ≤ 16
    → p < 2 ^ 16
    → selects (block_entry cur c) p ≡ (leb cur p && ltb p (cur + 2 ^ c))
unfolding selects
selects-block p cur q c e h w = rw (bit_and-block p c h w, e) (same_block p q (2 ^ c) (pow_pos c))

abbrev in_range : ℕ → ℕ → ℕ → ℕ
in_range start end p = if leb start p && leb p end then 1 else 0

-- A block at the front of a range leaves the rest of the range.
in_range-block :
    (cur end t p : ℕ)
    → cur + t ≤ end + 1
    → (if leb cur p && ltb p (cur + t) then 1 else 0) + in_range (cur + t) end p
      ≡ in_range cur end p
in_range-block cur end t p h = ground arith

masks_from_step :
    (fuel cur end c : ℕ) (e : MaskEntry) (ms : List MaskEntry)
    → leb cur end ≡ true
    → next_mask cur end ≡ some (e, c)
    → masks_from fuel (cur + 2 ^ c) end ≡ some ms
    → masks_from (suc fuel) cur end ≡ some (e ∷ ms)
unfolding masks_from
masks_from_step fuel cur end c e ms more found rest =
    rw (more, masks_from) (rw (found, masks_from) (rw (rest, masks_from)))

filters_for_cons :
    (p : ℕ) (e : MaskEntry) (es : List MaskEntry)
    → filters_for p (e ∷ es) ≡ (if selects e p then 1 else 0) + filters_for p es
unfolding filters_for
filters_for_cons p e es = refl

masks_from-exact :
    (fuel cur end p : ℕ)
    → 0 < cur
    → cur ≤ end + 1
    → end < 2 ^ 16
    → p < 2 ^ 16
    → end + 1 < fuel + cur
    → (ms : List MaskEntry) × (masks_from fuel cur end ≡ some ms)
      × (filters_for p ms ≡ in_range cur end p)
masks_from-exact zero cur end p pos h w wp f = absurd (omega arith)
masks_from-exact (suc fuel) cur end p pos h w wp f = elim (Bool-cases (leb cur end)) [
  | inr past ↦ ([], unfold masks_from in rw (past, masks_from), unfold filters_for in ground arith)
  | inl more ↦
      let (c, q, found, aligned, fits, le) = next_mask_total cur end pos (ground arith) w in
      let (ms, rest, count) =
        masks_from-exact fuel (cur + 2 ^ c) end p (omega arith) fits w wp
          (omega (arith, pow_pos c)) in
      (
        block_entry cur c ∷ ms,
        masks_from_step fuel cur end c (block_entry cur c) ms more found rest,
        filters_for_cons p (block_entry cur c) ms
            ∙ ap₂ (λ (here : Bool) (later : ℕ). (if here then 1 else 0) + later)
                (selects-block p cur q c aligned le wp) count
            ∙ in_range-block cur end (2 ^ c) p fits,
      )
]

-- For a range of ports from 1 to 65535, `buildMaskForRange` returns, and of the filters that it
-- returns exactly one selects a port of the range and none selects any other port.
pub build_mask_for_range-exact :
    (start end p : ℕ)
    → 0 < start
    → start ≤ end
    → end < 2 ^ 16
    → p < 2 ^ 16
    → (ms : List MaskEntry) × (build_mask_for_range start end ≡ some ms)
      × (filters_for p ms ≡ (if leb start p && leb p end then 1 else 0))
unfolding build_mask_for_range
build_mask_for_range-exact start end p pos h w wp =
    masks_from-exact (end + 2 - start) start end p pos (omega arith) w wp (omega arith)
