-- ===== src/Go/Strconv.antt =====
-- strconv.Atoi, for the 64-bit `int`, and the integers that it returns.
use Prim.Native.String.{[], ◌∷◌}
use chaosblade_exec_os.Prelude.{
  ℕ, zero, suc, ◌+◌, ◌-◌, ◌*◌, ◌/◌, ◌%◌, ◌^◌, ◌≡◌, refl, code, String, Bool, ◌&&◌, Option, none,
  some, ◌==◌, leb, ltb, if◌then◌else◌,
}
use chaosblade_exec_os.Go.Strings.{◌+s◌}

-- `negsuc n` is -(n + 1).
pub data ℤ : Type 0 where
  pos : ℕ → ℤ
  negsuc : ℕ → ℤ

unfoldable pub is_digit : ℕ → Bool
is_digit c = leb b'0' c && leb c b'9'

-- The value of a run of digits, behind those already read.
unfoldable pub digits_from : ℕ → String → Option ℕ
unfolding is_digit
digits_from n [] = some n
digits_from n (c ∷ s) =
    let rest = digits_from (n * 10 + (code c - b'0')) s in if is_digit (code c) then rest else none

-- At least one digit.
unfoldable pub digits : String → Option ℕ
unfolding digits_from
digits [] = none
digits (c ∷ s) = digits_from 0 (c ∷ s)

unfoldable pub in_int64 : Option ℕ → Option ℤ
in_int64 none = none
in_int64 (some n) = if ltb n (2 ^ 63) then some (pos n) else none

unfoldable pub negated : Option ℕ → Option ℤ
negated none = none
negated (some n) =
    if n == 0 then some (pos 0) else if leb n (2 ^ 63) then some (negsuc (n - 1)) else none

-- `none` is an error.
unfoldable pub atoi : String → Option ℤ
unfolding digits in_int64 negated
atoi [] = none
atoi (c ∷ s) =
    if code c == b'-'
    then negated (digits s)
    else if code c == b'+'
    then in_int64 (digits s)
    else in_int64 (digits (c ∷ s))

-- The value that Atoi returns with an error: the nearest `int` if the number is too long, else 0.
unfoldable pub nearest_int : String → ℤ
unfolding digits
nearest_int [] = pos 0
nearest_int (c ∷ s) =
    if code c == b'-'
    then elim (digits s) as (λ n. ℤ) [ none ↦ pos 0 | some n ↦ negsuc (2 ^ 63 - 1) ]
    else (elim (digits (if code c == b'+' then s else c ∷ s)) as (λ n. ℤ) [
      | none ↦ pos 0
      | some n ↦ pos (2 ^ 63 - 1)
    ])

unfoldable pub digit_text : ℕ → String
digit_text d =
    if d == 0
    then "0"
    else if d == 1
    then "1"
    else if d == 2
    then "2"
    else if d == 3
    then "3"
    else if d == 4
    then "4"
    else if d == 5
    then "5"
    else if d == 6
    then "6"
    else if d == 7
    then "7"
    else if d == 8
    then "8"
    else if d == 9
    then "9"
    else if d == 10
    then "a"
    else if d == 11
    then "b"
    else if d == 12
    then "c"
    else if d == 13
    then "d"
    else if d == 14
    then "e"
    else "f"

-- The digits of a number in a base, before those already written; fuel bounds their number.
unfoldable pub number_text : ℕ → ℕ → ℕ → String → String
unfolding digit_text
number_text zero base n acc = acc
number_text (suc fuel) base n acc =
    let here = digit_text (n % base) +s acc in
    let more = number_text fuel base (n / base) here in if ltb n base then here else more

-- strconv.Itoa and %d, for a number that is not negative: below 2 ^ 64 there are at most 20 digits.
unfoldable pub itoa : ℕ → String
unfolding number_text
itoa n = number_text 20 10 n ""

-- %d
unfoldable pub int_text : ℤ → String
unfolding itoa
int_text (pos n) = itoa n
int_text (negsuc n) = "-" +s itoa (n + 1)

-- %d of the first value of strconv.Atoi
unfoldable pub atoi_text : String → String
unfolding int_text atoi nearest_int
atoi_text s = elim (atoi s) [ none ↦ int_text (nearest_int s) | some z ↦ int_text z ]

-- %#x, for at most 16 digits
unfoldable pub hex : ℕ → String
unfolding number_text
hex n = "0x" +s number_text 16 16 n ""

itoa_8080 : itoa 8080 ≡ "8080"
unfolding itoa
itoa_8080 = refl

hex_mask : hex 65528 ≡ "0xfff8"
unfolding hex
hex_mask = refl

atoi_8080 : atoi "8080" ≡ some (pos 8080)
unfolding atoi
atoi_8080 = refl

atoi_minus : atoi "-7" ≡ some (negsuc 6)
unfolding atoi
atoi_minus = refl

atoi_overflow : atoi "9223372036854775808" ≡ none
unfolding atoi
atoi_overflow = refl
