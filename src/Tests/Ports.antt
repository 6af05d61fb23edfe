-- ===== src/Tests/Ports.antt =====
-- Ports: texts, ranges and masks at concrete inputs.
use mathlib.Core.List.{Permᴰ}
use chaosblade_exec_os.Prelude.{
  ℕ, ◌≡◌, refl, List, [], ◌∷◌, none, some, In, Any, ◌↔◌, arith, if◌then◌else◌, ◌&&◌, leb, true,
  false, inl, inr,
}
use chaosblade_exec_os.Prelude.Result.{ok, err}
use chaosblade_exec_os.Go.Strings.{split, trim_space, contains_char}
use chaosblade_exec_os.Go.Strconv.{atoi, pos}
use chaosblade_exec_os.Ports.Masks.{MaskEntry, lowest_bit, build_mask_for_range}
use chaosblade_exec_os.Ports.Masks.Round.{lowest_bit-zero}
use chaosblade_exec_os.Ports.Masks.Cover.{filters_for, build_mask_for_range-exact}
use chaosblade_exec_os.Ports.Ranges.{PortRange, has_port, port_set_to_port_ranges}
use chaosblade_exec_os.Ports.Ranges.Laws.{
  InRange, IsSeparated, IsDistinct, port_set_to_port_ranges-covers, port_set_to_port_ranges-perm,
  port_set_to_port_ranges-IsSeparated,
}
use chaosblade_exec_os.Ports.Parse.{parse_integer_list_to_port_ranges, ParseError}
use chaosblade_exec_os.Ports.Parse.Sound.{Denotes, parse_integer_list_to_port_ranges_sound}
use chaosblade_exec_os.Ports.Parse.Unchecked.{parse-single_unchecked, parse-rejects_top}

masks_exact_example :
    (ms : List MaskEntry) × (build_mask_for_range 80 9000 ≡ some ms)
    × (filters_for 8080 ms ≡ (if leb 80 8080 && leb 8080 9000 then 1 else 0))
masks_exact_example =
    build_mask_for_range-exact 80 9000 8080 (omega arith) (omega arith) (omega arith) (omega arith)

lowest_bit_zero_example : lowest_bit 64 0 0 ≡ none
lowest_bit_zero_example = lowest_bit-zero 64 0

abbrev port_set : List ℕ
port_set = 82 ∷ 80 ∷ 81 ∷ 443 ∷ []

covers_example : Any (InRange 81) (port_set_to_port_ranges port_set) ↔ In 81 port_set
covers_example = port_set_to_port_ranges-covers 81 port_set

port_set-IsDistinct : IsDistinct port_set
unfolding has_port
port_set-IsDistinct = ground arith

IsSeparated-example : IsSeparated (port_set_to_port_ranges port_set)
IsSeparated-example = port_set_to_port_ranges-IsSeparated port_set port_set-IsDistinct

abbrev two_ranges : List PortRange
two_ranges = record { first = 80; last = 82 } ∷ record { first = 443; last = 443 } ∷ []

reads : parse_integer_list_to_port_ranges "80-82,443" ≡ ok two_ranges
unfolding parse_integer_list_to_port_ranges atoi
reads = refl

sound_example :
    (Any (InRange 81) two_ranges ↔ Any (Denotes 81) (split b',' "80-82,443"))
    × IsSeparated two_ranges
sound_example = parse_integer_list_to_port_ranges_sound "80-82,443" 81 two_ranges reads

one_part : contains_char b',' "0" ≡ false
unfolding contains_char
one_part = refl

no_range : contains_char b'-' (trim_space "0") ≡ false
unfolding contains_char trim_space
no_range = refl

reads_zero : atoi (trim_space "0") ≡ some (pos 0)
unfolding atoi trim_space
reads_zero = refl

single_unchecked_example :
    parse_integer_list_to_port_ranges "0" ≡ ok (record { first = 0; last = 0 } ∷ [])
single_unchecked_example = parse-single_unchecked "0" 0 one_part no_range reads_zero

reads_top : atoi (trim_space "65535") ≡ some (pos 65535)
unfolding atoi trim_space
reads_top = refl

top_named : In "65000-65535" (split b',' "80,65000-65535")
unfolding split
top_named = inr (inl refl)

top_range : contains_char b'-' (trim_space "65000-65535") ≡ true
unfolding contains_char trim_space
top_range = refl

top_ends : split b'-' (trim_space "65000-65535") ≡ "65000" ∷ "65535" ∷ []
unfolding split trim_space
top_ends = refl

rejects_top_example :
    (e : ParseError) × (parse_integer_list_to_port_ranges "80,65000-65535" ≡ err e)
rejects_top_example =
    parse-rejects_top "80,65000-65535" "65000-65535" "65000" "65535" 65535 top_named top_range
      top_ends reads_top (omega arith)

perm_example : port_set_to_port_ranges port_set ≡ port_set_to_port_ranges (80 ∷ 82 ∷ 81 ∷ 443 ∷ [])
perm_example =
    port_set_to_port_ranges-perm port_set (80 ∷ 82 ∷ 81 ∷ 443 ∷ []) ∣ Permᴰ.swap refl refl ∣₁
