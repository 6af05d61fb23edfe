-- ===== src/Ports/Parse.antt =====
-- `parseIntegerListToPortRanges` of exec/network/tc/network_tc.go. An error is the reason that the
-- code puts into the text of `spec.ParameterIllegal`.
pub mod Sound
pub mod Unchecked
use chaosblade_exec_os.Prelude.{
  ℕ, zero, suc, ◌+◌, ◌-◌, ◌≡◌, refl, String, List, [], ◌∷◌, Option, none, some, Bool, true, false,
  ◌||◌, leb, ltb, if◌then◌else◌,
}
use chaosblade_exec_os.Prelude.Result.{Result, ok, err, ◌>>=◌}
use chaosblade_exec_os.Go.Strings.{split, trim_space, contains_char, is_empty}
use chaosblade_exec_os.Go.Strconv.{ℤ, pos, negsuc, atoi}
use chaosblade_exec_os.Ports.Ranges.{PortRange, add_port, port_set_to_port_ranges}

pub data ParseError : Type 0 where
  not_an_integer : String → ParseError
  connector_required : ParseError
  illegal_range : ParseError
  -- An integer below 0. It cannot come up: the texts that are read hold no minus sign.
  negative : String → ParseError

-- strconv.Atoi on a text with no minus sign
unfoldable pub parse_port : String → Result ParseError ℕ
parse_port value = elim (atoi value) [
  | none ↦ err (not_an_integer value)
  | some (pos n) ↦ ok n
  | some (negsuc n) ↦ err (negative value)
]

abbrev pub max_uint16 : ℕ
max_uint16 = 65535

-- `for i := startIndex; i <= endIndex; i++ { dedup[i] = struct{}{} }`, with the rounds left
unfoldable pub add_range : ℕ → ℕ → List ℕ → List ℕ
unfolding add_port
add_range zero i set = set
add_range (suc rounds) i set = add_range rounds (i + 1) (add_port i set)

-- The bounds of a range: not (0 < start ≤ MaxUint16, 0 < end < MaxUint16, start ≤ end).
unfoldable pub is_illegal_range : ℕ → ℕ → Bool
is_illegal_range start end =
    leb start 0 || ltb max_uint16 start || leb end 0 || leb max_uint16 end || ltb end start

unfoldable pub parse_range : List String → List ℕ → Result ParseError (List ℕ)
unfolding parse_port is_illegal_range add_range trim_space
parse_range (from ∷ to ∷ []) set = do
  start ← parse_port (trim_space from)
  end ← parse_port (trim_space to)
  if is_illegal_range start end
      then err illegal_range
      else ok (add_range (end + 1 - start) start set)
parse_range _ set = err connector_required

-- One round of the loop over the comma parts.
unfoldable pub parse_part : String → List ℕ → Result ParseError (List ℕ)
unfolding parse_range contains_char split is_empty
parse_part part set =
    let value = trim_space part in
    if is_empty value
    then ok set
    else if contains_char b'-' value
    then parse_range (split b'-' value) set
    else do port ← parse_port value; ok (add_port port set)

unfoldable pub parse_parts : List String → List ℕ → Result ParseError (List ℕ)
unfolding parse_part
parse_parts [] set = ok set
parse_parts (part ∷ parts) set = do set' ← parse_part part set; parse_parts parts set'

unfoldable pub parse_integer_list_to_port_ranges : String → Result ParseError (List PortRange)
unfolding parse_parts port_set_to_port_ranges
parse_integer_list_to_port_ranges value = do
  set ← parse_parts (split b',' value) []
  ok (port_set_to_port_ranges set)

parse_example :
    parse_integer_list_to_port_ranges "80, 8000-8002,81"
    ≡ ok (record { first = 80; last = 81 } ∷ record { first = 8000; last = 8002 } ∷ [])
unfolding parse_integer_list_to_port_ranges atoi
parse_example = refl
