-- ===== src/Ports/Parse/Unchecked.antt =====
-- Ports that `parseIntegerListToPortRanges` accepts or rejects at the ends of the range of ports.
use chaosblade_exec_os.Ports.Parse.Sound.{atoi_empty, contains_char_empty, parse_range-Accepted}
use chaosblade_exec_os.Prelude.{
  ℕ, ◌≤◌, ◌<◌, ◌≡◌, refl, sym, ◌∙◌, ap, String, List, [], ◌∷◌, some, true, false, arith, In, inl,
  inr, Bool-cases,
}
use chaosblade_exec_os.Prelude.Result.{ok, err, >>=-eq-ok, Result-cases}
use chaosblade_exec_os.Go.Strings.{split, trim_space, contains_char, is_empty}
use chaosblade_exec_os.Go.Strconv.{pos, atoi}
use chaosblade_exec_os.Ports.Ranges.{add_port}
use chaosblade_exec_os.Ports.Parse.{
  ParseError, parse_port, parse_range, parse_part, parse_parts, parse_integer_list_to_port_ranges,
}

split_no_separator : (k : ℕ) (s : String) → contains_char k s ≡ false → split k s ≡ s ∷ []
unfolding split contains_char
split_no_separator k String.[] h = refl
split_no_separator k (String.◌∷◌ c s) h = ground (arith, split_no_separator k s)

parse_part-single :
    (text : String) (n : ℕ)
    → contains_char b'-' (trim_space text) ≡ false
    → atoi (trim_space text) ≡ some (pos n)
    → parse_part text [] ≡ ok (n ∷ [])
unfolding parse_part parse_port add_port
parse_part-single text n plain read = ground (arith, atoi_empty (trim_space text))

-- A port that stands alone is not checked against the range of ports: whatever number the text is,
-- 0 and numbers above 65535 too, it is accepted.
pub parse-single_unchecked :
    (text : String) (n : ℕ)
    → contains_char b',' text ≡ false
    → contains_char b'-' (trim_space text) ≡ false
    → atoi (trim_space text) ≡ some (pos n)
    → parse_integer_list_to_port_ranges text ≡ ok (record { first = n; last = n } ∷ [])
unfolding parse_integer_list_to_port_ranges
parse-single_unchecked text n one plain read =
    rw (split_no_separator b',' text one)
      (unfold parse_parts in rw (parse_part-single text n plain read) refl)

accepted_end :
    (texts : List String) (from to : String) (end : ℕ) (set set' : List ℕ)
    → texts ≡ from ∷ to ∷ []
    → atoi (trim_space to) ≡ some (pos end)
    → parse_range texts set ≡ ok set'
    → end < 65535
accepted_end texts from to end set set' two read accepted =
    let (start, end', _, read', _, high, _, _) =
      parse_range-Accepted from to set set' (ap (λ x. parse_range x set) (sym two) ∙ accepted) in
    ground (arith, read, read', high)

accepted_part :
    (part from to : String) (end : ℕ) (set set' : List ℕ)
    → contains_char b'-' (trim_space part) ≡ true
    → split b'-' (trim_space part) ≡ from ∷ to ∷ []
    → atoi (trim_space to) ≡ some (pos end)
    → parse_part part set ≡ ok set'
    → end < 65535
unfolding parse_part
accepted_part part from to end set set' range two read accepted =
    elim (Bool-cases (is_empty (trim_space part))) [
      | inl blank ↦ ground (arith, contains_char_empty b'-' (trim_space part) blank)
      | inr text ↦
          accepted_end (split b'-' (trim_space part)) from to end set set' two read (ground arith)
    ]

accepted_parts :
    (parts : List String) (part from to : String) (end : ℕ) (set set' : List ℕ)
    → In part parts
    → contains_char b'-' (trim_space part) ≡ true
    → split b'-' (trim_space part) ≡ from ∷ to ∷ []
    → atoi (trim_space to) ≡ some (pos end)
    → parse_parts parts set ≡ ok set'
    → end < 65535
unfolding parse_parts
accepted_parts [] part from to end set set' named range two read accepted = absurd named
accepted_parts (p ∷ parts) part from to end set set' named range two read accepted =
    let (next, first, later) = >>=-eq-ok (parse_part p set) (parse_parts parts) accepted in
    elim named [
      | inl here ↦
          accepted_part part from to end set next range two read
            (ap (λ x. parse_part x set) here ∙ first)
      | inr there ↦ accepted_parts parts part from to end next set' there range two read later
    ]

-- A text is rejected as a whole where one of its comma parts is a range that ends at 65535 or
-- beyond, whatever the range begins with and whatever the other parts are.
pub parse-rejects_top :
    (text part from to : String) (end : ℕ)
    → In part (split b',' text)
    → contains_char b'-' (trim_space part) ≡ true
    → split b'-' (trim_space part) ≡ from ∷ to ∷ []
    → atoi (trim_space to) ≡ some (pos end)
    → 65535 ≤ end
    → (e : ParseError) × (parse_integer_list_to_port_ranges text ≡ err e)
unfolding parse_integer_list_to_port_ranges
parse-rejects_top text part from to end named range two read top =
    elim (Result-cases (parse_parts (split b',' text) [])) [
      | inl (e, rejected) ↦ (e, rw rejected refl)
      | inr (set, accepted) ↦
          let low : end < 65535 =
            accepted_parts (split b',' text) part from to end [] set named range two read
              accepted in
          absurd (omega (arith, low, top))
    ]
