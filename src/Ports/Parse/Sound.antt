-- ===== src/Ports/Parse/Sound.antt =====
-- What a text accepted by `parseIntegerListToPortRanges` says.
use chaosblade_exec_os.Prelude.{
  ℕ, zero, suc, ◌+◌, ◌-◌, ◌≤◌, ◌<◌, ◌≡◌, refl, String, List, [], ◌∷◌, none, some, true, false, ◌⊎◌,
  inl, inr, ◌↔◌, arith, In, Any, Bool-cases,
}
use chaosblade_exec_os.Prelude.Result.{ok, ◌>>=◌, >>=-eq-ok}
use chaosblade_exec_os.Go.Strings.{split, trim_space, contains_char, is_empty}
use chaosblade_exec_os.Go.Strconv.{pos, atoi}
use chaosblade_exec_os.Ports.Ranges.{PortRange, add_port, port_set_to_port_ranges}
use chaosblade_exec_os.Ports.Ranges.Laws.{
  InRange, IsSeparated, IsDistinct, In-has_port, port_set_to_port_ranges-covers,
  port_set_to_port_ranges-IsSeparated,
}
use chaosblade_exec_os.Ports.Parse.{
  parse_port, add_range, is_illegal_range, parse_range, parse_part, parse_parts,
  parse_integer_list_to_port_ranges,
}

-- The two texts name a range that holds the port, of ports from 1 to 65534.
abbrev pub DenotesRange : ℕ → List String → Type 0
DenotesRange p (from ∷ to ∷ []) =
    (start : ℕ) × (end : ℕ) × (atoi (trim_space from) ≡ some (pos start))
    × (atoi (trim_space to) ≡ some (pos end))
    × (0 < start)
    × (end < 65535)
    × (start ≤ p)
    × (p ≤ end)
DenotesRange p _ = ⊥

-- A comma part names the port: by itself, or as one of a range.
abbrev pub Denotes : ℕ → String → Type 0
Denotes p part =
    (contains_char b'-' (trim_space part) ≡ false) × (atoi (trim_space part) ≡ some (pos p))
    ⊎ (contains_char b'-' (trim_space part) ≡ true) × DenotesRange p (split b'-' (trim_space part))

In-add_port : (x p : ℕ) (set : List ℕ) → In x (add_port p set) ↔ ((x ≡ p) ⊎ In x set)
unfolding add_port
In-add_port x p set = ground (arith, In-has_port p set)

In-add_range :
    (x n i : ℕ) (set : List ℕ) → In x (add_range n i set) ↔ ((i ≤ x) × (x < i + n) ⊎ In x set)
unfolding add_range
In-add_range x zero i set = ground arith
In-add_range x (suc n) i set =
    ground (arith, In-add_range x n (i + 1) (add_port i set), In-add_port x i set)

parse_port_iff : (v : String) (n : ℕ) → (parse_port v ≡ ok n) ↔ (atoi v ≡ some (pos n))
unfolding parse_port
parse_port_iff v n = ground arith

-- An accepted range, and the set with its ports.
abbrev pub Accepted : String → String → List ℕ → List ℕ → Type 0
Accepted from to set set' =
    (start : ℕ) × (end : ℕ) × (atoi (trim_space from) ≡ some (pos start))
    × (atoi (trim_space to) ≡ some (pos end))
    × (0 < start)
    × (end < 65535)
    × (start ≤ end)
    × (set' ≡ add_range (end + 1 - start) start set)

pub parse_range-Accepted :
    (from to : String) (set set' : List ℕ)
    → parse_range (from ∷ to ∷ []) set ≡ ok set'
    → Accepted from to set set'
unfolding parse_range
parse_range-Accepted from to set set' h =
    let (start, read, h') = >>=-eq-ok (parse_port (trim_space from)) _ h in
    let (end, read', h'') = >>=-eq-ok (parse_port (trim_space to)) _ h' in
    (
      start,
      end,
      (parse_port_iff _ _).0 read,
      (parse_port_iff _ _).0 read',
      unfold is_illegal_range in ground (arith, h''),
      unfold is_illegal_range in ground (arith, h''),
      unfold is_illegal_range in ground (arith, h''),
      ground (arith, h''),
    )

Accepted-In :
    (p : ℕ) (from to : String) (set set' : List ℕ)
    → Accepted from to set set'
    → In p set' ↔ (DenotesRange p (from ∷ to ∷ []) ⊎ In p set)
Accepted-In p from to set set' (start, end, read, read', low, high, le, e) =
    rw e (ground (arith, In-add_range p (end + 1 - start) start set))

-- An accepted range adds the ports that it denotes.
parse_range-In :
    (p : ℕ) (texts : List String) (set set' : List ℕ)
    → parse_range texts set ≡ ok set'
    → In p set' ↔ (DenotesRange p texts ⊎ In p set)
parse_range-In p (from ∷ to ∷ []) set set' h =
    Accepted-In p from to set set' (parse_range-Accepted from to set set' h)
parse_range-In p [] set set' h = unfold parse_range in cc
parse_range-In p (from ∷ []) set set' h = unfold parse_range in cc
parse_range-In p (from ∷ to ∷ more ∷ rest) set set' h = unfold parse_range in cc

pub atoi_empty : (s : String) → is_empty s ≡ true → atoi s ≡ none
unfolding atoi is_empty
atoi_empty String.[] h = refl
atoi_empty (String.◌∷◌ c s) h = cc

pub contains_char_empty : (k : ℕ) (s : String) → is_empty s ≡ true → contains_char k s ≡ false
unfolding contains_char is_empty
contains_char_empty k String.[] h = refl
contains_char_empty k (String.◌∷◌ c s) h = cc

single-In :
    (p : ℕ) (value : String) (set set' : List ℕ)
    → (parse_port value >>= λ port. ok (add_port port set)) ≡ ok set'
    → In p set' ↔ ((atoi value ≡ some (pos p)) ⊎ In p set)
single-In p value set set' h =
    let (port, read, e) = >>=-eq-ok (parse_port value) _ h in
    ground (arith, e, In-add_port p port set, (parse_port_iff value port).0 read)

parse_part-In :
    (p : ℕ) (part : String) (set set' : List ℕ)
    → parse_part part set ≡ ok set'
    → In p set' ↔ (Denotes p part ⊎ In p set)
unfolding parse_part
parse_part-In p part set set' h = elim (Bool-cases (is_empty (trim_space part))) [
  | inl blank ↦
      ground (
        arith,
        atoi_empty (trim_space part) blank,
        contains_char_empty b'-' (trim_space part) blank,
      )
  | inr text ↦ elim (Bool-cases (contains_char b'-' (trim_space part))) [
    | inl range ↦ ground (arith, parse_range-In p (split b'-' (trim_space part)) set set')
    | inr single ↦ ground (arith, single-In p (trim_space part) set set' (ground arith))
  ]
]

parse_parts-In :
    (p : ℕ) (parts : List String) (set set' : List ℕ)
    → parse_parts parts set ≡ ok set'
    → In p set' ↔ (Any (Denotes p) parts ⊎ In p set)
unfolding parse_parts
parse_parts-In p [] set set' h = ground arith
parse_parts-In p (part ∷ parts) set set' h =
    let (next, read, h') = >>=-eq-ok (parse_part part set) (parse_parts parts) h in
    ground (arith, parse_part-In p part set next read, parse_parts-In p parts next set' h')

add_port-IsDistinct : (p : ℕ) (set : List ℕ) → IsDistinct set → IsDistinct (add_port p set)
unfolding add_port
add_port-IsDistinct p set h = ground arith

add_range-IsDistinct : (n i : ℕ) (set : List ℕ) → IsDistinct set → IsDistinct (add_range n i set)
unfolding add_range
add_range-IsDistinct zero i set h = h
add_range-IsDistinct (suc n) i set h =
    add_range-IsDistinct n (i + 1) (add_port i set) (add_port-IsDistinct i set h)

parse_range-IsDistinct :
    (texts : List String) (set set' : List ℕ)
    → parse_range texts set ≡ ok set'
    → IsDistinct set
    → IsDistinct set'
parse_range-IsDistinct (from ∷ to ∷ []) set set' h d =
    let (start, end, _, _, _, _, _, e) = parse_range-Accepted from to set set' h in
    rw e (add_range-IsDistinct (end + 1 - start) start set d)
parse_range-IsDistinct [] set set' h d = unfold parse_range in cc
parse_range-IsDistinct (from ∷ []) set set' h d = unfold parse_range in cc
parse_range-IsDistinct (from ∷ to ∷ more ∷ rest) set set' h d = unfold parse_range in cc

single-IsDistinct :
    (value : String) (set set' : List ℕ)
    → (parse_port value >>= λ port. ok (add_port port set)) ≡ ok set'
    → IsDistinct set
    → IsDistinct set'
single-IsDistinct value set set' h d =
    let (port, read, e) = >>=-eq-ok (parse_port value) _ h in
    ground (arith, e, add_port-IsDistinct port set d)

parse_part-IsDistinct :
    (part : String) (set set' : List ℕ)
    → parse_part part set ≡ ok set'
    → IsDistinct set
    → IsDistinct set'
unfolding parse_part
parse_part-IsDistinct part set set' h d = ground (
  arith,
  parse_range-IsDistinct (split b'-' (trim_space part)) set set',
  single-IsDistinct (trim_space part) set set',
)

parse_parts-IsDistinct :
    (parts : List String) (set set' : List ℕ)
    → parse_parts parts set ≡ ok set'
    → IsDistinct set
    → IsDistinct set'
unfolding parse_parts
parse_parts-IsDistinct [] set set' h d = ground arith
parse_parts-IsDistinct (part ∷ parts) set set' h d =
    let (next, read, h') = >>=-eq-ok (parse_part part set) (parse_parts parts) h in
    parse_parts-IsDistinct parts next set' h' (parse_part-IsDistinct part set next read d)

-- If a text is accepted, the ranges hold a port exactly when one of the comma parts names it, and
-- they are in ascending order, not empty, and such that no two can be joined.
pub parse_integer_list_to_port_ranges_sound :
    (text : String) (p : ℕ) (rs : List PortRange)
    → parse_integer_list_to_port_ranges text ≡ ok rs
    → (Any (InRange p) rs ↔ Any (Denotes p) (split b',' text)) × IsSeparated rs
unfolding parse_integer_list_to_port_ranges
parse_integer_list_to_port_ranges_sound text p rs h =
    let (set, read, e) = >>=-eq-ok (parse_parts (split b',' text) []) _ h in
    let distinct : IsDistinct set = parse_parts-IsDistinct (split b',' text) [] set read tt in
    let same : rs ≡ port_set_to_port_ranges set = ground (arith, e) in
    (
      rw same (
          ground (
            arith,
            port_set_to_port_ranges-covers p set,
            parse_parts-In p (split b',' text) [] set read,
          )),
      rw same (port_set_to_port_ranges-IsSeparated set distinct),
    )
