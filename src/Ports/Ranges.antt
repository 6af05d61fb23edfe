-- ===== src/Ports/Ranges.antt =====
-- `portSetToPortRanges` of exec/network/tc/network_tc.go. Go iterates over the keys of a map in no
-- fixed order, so a port set is the list of its keys in the order of the iteration.
pub mod Laws
pub mod Valid
use chaosblade_exec_os.Prelude.{
  ℕ, ◌+◌, ◌≡◌, refl, List, [], ◌∷◌, Bool, true, false, ◌||◌, leb, ◌==◌, if◌then◌else◌,
}

-- []int{first, last}
pub record PortRange : Type 0 where
  pub first : ℕ
  pub last : ℕ

unfoldable pub has_port : ℕ → List ℕ → Bool
has_port p [] = false
has_port p (q ∷ qs) = q == p || has_port p qs

-- portSet[p] = struct{}{}
unfoldable pub add_port : ℕ → List ℕ → List ℕ
unfolding has_port
add_port p set = if has_port p set then set else p ∷ set

unfoldable pub insert_sorted : ℕ → List ℕ → List ℕ
insert_sorted p [] = p ∷ []
insert_sorted p (q ∷ qs) = let rest = insert_sorted p qs in if leb p q then p ∷ q ∷ qs else q ∷ rest

-- sort.Ints
unfoldable pub sort_ints : List ℕ → List ℕ
unfolding insert_sorted
sort_ints [] = []
sort_ints (p ∷ ps) = insert_sorted p (sort_ints ps)

-- Both loops as one: the range that is being read, and the ports behind it.
unfoldable pub ranges_from : ℕ → ℕ → List ℕ → List PortRange
ranges_from s e [] = record { first = s; last = e } ∷ []
ranges_from s e (p ∷ ps) = elim (p == e + 1) [
  | true ↦ ranges_from s p ps
  | false ↦ record { first = s; last = e } ∷ ranges_from p p ps
]

unfoldable pub ranges_of : List ℕ → List PortRange
unfolding ranges_from
ranges_of [] = []
ranges_of (p ∷ ps) = ranges_from p p ps

unfoldable pub port_set_to_port_ranges : List ℕ → List PortRange
unfolding ranges_of sort_ints
port_set_to_port_ranges set = ranges_of (sort_ints set)

-- The case "range" of `Test_portSetToPortRanges` in exec/network/tc/network_tc_test.go.
test_range :
    port_set_to_port_ranges (8001 ∷ 22 ∷ 8002 ∷ 8000 ∷ [])
    ≡ record { first = 22; last = 22 } ∷ record { first = 8000; last = 8002 } ∷ []
unfolding port_set_to_port_ranges
test_range = refl
