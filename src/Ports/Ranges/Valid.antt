-- ===== src/Ports/Ranges/Valid.antt =====
-- Sets of port numbers give ranges of port numbers.
use chaosblade_exec_os.Prelude.{ℕ, ◌≤◌, ◌<◌, List, [], ◌∷◌, arith, All}
use chaosblade_exec_os.Ports.Ranges.{
  PortRange, add_port, insert_sorted, sort_ints, ranges_from, ranges_of, port_set_to_port_ranges,
}

-- A port number, and a range of such that is not empty.
abbrev pub IsPort : ℕ → Type 0
IsPort p = (0 < p) × (p < 65536)

abbrev pub IsPortRange : PortRange → Type 0
IsPortRange r = (0 < r.first) × (r.first ≤ r.last) × (r.last < 65536)

pub All-add_port : (p : ℕ) (set : List ℕ) → IsPort p → All IsPort set → All IsPort (add_port p set)
unfolding add_port
All-add_port p set h k = ground arith

All-insert_sorted :
    (p : ℕ) (ps : List ℕ) → IsPort p → All IsPort ps → All IsPort (insert_sorted p ps)
unfolding insert_sorted
All-insert_sorted p [] h k = (h, tt)
All-insert_sorted p (q ∷ ps) h (k, ks) = ground (arith, All-insert_sorted p ps h ks)

All-sort_ints : (ps : List ℕ) → All IsPort ps → All IsPort (sort_ints ps)
unfolding sort_ints
All-sort_ints [] k = tt
All-sort_ints (p ∷ ps) (k, ks) = All-insert_sorted p (sort_ints ps) k (All-sort_ints ps ks)

All-ranges_from :
    (s e : ℕ) (ps : List ℕ)
    → 0 < s
    → s ≤ e
    → e < 65536
    → All IsPort ps
    → All IsPortRange (ranges_from s e ps)
unfolding ranges_from
All-ranges_from s e [] h le w k = ((h, le, w), tt)
All-ranges_from s e (p ∷ ps) h le w ((k, kw), ks) =
    ground (arith, All-ranges_from s p ps, All-ranges_from p p ps)

All-ranges_of : (ps : List ℕ) → All IsPort ps → All IsPortRange (ranges_of ps)
unfolding ranges_of
All-ranges_of [] k = tt
All-ranges_of (p ∷ ps) ((k, w), ks) = All-ranges_from p p ps k (omega arith) w ks

pub All-port_set_to_port_ranges :
    (set : List ℕ) → All IsPort set → All IsPortRange (port_set_to_port_ranges set)
unfolding port_set_to_port_ranges
All-port_set_to_port_ranges set k = All-ranges_of (sort_ints set) (All-sort_ints set k)
