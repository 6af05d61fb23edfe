-- ===== src/Ports/Ranges/Laws.antt =====
-- `portSetToPortRanges` lists exactly the ports of the set, as ranges in order that cannot be
-- joined, and whatever the order in which Go iterates over the set.
use mathlib.Core.List.{Perm, Permᴰ}
use mathlib.Core.Logic.{∥∥₁_elim}
use chaosblade_exec_os.Prelude.{
  ℕ, ◌+◌, ◌≤◌, ◌<◌, ◌≡◌, refl, ◌∙◌, ap, List, [], ◌∷◌, true, false, ◌⊎◌, arith, In, Any, ◌↔◌,
}
use chaosblade_exec_os.Ports.Ranges.{
  PortRange, has_port, insert_sorted, sort_ints, ranges_from, ranges_of, port_set_to_port_ranges,
}

-- The port lies within the range.
abbrev pub InRange : ℕ → PortRange → Type 0
InRange p r = (r.first ≤ p) × (p ≤ r.last)

-- Every range begins at least two ports behind the one before it.
abbrev Follows : ℕ → List PortRange → Type 0
Follows bound [] = Unit
Follows bound (r ∷ rs) = (bound + 1 < r.first) × (r.first ≤ r.last) × Follows r.last rs

-- Ranges in order, none of them empty, no two of which could be joined.
abbrev pub IsSeparated : List PortRange → Type 0
IsSeparated [] = Unit
IsSeparated (r ∷ rs) = (r.first ≤ r.last) × Follows r.last rs

-- The keys of a map.
abbrev pub IsDistinct : List ℕ → Type 0
IsDistinct [] = Unit
IsDistinct (p ∷ ps) = (has_port p ps ≡ false) × IsDistinct ps

abbrev Ascends : ℕ → List ℕ → Type 0
Ascends bound [] = Unit
Ascends bound (p ∷ ps) = (bound < p) × Ascends p ps

abbrev IsAscending : List ℕ → Type 0
IsAscending [] = Unit
IsAscending (p ∷ ps) = Ascends p ps

In-insert_sorted : (x p : ℕ) (ps : List ℕ) → In x (insert_sorted p ps) ↔ ((x ≡ p) ⊎ In x ps)
unfolding insert_sorted
In-insert_sorted x p [] = ground arith
In-insert_sorted x p (q ∷ ps) = ground (arith, In-insert_sorted x p ps)

In-sort_ints : (x : ℕ) (ps : List ℕ) → In x (sort_ints ps) ↔ In x ps
unfolding sort_ints
In-sort_ints x [] = ground arith
In-sort_ints x (p ∷ ps) = ground (arith, In-insert_sorted x p (sort_ints ps), In-sort_ints x ps)

pub In-has_port : (p : ℕ) (ps : List ℕ) → (has_port p ps ≡ true) ↔ In p ps
unfolding has_port
In-has_port p [] = ground arith
In-has_port p (q ∷ ps) = ground (arith, In-has_port p ps)

Ascends-insert_sorted :
    (b p : ℕ) (qs : List ℕ)
    → b < p
    → has_port p qs ≡ false
    → Ascends b qs
    → Ascends b (insert_sorted p qs)
unfolding insert_sorted has_port
Ascends-insert_sorted b p [] lt new h = ground arith
Ascends-insert_sorted b p (q ∷ qs) lt new h = ground (arith, Ascends-insert_sorted q p qs)

IsAscending-insert_sorted :
    (p : ℕ) (qs : List ℕ)
    → has_port p qs ≡ false
    → IsAscending qs
    → IsAscending (insert_sorted p qs)
unfolding insert_sorted has_port
IsAscending-insert_sorted p [] new h = ground arith
IsAscending-insert_sorted p (q ∷ qs) new h = ground (arith, Ascends-insert_sorted q p qs)

IsAscending-sort_ints : (ps : List ℕ) → IsDistinct ps → IsAscending (sort_ints ps)
unfolding sort_ints
IsAscending-sort_ints [] h = tt
IsAscending-sort_ints (p ∷ ps) (new, h) =
    IsAscending-insert_sorted p (sort_ints ps)
      (ground (arith, In-has_port p ps, In-has_port p (sort_ints ps), In-sort_ints p ps))
      (IsAscending-sort_ints ps h)

Any-ranges_from :
    (x s e : ℕ) (ps : List ℕ)
    → s ≤ e
    → Any (InRange x) (ranges_from s e ps) ↔ (((s ≤ x) × (x ≤ e)) ⊎ In x ps)
unfolding ranges_from
Any-ranges_from x s e [] h = ground arith
Any-ranges_from x s e (p ∷ ps) h =
    ground (arith, Any-ranges_from x s p ps, Any-ranges_from x p p ps)

Any-ranges_of : (x : ℕ) (ps : List ℕ) → Any (InRange x) (ranges_of ps) ↔ In x ps
unfolding ranges_of
Any-ranges_of x [] = ground arith
Any-ranges_of x (p ∷ ps) = ground (arith, Any-ranges_from x p p ps)

Follows-ranges_from :
    (b s e : ℕ) (ps : List ℕ) → b + 1 < s → s ≤ e → Ascends e ps → Follows b (ranges_from s e ps)
unfolding ranges_from
Follows-ranges_from b s e [] lt le h = (lt, le, tt)
Follows-ranges_from b s e (p ∷ ps) lt le (up, h) =
    ground (arith, Follows-ranges_from b s p ps, Follows-ranges_from e p p ps)

IsSeparated-ranges_from :
    (s e : ℕ) (ps : List ℕ) → s ≤ e → Ascends e ps → IsSeparated (ranges_from s e ps)
unfolding ranges_from
IsSeparated-ranges_from s e [] le h = (le, tt)
IsSeparated-ranges_from s e (p ∷ ps) le (up, h) =
    ground (arith, IsSeparated-ranges_from s p ps, Follows-ranges_from e p p ps)

IsSeparated-ranges_of : (ps : List ℕ) → IsAscending ps → IsSeparated (ranges_of ps)
unfolding ranges_of
IsSeparated-ranges_of [] h = tt
IsSeparated-ranges_of (p ∷ ps) h = IsSeparated-ranges_from p p ps (omega arith) h

-- A port lies in one of the ranges exactly when it is in the set.
pub port_set_to_port_ranges-covers :
    (p : ℕ) (set : List ℕ) → Any (InRange p) (port_set_to_port_ranges set) ↔ In p set
unfolding port_set_to_port_ranges
port_set_to_port_ranges-covers p set =
    ground (arith, Any-ranges_of p (sort_ints set), In-sort_ints p set)

-- For a set without repetition the ranges are in ascending order, none is empty, and between two
-- that follow one another there is a port that is in neither, so none can be joined.
pub port_set_to_port_ranges-IsSeparated :
    (set : List ℕ) → IsDistinct set → IsSeparated (port_set_to_port_ranges set)
unfolding port_set_to_port_ranges
port_set_to_port_ranges-IsSeparated set h =
    IsSeparated-ranges_of (sort_ints set) (IsAscending-sort_ints set h)

insert_sorted_comm :
    (p q : ℕ) (xs : List ℕ)
    → insert_sorted p (insert_sorted q xs) ≡ insert_sorted q (insert_sorted p xs)
unfolding insert_sorted
insert_sorted_comm p q [] = ground arith
insert_sorted_comm p q (x ∷ xs) = ground (arith, insert_sorted_comm p q xs)

sort_ints-Permᴰ : {xs ys : List ℕ} → Permᴰ xs ys → sort_ints xs ≡ sort_ints ys
unfolding sort_ints
sort_ints-Permᴰ Permᴰ.nil = refl
sort_ints-Permᴰ (Permᴰ.cons e r) = cc (sort_ints-Permᴰ r)
sort_ints-Permᴰ (Permᴰ.swap {a} {b} {a'} {b'} {l} e f) = cc (insert_sorted_comm a b (sort_ints l))
sort_ints-Permᴰ (Permᴰ.trans r s) = sort_ints-Permᴰ r ∙ sort_ints-Permᴰ s

PortRanges-set : IsSet (List PortRange)
PortRanges-set = hlevel

-- The order in which Go iterates over the set does not matter.
pub port_set_to_port_ranges-perm :
    (xs ys : List ℕ) → Perm xs ys → port_set_to_port_ranges xs ≡ port_set_to_port_ranges ys
unfolding port_set_to_port_ranges
port_set_to_port_ranges-perm xs ys r =
    ∥∥₁_elim r (PortRanges-set _ _) (λ d. ap ranges_of (sort_ints-Permᴰ d))
