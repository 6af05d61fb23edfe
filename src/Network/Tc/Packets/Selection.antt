-- ===== src/Network/Tc/Packets/Selection.antt =====
-- Which of the filters of a list of ranges pass a test that looks at ports.
use chaosblade_exec_os.Prelude.{
  ℕ, ◌+◌, ◌≡◌, ◌<◌, refl, sym, ◌∙◌, ap, ap₂, List, [], ◌∷◌, ◌++◌, map, Option, none, some, Bool,
  true, false, ◌&&◌, ◌||◌, if◌then◌else◌, leb, ltb, arith, All, Bool-cases, inl, inr,
}
use chaosblade_exec_os.Ports.Ranges.{PortRange}
use chaosblade_exec_os.Ports.Ranges.Valid.{IsPortRange}
use chaosblade_exec_os.Ports.Masks.{MaskEntry, build_mask_for_range}
use chaosblade_exec_os.Ports.Masks.Cover.{selects, filters_for, build_mask_for_range-exact}
use chaosblade_exec_os.Network.Tc.Packets.{Filter, for_each_mask, for_ranges, any_of, in_ranges}

module _ {A : Type 0} (test : A → Bool) where
  pub any_of-++ : (xs ys : List A) → any_of test (xs ++ ys) ≡ (any_of test xs || any_of test ys)
  unfolding any_of
  any_of-++ [] ys = refl
  any_of-++ (x ∷ xs) ys =
      ap (λ b. test x || b) (any_of-++ xs ys) ∙ or_assoc (test x) (any_of test xs) (any_of test ys)
    where
      or_assoc : (a b c : Bool) → (a || (b || c)) ≡ ((a || b) || c)
      or_assoc true b c = refl
      or_assoc false b c = refl

  pub any_of-map :
      {B : Type 0} (f : B → A) (xs : List B) → any_of test (map f xs) ≡ any_of (λ x. test (f x)) xs
  unfolding any_of
  any_of-map f [] = refl
  any_of-map f (x ∷ xs) = ap (λ b. test (f x) || b) (any_of-map f xs)

  pub any_of-and : (c : Bool) (xs : List A) → any_of (λ x. c && test x) xs ≡ (c && any_of test xs)
  unfolding any_of
  any_of-and true [] = refl
  any_of-and false [] = refl
  any_of-and true (x ∷ xs) = ap (λ b. test x || b) (any_of-and true xs)
  any_of-and false (x ∷ xs) = any_of-and false xs

  pub any_of-never : (xs : List A) → ((x : A) → test x ≡ false) → any_of test xs ≡ false
  unfolding any_of
  any_of-never [] never = refl
  any_of-never (x ∷ xs) never = ap (λ b. b || any_of test xs) (never x) ∙ any_of-never xs never

any_of-count :
    (p : ℕ) (ms : List MaskEntry) → any_of (λ m. selects m p) ms ≡ ltb 0 (filters_for p ms)
unfolding any_of filters_for
any_of-count p [] = refl
any_of-count p (m ∷ ms) = elim (Bool-cases (selects m p)) [
  | inl here ↦ rw here (ground arith)
  | inr other ↦
      let none_here : 0 + filters_for p ms ≡ filters_for p ms = omega arith in
      rw other (rw none_here (any_of-count p ms))
]

if_count : (b : Bool) → ltb 0 (if b then 1 else 0) ≡ b
if_count true = refl
if_count false = refl

from_some : List MaskEntry → Option (List MaskEntry) → List MaskEntry
from_some default none = default
from_some default (some ms) = ms

-- The masks of a range select its ports.
masks-select :
    (r : PortRange)
    → IsPortRange r
    → (ms : List MaskEntry) × (build_mask_for_range r.first r.last ≡ some ms)
      × ((p : ℕ) → p < 65536 → any_of (λ m. selects m p) ms ≡ (leb r.first p && leb p r.last))
unfolding from_some
masks-select r (positive, ordered, small) =
    let (ms, built, _) =
      build_mask_for_range-exact r.first r.last 0 positive ordered small (omega arith) in
    (
      ms,
      built,
      λ p port.
          let (ms', built', count) =
            build_mask_for_range-exact r.first r.last p positive ordered small port in
          let same : ms ≡ ms' = ap (from_some []) (sym built ∙ built') in
          any_of-count p ms
          ∙ ap (λ es. ltb 0 (filters_for p es)) same
          ∙ ap (ltb 0) count
          ∙ if_count (leb r.first p && leb p r.last),
    )

-- The test of a mask's filters is a condition and the selection of one of two ports.
abbrev pub Tests : (Filter → Bool) → (MaskEntry → List Filter) → Bool → ℕ → ℕ → Type 0
Tests test make c q q' =
    (m : MaskEntry) → any_of test (make m) ≡ (c && (selects m q || selects m q'))

distribute :
    (c a b a' b' : Bool) → ((c && (a || b)) || (c && (a' || b'))) ≡ (c && ((a || a') || (b || b')))
distribute false a b a' b' = refl
distribute true true b a' b' = refl
distribute true false true true b' = refl
distribute true false true false b' = refl
distribute true false false true b' = refl
distribute true false false false b' = refl

module _ (make : MaskEntry → List Filter) where
  each_mask-Tests :
      (test : Filter → Bool) (c : Bool) (q q' : ℕ) (ms : List MaskEntry)
      → Tests test make c q q'
      → any_of test (for_each_mask make ms)
        ≡ (c && (any_of (λ m. selects m q) ms || any_of (λ m. selects m q') ms))
  unfolding for_each_mask any_of
  each_mask-Tests test true q q' [] tests = refl
  each_mask-Tests test false q q' [] tests = refl
  each_mask-Tests test c q q' (m ∷ ms) tests =
      any_of-++ test (make m) (for_each_mask make ms)
      ∙ ap₂ (λ a b. a || b) (tests m) (each_mask-Tests test c q q' ms tests)
      ∙ distribute c (selects m q) (selects m q') (any_of (λ m. selects m q) ms)
          (any_of (λ m. selects m q') ms)

  pub ranges-Tests :
      (ranges : List PortRange)
      → All IsPortRange ranges
      → (fs : List Filter) × (for_ranges make ranges ≡ some fs)
        × ((test : Filter → Bool) (c : Bool) (q q' : ℕ)
            → q < 65536
            → q' < 65536
            → Tests test make c q q'
            → any_of test fs ≡ (c && (in_ranges q ranges || in_ranges q' ranges)))
  unfolding for_ranges in_ranges any_of
  ranges-Tests [] valid = ([], refl, λ test c q q' port port' tests. nothing c)
    where
      nothing : (c : Bool) → false ≡ (c && (false || false))
      nothing true = refl
      nothing false = refl
  ranges-Tests (r ∷ rest) (valid, later) =
      let (ms, built, select) = masks-select r valid in
      let (fs, made, sound) = ranges-Tests rest later in
      (
        for_each_mask make ms ++ fs,
        rw (built, for_ranges) (rw (made, for_ranges) refl),
        λ test c q q' port port' tests.
            any_of-++ test (for_each_mask make ms) fs
            ∙ ap₂ (λ a b. a || b)
                (each_mask-Tests test c q q' ms tests
                  ∙ ap₂ (λ a b. c && (a || b)) (select q port) (select q' port'))
                (sound test c q q' port port' tests)
            ∙ distribute c (leb r.first q && leb q r.last) (leb r.first q' && leb q' r.last)
                (in_ranges q rest) (in_ranges q' rest),
      )
