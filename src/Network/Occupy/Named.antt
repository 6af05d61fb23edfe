-- ===== src/Network/Occupy/Named.antt =====
-- The process that an answer of netstat names, and `pid_of`, which reads it from the answer in
-- exec/network/network_occupy.go.
use chaosblade_exec_os.Prelude.{
  ◌≡◌, refl, ◌∙◌, ap, sym, arith, Char, code, ◌==◌, String, List, [], ◌∷◌, Bool, if◌then◌else◌,
  ◌||◌, Option, none, some, true, false, inl, inr, Bool-cases, str_eq,
}
use mathlib.Core.Path.{subst}
use text.Mathlib.TextLemmas.{nil-append, cons-append}
use text.Mathlib.TextEquality.{Char-path}
use chaosblade_exec_os.Go.Strings.{◌+s◌, push_front, split, contains_char}
use chaosblade_exec_os.Network.Occupy.{pid_of}

-- A text names a process: it is the process, which is not empty and holds no slash, then a slash
-- and what follows.
abbrev pub Names : String → String → Type 0
Names text pid =
    (str_eq pid "" ≡ false)
    × (contains_char b'/' pid ≡ false)
    × ((program : String) × (text ≡ pid +s "/" +s program))

abbrev InFront : String → String → Type 0
InFront text pid =
    (contains_char b'/' pid ≡ false) × ((program : String) × (text ≡ pid +s "/" +s program))

slash_first : (c : Char) (s : String) → (code c == b'/') ≡ true → String.◌∷◌ c s ≡ "/" +s s
slash_first c s is =
    ap (λ x. String.◌∷◌ x s) (Char-path c "/" (ground (arith, is)))
    ∙ sym (cons-append "/" "" s ∙ ap (λ x. String.◌∷◌ "/" x) (nil-append s))

pushed_first :
    (c : Char) (parts : List String) (pid program : String) (rest : List String)
    → push_front c parts ≡ pid ∷ program ∷ rest
    → (w : String) × ((parts ≡ w ∷ program ∷ rest) × (pid ≡ String.◌∷◌ c w))
unfolding push_front
pushed_first c [] pid program rest is = cc
pushed_first c (w ∷ []) pid program rest is = cc
pushed_first c (w ∷ v ∷ vs) pid program rest is = (w, (cc, cc))

split_first :
    (text pid program : String) (rest : List String)
    → split b'/' text ≡ pid ∷ program ∷ rest
    → InFront text pid
unfolding split contains_char
split_first String.[] pid program rest is = cc
split_first (String.◌∷◌ c s) pid program rest is = elim (Bool-cases (code c == b'/')) [
  | inl slash ↦
      let begins : "" ≡ pid = ground (arith, is, slash) in
      subst (InFront (String.◌∷◌ c s)) begins
        (refl, (s, slash_first c s slash ∙ sym (nil-append ("/" +s s))))
  | inr other ↦
      let (w, (same, begins)) =
        pushed_first c (split b'/' s) pid program rest (ground (arith, is, other)) in
      let (free, (after, text)) = split_first s w program rest same in
      subst (InFront (String.◌∷◌ c s)) (sym begins) (
        rw (other, free) refl,
        (after, ap (λ x. String.◌∷◌ c x) text ∙ sym (cons-append c w ("/" +s after))),
      )
]

pub pid_of-Names : (text pid : String) → pid_of text ≡ some pid → Names text pid
unfolding pid_of
pid_of-Names text pid named = go (split b'/' text) refl named
  where
    go :
        (parts : List String)
        → split b'/' text ≡ parts
        → (elim parts as (λ x. Option String) [
          | [] ↦ none
          | p ∷ [] ↦ none
          | p ∷ program ∷ rest ↦ if str_eq p "" then none else some p
        ])
          ≡ some pid
        → Names text pid
    go [] is h = cc
    go (p ∷ []) is h = cc
    go (p ∷ program ∷ rest) is h = elim (Bool-cases (str_eq p "")) [
      | inl empty ↦ cc
      | inr given ↦
          let (free, found) = split_first text p program rest is in
          let same : p ≡ pid = ground (arith, h, given) in
          subst (Names text) same (given, free, found)
    ]

split_nonempty : (s : String) → (w : String) × ((ws : List String) × (split b'/' s ≡ w ∷ ws))
unfolding split push_front
split_nonempty String.[] = ("", ([], refl))
split_nonempty (String.◌∷◌ c s) = elim (Bool-cases (code c == b'/')) [
  | inl slash ↦ ("", (split b'/' s, rw slash refl))
  | inr other ↦
      let (w, (ws, parts)) = split_nonempty s in (String.◌∷◌ c w, (ws, rw other (rw parts refl)))
]

or_none : (a b : Bool) → (a || b) ≡ false → (a ≡ false) × (b ≡ false)
or_none true b none_true = cc
or_none false b none_true = (refl, none_true)

split_behind :
    (pid program : String)
    → contains_char b'/' pid ≡ false
    → split b'/' (pid +s "/" +s program) ≡ pid ∷ split b'/' program
unfolding split contains_char push_front
split_behind String.[] program free = ap (split b'/') (
    nil-append ("/" +s program)
    ∙ cons-append "/" "" program
    ∙ ap (λ x. String.◌∷◌ "/" x) (nil-append program))
split_behind (String.◌∷◌ c s) program free =
    ap (split b'/') (cons-append c s ("/" +s program))
    ∙ (let (other, later) = or_none (code c == b'/') (contains_char b'/' s) free in
        rw other (rw (split_behind s program later) refl))

pub Names-pid_of : (text pid : String) → Names text pid → pid_of text ≡ some pid
unfolding pid_of
Names-pid_of text pid (given, free, (program, is)) =
    let (w, (ws, parts)) = split_nonempty program in
    let whole : split b'/' text ≡ pid ∷ w ∷ ws =
      ap (split b'/') is ∙ split_behind pid program free ∙ ap (λ x. pid ∷ x) parts in
    rw (whole, pid_of) (rw given refl)
