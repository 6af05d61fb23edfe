-- ===== src/Go/Strings.antt =====
-- Functions of Go's package `strings`, over native texts.
use Prim.Native.String
use Prim.Native.String.{[], ◌∷◌}
use mathlib.Core.List.{[], ◌∷◌}
use chaosblade_exec_os.Prelude.{
  ℕ, zero, suc, ◌-◌, ◌≡◌, refl, Char, code, String, Bool, true, false, ◌&&◌, ◌||◌, List, ◌==◌, leb,
  if◌then◌else◌,
}

infixr 65 ◌+s◌
abbrev pub ◌+s◌ : String → String → String
s +s t = String.◌++◌ s t

unfoldable pub is_empty : String → Bool
is_empty [] = true
is_empty (c ∷ s) = false

-- strings.Contains for a text of one character
unfoldable pub contains_char : ℕ → String → Bool
contains_char k [] = false
contains_char k (c ∷ s) = code c == k || contains_char k s

unfoldable pub has_prefix : String → String → Bool
has_prefix s [] = true
has_prefix [] (d ∷ t) = false
has_prefix (c ∷ s) (d ∷ t) = code c == code d && has_prefix s t

-- strings.Contains
unfoldable pub contains : String → String → Bool
unfolding has_prefix
contains [] t = has_prefix [] t
contains (c ∷ s) t = has_prefix (c ∷ s) t || contains s t

unfoldable pub push_front : Char → List String → List String
push_front c [] = (c ∷ []) ∷ []
push_front c (w ∷ ws) = (c ∷ w) ∷ ws

-- strings.Split for a separator of one character
unfoldable pub split : ℕ → String → List String
unfolding push_front
split sep [] = "" ∷ []
split sep (c ∷ s) =
    let parts = split sep s in if code c == sep then "" ∷ parts else push_front c parts

-- strings.Join
unfoldable pub join : List String → String → String
join [] sep = ""
join (w ∷ []) sep = w
join (w ∷ v ∷ vs) sep = w +s sep +s join (v ∷ vs) sep

-- unicode.IsSpace
unfoldable pub is_space : ℕ → Bool
is_space c =
    (leb 9 c && leb c 13)
    || c == 0x20
    || c == 0x85
    || c == 0xa0
    || c == 0x1680
    || (leb 0x2000 c && leb c 0x200a)
    || c == 0x2028
    || c == 0x2029
    || c == 0x202f
    || c == 0x205f
    || c == 0x3000

unfoldable pub trim_left : String → String
unfolding is_space
trim_left [] = []
trim_left (c ∷ s) = let rest = trim_left s in if is_space (code c) then rest else c ∷ s

unfoldable pub trim_right : String → String
unfolding is_space is_empty
trim_right [] = []
trim_right (c ∷ s) =
    let rest = trim_right s in if is_space (code c) && is_empty rest then [] else c ∷ rest

-- strings.TrimSpace
unfoldable pub trim_space : String → String
unfolding trim_left trim_right
trim_space s = trim_right (trim_left s)

-- What is left of a split: `skip` characters of a separator are still to be passed over.
unfoldable pub split_text_from : String → ℕ → String → List String
unfolding has_prefix push_front
split_text_from sep skip [] = "" ∷ []
split_text_from sep (suc skip) (c ∷ s) = split_text_from sep skip s
split_text_from sep zero (c ∷ s) =
    let cut : List String = "" ∷ split_text_from sep (String.count sep - 1) s in
    let kept = push_front c (split_text_from sep zero s) in
    if has_prefix (c ∷ s) sep then cut else kept

-- strings.Split, for a separator that is not empty
unfoldable pub split_text : String → String → List String
unfolding split_text_from
split_text sep s = split_text_from sep 0 s

-- strings.Fields: `fresh` says that no field is open.
unfoldable pub fields_from : Bool → String → List String
unfolding is_space push_front
fields_from fresh [] = if fresh then [] else "" ∷ []
fields_from fresh (c ∷ s) =
    let gap = fields_from true s in
    let word = push_front c (fields_from false s) in
    if is_space (code c) then (if fresh then gap else "" ∷ gap) else word

unfoldable pub fields : String → List String
unfolding fields_from
fields s = fields_from true s

unfoldable pub drop_chars : ℕ → String → String
drop_chars zero s = s
drop_chars (suc n) [] = []
drop_chars (suc n) (c ∷ s) = drop_chars n s

-- strings.Replace(s, old, new, 1), for a text that is not empty
unfoldable pub replace_first : String → String → String → String
unfolding has_prefix drop_chars
replace_first old new [] = []
replace_first old new (c ∷ s) =
    let rest : String = c ∷ replace_first old new s in
    if has_prefix (c ∷ s) old then new +s drop_chars (String.count old) (c ∷ s) else rest

-- What is left of strings.ReplaceAll: `skip` characters of a replaced text are to be passed over.
unfoldable pub replace_from : String → String → ℕ → String → String
unfolding has_prefix
replace_from old new skip [] = []
replace_from old new (suc skip) (c ∷ s) = replace_from old new skip s
replace_from old new zero (c ∷ s) =
    let replaced = new +s replace_from old new (String.count old - 1) s in
    let kept : String = c ∷ replace_from old new zero s in
    if has_prefix (c ∷ s) old then replaced else kept

-- strings.ReplaceAll, for a text that is not empty
unfoldable pub replace_all : String → String → String → String
unfolding replace_from
replace_all old new s = replace_from old new 0 s

-- strings.SplitN for a separator of one character: `n` cuts at most
unfoldable pub split_n : ℕ → ℕ → String → List String
unfolding push_front
split_n n sep [] = "" ∷ []
split_n zero sep (c ∷ s) = (c ∷ s) ∷ []
split_n (suc n) sep (c ∷ s) =
    let cut : List String = "" ∷ split_n n sep s in
    let kept = push_front c (split_n (suc n) sep s) in if code c == sep then cut else kept

fields_of_line : fields " a  bc d" ≡ "a" ∷ "bc" ∷ "d" ∷ []
unfolding fields
fields_of_line = refl

split_address : split_text "]:" "[::1]:80" ≡ "[::1" ∷ "80" ∷ []
unfolding split_text
split_address = refl

split_commas : split b',' "80,,8000-8080" ≡ "80" ∷ "" ∷ "8000-8080" ∷ []
unfolding split
split_commas = refl

trim_both : trim_space "\t 80 \n" ≡ "80"
unfolding trim_space
trim_both = refl

replaced_once : replace_first "ab" "x" "cabab" ≡ "cxab"
unfolding replace_first
replaced_once = refl

replaced_all : replace_all "ab" "xab" "abcab" ≡ "xabcxab"
unfolding replace_all
replaced_all = refl

split_three : split_n 2 b':' "0::/a:b" ≡ "0" ∷ "" ∷ "/a:b" ∷ []
unfolding split_n
split_three = refl
