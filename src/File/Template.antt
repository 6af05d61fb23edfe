-- ===== src/File/Template.antt =====
-- The placeholders of a content in exec/file/file_append.go: `parseDate`, `convertDateFormat` and
-- `parseRandom`, with the two regular expressions as functions.
use Prim.Native.String
use Prim.Native.String.{[], ◌∷◌}
use mathlib.Core.List.{[], ◌∷◌}
use chaosblade_exec_os.Prelude.{
  ℕ, zero, suc, ◌+◌, ◌-◌, ◌≡◌, refl, String, List, Option, none, some, Bool, true, false, code,
  ◌==◌, ◌||◌, leb, if◌then◌else◌,
}
use chaosblade_exec_os.Prelude.Result.{Result, ok, err}
use chaosblade_exec_os.Go.Strings.{
  ◌+s◌, is_empty, has_prefix, drop_chars, replace_first, replace_all,
}
use chaosblade_exec_os.Go.Strconv.{is_digit, ℤ, pos, atoi, atoi_text, itoa}

-- What stands in front of the first character that fails a test, and what follows.
unfoldable pub span : (ℕ → Bool) → String → String × String
span test [] = ("", "")
span test (c ∷ s) =
    let (front, rest) = span test s in
    let longer : String = c ∷ front in
    let whole : String = c ∷ s in if test (code c) then (longer, rest) else ("", whole)

-- A character that may stand in a date format: none of ( @ { } )
unfoldable pub is_plain : ℕ → Bool
is_plain c = if c == b'(' || c == b'@' || c == b'{' || c == b'}' || c == b')' then false else true

unfoldable pub ends_in_backslash : String → Bool
ends_in_backslash [] = false
ends_in_backslash (c ∷ []) = code c == b'\\'
ends_in_backslash (c ∷ d ∷ s) = ends_in_backslash (d ∷ s)

unfoldable pub starts_with : ℕ → String → Bool
starts_with k [] = false
starts_with k (c ∷ s) = code c == k

-- The text without its first character.
unfoldable pub tail : String → String
tail [] = []
tail (c ∷ s) = s

unfoldable pub first_char : String → String
first_char [] = []
first_char (c ∷ s) = c ∷ []

-- The group of a date behind "@{DATE:": the longest run of plain characters, and one more
-- character in front of the closing brace, or else the last of the run.
unfoldable pub date_group : String → Option String
unfolding span is_plain starts_with tail first_char ends_in_backslash is_empty
date_group s =
    let (run, rest) = span is_plain s in
    if starts_with b'}' (tail rest)
    then some (run +s first_char rest)
    else if is_empty run || ends_in_backslash run
    then none
    else if starts_with b'}' rest
    then some run
    else none

-- The group of a random number behind "@{RANDOM:": digits, a dash and digits.
unfoldable pub random_group : String → Option String
unfolding span is_digit starts_with tail is_empty
random_group s =
    let (begin, after) = span is_digit s in
    let (end, rest) = span is_digit (tail after) in
    if is_empty begin || is_empty end
    then none
    else if starts_with b'-' after
    then (if starts_with b'}' rest then some (begin +s "-" +s end) else none)
    else none

-- A match: the whole text and the group, text[0] and text[1].
pub record Match : Type 0 where
  pub whole : String
  pub group : String

-- A match of \\?@\{WORD:group\} at the start of a text.
unfoldable pub match_at : String → (String → Option String) → String → Option Match
unfolding has_prefix drop_chars
match_at word group s =
    let escape = if has_prefix s "\\" then "\\" else "" in
    let opening = escape +s "@{" +s word +s ":" in
    if has_prefix s opening
    then (elim (group (drop_chars (String.count opening) s)) as (λ g. Option Match) [
      | none ↦ none
      | some g ↦ some (record { whole = opening +s g +s "}"; group = g })
    ])
    else none

-- reg.FindAllStringSubmatch(content, -1): `skip` characters of a match are to be passed over.
unfoldable pub find_all : String → (String → Option String) → ℕ → String → List Match
unfolding match_at
find_all word group skip [] = []
find_all word group (suc skip) (c ∷ s) = find_all word group skip s
find_all word group zero (c ∷ s) = elim (match_at word group (c ∷ s)) [
  | none ↦ find_all word group zero s
  | some m ↦ m ∷ find_all word group (String.count m.whole - 1) s
]

unfoldable pub dates : String → List Match
unfolding find_all date_group
dates content = find_all "DATE" date_group 0 content

unfoldable pub randoms : String → List Match
unfolding find_all random_group
randoms content = find_all "RANDOM" random_group 0 content

-- The formats of the command `date`, and what package time writes for them.
abbrev pub formats : List (String × String)
formats =
    ("%Y", "2006")
    ∷ ("%y", "06")
    ∷ ("%m", "01")
    ∷ ("%B", "January")
    ∷ ("%b", "Jan")
    ∷ ("%d", "02")
    ∷ ("%e", "2")
    ∷ ("%H", "15")
    ∷ ("%I", "03")
    ∷ ("%k", "15")
    ∷ ("%l", "3")
    ∷ ("%M", "04")
    ∷ ("%S", "05")
    ∷ ("%p", "PM")
    ∷ ("%Z", "MST")
    ∷ ("%z", "-0700")
    ∷ ("%A", "Monday")
    ∷ ("%a", "Mon")
    ∷ []

unfoldable pub convert_with : List (String × String) → String → String
unfolding replace_all
convert_with [] format = format
convert_with ((old, new) ∷ rest) format = convert_with rest (replace_all old new format)

unfoldable pub convert_date_format : String → String
unfolding convert_with
convert_date_format format = convert_with formats format

-- The content with an escaped placeholder freed of its backslash.
unfoldable pub unescape : Match → String → String
unfolding replace_first
unescape m content = replace_first m.whole (replace_first "\\" "" m.whole) content

-- The loop of `parseDate`; `now` is the text of the time in a format.
unfoldable pub put_dates : (String → String) → List Match → String → String
unfolding unescape replace_first convert_date_format has_prefix
put_dates now [] content = content
put_dates now (m ∷ rest) content = put_dates now rest (
    if has_prefix m.whole "\\@"
    then unescape m content
    else replace_first m.whole (now (convert_date_format m.group)) content)

unfoldable pub parse_date : (String → String) → String → String
unfolding put_dates dates
parse_date now content = put_dates now (dates content) content

-- The numbers around the dash of a group.
unfoldable pub bounds : String → String × String
unfolding span is_digit tail
bounds group = let (begin, rest) = span is_digit group in (begin, tail rest)

-- The texts of the failures of `parseRandom`.
unfoldable pub illegal_parameter : String → String
unfolding atoi_text
illegal_parameter number = atoi_text number +s " illegal parameter"

-- rand.Intn(end-begin) + begin; `draw` gives the number below its bound. The texts are digits, so no
-- number is negative.
unfoldable pub random_text : (ℕ → ℕ) → ℤ → ℤ → Result String String
unfolding itoa
random_text draw (pos begin) (pos end) =
    if leb end begin
    then err "run append file failed, begin must < end"
    else ok (itoa (draw (end - begin) + begin))
random_text draw begin end = err "run append file failed, begin must < end"

unfoldable pub random_number : (ℕ → ℕ) → String → Result String String
unfolding bounds illegal_parameter random_text atoi
random_number draw group =
    let (first, second) = bounds group in
    elim (atoi first) [
      | none ↦ err (illegal_parameter first)
      | some begin ↦ elim (atoi second) [
        | none ↦ err (illegal_parameter second)
        | some end ↦ random_text draw begin end
      ]
    ]

-- The loop of `parseRandom`; `draw` is rand.Intn for each placeholder.
unfoldable pub put_randoms : (ℕ → ℕ → ℕ) → List Match → String → Result String String
unfolding unescape random_number replace_first has_prefix
put_randoms draw [] content = ok content
put_randoms draw (m ∷ rest) content = elim (has_prefix m.whole "\\@") [
  | true ↦ put_randoms draw rest (unescape m content)
  | false ↦ elim (random_number (draw 0) m.group) [
    | err e ↦ err e
    | ok number ↦ put_randoms (λ k. draw (suc k)) rest (replace_first m.whole number content)
  ]
]

-- parseRandom: the content, or the text of the failure.
unfoldable pub parse_random : (ℕ → ℕ → ℕ) → String → Result String String
unfolding put_randoms randoms
parse_random draw content = put_randoms draw (randoms content) content

found :
    dates "a @{DATE:+%Y} \\@{DATE:+%m}"
    ≡ record { whole = "@{DATE:+%Y}"; group = "+%Y" }
      ∷ record { whole = "\\@{DATE:+%m}"; group = "+%m" }
      ∷ []
unfolding dates
found = refl

converted : convert_date_format "+%Y-%m-%d %H:%M:%S" ≡ "+2006-01-02 15:04:05"
unfolding convert_date_format
converted = refl

drawn : parse_random (λ k n. 7) "[@{RANDOM:100-200}]ms \\@{RANDOM:1-2}" ≡ ok "[107]ms @{RANDOM:1-2}"
unfolding parse_random
drawn = refl
