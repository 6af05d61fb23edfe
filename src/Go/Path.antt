-- ===== src/Go/Path.antt =====
-- Functions of Go's package `path`.
use chaosblade_exec_os.Prelude.{
  String, List, [], ◌∷◌, Bool, true, false, ◌&&◌, ◌||◌, str_eq, if◌then◌else◌,
}
use chaosblade_exec_os.Go.Strings.{◌+s◌, is_empty, has_prefix, split}

-- path.Base: the last part that is not empty.
unfoldable last_part : List String → String → String
unfolding is_empty
last_part [] found = found
last_part (part ∷ parts) found = last_part parts (if is_empty part then found else part)

unfoldable pub base : String → String
unfolding last_part split
base p = last_part (split b'/' p) (if is_empty p then "." else "/")

-- One part of path.Clean, with the parts before it, the last first.
unfoldable clean_part : Bool → String → List String → List String
unfolding is_empty
clean_part rooted part [] =
    if is_empty part || str_eq part "." || (str_eq part ".." && rooted) then [] else part ∷ []
clean_part rooted part (top ∷ stack) =
    if is_empty part || str_eq part "."
    then top ∷ stack
    else if str_eq part ".." && (if str_eq top ".." then false else true)
    then stack
    else part ∷ top ∷ stack

unfoldable clean_parts : Bool → List String → List String → List String
unfolding clean_part
clean_parts rooted [] stack = stack
clean_parts rooted (part ∷ parts) stack = clean_parts rooted parts (clean_part rooted part stack)

unfoldable join_reversed : List String → String → String
join_reversed [] tail = tail
join_reversed (part ∷ parts) tail =
    join_reversed parts (if is_empty tail then part else part +s "/" +s tail)

unfoldable pub clean : String → String
unfolding clean_parts join_reversed has_prefix split
clean p =
    let rooted = has_prefix p "/" in
    let cleaned =
      (if rooted then "/" else "") +s join_reversed (clean_parts rooted (split b'/' p) []) "" in
    if is_empty cleaned then "." else cleaned

-- The text up to the last slash, with it.
unfoldable dir_text : List String → String
dir_text [] = ""
dir_text (part ∷ []) = ""
dir_text (part ∷ next ∷ parts) = part +s "/" +s dir_text (next ∷ parts)

unfoldable pub dir : String → String
unfolding clean dir_text
dir p = clean (dir_text (split b'/' p))

-- path.Join for two elements.
unfoldable pub join_path : String → String → String
unfolding clean
join_path a b =
    if is_empty a
    then (if is_empty b then "" else clean b)
    else if is_empty b
    then clean a
    else clean (a +s "/" +s b)
