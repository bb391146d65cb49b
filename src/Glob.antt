-- ===== src/Glob.antt =====
-- tailer/glob: the file name patterns. glob.go is modelled for the systems other than Windows,
-- whose paths are split at '/'.
pub mod Validator
pub mod Wildcards
use go_libtail.Prelude.{
  ℕ, Bool, true, false, not, ◌&&◌, ◌||◌, Option, none, some, List, [], ◌∷◌, ◌++◌, ◌==◌,
  if◌then◌else◌,
}
use go_libtail.Errors.{Text, text}
use go_libtail.Glob.Validator.{is_pattern_valid}

-- The loop of containsWildcards; `escaped`: the rune before was an escaping backslash.
unfoldable pub wildcards_from : Bool → Text → Bool → Bool
wildcards_from windows [] escaped = false
wildcards_from windows (c ∷ p) escaped =
    let after = wildcards_from windows p true in
    let rest = wildcards_from windows p false in
    if (c == b'\\') && (not escaped && not windows)
    then after
    else if not escaped && ((c == b'[') || ((c == b'*') || (c == b'?')))
    then true
    else rest

unfoldable pub contains_wildcards : Bool → Text → Bool
unfolding wildcards_from
contains_wildcards windows pattern = wildcards_from windows pattern false

-- The parts of a path between its separators.
abbrev pub split_at_slash : Text → Text → List Text
split_at_slash part [] = part ∷ []
split_at_slash part (c ∷ p) =
    let next = split_at_slash [] p in
    let more = split_at_slash (part ++ c ∷ []) p in if c == b'/' then part ∷ next else more

-- filepath.Clean of a rooted path takes its parts one by one: an empty one and "." go, ".."
-- takes the one in front with it. The parts that stay are kept last first.
abbrev pub clean_part : List Text → Text → List Text
clean_part kept [] = kept
clean_part kept (c ∷ []) = if c == b'.' then kept else (c ∷ []) ∷ kept
clean_part [] (c ∷ d ∷ []) = if (c == b'.') && (d == b'.') then [] else (c ∷ d ∷ []) ∷ []
clean_part (k ∷ kept) (c ∷ d ∷ []) =
    if (c == b'.') && (d == b'.') then kept else (c ∷ d ∷ []) ∷ k ∷ kept
clean_part kept (c ∷ d ∷ e ∷ part) = (c ∷ d ∷ e ∷ part) ∷ kept

abbrev pub clean_parts : List Text → List Text → List Text
clean_parts kept [] = kept
clean_parts kept (part ∷ parts) = clean_parts (clean_part kept part) parts

-- The parts, last first, as a rooted path.
abbrev pub rooted_from : Text → List Text → Text
rooted_from behind [] = behind
rooted_from behind (part ∷ kept) = rooted_from (b'/' ∷ part ++ behind) kept

abbrev pub rooted : List Text → Text
rooted [] = text "/"
rooted (part ∷ kept) = rooted_from [] (part ∷ kept)

unfoldable pub clean_rooted : Text → Text
clean_rooted path = rooted (clean_parts [] (split_at_slash [] path))

-- filepath.Abs, in the working directory `cwd`.
unfoldable pub abs : Text → Text → Text
unfolding clean_rooted
abs cwd [] = clean_rooted cwd
abs cwd (c ∷ path) =
    if c == b'/' then clean_rooted (c ∷ path) else clean_rooted (cwd ++ b'/' ∷ c ∷ path)

-- filepath.Dir of a rooted path: what stands in front of its last separator, cleaned.
abbrev pub without_last : List Text → List Text
without_last [] = []
without_last (part ∷ []) = []
without_last (part ∷ next ∷ parts) = part ∷ without_last (next ∷ parts)

unfoldable pub dir : Text → Text
dir path = rooted (clean_parts [] (without_last (split_at_slash [] path)))

pub data ParseError : Type 0 where
  invalid_pattern no_working_directory wildcards_in_directory illegal_file_name : ParseError

pub data Parsed : Type 0 where
  glob : Text → Parsed
  failed : ParseError → Parsed

-- Parse. `none`: os.Getwd, which Abs calls for a path that is not rooted, fails.
unfoldable pub is_rooted : Text → Bool
is_rooted [] = false
is_rooted (c ∷ path) = c == b'/'

abbrev pub abs_path : Option Text → Text → Option Text
abs_path (some cwd) pattern = some (abs cwd pattern)
abs_path none pattern = if is_rooted pattern then some (abs [] pattern) else none

unfoldable pub check_directory : Option Text → Parsed
unfolding dir contains_wildcards
check_directory none = failed no_working_directory
check_directory (some path) =
    if contains_wildcards false (dir path) then failed wildcards_in_directory else glob path

unfoldable pub parse : Option Text → Text → Parsed
unfolding check_directory abs is_rooted
parse cwd pattern =
    if not (is_pattern_valid false pattern)
    then failed invalid_pattern
    else check_directory (abs_path cwd pattern)

unfoldable pub from_path : Option Text → Text → Parsed
unfolding parse
from_path cwd path =
    if contains_wildcards false path then failed illegal_file_name else parse cwd path
