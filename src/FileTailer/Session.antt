-- ===== src/FileTailer/Session.antt =====
-- fswatcher.go: the state of the tailer, what it asks of the operating system, and the functions
-- that only look at the state.
pub mod Lookup
pub mod Contains
pub mod Dirs
use go_libtail.Prelude.{
  ℕ, zero, suc, ◌+◌, ◌-◌, ◌⊎◌, inl, inr, Bool, true, false, not, Option, none, some, List, [], ◌∷◌,
  ◌++◌, length, drop, ◌==◌, if◌then◌else◌,
}
use go_libtail.Bufio.{Bytes, File}
use go_libtail.Errors.{
  Text, text, Error, new_error, not_specified, directory_not_found, file_not_found,
}
use go_libtail.LineReader.{LineReader}
use go_libtail.Glob.{dir}
use go_libtail.FileTailer.{Line}

-- An *os.File: `id` stands for the pointer, `file` for what os.SameFile compares.
pub record Handle : Type 0 where
  pub id : ℕ
  pub name : Text
  pub file : ℕ
  pub offset : ℕ

-- fileWithReader.
pub record Watched : Type 0 where
  pub handle : Handle
  pub reader : LineReader

pub record Dir : Type 0 where
  pub wd : ℕ
  pub path : Text

-- fileTailer. The map holds pointers into `heap`; its entries stand in some order, and a Go map
-- is read in any. `sent` is what was written to the lines channel, `closed` the handles closed.
pub record Session : Type 0 where
  pub globs : List Text
  pub watched_dirs : List Dir
  pub watched_files : List (Text × ℕ)
  pub heap : List Watched
  pub max_line_bytes : ℕ
  pub sent : List Line
  pub next_id : ℕ
  pub closed : List ℕ

-- os.FileInfo.
pub record FileInfo : Type 0 where
  pub name : Text
  pub file : ℕ
  pub is_dir : Bool

pub data Listing : Type 0 where
  listed : List FileInfo → Listing
  open_dir_failed read_dir_failed : Text → Listing

pub data Opened : Type 0 where
  opened : ℕ → Opened
  not_there : Text → Opened
  open_failed : Text → Opened

-- CreateFile and GetFileInformationByHandle on Windows.
pub data Created : Type 0 where
  created : ℕ → Created
  no_information no_such_file refused : Text → Created

pub data Stated : Type 0 where
  stated : Bool → Stated
  no_such : Stated
  stat_failed : Text → Stated

-- The answers of the operating system during a call, which need not agree with each other: the
-- directories change meanwhile. A failure is the text of its error.
pub record System : Type 0 where
  pub read_dir : Text → Listing
  pub open_file : Text → Opened
  pub stat : Text → Stated
  pub content : ℕ → Bytes
  pub reading_fails : ℕ → Bool
  pub read_error : Text
  pub stat_error : ℕ → Option Text
  pub seek_error : ℕ → Option Text
  pub dup_error : ℕ → Option Text
  -- A directory or a file is added to what the watcher watches: a number for it, or the error.
  pub add_watch : Text → Text ⊎ ℕ
  pub watch_error : ℕ → Option Text
  -- The first, second and third attempt to open a file on Windows.
  pub create_file : Text → ℕ → Created

unfoldable pub text_eq : Text → Text → Bool
text_eq [] [] = true
text_eq [] (d ∷ t) = false
text_eq (c ∷ s) [] = false
text_eq (c ∷ s) (d ∷ t) = let rest = text_eq s t in if c == d then rest else false

-- containsString.
unfoldable pub contains_string : List Text → Text → Bool
unfolding text_eq
contains_string [] s = false
contains_string (existing ∷ list) s =
    let rest = contains_string list s in if text_eq existing s then true else rest

-- contains: whether the map holds this pointer.
unfoldable pub contains : List (Text × ℕ) → ℕ → Bool
contains [] f = false
contains ((path, existing) ∷ list) f =
    let rest = contains list f in if existing == f then true else rest

-- %q of a text with nothing to escape.
abbrev pub quoted : Text → Text
quoted s = b'"' ∷ s ++ text "\""

-- One turn of the loop in uniqueDirs, for a directory that is not in the result yet.
unfoldable pub check_dir : Stated → Text → Option Error
check_dir no_such d =
    some (new_error directory_not_found none (quoted d ++ text ": no such directory"))
check_dir (stat_failed cause) d =
    some (new_error not_specified (some cause) (quoted d ++ text ": stat() failed"))
check_dir (stated true) d = none
check_dir (stated false) d =
    some (new_error not_specified none (quoted d ++ text " is not a directory"))

unfoldable pub unique_dirs_from : System → List Text → List Text → Error ⊎ List Text
unfolding contains_string check_dir
unique_dirs_from w result [] = inr result
unique_dirs_from w result (g ∷ globs) = elim (contains_string result (dir g)) [
  | true ↦ unique_dirs_from w result globs
  | false ↦ elim (check_dir (w.stat (dir g)) (dir g)) [
    | some e ↦ inl e
    | none ↦ unique_dirs_from w (result ++ dir g ∷ []) globs
  ]
]

unfoldable pub unique_dirs : System → List Text → Error ⊎ List Text
unfolding unique_dirs_from
unique_dirs w globs = unique_dirs_from w [] globs

-- `matches`: filepath.Match, with an error as no match.
module _ (matches : Text → Text → Bool) where
  unfoldable pub any_glob_matches : List Text → Text → Bool
  any_glob_matches [] path = false
  any_glob_matches (g ∷ globs) path =
      let rest = any_glob_matches globs path in if matches g path then true else rest

  unfoldable pub matches_any_file : Text → List (Text × ℕ) → Bool
  matches_any_file g [] = false
  matches_any_file g ((path, file) ∷ files) =
      let rest = matches_any_file g files in if matches g path then true else rest

  unfoldable pub check_missing_from : List (Text × ℕ) → List Text → Option Error
  unfolding matches_any_file
  check_missing_from files [] = none
  check_missing_from files (g ∷ globs) =
      let rest = check_missing_from files globs in
      if matches_any_file g files
      then rest
      else some (new_error file_not_found none (g ++ text ": no such file"))

  unfoldable pub check_missing_file : Session → Option Error
  unfolding check_missing_from
  check_missing_file t = check_missing_from t.watched_files t.globs
