-- ===== src/FileTailer/Os.antt =====
-- What fswatcher.go takes from the files of one operating system: the functions that are compiled
-- for it. Here those of file_linux.go and fswatcher_linux.go, which are file_darwin.go and
-- fswatcher_darwin.go too for all but the listing of a directory and the watching of a file.
use go_libtail.Prelude.{
  ℕ, ◌⊎◌, inl, inr, Bool, true, false, Option, none, some, List, [], ◌∷◌, ◌++◌, drop, get_elem?,
  length, ltb, ◌==◌,
}
use go_libtail.Bufio.{File}
use go_libtail.Glob.{dir, clean_rooted}
use go_libtail.Errors.{Text, text, Error, new_error, not_specified, file_not_found}
use go_libtail.FileTailer.Session.{
  listed, open_dir_failed, read_dir_failed, quoted, Handle, Watched, FileInfo, opened, not_there,
  open_failed, System,
}

pub record Os : Type 0 where
  -- filepath.Join of a directory and a name, and filepath.Dir.
  pub join : Text → Text → Text
  pub dir : Text → Text
  -- The method ls of a directory.
  pub ls : System → Text → Error ⊎ List FileInfo
  -- findSameFile.
  pub same_file : System → List Watched → List (Text × ℕ) → FileInfo → Text → Error ⊎ Option ℕ
  -- open.
  pub open_file : System → Text → Error ⊎ ℕ
  -- Why a Seek fails.
  pub seek_error : System → Handle → Option Text
  -- Why NewFile fails.
  pub dup_error : System → Handle → Option Text
  pub watch_file : System → Handle → Option Error
  -- What Read reads from a file, and why it fails.
  pub file_of : System → Handle → File
  pub read_error : System → Handle → Text
  -- isTruncated.
  pub check_truncated : System → Handle → Text ⊎ Bool

-- filepath.Join of a rooted directory and a name.
abbrev pub join : Text → Text → Text
join d name = clean_rooted (d ++ b'/' ∷ name)

-- What a handle has still to read.
unfoldable pub file_of : System → Handle → File
file_of w h = record {
  id = h.id;
  unread = drop h.offset (w.content h.file);
  failing = w.reading_fails h.file;
}

-- The method ls of a directory.
unfoldable pub ls : System → Text → Error ⊎ List FileInfo
ls w d = elim (w.read_dir d) [
  | listed infos ↦ inr infos
  | open_dir_failed cause ↦
      inl (new_error not_specified (some cause) (quoted d ++ text ": failed to open directory"))
  | read_dir_failed cause ↦
      inl (new_error not_specified (some cause) (quoted d ++ text ": failed to read directory"))
]

-- findSameFile.
unfoldable pub same_file : System → Watched → ℕ → Error ⊎ Bool
same_file w watched file = elim (w.stat_error watched.handle.file) [
  | some cause ↦
      inl (new_error not_specified (some cause) (watched.handle.name ++ text ": stat failed"))
  | none ↦ inr (watched.handle.file == file)
]

unfoldable pub find_same_file :
    System → List Watched → List (Text × ℕ) → FileInfo → Text → Error ⊎ Option ℕ
unfolding same_file
find_same_file w heap [] info path = inr none
find_same_file w heap ((p, ref) ∷ files) info path = elim (get_elem? heap ref) [
  | none ↦ find_same_file w heap files info path
  | some watched ↦ elim (same_file w watched info.file) [
    | inl e ↦ inl e
    | inr true ↦ inr (some ref)
    | inr false ↦ find_same_file w heap files info path
  ]
]

unfoldable pub open_file : System → Text → Error ⊎ ℕ
open_file w path = elim (w.open_file path) [
  | opened file ↦ inr file
  | not_there cause ↦ inl (new_error file_not_found (some (text "open: " ++ cause)) path)
  | open_failed cause ↦ inl (new_error not_specified (some (text "open: " ++ cause)) path)
]

-- isTruncated: the error, or whether the offset is behind the end.
unfoldable pub is_truncated : System → Handle → Text ⊎ Bool
is_truncated w h = elim (w.seek_error h.file) [
  | some cause ↦ inl cause
  | none ↦ elim (w.stat_error h.file) [
    | some cause ↦ inl cause
    | none ↦ inr (ltb (length (w.content h.file)) h.offset)
  ]
]

-- On Linux the directory is watched, and watchFile does nothing.
abbrev pub linux : Os
linux = record {
  join = join;
  dir = dir;
  ls = ls;
  same_file = find_same_file;
  open_file = open_file;
  seek_error = λ w h. w.seek_error h.file;
  dup_error = λ w h. w.dup_error h.file;
  watch_file = λ w h. none;
  file_of = file_of;
  read_error = λ w h. w.read_error;
  check_truncated = is_truncated;
}
