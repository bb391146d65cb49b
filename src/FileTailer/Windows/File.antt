-- ===== src/FileTailer/Windows/File.antt =====
-- file_windows.go: a File that is opened again for every operation. The index of a file, low and
-- high, is one number, the one that a FileInfo without answer has being 0; a handle's name is the
-- path, its offset is currentPos.
pub mod Reopen
use go_libtail.Prelude.{
  ℕ, zero, suc, ◌+◌, ◌⊎◌, inl, inr, Bool, true, false, Option, none, some, List, [], ◌∷◌, ◌++◌,
  length, drop, ltb, ◌==◌, if◌then◌else◌,
}
use go_libtail.Bufio.{File}
use go_libtail.Errors.{
  Text, text, Error, ErrorType, new_error, not_specified, file_not_found, directory_not_found,
  win_file_removed, error,
}
use go_libtail.FileTailer.Session.{
  Handle, FileInfo, System, Created, created, no_information, no_such_file, refused, listed,
  open_dir_failed, read_dir_failed, quoted, text_eq,
}

-- syscall.UTF16PtrFromString refuses a text with a NUL in it.
unfoldable pub has_nul : Text → Bool
has_nul [] = false
has_nul (c ∷ s) = let rest = has_nul s in if c == 0 then true else rest

-- What openWithBackoff returns when no attempt was successful.
unfoldable pub give_up : Text → Created → Error
give_up path (no_such_file cause) =
    new_error file_not_found (some (text "CreateFile: " ++ cause)) path
give_up path (refused cause) =
    new_error not_specified (some (text "CreateFile: " ++ cause))
      (quoted path ++ text ": cannot open file")
give_up path (created index) =
    new_error not_specified none (quoted path ++ text ": cannot open file")
give_up path (no_information cause) =
    new_error not_specified (some (text "GetFileInformationByHandle: " ++ cause)) path

-- The loop over the attempts: so many are left, the next is attempt i, and the last one before it
-- had this answer.
unfoldable pub attempts : System → Text → ℕ → ℕ → Created → Error ⊎ ℕ
unfolding give_up
attempts w path zero i last = inl (give_up path last)
attempts w path (suc left) i last = elim (w.create_file path i) [
  | created index ↦ inr index
  | no_information cause ↦ inl (give_up path (no_information cause))
  | no_such_file cause ↦ attempts w path left (suc i) (no_such_file cause)
  | refused cause ↦ attempts w path left (suc i) (refused cause)
]

-- The index of the file that was opened.
unfoldable pub open_with_backoff : System → Text → Error ⊎ ℕ
unfolding attempts has_nul
open_with_backoff w path = elim (has_nul path) [
  | true ↦ inl (
      new_error not_specified (some (text "invalid argument"))
        (path ++ text ": path contains an illegal character"))
  | false ↦ attempts w path 3 1 (refused [])
]

-- NewErrorf takes f.Name() for a format: here it has no verb in it.
-- f.fileIndexLow != info.FileIndexLow || f.fileIndexHigh != info.FileIndexHigh
unfoldable pub if_same_index : Handle → ℕ → Error ⊎ ℕ → Error ⊎ ℕ
if_same_index h index result =
    if h.file == index then result else inl (new_error win_file_removed none h.name)

unfoldable pub reopen_failed : Handle → Error → ErrorType → Error ⊎ ℕ
unfolding if_same_index
reopen_failed h e file_not_found = inl (new_error win_file_removed e.cause h.name)
reopen_failed h e not_specified = if_same_index h 0 (inl e)
reopen_failed h e directory_not_found = if_same_index h 0 (inl e)
reopen_failed h e win_file_removed = if_same_index h 0 (inl e)

unfoldable pub reopen : System → Handle → Error ⊎ ℕ
unfolding open_with_backoff reopen_failed if_same_index
reopen w h = elim (open_with_backoff w h.name) [
  | inl e ↦ reopen_failed h e e.error_type
  | inr index ↦ if_same_index h index (inr index)
]

-- What Read reads: from currentPos on, in the file opened again.
unfoldable pub file_of : System → Handle → File
unfolding reopen
file_of w h = elim (reopen w h) [
  | inl e ↦ record { id = h.id; unread = []; failing = true }
  | inr index ↦ record {
    id = h.id;
    unread = drop h.offset (w.content h.file);
    failing = w.reading_fails h.file;
  }
]

unfoldable pub read_error : System → Handle → Text
unfolding reopen error
read_error w h = elim (reopen w h) [ inl e ↦ error e | inr index ↦ w.read_error ]

-- Seek: the first error of opening it again and of the calls of the system.
unfoldable pub seek_error : System → Handle → Option Error
unfolding reopen
seek_error w h = elim (reopen w h) [
  | inl e ↦ some e
  | inr index ↦ elim (w.seek_error h.file) [
    | none ↦ none
    | some cause ↦ some (new_error not_specified (some (text "seek: " ++ cause)) h.name)
  ]
]

unfoldable pub check_truncated : System → Handle → Error ⊎ Bool
unfolding reopen
check_truncated w h = elim (reopen w h) [
  | inl e ↦ inl e
  | inr index ↦ elim (w.stat_error h.file) [
    | some cause ↦ inl (new_error not_specified (some (text "stat: " ++ cause)) h.name)
    | none ↦ inr (ltb (length (w.content h.file)) h.offset)
  ]
]

-- The entries but for . and ..
without_dots : List FileInfo → List FileInfo
unfolding text_eq
without_dots [] = []
without_dots (info ∷ infos) =
    let rest = without_dots infos in
    if text_eq info.name (text ".")
    then rest
    else if text_eq info.name (text "..")
    then rest
    else info ∷ rest

-- The method ls of a directory.
unfoldable pub ls : System → Text → Error ⊎ List FileInfo
unfolding without_dots
ls w d = elim (w.read_dir d) [
  | listed infos ↦ inr (without_dots infos)
  | open_dir_failed cause ↦ inl (
      new_error not_specified (some (text "UTF16PtrFromString: " ++ cause))
        (d ++ text ": invalid directory name"))
  | read_dir_failed cause ↦
      inl (new_error not_specified (some cause) (d ++ text ": failed to read directory"))
]
