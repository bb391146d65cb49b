-- ===== src/FileTailer/Windows.antt =====
-- fswatcher_windows.go: what an event of fsnotify does to the tailer. filepath.Join and
-- filepath.Dir of Windows are parameters, and so are the texts of the events.
pub mod File
pub mod Dirs
pub mod Ends
use go_libtail.Prelude.{
  ℕ, zero, suc, ◌⊎◌, inl, inr, Bool, true, false, ◌||◌, Option, none, some, List, [], ◌∷◌, ◌++◌,
  length, drop, get_elem?, ltb, ◌==◌, if◌then◌else◌,
}
use mathlib.Core.Option
use go_libtail.Errors.{
  Text, text, Error, ErrorType, new_error, not_specified, file_not_found, directory_not_found,
  win_file_removed, error,
}
use go_libtail.FileTailer.Session.{Handle, Watched, Dir, Session, FileInfo, System}
use go_libtail.FileTailer.Os.{Os}
use go_libtail.FileTailer.Sync.{
  Outcome, Files, update, read_watched, sync_files_in_dir, unless_error,
}
use go_libtail.FileTailer.Linux.{restarted, watched_at}
use go_libtail.FileTailer.Windows.File.{
  open_with_backoff, file_of, read_error, seek_error, check_truncated, ls,
}

-- The loop of findSameFile: SameFile compares the indices.
unfoldable pub same_index_in : List Watched → List (Text × ℕ) → ℕ → Option ℕ
same_index_in heap [] index = none
same_index_in heap ((p, ref) ∷ files) index = elim (get_elem? heap ref) [
  | none ↦ same_index_in heap files index
  | some watched ↦ elim (watched.handle.file == index) [
    | true ↦ some ref
    | false ↦ same_index_in heap files index
  ]
]

unfoldable pub none_if_missing : Error → ErrorType → Error ⊎ Option ℕ
none_if_missing e file_not_found = inr none
none_if_missing e not_specified = inl e
none_if_missing e directory_not_found = inl e
none_if_missing e win_file_removed = inl e

-- findSameFile: the file at this path is opened for its index.
unfoldable pub find_same_index :
    System → List Watched → List (Text × ℕ) → FileInfo → Text → Error ⊎ Option ℕ
unfolding same_index_in none_if_missing
find_same_index w heap files info path = elim (open_with_backoff w path) [
  | inl e ↦ none_if_missing e e.error_type
  | inr index ↦ inr (same_index_in heap files index)
]

-- An error is known by its text.
abbrev by_text : Error ⊎ Bool → Text ⊎ Bool
by_text (inl e) = inl (error e)
by_text (inr truncated) = inr truncated

abbrev pub windows : (Text → Text → Text) → (Text → Text) → Os
windows join dir = record {
  join = join;
  dir = dir;
  ls = ls;
  same_file = find_same_index;
  open_file = open_with_backoff;
  seek_error = λ w h. Option.map error (seek_error w h);
  dup_error = λ w h. none;
  watch_file = λ w h. none;
  file_of = file_of;
  read_error = read_error;
  check_truncated = λ w h. by_text (check_truncated w h);
}

-- strings.HasPrefix(s, prefix)
unfoldable pub has_prefix : Text → Text → Bool
has_prefix s [] = true
has_prefix [] (p ∷ prefix) = false
has_prefix (c ∷ s) (p ∷ prefix) = let rest = has_prefix s prefix in if c == p then rest else false

unfoldable pub is_longer : Dir → Option Dir → Bool
is_longer d none = true
is_longer d (some found) = ltb (length found.path) (length d.path)

-- The loop of dirAndFile.
unfoldable pub longest : List Dir → Text → Option Dir → Option Dir
unfolding has_prefix is_longer
longest [] name found = found
longest (d ∷ dirs) name found =
    longest dirs name
      (if has_prefix name d.path then (if is_longer d found then some d else found) else found)

-- strings.TrimLeft(s, "\\/")
unfoldable pub trim_separators : Text → Text
trim_separators [] = []
trim_separators (c ∷ s) =
    let rest = trim_separators s in if c == b'\\' || c == b'/' then rest else c ∷ s

-- dirAndFile. `none`: a panic, since the path of the directory that was not found is read.
unfoldable pub dir_and_file : List Dir → Text → Option (Dir × Text)
unfolding longest trim_separators
dir_and_file dirs name = elim (longest dirs name none) [
  | none ↦ none
  | some d ↦ some (d, trim_separators (drop (length d.path) name))
]

-- What the code tests of an fsnotify.Event.
pub record WinEvent : Type 0 where
  pub name : Text
  pub writes : Bool
  pub renames : Bool
  pub removes : Bool
  pub creates : Bool

module _ (join : Text → Text → Text) (dir : Text → Text) (matches : Text → Text → Bool)
    (accepts : ℕ → Bool) (w : System) where
  unfoldable pub sync_if_changed : Session → Dir → WinEvent → Outcome
  sync_if_changed t d e = elim (e.renames || (e.removes || e.creates)) [
    | true ↦ sync_files_in_dir (windows join dir) matches accepts w t d.path true
    | false ↦ some (none, t)
  ]

  -- A file that is not there any more: its directory is synced, and that is all.
  unfoldable pub truncation_unknown : Session → Dir → Error → ErrorType → Outcome
  truncation_unknown t d e win_file_removed =
      sync_files_in_dir (windows join dir) matches accepts w t d.path true
  truncation_unknown t d e not_specified = some (some e, t)
  truncation_unknown t d e file_not_found = some (some e, t)
  truncation_unknown t d e directory_not_found = some (some e, t)

  unfoldable pub restart_file : Session → ℕ → Watched → Option Error → Outcome
  unfolding restarted update
  restart_file t ref watched (some e) =
      some (some (new_error not_specified (some (text "seek: " ++ error e)) watched.handle.name), t)
  restart_file t ref watched none =
      read_watched (windows join dir) accepts w (update t ref (restarted watched)) ref
        (restarted watched)

  unfoldable pub read_changed : Session → Dir → WinEvent → ℕ → Watched → Outcome
  unfolding restart_file truncation_unknown sync_if_changed
  read_changed t d e ref watched = elim (check_truncated w watched.handle) [
    | inl err ↦ truncation_unknown t d err err.error_type
    | inr true ↦
        unless_error (restart_file t ref watched (seek_error w watched.handle))
          (λ t'. sync_if_changed t' d e)
    | inr false ↦
        unless_error (read_watched (windows join dir) accepts w t ref watched)
          (λ t'. sync_if_changed t' d e)
  ]

  unfoldable pub process_in_win_dir : Session → Dir → Text → WinEvent → Outcome
  unfolding read_changed sync_if_changed
  process_in_win_dir t d name e = elim e.writes [
    | true ↦ elim (watched_at t (join d.path name)) [
      | none ↦ some (none, t)
      | some (ref, watched) ↦ read_changed t d e ref watched
    ]
    | false ↦ sync_if_changed t d e
  ]

  -- processEvent. `none`: a panic.
  unfoldable pub process_win_event : Session → WinEvent → Option Outcome
  unfolding process_in_win_dir dir_and_file
  process_win_event t e = elim (dir_and_file t.watched_dirs e.name) [
    | none ↦ none
    | some (d, name) ↦ some (process_in_win_dir t d name e)
  ]
