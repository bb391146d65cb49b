-- ===== src/FileTailer/Darwin.antt =====
-- fswatcher_darwin.go, with ls of file_darwin.go and the texts of events of
-- fseventProducerLoop_darwin.go: what a kevent does to the tailer. The number of a watched
-- directory is its descriptor; `fd` gives that of an open handle.
pub mod Tracked
pub mod Ends
pub mod Runs
pub mod Written
use go_libtail.Prelude.{
  ℕ, ◌⊎◌, inl, inr, Bool, true, false, ◌||◌, Option, none, some, List, [], ◌∷◌, ◌++◌, get_elem?,
  ◌==◌, if◌then◌else◌,
}
use go_libtail.Glob.{dir}
use go_libtail.Errors.{Text, text, Error, new_error, not_specified, error}
use go_libtail.FileTailer.Session.{
  listed, open_dir_failed, read_dir_failed, Handle, Watched, Dir, Session, FileInfo, System, opened,
  not_there, open_failed,
}
use go_libtail.FileTailer.Os.{Os, join, find_same_file, open_file, file_of}
use go_libtail.FileTailer.Sync.{Outcome, update, read_watched, sync_files_in_dir, unless_error}
use go_libtail.FileTailer.Os.{is_truncated}
use go_libtail.FileTailer.Linux.{has_flag, restarted, failure, find_in, joined}
use go_libtail.FileTailer.Run.{Fswatcher}

-- What the code reads of a syscall.Kevent_t.
pub record Kevent : Type 0 where
  pub ident : ℕ
  pub fflags : ℕ

abbrev pub note_delete : ℕ
note_delete = 1

abbrev pub note_write : ℕ
note_write = 2

abbrev pub note_extend : ℕ
note_extend = 4

abbrev pub note_attrib : ℕ
note_attrib = 8

abbrev pub note_link : ℕ
note_link = 16

abbrev pub note_rename : ℕ
note_rename = 32

abbrev pub note_revoke : ℕ
note_revoke = 64

if_set : ℕ → ℕ → Text → List Text → List Text
unfolding has_flag
if_set fflags flag name rest = if has_flag fflags flag then name ∷ rest else rest

unfoldable pub event2string : Kevent → Text
unfolding if_set joined
event2string k = joined (
    if_set k.fflags note_delete (text "NOTE_DELETE") (
      if_set k.fflags note_write (text "NOTE_WRITE") (
        if_set k.fflags note_extend (text "NOTE_EXTEND") (
          if_set k.fflags note_attrib (text "NOTE_ATTRIB") (
            if_set k.fflags note_link (text "NOTE_LINK") (
              if_set k.fflags note_rename (text "NOTE_RENAME")
                (if_set k.fflags note_revoke (text "NOTE_REVOKE") [])))))))

-- The method ls of a directory that is kept open: Seek, then Readdir.
unfoldable pub ls_open : System → Text → Error ⊎ List FileInfo
ls_open w d = elim (w.read_dir d) [
  | listed infos ↦ inr infos
  | open_dir_failed cause ↦ inl (new_error not_specified (some (text "seek: " ++ cause)) d)
  | read_dir_failed cause ↦ inl (new_error not_specified (some (text "readdir: " ++ cause)) d)
]

unfoldable pub watch_file : System → Handle → Option Error
watch_file w h = elim (w.watch_error h.file) [
  | none ↦ none
  | some cause ↦
      some (new_error not_specified (some cause) (h.name ++ text ": failed to watch file"))
]

abbrev pub darwin : Os
darwin = record {
  join = join;
  dir = dir;
  ls = ls_open;
  same_file = find_same_file;
  open_file = open_file;
  seek_error = λ w h. w.seek_error h.file;
  dup_error = λ w h. w.dup_error h.file;
  watch_file = watch_file;
  file_of = file_of;
  read_error = λ w h. w.read_error;
  check_truncated = is_truncated;
}

open_failure : Text → Text → Error ⊎ Text
open_failure path cause =
    inl (new_error not_specified (some cause) (path ++ text ": open() failed"))

-- newDir: the directory is opened. A handle of it is no handle of a file.
unfoldable pub open_dir : System → Text → Error ⊎ Text
unfolding open_failure
open_dir w path = elim (w.open_file path) [
  | not_there cause ↦ open_failure path cause
  | open_failed cause ↦ open_failure path cause
  | opened file ↦ inr path
]

unfoldable pub watch_dir : System → Text → Error ⊎ Dir
unfolding open_dir
watch_dir w path = elim (open_dir w path) [
  | inl e ↦ inl e
  | inr name ↦ elim (w.add_watch path) [
    | inl cause ↦ inl (new_error not_specified (some cause) (path ++ text ": kevent() failed"))
    | inr fd ↦ inr (record { wd = fd; path = name })
  ]
]

-- An error for a directory that is gone.
unfoldable pub dir_gone : Kevent → Dir → Option Error
unfolding has_flag
dir_gone k d =
    if has_flag k.fflags note_delete
    then some (new_error not_specified none (d.path ++ text ": directory was deleted"))
    else if has_flag k.fflags note_rename
    then some (new_error not_specified none (d.path ++ text ": directory was moved"))
    else if has_flag k.fflags note_revoke
    then some (new_error not_specified none (d.path ++ text ": filesystem was unmounted"))
    else none

-- An error of syncFilesInDir gets a text in front.
unfoldable pub update_failed : Dir → Outcome → Outcome
update_failed d none = none
update_failed d (some (some e, t)) = some (
  some (
      new_error not_specified (some (error e))
        (d.path ++ text ": failed to update list of files in directory")),
  t,
)
update_failed d (some (none, t)) = some (none, t)

-- The watched file with this descriptor.
unfoldable pub find_file : (ℕ → ℕ) → List Watched → List (Text × ℕ) → ℕ → Option (ℕ × Watched)
find_file fd heap [] ident = none
find_file fd heap ((path, ref) ∷ files) ident = elim (get_elem? heap ref) [
  | none ↦ find_file fd heap files ident
  | some watched ↦ elim (fd watched.handle.id == ident) [
    | true ↦ some (ref, watched)
    | false ↦ find_file fd heap files ident
  ]
]

module _ (accepts : ℕ → Bool) (w : System) where
  unfoldable pub read_written : Session → ℕ → Watched → Kevent → Outcome
  unfolding has_flag read_watched
  read_written t ref watched k = elim (has_flag k.fflags note_write) [
    | true ↦ read_watched darwin accepts w t ref watched
    | false ↦ some (none, t)
  ]

  unfoldable pub restart_written : Session → ℕ → Watched → Kevent → Option Text → Outcome
  unfolding read_written restarted failure update
  restart_written t ref watched k (some cause) =
      some (failure watched.handle cause (text ": seek() failed"), t)
  restart_written t ref watched k none =
      read_written (update t ref (restarted watched)) ref (restarted watched) k

  -- Moved and deleted files are seen by the event of their directory.
  unfoldable pub process_file_event : Session → ℕ → Watched → Kevent → Outcome
  unfolding restart_written has_flag is_truncated
  process_file_event t ref watched k = elim (has_flag k.fflags note_attrib) [
    | false ↦ read_written t ref watched k
    | true ↦ elim (is_truncated w watched.handle) [
      | inl cause ↦ some (failure watched.handle cause (text ": seek() or stat() failed"), t)
      | inr true ↦ restart_written t ref watched k (w.seek_error watched.handle.file)
      | inr false ↦ read_written t ref watched k
    ]
  ]

module _ (fd : ℕ → ℕ) (matches : Text → Text → Bool) (accepts : ℕ → Bool) (w : System) where
  unfoldable pub sync_written : Session → Dir → Kevent → Outcome
  unfolding update_failed sync_files_in_dir has_flag
  sync_written t d k = elim (has_flag k.fflags note_write || has_flag k.fflags note_extend) [
    | true ↦ update_failed d (sync_files_in_dir darwin matches accepts w t d.path true)
    | false ↦ some (none, t)
  ]

  unfoldable pub process_dir_event : Session → Dir → Kevent → Outcome
  unfolding sync_written dir_gone
  process_dir_event t d k = unless_error (sync_written t d k) (λ t'. some (dir_gone k d, t'))

  -- Events of unknown descriptors are ignored.
  unfoldable pub process_kevent : Session → Kevent → Outcome
  unfolding process_dir_event process_file_event find_in find_file
  process_kevent t k = elim (find_in t.watched_dirs k.ident) [
    | some d ↦ process_dir_event t d k
    | none ↦ elim (find_file fd t.heap t.watched_files k.ident) [
      | some (ref, watched) ↦ process_file_event accepts w t ref watched k
      | none ↦ some (none, t)
    ]
  ]

abbrev pub darwin_watcher : (ℕ → ℕ) → (Text → Text → Bool) → Fswatcher Kevent
darwin_watcher fd matches = record {
  watch_dir = watch_dir;
  process_event = λ w accepts t k. process_kevent fd matches accepts w t k;
}
