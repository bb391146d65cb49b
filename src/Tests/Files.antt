-- ===== src/Tests/Files.antt =====
-- Directories and watched files: fswatcher.go and fswatcher_linux.go.
use go_libtail.Prelude.{ℕ, ◌≡◌, ◌↔◌, refl, true, false, none, some, List, [], ◌∷◌, arith, get_elem?}
use go_libtail.Errors.{Text, text}
use go_libtail.LineReader.{fresh_reader}
use go_libtail.LineReader.Idle.{fresh_reader-IsIdle}
use go_libtail.Glob.{dir}
use go_libtail.FileTailer.Session.{
  Watched, Session, System, listed, opened, created, stated, text_eq, check_missing_file,
  unique_dirs,
}
use go_libtail.FileTailer.Session.Lookup.{Matched, check_missing_file_iff}
use go_libtail.FileTailer.Session.Dirs.{Covers, unique_dirs-Covers}
use go_libtail.FileTailer.Linux.{read_modified}
use go_libtail.FileTailer.Linux.Truncated.{ReadAll, due, read_modified-ReadAll}
use go_libtail.Prelude.{◌⊎◌, inr}
use go_libtail.FileTailer.Session.{FileInfo}
use go_libtail.FileTailer.Sync.{sync_files_in_dir}
use go_libtail.FileTailer.Sync.Files.{IsIn, IsListed, sync_files_in_dir-IsListed}
use go_libtail.FileTailer.Session.{any_glob_matches, contains}
use go_libtail.FileTailer.Handles.Maps.{paths_of}
use go_libtail.FileTailer.Sync.Covers.{IsMissing}
use go_libtail.FileTailer.Sync.Covers.Whole.{sync_files_in_dir-IsDue}
use go_libtail.Prelude.In.{In}
use go_libtail.Prelude.{inl}
use go_libtail.Glob.{clean_rooted}
use go_libtail.FileTailer.Os.{linux, find_same_file, ls}
use go_libtail.FileTailer.Sync.{put_file, of_other_dirs}
use go_libtail.FileTailer.Linux.{Event, process_event}
use go_libtail.FileTailer.Polling.{poll}
use go_libtail.FileTailer.Polling.Ends.{poll-Returns}
use go_libtail.FileTailer.Total.Reads.{IsQuiet, Returns}
use go_libtail.FileTailer.Total.Events.{process_event-Returns}

-- A system on which every path is a directory and every file holds "ab\n".
abbrev pub small_system : System
small_system = record {
  read_dir = λ d. listed [];
  open_file = λ path. opened 7;
  stat = λ d. stated true;
  content = λ file. 97 ∷ 98 ∷ 10 ∷ [];
  reading_fails = λ file. false;
  read_error = text "EIO";
  stat_error = λ file. none;
  seek_error = λ file. none;
  dup_error = λ file. none;
  add_watch = λ path. inr 1;
  watch_error = λ file. none;
  create_file = λ path i. created 7;
}

abbrev two_globs : List Text
two_globs = text "/a/x" ∷ text "/a/y" ∷ []

-- A file of which ten bytes had been read: it was truncated.
abbrev pub cut_file : Watched
cut_file = record {
  handle = record { id = 1; name = text "/a/x"; file = 7; offset = 10 };
  reader = fresh_reader 4 16;
}

abbrev pub one_file : Session
one_file = record {
  globs = two_globs;
  watched_dirs = (record { wd = 1; path = text "/a" }) ∷ [];
  watched_files = (text "/a/x", 0) ∷ [];
  heap = cut_file ∷ [];
  max_line_bytes = 4;
  sent = [];
  next_id = 2;
  closed = [];
}

check_missing_file_iff_example : (check_missing_file text_eq one_file ≡ none) ↔ (
    (i : ℕ) (g : Text) → get_elem? two_globs i ≡ some g → Matched text_eq g one_file.watched_files)
check_missing_file_iff_example = check_missing_file_iff text_eq one_file

unique_dirs-Covers_example : Covers small_system two_globs (text "/a" ∷ [])
unfolding unique_dirs dir
unique_dirs-Covers_example = unique_dirs-Covers small_system two_globs (text "/a" ∷ []) refl

read_modified-ReadAll_example :
    ReadAll
      (λ k. true)
      (λ k. refl)
      small_system
      4
      (omega arith)
      one_file
      0
      cut_file
      (due (λ k. true) (λ k. refl) small_system 4 (omega arith) cut_file)
      (read_modified linux (λ k. true) small_system one_file 0 cut_file)
read_modified-ReadAll_example =
    read_modified-ReadAll (λ k. true) (λ k. refl) small_system 4 (omega arith) one_file 0 cut_file
      (fresh_reader-IsIdle 4 16) refl refl refl

-- The directory lists the file that is watched, and a directory.
abbrev two_entries : List FileInfo
two_entries =
    (record { name = text "x"; file = 7; is_dir = false })
    ∷ (record { name = text "y"; file = 8; is_dir = true })
    ∷ []

abbrev listing_system : System
listing_system = record small_system { read_dir = λ d. listed two_entries }

sync_files_in_dir-IsListed_example :
    (IsIn linux text_eq
        (λ k. true)
        listing_system
        (text "/a")
        true
        one_file.watched_files
        (text "/a/x")
      × (text_eq (dir (text "/a/x")) (text "/a") ≡ false))
    ⊎ IsListed linux text_eq
        (λ k. true)
        listing_system
        (text "/a")
        true
        two_globs
        two_entries
        (text "/a/x")
unfolding sync_files_in_dir text_eq any_glob_matches clean_rooted find_same_file put_file contains
    of_other_dirs dir ls
sync_files_in_dir-IsListed_example =
    sync_files_in_dir-IsListed linux text_eq (λ k. true) listing_system (text "/a") true one_file
      one_file two_entries refl refl (text "/a/x") (0, 0, refl)

sync_files_in_dir-IsDue_example :
    In (text "/a/x") (paths_of one_file.watched_files)
    ⊎ IsMissing linux listing_system (text "/a/x")
unfolding sync_files_in_dir text_eq any_glob_matches clean_rooted find_same_file put_file contains
    of_other_dirs dir ls
sync_files_in_dir-IsDue_example =
    sync_files_in_dir-IsDue text_eq (λ k. true) listing_system (text "/a") true one_file one_file
      two_entries refl refl (text "/a/x")
      (inr (record { name = text "x"; file = 7; is_dir = false }, inl refl, refl, refl, refl))

-- The truncated file was modified.
abbrev modified_event : Event
modified_event = record { wd = 1; mask = 2; name = text "x" }

pub one_file-IsQuiet : IsQuiet 3 one_file
one_file-IsQuiet = record { limit = refl; readers = (fresh_reader-IsIdle 4 16, tt) }

process_event-Returns_example :
    Returns 3 (process_event text_eq (λ k. true) listing_system one_file modified_event)
process_event-Returns_example =
    process_event-Returns text_eq (λ k. true) (λ k. refl) listing_system 3 one_file modified_event
      one_file-IsQuiet

poll-Returns_example : Returns 3 (poll linux text_eq (λ k. true) listing_system one_file)
poll-Returns_example =
    poll-Returns linux text_eq (λ k. true) (λ k. refl) listing_system 3 one_file one_file-IsQuiet
