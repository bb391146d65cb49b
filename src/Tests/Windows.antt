-- ===== src/Tests/Windows.antt =====
-- The tailer of Windows. Paths are written with slashes.
use go_libtail.Prelude.{◌≡◌, ◌↔◌, refl, inr, true, false, none, List, [], ◌∷◌, arith}
use go_libtail.Prelude.In.{In}
use go_libtail.Errors.{text, new_error, win_file_removed}
use go_libtail.FileTailer.Session.{Handle, Dir, System, refused, text_eq}
use go_libtail.FileTailer.Os.{join}
use go_libtail.Glob.{dir}
use go_libtail.FileTailer.Total.Reads.{Returns}
use go_libtail.FileTailer.Windows.File.{has_nul, reopen}
use go_libtail.FileTailer.Windows.File.Reopen.{SucceedsWithin, reopen_iff, reopen_removed}
use go_libtail.FileTailer.Windows.{
  has_prefix, dir_and_file, WinEvent, process_in_win_dir, process_win_event,
}
use go_libtail.FileTailer.Windows.Dirs.{
  IsLongest, dir_and_file-IsLongest, process_win_event_panics_iff,
}
use go_libtail.FileTailer.Windows.Ends.{process_win_event-Returns}
use go_libtail.Tests.Files.{small_system, one_file, one_file-IsQuiet}

abbrev log_file : Handle
log_file = record { id = 1; name = text "/a/x"; file = 7; offset = 2 }

reopen_iff_example : (reopen small_system log_file ≡ inr 7) ↔ (
    (7 ≡ log_file.file)
    × (has_nul log_file.name ≡ false)
    × SucceedsWithin small_system log_file.name 3 1 7)
reopen_iff_example = reopen_iff small_system log_file 7

-- Another program has every file locked.
abbrev locked_system : System
locked_system = record small_system { create_file = λ path i. refused (text "sharing violation") }

reopen_removed_example :
    (new_error win_file_removed none (text "/a/x")).error_type ≡ win_file_removed
unfolding reopen
reopen_removed_example =
    reopen_removed locked_system log_file (new_error win_file_removed none (text "/a/x"))
      (λ e. omega arith) refl

abbrev two_dirs : List Dir
two_dirs = (record { wd = 0; path = text "/a" }) ∷ (record { wd = 0; path = text "/a/b" }) ∷ []

abbrev inner_dir : Dir
inner_dir = record { wd = 0; path = text "/a/b" }

dir_and_file-IsLongest_example :
    In inner_dir two_dirs
    × (has_prefix (text "/a/b/x") (text "/a/b") ≡ true)
    × IsLongest two_dirs (text "/a/b/x") 4
unfolding dir_and_file
dir_and_file-IsLongest_example =
    dir_and_file-IsLongest two_dirs (text "/a/b/x") inner_dir (text "x") refl

abbrev created_event : WinEvent
created_event = record {
  name = text "/a/x";
  writes = true;
  renames = false;
  removes = false;
  creates = true;
}

process_win_event_panics_iff_example :
    (process_win_event join dir text_eq (λ k. true) small_system one_file created_event ≡ none)
    ↔ ((d : Dir) → In d one_file.watched_dirs → has_prefix created_event.name d.path ≡ false)
process_win_event_panics_iff_example =
    process_win_event_panics_iff join dir text_eq (λ k. true) small_system one_file created_event

process_win_event-Returns_example : Returns 3 (
    process_in_win_dir join dir text_eq
      (λ k. true)
      small_system
      one_file
      (record { wd = 1; path = text "/a" })
      (text "x")
      created_event)
unfolding process_win_event
process_win_event-Returns_example =
    process_win_event-Returns join dir text_eq (λ k. true) (λ k. refl) small_system 3 one_file
      created_event _ one_file-IsQuiet refl
