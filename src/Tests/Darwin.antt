-- ===== src/Tests/Darwin.antt =====
-- The tailer of macOS.
use go_libtail.Prelude.{
  ◌≡◌, refl, sym, subst, ◌⊎◌, inl, inr, true, false, Bool-cases, Option, some, List, [], ◌∷◌, arith,
}
use go_libtail.Prelude.In.{In}
use go_libtail.Errors.{Text, text, Error}
use go_libtail.Bufio.{read_slice}
use go_libtail.Glob.{dir, clean_rooted}
use go_libtail.LineReader.{new_line_reader_with_max_line_bytes}
use go_libtail.LineReader.Chunk.{read_chunk}
use go_libtail.LineReader.ReadLine.{read_line, begin_turn, scan_turn}
use go_libtail.FileTailer.ReadNewLines.{read_new_lines, action}
use go_libtail.FileTailer.Session.{Session, text_eq, unique_dirs, any_glob_matches}
use go_libtail.FileTailer.Session.Contains.{text_eq-same}
use go_libtail.FileTailer.Os.{linux, find_same_file, open_file, file_of}
use go_libtail.FileTailer.Sync.{fuel_for, put_file, of_other_dirs, handle_after, sync_files_in_dir}
use go_libtail.FileTailer.Sync.Tracked.Turns.{AreNew}
use go_libtail.FileTailer.Sync.Tracked.Listings.{AreIn, ListsOnce}
use go_libtail.FileTailer.Linux.{has_flag, read_modified}
use go_libtail.FileTailer.Run.{
  received, Input, done, event, Reason, closed_by_user, Status, stopped, shutdown, run_file_tailer,
}
use go_libtail.FileTailer.Darwin.{
  Kevent, darwin, darwin_watcher, ls_open, open_dir, watch_dir, watch_file, process_kevent,
  process_file_event, event2string,
}
use go_libtail.FileTailer.Darwin.Written.{process_file_event-eq-read_modified}
use go_libtail.FileTailer.Darwin.Runs.{run-darwin-closes_all, run-darwin-stops}
use go_libtail.Tests.Files.{small_system, cut_file, one_file}
use go_libtail.Tests.Runs.{session_of, one_entry, one_dir, short_lines, in_one_dir}

-- NOTE_WRITE and NOTE_ATTRIB.
abbrev written : Kevent
written = record { ident = 3; fflags = 10 }

written_flags : (has_flag 10 8 ≡ true) × (has_flag 10 2 ≡ true)
unfolding has_flag
written_flags = (refl, refl)

written_string : event2string written ≡ text "NOTE_WRITE, NOTE_ATTRIB"
unfolding event2string
written_string = refl

process_file_event-eq-read_modified_example :
    process_file_event (λ k. true) small_system one_file 0 cut_file written
    ≡ read_modified linux (λ k. true) small_system one_file 0 cut_file
process_file_event-eq-read_modified_example =
    process_file_event-eq-read_modified (λ k. true) small_system written one_file 0 cut_file
      written_flags.0 written_flags.1

no_dir : (d : Text) → text_eq d (text "/a") ≡ false → (e : Error) × (ls_open one_dir d ≡ inl e)
unfolding ls_open
no_dir d other = rw (other, ls_open) (_, refl)

its_entry : (d : Text) → text_eq d (text "/a") ≡ true → ls_open one_dir d ≡ inr one_entry
unfolding ls_open
its_entry d same = rw (same, ls_open) refl

one_dir-ListsOnce : ListsOnce darwin one_dir
one_dir-ListsOnce d infos e = elim (Bool-cases (text_eq d (text "/a"))) [
  | inr other ↦ let (x, fails) = no_dir d other in absurd (cc)
  | inl same ↦
      let here : d ≡ text "/a" = text_eq-same d (text "/a") same in
      let lists = its_entry d same in
      let found : one_entry ≡ infos = cc in
      subst (λ x. AreNew darwin x [] infos × AreIn darwin x infos) (sym here)
        (in_one_dir infos found)
]

-- The directory, whose descriptor is 1, was written to.
abbrev history : List (Input Kevent)
history = event one_dir (λ k. true) received (record { ident = 1; fflags = 2 }) ∷ done ∷ []

abbrev darwin_run : Error ⊎ Option Status
darwin_run =
    run_file_tailer (inr (darwin_watcher (λ id. id) text_eq)) darwin text_eq (λ k. true) one_dir
      received (text "/a/x" ∷ []) true true short_lines history

darwin_run_stops : darwin_run ≡ inr (some (stopped closed_by_user (session_of darwin_run)))
unfolding run_file_tailer unique_dirs watch_dir sync_files_in_dir ls_open open_dir dir
    any_glob_matches clean_rooted find_same_file open_file read_new_lines fuel_for
    new_line_reader_with_max_line_bytes file_of read_line begin_turn scan_turn read_chunk read_slice
    action put_file of_other_dirs process_kevent handle_after watch_file
darwin_run_stops = refl

darwin_run_opens : (session_of darwin_run).next_id ≡ 1
unfolding run_file_tailer unique_dirs watch_dir sync_files_in_dir ls_open open_dir dir
    any_glob_matches clean_rooted find_same_file open_file read_new_lines fuel_for
    new_line_reader_with_max_line_bytes file_of read_line begin_turn scan_turn read_chunk read_slice
    action put_file of_other_dirs process_kevent handle_after watch_file
darwin_run_opens = refl

run-darwin-closes_all_example : In 0 (shutdown (session_of darwin_run)).closed
run-darwin-closes_all_example =
    run-darwin-closes_all (λ id. id) text_eq (λ k. true) one_dir received (text "/a/x" ∷ []) true
      true short_lines history one_dir-ListsOnce (one_dir-ListsOnce, tt) closed_by_user
      (session_of darwin_run) darwin_run_stops tt 0 (omega (arith, darwin_run_opens))

run-darwin-stops_example :
    (reason : Reason) × (t : Session) × (darwin_run ≡ inr (some (stopped reason t)))
run-darwin-stops_example =
    run-darwin-stops (λ id. id) text_eq (λ k. true) one_dir received (text "/a/x" ∷ []) true true
      short_lines history (λ k. refl) tt ((λ k. refl), tt) tt (tt, tt)
