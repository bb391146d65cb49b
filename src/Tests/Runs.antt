-- ===== src/Tests/Runs.antt =====
-- A tailer from its start to its shutdown: fswatcher.go.
use go_libtail.Prelude.{
  ◌≡◌, refl, sym, subst, ◌⊎◌, inl, inr, true, false, Bool-cases, Option, none, some, List, [], ◌∷◌,
  arith, get_elem?, if◌then◌else◌,
}
use go_libtail.Prelude.In.{In}
use go_libtail.Prelude.Int.{pos}
use go_libtail.Errors.{Text, text, Error}
use go_libtail.FileTailer.{TailerOptions}
use go_libtail.FileTailer.Session.{
  Session, System, FileInfo, listed, open_dir_failed, opened, created, stated, text_eq, unique_dirs,
  any_glob_matches,
}
use go_libtail.FileTailer.Os.{linux, ls, find_same_file, open_file, file_of, is_truncated}
use go_libtail.Bufio.{read_slice}
use go_libtail.FileTailer.Session.Contains.{text_eq-same}
use go_libtail.FileTailer.Linux.{Event, process_event, find_dir}
use go_libtail.FileTailer.Handles.Maps.{refs_of, heap_ids}
use go_libtail.FileTailer.Sync.Tracked.Turns.{AreNew}
use go_libtail.FileTailer.Sync.Tracked.Listings.{AreIn, ListsOnce}
use go_libtail.FileTailer.Run.Closes.{run-linux-closes_all, run-linux-keeps_open}
use go_libtail.Glob.{dir, clean_rooted}
use go_libtail.LineReader.{new_line_reader_with_max_line_bytes}
use go_libtail.LineReader.Chunk.{read_chunk}
use go_libtail.LineReader.ReadLine.{read_line, begin_turn, scan_turn}
use go_libtail.FileTailer.ReadNewLines.{read_new_lines, action}
use go_libtail.FileTailer.Sync.{fuel_for, put_file, of_other_dirs, handle_after, sync_files_in_dir}
use go_libtail.FileTailer.Run.{
  received, blocked, Input, done, event, Reason, closed_by_user, Status, waiting, stopped,
  new_session, shutdown, run_file_tailer,
}
use go_libtail.FileTailer.Run.Watchers.{watch_dir, linux_watcher}
use go_libtail.FileTailer.Polling.{new_dir, poll, on_linux, polling_watcher}
use go_libtail.FileTailer.Polling.Runs.{run-polling-closes_all, run-polling-stops}
use go_libtail.FileTailer.Run.Stops.{run-linux-stops}

abbrev pub one_entry : List FileInfo
one_entry = (record { name = text "x"; file = 7; is_dir = false }) ∷ []

-- A system with the directory /a, in which is the file x.
abbrev pub one_dir : System
one_dir = record {
  read_dir =
      λ d. if text_eq d (text "/a") then listed one_entry else open_dir_failed (text "ENOENT");
  open_file = λ path. opened 7;
  stat = λ d. stated true;
  content = λ file. 97 ∷ 98 ∷ 10 ∷ [];
  reading_fails = λ file. false;
  read_error = text "EIO";
  stat_error = λ file. none;
  seek_error = λ file. none;
  dup_error = λ file. none;
  add_watch = λ path. inr 1;
  watch_error = λ file. none;
  create_file = λ path i. created 7;
}

abbrev created_event : Event
created_event = record { wd = 1; mask = 256; name = text "x" }

abbrev history : List (Input Event)
history = event one_dir (λ k. true) received created_event ∷ done ∷ []

abbrev ticks : List (Input (Unit {0}))
ticks = event one_dir (λ k. true) received tt ∷ done ∷ []

abbrev pub short_lines : TailerOptions
short_lines = record { max_line_bytes = pos 4 }

run-linux-stops_example :
    (reason : Reason) × (t : Session) × (run_file_tailer
        (inr (linux_watcher text_eq))
        linux
        text_eq
        (λ k. true)
        one_dir
        received
        (text "/a/x" ∷ [])
        true
        true
        short_lines
        history
      ≡ inr (some (stopped reason t)))
run-linux-stops_example =
    run-linux-stops text_eq (λ k. true) (λ k. refl) one_dir received (text "/a/x" ∷ []) true true
      short_lines history tt ((λ k. refl), tt) tt (tt, tt)

run-polling-stops_example :
    (reason : Reason) × (t : Session) × (run_file_tailer
        (inr (polling_watcher on_linux text_eq))
        linux
        text_eq
        (λ k. true)
        one_dir
        received
        (text "/a/x" ∷ [])
        true
        true
        short_lines
        ticks
      ≡ inr (some (stopped reason t)))
run-polling-stops_example =
    run-polling-stops on_linux text_eq (λ k. true) one_dir received (text "/a/x" ∷ []) true true
      short_lines ticks (λ k. refl) tt ((λ k. refl), tt) tt (tt, tt)

abbrev pub session_of : Error ⊎ Option Status → Session
session_of (inl e) = new_session [] short_lines
session_of (inr none) = new_session [] short_lines
session_of (inr (some (waiting t))) = t
session_of (inr (some (blocked e t))) = t
session_of (inr (some (stopped reason t))) = t

abbrev linux_run : List (Input Event) → Error ⊎ Option Status
linux_run inputs =
    run_file_tailer (inr (linux_watcher text_eq)) linux text_eq (λ k. true) one_dir received
      (text "/a/x" ∷ []) true true short_lines inputs

abbrev polling_run : List (Input (Unit {0})) → Error ⊎ Option Status
polling_run inputs =
    run_file_tailer (inr (polling_watcher on_linux text_eq)) linux text_eq (λ k. true) one_dir
      received (text "/a/x" ∷ []) true true short_lines inputs

pub in_one_dir :
    (infos : List FileInfo)
    → one_entry ≡ infos
    → AreNew linux (text "/a") [] infos × AreIn linux (text "/a") infos
unfolding dir clean_rooted text_eq
in_one_dir infos e =
    subst (λ l. AreNew linux (text "/a") [] l × AreIn linux (text "/a") l) e
      (((λ m. m), tt), (refl, tt))

no_dir : (d : Text) → text_eq d (text "/a") ≡ false → (e : Error) × (ls one_dir d ≡ inl e)
unfolding ls
no_dir d other = rw (other, ls) (_, refl)

its_entry : (d : Text) → text_eq d (text "/a") ≡ true → ls one_dir d ≡ inr one_entry
unfolding ls
its_entry d same = rw (same, ls) refl

one_dir-ListsOnce : ListsOnce linux one_dir
one_dir-ListsOnce d infos e = elim (Bool-cases (text_eq d (text "/a"))) [
  | inr other ↦ let (x, fails) = no_dir d other in absurd (cc)
  | inl same ↦
      let here : d ≡ text "/a" = text_eq-same d (text "/a") same in
      let lists = its_entry d same in
      let found : one_entry ≡ infos = cc in
      subst (λ x. AreNew linux x [] infos × AreIn linux x infos) (sym here) (in_one_dir infos found)
]

linux_run_stops :
    linux_run history ≡ inr (some (stopped closed_by_user (session_of (linux_run history))))
unfolding run_file_tailer unique_dirs watch_dir sync_files_in_dir ls dir any_glob_matches
    clean_rooted find_same_file open_file read_new_lines fuel_for
    new_line_reader_with_max_line_bytes file_of read_line begin_turn scan_turn read_chunk read_slice
    action put_file of_other_dirs process_event find_dir handle_after poll new_dir
linux_run_stops = refl

linux_run_opens : (session_of (linux_run history)).next_id ≡ 1
unfolding run_file_tailer unique_dirs watch_dir sync_files_in_dir ls dir any_glob_matches
    clean_rooted find_same_file open_file read_new_lines fuel_for
    new_line_reader_with_max_line_bytes file_of read_line begin_turn scan_turn read_chunk read_slice
    action put_file of_other_dirs process_event find_dir handle_after poll new_dir
linux_run_opens = refl

run-linux-closes_all_example : In 0 (shutdown (session_of (linux_run history))).closed
run-linux-closes_all_example =
    run-linux-closes_all text_eq (λ k. true) one_dir received one_dir-ListsOnce (text "/a/x" ∷ [])
      true true short_lines history (one_dir-ListsOnce, tt) closed_by_user
      (session_of (linux_run history)) linux_run_stops tt 0 (omega (arith, linux_run_opens))

polling_run_stops :
    polling_run ticks ≡ inr (some (stopped closed_by_user (session_of (polling_run ticks))))
unfolding run_file_tailer unique_dirs watch_dir sync_files_in_dir ls dir any_glob_matches
    clean_rooted find_same_file open_file read_new_lines fuel_for
    new_line_reader_with_max_line_bytes file_of read_line begin_turn scan_turn read_chunk read_slice
    action put_file of_other_dirs process_event find_dir handle_after poll new_dir is_truncated
polling_run_stops = refl

polling_run_opens : (session_of (polling_run ticks)).next_id ≡ 1
unfolding run_file_tailer unique_dirs watch_dir sync_files_in_dir ls dir any_glob_matches
    clean_rooted find_same_file open_file read_new_lines fuel_for
    new_line_reader_with_max_line_bytes file_of read_line begin_turn scan_turn read_chunk read_slice
    action put_file of_other_dirs process_event find_dir handle_after poll new_dir is_truncated
polling_run_opens = refl

run-polling-closes_all_example : In 0 (shutdown (session_of (polling_run ticks))).closed
run-polling-closes_all_example =
    run-polling-closes_all on_linux text_eq (λ k. true) one_dir received (text "/a/x" ∷ []) true
      true short_lines ticks one_dir-ListsOnce (one_dir-ListsOnce, tt) closed_by_user
      (session_of (polling_run ticks)) polling_run_stops tt 0 (omega (arith, polling_run_opens))

abbrev one_event : List (Input Event)
one_event = event one_dir (λ k. true) received created_event ∷ []

linux_run_waits : linux_run one_event ≡ inr (some (waiting (session_of (linux_run one_event))))
unfolding run_file_tailer unique_dirs watch_dir sync_files_in_dir ls dir any_glob_matches
    clean_rooted find_same_file open_file read_new_lines fuel_for
    new_line_reader_with_max_line_bytes file_of read_line begin_turn scan_turn read_chunk read_slice
    action put_file of_other_dirs process_event find_dir handle_after poll new_dir
linux_run_waits = refl

linux_run_watches : In 0 (refs_of (session_of (linux_run one_event)).watched_files)
unfolding run_file_tailer unique_dirs watch_dir sync_files_in_dir ls dir any_glob_matches
    clean_rooted find_same_file open_file read_new_lines fuel_for
    new_line_reader_with_max_line_bytes file_of read_line begin_turn scan_turn read_chunk read_slice
    action put_file of_other_dirs process_event find_dir handle_after poll new_dir
linux_run_watches = inl refl

linux_run_holds : get_elem? (heap_ids (session_of (linux_run one_event)).heap) 0 ≡ some 0
unfolding run_file_tailer unique_dirs watch_dir sync_files_in_dir ls dir any_glob_matches
    clean_rooted find_same_file open_file read_new_lines fuel_for
    new_line_reader_with_max_line_bytes file_of read_line begin_turn scan_turn read_chunk read_slice
    action put_file of_other_dirs process_event find_dir handle_after poll new_dir
linux_run_holds = refl

run-linux-keeps_open_example : ¬ In 0 (session_of (linux_run one_event)).closed
run-linux-keeps_open_example =
    run-linux-keeps_open text_eq (λ k. true) one_dir received one_dir-ListsOnce (text "/a/x" ∷ [])
      true true short_lines one_event (one_dir-ListsOnce, tt) (session_of (linux_run one_event))
      linux_run_waits 0 0 linux_run_watches linux_run_holds
