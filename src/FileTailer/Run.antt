-- ===== src/FileTailer/Run.antt =====
-- fswatcher.go, runFileTailer: the tailer's goroutine, from the watching of the directories over
-- the loop that consumes events to the shutdown; with the interface fswatcher.
pub mod Watchers
pub mod Tracked
pub mod Closes
pub mod Ends
pub mod Stops
use go_libtail.Prelude.{
  ℕ, ◌⊎◌, inl, inr, Bool, true, false, Option, none, some, List, [], ◌∷◌, ◌++◌, get_elem?,
}
use go_libtail.Prelude.Int.{ℤ, pos, negsuc}
use go_libtail.Errors.{Text, text, Error, new_error, not_specified, error}
use go_libtail.FileTailer.{TailerOptions, normalize_tailer_options}
use go_libtail.FileTailer.Session.{Watched, Dir, Session, System, unique_dirs, check_missing_file}
use go_libtail.FileTailer.Os.{Os}
use go_libtail.FileTailer.Sync.{Outcome, Files, sync_files_in_dir}

-- The interface fswatcher, for events of one type.
pub record Fswatcher (E : Type 0) : Type 0 where
  pub watch_dir : System → Text → Error ⊎ Dir
  pub process_event : System → (ℕ → Bool) → Session → E → Outcome

-- What comes of `select { case <-t.done: case t.errors <- Err: }`: the error is received, the done
-- channel is closed, or neither ever happens.
pub data Answer : Type 0 where
  received done_closed unanswered : Answer

-- What the select of the consumer loop receives. An event comes with the answers of the system
-- while it is processed, with the consumer of the lines meanwhile, and with what comes of an error
-- that it leads to.
pub data Input (E : Type 0) : Type 0 where
  done events_closed errors_closed : Input E
  event : System → (ℕ → Bool) → Answer → E → Input E
  loop_error : Answer → Error → Input E

-- Why the goroutine returns. With an error: whether it is received.
pub data Reason : Type 0 where
  closed_by_user loop_closed : Reason
  failed loop_failed : Error → Bool → Reason

-- Where the goroutine is: in the select of the loop, for ever at the sending of an error, or at the
-- deferred calls.
pub data Status : Type 0 where
  waiting : Session → Status
  blocked : Error → Session → Status
  stopped : Reason → Session → Status

-- An error is sent, and then the goroutine returns.
unfoldable pub send_error : Answer → Error → (Bool → Reason) → Session → Status
send_error received e why t = stopped (why true) t
send_error done_closed e why t = stopped (why false) t
send_error unanswered e why t = blocked e t

module _ {E : Type 0} (watcher : Fswatcher E) where
  unfoldable pub watch_each : System → Session → List Text → Option Error × Session
  watch_each w t [] = (none, t)
  watch_each w t (path ∷ paths) = elim (watcher.watch_dir w path) [
    | inl e ↦ (some e, t)
    | inr d ↦ watch_each w (record t { watched_dirs = t.watched_dirs ++ d ∷ [] }) paths
  ]

  unfoldable pub watch_dirs : System → Session → Option Error × Session
  unfolding watch_each
  watch_dirs w t = elim (unique_dirs w t.globs) [
    | inl e ↦ (some e, t)
    | inr paths ↦ watch_each w t paths
  ]

  -- `none`: a call of readNewLines is out of fuel.
  unfoldable pub consumer_loop : List (Input E) → Session → Option Status
  unfolding send_error
  consumer_loop [] t = some (waiting t)
  consumer_loop (done ∷ inputs) t = some (stopped closed_by_user t)
  consumer_loop (events_closed ∷ inputs) t = some (stopped loop_closed t)
  consumer_loop (errors_closed ∷ inputs) t = some (stopped loop_closed t)
  consumer_loop (loop_error answer e ∷ inputs) t =
      let err =
        new_error not_specified (some (error e)) (text "error reading file system events") in
      some (send_error answer err (loop_failed err) t)
  consumer_loop (event w accepts answer e ∷ inputs) t = elim (watcher.process_event w accepts t e) [
    | none ↦ none
    | some (some err, t') ↦ some (send_error answer err (failed err) t')
    | some (none, t') ↦ consumer_loop inputs t'
  ]

module _ {E : Type 0} (watcher : Fswatcher E) (os : Os) (matches : Text → Text → Bool)
    (accepts : ℕ → Bool) (w : System) (answer : Answer) where
  -- The loop over the watched directories.
  unfoldable pub sync_each : Bool → Session → List Dir → Outcome
  sync_each readall t [] = some (none, t)
  sync_each readall t (d ∷ dirs) = elim (sync_files_in_dir os matches accepts w t d.path readall) [
    | none ↦ none
    | some (some e, t') ↦ some (some e, t')
    | some (none, t') ↦ sync_each readall t' dirs
  ]

  unfoldable pub after_missing : Option Error → List (Input E) → Session → Option Status
  unfolding consumer_loop send_error
  after_missing (some e) inputs t = some (send_error answer e (failed e) t)
  after_missing none inputs t = consumer_loop watcher inputs t

  unfoldable pub check_first : Bool → List (Input E) → Session → Option Status
  unfolding after_missing check_missing_file
  check_first true inputs t = after_missing (check_missing_file matches t) inputs t
  check_first false inputs t = after_missing none inputs t

  unfoldable pub after_sync : Bool → List (Input E) → Outcome → Option Status
  unfolding check_first send_error
  after_sync fail_on_missing inputs none = none
  after_sync fail_on_missing inputs (some (some e, t)) = some (send_error answer e (failed e) t)
  after_sync fail_on_missing inputs (some (none, t)) = check_first fail_on_missing inputs t

  unfoldable pub after_watching :
      Bool → Bool → List (Input E) → Option Error × Session → Option Status
  unfolding after_sync sync_each send_error
  after_watching readall fail_on_missing inputs (some e, t) =
      some (send_error answer e (failed e) t)
  after_watching readall fail_on_missing inputs (none, t) =
      after_sync fail_on_missing inputs (sync_each readall t t.watched_dirs)

  -- The goroutine.
  unfoldable pub tail_files : Bool → Bool → List (Input E) → Session → Option Status
  unfolding after_watching watch_dirs
  tail_files readall fail_on_missing inputs t =
      after_watching readall fail_on_missing inputs (watch_dirs watcher w t)

abbrev limit_of : ℤ → ℕ
limit_of (pos n) = n
limit_of (negsuc n) = 0

-- The state that the goroutine starts with.
unfoldable pub new_session : List Text → TailerOptions → Session
unfolding normalize_tailer_options
new_session globs options = record {
  globs = globs;
  watched_dirs = [];
  watched_files = [];
  heap = [];
  max_line_bytes = limit_of (normalize_tailer_options options).max_line_bytes;
  sent = [];
  next_id = 0;
  closed = [];
}

-- What shutdown closes.
pub record Closing : Type 0 where
  pub lines_closed : Bool
  pub errors_closed : Bool
  pub watcher_closed : Bool
  pub unwatched : List Dir
  pub closed : List ℕ

ids_watched : List Watched → Files → List ℕ
ids_watched heap [] = []
ids_watched heap ((path, ref) ∷ files) = elim (get_elem? heap ref) [
  | none ↦ ids_watched heap files
  | some watched ↦ watched.handle.id ∷ ids_watched heap files
]

-- Errors are logged and change nothing.
unfoldable pub shutdown : Session → Closing
unfolding ids_watched
shutdown t = record {
  lines_closed = true;
  errors_closed = true;
  watcher_closed = true;
  unwatched = t.watched_dirs;
  closed = t.closed ++ ids_watched t.heap t.watched_files;
}

-- runFileTailer, for a watcher that could be made or not.
unfoldable pub run_file_tailer :
    {E : Type 0}
    → Error ⊎ Fswatcher E
    → Os
    → (Text → Text → Bool)
    → (ℕ → Bool)
    → System
    → Answer
    → List Text
    → Bool
    → Bool
    → TailerOptions
    → List (Input E)
    → Error ⊎ Option Status
unfolding tail_files new_session
run_file_tailer (inl e) os matches accepts w answer globs readall fail options inputs = inl e
run_file_tailer (inr watcher) os matches accepts w answer globs readall fail options inputs =
    inr (
      tail_files watcher os matches accepts w answer readall fail inputs
        (new_session globs options))
