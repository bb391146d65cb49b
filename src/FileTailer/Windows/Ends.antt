-- ===== src/FileTailer/Windows/Ends.antt =====
-- Whether the processing of an event returns.
use go_libtail.Prelude.{
  ℕ, suc, ◌≡◌, refl, subst, ◌⊎◌, inl, inr, Bool, true, false, ◌||◌, Bool-cases, Option, none, some,
  Option-cases, arith,
}
use go_libtail.Errors.{
  Text, Error, ErrorType, not_specified, file_not_found, directory_not_found, win_file_removed,
}
use go_libtail.LineReader.Idle.{IsIdle}
use go_libtail.FileTailer.Session.{Watched, Dir, Session, System}
use go_libtail.FileTailer.Sync.{Outcome, update, sync_files_in_dir}
use go_libtail.FileTailer.Linux.{restarted, watched_at}
use go_libtail.FileTailer.Linux.Truncated.{restarted-IsIdle}
use go_libtail.FileTailer.Total.Reads.{IsQuiet, Returns, AreIdle-set, read_watched-Returns}
use go_libtail.FileTailer.Total.Syncs.{sync_files_in_dir-Returns}
use go_libtail.FileTailer.Total.Events.{unless_error-Returns, watched_at-IsIdle}
use go_libtail.FileTailer.Windows.File.{check_truncated, seek_error}
use go_libtail.FileTailer.Windows.{
  windows, dir_and_file, WinEvent, sync_if_changed, truncation_unknown, restart_file, read_changed,
  process_in_win_dir, process_win_event,
}

module _ (join : Text → Text → Text) (dir : Text → Text) (matches : Text → Text → Bool)
    (accepts : ℕ → Bool) (takes_all : (k : ℕ) → accepts k ≡ true) (w : System) (m : ℕ) where
  syncs :
      (t : Session) (d : Dir)
      → IsQuiet m t
      → Returns m (sync_files_in_dir (windows join dir) matches accepts w t d.path true)
  syncs t d quiet =
      sync_files_in_dir-Returns (windows join dir) matches accepts takes_all w m t d.path true quiet

  sync_if_changed-Returns :
      (t : Session) (d : Dir) (e : WinEvent)
      → IsQuiet m t
      → Returns m (sync_if_changed join dir matches accepts w t d e)
  unfolding sync_if_changed
  sync_if_changed-Returns t d e quiet = elim (Bool-cases (e.renames || (e.removes || e.creates))) [
    | inl q ↦ rw (q, sync_if_changed) (syncs t d quiet)
    | inr q ↦ rw (q, sync_if_changed) (_, t, refl, quiet)
  ]

  truncation_unknown-Returns :
      (t : Session) (d : Dir) (e : Error) (k : ErrorType)
      → IsQuiet m t
      → Returns m (truncation_unknown join dir matches accepts w t d e k)
  unfolding truncation_unknown
  truncation_unknown-Returns t d e win_file_removed quiet = syncs t d quiet
  truncation_unknown-Returns t d e not_specified quiet = (_, t, refl, quiet)
  truncation_unknown-Returns t d e file_not_found quiet = (_, t, refl, quiet)
  truncation_unknown-Returns t d e directory_not_found quiet = (_, t, refl, quiet)

  restart_file-Returns :
      (t : Session) (ref : ℕ) (watched : Watched) (o : Option Error)
      → IsQuiet m t
      → IsIdle (suc m) watched.reader
      → Returns m (restart_file join dir matches accepts w t ref watched o)
  unfolding restart_file update
  restart_file-Returns t ref watched (some e) quiet idle = (_, t, refl, quiet)
  restart_file-Returns t ref watched none quiet idle =
      let idle' = restarted-IsIdle accepts takes_all w (suc m) (omega arith) watched idle in
      read_watched-Returns (windows join dir) accepts takes_all w m
        (update t ref (restarted watched)) ref (restarted watched)
        (record {
          limit = quiet.limit;
          readers = AreIdle-set (suc m) t.heap ref _ quiet.readers idle';
        })
        idle'

  read_changed-Returns :
      (t : Session) (d : Dir) (e : WinEvent) (ref : ℕ) (watched : Watched)
      → IsQuiet m t
      → IsIdle (suc m) watched.reader
      → Returns m (read_changed join dir matches accepts w t d e ref watched)
  unfolding read_changed
  read_changed-Returns t d e ref watched quiet idle =
      by_answer (check_truncated w watched.handle) refl
    where
      by_answer :
          (o : Error ⊎ Bool)
          → check_truncated w watched.handle ≡ o
          → Returns m (read_changed join dir matches accepts w t d e ref watched)
      by_answer (inl x) q =
          rw (q, read_changed) (truncation_unknown-Returns t d x x.error_type quiet)
      by_answer (inr true) q =
          rw (q, read_changed)
            (unless_error-Returns m _ _
              (restart_file-Returns t ref watched (seek_error w watched.handle) quiet idle)
              (λ t' k. sync_if_changed-Returns t' d e k))
      by_answer (inr false) q =
          rw (q, read_changed)
            (unless_error-Returns m _ _
              (read_watched-Returns (windows join dir) accepts takes_all w m t ref watched quiet
                idle)
              (λ t' k. sync_if_changed-Returns t' d e k))

  process_in_win_dir-Returns :
      (t : Session) (d : Dir) (name : Text) (e : WinEvent)
      → IsQuiet m t
      → Returns m (process_in_win_dir join dir matches accepts w t d name e)
  unfolding process_in_win_dir
  process_in_win_dir-Returns t d name e quiet = elim (Bool-cases e.writes) [
    | inr q ↦ rw (q, process_in_win_dir) (sync_if_changed-Returns t d e quiet)
    | inl q ↦ elim (Option-cases (watched_at t (join d.path name))) [
      | inl unrelated ↦ rw (q, process_in_win_dir) (rw unrelated (_, t, refl, quiet))
      | inr ((ref, watched), found) ↦
          rw (q, process_in_win_dir)
            (rw found (
              read_changed-Returns t d e ref watched quiet (
                watched_at-IsIdle matches accepts takes_all w m t (join d.path name) ref watched
                  quiet found)))
    ]
  ]

  -- Where it does not panic, processEvent on Windows returns, an error or nil, for every event and
  -- whatever the system answers, and leaves every reader idle at the limit: with a consumer that
  -- takes every line, a limit that is not zero, and readers idle at it.
  pub process_win_event-Returns :
      (t : Session) (e : WinEvent) (o : Outcome)
      → IsQuiet m t
      → process_win_event join dir matches accepts w t e ≡ some o
      → Returns m o
  unfolding process_win_event
  process_win_event-Returns t e o quiet h =
      elim (Option-cases (dir_and_file t.watched_dirs e.name)) [
        | inl absent ↦
            let gone : process_win_event join dir matches accepts w t e ≡ none =
              rw (absent, process_win_event) refl in
            absurd (cc)
        | inr ((d, name), found) ↦
            let runs : process_win_event join dir matches accepts w t e
                ≡ some (process_in_win_dir join dir matches accepts w t d name e) =
              rw (found, process_win_event) refl in
            let same : process_in_win_dir join dir matches accepts w t d name e ≡ o = cc in
            subst (Returns m) same (process_in_win_dir-Returns t d name e quiet)
      ]
