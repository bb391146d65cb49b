-- ===== src/FileTailer/Darwin/Ends.antt =====
-- Whether the processing of a kevent returns.
use go_libtail.Prelude.{
  ℕ, suc, ◌≡◌, refl, ◌⊎◌, inl, inr, Bool, true, false, ◌||◌, Bool-cases, Option, none, some,
  Option-cases, arith,
}
use go_libtail.Errors.{Text, text}
use go_libtail.LineReader.Idle.{IsIdle}
use go_libtail.FileTailer.Session.{Watched, Dir, Session, System}
use go_libtail.FileTailer.Sync.{Outcome, update}
use go_libtail.FileTailer.Os.{is_truncated}
use go_libtail.FileTailer.Linux.{has_flag, restarted, failure, find_in}
use go_libtail.FileTailer.Linux.Truncated.{restarted-IsIdle}
use go_libtail.FileTailer.Total.Reads.{
  IsQuiet, Returns, AreIdle-get, AreIdle-set, read_watched-Returns,
}
use go_libtail.FileTailer.Total.Syncs.{sync_files_in_dir-Returns}
use go_libtail.FileTailer.Total.Events.{unless_error-Returns}
use go_libtail.FileTailer.Darwin.Tracked.{find_file-has}
use go_libtail.FileTailer.Darwin.{
  Kevent, darwin, note_write, note_extend, note_attrib, read_written, restart_written,
  process_file_event, sync_written, update_failed, dir_gone, process_dir_event, find_file,
  process_kevent,
}

module _ (accepts : ℕ → Bool) (takes_all : (k : ℕ) → accepts k ≡ true) (w : System) (m : ℕ)
    (k : Kevent) where
  read_written-Returns :
      (t : Session) (ref : ℕ) (watched : Watched)
      → IsQuiet m t
      → IsIdle (suc m) watched.reader
      → Returns m (read_written accepts w t ref watched k)
  unfolding read_written
  read_written-Returns t ref watched quiet idle = elim (Bool-cases (has_flag k.fflags note_write)) [
    | inl e ↦
        rw (e, read_written)
          (read_watched-Returns darwin accepts takes_all w m t ref watched quiet idle)
    | inr e ↦ rw (e, read_written) (_, t, refl, quiet)
  ]

  restart_written-Returns :
      (t : Session) (ref : ℕ) (watched : Watched) (o : Option Text)
      → IsQuiet m t
      → IsIdle (suc m) watched.reader
      → Returns m (restart_written accepts w t ref watched k o)
  unfolding restart_written update
  restart_written-Returns t ref watched (some cause) quiet idle = (_, t, refl, quiet)
  restart_written-Returns t ref watched none quiet idle =
      let idle' = restarted-IsIdle accepts takes_all w (suc m) (omega arith) watched idle in
      read_written-Returns (update t ref (restarted watched)) ref (restarted watched)
        (record {
          limit = quiet.limit;
          readers = AreIdle-set (suc m) t.heap ref _ quiet.readers idle';
        })
        idle'

  process_file_event-Returns :
      (t : Session) (ref : ℕ) (watched : Watched)
      → IsQuiet m t
      → IsIdle (suc m) watched.reader
      → Returns m (process_file_event accepts w t ref watched k)
  unfolding process_file_event
  process_file_event-Returns t ref watched quiet idle =
      elim (Bool-cases (has_flag k.fflags note_attrib)) [
        | inr e ↦ rw (e, process_file_event) (read_written-Returns t ref watched quiet idle)
        | inl e ↦ rw (e, process_file_event) (by_answer (is_truncated w watched.handle))
      ]
    where
      by_answer :
          (o : Text ⊎ Bool)
          → Returns m (elim o [
            | inl cause ↦ some (failure watched.handle cause (text ": seek() or stat() failed"), t)
            | inr true ↦
                restart_written accepts w t ref watched k (w.seek_error watched.handle.file)
            | inr false ↦ read_written accepts w t ref watched k
          ])
      by_answer (inl cause) = (_, t, refl, quiet)
      by_answer (inr true) = restart_written-Returns t ref watched _ quiet idle
      by_answer (inr false) = read_written-Returns t ref watched quiet idle

update_failed-Returns :
    (m : ℕ) (d : Dir) (o : Outcome) → Returns m o → Returns m (update_failed d o)
unfolding update_failed
update_failed-Returns m d o (none, t, e, q) = rw e (_, t, refl, q)
update_failed-Returns m d o (some x, t, e, q) = rw e (_, t, refl, q)

module _ (fd : ℕ → ℕ) (matches : Text → Text → Bool) (accepts : ℕ → Bool)
    (takes_all : (k : ℕ) → accepts k ≡ true) (w : System) (m : ℕ) where
  sync_written-Returns :
      (t : Session) (d : Dir) (k : Kevent)
      → IsQuiet m t
      → Returns m (sync_written fd matches accepts w t d k)
  unfolding sync_written
  sync_written-Returns t d k quiet =
      elim (Bool-cases (has_flag k.fflags note_write || has_flag k.fflags note_extend)) [
        | inl e ↦
            rw (e, sync_written)
              (update_failed-Returns m d _ (
                sync_files_in_dir-Returns darwin matches accepts takes_all w m t d.path true quiet))
        | inr e ↦ rw (e, sync_written) (_, t, refl, quiet)
      ]

  pub process_kevent-Returns :
      (t : Session) (k : Kevent) → IsQuiet m t → Returns m (process_kevent fd matches accepts w t k)
  unfolding process_kevent process_dir_event
  process_kevent-Returns t k quiet = elim (Option-cases (find_in t.watched_dirs k.ident)) [
    | inr (d, e) ↦
        rw (e, process_kevent)
          (unless_error-Returns m _ _ (sync_written-Returns t d k quiet)
            (λ t' q. (dir_gone k d, t', refl, q)))
    | inl e ↦ elim (Option-cases (find_file fd t.heap t.watched_files k.ident)) [
      | inl f ↦ rw (e, process_kevent) (rw f (_, t, refl, quiet))
      | inr ((ref, watched), f) ↦
          rw (e, process_kevent)
            (rw f (
              process_file_event-Returns accepts takes_all w m k t ref watched quiet (
                AreIdle-get (suc m) t.heap ref watched quiet.readers
                  (find_file-has fd t.heap t.watched_files k.ident ref watched f))))
    ]
  ]
