-- ===== src/FileTailer/Darwin/Written.antt =====
-- A file that was written to and whose attributes changed: macOS and Linux.
use go_libtail.Prelude.{ℕ, ◌≡◌, refl, ◌⊎◌, inl, inr, Bool, true, false, Option, none, some}
use go_libtail.Errors.{Text}
use go_libtail.FileTailer.Session.{Watched, Session, System}
use go_libtail.FileTailer.Os.{linux}
use go_libtail.FileTailer.Sync.{update, read_watched}
use go_libtail.FileTailer.Os.{is_truncated}
use go_libtail.FileTailer.Linux.{has_flag, restarted, restart_and_read, read_modified}
use go_libtail.FileTailer.Darwin.{
  Kevent, note_attrib, note_write, read_written, restart_written, process_file_event,
}

module _ (accepts : ℕ → Bool) (w : System) (k : Kevent) where
  reads_same :
      (t : Session) (ref : ℕ) (watched : Watched)
      → has_flag k.fflags note_write ≡ true
      → read_written accepts w t ref watched k ≡ read_watched linux accepts w t ref watched
  unfolding read_written read_watched
  reads_same t ref watched written = rw (written, read_written) refl

  restarts_same :
      (t : Session) (ref : ℕ) (watched : Watched) (o : Option Text)
      → has_flag k.fflags note_write ≡ true
      → restart_written accepts w t ref watched k o
        ≡ restart_and_read linux accepts w t ref watched o
  unfolding restart_written restart_and_read
  restarts_same t ref watched (some cause) written = refl
  restarts_same t ref watched none written =
      reads_same (update t ref (restarted watched)) ref (restarted watched) written

  -- A kevent of a watched file that was written to and whose attributes changed does to the tailer
  -- what inotify's IN_MODIFY does: the truncated file is read from its start, any other goes on.
  pub process_file_event-eq-read_modified :
      (t : Session) (ref : ℕ) (watched : Watched)
      → has_flag k.fflags note_attrib ≡ true
      → has_flag k.fflags note_write ≡ true
      → process_file_event accepts w t ref watched k ≡ read_modified linux accepts w t ref watched
  unfolding process_file_event read_modified
  process_file_event-eq-read_modified t ref watched changed written =
      by_answer (is_truncated w watched.handle) refl
    where
      by_answer :
          (o : Text ⊎ Bool)
          → is_truncated w watched.handle ≡ o
          → process_file_event accepts w t ref watched k
            ≡ read_modified linux accepts w t ref watched
      by_answer (inl cause) e = rw (changed, process_file_event) (rw (e, read_modified) refl)
      by_answer (inr true) e =
          rw (changed, process_file_event)
            (rw (e, read_modified)
              (restarts_same t ref watched (w.seek_error watched.handle.file) written))
      by_answer (inr false) e =
          rw (changed, process_file_event)
            (rw (e, read_modified) (reads_same t ref watched written))
