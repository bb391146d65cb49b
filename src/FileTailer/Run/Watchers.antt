-- ===== src/FileTailer/Run/Watchers.antt =====
-- The watcher of Linux: watchDir and newDir of fswatcher_linux.go, with its processEvent.
use go_libtail.Prelude.{◌⊎◌, inl, inr, Bool, some, ◌++◌}
use go_libtail.Errors.{Text, text, Error, new_error, not_specified}
use go_libtail.FileTailer.Session.{Dir, System, quoted}
use go_libtail.FileTailer.Linux.{Event, process_event}
use go_libtail.FileTailer.Run.{Fswatcher}

unfoldable pub watch_dir : System → Text → Error ⊎ Dir
watch_dir w path = elim (w.add_watch path) [
  | inl cause ↦
      inl
        (new_error not_specified (some cause) (quoted path ++ text ": inotify_add_watch() failed"))
  | inr wd ↦ inr (record { wd = wd; path = path })
]

module _ (matches : Text → Text → Bool) where
  abbrev pub linux_watcher : Fswatcher Event
  linux_watcher = record {
    watch_dir = watch_dir;
    process_event = λ w accepts t e. process_event matches accepts w t e;
  }
