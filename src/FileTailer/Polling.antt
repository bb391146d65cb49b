-- ===== src/FileTailer/Polling.antt =====
-- pollingwatcher.go, with newDir of the files of each operating system, which is compiled with all of
-- them: the watcher whose events are ticks of a timer.
pub mod Ends
pub mod Tracked
pub mod Runs
use go_libtail.Prelude.{ℕ, ◌⊎◌, inl, inr, Bool, true, Option, none, some, List, [], ◌∷◌, get_elem?}
use go_libtail.Errors.{Text, Error}
use go_libtail.FileTailer.Session.{Dir, Session, System}
use go_libtail.FileTailer.Os.{Os, linux}
use go_libtail.FileTailer.Sync.{Outcome, sync_files_in_dir, unless_error}
use go_libtail.FileTailer.Linux.{read_modified}
use go_libtail.FileTailer.Darwin.{darwin, open_dir}
use go_libtail.FileTailer.Windows.{windows}
use go_libtail.FileTailer.Run.{Fswatcher}

-- The operating system, Windows with its filepath.Join and filepath.Dir.
pub data Platform : Type 0 where
  on_linux on_darwin : Platform
  on_windows : (Text → Text → Text) → (Text → Text) → Platform

-- Its functions; the watchFile of the polling watcher does nothing.
abbrev pub os_of : Platform → Os
os_of on_linux = linux
os_of on_darwin = record darwin { watch_file = λ w h. none }
os_of (on_windows join dir) = windows join dir

-- A polled directory has no watch descriptor.
abbrev unwatched : Text → Dir
unwatched path = record { wd = 0; path = path }

-- newDir: on macOS the directory is opened, elsewhere nothing is done.
unfoldable pub new_dir : Platform → System → Text → Error ⊎ Dir
unfolding open_dir
new_dir on_linux w path = inr (unwatched path)
new_dir on_darwin w path = elim (open_dir w path) [
  | inl e ↦ inl e
  | inr name ↦ inr (unwatched name)
]
new_dir (on_windows join dir) w path = inr (unwatched path)

module _ (os : Os) (matches : Text → Text → Bool) (accepts : ℕ → Bool) (w : System) where
  -- processEvent: all directories, then all files.
  unfoldable pub sync_dirs : Session → List Dir → Outcome
  sync_dirs t [] = some (none, t)
  sync_dirs t (d ∷ dirs) =
      unless_error (sync_files_in_dir os matches accepts w t d.path true) (λ t'. sync_dirs t' dirs)

  unfoldable pub read_files : Session → List (Text × ℕ) → Outcome
  unfolding read_modified
  read_files t [] = some (none, t)
  read_files t ((path, ref) ∷ files) = elim (get_elem? t.heap ref) [
    | none ↦ read_files t files
    | some watched ↦
        unless_error (read_modified os accepts w t ref watched) (λ t'. read_files t' files)
  ]

  unfoldable pub poll : Session → Outcome
  unfolding sync_dirs read_files
  poll t = unless_error (sync_dirs t t.watched_dirs) (λ t'. read_files t' t'.watched_files)

abbrev pub polling_watcher : Platform → (Text → Text → Bool) → Fswatcher (Unit {0})
polling_watcher p matches = record {
  watch_dir = new_dir p;
  process_event = λ w accepts t e. poll (os_of p) matches accepts w t;
}
