-- ===== src/FileTailer/Polling/Ends.antt =====
-- Whether a poll returns.
use go_libtail.Prelude.{
  ℕ, ◌≡◌, refl, suc, inl, inr, Bool, true, Option-cases, List, [], ◌∷◌, get_elem?,
}
use go_libtail.Errors.{Text}
use go_libtail.FileTailer.Session.{Dir, Session, System}
use go_libtail.FileTailer.Os.{Os}
use go_libtail.FileTailer.Total.Reads.{IsQuiet, Returns, AreIdle-get, read_modified-Returns}
use go_libtail.FileTailer.Total.Syncs.{sync_files_in_dir-Returns}
use go_libtail.FileTailer.Total.Events.{unless_error-Returns}
use go_libtail.FileTailer.Polling.{sync_dirs, read_files, poll}

module _ (os : Os) (matches : Text → Text → Bool) (accepts : ℕ → Bool)
    (takes_all : (k : ℕ) → accepts k ≡ true) (w : System) (m : ℕ) where
  sync_dirs-Returns :
      (dirs : List Dir) (t : Session)
      → IsQuiet m t
      → Returns m (sync_dirs os matches accepts w t dirs)
  unfolding sync_dirs
  sync_dirs-Returns [] t quiet = (_, t, refl, quiet)
  sync_dirs-Returns (d ∷ dirs) t quiet =
      unless_error-Returns m _ _
        (sync_files_in_dir-Returns os matches accepts takes_all w m t d.path true quiet)
        (λ t' q. sync_dirs-Returns dirs t' q)

  read_files-Returns :
      (files : List (Text × ℕ)) (t : Session)
      → IsQuiet m t
      → Returns m (read_files os matches accepts w t files)
  unfolding read_files
  read_files-Returns [] t quiet = (_, t, refl, quiet)
  read_files-Returns ((path, ref) ∷ files) t quiet = elim (Option-cases (get_elem? t.heap ref)) [
    | inl absent ↦ rw (absent, read_files) (read_files-Returns files t quiet)
    | inr (watched, at) ↦
        rw (at, read_files)
          (unless_error-Returns m _ _
            (read_modified-Returns os accepts takes_all w m t ref watched quiet
              (AreIdle-get (suc m) t.heap ref watched quiet.readers at))
            (λ t' q. read_files-Returns files t' q))
  ]

  -- On every operating system, with a consumer that takes every line, a limit that is not zero, and
  -- readers idle at it, the polling watcher's processEvent returns, whatever the system answers, an
  -- error or nil, and leaves every reader idle at the limit.
  pub poll-Returns : (t : Session) → IsQuiet m t → Returns m (poll os matches accepts w t)
  unfolding poll
  poll-Returns t quiet =
      unless_error-Returns m _ _ (sync_dirs-Returns t.watched_dirs t quiet)
        (λ t' q. read_files-Returns t'.watched_files t' q)
