-- ===== src/FileTailer/Total/Events.antt =====
-- The events of inotify.
use go_libtail.Prelude.{
  ℕ, suc, ◌≡◌, refl, subst, ◌⊎◌, inl, inr, Bool, true, Bool-cases, none, some, Option-cases,
  get_elem?,
}
use go_libtail.Errors.{Text, Error}
use go_libtail.FileTailer.Session.{Watched, Dir, Session, System}
use go_libtail.FileTailer.Os.{linux}
use go_libtail.FileTailer.Os.{join}
use go_libtail.FileTailer.Sync.{unless_error}
use go_libtail.FileTailer.Sync.{Outcome}
use go_libtail.FileTailer.Linux.{
  Event, find_dir, has_flag, in_ignored, in_modify, is_moving, sync_if_moving, watched_at,
  lookup_file, process_in_dir, process_event, unwatch_dir_by_event,
}
use go_libtail.LineReader.Idle.{IsIdle}
use go_libtail.FileTailer.Total.Reads.{IsQuiet, Returns, AreIdle-get, read_modified-Returns}
use go_libtail.FileTailer.Total.Syncs.{sync_files_in_dir-Returns}

pub unless_error-Returns :
    (m : ℕ) (o : Outcome) (next : Session → Outcome)
    → Returns m o
    → ((t : Session) → IsQuiet m t → Returns m (next t))
    → Returns m (unless_error o next)
unless_error-Returns m o next (none, t, e, q) h = rw e (h t q)
unless_error-Returns m o next (some x, t, e, q) h = rw e (_, t, refl, q)

module _ (matches : Text → Text → Bool) (accepts : ℕ → Bool)
    (takes_all : (k : ℕ) → accepts k ≡ true) (w : System) (m : ℕ) where
  sync_if_moving-Returns :
      (t : Session) (d : Dir) (e : Event)
      → IsQuiet m t
      → Returns m (sync_if_moving matches accepts w t d e)
  unfolding sync_if_moving
  sync_if_moving-Returns t d e quiet = elim (Bool-cases (is_moving e.mask)) [
    | inl moving ↦
        rw (moving, sync_if_moving)
          (sync_files_in_dir-Returns linux matches accepts takes_all w m t d.path true quiet)
    | inr other ↦ rw (other, sync_if_moving) (_, t, refl, quiet)
  ]

  pub watched_at-IsIdle :
      (t : Session) (path : Text) (ref : ℕ) (watched : Watched)
      → IsQuiet m t
      → watched_at t path ≡ some (ref, watched)
      → IsIdle (suc m) watched.reader
  unfolding watched_at
  watched_at-IsIdle t path ref watched quiet h =
      elim (Option-cases (lookup_file t.watched_files path)) [
        | inl absent ↦ let gone : watched_at t path ≡ none = rw (absent, watched_at) refl in cc
        | inr (i, e) ↦ elim (Option-cases (get_elem? t.heap i)) [
          | inl absent ↦
              let gone : watched_at t path ≡ none = rw (e, watched_at) (rw absent refl) in cc
          | inr (found, at) ↦
              let here : watched_at t path ≡ some (i, found) = rw (e, watched_at) (rw at refl) in
              let watched_is : found ≡ watched = cc in
              subst (λ v. IsIdle (suc m) v.reader) watched_is
                (AreIdle-get (suc m) t.heap i found quiet.readers at)
        ]
      ]

  process_in_dir-Returns :
      (t : Session) (d : Dir) (e : Event)
      → IsQuiet m t
      → Returns m (process_in_dir matches accepts w t d e)
  unfolding process_in_dir unwatch_dir_by_event
  process_in_dir-Returns t d e quiet = elim (Bool-cases (has_flag e.mask in_ignored)) [
    | inl gone ↦
        rw (gone, process_in_dir)
          (_, _, refl, record { limit = quiet.limit; readers = quiet.readers })
    | inr there ↦ elim (Bool-cases (has_flag e.mask in_modify)) [
      | inr other ↦ rw (there, process_in_dir) (rw other (sync_if_moving-Returns t d e quiet))
      | inl modified ↦ elim (Option-cases (watched_at t (join d.path e.name))) [
        | inl unrelated ↦
            rw (there, process_in_dir) (rw modified (rw unrelated (_, t, refl, quiet)))
        | inr ((ref, watched), found) ↦
            rw (there, process_in_dir)
              (rw modified (
                rw found (
                  unless_error-Returns m _ _
                    (read_modified-Returns linux accepts takes_all w m t ref watched quiet
                      (watched_at-IsIdle t (join d.path e.name) ref watched quiet found))
                    (λ t' q. sync_if_moving-Returns t' d e q))))
      ]
    ]
  ]

  -- With a consumer that takes every line, a limit that is not zero, and readers idle at it,
  -- processEvent returns for every inotify event, whatever the system answers, an error or nil,
  -- and leaves every reader idle at the limit: so it does again for the next event.
  pub process_event-Returns :
      (t : Session) (e : Event) → IsQuiet m t → Returns m (process_event matches accepts w t e)
  unfolding process_event
  process_event-Returns t e quiet = by_dir (find_dir t e) refl
    where
      by_dir :
          (o : Error ⊎ Dir) → find_dir t e ≡ o → Returns m (process_event matches accepts w t e)
      by_dir (inl x) k = rw (k, process_event) (_, t, refl, quiet)
      by_dir (inr d) k = rw (k, process_event) (process_in_dir-Returns t d e quiet)
