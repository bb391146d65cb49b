-- ===== src/FileTailer/Linux/Tracked.antt =====
-- The handles that an event opens and closes.
use go_libtail.Prelude.{
  ℕ, ◌≡◌, refl, ◌⊎◌, inl, inr, Bool, true, false, Bool-cases, Option, none, some, Option-cases,
  get_elem?,
}
use go_libtail.Errors.{Text, Error}
use go_libtail.FileTailer.Session.{Watched, Dir, Session, System}
use go_libtail.FileTailer.Os.{Os, linux}
use go_libtail.FileTailer.Handles.Maps.{heap_ids, refs_of, get-heap_ids}
use go_libtail.FileTailer.Os.{join}
use go_libtail.FileTailer.Sync.{update, sync_files_in_dir}
use go_libtail.FileTailer.Sync.Tracked.{Tracks}
use go_libtail.FileTailer.Sync.Tracked.Listings.{
  ListsOnce, StaysTracked, sync_files_in_dir-StaysTracked, find_same_file-FindsWatched,
}
use go_libtail.FileTailer.Sync.Tracked.Updates.{
  update-Tracks, update-at, unless_error-StaysTracked, read-StaysTracked,
}
use go_libtail.FileTailer.Linux.{
  Event, find_dir, has_flag, in_ignored, in_modify, is_moving, restarted, restart_and_read,
  read_modified, sync_if_moving, watched_at, lookup_file, process_in_dir, process_event,
}

module _ (os : Os) (accepts : ℕ → Bool) (w : System) where
  restart-StaysTracked :
      (t : Session) (ref : ℕ) (watched : Watched) (o : Option Text)
      → get_elem? (heap_ids t.heap) ref ≡ some watched.handle.id
      → Tracks t (refs_of t.watched_files)
      → StaysTracked (restart_and_read os accepts w t ref watched o)
  unfolding restart_and_read restarted update
  restart-StaysTracked t ref watched (some cause) at h = tt
  restart-StaysTracked t ref watched none at h =
      read-StaysTracked os accepts w (update t ref (restarted watched)) ref (restarted watched)
        (update-at t ref (restarted watched) at)
        (update-Tracks t (refs_of t.watched_files) ref (restarted watched) at h)

  pub read_modified-StaysTracked :
      (t : Session) (ref : ℕ) (watched : Watched)
      → get_elem? (heap_ids t.heap) ref ≡ some watched.handle.id
      → Tracks t (refs_of t.watched_files)
      → StaysTracked (read_modified os accepts w t ref watched)
  unfolding read_modified
  read_modified-StaysTracked t ref watched at h =
      by_answer (os.check_truncated w watched.handle) refl
    where
      by_answer :
          (o : Text ⊎ Bool)
          → os.check_truncated w watched.handle ≡ o
          → StaysTracked (read_modified os accepts w t ref watched)
      by_answer (inl cause) e = rw (e, read_modified) tt
      by_answer (inr true) e =
          rw (e, read_modified)
            (restart-StaysTracked t ref watched (os.seek_error w watched.handle) at h)
      by_answer (inr false) e =
          rw (e, read_modified) (read-StaysTracked os accepts w t ref watched at h)

watched_at-has :
    (t : Session) (path : Text) (ref : ℕ) (watched : Watched)
    → watched_at t path ≡ some (ref, watched)
    → get_elem? t.heap ref ≡ some watched
unfolding watched_at
watched_at-has t path ref watched h = elim (Option-cases (lookup_file t.watched_files path)) [
  | inl absent ↦ let gone : watched_at t path ≡ none = rw (absent, watched_at) refl in absurd (cc)
  | inr (i, e) ↦ elim (Option-cases (get_elem? t.heap i)) [
    | inl absent ↦
        let gone : watched_at t path ≡ none = rw (e, watched_at) (rw absent refl) in absurd (cc)
    | inr (found, at) ↦
        let here : watched_at t path ≡ some (i, found) = rw (e, watched_at) (rw at refl) in
        let same : i ≡ ref = cc in let also : found ≡ watched = cc in cc
  ]
]

module _ (matches : Text → Text → Bool) (accepts : ℕ → Bool) (w : System)
    (lists : ListsOnce linux w) where
  sync-StaysTracked :
      (d : Text) (t : Session)
      → Tracks t (refs_of t.watched_files)
      → StaysTracked (sync_files_in_dir linux matches accepts w t d true)
  sync-StaysTracked d t h =
      sync_files_in_dir-StaysTracked linux matches accepts w (find_same_file-FindsWatched w) lists d
        true t h

  sync_if_moving-StaysTracked :
      (t : Session) (d : Dir) (e : Event)
      → Tracks t (refs_of t.watched_files)
      → StaysTracked (sync_if_moving matches accepts w t d e)
  unfolding sync_if_moving
  sync_if_moving-StaysTracked t d e h = elim (Bool-cases (is_moving e.mask)) [
    | inl moving ↦ rw (moving, sync_if_moving) (sync-StaysTracked d.path t h)
    | inr other ↦ rw (other, sync_if_moving) h
  ]

  process_in_dir-StaysTracked :
      (t : Session) (d : Dir) (e : Event)
      → Tracks t (refs_of t.watched_files)
      → StaysTracked (process_in_dir matches accepts w t d e)
  unfolding process_in_dir
  process_in_dir-StaysTracked t d e h = elim (Bool-cases (has_flag e.mask in_ignored)) [
    | inl gone ↦ rw (gone, process_in_dir) tt
    | inr there ↦ elim (Bool-cases (has_flag e.mask in_modify)) [
      | inr other ↦ rw (there, process_in_dir) (rw other (sync_if_moving-StaysTracked t d e h))
      | inl modified ↦ elim (Option-cases (watched_at t (join d.path e.name))) [
        | inl unrelated ↦ rw (there, process_in_dir) (rw modified (rw unrelated h))
        | inr ((ref, watched), found) ↦
            rw (there, process_in_dir)
              (rw modified (
                rw found (
                  unless_error-StaysTracked _ _
                    (read_modified-StaysTracked linux accepts w t ref watched
                      (get-heap_ids t.heap ref watched
                        (watched_at-has t (join d.path e.name) ref watched found))
                      h)
                    (λ t' k. sync_if_moving-StaysTracked t' d e k))))
      ]
    ]
  ]

  pub process_event-StaysTracked :
      (t : Session) (e : Event)
      → Tracks t (refs_of t.watched_files)
      → StaysTracked (process_event matches accepts w t e)
  unfolding process_event
  process_event-StaysTracked t e h = by_dir (find_dir t e) refl
    where
      by_dir :
          (o : Error ⊎ Dir) → find_dir t e ≡ o → StaysTracked (process_event matches accepts w t e)
      by_dir (inl x) k = rw (k, process_event) tt
      by_dir (inr d) k = rw (k, process_event) (process_in_dir-StaysTracked t d e h)
