-- ===== src/FileTailer/Darwin/Tracked.antt =====
-- The handles that a kevent opens and closes.
use go_libtail.Prelude.{
  ℕ, ◌≡◌, refl, ◌⊎◌, inl, inr, Bool, true, false, ◌||◌, Bool-cases, Option, none, some,
  Option-cases, List, [], ◌∷◌, get_elem?, ◌==◌, sym, ◌∙◌,
}
use go_libtail.Errors.{Text, text, Error}
use go_libtail.FileTailer.Session.{Watched, Dir, Session, System}
use go_libtail.FileTailer.Handles.Maps.{heap_ids, refs_of, get-heap_ids}
use go_libtail.FileTailer.Sync.{Outcome, update}
use go_libtail.FileTailer.Sync.Tracked.{Tracks}
use go_libtail.FileTailer.Sync.Tracked.Listings.{
  ListsOnce, StaysTracked, sync_files_in_dir-StaysTracked, find_same_file-FindsWatched,
}
use go_libtail.FileTailer.Sync.Tracked.Updates.{
  update-Tracks, update-at, unless_error-StaysTracked, read-StaysTracked,
}
use go_libtail.FileTailer.Os.{is_truncated}
use go_libtail.FileTailer.Linux.{has_flag, restarted, failure, find_in}
use go_libtail.FileTailer.Darwin.{
  Kevent, darwin, note_write, note_extend, note_attrib, read_written, restart_written,
  process_file_event, sync_written, update_failed, dir_gone, process_dir_event, find_file,
  process_kevent,
}

module _ (accepts : ℕ → Bool) (w : System) (k : Kevent) where
  read_written-StaysTracked :
      (t : Session) (ref : ℕ) (watched : Watched)
      → get_elem? (heap_ids t.heap) ref ≡ some watched.handle.id
      → Tracks t (refs_of t.watched_files)
      → StaysTracked (read_written accepts w t ref watched k)
  unfolding read_written
  read_written-StaysTracked t ref watched at h = elim (Bool-cases (has_flag k.fflags note_write)) [
    | inl e ↦ rw (e, read_written) (read-StaysTracked darwin accepts w t ref watched at h)
    | inr e ↦ rw (e, read_written) h
  ]

  restart_written-StaysTracked :
      (t : Session) (ref : ℕ) (watched : Watched) (o : Option Text)
      → get_elem? (heap_ids t.heap) ref ≡ some watched.handle.id
      → Tracks t (refs_of t.watched_files)
      → StaysTracked (restart_written accepts w t ref watched k o)
  unfolding restart_written restarted update
  restart_written-StaysTracked t ref watched (some cause) at h = tt
  restart_written-StaysTracked t ref watched none at h =
      read_written-StaysTracked (update t ref (restarted watched)) ref (restarted watched)
        (update-at t ref (restarted watched) at)
        (update-Tracks t (refs_of t.watched_files) ref (restarted watched) at h)

  process_file_event-StaysTracked :
      (t : Session) (ref : ℕ) (watched : Watched)
      → get_elem? (heap_ids t.heap) ref ≡ some watched.handle.id
      → Tracks t (refs_of t.watched_files)
      → StaysTracked (process_file_event accepts w t ref watched k)
  unfolding process_file_event
  process_file_event-StaysTracked t ref watched at h =
      elim (Bool-cases (has_flag k.fflags note_attrib)) [
        | inr e ↦ rw (e, process_file_event) (read_written-StaysTracked t ref watched at h)
        | inl e ↦ rw (e, process_file_event) (by_answer (is_truncated w watched.handle))
      ]
    where
      by_answer :
          (o : Text ⊎ Bool)
          → StaysTracked (elim o [
            | inl cause ↦ some (failure watched.handle cause (text ": seek() or stat() failed"), t)
            | inr true ↦
                restart_written accepts w t ref watched k (w.seek_error watched.handle.file)
            | inr false ↦ read_written accepts w t ref watched k
          ])
      by_answer (inl cause) = tt
      by_answer (inr true) = restart_written-StaysTracked t ref watched _ at h
      by_answer (inr false) = read_written-StaysTracked t ref watched at h

pub find_file-has :
    (fd : ℕ → ℕ) (heap : List Watched) (files : List (Text × ℕ)) (ident ref : ℕ) (watched : Watched)
    → find_file fd heap files ident ≡ some (ref, watched)
    → get_elem? heap ref ≡ some watched
unfolding find_file
find_file-has fd heap [] ident ref watched h = absurd (cc)
find_file-has fd heap ((path, r) ∷ files) ident ref watched h =
    elim (Option-cases (get_elem? heap r)) [
      | inl e ↦ find_file-has fd heap files ident ref watched (sym (rw (e, find_file) refl) ∙ h)
      | inr (v, e) ↦ elim (Bool-cases (fd v.handle.id == ident)) [
        | inl same ↦
            let here : find_file fd heap ((path, r) ∷ files) ident ≡ some (r, v) =
              rw (e, find_file) (rw same refl) in
            let one : r ≡ ref = cc in let two : v ≡ watched = cc in cc
        | inr other ↦
            let rest : find_file fd heap ((path, r) ∷ files) ident ≡ find_file fd heap files ident =
              rw (e, find_file) (rw other refl) in
            find_file-has fd heap files ident ref watched (sym rest ∙ h)
      ]
    ]

update_failed-StaysTracked :
    (d : Dir) (o : Outcome) → StaysTracked o → StaysTracked (update_failed d o)
unfolding update_failed
update_failed-StaysTracked d none h = tt
update_failed-StaysTracked d (some (some e, t)) h = tt
update_failed-StaysTracked d (some (none, t)) h = h

either_way :
    (o : Option Error) (t : Session)
    → Tracks t (refs_of t.watched_files)
    → StaysTracked (some (o, t))
either_way none t h = h
either_way (some e) t h = tt

module _ (fd : ℕ → ℕ) (matches : Text → Text → Bool) (accepts : ℕ → Bool) (w : System)
    (lists : ListsOnce darwin w) where
  sync_written-StaysTracked :
      (t : Session) (d : Dir) (k : Kevent)
      → Tracks t (refs_of t.watched_files)
      → StaysTracked (sync_written fd matches accepts w t d k)
  unfolding sync_written
  sync_written-StaysTracked t d k h =
      elim (Bool-cases (has_flag k.fflags note_write || has_flag k.fflags note_extend)) [
        | inl e ↦
            rw (e, sync_written)
              (update_failed-StaysTracked d _ (
                sync_files_in_dir-StaysTracked darwin matches accepts w
                  (find_same_file-FindsWatched w) lists d.path true t h))
        | inr e ↦ rw (e, sync_written) h
      ]

  pub process_kevent-StaysTracked :
      (t : Session) (k : Kevent)
      → Tracks t (refs_of t.watched_files)
      → StaysTracked (process_kevent fd matches accepts w t k)
  unfolding process_kevent process_dir_event
  process_kevent-StaysTracked t k h = elim (Option-cases (find_in t.watched_dirs k.ident)) [
    | inr (d, e) ↦
        rw (e, process_kevent)
          (unless_error-StaysTracked _ _ (sync_written-StaysTracked t d k h)
            (λ t' h'. either_way (dir_gone k d) t' h'))
    | inl e ↦ elim (Option-cases (find_file fd t.heap t.watched_files k.ident)) [
      | inl f ↦ rw (e, process_kevent) (rw f h)
      | inr ((ref, watched), f) ↦
          rw (e, process_kevent)
            (rw f (
              process_file_event-StaysTracked accepts w k t ref watched
                (get-heap_ids t.heap ref watched
                  (find_file-has fd t.heap t.watched_files k.ident ref watched f))
                h))
    ]
  ]
