-- ===== src/FileTailer/Polling/Tracked.antt =====
-- The handles over a poll.
use go_libtail.Prelude.{
  ℕ, ◌≡◌, refl, inl, inr, Bool, true, some, Option-cases, List, [], ◌∷◌, get_elem?, ◌⊎◌, ◌==◌,
  Bool-cases, sym, ◌∙◌,
}
use go_libtail.Prelude.In.{In}
use go_libtail.Errors.{
  Text, Error, ErrorType, not_specified, file_not_found, directory_not_found, win_file_removed,
}
use go_libtail.FileTailer.Session.{Dir, Session, System, Watched, FileInfo}
use go_libtail.FileTailer.Os.{Os}
use go_libtail.FileTailer.Handles.Maps.{refs_of, get-heap_ids}
use go_libtail.FileTailer.Sync.{Files}
use go_libtail.FileTailer.Sync.Tracked.{Tracks}
use go_libtail.FileTailer.Sync.Tracked.Turns.{FindsWatched}
use go_libtail.FileTailer.Sync.Tracked.Listings.{
  ListsOnce, StaysTracked, sync_files_in_dir-StaysTracked, find_same_file-FindsWatched,
}
use go_libtail.FileTailer.Linux.Tracked.{read_modified-StaysTracked}
use go_libtail.FileTailer.Sync.Tracked.Updates.{unless_error-StaysTracked}
use go_libtail.FileTailer.Windows.{same_index_in, none_if_missing, find_same_index}
use go_libtail.FileTailer.Windows.File.{open_with_backoff}
use go_libtail.FileTailer.Polling.{
  Platform, on_linux, on_darwin, on_windows, os_of, sync_dirs, read_files, poll,
}

same_index_in-In :
    (heap : List Watched) (files : Files) (index ref : ℕ)
    → same_index_in heap files index ≡ some ref
    → In ref (refs_of files)
unfolding same_index_in
same_index_in-In heap [] index ref h = absurd (cc)
same_index_in-In heap ((p, r) ∷ files) index ref h = elim (Option-cases (get_elem? heap r)) [
  | inl absent ↦ inr (same_index_in-In heap files index ref (rw (absent, same_index_in) at h))
  | inr (watched, at) ↦ elim (Bool-cases (watched.handle.file == index)) [
    | inl same ↦
        let here : same_index_in heap ((p, r) ∷ files) index ≡ some r =
          rw (at, same_index_in) (rw same refl) in
        inl (cc)
    | inr other ↦
        let rest : same_index_in heap ((p, r) ∷ files) index ≡ same_index_in heap files index =
          rw (at, same_index_in) (rw other refl) in
        inr (same_index_in-In heap files index ref (sym rest ∙ h))
  ]
]

finds_none : (e : Error) (k : ErrorType) (ref : ℕ) → ¬ (none_if_missing e k ≡ inr (some ref))
unfolding none_if_missing
finds_none e file_not_found ref h = cc
finds_none e not_specified ref h = cc
finds_none e directory_not_found ref h = cc
finds_none e win_file_removed ref h = cc

find_same_index-FindsWatched :
    (w : System) (heap : List Watched) (files : Files) (info : FileInfo) (path : Text) (ref : ℕ)
    → find_same_index w heap files info path ≡ inr (some ref)
    → In ref (refs_of files)
unfolding find_same_index
find_same_index-FindsWatched w heap files info path ref h = by_open (open_with_backoff w path) refl
  where
    by_open : (o : Error ⊎ ℕ) → open_with_backoff w path ≡ o → In ref (refs_of files)
    by_open (inl e) q =
        let missing : find_same_index w heap files info path ≡ none_if_missing e e.error_type =
          rw (q, find_same_index) refl in
        absurd (finds_none e e.error_type ref (sym missing ∙ h))
    by_open (inr index) q =
        let found : find_same_index w heap files info path ≡ inr (same_index_in heap files index) =
          rw (q, find_same_index) refl in
        let same : same_index_in heap files index ≡ some ref = cc in
        same_index_in-In heap files index ref same

pub platform-FindsWatched : (p : Platform) (w : System) → FindsWatched (os_of p) w
platform-FindsWatched on_linux w = find_same_file-FindsWatched w
platform-FindsWatched on_darwin w = find_same_file-FindsWatched w
platform-FindsWatched (on_windows join dir) w = find_same_index-FindsWatched w

module _ (os : Os) (matches : Text → Text → Bool) (accepts : ℕ → Bool) (w : System)
    (finds : FindsWatched os w) (lists : ListsOnce os w) where
  sync_dirs-StaysTracked :
      (dirs : List Dir) (t : Session)
      → Tracks t (refs_of t.watched_files)
      → StaysTracked (sync_dirs os matches accepts w t dirs)
  unfolding sync_dirs
  sync_dirs-StaysTracked [] t h = h
  sync_dirs-StaysTracked (d ∷ dirs) t h =
      unless_error-StaysTracked _ _
        (sync_files_in_dir-StaysTracked os matches accepts w finds lists d.path true t h)
        (λ t' k. sync_dirs-StaysTracked dirs t' k)

  read_files-StaysTracked :
      (files : Files) (t : Session)
      → Tracks t (refs_of t.watched_files)
      → StaysTracked (read_files os matches accepts w t files)
  unfolding read_files
  read_files-StaysTracked [] t h = h
  read_files-StaysTracked ((path, ref) ∷ files) t h = elim (Option-cases (get_elem? t.heap ref)) [
    | inl absent ↦ rw (absent, read_files) (read_files-StaysTracked files t h)
    | inr (watched, at) ↦
        rw (at, read_files)
          (unless_error-StaysTracked _ _
            (read_modified-StaysTracked os accepts w t ref watched
              (get-heap_ids t.heap ref watched at) h)
            (λ t' k. read_files-StaysTracked files t' k))
  ]

  pub poll-StaysTracked :
      (t : Session)
      → Tracks t (refs_of t.watched_files)
      → StaysTracked (poll os matches accepts w t)
  unfolding poll
  poll-StaysTracked t h =
      unless_error-StaysTracked _ _ (sync_dirs-StaysTracked t.watched_dirs t h)
        (λ t' k. read_files-StaysTracked t'.watched_files t' k)
