-- ===== src/FileTailer/Sync/Tracked/Whole.antt =====
-- The handles that syncFilesInDir opens and closes: the loop and the whole call.
use go_libtail.Prelude.{
  ℕ, ◌≡◌, refl, sym, ◌∙◌, subst, ◌⊎◌, inl, inr, Bool, true, false, Bool-cases, Option, none, some,
  List, [], ◌∷◌, ◌++◌, ap,
}
use go_libtail.Prelude.In.{In, In-append, In-append_left}
use go_libtail.Errors.{Text, Error}
use go_libtail.FileTailer.Session.{Session, FileInfo, System, any_glob_matches}
use go_libtail.FileTailer.Os.{Os}
use go_libtail.FileTailer.Handles.{IsTracked, same_refs-IsTracked}
use go_libtail.FileTailer.Handles.Changes.{let_go-IsTracked}
use go_libtail.FileTailer.Handles.Maps.{
  heap_ids, refs_of, paths_of, of_other_dirs-refs, ids_removed-from, ids_removed-covers,
}
use go_libtail.FileTailer.Sync.{
  Outcome, Files, of_other_dirs, ids_removed, sync_matched, sync_entry, sync_entries, finish_sync,
  sync_files_in_dir,
}
use go_libtail.FileTailer.Sync.Tracked.{Tracks}
use go_libtail.FileTailer.Sync.Tracked.Turns.{
  AreNew, FindsWatched, IsMid, TurnTracks, passed_on, open_new-TurnTracks,
  watched_already-TurnTracks,
}

abbrev left_by : Session → Outcome → Session
left_by t none = t
left_by t (some (r, u)) = u

module _ (os : Os) (matches : Text → Text → Bool) (accepts : ℕ → Bool) (w : System)
    (finds : FindsWatched os w) (d : Text) (readall : Bool) (files : Files) where
  sync_matched-TurnTracks :
      (is_dir : Bool) (t : Session) (after : Files) (known : List Text) (path : Text)
      (info : FileInfo)
      → ¬ In path known
      → IsMid files after known t
      → TurnTracks files
          (path ∷ known)
          (sync_matched os matches accepts w is_dir readall t after path info)
  unfolding sync_matched
  sync_matched-TurnTracks true t after known path info new mid =
      passed_on files after known path t mid
  sync_matched-TurnTracks false t after known path info new mid =
      by_found (os.same_file w t.heap t.watched_files info path) refl
    where
      by_found :
          (o : Error ⊎ Option ℕ)
          → os.same_file w t.heap t.watched_files info path ≡ o
          → TurnTracks files
              (path ∷ known)
              (sync_matched os matches accepts w false readall t after path info)
      by_found (inl x) e = rw (e, sync_matched) tt
      by_found (inr (some ref)) e =
          rw (e, sync_matched)
            (watched_already-TurnTracks os accepts w files known t after path ref new
              (subst (λ l. In ref (refs_of l)) mid.same_map
                (finds t.heap t.watched_files info path ref e))
              mid)
      by_found (inr none) e =
          rw (e, sync_matched)
            (open_new-TurnTracks os accepts w files known readall t after path new mid)

  sync_entry-TurnTracks :
      (t : Session) (after : Files) (known : List Text) (info : FileInfo)
      → ¬ In (os.join d info.name) known
      → IsMid files after known t
      → TurnTracks files
          (os.join d info.name ∷ known)
          (sync_entry os matches accepts w d readall t after info)
  unfolding sync_entry
  sync_entry-TurnTracks t after known info new mid =
      elim (Bool-cases (any_glob_matches matches t.globs (os.join d info.name))) [
        | inr other ↦
            rw (other, sync_entry) (passed_on files after known (os.join d info.name) t mid)
        | inl hit ↦
            rw (hit, sync_entry)
              (sync_matched-TurnTracks info.is_dir t after known (os.join d info.name) info new mid)
      ]

  -- At the end of the loop nothing is said of the paths.
  abbrev EntriesTrack : Option ((Error ⊎ Files) × Session) → Type 0
  EntriesTrack none = Unit
  EntriesTrack (some (inl e, t)) = Unit
  EntriesTrack (some (inr after, t)) =
      Tracks t (refs_of files ++ refs_of after) × (t.watched_files ≡ files)

  sync_entries-Track :
      (infos : List FileInfo) (t : Session) (after : Files) (known : List Text)
      → AreNew os d known infos
      → IsMid files after known t
      → EntriesTrack (sync_entries os matches accepts w d readall t after infos)
  unfolding sync_entries
  sync_entries-Track [] t after known new mid = (mid.tracked, mid.same_map)
  sync_entries-Track (info ∷ infos) t after known (first, others) mid =
      by_entry (sync_entry os matches accepts w d readall t after info) refl
        (sync_entry-TurnTracks t after known info first mid)
        (λ t' after' m. sync_entries-Track infos t' after' (os.join d info.name ∷ known) others m)
    where
      by_entry :
          (o : Option ((Error ⊎ Files) × Session))
          → sync_entry os matches accepts w d readall t after info ≡ o
          → TurnTracks files (os.join d info.name ∷ known) o
          → ((t' : Session) (after' : Files)
              → IsMid files after' (os.join d info.name ∷ known) t'
              → EntriesTrack (sync_entries os matches accepts w d readall t' after' infos))
          → EntriesTrack (sync_entries os matches accepts w d readall t after (info ∷ infos))
      by_entry none e h later = rw (e, sync_entries) tt
      by_entry (some (inl x, t')) e h later = rw (e, sync_entries) tt
      by_entry (some (inr after', t')) e h later = rw (e, sync_entries) (later t' after' h)

  -- A call of syncFilesInDir that returns nil keeps the account of the handles: after it as before,
  -- no watched file has a closed handle, and every handle that was ever opened is closed or that of
  -- a watched file. findSameFile finds only watched files, and the entries of the directory have
  -- paths that are different from each other and from those of other directories.
  pub sync_files_in_dir-Tracks :
      (t t' : Session) (infos : List FileInfo)
      → t.watched_files ≡ files
      → os.ls w d ≡ inr infos
      → AreNew os d (paths_of (of_other_dirs os d files)) infos
      → Tracks t (refs_of files)
      → sync_files_in_dir os matches accepts w t d readall ≡ some (none, t')
      → Tracks t' (refs_of t'.watched_files)
  unfolding sync_files_in_dir finish_sync
  sync_files_in_dir-Tracks t t' infos same lists new h runs =
      by_entries
        (sync_entries os matches accepts w d readall t (of_other_dirs os d t.watched_files) infos)
        (subst
          (λ l.
            EntriesTrack
              (sync_entries os matches accepts w d readall t (of_other_dirs os d l) infos))
          (sym same)
          (sync_entries-Track infos t (of_other_dirs os d files)
            (paths_of (of_other_dirs os d files)) new start))
        (sym (rw (lists, sync_files_in_dir) refl) ∙ runs)
    where
      start : IsMid files (of_other_dirs os d files) (paths_of (of_other_dirs os d files)) t
      start = record {
        tracked =
            same_refs-IsTracked (heap_ids t.heap) t.next_id t.closed (refs_of files)
              (refs_of files ++ refs_of (of_other_dirs os d files))
              (λ i m. In-append_left i (refs_of files) _ m)
              (λ i m. elim (In-append i (refs_of files) _ m) [
                | inl k ↦ k
                | inr k ↦ of_other_dirs-refs os d files i k
              ])
              h;
        same_map = same;
        paths = λ p m. m;
      }

      finished :
          (after : Files) (u : Session)
          → Tracks u (refs_of files ++ refs_of after)
          → u.watched_files ≡ files
          → IsTracked
              (heap_ids u.heap)
              u.next_id
              (u.closed ++ ids_removed u.heap after u.watched_files)
              (refs_of after)
      finished after u k e =
          subst
            (λ l.
              IsTracked (heap_ids u.heap) u.next_id (u.closed ++ ids_removed u.heap after l)
                (refs_of after))
            (sym e)
            (let_go-IsTracked (heap_ids u.heap) u.next_id u.closed (refs_of files) (refs_of after)
              (ids_removed u.heap after files) (ids_removed-from u.heap after files)
              (ids_removed-covers u.heap after files) k)

      by_entries :
          (o : Option ((Error ⊎ Files) × Session))
          → EntriesTrack o
          → finish_sync o ≡ some (none, t')
          → Tracks t' (refs_of t'.watched_files)
      by_entries none k e = cc
      by_entries (some (inl x, u)) k e = cc
      by_entries (some (inr after, u)) k e =
          subst (λ v. Tracks v (refs_of v.watched_files)) (ap (left_by t) e)
            (finished after u k.0 k.1)
