-- ===== src/FileTailer/Sync/Tracked/Turns.antt =====
-- The handles that syncFilesInDir opens and closes: a turn of the loop.
use go_libtail.Prelude.{
  ℕ, ◌≡◌, refl, subst, ◌⊎◌, inl, inr, Bool, Bool-cases, Option, none, some, Option-cases, List, [],
  ◌∷◌, ◌++◌, get_elem?, length,
}
use go_libtail.Prelude.In.{In, In-append, In-append_left, In-append_right}
use go_libtail.Errors.{
  Text, Error, ErrorType, not_specified, directory_not_found, file_not_found, win_file_removed,
}
use go_libtail.FileTailer.Session.{Watched, Session, FileInfo, System, text_eq}
use go_libtail.FileTailer.Os.{Os}
use go_libtail.FileTailer.Handles.{same_refs-IsTracked}
use go_libtail.FileTailer.Handles.Maps.{
  heap_ids, refs_of, paths_of, put_file-new, refs_of-append, paths_of-append,
}
use go_libtail.FileTailer.Sync.{
  Outcome, Files, put_file, after_read, open_new, watched_already, skip_missing, new_handle,
  follow_moved, seek_end,
}
use go_libtail.FileTailer.Sync.Tracked.{
  Tracks, KeepsTrack, follow_moved-KeepsTrack, seek_end-KeepsTrack,
}

-- The entries have paths that are different from each other and from those that are known.
abbrev pub AreNew : Os → Text → List Text → List FileInfo → Type 0
AreNew os d known [] = Unit
AreNew os d known (info ∷ infos) =
    (¬ In (os.join d info.name) known) × AreNew os d (os.join d info.name ∷ known) infos

-- findSameFile finds none but watched files.
abbrev pub FindsWatched : Os → System → Type 0
FindsWatched os w =
    (heap : List Watched) (files : Files) (info : FileInfo) (path : Text) (ref : ℕ)
    → os.same_file w heap files info path ≡ inr (some ref)
    → In ref (refs_of files)

-- What holds between the turns: the old files and the new ones are watched.
pub record IsMid (files after : Files) (known : List Text) (t : Session) : Type 0 where
  pub tracked : Tracks t (refs_of files ++ refs_of after)
  pub same_map : t.watched_files ≡ files
  pub paths : (p : Text) → In p (paths_of after) → In p known

abbrev pub TurnTracks : Files → List Text → Option ((Error ⊎ Files) × Session) → Type 0
TurnTracks files known none = Unit
TurnTracks files known (some (inl e, t)) = Unit
TurnTracks files known (some (inr after, t)) = IsMid files after known t

-- A turn that changes nothing.
pub passed_on :
    (files after : Files) (known : List Text) (path : Text) (t : Session)
    → IsMid files after known t
    → IsMid files after (path ∷ known) t
passed_on files after known path t m = record {
  tracked = m.tracked;
  same_map = m.same_map;
  paths = λ p there. inr (m.paths p there);
}

-- A path that is new to the map is put into it, for a pointer that is tracked.
put_path :
    (files after : Files) (known : List Text) (path : Text) (ref : ℕ) (t : Session)
    → ¬ In path known
    → ((p : Text) → In p (paths_of after) → In p known)
    → t.watched_files ≡ files
    → Tracks t (ref ∷ (refs_of files ++ refs_of after))
    → IsMid files (put_file after path ref) (path ∷ known) t
put_path files after known path ref t new paths same h = rw put (record {
  tracked = rw (refs_of-append after ((path, ref) ∷ [])) (
      same_refs-IsTracked (heap_ids t.heap) t.next_id t.closed
        (ref ∷ (refs_of files ++ refs_of after)) (refs_of files ++ (refs_of after ++ ref ∷ []))
        there back h);
  same_map = same;
  paths = λ p m. in_known p (
      In-append p (paths_of after) (path ∷ [])
        (subst (In p) (paths_of-append after ((path, ref) ∷ [])) m));
})
  where
    put : put_file after path ref ≡ after ++ (path, ref) ∷ []
    put = put_file-new after path ref (λ m. new (paths path m))

    in_known : (p : Text) → In p (paths_of after) ⊎ In p (path ∷ []) → In p (path ∷ known)
    in_known p (inl m) = inr (paths p m)
    in_known p (inr (inl e)) = inl e
    in_known p (inr (inr no_more)) = absurd no_more

    there :
        (i : ℕ)
        → In i (ref ∷ (refs_of files ++ refs_of after))
        → In i (refs_of files ++ (refs_of after ++ ref ∷ []))
    there i (inl e) =
        In-append_right i (refs_of files) _ (In-append_right i (refs_of after) _ (inl e))
    there i (inr m) = elim (In-append i (refs_of files) (refs_of after) m) [
      | inl k ↦ In-append_left i (refs_of files) _ k
      | inr k ↦ In-append_right i (refs_of files) _ (In-append_left i (refs_of after) _ k)
    ]

    back :
        (i : ℕ)
        → In i (refs_of files ++ (refs_of after ++ ref ∷ []))
        → In i (ref ∷ (refs_of files ++ refs_of after))
    back i m = elim (In-append i (refs_of files) (refs_of after ++ ref ∷ []) m) [
      | inl k ↦ inr (In-append_left i (refs_of files) _ k)
      | inr k ↦ elim (In-append i (refs_of after) (ref ∷ []) k) [
        | inl j ↦ inr (In-append_right i (refs_of files) _ j)
        | inr j ↦ elim j [ inl e ↦ inl e | inr no_more ↦ absurd no_more ]
      ]
    ]

-- A pointer that is tracked already, once more.
again :
    (refs : List ℕ) (ref : ℕ) (t : Session) → In ref refs → Tracks t refs → Tracks t (ref ∷ refs)
again refs ref t m h =
    same_refs-IsTracked (heap_ids t.heap) t.next_id t.closed refs (ref ∷ refs) (λ i k. inr k)
      (λ i k. elim k [ inl e ↦ rw e m | inr j ↦ j ]) h

skip_missing-TurnTracks :
    (files after : Files) (known : List Text) (t : Session) (e : Error) (k : ErrorType)
    → IsMid files after known t
    → TurnTracks files known (skip_missing t after e k)
unfolding skip_missing
skip_missing-TurnTracks files after known t e file_not_found m = m
skip_missing-TurnTracks files after known t e not_specified m = tt
skip_missing-TurnTracks files after known t e directory_not_found m = tt
skip_missing-TurnTracks files after known t e win_file_removed m = tt

after_read-TurnTracks :
    (files after : Files) (known : List Text) (path : Text) (ref : ℕ) (o : Outcome)
    → ¬ In path known
    → ((p : Text) → In p (paths_of after) → In p known)
    → KeepsTrack files (ref ∷ (refs_of files ++ refs_of after)) o
    → TurnTracks files (path ∷ known) (after_read after path ref o)
unfolding after_read
after_read-TurnTracks files after known path ref none new paths h = tt
after_read-TurnTracks files after known path ref (some (some e, t)) new paths h = tt
after_read-TurnTracks files after known path ref (some (none, t)) new paths h =
    put_path files after known path ref t new paths h.1 h.0

module _ (os : Os) (accepts : ℕ → Bool) (w : System) (files : Files) (known : List Text) where
  pub open_new-TurnTracks :
      (readall : Bool) (t : Session) (after : Files) (path : Text)
      → ¬ In path known
      → IsMid files after known t
      → TurnTracks files (path ∷ known) (open_new os accepts w readall t after path)
  unfolding open_new
  open_new-TurnTracks readall t after path new mid = by_answer (os.open_file w path) refl
    where
      by_answer :
          (o : Error ⊎ ℕ)
          → os.open_file w path ≡ o
          → TurnTracks files (path ∷ known) (open_new os accepts w readall t after path)
      by_answer (inl x) e =
          rw (e, open_new)
            (skip_missing-TurnTracks files after (path ∷ known) t x x.error_type
              (passed_on files after known path t mid))
      by_answer (inr file) e =
          rw (e, open_new)
            (after_read-TurnTracks files after known path (length t.heap) _ new mid.paths (
              subst
                (λ l. KeepsTrack l (length t.heap ∷ (refs_of files ++ refs_of after)) (
                  seek_end os accepts w readall t path file (length t.heap)
                    (os.seek_error w (new_handle t path file))))
                mid.same_map
                (seek_end-KeepsTrack os accepts w readall t (refs_of files ++ refs_of after) path
                  file (os.seek_error w (new_handle t path file)) mid.tracked)))

  pub watched_already-TurnTracks :
      (t : Session) (after : Files) (path : Text) (ref : ℕ)
      → ¬ In path known
      → In ref (refs_of files)
      → IsMid files after known t
      → TurnTracks files (path ∷ known) (watched_already os accepts w t after path ref)
  unfolding watched_already
  watched_already-TurnTracks t after path ref new there mid =
      elim (Option-cases (get_elem? t.heap ref)) [
        | inl e ↦ rw (e, watched_already) (passed_on files after known path t mid)
        | inr (watched, e) ↦ elim (Bool-cases (text_eq watched.handle.name path)) [
          | inl same ↦
              rw (e, watched_already)
                (rw same (
                  put_path files after known path ref t new mid.paths mid.same_map
                    (again (refs_of files ++ refs_of after) ref t in_all mid.tracked)))
          | inr other ↦
              rw (e, watched_already)
                (rw other (
                  after_read-TurnTracks files after known path ref _ new mid.paths (
                    once_more (follow_moved os accepts w t ref watched path) (
                      subst
                        (λ l.
                          KeepsTrack l (refs_of files ++ refs_of after)
                            (follow_moved os accepts w t ref watched path))
                        mid.same_map
                        (follow_moved-KeepsTrack os accepts w t (refs_of files ++ refs_of after) ref
                          watched path mid.tracked in_all e)))))
        ]
      ]
    where
      in_all : In ref (refs_of files ++ refs_of after)
      in_all = In-append_left ref (refs_of files) (refs_of after) there

      once_more :
          (o : Outcome)
          → KeepsTrack files (refs_of files ++ refs_of after) o
          → KeepsTrack files (ref ∷ (refs_of files ++ refs_of after)) o
      once_more none h = tt
      once_more (some (some x, t')) h = tt
      once_more (some (none, t')) h =
          (again (refs_of files ++ refs_of after) ref t' in_all h.0, h.1)
