-- ===== src/FileTailer/Sync/Tracked.antt =====
-- The handles that syncFilesInDir opens and closes: the calls about one file.
pub mod Turns
pub mod Whole
pub mod Listings
pub mod Updates
use go_libtail.Prelude.{
  ℕ, suc, ◌≡◌, refl, sym, ◌∙◌, subst, ◌⊎◌, inl, inr, Bool, true, false, Option, none, some,
  Option-cases, List, [], ◌∷◌, ◌++◌, get_elem?, set, length, ap,
}
use go_libtail.Prelude.In.{In}
use go_libtail.Bufio.{File}
use go_libtail.Errors.{Text, Error}
use go_libtail.FileTailer.ReadNewLines.{Output, read_new_lines}
use go_libtail.FileTailer.Session.{Watched, Session, System}
use go_libtail.FileTailer.Os.{Os}
use go_libtail.FileTailer.Handles.{IsTracked, opened-IsTracked, get-append_new}
use go_libtail.FileTailer.Handles.Changes.{moved-IsTracked, get-set_self}
use go_libtail.FileTailer.Handles.Maps.{
  heap_ids, get-heap_ids, heap_ids-set, heap_ids-append, length-heap_ids, set_same,
}
use go_libtail.FileTailer.Sync.{
  Outcome, Files, fuel_for, read_watched, read_or_close, follow_moved, start_reading, seek_end,
  update, renamed, started, if_watched, close_handle, unused, handle_after,
}

-- The pointers `refs` are watched, and every other handle is closed.
abbrev pub Tracks : Session → List ℕ → Type 0
Tracks t refs = IsTracked (heap_ids t.heap) t.next_id t.closed refs

-- The same after a call that returned nil and left the map as it is.
abbrev pub KeepsTrack : Files → List ℕ → Outcome → Type 0
KeepsTrack files refs none = Unit
KeepsTrack files refs (some (some e, t)) = Unit
KeepsTrack files refs (some (none, t)) = Tracks t refs × (t.watched_files ≡ files)

any_result :
    (files : Files) (refs : List ℕ) (r : Option Error) (t : Session)
    → Tracks t refs × (t.watched_files ≡ files)
    → KeepsTrack files refs (some (r, t))
any_result files refs none t h = h
any_result files refs (some e) t h = tt

if_watched-KeepsTrack :
    (files : Files) (refs : List ℕ) (o : Option Error) (t : Session) (id : ℕ) (next : Outcome)
    → KeepsTrack files refs next
    → KeepsTrack files refs (if_watched o t id next)
unfolding if_watched
if_watched-KeepsTrack files refs none t id next h = h
if_watched-KeepsTrack files refs (some e) t id next h = tt

module _ (os : Os) (accepts : ℕ → Bool) (w : System) where
  pub read_watched-KeepsTrack :
      (t : Session) (refs : List ℕ) (ref : ℕ) (watched : Watched)
      → Tracks t refs
      → get_elem? (heap_ids t.heap) ref ≡ some watched.handle.id
      → KeepsTrack t.watched_files refs (read_watched os accepts w t ref watched)
  unfolding read_watched update handle_after
  read_watched-KeepsTrack t refs ref watched h at =
      by_run
        (read_new_lines watched.handle.name (os.read_error w watched.handle) accepts
          (fuel_for watched.reader f) (length t.sent) watched.reader f)
        refl
    where
      f : File
      f = os.file_of w watched.handle

      read : Output → Watched
      read out = record { handle = handle_after watched.handle f out.file; reader = out.reader }

      same_ids :
          (v : Watched)
          → v.handle.id ≡ watched.handle.id
          → heap_ids (set t.heap ref v) ≡ heap_ids t.heap
      same_ids v e =
          heap_ids-set t.heap ref v
          ∙ (ap (set (heap_ids t.heap) ref) e ∙ set_same (heap_ids t.heap) ref _ at)

      by_run :
          (o : Option Output)
          → read_new_lines watched.handle.name
              (os.read_error w watched.handle)
              accepts
              (fuel_for watched.reader f)
              (length t.sent)
              watched.reader
              f
            ≡ o
          → KeepsTrack t.watched_files refs (read_watched os accepts w t ref watched)
      by_run none e = rw (e, read_watched) tt
      by_run (some out) e =
          rw (e, read_watched)
            (any_result t.watched_files refs out.result _ (
              subst (λ ids. IsTracked ids t.next_id t.closed refs) (sym (same_ids (read out) refl))
                  h,
              refl,
            ))

  pub read_or_close-KeepsTrack :
      (t : Session) (refs : List ℕ) (ref : ℕ) (watched : Watched)
      → Tracks t refs
      → get_elem? (heap_ids t.heap) ref ≡ some watched.handle.id
      → KeepsTrack t.watched_files refs (read_or_close os accepts w t ref watched)
  unfolding read_or_close
  read_or_close-KeepsTrack t refs ref watched h at =
      by_outcome (read_watched os accepts w t ref watched) refl
        (read_watched-KeepsTrack t refs ref watched h at)
    where
      by_outcome :
          (o : Outcome)
          → read_watched os accepts w t ref watched ≡ o
          → KeepsTrack t.watched_files refs o
          → KeepsTrack t.watched_files refs (read_or_close os accepts w t ref watched)
      by_outcome none e k = rw (e, read_or_close) tt
      by_outcome (some (some x, t')) e k = rw (e, read_or_close) tt
      by_outcome (some (none, t')) e k = rw (e, read_or_close) k

  -- The renamed file has a new handle, and its old one is closed.
  pub follow_moved-KeepsTrack :
      (t : Session) (refs : List ℕ) (ref : ℕ) (watched : Watched) (path : Text)
      → Tracks t refs
      → In ref refs
      → get_elem? t.heap ref ≡ some watched
      → KeepsTrack t.watched_files refs (follow_moved os accepts w t ref watched path)
  unfolding follow_moved
  follow_moved-KeepsTrack t refs ref watched path h there at =
      elim (Option-cases (os.dup_error w watched.handle)) [
        | inr (cause, e) ↦ rw (e, follow_moved) tt
        | inl e ↦
            rw (e, follow_moved)
              (if_watched-KeepsTrack t.watched_files refs
                (os.watch_file w (renamed t watched path).handle) _ _ _
                (read_or_close-KeepsTrack _ refs ref (renamed t watched path)
                  (subst
                    (λ ids. IsTracked ids (suc t.next_id) (t.closed ++ watched.handle.id ∷ []) refs)
                    (sym ids) moved)
                  (subst (λ l. get_elem? l ref ≡ some t.next_id) (sym ids) now)))
      ]
    where
      has : get_elem? (heap_ids t.heap) ref ≡ some watched.handle.id
      has = get-heap_ids t.heap ref watched at

      ids : heap_ids (set t.heap ref (renamed t watched path)) ≡ set (heap_ids t.heap) ref t.next_id
      ids = heap_ids-set t.heap ref (renamed t watched path)

      moved :
          IsTracked
            (set (heap_ids t.heap) ref t.next_id)
            (suc t.next_id)
            (t.closed ++ watched.handle.id ∷ [])
            refs
      moved =
          moved-IsTracked (heap_ids t.heap) t.next_id t.closed refs h ref watched.handle.id there
            has

      now : get_elem? (set (heap_ids t.heap) ref t.next_id) ref ≡ some t.next_id
      now = get-set_self (heap_ids t.heap) ref watched.handle.id t.next_id has

  start_reading-KeepsTrack :
      (readall : Bool) (t : Session) (refs : List ℕ) (path : Text) (file : ℕ)
      → Tracks t refs
      → KeepsTrack t.watched_files
          (length t.heap ∷ refs)
          (start_reading os accepts w readall t path file (length t.heap))
  unfolding start_reading
  start_reading-KeepsTrack readall t refs path file h =
      if_watched-KeepsTrack t.watched_files (length t.heap ∷ refs) (os.watch_file w watched.handle)
        _ _ _
        (read_or_close-KeepsTrack _ (length t.heap ∷ refs) (length t.heap) watched
          (subst (λ ids. IsTracked ids (suc t.next_id) t.closed (length t.heap ∷ refs)) (sym ids)
            (subst
              (λ n.
                IsTracked (heap_ids t.heap ++ t.next_id ∷ []) (suc t.next_id) t.closed (n ∷ refs))
              (length-heap_ids t.heap)
              (opened-IsTracked (heap_ids t.heap) t.next_id t.closed refs h)))
          (subst (λ l. get_elem? l (length t.heap) ≡ some t.next_id) (sym ids)
            (subst (λ n. get_elem? (heap_ids t.heap ++ t.next_id ∷ []) n ≡ some t.next_id)
              (length-heap_ids t.heap) (get-append_new (heap_ids t.heap) t.next_id))))
    where
      watched : Watched
      watched = started os accepts w readall t path file

      ids : heap_ids (t.heap ++ watched ∷ []) ≡ heap_ids t.heap ++ t.next_id ∷ []
      ids = heap_ids-append t.heap watched

  -- The new file has a new handle and a new pointer.
  pub seek_end-KeepsTrack :
      (readall : Bool) (t : Session) (refs : List ℕ) (path : Text) (file : ℕ) (cause : Option Text)
      → Tracks t refs
      → KeepsTrack t.watched_files
          (length t.heap ∷ refs)
          (seek_end os accepts w readall t path file (length t.heap) cause)
  unfolding seek_end
  seek_end-KeepsTrack false t refs path file (some cause) h = tt
  seek_end-KeepsTrack false t refs path file none h =
      start_reading-KeepsTrack false t refs path file h
  seek_end-KeepsTrack true t refs path file (some cause) h =
      start_reading-KeepsTrack true t refs path file h
  seek_end-KeepsTrack true t refs path file none h =
      start_reading-KeepsTrack true t refs path file h
