-- ===== src/FileTailer/Sync/Turns.antt =====
-- What one turn of the loop in syncFilesInDir adds to the watched files.
use go_libtail.Prelude.{
  ℕ, ◌≡◌, refl, ◌⊎◌, inl, inr, Bool, true, false, Bool-cases, Option, none, some, Option-cases,
  List, get_elem?, length,
}
use go_libtail.Errors.{
  Text, Error, ErrorType, not_specified, directory_not_found, file_not_found, win_file_removed,
}
use go_libtail.Bufio.{File}
use go_libtail.FileTailer.ReadNewLines.{Output, read_new_lines}
use go_libtail.FileTailer.Sync.{fuel_for}
use go_libtail.FileTailer.Os.{Os}
use go_libtail.FileTailer.Session.{Watched, Session, FileInfo, System, text_eq, any_glob_matches}
use go_libtail.FileTailer.Sync.{
  Outcome, Files, put_file, read_watched, read_or_close, follow_moved, start_reading, seek_end,
  after_read, open_new, watched_already, sync_matched, sync_entry, update, renamed, started,
  if_watched, skip_missing, new_handle,
}

-- The globs are as before, if the call returned nil.
abbrev KeepsGlobs : List Text → Outcome → Type 0
KeepsGlobs globs none = Unit
KeepsGlobs globs (some (some e, t)) = Unit
KeepsGlobs globs (some (none, t)) = t.globs ≡ globs

-- The turn went on, if it did, with the same files or with one more, of this path.
abbrev GoesOn : List Text → Files → Text → Option ((Error ⊎ Files) × Session) → Type 0
GoesOn globs after path none = Unit
GoesOn globs after path (some (inl e, t)) = Unit
GoesOn globs after path (some (inr files, t)) =
    (t.globs ≡ globs) × ((files ≡ after) ⊎ ((ref : ℕ) × (files ≡ put_file after path ref)))

any_result :
    (globs : List Text) (r : Option Error) (t : Session)
    → t.globs ≡ globs
    → KeepsGlobs globs (some (r, t))
any_result globs none t h = h
any_result globs (some e) t h = tt

after_read-GoesOn :
    (globs : List Text) (after : Files) (path : Text) (ref : ℕ) (o : Outcome)
    → KeepsGlobs globs o
    → GoesOn globs after path (after_read after path ref o)
unfolding after_read
after_read-GoesOn globs after path ref none h = tt
after_read-GoesOn globs after path ref (some (some e, t)) h = tt
after_read-GoesOn globs after path ref (some (none, t)) h = (h, inr (ref, refl))

if_watched-KeepsGlobs :
    (globs : List Text) (o : Option Error) (t : Session) (id : ℕ) (next : Outcome)
    → KeepsGlobs globs next
    → KeepsGlobs globs (if_watched o t id next)
unfolding if_watched
if_watched-KeepsGlobs globs none t id next h = h
if_watched-KeepsGlobs globs (some e) t id next h = tt

skip_missing-GoesOn :
    (t : Session) (after : Files) (path : Text) (e : Error) (k : ErrorType)
    → GoesOn t.globs after path (skip_missing t after e k)
unfolding skip_missing
skip_missing-GoesOn t after path e file_not_found = (refl, inl refl)
skip_missing-GoesOn t after path e not_specified = tt
skip_missing-GoesOn t after path e directory_not_found = tt
skip_missing-GoesOn t after path e win_file_removed = tt

module _ (os : Os) (accepts : ℕ → Bool) (w : System) where
  read_watched-KeepsGlobs :
      (t : Session) (ref : ℕ) (watched : Watched)
      → KeepsGlobs t.globs (read_watched os accepts w t ref watched)
  unfolding read_watched update
  read_watched-KeepsGlobs t ref watched =
      by_run
        (read_new_lines watched.handle.name (os.read_error w watched.handle) accepts
          (fuel_for watched.reader f) (length t.sent) watched.reader f)
        refl
    where
      f : File
      f = os.file_of w watched.handle

      by_run :
          (o : Option Output)
          → read_new_lines watched.handle.name
              (os.read_error w watched.handle)
              accepts
              (fuel_for watched.reader f)
              (length t.sent)
              watched.reader
              f
            ≡ o
          → KeepsGlobs t.globs (read_watched os accepts w t ref watched)
      by_run none e = rw (e, read_watched) tt
      by_run (some out) e = rw (e, read_watched) (any_result t.globs out.result _ refl)

  read_or_close-KeepsGlobs :
      (t : Session) (ref : ℕ) (watched : Watched)
      → KeepsGlobs t.globs (read_or_close os accepts w t ref watched)
  unfolding read_or_close
  read_or_close-KeepsGlobs t ref watched =
      by_outcome (read_watched os accepts w t ref watched) refl
        (read_watched-KeepsGlobs t ref watched)
    where
      by_outcome :
          (o : Outcome)
          → read_watched os accepts w t ref watched ≡ o
          → KeepsGlobs t.globs o
          → KeepsGlobs t.globs (read_or_close os accepts w t ref watched)
      by_outcome none e h = rw (e, read_or_close) tt
      by_outcome (some (some x, t')) e h = rw (e, read_or_close) tt
      by_outcome (some (none, t')) e h = rw (e, read_or_close) h

  follow_moved-KeepsGlobs :
      (t : Session) (ref : ℕ) (watched : Watched) (path : Text)
      → KeepsGlobs t.globs (follow_moved os accepts w t ref watched path)
  unfolding follow_moved
  follow_moved-KeepsGlobs t ref watched path = elim (Option-cases (os.dup_error w watched.handle)) [
    | inr (cause, e) ↦ rw (e, follow_moved) tt
    | inl e ↦
        rw (e, follow_moved)
          (if_watched-KeepsGlobs t.globs (os.watch_file w (renamed t watched path).handle) _ _ _
            (read_or_close-KeepsGlobs _ ref (renamed t watched path)))
  ]

  start_reading-KeepsGlobs :
      (readall : Bool) (t : Session) (path : Text) (file ref : ℕ)
      → KeepsGlobs t.globs (start_reading os accepts w readall t path file ref)
  unfolding start_reading
  start_reading-KeepsGlobs readall t path file ref =
      if_watched-KeepsGlobs t.globs
        (os.watch_file w (started os accepts w readall t path file).handle) _ _ _
        (read_or_close-KeepsGlobs _ ref _)

  seek_end-KeepsGlobs :
      (readall : Bool) (t : Session) (path : Text) (file ref : ℕ) (cause : Option Text)
      → KeepsGlobs t.globs (seek_end os accepts w readall t path file ref cause)
  unfolding seek_end
  seek_end-KeepsGlobs false t path file ref (some cause) = tt
  seek_end-KeepsGlobs false t path file ref none = start_reading-KeepsGlobs false t path file ref
  seek_end-KeepsGlobs true t path file ref (some cause) =
      start_reading-KeepsGlobs true t path file ref
  seek_end-KeepsGlobs true t path file ref none = start_reading-KeepsGlobs true t path file ref

  open_new-GoesOn :
      (readall : Bool) (t : Session) (after : Files) (path : Text)
      → GoesOn t.globs after path (open_new os accepts w readall t after path)
  unfolding open_new
  open_new-GoesOn readall t after path = by_answer (os.open_file w path) refl
    where
      by_answer :
          (o : Error ⊎ ℕ)
          → os.open_file w path ≡ o
          → GoesOn t.globs after path (open_new os accepts w readall t after path)
      by_answer (inl x) e = rw (e, open_new) (skip_missing-GoesOn t after path x x.error_type)
      by_answer (inr file) e =
          rw (e, open_new)
            (after_read-GoesOn t.globs after path (length t.heap) _ (
              seek_end-KeepsGlobs readall t path file (length t.heap)
                (os.seek_error w (new_handle t path file))))

  watched_already-GoesOn :
      (t : Session) (after : Files) (path : Text) (ref : ℕ)
      → GoesOn t.globs after path (watched_already os accepts w t after path ref)
  unfolding watched_already
  watched_already-GoesOn t after path ref = elim (Option-cases (get_elem? t.heap ref)) [
    | inl e ↦ rw (e, watched_already) (refl, inl refl)
    | inr (watched, e) ↦ elim (Bool-cases (text_eq watched.handle.name path)) [
      | inl same ↦ rw (e, watched_already) (rw same (refl, inr (ref, refl)))
      | inr other ↦
          rw (e, watched_already)
            (rw other (
              after_read-GoesOn t.globs after path ref _
                (follow_moved-KeepsGlobs t ref watched path)))
    ]
  ]

module _ (os : Os) (matches : Text → Text → Bool) (accepts : ℕ → Bool) (w : System) (d : Text)
    (readall : Bool) where
  -- What a turn that goes on has put into the files.
  abbrev pub EntryGoesOn :
      List Text → Files → FileInfo → Option ((Error ⊎ Files) × Session) → Type 0
  EntryGoesOn globs after info none = Unit
  EntryGoesOn globs after info (some (inl e, t)) = Unit
  EntryGoesOn globs after info (some (inr files, t)) =
      (t.globs ≡ globs)
      × ((files ≡ after)
          ⊎ ((info.is_dir ≡ false)
              × (any_glob_matches matches globs (os.join d info.name) ≡ true)
              × ((ref : ℕ) × (files ≡ put_file after (os.join d info.name) ref))))

  listed-GoesOn :
      (globs : List Text) (after : Files) (info : FileInfo) (o : Option ((Error ⊎ Files) × Session))
      → info.is_dir ≡ false
      → any_glob_matches matches globs (os.join d info.name) ≡ true
      → GoesOn globs after (os.join d info.name) o
      → EntryGoesOn globs after info o
  listed-GoesOn globs after info none f m h = tt
  listed-GoesOn globs after info (some (inl e, t)) f m h = tt
  listed-GoesOn globs after info (some (inr files, t)) f m (same, inl e) = (same, inl e)
  listed-GoesOn globs after info (some (inr files, t)) f m (same, inr put) = (same, inr (f, m, put))

  sync_matched-GoesOn :
      (is_dir : Bool) (t : Session) (after : Files) (info : FileInfo)
      → info.is_dir ≡ is_dir
      → any_glob_matches matches t.globs (os.join d info.name) ≡ true
      → EntryGoesOn t.globs after info
          (sync_matched os matches accepts w is_dir readall t after (os.join d info.name) info)
  unfolding sync_matched
  sync_matched-GoesOn true t after info f m = (refl, inl refl)
  sync_matched-GoesOn false t after info f m =
      by_found (os.same_file w t.heap t.watched_files info (os.join d info.name)) refl
    where
      by_found :
          (o : Error ⊎ Option ℕ)
          → os.same_file w t.heap t.watched_files info (os.join d info.name) ≡ o
          → EntryGoesOn t.globs after info
              (sync_matched os matches accepts w false readall t after (os.join d info.name) info)
      by_found (inl e) k = rw (k, sync_matched) tt
      by_found (inr (some ref)) k =
          rw (k, sync_matched)
            (listed-GoesOn t.globs after info _ f m
              (watched_already-GoesOn os accepts w t after (os.join d info.name) ref))
      by_found (inr none) k =
          rw (k, sync_matched)
            (listed-GoesOn t.globs after info _ f m
              (open_new-GoesOn os accepts w readall t after (os.join d info.name)))

  pub sync_entry-GoesOn :
      (t : Session) (after : Files) (info : FileInfo)
      → EntryGoesOn t.globs after info (sync_entry os matches accepts w d readall t after info)
  unfolding sync_entry
  sync_entry-GoesOn t after info =
      elim (Bool-cases (any_glob_matches matches t.globs (os.join d info.name))) [
        | inr other ↦ rw (other, sync_entry) (refl, inl refl)
        | inl m ↦ rw (m, sync_entry) (sync_matched-GoesOn info.is_dir t after info refl m)
      ]
