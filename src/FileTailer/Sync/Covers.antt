-- ===== src/FileTailer/Sync/Covers.antt =====
-- Which files syncFilesInDir leaves unwatched: what one turn of the loop keeps and adds.
pub mod Whole
use go_libtail.Prelude.{
  ℕ, zero, suc, ◌≡◌, refl, sym, ap, ◌∙◌, subst, ◌⊎◌, inl, inr, Bool, true, false, Bool-cases,
  Option, none, some, Option-cases, List, [], ◌∷◌, get_elem?, length, if◌then◌else◌,
}
use go_libtail.Prelude.In.{In}
use go_libtail.Errors.{
  Text, Error, ErrorType, not_specified, directory_not_found, file_not_found, win_file_removed,
}
use go_libtail.FileTailer.Os.{Os, find_same_file, same_file}
use go_libtail.FileTailer.Session.{
  Watched, Session, FileInfo, System, text_eq, any_glob_matches, Handle,
}
use go_libtail.FileTailer.Session.Contains.{text_eq-same}
use go_libtail.FileTailer.Handles.Maps.{paths_of}
use go_libtail.FileTailer.Sync.{
  Outcome, Files, put_file, after_read, skip_missing, open_new, watched_already, sync_matched,
  sync_entry, follow_moved, seek_end, new_handle,
}

-- findSameFile finds none but files that are there.
abbrev pub FindsHeld : Os → System → Type 0
FindsHeld os w =
    (heap : List Watched) (files : Files) (info : FileInfo) (path : Text) (ref : ℕ)
    → os.same_file w heap files info path ≡ inr (some ref)
    → (watched : Watched) × (get_elem? heap ref ≡ some watched)

-- The file is gone when it is opened.
abbrev pub IsMissing : Os → System → Text → Type 0
IsMissing os w path = (e : Error) × (os.open_file w path ≡ inl e) × (e.error_type ≡ file_not_found)

-- What was in the files stays in them.
abbrev pub Keeps : Files → Files → Type 0
Keeps after files = (p : Text) → In p (paths_of after) → In p (paths_of files)

put_file-In : (files : Files) (path : Text) (ref : ℕ) → In path (paths_of (put_file files path ref))
unfolding put_file
put_file-In [] path ref = inl refl
put_file-In ((p, f) ∷ files) path ref = elim (Bool-cases (text_eq p path)) [
  | inl same ↦ rw (same, put_file) (inl refl)
  | inr other ↦ rw (other, put_file) (inr (put_file-In files path ref))
]

put_file-Keeps : (files : Files) (path : Text) (ref : ℕ) → Keeps files (put_file files path ref)
unfolding put_file
put_file-Keeps [] path ref p h = absurd h
put_file-Keeps ((q, f) ∷ files) path ref p h = elim (Bool-cases (text_eq q path)) [
  | inl same ↦ rw (same, put_file) (by_place (text_eq-same q path same) h)
  | inr other ↦ rw (other, put_file) (passed h (put_file-Keeps files path ref p))
]
  where
    by_place : q ≡ path → (p ≡ q) ⊎ In p (paths_of files) → (p ≡ path) ⊎ In p (paths_of files)
    by_place e (inl here) = inl (here ∙ e)
    by_place e (inr m) = inr m

    passed :
        (p ≡ q) ⊎ In p (paths_of files)
        → (In p (paths_of files) → In p (paths_of (put_file files path ref)))
        → (p ≡ q) ⊎ In p (paths_of (put_file files path ref))
    passed (inl here) later = inl here
    passed (inr m) later = inr (later m)

module _ (os : Os) (w : System) where
  -- A turn that goes on keeps the files, and this path is one of them or is gone.
  abbrev Covers : Files → Text → Option ((Error ⊎ Files) × Session) → Type 0
  Covers after path none = Unit
  Covers after path (some (inl e, t)) = Unit
  Covers after path (some (inr files, t)) =
      Keeps after files × (In path (paths_of files) ⊎ IsMissing os w path)

  after_read-Covers :
      (after : Files) (path : Text) (ref : ℕ) (o : Outcome)
      → Covers after path (after_read after path ref o)
  unfolding after_read
  after_read-Covers after path ref none = tt
  after_read-Covers after path ref (some (some e, t)) = tt
  after_read-Covers after path ref (some (none, t)) =
      (put_file-Keeps after path ref, inl (put_file-In after path ref))

  skip_missing-Covers :
      (t : Session) (after : Files) (path : Text) (e : Error) (k : ErrorType)
      → os.open_file w path ≡ inl e
      → e.error_type ≡ k
      → Covers after path (skip_missing t after e k)
  unfolding skip_missing
  skip_missing-Covers t after path e file_not_found fails is = ((λ p h. h), inr (e, fails, is))
  skip_missing-Covers t after path e not_specified fails is = tt
  skip_missing-Covers t after path e directory_not_found fails is = tt
  skip_missing-Covers t after path e win_file_removed fails is = tt

  module _ (accepts : ℕ → Bool) where
    open_new-Covers :
        (readall : Bool) (t : Session) (after : Files) (path : Text)
        → Covers after path (open_new os accepts w readall t after path)
    unfolding open_new
    open_new-Covers readall t after path = by_answer (os.open_file w path) refl
      where
        by_answer :
            (o : Error ⊎ ℕ)
            → os.open_file w path ≡ o
            → Covers after path (open_new os accepts w readall t after path)
        by_answer (inl x) e =
            rw (e, open_new) (skip_missing-Covers t after path x x.error_type e refl)
        by_answer (inr file) e = rw (e, open_new) (after_read-Covers after path (length t.heap) _)

    watched_already-Covers :
        (t : Session) (after : Files) (path : Text) (ref : ℕ) (watched : Watched)
        → get_elem? t.heap ref ≡ some watched
        → Covers after path (watched_already os accepts w t after path ref)
    unfolding watched_already
    watched_already-Covers t after path ref watched e =
        elim (Bool-cases (text_eq watched.handle.name path)) [
          | inl same ↦
              rw (e, watched_already)
                (rw same (put_file-Keeps after path ref, inl (put_file-In after path ref)))
          | inr other ↦ rw (e, watched_already) (rw other (after_read-Covers after path ref _))
        ]

module _ (os : Os) (matches : Text → Text → Bool) (accepts : ℕ → Bool) (w : System)
    (holds : FindsHeld os w) (d : Text) (readall : Bool) where
  -- A turn that goes on keeps the files, and where the entry is to be watched its path is one of
  -- them or is gone.
  abbrev pub EntryCovers :
      List Text → Files → FileInfo → Option ((Error ⊎ Files) × Session) → Type 0
  EntryCovers globs after info none = Unit
  EntryCovers globs after info (some (inl e, t)) = Unit
  EntryCovers globs after info (some (inr files, t)) =
      Keeps after files
      × (info.is_dir ≡ false
          → any_glob_matches matches globs (os.join d info.name) ≡ true
          → In (os.join d info.name) (paths_of files) ⊎ IsMissing os w (os.join d info.name))

  covered :
      (globs : List Text) (after : Files) (info : FileInfo) (o : Option ((Error ⊎ Files) × Session))
      → Covers os w after (os.join d info.name) o
      → EntryCovers globs after info o
  covered globs after info none h = tt
  covered globs after info (some (inl e, t)) h = tt
  covered globs after info (some (inr files, t)) h = (h.0, (λ f m. h.1))

  sync_matched-EntryCovers :
      (is_dir : Bool) (globs : List Text) (t : Session) (after : Files) (info : FileInfo)
      → info.is_dir ≡ is_dir
      → EntryCovers globs after info
          (sync_matched os matches accepts w is_dir readall t after (os.join d info.name) info)
  unfolding sync_matched
  sync_matched-EntryCovers true globs t after info f = ((λ p h. h), (λ g m. absurd (cc)))
  sync_matched-EntryCovers false globs t after info f =
      by_found (os.same_file w t.heap t.watched_files info (os.join d info.name)) refl
    where
      by_found :
          (o : Error ⊎ Option ℕ)
          → os.same_file w t.heap t.watched_files info (os.join d info.name) ≡ o
          → EntryCovers globs after info
              (sync_matched os matches accepts w false readall t after (os.join d info.name) info)
      by_found (inl e) k = rw (k, sync_matched) tt
      by_found (inr (some ref)) k =
          let (watched, at) = holds t.heap t.watched_files info (os.join d info.name) ref k in
          rw (k, sync_matched)
            (covered globs after info _
              (watched_already-Covers os w accepts t after (os.join d info.name) ref watched at))
      by_found (inr none) k =
          rw (k, sync_matched)
            (covered globs after info _
              (open_new-Covers os w accepts readall t after (os.join d info.name)))

  pub sync_entry-EntryCovers :
      (t : Session) (after : Files) (info : FileInfo)
      → EntryCovers t.globs after info (sync_entry os matches accepts w d readall t after info)
  unfolding sync_entry
  sync_entry-EntryCovers t after info =
      elim (Bool-cases (any_glob_matches matches t.globs (os.join d info.name))) [
        | inr other ↦ rw (other, sync_entry) ((λ p h. h), (λ g m. absurd (cc)))
        | inl m ↦
            rw (m, sync_entry) (sync_matched-EntryCovers info.is_dir t.globs t after info refl)
      ]
