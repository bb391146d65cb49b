-- ===== src/FileTailer/Sync/Covers/Whole.antt =====
-- Which files syncFilesInDir leaves unwatched: the whole loop, on Linux.
use go_libtail.Prelude.{
  ℕ, ◌≡◌, refl, sym, ap, ◌∙◌, subst, ◌⊎◌, inl, inr, Bool, true, false, Bool-cases, Option, none,
  some, List, [], ◌∷◌, get_elem?,
}
use go_libtail.Prelude.In.{In}
use go_libtail.Errors.{Text, Error}
use go_libtail.FileTailer.Os.{Os, linux, find_same_file, same_file}
use go_libtail.FileTailer.Session.{Watched, Session, FileInfo, System, text_eq, any_glob_matches}
use go_libtail.FileTailer.Handles.Maps.{paths_of}
use go_libtail.FileTailer.Sync.{
  Outcome, Files, of_other_dirs, sync_entry, sync_entries, finish_sync, sync_files_in_dir,
}
use go_libtail.FileTailer.Sync.Turns.{EntryGoesOn, sync_entry-GoesOn}
use go_libtail.FileTailer.Sync.Covers.{
  FindsHeld, IsMissing, Keeps, EntryCovers, sync_entry-EntryCovers,
}

find_same_file-FindsHeld :
    (w : System) (heap : List Watched) (files : Files) (info : FileInfo) (path : Text) (ref : ℕ)
    → find_same_file w heap files info path ≡ inr (some ref)
    → (watched : Watched) × (get_elem? heap ref ≡ some watched)
unfolding find_same_file
find_same_file-FindsHeld w heap [] info path ref h = absurd (cc)
find_same_file-FindsHeld w heap ((p, r) ∷ files) info path ref h =
    by_place (get_elem? heap r) refl (find_same_file-FindsHeld w heap files info path ref)
  where
    by_test :
        (watched : Watched) (o : Error ⊎ Bool)
        → get_elem? heap r ≡ some watched
        → same_file w watched info.file ≡ o
        → (find_same_file w heap files info path ≡ inr (some ref)
            → (held : Watched) × (get_elem? heap ref ≡ some held))
        → (held : Watched) × (get_elem? heap ref ≡ some held)
    by_test watched (inl x) at e later =
        let fails : find_same_file w heap ((p, r) ∷ files) info path ≡ inl x =
          rw (at, find_same_file) (rw e refl) in
        absurd (cc)
    by_test watched (inr true) at e later =
        let found : find_same_file w heap ((p, r) ∷ files) info path ≡ inr (some r) =
          rw (at, find_same_file) (rw e refl) in
        let here : r ≡ ref = cc in (watched, subst (λ i. get_elem? heap i ≡ some watched) here at)
    by_test watched (inr false) at e later =
        let rest : find_same_file w heap ((p, r) ∷ files) info path
            ≡ find_same_file w heap files info path =
          rw (at, find_same_file) (rw e refl) in
        later (sym rest ∙ h)

    by_place :
        (o : Option Watched)
        → get_elem? heap r ≡ o
        → (find_same_file w heap files info path ≡ inr (some ref)
            → (held : Watched) × (get_elem? heap ref ≡ some held))
        → (held : Watched) × (get_elem? heap ref ≡ some held)
    by_place none at later =
        let rest : find_same_file w heap ((p, r) ∷ files) info path
            ≡ find_same_file w heap files info path =
          rw (at, find_same_file) refl in
        later (sym rest ∙ h)
    by_place (some watched) at later = by_test watched (same_file w watched info.file) at refl later

of_other_dirs-In :
    (os : Os) (d : Text) (files : Files) (p : Text)
    → In p (paths_of files)
    → text_eq (os.dir p) d ≡ false
    → In p (paths_of (of_other_dirs os d files))
unfolding of_other_dirs
of_other_dirs-In os d [] p h o = h
of_other_dirs-In os d ((q, f) ∷ files) p h o = elim (Bool-cases (text_eq (os.dir q) d)) [
  | inl here ↦ rw (here, of_other_dirs) (passed here h (λ m. of_other_dirs-In os d files p m o))
  | inr other ↦ rw (other, of_other_dirs) (kept h (λ m. of_other_dirs-In os d files p m o))
]
  where
    passed :
        text_eq (os.dir q) d ≡ true
        → (p ≡ q) ⊎ In p (paths_of files)
        → (In p (paths_of files) → In p (paths_of (of_other_dirs os d files)))
        → In p (paths_of (of_other_dirs os d files))
    passed here (inl same) later = let not_here = ap (λ x. text_eq (os.dir x) d) same in absurd (cc)
    passed here (inr m) later = later m

    kept :
        (p ≡ q) ⊎ In p (paths_of files)
        → (In p (paths_of files) → In p (paths_of (of_other_dirs os d files)))
        → (p ≡ q) ⊎ In p (paths_of (of_other_dirs os d files))
    kept (inl same) later = inl same
    kept (inr m) later = inr (later m)

module _ (os : Os) (matches : Text → Text → Bool) (accepts : ℕ → Bool) (w : System)
    (holds : FindsHeld os w) (d : Text) (readall : Bool) where
  -- The files are kept, and the path of every entry that is to be watched is one of them or is gone.
  abbrev AllCover : List Text → Files → List FileInfo → Option ((Error ⊎ Files) × Session) → Type 0
  AllCover globs after infos none = Unit
  AllCover globs after infos (some (inl e, t)) = Unit
  AllCover globs after infos (some (inr files, t)) =
      Keeps after files
      × ((info : FileInfo)
          → In info infos
          → info.is_dir ≡ false
          → any_glob_matches matches globs (os.join d info.name) ≡ true
          → In (os.join d info.name) (paths_of files) ⊎ IsMissing os w (os.join d info.name))

  kept_or_gone :
      (p : Text) (files last : Files)
      → Keeps files last
      → In p (paths_of files) ⊎ IsMissing os w p
      → In p (paths_of last) ⊎ IsMissing os w p
  kept_or_gone p files last keeps (inl m) = inl (keeps p m)
  kept_or_gone p files last keeps (inr gone) = inr gone

  sync_entries-AllCover :
      (infos : List FileInfo) (t : Session) (after : Files)
      → AllCover t.globs after infos (sync_entries os matches accepts w d readall t after infos)
  unfolding sync_entries
  sync_entries-AllCover [] t after = ((λ p h. h), (λ info m. absurd m))
  sync_entries-AllCover (info ∷ infos) t after =
      by_entry (sync_entry os matches accepts w d readall t after info) refl
        (sync_entry-GoesOn os matches accepts w d readall t after info)
        (sync_entry-EntryCovers os matches accepts w holds d readall t after info)
        (λ t' files. sync_entries-AllCover infos t' files)
    where
      by_rest :
          (t' : Session) (files : Files) (o : Option ((Error ⊎ Files) × Session))
          → t'.globs ≡ t.globs
          → EntryCovers os matches accepts w holds d readall t.globs after info
              (some (inr files, t'))
          → AllCover t'.globs files infos o
          → AllCover t.globs after (info ∷ infos) o
      by_rest t' files none g h later = tt
      by_rest t' files (some (inl e, t'')) g h later = tt
      by_rest t' files (some (inr last, t'')) g h later = (
        λ p m. later.0 p (h.0 p m),
        λ i m f k. elim m [
          | inl same ↦ kept_or_gone (os.join d i.name) files last later.0 (
              subst
                (λ x.
                  x.is_dir ≡ false
                  → any_glob_matches matches t.globs (os.join d x.name) ≡ true
                  → In (os.join d x.name) (paths_of files) ⊎ IsMissing os w (os.join d x.name))
                (sym same) h.1 f k)
          | inr rest ↦
              later.1 i rest f
                (subst (λ gs. any_glob_matches matches gs (os.join d i.name) ≡ true) (sym g) k)
        ],
      )

      by_entry :
          (o : Option ((Error ⊎ Files) × Session))
          → sync_entry os matches accepts w d readall t after info ≡ o
          → EntryGoesOn os matches accepts w d readall t.globs after info o
          → EntryCovers os matches accepts w holds d readall t.globs after info o
          → ((t' : Session) (files : Files)
              → AllCover t'.globs files infos
                  (sync_entries os matches accepts w d readall t' files infos))
          → AllCover t.globs after
              (info ∷ infos)
              (sync_entries os matches accepts w d readall t after (info ∷ infos))
      by_entry none e g h later = rw (e, sync_entries) tt
      by_entry (some (inl x, t')) e g h later = rw (e, sync_entries) tt
      by_entry (some (inr files, t')) e g h later =
          rw (e, sync_entries) (by_rest t' files _ g.0 h (later t' files))

abbrev watched_in : Outcome → Files
watched_in none = []
watched_in (some (r, t)) = t.watched_files

-- What is to be watched: the files of other directories that were, and the entries of this one that
-- are no directories and that a glob matches.
abbrev pub IsDue : (Text → Text → Bool) → Text → Session → List FileInfo → Text → Type 0
IsDue matches d t infos path =
    (In path (paths_of t.watched_files) × (text_eq (linux.dir path) d ≡ false))
    ⊎ ((info : FileInfo) × In info infos
        × (path ≡ linux.join d info.name)
        × (info.is_dir ≡ false)
        × (any_glob_matches matches t.globs path ≡ true))

module _ (matches : Text → Text → Bool) (accepts : ℕ → Bool) (w : System) (d : Text)
    (readall : Bool) where
  -- When syncFilesInDir returns nil on Linux, all that is to be watched is: the files of other
  -- directories that were watched before, and of the directory's entries every one that is no
  -- directory and that one of the globs matches, unless it was gone when it was opened.
  pub sync_files_in_dir-IsDue :
      (t t' : Session) (infos : List FileInfo)
      → linux.ls w d ≡ inr infos
      → sync_files_in_dir linux matches accepts w t d readall ≡ some (none, t')
      → (path : Text) → IsDue matches d t infos path
      → In path (paths_of t'.watched_files) ⊎ IsMissing linux w path
  unfolding sync_files_in_dir finish_sync
  sync_files_in_dir-IsDue t t' infos lists runs path due =
      by_entries
        (sync_entries linux matches accepts w d readall t (of_other_dirs linux d t.watched_files)
          infos)
        (sync_entries-AllCover linux matches accepts w (find_same_file-FindsHeld w) d readall infos
          t (of_other_dirs linux d t.watched_files))
        (sym (rw (lists, sync_files_in_dir) refl) ∙ runs)
    where
      in_files :
          (files : Files) (t'' : Session)
          → AllCover linux matches accepts w
              (find_same_file-FindsHeld w)
              d
              readall
              t.globs
              (of_other_dirs linux d t.watched_files)
              infos
              (some (inr files, t''))
          → IsDue matches d t infos path
          → In path (paths_of files) ⊎ IsMissing linux w path
      in_files files t'' h (inl (m, other)) =
          inl (h.0 path (of_other_dirs-In linux d t.watched_files path m other))
      in_files files t'' h (inr (info, m, named, f, k)) =
          subst (λ p. In p (paths_of files) ⊎ IsMissing linux w p) (sym named)
            (h.1 info m f (subst (λ p. any_glob_matches matches t.globs p ≡ true) named k))

      by_entries :
          (o : Option ((Error ⊎ Files) × Session))
          → AllCover linux matches accepts w
              (find_same_file-FindsHeld w)
              d
              readall
              t.globs
              (of_other_dirs linux d t.watched_files)
              infos
              o
          → finish_sync o ≡ some (none, t')
          → In path (paths_of t'.watched_files) ⊎ IsMissing linux w path
      by_entries none h e = absurd (cc)
      by_entries (some (inl x, t'')) h e = absurd (cc)
      by_entries (some (inr files, t'')) h e =
          let same : files ≡ t'.watched_files = ap watched_in e in
          subst (λ l. In path (paths_of l) ⊎ IsMissing linux w path) same (in_files files t'' h due)
