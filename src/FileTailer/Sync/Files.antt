-- ===== src/FileTailer/Sync/Files.antt =====
-- Which files syncFilesInDir watches.
use go_libtail.Prelude.{
  ℕ, zero, suc, ◌≡◌, refl, sym, ap, ◌∙◌, subst, ◌⊎◌, inl, inr, Bool, true, false, Option, none,
  some, List, [], ◌∷◌, get_elem?, if◌then◌else◌,
}
use go_libtail.Errors.{Text, Error}
use go_libtail.FileTailer.Os.{Os}
use go_libtail.FileTailer.Session.{Session, FileInfo, System, text_eq, any_glob_matches}
use go_libtail.FileTailer.Sync.{
  Outcome, Files, of_other_dirs, put_file, sync_entry, sync_entries, finish_sync, sync_files_in_dir,
}
use go_libtail.FileTailer.Sync.Turns.{EntryGoesOn, sync_entry-GoesOn}

abbrev watched_in : Outcome → Files
watched_in none = []
watched_in (some (r, t)) = t.watched_files

module _ (os : Os) (matches : Text → Text → Bool) (accepts : ℕ → Bool) (w : System) (d : Text)
    (readall : Bool) where
  -- The path is that of an entry that is no directory and that a glob matches.
  abbrev pub IsListed : List Text → List FileInfo → Text → Type 0
  IsListed globs infos path =
      (i : ℕ) × (info : FileInfo) × (get_elem? infos i ≡ some info)
      × (path ≡ os.join d info.name)
      × (info.is_dir ≡ false)
      × (any_glob_matches matches globs path ≡ true)

  abbrev pub IsIn : Files → Text → Type 0
  IsIn files path = (j : ℕ) × (ref : ℕ) × (get_elem? files j ≡ some (path, ref))

  -- Every file is one of `base` or of a listed entry.
  abbrev pub AreFrom : List Text → List FileInfo → Files → Files → Type 0
  AreFrom globs infos base files =
      (path : Text) → IsIn files path → IsIn base path ⊎ IsListed globs infos path

  put_file-IsIn :
      (files : Files) (path : Text) (ref : ℕ) (p : Text)
      → IsIn (put_file files path ref) p
      → IsIn files p ⊎ (p ≡ path)
  unfolding put_file
  put_file-IsIn [] path ref p (zero, r, at) = inr cc
  put_file-IsIn [] path ref p (suc j, r, at) = absurd cc
  put_file-IsIn ((q, f) ∷ files) path ref p (j, r, at) =
      by_test (text_eq q path) j at (put_file-IsIn files path ref p)
    where
      by_test :
          (b : Bool) (j : ℕ)
          → get_elem? (if b then (path, ref) ∷ files else (q, f) ∷ put_file files path ref) j
            ≡ some (p, r)
          → (IsIn (put_file files path ref) p → IsIn files p ⊎ (p ≡ path))
          → IsIn ((q, f) ∷ files) p ⊎ (p ≡ path)
      by_test true zero at later = inr cc
      by_test true (suc j) at later = inl (suc j, r, at)
      by_test false zero at later = inl (zero, r, at)
      by_test false (suc j) at later = elim (later (j, r, at)) [
        | inl (k, r', at') ↦ inl (suc k, r', at')
        | inr e ↦ inr e
      ]

  AreFrom-step :
      (globs : List Text) (info : FileInfo) (infos : List FileInfo) (after files last : Files)
      → ((files ≡ after)
          ⊎ ((info.is_dir ≡ false)
              × (any_glob_matches matches globs (os.join d info.name) ≡ true)
              × ((ref : ℕ) × (files ≡ put_file after (os.join d info.name) ref))))
      → AreFrom globs infos files last
      → AreFrom globs (info ∷ infos) after last
  AreFrom-step globs info infos after files last step later path there = elim (later path there) [
    | inr (i, found, at, p, f, m) ↦ inr (suc i, found, at, p, f, m)
    | inl kept ↦ by_step step kept
  ]
    where
      by_step :
          ((files ≡ after)
            ⊎ ((info.is_dir ≡ false)
                × (any_glob_matches matches globs (os.join d info.name) ≡ true)
                × ((ref : ℕ) × (files ≡ put_file after (os.join d info.name) ref))))
          → IsIn files path
          → IsIn after path ⊎ IsListed globs (info ∷ infos) path
      by_step (inl same) kept = inl (subst (λ l. IsIn l path) same kept)
      by_step (inr (f, m, (ref, put))) kept =
          elim (put_file-IsIn after (os.join d info.name) ref path
            (subst (λ l. IsIn l path) put kept)) [
              | inl old ↦ inl old
              | inr new ↦ inr (
                0,
                info,
                refl,
                new,
                f,
                subst (λ p. any_glob_matches matches globs p ≡ true) (sym new) m,
              )
            ]

  abbrev EntriesGoOn :
      List Text → List FileInfo → Files → Option ((Error ⊎ Files) × Session) → Type 0
  EntriesGoOn globs infos after none = Unit
  EntriesGoOn globs infos after (some (inl e, t)) = Unit
  EntriesGoOn globs infos after (some (inr files, t)) = AreFrom globs infos after files

  sync_entries-GoOn :
      (infos : List FileInfo) (t : Session) (after : Files)
      → EntriesGoOn t.globs infos after (sync_entries os matches accepts w d readall t after infos)
  unfolding sync_entries
  sync_entries-GoOn [] t after = λ path h. inl h
  sync_entries-GoOn (info ∷ infos) t after =
      by_entry (sync_entry os matches accepts w d readall t after info) refl
        (sync_entry-GoesOn os matches accepts w d readall t after info)
        (λ t' files. sync_entries-GoOn infos t' files)
    where
      by_rest :
          (t' : Session) (files : Files) (o : Option ((Error ⊎ Files) × Session))
          → t'.globs ≡ t.globs
          → ((files ≡ after)
              ⊎ ((info.is_dir ≡ false)
                  × (any_glob_matches matches t.globs (os.join d info.name) ≡ true)
                  × ((ref : ℕ) × (files ≡ put_file after (os.join d info.name) ref))))
          → EntriesGoOn t'.globs infos files o
          → EntriesGoOn t.globs (info ∷ infos) after o
      by_rest t' files none g step h = tt
      by_rest t' files (some (inl e, t'')) g step h = tt
      by_rest t' files (some (inr last, t'')) g step h =
          AreFrom-step t.globs info infos after files last step
            (subst (λ gs. AreFrom gs infos files last) g h)

      by_entry :
          (o : Option ((Error ⊎ Files) × Session))
          → sync_entry os matches accepts w d readall t after info ≡ o
          → EntryGoesOn os matches accepts w d readall t.globs after info o
          → ((t' : Session) (files : Files)
              → EntriesGoOn t'.globs infos files
                  (sync_entries os matches accepts w d readall t' files infos))
          → EntriesGoOn t.globs
              (info ∷ infos)
              after
              (sync_entries os matches accepts w d readall t after (info ∷ infos))
      by_entry none e h later = rw (e, sync_entries) tt
      by_entry (some (inl x, t')) e h later = rw (e, sync_entries) tt
      by_entry (some (inr files, t')) e h later =
          rw (e, sync_entries) (by_rest t' files _ h.0 h.1 (later t' files))

  of_other_dirs-IsIn :
      (files : Files) (path : Text)
      → IsIn (of_other_dirs os d files) path
      → IsIn files path × (text_eq (os.dir path) d ≡ false)
  unfolding of_other_dirs
  of_other_dirs-IsIn [] path (j, ref, at) = absurd cc
  of_other_dirs-IsIn ((p, f) ∷ files) path (j, ref, at) =
      by_test (text_eq (os.dir p) d) refl j at (of_other_dirs-IsIn files path)
    where
      by_test :
          (b : Bool)
          → text_eq (os.dir p) d ≡ b
          → (j : ℕ)
          → get_elem? (if b then of_other_dirs os d files else (p, f) ∷ of_other_dirs os d files) j
            ≡ some (path, ref)
          → (IsIn (of_other_dirs os d files) path
              → IsIn files path × (text_eq (os.dir path) d ≡ false))
          → IsIn ((p, f) ∷ files) path × (text_eq (os.dir path) d ≡ false)
      by_test true e j at later =
          let ((k, r, found), o) = later (j, ref, at) in ((suc k, r, found), o)
      by_test false e zero at later =
          let same : p ≡ path = cc in
          ((0, ref, at), subst (λ p. text_eq (os.dir p) d ≡ false) same e)
      by_test false e (suc j) at later =
          let ((k, r, found), o) = later (j, ref, at) in ((suc k, r, found), o)

  -- When syncFilesInDir returns nil, a path that is watched was watched before and is of another
  -- directory, or it is that of an entry which the directory lists, which is no directory, and
  -- which one of the globs matches.
  pub sync_files_in_dir-IsListed :
      (t t' : Session) (infos : List FileInfo)
      → os.ls w d ≡ inr infos
      → sync_files_in_dir os matches accepts w t d readall ≡ some (none, t')
      → (path : Text) → IsIn t'.watched_files path
      → (IsIn t.watched_files path × (text_eq (os.dir path) d ≡ false))
        ⊎ IsListed t.globs infos path
  unfolding sync_files_in_dir finish_sync
  sync_files_in_dir-IsListed t t' infos lists runs path there =
      by_entries
        (sync_entries os matches accepts w d readall t (of_other_dirs os d t.watched_files) infos)
        (sync_entries-GoOn infos t (of_other_dirs os d t.watched_files))
        (sym (rw (lists, sync_files_in_dir) refl) ∙ runs)
    where
      by_entries :
          (o : Option ((Error ⊎ Files) × Session))
          → EntriesGoOn t.globs infos (of_other_dirs os d t.watched_files) o
          → finish_sync o ≡ some (none, t')
          → (IsIn t.watched_files path × (text_eq (os.dir path) d ≡ false))
            ⊎ IsListed t.globs infos path
      by_entries none h e = cc
      by_entries (some (inl x, t'')) h e = cc
      by_entries (some (inr files, t'')) h e =
          let same : files ≡ t'.watched_files = ap watched_in e in
          elim (h path (subst (λ l. IsIn l path) (sym same) there)) [
            | inl old ↦ inl (of_other_dirs-IsIn t.watched_files path old)
            | inr new ↦ inr new
          ]
