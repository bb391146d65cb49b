-- ===== src/FileTailer/Sync/Tracked/Listings.antt =====
-- The handles that syncFilesInDir opens and closes, where the system lists directories as documented.
use go_libtail.Prelude.{
  ℕ, ◌≡◌, refl, sym, subst, ◌⊎◌, inl, inr, Bool, true, false, Bool-cases, Option, none, some, List,
  [], ◌∷◌, get_elem?, ◌∙◌,
}
use go_libtail.Prelude.In.{In}
use go_libtail.Errors.{Text, Error}
use go_libtail.FileTailer.Session.{Watched, Session, FileInfo, System, text_eq}
use go_libtail.FileTailer.Os.{Os, find_same_file, same_file}
use go_libtail.FileTailer.Handles.Maps.{refs_of, paths_of}
use go_libtail.FileTailer.Sync.{Outcome, Files, of_other_dirs, sync_files_in_dir}
use go_libtail.FileTailer.Sync.Tracked.{Tracks}
use go_libtail.FileTailer.Sync.Tracked.Turns.{AreNew, FindsWatched}
use go_libtail.FileTailer.Sync.Tracked.Whole.{sync_files_in_dir-Tracks}

-- A directory lists each entry once, and each entry has its path in that directory.
abbrev pub AreIn : Os → Text → List FileInfo → Type 0
AreIn os d [] = Unit
AreIn os d (info ∷ infos) = (text_eq (os.dir (os.join d info.name)) d ≡ true) × AreIn os d infos

abbrev pub ListsOnce : Os → System → Type 0
ListsOnce os w =
    (d : Text) (infos : List FileInfo)
    → os.ls w d ≡ inr infos
    → AreNew os d [] infos × AreIn os d infos

-- The handles are accounted for, if the call returned nil.
abbrev pub StaysTracked : Outcome → Type 0
StaysTracked none = Unit
StaysTracked (some (some e, t)) = Unit
StaysTracked (some (none, t)) = Tracks t (refs_of t.watched_files)

-- The paths of other directories are no paths of entries.
AreNew-others :
    (os : Os) (d : Text) (infos : List FileInfo) (known more : List Text)
    → ((p : Text) → In p more → In p known ⊎ (text_eq (os.dir p) d ≡ false))
    → AreNew os d known infos
    → AreIn os d infos
    → AreNew os d more infos
AreNew-others os d [] known more f new here = tt
AreNew-others os d (info ∷ infos) known more f (first, new) (at, here) = (
  λ m. elim (f (os.join d info.name) m) [ inl k ↦ first k | inr other ↦ absurd (cc) ],
  AreNew-others os d infos (os.join d info.name ∷ known) (os.join d info.name ∷ more)
      (λ p m. elim m [
        | inl e ↦ inl (inl e)
        | inr k ↦ elim (f p k) [ inl j ↦ inl (inr j) | inr other ↦ inr other ]
      ])
      new here,
)

of_other_dirs-paths :
    (os : Os) (d : Text) (files : Files) (p : Text)
    → In p (paths_of (of_other_dirs os d files))
    → text_eq (os.dir p) d ≡ false
unfolding of_other_dirs
of_other_dirs-paths os d [] p h = elim h [ ]
of_other_dirs-paths os d ((q, f) ∷ files) p h = elim (Bool-cases (text_eq (os.dir q) d)) [
  | inl same ↦ of_other_dirs-paths os d files p (rw (same, of_other_dirs) at h)
  | inr other ↦ by_place other (rw (other, of_other_dirs) at h) (of_other_dirs-paths os d files p)
]
  where
    by_place :
        text_eq (os.dir q) d ≡ false
        → In p (q ∷ paths_of (of_other_dirs os d files))
        → (In p (paths_of (of_other_dirs os d files)) → text_eq (os.dir p) d ≡ false)
        → text_eq (os.dir p) d ≡ false
    by_place other (inl e) later = subst (λ x. text_eq (os.dir x) d ≡ false) (sym e) other
    by_place other (inr m) later = later m

pub sync_files_in_dir-StaysTracked :
    (os : Os) (matches : Text → Text → Bool) (accepts : ℕ → Bool) (w : System)
    → FindsWatched os w
    → ListsOnce os w
    → (d : Text) (readall : Bool) (t : Session) → Tracks t (refs_of t.watched_files)
    → StaysTracked (sync_files_in_dir os matches accepts w t d readall)
unfolding sync_files_in_dir
sync_files_in_dir-StaysTracked os matches accepts w finds lists d readall t h =
    by_listing (os.ls w d) refl
  where
    by_outcome :
        (infos : List FileInfo) (o : Outcome)
        → os.ls w d ≡ inr infos
        → sync_files_in_dir os matches accepts w t d readall ≡ o
        → StaysTracked o
    by_outcome infos none e runs = tt
    by_outcome infos (some (some x, t')) e runs = tt
    by_outcome infos (some (none, t')) e runs =
        let (new, here) = lists d infos e in
        sync_files_in_dir-Tracks os matches accepts w finds d readall t.watched_files t t' infos
          refl e
          (AreNew-others os d infos [] (paths_of (of_other_dirs os d t.watched_files))
            (λ p m. inr (of_other_dirs-paths os d t.watched_files p m)) new here)
          h runs

    by_listing :
        (o : Error ⊎ List FileInfo)
        → os.ls w d ≡ o
        → StaysTracked (sync_files_in_dir os matches accepts w t d readall)
    by_listing (inl x) e = rw (e, sync_files_in_dir) tt
    by_listing (inr infos) e =
        by_outcome infos (sync_files_in_dir os matches accepts w t d readall) e refl

pub find_same_file-FindsWatched :
    (w : System) (heap : List Watched) (files : Files) (info : FileInfo) (path : Text) (ref : ℕ)
    → find_same_file w heap files info path ≡ inr (some ref)
    → In ref (refs_of files)
unfolding find_same_file
find_same_file-FindsWatched w heap [] info path ref h = absurd (cc)
find_same_file-FindsWatched w heap ((p, r) ∷ files) info path ref h =
    by_place (get_elem? heap r) refl (find_same_file-FindsWatched w heap files info path ref)
  where
    by_test :
        (watched : Watched) (o : Error ⊎ Bool)
        → get_elem? heap r ≡ some watched
        → same_file w watched info.file ≡ o
        → (find_same_file w heap files info path ≡ inr (some ref) → In ref (refs_of files))
        → In ref (r ∷ refs_of files)
    by_test watched (inl x) at e later =
        let fails : find_same_file w heap ((p, r) ∷ files) info path ≡ inl x =
          rw (at, find_same_file) (rw e refl) in
        absurd (cc)
    by_test watched (inr true) at e later =
        let here : find_same_file w heap ((p, r) ∷ files) info path ≡ inr (some r) =
          rw (at, find_same_file) (rw e refl) in
        inl (cc)
    by_test watched (inr false) at e later =
        let rest : find_same_file w heap ((p, r) ∷ files) info path
            ≡ find_same_file w heap files info path =
          rw (at, find_same_file) (rw e refl) in
        inr (later (sym rest ∙ h))

    by_place :
        (o : Option Watched)
        → get_elem? heap r ≡ o
        → (find_same_file w heap files info path ≡ inr (some ref) → In ref (refs_of files))
        → In ref (r ∷ refs_of files)
    by_place none at later =
        let rest : find_same_file w heap ((p, r) ∷ files) info path
            ≡ find_same_file w heap files info path =
          rw (at, find_same_file) refl in
        inr (later (sym rest ∙ h))
    by_place (some watched) at later = by_test watched (same_file w watched info.file) at refl later
