-- ===== src/FileTailer/Handles/Maps.antt =====
-- The heap and the map of watched files, seen as the handles and the pointers in them.
use go_libtail.Prelude.{
  ℕ, zero, suc, ◌≡◌, refl, sym, ap, ◌⊎◌, inl, inr, Bool, true, false, Bool-cases, Option, none,
  some, List, [], ◌∷◌, ◌++◌, arith, get_elem?, set, length, ◌==◌, ==_iff, if◌then◌else◌,
}
use go_libtail.Prelude.In.{In}
use go_libtail.Errors.{Text}
use go_libtail.FileTailer.Session.{Watched, text_eq, contains}
use go_libtail.FileTailer.Session.Contains.{text_eq-same}
use go_libtail.FileTailer.Sync.{Files, put_file, ids_removed, of_other_dirs}
use go_libtail.FileTailer.Os.{Os}

abbrev pub heap_ids : List Watched → List ℕ
heap_ids [] = []
heap_ids (watched ∷ heap) = watched.handle.id ∷ heap_ids heap

abbrev pub refs_of : Files → List ℕ
refs_of [] = []
refs_of ((path, ref) ∷ files) = ref ∷ refs_of files

abbrev pub paths_of : Files → List Text
paths_of [] = []
paths_of ((path, ref) ∷ files) = path ∷ paths_of files

pub get-heap_ids :
    (heap : List Watched) (i : ℕ) (watched : Watched)
    → get_elem? heap i ≡ some watched
    → get_elem? (heap_ids heap) i ≡ some watched.handle.id
get-heap_ids [] i watched e = absurd cc
get-heap_ids (x ∷ heap) zero watched e =
    let same : x ≡ watched = cc in ap (λ v. some v.handle.id) same
get-heap_ids (x ∷ heap) (suc i) watched e = get-heap_ids heap i watched e

pub heap_ids-get :
    (heap : List Watched) (i id : ℕ)
    → get_elem? (heap_ids heap) i ≡ some id
    → (watched : Watched) × (get_elem? heap i ≡ some watched) × (watched.handle.id ≡ id)
heap_ids-get [] i id e = absurd cc
heap_ids-get (x ∷ heap) zero id e = (x, refl, cc)
heap_ids-get (x ∷ heap) (suc i) id e = heap_ids-get heap i id e

pub heap_ids-set :
    (heap : List Watched) (i : ℕ) (watched : Watched)
    → heap_ids (set heap i watched) ≡ set (heap_ids heap) i watched.handle.id
heap_ids-set [] i watched = refl
heap_ids-set (x ∷ heap) zero watched = refl
heap_ids-set (x ∷ heap) (suc i) watched = ap (◌∷◌ x.handle.id) (heap_ids-set heap i watched)

pub heap_ids-append :
    (heap : List Watched) (watched : Watched)
    → heap_ids (heap ++ watched ∷ []) ≡ heap_ids heap ++ watched.handle.id ∷ []
heap_ids-append [] watched = refl
heap_ids-append (x ∷ heap) watched = ap (◌∷◌ x.handle.id) (heap_ids-append heap watched)

pub length-heap_ids : (heap : List Watched) → length (heap_ids heap) ≡ length heap
length-heap_ids [] = refl
length-heap_ids (x ∷ heap) = ap suc (length-heap_ids heap)

pub set_same : (ids : List ℕ) (i id : ℕ) → get_elem? ids i ≡ some id → set ids i id ≡ ids
set_same [] i id e = refl
set_same (x ∷ ids) zero id e = ap (λ y. y ∷ ids) (cc)
set_same (x ∷ ids) (suc i) id e = ap (◌∷◌ x) (set_same ids i id e)

-- A path that is not in the map comes behind the others.
pub put_file-new :
    (files : Files) (path : Text) (ref : ℕ)
    → ¬ In path (paths_of files)
    → put_file files path ref ≡ files ++ (path, ref) ∷ []
unfolding put_file
put_file-new [] path ref h = refl
put_file-new ((p, f) ∷ files) path ref h = elim (Bool-cases (text_eq p path)) [
  | inl same ↦ absurd (h (inl (sym (text_eq-same p path same))))
  | inr other ↦
      rw (other, put_file) (ap (◌∷◌ (p, f)) (put_file-new files path ref (λ m. h (inr m))))
]

pub refs_of-append : (files more : Files) → refs_of (files ++ more) ≡ refs_of files ++ refs_of more
refs_of-append [] more = refl
refs_of-append ((p, f) ∷ files) more = ap (◌∷◌ f) (refs_of-append files more)

pub paths_of-append :
    (files more : Files) → paths_of (files ++ more) ≡ paths_of files ++ paths_of more
paths_of-append [] more = refl
paths_of-append ((p, f) ∷ files) more = ap (◌∷◌ p) (paths_of-append files more)

pub of_other_dirs-refs :
    (os : Os) (d : Text) (files : Files) (i : ℕ)
    → In i (refs_of (of_other_dirs os d files))
    → In i (refs_of files)
unfolding of_other_dirs
of_other_dirs-refs os d [] i h = h
of_other_dirs-refs os d ((p, f) ∷ files) i h =
    by_test (text_eq (os.dir p) d) h (of_other_dirs-refs os d files i)
  where
    by_test :
        (b : Bool)
        → In i (refs_of (if b then of_other_dirs os d files else (p, f) ∷ of_other_dirs os d files))
        → (In i (refs_of (of_other_dirs os d files)) → In i (refs_of files))
        → In i (f ∷ refs_of files)
    by_test true m later = inr (later m)
    by_test false (inl e) later = inl e
    by_test false (inr m) later = inr (later m)

contains-In : (files : Files) (ref : ℕ) → contains files ref ≡ true → In ref (refs_of files)
unfolding contains
contains-In [] ref h = cc
contains-In ((p, f) ∷ files) ref h = elim (Bool-cases (f == ref)) [
  | inl same ↦ inl (sym ((==_iff f ref).0 same))
  | inr other ↦ inr (contains-In files ref (ground arith))
]

In-contains : (files : Files) (ref : ℕ) → In ref (refs_of files) → contains files ref ≡ true
unfolding contains
In-contains [] ref h = elim h [ ]
In-contains ((p, f) ∷ files) ref (inl e) = ground arith
In-contains ((p, f) ∷ files) ref (inr m) = ground (arith, In-contains files ref m)

-- The handles that are let go are those of the old files that are not in the new map.
pub ids_removed-from :
    (heap : List Watched) (after files : Files) (id : ℕ)
    → In id (ids_removed heap after files)
    → (i : ℕ) × (In i (refs_of files))
      × (¬ In i (refs_of after))
      × (get_elem? (heap_ids heap) i ≡ some id)
unfolding ids_removed
ids_removed-from heap after [] id h = elim h [ ]
ids_removed-from heap after ((p, ref) ∷ files) id h =
    by_test (contains after ref) refl (get_elem? heap ref) refl h
      (ids_removed-from heap after files id)
  where
    by_test :
        (b : Bool)
        → contains after ref ≡ b
        → (o : Option Watched) → get_elem? heap ref ≡ o
        → In id (
            if b then ids_removed heap after files else elim o [
              | none ↦ ids_removed heap after files
              | some watched ↦ watched.handle.id ∷ ids_removed heap after files
            ])
        → (In id (ids_removed heap after files)
            → (i : ℕ) × (In i (refs_of files))
              × (¬ In i (refs_of after))
              × (get_elem? (heap_ids heap) i ≡ some id))
        → (i : ℕ) × (In i (ref ∷ refs_of files))
          × (¬ In i (refs_of after))
          × (get_elem? (heap_ids heap) i ≡ some id)
    by_test true e o at m later = let (i, k, out, g) = later m in (i, inr k, out, g)
    by_test false e none at m later = let (i, k, out, g) = later m in (i, inr k, out, g)
    by_test false e (some watched) at (inr m) later =
        let (i, k, out, g) = later m in (i, inr k, out, g)
    by_test false e (some watched) at (inl same) later = (
      ref,
      inl refl,
      λ k. let yes_in = In-contains after ref k in absurd (cc),
      rw same (get-heap_ids heap ref watched at),
    )

pub ids_removed-covers :
    (heap : List Watched) (after files : Files) (i id : ℕ)
    → In i (refs_of files)
    → get_elem? (heap_ids heap) i ≡ some id
    → In i (refs_of after) ⊎ In id (ids_removed heap after files)
unfolding ids_removed
ids_removed-covers heap after [] i id h e = elim h [ ]
ids_removed-covers heap after ((p, ref) ∷ files) i id h e =
    by_test (contains after ref) refl (get_elem? heap ref) refl h
      (λ m. ids_removed-covers heap after files i id m e)
  where
    by_test :
        (b : Bool)
        → contains after ref ≡ b
        → (o : Option Watched) → get_elem? heap ref ≡ o
        → (i ≡ ref) ⊎ In i (refs_of files)
        → (In i (refs_of files) → In i (refs_of after) ⊎ In id (ids_removed heap after files))
        → In i (refs_of after)
          ⊎ In id (
              if b then ids_removed heap after files else elim o [
                | none ↦ ids_removed heap after files
                | some watched ↦ watched.handle.id ∷ ids_removed heap after files
              ])
    by_test true q o at (inr m) later = later m
    by_test true q o at (inl same) later = inl (rw same (contains-In after ref q))
    by_test false q none at (inr m) later = later m
    by_test false q none at (inl same) later =
        let (watched, found, is) = heap_ids-get heap i id e in
        let gone : get_elem? heap i ≡ none = rw same at in absurd cc
    by_test false q (some watched) at (inr m) later = elim (later m) [
      | inl k ↦ inl k
      | inr k ↦ inr (inr k)
    ]
    by_test false q (some watched) at (inl same) later =
        let here : get_elem? (heap_ids heap) i ≡ some watched.handle.id =
          rw same (get-heap_ids heap ref watched at) in
        inr (inl (cc))
