-- ===== src/FileTailer/Handles.antt =====
-- The open files of a tailer, fswatcher.go: which handle belongs to which fileWithReader, and which
-- are closed. `ids` are the handles of the heap, `next` the first that was not given out, `refs`
-- the pointers that are watched.
pub mod Changes
pub mod Maps
use go_libtail.Prelude.{
  ℕ, zero, suc, ◌<◌, ◌≡◌, refl, sym, ◌∙◌, subst, ◌⊎◌, inl, inr, some, none, List, [], ◌∷◌, ◌++◌,
  arith, length, get_elem?, set, ◌≢◌, ap,
}
use go_libtail.Prelude.In.{In, In-append, In-append_left, In-append_right}

pub record IsTracked (ids : List ℕ) (next : ℕ) (closed refs : List ℕ) : Type 0 where
  pub fresh : (i id : ℕ) → get_elem? ids i ≡ some id → id < next
  pub distinct : (i j id : ℕ) → get_elem? ids i ≡ some id → get_elem? ids j ≡ some id → i ≡ j
  pub past : (id : ℕ) → In id closed → id < next
  -- No watched file has a closed handle.
  pub is_open : (i id : ℕ) → In i refs → get_elem? ids i ≡ some id → ¬ In id closed
  -- Every handle is closed, or that of a watched file.
  pub accounted :
      (id : ℕ) → id < next → In id closed ⊎ ((i : ℕ) × In i refs × (get_elem? ids i ≡ some id))

-- The same pointers in another order.
pub same_refs-IsTracked :
    (ids : List ℕ) (next : ℕ) (closed rs ss : List ℕ)
    → ((i : ℕ) → In i rs → In i ss)
    → ((i : ℕ) → In i ss → In i rs)
    → IsTracked ids next closed rs
    → IsTracked ids next closed ss
same_refs-IsTracked ids next closed rs ss f g h = record {
  fresh = h.fresh;
  distinct = h.distinct;
  past = h.past;
  is_open = λ i id m e. h.is_open i id (g i m) e;
  accounted =
      λ id lt. elim (h.accounted id lt) [ inl c ↦ inl c | inr (i, m, e) ↦ inr (i, f i m, e) ];
}

get-append_cases :
    (ids : List ℕ) (n i id : ℕ)
    → get_elem? (ids ++ n ∷ []) i ≡ some id
    → (get_elem? ids i ≡ some id) ⊎ ((i ≡ length ids) × (id ≡ n))
get-append_cases [] n zero id e = inr (refl, cc)
get-append_cases [] n (suc i) id e = absurd cc
get-append_cases (x ∷ ids) n zero id e = inl e
get-append_cases (x ∷ ids) n (suc i) id e = elim (get-append_cases ids n i id e) [
  | inl old ↦ inl old
  | inr (a, b) ↦ inr (ap suc a, b)
]

get-append_old :
    (ids : List ℕ) (n i id : ℕ) → get_elem? ids i ≡ some id → get_elem? (ids ++ n ∷ []) i ≡ some id
get-append_old [] n i id e = absurd cc
get-append_old (x ∷ ids) n zero id e = e
get-append_old (x ∷ ids) n (suc i) id e = get-append_old ids n i id e

pub get-append_new : (ids : List ℕ) (n : ℕ) → get_elem? (ids ++ n ∷ []) (length ids) ≡ some n
get-append_new [] n = refl
get-append_new (x ∷ ids) n = get-append_new ids n

get_lt : (ids : List ℕ) (i id : ℕ) → get_elem? ids i ≡ some id → i < length ids
get_lt [] i id e = absurd cc
get_lt (x ∷ ids) zero id e = omega arith
get_lt (x ∷ ids) (suc i) id e = omega (arith, get_lt ids i id e)

-- A file that was opened.
pub opened-IsTracked :
    (ids : List ℕ) (n : ℕ) (closed rs : List ℕ)
    → IsTracked ids n closed rs
    → IsTracked (ids ++ n ∷ []) (suc n) closed (length ids ∷ rs)
opened-IsTracked ids n closed rs h = record {
  fresh = λ i id e. elim (get-append_cases ids n i id e) [
    | inl old ↦ omega (arith, h.fresh i id old)
    | inr (a, b) ↦ omega arith
  ];
  distinct = λ i j id e f.
      by_places i j id (get-append_cases ids n i id e) (get-append_cases ids n j id f);
  past = λ id c. omega (arith, h.past id c);
  is_open = is_open;
  accounted = accounted;
}
  where
    by_places :
        (i j id : ℕ)
        → (get_elem? ids i ≡ some id) ⊎ ((i ≡ length ids) × (id ≡ n))
        → (get_elem? ids j ≡ some id) ⊎ ((j ≡ length ids) × (id ≡ n))
        → i ≡ j
    by_places i j id (inl e) (inl f) = h.distinct i j id e f
    by_places i j id (inl e) (inr (a, b)) = absurd (omega (arith, h.fresh i id e))
    by_places i j id (inr (a, b)) (inl f) = absurd (omega (arith, h.fresh j id f))
    by_places i j id (inr (a, b)) (inr (c, d)) = omega arith

    is_open :
        (i id : ℕ) → In i (length ids ∷ rs) → get_elem? (ids ++ n ∷ []) i ≡ some id → ¬ In id closed
    is_open i id m e c = elim (get-append_cases ids n i id e) [
      | inr (a, b) ↦ omega (arith, h.past id c)
      | inl old ↦ elim m [
        | inl top ↦ omega (arith, get_lt ids i id old)
        | inr below ↦ h.is_open i id below old c
      ]
    ]

    accounted :
        (id : ℕ)
        → id < suc n
        → In id closed
          ⊎ ((i : ℕ) × In i (length ids ∷ rs) × (get_elem? (ids ++ n ∷ []) i ≡ some id))
    accounted id lt = elim (is_old id lt) [
      | inr e ↦ inr (length ids, inl refl, get-append_new ids n ∙ ap some (sym e))
      | inl old ↦ elim (h.accounted id old) [
        | inl c ↦ inl c
        | inr (i, m, e) ↦ inr (i, inr m, get-append_old ids n i id e)
      ]
    ]
      where
        is_old : (id : ℕ) → id < suc n → (id < n) ⊎ (id ≡ n)
        is_old id lt = omega arith
