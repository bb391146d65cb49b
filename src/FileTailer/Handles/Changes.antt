-- ===== src/FileTailer/Handles/Changes.antt =====
-- A handle that takes the place of another, and the handles closed at the end of syncFilesInDir.
use go_libtail.Prelude.{
  ℕ, zero, suc, ◌<◌, ◌≡◌, ◌≢◌, refl, sym, ap, ◌∙◌, ◌⊎◌, inl, inr, some, List, [], ◌∷◌, ◌++◌, arith,
  get_elem?, set,
}
use go_libtail.Prelude.In.{In, In-append, In-append_left, In-append_right}
use go_libtail.FileTailer.Handles.{IsTracked}

pub get-set_self :
    (ids : List ℕ) (i old n : ℕ) → get_elem? ids i ≡ some old → get_elem? (set ids i n) i ≡ some n
get-set_self [] i old n e = absurd cc
get-set_self (x ∷ ids) zero old n e = refl
get-set_self (x ∷ ids) (suc i) old n e = get-set_self ids i old n e

get-set_other : (ids : List ℕ) (i j n : ℕ) → i ≢ j → get_elem? (set ids i n) j ≡ get_elem? ids j
get-set_other [] i j n h = refl
get-set_other (x ∷ ids) zero zero n h = absurd (h refl)
get-set_other (x ∷ ids) zero (suc j) n h = refl
get-set_other (x ∷ ids) (suc i) zero n h = refl
get-set_other (x ∷ ids) (suc i) (suc j) n h = get-set_other ids i j n (λ e. h (ap suc e))

eq_or_ne : (i j : ℕ) → (i ≡ j) ⊎ (i ≢ j)
eq_or_ne zero zero = inl refl
eq_or_ne zero (suc j) = inr (λ e. omega arith)
eq_or_ne (suc i) zero = inr (λ e. omega arith)
eq_or_ne (suc i) (suc j) = elim (eq_or_ne i j) [
  | inl e ↦ inl (ap suc e)
  | inr ne ↦ inr (λ e. ne (omega arith))
]

module _ (ids : List ℕ) (n : ℕ) (closed rs : List ℕ) (h : IsTracked ids n closed rs) where
  module _ (ref old : ℕ) (there : In ref rs) (has : get_elem? ids ref ≡ some old) where
    -- Where the new handle stands, and where the others do.
    after_set :
        (i id : ℕ)
        → get_elem? (set ids ref n) i ≡ some id
        → ((i ≡ ref) × (id ≡ n)) ⊎ ((i ≢ ref) × (get_elem? ids i ≡ some id))
    after_set i id e = elim (eq_or_ne ref i) [
      | inl same ↦ inl (sym same, by_place i same e)
      | inr ne ↦ inr (λ q. ne (sym q), sym (get-set_other ids ref i n ne) ∙ e)
    ]
      where
        by_place : (i : ℕ) → ref ≡ i → get_elem? (set ids ref n) i ≡ some id → id ≡ n
        by_place i same e =
            let now : get_elem? (set ids ref n) i ≡ some n =
              rw (← same) (get-set_self ids ref old n has) in
            cc

    -- The file gets a new handle, and its old one is closed.
    pub moved-IsTracked : IsTracked (set ids ref n) (suc n) (closed ++ old ∷ []) rs
    moved-IsTracked = record {
      fresh = λ i id e. elim (after_set i id e) [
        | inl (a, b) ↦ omega arith
        | inr (a, b) ↦ omega (arith, h.fresh i id b)
      ];
      distinct = λ i j id e f. by_places i j id (after_set i id e) (after_set j id f);
      past = λ id c. elim (In-append id closed (old ∷ []) c) [
        | inl before ↦ omega (arith, h.past id before)
        | inr now ↦ elim now [
          | inl e ↦ omega (arith, h.fresh ref old has)
          | inr no_more ↦ absurd no_more
        ]
      ];
      is_open = is_open;
      accounted = λ id lt. by_age id (is_old id lt);
    }
      where
        by_places :
            (i j id : ℕ)
            → ((i ≡ ref) × (id ≡ n)) ⊎ ((i ≢ ref) × (get_elem? ids i ≡ some id))
            → ((j ≡ ref) × (id ≡ n)) ⊎ ((j ≢ ref) × (get_elem? ids j ≡ some id))
            → i ≡ j
        by_places i j id (inl (a, b)) (inl (c, d)) = omega arith
        by_places i j id (inl (a, b)) (inr (c, d)) = absurd (omega (arith, h.fresh j id d))
        by_places i j id (inr (a, b)) (inl (c, d)) = absurd (omega (arith, h.fresh i id b))
        by_places i j id (inr (a, b)) (inr (c, d)) = h.distinct i j id b d

        not_old : (i id : ℕ) → i ≢ ref → get_elem? ids i ≡ some id → id ≢ old
        not_old i id ne e same = ne (h.distinct i ref id e (has ∙ ap some (sym same)))

        is_open :
            (i id : ℕ)
            → In i rs
            → get_elem? (set ids ref n) i ≡ some id
            → ¬ In id (closed ++ old ∷ [])
        is_open i id m e c = elim (after_set i id e) [
          | inl (a, b) ↦ elim (In-append id closed (old ∷ []) c) [
            | inl before ↦ omega (arith, h.past id before)
            | inr now ↦ elim now [
              | inl q ↦ omega (arith, h.fresh ref old has)
              | inr no_more ↦ no_more
            ]
          ]
          | inr (a, b) ↦ elim (In-append id closed (old ∷ []) c) [
            | inl before ↦ h.is_open i id m b before
            | inr now ↦ elim now [ inl q ↦ not_old i id a b q | inr no_more ↦ no_more ]
          ]
        ]

        is_old : (id : ℕ) → id < suc n → (id < n) ⊎ (id ≡ n)
        is_old id lt = omega arith

        by_place :
            (id i : ℕ)
            → In i rs
            → get_elem? ids i ≡ some id
            → (ref ≡ i) ⊎ (ref ≢ i)
            → In id (closed ++ old ∷ [])
              ⊎ ((i : ℕ) × In i rs × (get_elem? (set ids ref n) i ≡ some id))
        by_place id i m e (inr ne) = inr (i, m, get-set_other ids ref i n ne ∙ e)
        by_place id i m e (inl same) =
            let gone : get_elem? ids i ≡ some old = rw (← same) has in
            inl (In-append_right id closed (old ∷ []) (inl (cc)))

        by_age :
            (id : ℕ)
            → (id < n) ⊎ (id ≡ n)
            → In id (closed ++ old ∷ [])
              ⊎ ((i : ℕ) × In i rs × (get_elem? (set ids ref n) i ≡ some id))
        by_age id (inr e) = inr (ref, there, get-set_self ids ref old n has ∙ ap some (sym e))
        by_age id (inl lt) = elim (h.accounted id lt) [
          | inl c ↦ inl (In-append_left id closed (old ∷ []) c)
          | inr (i, m, e) ↦ by_place id i m e (eq_or_ne ref i)
        ]

-- The files `old` and `new` are watched, and those of `old` that are not in `new` are let go.
pub let_go-IsTracked :
    (ids : List ℕ) (n : ℕ) (closed old new gone : List ℕ)
    → ((id : ℕ) → In id gone → (i : ℕ) × (In i old) × (¬ In i new) × (get_elem? ids i ≡ some id))
    → ((i id : ℕ) → In i old → get_elem? ids i ≡ some id → In i new ⊎ In id gone)
    → IsTracked ids n closed (old ++ new)
    → IsTracked ids n (closed ++ gone) new
let_go-IsTracked ids n closed old new gone from covers h = record {
  fresh = h.fresh;
  distinct = h.distinct;
  past = λ id c. elim (In-append id closed gone c) [
    | inl before ↦ h.past id before
    | inr now ↦ let (i, m, out, e) = from id now in h.fresh i id e
  ];
  is_open = λ i id m e c. elim (In-append id closed gone c) [
    | inl before ↦ h.is_open i id (In-append_right i old new m) e before
    | inr now ↦ still_open i id m e (from id now)
  ];
  accounted = λ id lt. elim (h.accounted id lt) [
    | inl c ↦ inl (In-append_left id closed gone c)
    | inr (i, m, e) ↦ by_list id i e (In-append i old new m)
  ];
}
  where
    still_open :
        (i id : ℕ)
        → In i new
        → get_elem? ids i ≡ some id
        → ((j : ℕ) × (In j old) × (¬ In j new) × (get_elem? ids j ≡ some id))
        → ⊥
    still_open i id m e (j, m', out, f) = out (rw (h.distinct j i id f e) m)

    by_list :
        (id i : ℕ)
        → get_elem? ids i ≡ some id
        → In i old ⊎ In i new
        → In id (closed ++ gone) ⊎ ((i : ℕ) × In i new × (get_elem? ids i ≡ some id))
    by_list id i e (inr m) = inr (i, m, e)
    by_list id i e (inl m) = elim (covers i id m e) [
      | inl k ↦ inr (i, k, e)
      | inr g ↦ inl (In-append_right id closed gone g)
    ]
