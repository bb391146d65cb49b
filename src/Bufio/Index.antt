-- ===== src/Bufio/Index.antt =====
-- bytes.IndexByte: what the position that it returns says of the slice.
use go_libtail.Prelude.{
  ℕ, zero, suc, ◌+◌, ◌<◌, false, none, some, [], ◌∷◌, ◌++◌, ◌≡◌, refl, ap, ◌∙◌, arith, length, take,
  drop, ◌==◌,
}
use go_libtail.Bufio.{Bytes, index_byte}

-- What an index says: the delimiter stands there, and not in front of it.
pub record IsFirst (c : ℕ) (xs : Bytes) (i : ℕ) : Type 0 where
  pub within : i < length xs
  pub splits : xs ≡ take i xs ++ c ∷ drop (suc i) xs
  pub through : take (suc i) xs ≡ take i xs ++ c ∷ []
  pub clear : index_byte c (take i xs) ≡ none

module _ (c : ℕ) where
  pub index_byte-cons_none :
      (x : ℕ) (xs : Bytes)
      → index_byte c (x ∷ xs) ≡ none
      → ((x == c) ≡ false) × (index_byte c xs ≡ none)
  index_byte-cons_none x xs h = ground arith

  pub index_byte-cons_suc :
      (x : ℕ) (xs : Bytes) (i : ℕ)
      → index_byte c (x ∷ xs) ≡ some (suc i)
      → ((x == c) ≡ false) × (index_byte c xs ≡ some i)
  index_byte-cons_suc x xs i h = ground arith

  pub index_byte-cons_zero : (x : ℕ) (xs : Bytes) → index_byte c (x ∷ xs) ≡ some 0 → x ≡ c
  index_byte-cons_zero x xs h = ground arith

  pub index_byte-IsFirst : (xs : Bytes) (i : ℕ) → index_byte c xs ≡ some i → IsFirst c xs i
  index_byte-IsFirst [] i h = cc
  index_byte-IsFirst (x ∷ xs) zero h = record {
    within = omega arith;
    splits = ap (λ y. y ∷ xs) (index_byte-cons_zero x xs h);
    through = ap (λ y. y ∷ []) (index_byte-cons_zero x xs h);
    clear = refl;
  }
  index_byte-IsFirst (x ∷ xs) (suc i) h =
      let (ne, later) = index_byte-cons_suc x xs i h in
      let rest = index_byte-IsFirst xs i later in
      record {
        within = omega (arith, rest.within);
        splits = ap (◌∷◌ x) rest.splits;
        through = ap (◌∷◌ x) rest.through;
        clear = ground (arith, rest.clear);
      }

  pub index_byte-append :
      (xs ys : Bytes) (j : ℕ)
      → index_byte c xs ≡ none
      → index_byte c ys ≡ some j
      → index_byte c (xs ++ ys) ≡ some (length xs + j)
  index_byte-append [] ys j h e = e ∙ ap some (omega arith)
  index_byte-append (x ∷ xs) ys j h e =
      let (ne, clear) = index_byte-cons_none x xs h in
      rw (ne, index_byte-append xs ys j clear e) (ap some (omega arith))

  pub index_byte-append_self :
      (xs ys : Bytes) → index_byte c xs ≡ none → index_byte c (xs ++ c ∷ ys) ≡ some (length xs)
  index_byte-append_self [] ys h = ground arith
  index_byte-append_self (x ∷ xs) ys h =
      let (ne, clear) = index_byte-cons_none x xs h in rw (ne, index_byte-append_self xs ys clear)

  pub index_byte-append_none :
      (xs ys : Bytes)
      → index_byte c xs ≡ none
      → index_byte c ys ≡ none
      → index_byte c (xs ++ ys) ≡ none
  index_byte-append_none [] ys h e = e
  index_byte-append_none (x ∷ xs) ys h e = ground (arith, index_byte-append_none xs ys)

  pub index_byte-append_some :
      (xs ys : Bytes) (i : ℕ) → index_byte c xs ≡ some i → index_byte c (xs ++ ys) ≡ some i
  index_byte-append_some [] ys i h = cc
  index_byte-append_some (x ∷ xs) ys zero h = ground arith
  index_byte-append_some (x ∷ xs) ys (suc i) h = ground (arith, index_byte-append_some xs ys i)

  pub index_byte-take-none :
      (n : ℕ) (xs : Bytes) → index_byte c xs ≡ none → index_byte c (take n xs) ≡ none
  index_byte-take-none zero xs h = refl
  index_byte-take-none (suc n) [] h = refl
  index_byte-take-none (suc n) (x ∷ xs) h = ground (arith, index_byte-take-none n xs)

  pub index_byte-drop-none :
      (n : ℕ) (xs : Bytes) → index_byte c xs ≡ none → index_byte c (drop n xs) ≡ none
  index_byte-drop-none zero xs h = h
  index_byte-drop-none (suc n) [] h = refl
  index_byte-drop-none (suc n) (x ∷ xs) h =
      index_byte-drop-none n xs (index_byte-cons_none x xs h).1
