-- ===== src/FileTailer/Session/Lookup.antt =====
-- What checkMissingFile finds.
use go_libtail.Prelude.{
  ℕ, zero, suc, ◌≡◌, ◌↔◌, inl, inr, refl, Bool, true, false, Bool-cases, none, some, List, [], ◌∷◌,
  arith, get_elem?, if◌then◌else◌,
}
use go_libtail.Errors.{Text}
use go_libtail.FileTailer.Session.{
  Session, matches_any_file, check_missing_from, check_missing_file,
}

module _ (matches : Text → Text → Bool) where
  -- A watched file that the glob matches.
  abbrev pub Matched : Text → List (Text × ℕ) → Type 0
  Matched g files =
      (j : ℕ) × (path : Text) × (file : ℕ) × (get_elem? files j ≡ some (path, file))
      × (matches g path ≡ true)

  matches_any-Matched :
      (g : Text) (files : List (Text × ℕ))
      → matches_any_file matches g files ≡ true
      → Matched g files
  unfolding matches_any_file
  matches_any-Matched g [] h = cc
  matches_any-Matched g ((path, file) ∷ files) h = elim (Bool-cases (matches g path)) [
    | inl here ↦ (0, path, file, refl, here)
    | inr other ↦
        let (j, p, f, at, m) = matches_any-Matched g files (ground arith) in (suc j, p, f, at, m)
  ]

  Matched-matches_any :
      (g : Text) (files : List (Text × ℕ)) (j : ℕ) (path : Text) (file : ℕ)
      → get_elem? files j ≡ some (path, file)
      → matches g path ≡ true
      → matches_any_file matches g files ≡ true
  unfolding matches_any_file
  Matched-matches_any g [] j path file at m = cc
  Matched-matches_any g ((p, f) ∷ files) zero path file at m =
      let same : p ≡ path = cc in rw (same, m) refl
  Matched-matches_any g ((p, f) ∷ files) (suc j) path file at m =
      by_test (matches g p) (Matched-matches_any g files j path file at m)
    where
      by_test :
          (b : Bool)
          → matches_any_file matches g files ≡ true
          → (if b then true else matches_any_file matches g files) ≡ true
      by_test true h = refl
      by_test false h = h

  missing-none :
      (files : List (Text × ℕ)) (globs : List Text)
      → check_missing_from matches files globs ≡ none
      → (i : ℕ) (g : Text) → get_elem? globs i ≡ some g
      → matches_any_file matches g files ≡ true
  unfolding check_missing_from
  missing-none files [] h i g at = cc
  missing-none files (g' ∷ globs) h zero g at =
      elim (Bool-cases (matches_any_file matches g' files)) [
        | inl found ↦ cc
        | inr absent ↦ absurd (ground arith)
      ]
  missing-none files (g' ∷ globs) h (suc i) g at =
      elim (Bool-cases (matches_any_file matches g' files)) [
        | inl found ↦ missing-none files globs (ground arith) i g at
        | inr absent ↦ absurd (ground arith)
      ]

  none-missing :
      (files : List (Text × ℕ)) (globs : List Text)
      → ((i : ℕ) (g : Text) → get_elem? globs i ≡ some g → matches_any_file matches g files ≡ true)
      → check_missing_from matches files globs ≡ none
  unfolding check_missing_from
  none-missing files [] h = refl
  none-missing files (g ∷ globs) h =
      rw (h 0 g refl) (none-missing files globs (λ i k at. h (suc i) k at))

  -- checkMissingFile returns nil exactly if each glob matches the path of a watched file.
  pub check_missing_file_iff :
      (t : Session)
      → (check_missing_file matches t ≡ none)
        ↔ ((i : ℕ) (g : Text) → get_elem? t.globs i ≡ some g → Matched g t.watched_files)
  unfolding check_missing_file
  check_missing_file_iff t = (
    λ h i g at.
        matches_any-Matched g t.watched_files (missing-none t.watched_files t.globs h i g at),
    λ h. none-missing t.watched_files t.globs (λ i g at.
        let (j, path, file, found, m) = h i g at in
        Matched-matches_any g t.watched_files j path file found m),
  )
