-- ===== src/Glob/Wildcards.antt =====
-- What containsWildcards and FromPath tell.
use go_libtail.Prelude.{
  subst, some, ℕ, ◌≡◌, ◌↔◌, ◌⊎◌, inl, inr, refl, sym, ap, ◌∙◌, Bool, true, false, Bool-cases, [],
  ◌∷◌, arith, not, if◌then◌else◌,
}
use go_libtail.Errors.{Text}
use mathlib.Core.Bool.{true≢false}
use go_libtail.Glob.{
  wildcards_from, contains_wildcards, abs, dir, glob, failed, wildcards_in_directory,
  illegal_file_name, invalid_pattern, check_directory, parse, from_path,
}
use go_libtail.Glob.Validator.{is_pattern_valid}
use go_libtail.Glob.Validator.Sound.{is_pattern_valid_iff}
use go_libtail.Glob.Validator.Grammar.{IsPattern}

-- A pattern that has a '*', a '?' or a '[' that no backslash escapes.
pub data HasWildcard (windows : Bool) : Text → Type 0 where
  here : (c : ℕ) (p : Text) → (c ≡ b'[') ⊎ ((c ≡ b'*') ⊎ (c ≡ b'?')) → HasWildcard windows (c ∷ p)
  behind :
      (c : ℕ) (p : Text)
      → (c ≡ b'\\' → windows ≡ true)
      → HasWildcard windows p
      → HasWildcard windows (c ∷ p)
  behind_escaped :
      (c : ℕ) (p : Text)
      → windows ≡ false
      → HasWildcard windows p
      → HasWildcard windows (b'\\' ∷ c ∷ p)

module _ (w : Bool) where
  from_escaped : (c : ℕ) (p : Text) → wildcards_from w (c ∷ p) true ≡ wildcards_from w p false
  unfolding wildcards_from
  from_escaped c p = ground arith

  from_backslash :
      (c : ℕ) (p : Text)
      → c ≡ b'\\'
      → w ≡ false
      → wildcards_from w (c ∷ p) false ≡ wildcards_from w p true
  unfolding wildcards_from
  from_backslash c p e u = ground arith

  from_wildcard :
      (c : ℕ) (p : Text)
      → (c ≡ b'[') ⊎ ((c ≡ b'*') ⊎ (c ≡ b'?'))
      → wildcards_from w (c ∷ p) false ≡ true
  unfolding wildcards_from
  from_wildcard c p e = ground arith

  from_other :
      (c : ℕ) (p : Text)
      → (c ≡ b'\\' → w ≡ true)
      → wildcards_from w p false ≡ true
      → wildcards_from w (c ∷ p) false ≡ true
  unfolding wildcards_from
  from_other c p e h = ground arith

  has-wildcards : (p : Text) → HasWildcard w p → wildcards_from w p false ≡ true
  has-wildcards p (here c q e) = from_wildcard c q e
  has-wildcards p (behind c q e h) = from_other c q e (has-wildcards q h)
  has-wildcards p (behind_escaped c q u h) =
      from_backslash b'\\' (c ∷ q) refl u ∙ from_escaped c q ∙ has-wildcards q h

  -- How a rune comes out.
  data Kind (c : ℕ) (p : Text) : Type 0 where
    escapes : c ≡ b'\\' → w ≡ false → Kind c p
    wild : (c ≡ b'[') ⊎ ((c ≡ b'*') ⊎ (c ≡ b'?')) → Kind c p
    other :
        (c ≡ b'\\' → w ≡ true)
        → wildcards_from w (c ∷ p) false ≡ wildcards_from w p false
        → Kind c p

  kind_of : (c : ℕ) (p : Text) → Kind c p
  unfolding wildcards_from
  kind_of c p = ground arith

  wildcards-has : (p : Text) → wildcards_from w p false ≡ true → HasWildcard w p
  unfolding wildcards_from
  wildcards-has [] h = cc
  wildcards-has (c ∷ []) h = elim (kind_of c []) [
    | escapes e u ↦ cc (from_backslash c [] e u)
    | wild e ↦ here c [] e
    | other e k ↦ cc
  ]
  wildcards-has (c ∷ d ∷ q) h = elim (kind_of c (d ∷ q)) [
    | escapes e u ↦
        subst (λ c. HasWildcard w (c ∷ d ∷ q)) (sym e)
          (behind_escaped d q u
            (wildcards-has q (sym (from_backslash c (d ∷ q) e u ∙ from_escaped d q) ∙ h)))
    | wild e ↦ here c (d ∷ q) e
    | other e k ↦ behind c (d ∷ q) e (wildcards-has (d ∷ q) (sym k ∙ h))
  ]

  -- containsWildcards finds exactly the patterns that have a '*', a '?' or a '[' that no
  -- backslash escapes, on Windows, where none does, and elsewhere.
  pub contains_wildcards_iff : (p : Text) → (contains_wildcards w p ≡ true) ↔ HasWildcard w p
  unfolding contains_wildcards
  contains_wildcards_iff p = (wildcards-has p, has-wildcards p)

  no-wildcards : (p : Text) → contains_wildcards w p ≡ false → ¬ HasWildcard w p
  no-wildcards p h k = true≢false (sym ((contains_wildcards_iff p).1 k) ∙ h)

  wildcards_absent : (p : Text) → (¬ HasWildcard w p) → contains_wildcards w p ≡ false
  wildcards_absent p h = elim (Bool-cases (contains_wildcards w p)) [
    | inl found ↦ absurd (h ((contains_wildcards_iff p).0 found))
    | inr absent ↦ absent
  ]

checked :
    (path g : Text) (found : Bool)
    → contains_wildcards false (dir path) ≡ found
    → (if found then failed wildcards_in_directory else glob path) ≡ glob g
    → (¬ HasWildcard false (dir path)) × (g ≡ path)
checked path g true e h = cc
checked path g false e h = (no-wildcards false (dir path) e, cc)

parsed :
    (cwd p g : Text) (valid : Bool)
    → is_pattern_valid false p ≡ valid
    → (if not valid then failed invalid_pattern else check_directory (some (abs cwd p))) ≡ glob g
    → IsPattern false p × (¬ HasWildcard false (dir (abs cwd p))) × (g ≡ abs cwd p)
unfolding check_directory
parsed cwd p g true e h =
    let (absent, same) =
      checked (abs cwd p) g (contains_wildcards false (dir (abs cwd p))) refl h in
    ((is_pattern_valid_iff false p).0 e, absent, same)
parsed cwd p g false e h = cc

-- Where the working directory is known, Parse accepts a pattern exactly if it is one of the
-- grammar and, made absolute, has no wildcard in its directory; it returns that absolute path.
pub parse_iff :
    (cwd p g : Text)
    → (parse (some cwd) p ≡ glob g)
      ↔ (IsPattern false p × (¬ HasWildcard false (dir (abs cwd p))) × (g ≡ abs cwd p))
unfolding parse check_directory
parse_iff cwd p g = (parsed cwd p g (is_pattern_valid false p) refl, accepts)
  where
    accepts :
        IsPattern false p × (¬ HasWildcard false (dir (abs cwd p))) × (g ≡ abs cwd p)
        → parse (some cwd) p ≡ glob g
    accepts (h, none_there, e) =
        rw ((is_pattern_valid_iff false p).1 h)
          (rw (wildcards_absent false (dir (abs cwd p)) none_there) (ap glob (sym e)))

-- A glob that FromPath returns, of a known working directory, comes from a pattern of the
-- grammar in which every '*', '?' and '[' is escaped.
pub from_path-plain :
    (cwd p g : Text)
    → from_path (some cwd) p ≡ glob g
    → (¬ HasWildcard false p) × IsPattern false p × (g ≡ abs cwd p)
unfolding from_path
from_path-plain cwd p g h = by_test (contains_wildcards false p) refl h
  where
    by_test :
        (found : Bool)
        → contains_wildcards false p ≡ found
        → (if found then failed illegal_file_name else parse (some cwd) p) ≡ glob g
        → (¬ HasWildcard false p) × IsPattern false p × (g ≡ abs cwd p)
    by_test true e k = cc
    by_test false e k =
        let (valid, absent, same) = (parse_iff cwd p g).0 k in (no-wildcards false p e, valid, same)
