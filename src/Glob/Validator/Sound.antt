-- ===== src/Glob/Validator/Sound.antt =====
-- From IsPatternValid to the grammar.
use go_libtail.Prelude.{
  ℕ, zero, suc, ◌≤◌, ◌≡◌, ◌≢◌, ◌↔◌, refl, sym, ap, ◌∙◌, subst, inl, inr, Bool, true, false, List,
  [], ◌∷◌, map, arith, length, if◌then◌else◌, ◌==◌, Bool-cases,
}
use go_libtail.Errors.{Text}
use go_libtail.Glob.Validator.{valid_from, is_pattern_valid, is_char_class_valid, ranges_valid}
use go_libtail.Glob.Validator.Grammar.{
  IsPattern, nothing, literal, escaped, class, negated, IsClass, closed, single, range,
}
use go_libtail.Glob.Validator.Complete.{IsPattern-is_pattern_valid}
use go_libtail.Glob.Validator.Turns.{
  skip_caret, valid_from_go, valid_from_open, turn_escaped_outside, turn_backslash, turn_open,
  turn_literal, Kind, backslash, bracket, minus, close, ordinary, kind_of,
}
use go_libtail.Glob.Validator.Cells.{
  Cell, member, dash, item_of, cells_text, length-cells_text, Inside, Reads, Reads-all,
}

module _ (w : Bool) where
  -- The pieces are the ranges of a class.
  Started : Bool → List (Cell w) → Type 0
  Started b [] = b ≡ true
  Started b (cell ∷ cells) = Unit

  cells-IsClass :
      (b : Bool) (cells : List (Cell w)) (rest : Text)
      → ranges_valid (map (item_of w) cells) ≡ true
      → Started b cells
      → IsPattern w rest
      → IsClass w b (cells_text w cells (b']' ∷ rest))
  unfolding ranges_valid Started
  cells-IsClass b [] rest h s k = subst (λ b. IsClass w b (b']' ∷ rest)) (sym s) (closed k)
  cells-IsClass b (dash ∷ cells) rest h s k = cc
  cells-IsClass b (member m u ∷ []) rest h s k = single u (closed k)
  cells-IsClass b (member m u ∷ member n v ∷ cells) rest h s k =
      single u (cells-IsClass true (member n v ∷ cells) rest h tt k)
  cells-IsClass b (member m u ∷ dash ∷ []) rest h s k = cc
  cells-IsClass b (member m u ∷ dash ∷ dash ∷ cells) rest h s k = cc
  cells-IsClass b (member m u ∷ dash ∷ member n v ∷ cells) rest h s k =
      range u v (cells-IsClass true cells rest h (any_started cells) k)
    where
      any_started : (cells : List (Cell w)) → Started true cells
      any_started [] = refl
      any_started (cell ∷ cells) = tt

  -- Of a class as it stands behind its head.
  Parses : ℕ → Type 0
  Parses n = (p : Text) → length p ≤ n → valid_from w p [] false false ≡ true → IsPattern w p

  IsClass-Parses :
      (n : ℕ) (s : Text)
      → Parses n
      → length s ≤ n
      → valid_from w s [] true false ≡ true
      → IsClass w false s
  unfolding Parses is_char_class_valid Reads Started
  IsClass-Parses n s parses short h = of_cells i.cells i.splits i.accepted
    where
      i : Inside w [] s
      i = Reads-all w (length s) [] s (omega arith) h

      of_cells :
          (cells : List (Cell w))
          → s ≡ cells_text w cells (b']' ∷ i.rest)
          → is_char_class_valid (map (item_of w) cells) ≡ true
          → IsClass w false s
      of_cells [] e ok = cc
      of_cells (cell ∷ cells) e ok = subst (IsClass w false) (sym e) (
          cells-IsClass false (cell ∷ cells) i.rest ok tt (
            parses i.rest
              (omega (arith, ap length e, length-cells_text w (cell ∷ cells) (b']' ∷ i.rest)))
              i.follows))

  bracket-Parses :
      (n : ℕ) (p : Text)
      → Parses n
      → length p ≤ n
      → valid_from w (skip_caret p) [] true false ≡ true
      → IsPattern w (b'[' ∷ p)
  bracket-Parses n [] parses short h = class (λ k. k) (IsClass-Parses n [] parses short h)
  bracket-Parses n (d ∷ p) parses short h = elim (Bool-cases (d == b'^')) [
    | inl caret ↦
        let e : d ≡ b'^' = ground arith in
        subst (λ d. IsPattern w (b'[' ∷ d ∷ p)) (sym e)
          (negated (
            IsClass-Parses n p parses (omega arith)
              (sym (ap (λ b. valid_from w (if b then p else d ∷ p) [] true false) caret) ∙ h)))
    | inr other ↦
        class (λ k. ground arith)
          (IsClass-Parses n (d ∷ p) parses short
            (sym (ap (λ b. valid_from w (if b then p else d ∷ p) [] true false) other) ∙ h))
  ]

  quoted-Parses :
      (n : ℕ) (p : Text)
      → Parses n
      → w ≡ false
      → length p ≤ n
      → valid_from w p [] false true ≡ true
      → IsPattern w (b'\\' ∷ p)
  unfolding Parses valid_from
  quoted-Parses n [] parses u short h = cc
  quoted-Parses n (d ∷ p) parses u short h = escaped d u (
      parses p (omega arith)
        (sym (valid_from_go w d p [] false true (turn_escaped_outside w d [])) ∙ h))

  literal-Parses :
      (n c : ℕ) (p : Text)
      → Parses n
      → length p ≤ n
      → (c ≡ b'\\' → w ≡ true)
      → c ≢ b'['
      → valid_from w (c ∷ p) [] false false ≡ true
      → IsPattern w (c ∷ p)
  unfolding Parses
  literal-Parses n c p parses short e u h =
      literal c e u
        (parses p short (sym (valid_from_go w c p [] false false (turn_literal w c [] e u)) ∙ h))

  rune-Parses :
      (n c : ℕ) (p : Text)
      → Parses n
      → length p ≤ n
      → valid_from w (c ∷ p) [] false false ≡ true
      → Kind w c
      → IsPattern w (c ∷ p)
  rune-Parses n c p parses short h (backslash e u) =
      subst (λ c. IsPattern w (c ∷ p)) (sym e)
        (quoted-Parses n p parses u short
          (sym (valid_from_go w c p [] false false (turn_backslash w c [] false e u)) ∙ h))
  rune-Parses n c p parses short h (bracket e) =
      subst (λ c. IsPattern w (c ∷ p)) (sym e)
        (bracket-Parses n p parses short
          (sym (valid_from_open w c p [] false false (turn_open w c [] e)) ∙ h))
  rune-Parses n c p parses short h (minus e) =
      literal-Parses n c p parses short (λ k. absurd (omega arith)) (λ k. omega arith) h
  rune-Parses n c p parses short h (close e) =
      literal-Parses n c p parses short (λ k. absurd (omega arith)) (λ k. omega arith) h
  rune-Parses n c p parses short h (ordinary e u v x) = literal-Parses n c p parses short e u h

  Parses-all : (n : ℕ) → Parses n
  unfolding Parses
  Parses-all n [] short h = nothing
  Parses-all zero (c ∷ p) short h = absurd (omega arith)
  Parses-all (suc n) (c ∷ p) short h =
      rune-Parses n c p (Parses-all n) (omega arith) h (kind_of w c)

-- IsPatternValid accepts exactly the patterns of filepath.Match: with its classes not empty,
-- their ranges complete, and nothing after a backslash missing; on Windows, where a backslash
-- is no escape, and elsewhere.
pub is_pattern_valid_iff : (w : Bool) (p : Text) → (is_pattern_valid w p ≡ true) ↔ IsPattern w p
unfolding is_pattern_valid Parses
is_pattern_valid_iff w p =
    (λ h. Parses-all w (length p) p (omega arith) h, IsPattern-is_pattern_valid w p)
