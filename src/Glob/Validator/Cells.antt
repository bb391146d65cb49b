-- ===== src/Glob/Validator/Cells.antt =====
-- What the loop of IsPatternValid reads in a character class that it accepts.
use go_libtail.Prelude.{
  ℕ, zero, suc, ◌≤◌, ◌≡◌, refl, sym, ap, ◌∙◌, subst, inl, inr, Bool, true, false, List, [], ◌∷◌,
  ◌++◌, map, arith, length, append_assoc, append-nil, Bool-cases, length-append,
}
use go_libtail.Errors.{Text}
use go_libtail.Glob.Validator.{
  CharClassItem, char_item, minus_item, valid_from, is_char_class_valid,
}
use go_libtail.Glob.Validator.Grammar.{Member, plain, quoted}
use go_libtail.Glob.Validator.Turns.{
  valid_from_go, valid_from_reject, turn_escaped_inside, turn_backslash, turn_minus, turn_close,
  turn_close_reject, turn_char, Kind, backslash, bracket, minus, close, ordinary, kind_of,
}

-- A character class in pieces.
pub data Cell (w : Bool) : Type 0 where
  member : (m : Text) → Member w m → Cell w
  dash : Cell w

module _ (w : Bool) where
  abbrev pub item_of : Cell w → CharClassItem
  item_of (member m h) = char_item
  item_of dash = minus_item

  abbrev pub cells_text : List (Cell w) → Text → Text
  cells_text [] t = t
  cells_text (member m h ∷ cells) t = m ++ cells_text cells t
  cells_text (dash ∷ cells) t = b'-' ∷ cells_text cells t

  pub length-cells_text :
      (cells : List (Cell w)) (t : Text) → length t ≤ length (cells_text cells t)
  length-cells_text [] t = omega arith
  length-cells_text (member m h ∷ cells) t =
      omega (arith, length-append m (cells_text cells t), length-cells_text cells t)
  length-cells_text (dash ∷ cells) t = omega (arith, length-cells_text cells t)

  -- The loop reached the end of the class, and accepted what follows.
  pub record Inside (items : List CharClassItem) (s : Text) : Type 0 where
    pub cells : List (Cell w)
    pub rest : Text
    pub splits : s ≡ cells_text cells (b']' ∷ rest)
    pub accepted : is_char_class_valid (items ++ map item_of cells) ≡ true
    pub follows : valid_from w rest [] false false ≡ true

  -- One more piece in front.
  put_member :
      (m : Text) (h : Member w m) (items : List CharClassItem) (s : Text)
      → Inside (items ++ char_item ∷ []) s
      → Inside items (m ++ s)
  put_member m h items s i = record {
    cells = member m h ∷ i.cells;
    rest = i.rest;
    splits = ap (λ t. m ++ t) i.splits;
    accepted =
        ap is_char_class_valid (sym (append_assoc items (char_item ∷ []) (map item_of i.cells)))
        ∙ i.accepted;
    follows = i.follows;
  }

  put_dash :
      (items : List CharClassItem) (s : Text)
      → Inside (items ++ minus_item ∷ []) s
      → Inside items (b'-' ∷ s)
  put_dash items s i = record {
    cells = dash ∷ i.cells;
    rest = i.rest;
    splits = ap (λ t. b'-' ∷ t) i.splits;
    accepted =
        ap is_char_class_valid (sym (append_assoc items (minus_item ∷ []) (map item_of i.cells)))
        ∙ i.accepted;
    follows = i.follows;
  }

  end_class :
      (items : List CharClassItem) (p : Text)
      → valid_from w (b']' ∷ p) items true false ≡ true
      → Inside items (b']' ∷ p)
  end_class items p h = elim (Bool-cases (is_char_class_valid items)) [
    | inl ok ↦ record {
      cells = [];
      rest = p;
      splits = refl;
      accepted = ap is_char_class_valid (append-nil items) ∙ ok;
      follows = sym (valid_from_go w b']' p items true false (turn_close w b']' items refl ok)) ∙ h;
    }
    | inr bad ↦
        cc (valid_from_reject w b']' p items true false (turn_close_reject w b']' items refl bad))
  ]

  -- What the loop does in the class, for a text of at most n runes.
  unfoldable pub Reads : ℕ → Type 0
  Reads n =
      (items : List CharClassItem) (s : Text)
      → length s ≤ n
      → valid_from w s items true false ≡ true
      → Inside items s

  after_backslash :
      (n : ℕ) (items : List CharClassItem) (p : Text)
      → Reads n
      → w ≡ false
      → length p ≤ n
      → valid_from w p items true true ≡ true
      → Inside items (b'\\' ∷ p)
  unfolding Reads valid_from
  after_backslash n items [] reads u short h = cc
  after_backslash n items (d ∷ p) reads u short h =
      put_member (b'\\' ∷ d ∷ []) (quoted d u) items p (
        reads _ p (omega arith)
          (sym (valid_from_go w d p items true true (turn_escaped_inside w d items)) ∙ h))

  in_class :
      (n : ℕ) (items : List CharClassItem) (c : ℕ) (p : Text)
      → Reads n
      → length p ≤ n
      → valid_from w (c ∷ p) items true false ≡ true
      → Kind w c
      → Inside items (c ∷ p)
  unfolding Reads
  in_class n items c p reads short h (backslash e u) =
      subst (λ c. Inside items (c ∷ p)) (sym e)
        (after_backslash n items p reads u short
          (sym (valid_from_go w c p items true false (turn_backslash w c items true e u)) ∙ h))
  in_class n items c p reads short h (bracket e) =
      put_member (c ∷ [])
        (plain c (λ k. absurd (omega arith)) (λ k. omega arith) (λ k. omega arith)) items p
        (reads _ p short (
          sym (
            valid_from_go w c p items true false (
              turn_char w c items (λ k. absurd (omega arith)) (λ k. omega arith)
                (λ k. omega arith)))
          ∙ h))
  in_class n items c p reads short h (minus e) =
      subst (λ c. Inside items (c ∷ p)) (sym e)
        (put_dash items p (
          reads _ p short
            (sym (valid_from_go w c p items true false (turn_minus w c items e)) ∙ h)))
  in_class n items c p reads short h (close e) =
      subst (λ c. Inside items (c ∷ p)) (sym e)
        (end_class items p (subst (λ c. valid_from w (c ∷ p) items true false ≡ true) e h))
  in_class n items c p reads short h (ordinary e u v x) =
      put_member (c ∷ []) (plain c e v x) items p (
        reads _ p short
          (sym (valid_from_go w c p items true false (turn_char w c items e v x)) ∙ h))

  pub Reads-all : (n : ℕ) → Reads n
  unfolding Reads valid_from
  Reads-all n items [] short h = cc
  Reads-all zero items (c ∷ p) short h = absurd (omega arith)
  Reads-all (suc n) items (c ∷ p) short h =
      in_class n items c p (Reads-all n) (omega arith) h (kind_of w c)
