-- ===== src/Glob/Validator/Turns.antt =====
-- The turns of the loop in IsPatternValid, for each kind of rune.
use go_libtail.Prelude.{
  ℕ, ◌≡◌, ◌≢◌, refl, Bool, true, false, List, [], ◌∷◌, ◌++◌, arith, ◌==◌, if◌then◌else◌,
}
use go_libtail.Errors.{Text}
use go_libtail.Glob.Validator.{
  CharClassItem, char_item, minus_item, is_char_class_valid, switch, go, open_class, reject,
  turn_of, turn, valid_from,
}

abbrev pub skip_caret : Text → Text
skip_caret [] = []
skip_caret (d ∷ p) = if d == b'^' then p else d ∷ p

module _ (w : Bool) (c : ℕ) (p : Text) (items : List CharClassItem) (inside escaped : Bool) where
  pub valid_from_go :
      {items' : List CharClassItem} {inside' escaped' : Bool}
      → turn w c items inside escaped ≡ go items' inside' escaped'
      → valid_from w (c ∷ p) items inside escaped ≡ valid_from w p items' inside' escaped'
  unfolding valid_from
  valid_from_go {items'} {inside'} {escaped'} e = by_rest p
    where
      by_rest :
          (p : Text)
          → valid_from w (c ∷ p) items inside escaped ≡ valid_from w p items' inside' escaped'
      by_rest [] = rw (e, valid_from)
      by_rest (d ∷ p) = rw (e, valid_from)

  pub valid_from_open :
      turn w c items inside escaped ≡ open_class
      → valid_from w (c ∷ p) items inside escaped ≡ valid_from w (skip_caret p) items true false
  unfolding valid_from
  valid_from_open e = by_rest p
    where
      by_rest :
          (p : Text)
          → valid_from w (c ∷ p) items inside escaped ≡ valid_from w (skip_caret p) items true false
      by_rest [] = rw (e, valid_from)
      by_rest (d ∷ p) = rw (e, valid_from) (by_test (d == b'^'))
        where
          by_test :
              (b : Bool)
              → (elim b [
                | true ↦ valid_from w p items true false
                | false ↦ valid_from w (d ∷ p) items true false
              ])
                ≡ valid_from w (if b then p else d ∷ p) items true false
          by_test true = refl
          by_test false = refl

  pub valid_from_reject :
      turn w c items inside escaped ≡ reject → valid_from w (c ∷ p) items inside escaped ≡ false
  unfolding valid_from
  valid_from_reject e = by_rest p
    where
      by_rest : (p : Text) → valid_from w (c ∷ p) items inside escaped ≡ false
      by_rest [] = rw (e, valid_from)
      by_rest (d ∷ p) = rw (e, valid_from)

-- How the tests of the switch come out for a rune.
pub data Kind (w : Bool) (c : ℕ) : Type 0 where
  backslash : c ≡ b'\\' → w ≡ false → Kind w c
  bracket : c ≡ b'[' → Kind w c
  minus : c ≡ b'-' → Kind w c
  close : c ≡ b']' → Kind w c
  ordinary : (c ≡ b'\\' → w ≡ true) → c ≢ b'[' → c ≢ b'-' → c ≢ b']' → Kind w c

pub kind_of : (w : Bool) (c : ℕ) → Kind w c
kind_of w c = ground arith

module _ (w : Bool) (c : ℕ) (items : List CharClassItem) where
  -- A rune that follows a backslash.
  pub turn_escaped_inside : turn w c items true true ≡ go (items ++ char_item ∷ []) true false
  unfolding turn switch turn_of
  turn_escaped_inside = ground arith

  pub turn_escaped_outside : turn w c items false true ≡ go items false false
  unfolding turn switch turn_of
  turn_escaped_outside = ground arith

  pub turn_backslash :
      (inside : Bool) → c ≡ b'\\' → w ≡ false → turn w c items inside false ≡ go items inside true
  unfolding turn switch turn_of
  turn_backslash inside e u = ground arith

  pub turn_open : c ≡ b'[' → turn w c items false false ≡ open_class
  unfolding turn switch turn_of
  turn_open e = ground arith

  pub turn_literal :
      (c ≡ b'\\' → w ≡ true) → c ≢ b'[' → turn w c items false false ≡ go items false false
  unfolding turn switch turn_of
  turn_literal e u = ground arith

  pub turn_minus : c ≡ b'-' → turn w c items true false ≡ go (items ++ minus_item ∷ []) true false
  unfolding turn switch turn_of
  turn_minus e = ground arith

  pub turn_close :
      c ≡ b']' → is_char_class_valid items ≡ true → turn w c items true false ≡ go [] false false
  unfolding turn switch turn_of
  turn_close e h = ground arith

  pub turn_close_reject :
      c ≡ b']' → is_char_class_valid items ≡ false → turn w c items true false ≡ reject
  unfolding turn switch turn_of
  turn_close_reject e h = ground arith

  pub turn_char :
      (c ≡ b'\\' → w ≡ true)
      → c ≢ b'-'
      → c ≢ b']'
      → turn w c items true false ≡ go (items ++ char_item ∷ []) true false
  unfolding turn switch turn_of
  turn_char e u v = ground arith
