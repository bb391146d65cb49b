-- ===== src/Glob/Validator/Complete.antt =====
-- From the grammar to IsPatternValid.
use go_libtail.Prelude.{
  ◌≡◌, refl, sym, ap, ◌∙◌, subst, Bool, true, false, List, [], ◌∷◌, ◌++◌, arith, append_assoc,
}
use go_libtail.Errors.{Text}
use go_libtail.Glob.Validator.{CharClassItem, char_item, minus_item, valid_from, is_pattern_valid}
use go_libtail.Glob.Validator.Grammar.{
  Member, plain, quoted, StartsCaret, IsPattern, nothing, literal, escaped, class, negated, IsClass,
  closed, single, range,
}
use go_libtail.Glob.Validator.Items
use go_libtail.Glob.Validator.Items.{
  Complete, none_left, IsFilled, IsFilled-append, Complete-append, Complete-is_char_class_valid,
}
use go_libtail.Glob.Validator.Turns.{
  skip_caret, valid_from_go, valid_from_open, turn_escaped_inside, turn_escaped_outside,
  turn_backslash, turn_open, turn_literal, turn_minus, turn_close, turn_char,
}

-- A member is one item.
valid_from-Member :
    {w : Bool} {m : Text} (p : Text) (items : List CharClassItem)
    → Member w m
    → valid_from w (m ++ p) items true false ≡ valid_from w p (items ++ char_item ∷ []) true false
valid_from-Member {w} p items (plain c e u v) =
    valid_from_go w c p items true false (turn_char w c items e u v)
valid_from-Member {w} p items (quoted c e) =
    valid_from_go w b'\\' (c ∷ p) items true false (turn_backslash w b'\\' items true refl e)
    ∙ valid_from_go w c p items true true (turn_escaped_inside w c items)

skip_caret_other : (p : Text) → (¬ StartsCaret p) → skip_caret p ≡ p
skip_caret_other [] h = refl
skip_caret_other (c ∷ p) h = ground arith

IsReady : Bool → List CharClassItem → Type 0
IsReady true items = Complete items × IsFilled items
IsReady false items = Complete items

ready-Complete : (b : Bool) (items : List CharClassItem) → IsReady b items → Complete items
unfolding IsReady
ready-Complete true items h = h.0
ready-Complete false items h = h

IsReady-single :
    (b : Bool) (items : List CharClassItem)
    → IsReady b items
    → IsReady true (items ++ char_item ∷ [])
unfolding IsReady
IsReady-single b items h = (
  Complete-append (ready-Complete b items h) (Items.single none_left),
  IsFilled-append items char_item [],
)

IsReady-range :
    (b : Bool) (items : List CharClassItem)
    → IsReady b items
    → IsReady true (((items ++ char_item ∷ []) ++ minus_item ∷ []) ++ char_item ∷ [])
unfolding IsReady
IsReady-range b items h =
    subst (λ l. Complete l × IsFilled l)
      (sym (
        append_assoc (items ++ char_item ∷ []) (minus_item ∷ []) (char_item ∷ [])
        ∙ append_assoc items (char_item ∷ []) (minus_item ∷ char_item ∷ [])))
      (
        Complete-append (ready-Complete b items h) (Items.range none_left),
        IsFilled-append items char_item _,
      )

mutual
  unfolding valid_from IsReady

  pattern_valid : {w : Bool} {p : Text} → IsPattern w p → valid_from w p [] false false ≡ true
  pattern_valid nothing = refl
  pattern_valid {w} (literal c e u h) =
      valid_from_go w c _ [] false false (turn_literal w c [] e u) ∙ pattern_valid h
  pattern_valid {w} (escaped c e h) =
      valid_from_go w b'\\' (c ∷ _) [] false false (turn_backslash w b'\\' [] false refl e)
      ∙ valid_from_go w c _ [] false true (turn_escaped_outside w c [])
      ∙ pattern_valid h
  pattern_valid {w} (class {p} u h) =
      valid_from_open w b'[' p [] false false (turn_open w b'[' [] refl)
      ∙ ap (λ q. valid_from w q [] true false) (skip_caret_other p u)
      ∙ class_valid [] h none_left
  pattern_valid {w} (negated {p} h) =
      valid_from_open w b'[' (b'^' ∷ p) [] false false (turn_open w b'[' [] refl)
      ∙ class_valid [] h none_left

  class_valid :
      {w b : Bool} {p : Text} (items : List CharClassItem)
      → IsClass w b p
      → IsReady b items
      → valid_from w p items true false ≡ true
  class_valid {w} items (closed {p} h) ready =
      valid_from_go w b']' p items true false
        (turn_close w b']' items refl (Complete-is_char_class_valid items (ready.0) (ready.1)))
      ∙ pattern_valid h
  class_valid {w} {b} items (single {m} {p} k h) ready =
      valid_from-Member p items k
      ∙ class_valid (items ++ char_item ∷ []) h (IsReady-single b items ready)
  class_valid {w} {b} items (range {lo} {hi} {p} k l h) ready =
      valid_from-Member (b'-' ∷ (hi ++ p)) items k
      ∙ valid_from_go w b'-' (hi ++ p) (items ++ char_item ∷ []) true false
          (turn_minus w b'-' _ refl)
      ∙ valid_from-Member p _ l
      ∙ class_valid (((items ++ char_item ∷ []) ++ minus_item ∷ []) ++ char_item ∷ []) h
          (IsReady-range b items ready)

pub IsPattern-is_pattern_valid : (w : Bool) (p : Text) → IsPattern w p → is_pattern_valid w p ≡ true
unfolding is_pattern_valid
IsPattern-is_pattern_valid w p h = pattern_valid h
