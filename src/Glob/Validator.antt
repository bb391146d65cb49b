-- ===== src/Glob/Validator.antt =====
-- tailer/glob/validator.go: whether filepath.Match can read a pattern.
pub mod Grammar
pub mod Items
pub mod Turns
pub mod Complete
pub mod Cells
pub mod Sound
use go_libtail.Prelude.{ℕ, Bool, true, false, not, ◌&&◌, List, [], ◌∷◌, ◌++◌, ◌==◌, if◌then◌else◌}
use go_libtail.Errors.{Text}

-- charClassItem.
pub data CharClassItem : Type 0 where
  char_item minus_item : CharClassItem

-- The loop of isCharClassValid, on the items from its index on.
unfoldable pub ranges_valid : List CharClassItem → Bool
ranges_valid [] = true
ranges_valid (minus_item ∷ items) = false
ranges_valid (char_item ∷ []) = true
ranges_valid (char_item ∷ char_item ∷ items) = ranges_valid (char_item ∷ items)
ranges_valid (char_item ∷ minus_item ∷ []) = false
ranges_valid (char_item ∷ minus_item ∷ minus_item ∷ items) = false
ranges_valid (char_item ∷ minus_item ∷ char_item ∷ items) = ranges_valid items

unfoldable pub is_char_class_valid : List CharClassItem → Bool
unfolding ranges_valid
is_char_class_valid [] = false
is_char_class_valid (item ∷ items) = ranges_valid (item ∷ items)

-- The case that the switch of IsPatternValid takes.
pub data Case : Type 0 where
  escapes opens adds_minus closes adds_char passes : Case

unfoldable pub switch :
    (is_backslash is_open is_minus is_close inside escaped windows : Bool) → Case
switch is_backslash is_open is_minus is_close inside escaped windows =
    if is_backslash && (not escaped && not windows)
    then escapes
    else if not inside && (is_open && not escaped)
    then opens
    else if inside && (not escaped && is_minus)
    then adds_minus
    else if inside && (not escaped && is_close)
    then closes
    else if inside
    then adds_char
    else passes

-- What a turn of the loop comes to: the next state, the head of a character class, or
-- `return false`.
pub data Turn : Type 0 where
  go : (items : List CharClassItem) (inside escaped : Bool) → Turn
  open_class : Turn
  reject : Turn

unfoldable pub turn_of : Case → List CharClassItem → Bool → Turn
turn_of escapes items inside = go items inside true
turn_of opens items inside = open_class
turn_of adds_minus items inside = go (items ++ minus_item ∷ []) inside false
turn_of closes items inside = if is_char_class_valid items then go [] false false else reject
turn_of adds_char items inside = go (items ++ char_item ∷ []) inside false
turn_of passes items inside = go items inside false

unfoldable pub turn : Bool → ℕ → List CharClassItem → Bool → Bool → Turn
unfolding switch turn_of
turn windows c items inside escaped =
    turn_of (switch (c == b'\\') (c == b'[') (c == b'-') (c == b']') inside escaped windows) items
      inside

-- The loop, on the runes from its index on. Behind a '[' it steps over a '^'.
unfoldable pub valid_from : Bool → Text → List CharClassItem → Bool → Bool → Bool
valid_from windows [] items inside escaped = not escaped && not inside
valid_from windows (c ∷ []) items inside escaped = elim (turn windows c items inside escaped) [
  | go items' inside' escaped' ↦ valid_from windows [] items' inside' escaped'
  | open_class ↦ valid_from windows [] items true false
  | reject ↦ false
]
valid_from windows (c ∷ d ∷ p) items inside escaped = elim (turn windows c items inside escaped) [
  | go items' inside' escaped' ↦ valid_from windows (d ∷ p) items' inside' escaped'
  | open_class ↦ elim (d == b'^') [
    | true ↦ valid_from windows p items true false
    | false ↦ valid_from windows (d ∷ p) items true false
  ]
  | reject ↦ false
]

-- `windows`: runtime.GOOS is "windows", where a backslash is no escape.
unfoldable pub is_pattern_valid : Bool → Text → Bool
unfolding valid_from
is_pattern_valid windows pattern = valid_from windows pattern [] false false
