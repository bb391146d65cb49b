-- ===== src/Glob/Validator/Items.antt =====
-- The ranges that isCharClassValid looks for.
use go_libtail.Prelude.{◌≡◌, refl, true, List, [], ◌∷◌, ◌++◌}
use go_libtail.Glob.Validator.{
  CharClassItem, char_item, minus_item, ranges_valid, is_char_class_valid,
}

pub data Complete : List CharClassItem → Type 0 where
  none_left : Complete []
  single : {items : List CharClassItem} → Complete items → Complete (char_item ∷ items)
  range :
      {items : List CharClassItem}
      → Complete items
      → Complete (char_item ∷ minus_item ∷ char_item ∷ items)

pub Complete-ranges_valid :
    {items : List CharClassItem} → Complete items → ranges_valid items ≡ true
unfolding ranges_valid
Complete-ranges_valid none_left = refl
Complete-ranges_valid (single none_left) = refl
Complete-ranges_valid (single (single h)) = Complete-ranges_valid (single h)
Complete-ranges_valid (single (range h)) = Complete-ranges_valid (range h)
Complete-ranges_valid (range h) = Complete-ranges_valid h

pub ranges_valid-Complete :
    (items : List CharClassItem) → ranges_valid items ≡ true → Complete items
unfolding ranges_valid
ranges_valid-Complete [] h = none_left
ranges_valid-Complete (minus_item ∷ items) h = cc
ranges_valid-Complete (char_item ∷ []) h = single none_left
ranges_valid-Complete (char_item ∷ char_item ∷ items) h =
    single (ranges_valid-Complete (char_item ∷ items) h)
ranges_valid-Complete (char_item ∷ minus_item ∷ []) h = cc
ranges_valid-Complete (char_item ∷ minus_item ∷ minus_item ∷ items) h = cc
ranges_valid-Complete (char_item ∷ minus_item ∷ char_item ∷ items) h =
    range (ranges_valid-Complete items h)

pub Complete-append :
    {items more : List CharClassItem} → Complete items → Complete more → Complete (items ++ more)
Complete-append none_left k = k
Complete-append (single h) k = single (Complete-append h k)
Complete-append (range h) k = range (Complete-append h k)

abbrev pub IsFilled : List CharClassItem → Type 0
IsFilled [] = ⊥
IsFilled (item ∷ items) = Unit

pub IsFilled-append :
    (items : List CharClassItem) (item : CharClassItem) (more : List CharClassItem)
    → IsFilled (items ++ item ∷ more)
IsFilled-append [] item more = tt
IsFilled-append (x ∷ items) item more = tt

pub Complete-is_char_class_valid :
    (items : List CharClassItem)
    → Complete items
    → IsFilled items
    → is_char_class_valid items ≡ true
unfolding is_char_class_valid
Complete-is_char_class_valid [] h f = absurd f
Complete-is_char_class_valid (item ∷ items) h f = Complete-ranges_valid h

pub is_char_class_valid-Complete :
    (items : List CharClassItem)
    → is_char_class_valid items ≡ true
    → Complete items × IsFilled items
unfolding is_char_class_valid
is_char_class_valid-Complete [] h = cc
is_char_class_valid-Complete (item ∷ items) h = (ranges_valid-Complete (item ∷ items) h, tt)
