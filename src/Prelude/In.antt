-- ===== src/Prelude/In.antt =====
-- Membership with its place kept.
use mathlib.Core.Path.{◌≡◌}
use mathlib.Core.Logic.{◌⊎◌, inl, inr}
use mathlib.Core.List.{List, [], ◌∷◌, ◌++◌}

abbrev pub In : {A : Type 0} → A → List A → Type 0
In x [] = ⊥
In x (y ∷ l) = (x ≡ y) ⊎ In x l

pub In-append_left : {A : Type 0} (x : A) (l m : List A) → In x l → In x (l ++ m)
In-append_left x [] m h = elim h [ ]
In-append_left x (y ∷ l) m (inl e) = inl e
In-append_left x (y ∷ l) m (inr h) = inr (In-append_left x l m h)

pub In-append_right : {A : Type 0} (x : A) (l m : List A) → In x m → In x (l ++ m)
In-append_right x [] m h = h
In-append_right x (y ∷ l) m h = inr (In-append_right x l m h)

pub In-append : {A : Type 0} (x : A) (l m : List A) → In x (l ++ m) → In x l ⊎ In x m
In-append x [] m h = inr h
In-append x (y ∷ l) m (inl e) = inl (inl e)
In-append x (y ∷ l) m (inr h) = elim (In-append x l m h) [ inl a ↦ inl (inr a) | inr b ↦ inr b ]
