-- ===== src/FileTailer/Session/Contains.antt =====
-- containsString of fswatcher.go: which texts a list contains.
use go_libtail.Prelude.{
  ◌≡◌, refl, sym, ap, ap₂, ◌∙◌, Bool, true, false, Bool-cases, inl, inr, List, [], ◌∷◌, ◌++◌, ◌==◌,
  ==_iff, if◌then◌else◌,
}
use mathlib.Core.Bool.{true≢false}
use go_libtail.Prelude.In.{In}
use go_libtail.Errors.{Text}
use go_libtail.FileTailer.Session.{text_eq, contains_string}

pub text_eq_self : (s : Text) → text_eq s s ≡ true
unfolding text_eq
text_eq_self [] = refl
text_eq_self (c ∷ s) = rw ((==_iff c c).1 refl) (text_eq_self s)

pub text_eq-same : (s t : Text) → text_eq s t ≡ true → s ≡ t
unfolding text_eq
text_eq-same [] [] h = refl
text_eq-same [] (d ∷ t) h = cc
text_eq-same (c ∷ s) [] h = cc
text_eq-same (c ∷ s) (d ∷ t) h = elim (Bool-cases (c == d)) [
  | inl e ↦
      ap₂ ◌∷◌ ((==_iff c d).0 e)
        (text_eq-same s t (sym (ap (λ b. if b then text_eq s t else false) e) ∙ h))
  | inr e ↦ absurd (true≢false (sym h ∙ ap (λ b. if b then text_eq s t else false) e))
]

-- Something that the list holds already is held with one more at its end, and so is that.
pub contains-last : (list : List Text) (s : Text) → contains_string (list ++ s ∷ []) s ≡ true
unfolding contains_string
contains-last [] s = rw (text_eq_self s) refl
contains-last (x ∷ list) s = by_test (text_eq x s) (contains-last list s)
  where
    by_test :
        (b : Bool)
        → contains_string (list ++ s ∷ []) s ≡ true
        → (if b then true else contains_string (list ++ s ∷ []) s) ≡ true
    by_test true h = refl
    by_test false h = h

pub contains-more :
    (list : List Text) (s t : Text)
    → contains_string list s ≡ true
    → contains_string (list ++ t ∷ []) s ≡ true
unfolding contains_string
contains-more [] s t h = cc
contains-more (x ∷ list) s t h = elim (Bool-cases (text_eq x s)) [
  | inl e ↦ rw e refl
  | inr e ↦
      rw e
        (contains-more list s t (sym (ap (λ b. if b then true else contains_string list s) e) ∙ h))
]

pub not-contains-last :
    (list : List Text) (s t : Text)
    → contains_string list s ≡ false
    → text_eq t s ≡ false
    → contains_string (list ++ t ∷ []) s ≡ false
unfolding contains_string
not-contains-last [] s t h k = rw k refl
not-contains-last (x ∷ list) s t h k = elim (Bool-cases (text_eq x s)) [
  | inl e ↦ absurd (true≢false (sym (ap (λ b. if b then true else contains_string list s) e) ∙ h))
  | inr e ↦ rw e (
      not-contains-last list s t (sym (ap (λ b. if b then true else contains_string list s) e) ∙ h)
        k)
]

pub contains_string-In : (list : List Text) (s : Text) → contains_string list s ≡ true → In s list
unfolding contains_string
contains_string-In [] s h = absurd (true≢false (sym h))
contains_string-In (x ∷ list) s h = elim (Bool-cases (text_eq x s)) [
  | inl e ↦ inl (sym (text_eq-same x s e))
  | inr e ↦
      inr (
        contains_string-In list s
          (sym (ap (λ b. if b then true else contains_string list s) e) ∙ h))
]

pub In-contains_string : (list : List Text) (s : Text) → In s list → contains_string list s ≡ true
unfolding contains_string
In-contains_string [] s h = elim h [ ]
In-contains_string (x ∷ list) s (inl same) =
    rw (sym (ap (λ y. text_eq y s) same) ∙ text_eq_self s) refl
In-contains_string (x ∷ list) s (inr h) = by_test (text_eq x s) (In-contains_string list s h)
  where
    by_test :
        (b : Bool)
        → contains_string list s ≡ true
        → (if b then true else contains_string list s) ≡ true
    by_test true h = refl
    by_test false h = h
