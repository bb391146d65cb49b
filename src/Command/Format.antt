-- ===== src/Command/Format.antt =====
-- What the command prints for a line.
use go_libtail.Prelude.{
  ℕ, ◌≡◌, ◌≢◌, refl, sym, ap, ◌∙◌, ◌⊎◌, inl, inr, true, false, ◌&&◌, Bool-cases, [], ◌∷◌, ◌==◌,
  arith,
}
use go_libtail.Errors.{Text}
use go_libtail.Command.{replace_all, format_output_line}

-- Escaped newlines and tabs are decoded from left to right, in one pass.
abbrev pub decode : Text → Text
decode [] = []
decode (a ∷ []) = a ∷ []
decode (a ∷ b ∷ s) = elim (a == b'\\' && b == b'n') [
  | true ↦ b'\n' ∷ decode s
  | false ↦ elim (a == b'\\' && b == b't') [ true ↦ b'\t' ∷ decode s | false ↦ a ∷ decode (b ∷ s) ]
]

and_iff : (a b c d : ℕ) → (((a == b) && (c == d)) ≡ true) → (a ≡ b) × (c ≡ d)
and_iff a b c d h = ground arith

module _ (c with : ℕ) where
  replaces :
      (a b : ℕ) (s : Text)
      → (a == b'\\' && b == c) ≡ true
      → replace_all c with (a ∷ b ∷ s) ≡ with ∷ replace_all c with s
  unfolding replace_all
  replaces a b s h = rw (h, replace_all) refl

  keeps :
      (a b : ℕ) (s : Text)
      → (a == b'\\' && b == c) ≡ false
      → replace_all c with (a ∷ b ∷ s) ≡ a ∷ replace_all c with (b ∷ s)
  unfolding replace_all
  keeps a b s h = rw (h, replace_all) refl

  passes : (a : ℕ) (s : Text) → a ≢ 92 → replace_all c with (a ∷ s) ≡ a ∷ replace_all c with s
  unfolding replace_all
  passes a [] h = refl
  passes a (b ∷ s) h = elim (Bool-cases (a == b'\\' && b == c)) [
    | inl q ↦ absurd (h (and_iff a b'\\' b c q).0)
    | inr q ↦ keeps a b s q
  ]

  -- What a replaced text starts with: what it started with before, or the replacement.
  head_of :
      (b : ℕ) (s : Text)
      → (s' : Text) × ((replace_all c with (b ∷ s) ≡ b ∷ s')
          ⊎ (replace_all c with (b ∷ s) ≡ with ∷ s'))
  unfolding replace_all
  head_of b [] = ([], inl refl)
  head_of b (d ∷ s) = elim (Bool-cases (b == b'\\' && d == c)) [
    | inl q ↦ (_, inr (replaces b d s q))
    | inr q ↦ (_, inl (keeps b d s q))
  ]

abbrev newlines : Text → Text
newlines = replace_all b'n' b'\n'

abbrev tabs : Text → Text
tabs = replace_all b't' b'\t'

not_tab : (a : ℕ) → (a == b'\\' && b'\n' == b't') ≡ false
not_tab a = ground arith

tabs_past :
    (a b : ℕ) (s : Text)
    → (a == b'\\' && b == b't') ≡ false
    → tabs (a ∷ newlines (b ∷ s)) ≡ a ∷ tabs (newlines (b ∷ s))
tabs_past a b s h =
    let (s', starts) = head_of b'n' b'\n' b s in
    elim starts [
      | inl e ↦ rw e (keeps b't' b'\t' a b s' h)
      | inr e ↦ rw e (keeps b't' b'\t' a b'\n' s' (not_tab a))
    ]

two_passes : (line : Text) → tabs (newlines line) ≡ decode line
unfolding replace_all
two_passes [] = refl
two_passes (a ∷ []) = refl
two_passes (a ∷ b ∷ s) = elim (Bool-cases (a == b'\\' && b == b'n')) [
  | inl q ↦
      ap tabs (replaces b'n' b'\n' a b s q)
      ∙ passes b't' b'\t' b'\n' (newlines s) (λ e. omega arith)
      ∙ ap (◌∷◌ b'\n') (two_passes s)
      ∙ sym (rw (q, decode) refl)
  | inr q ↦ elim (Bool-cases (a == b'\\' && b == b't')) [
    | inl r ↦
        let (_, is_t) = and_iff a b'\\' b b't' r in
        ap tabs (keeps b'n' b'\n' a b s q)
        ∙ ap (λ x. tabs (a ∷ x)) (passes b'n' b'\n' b s (λ e. omega arith))
        ∙ replaces b't' b'\t' a b (newlines s) r
        ∙ ap (◌∷◌ b'\t') (two_passes s)
        ∙ sym (rw (q, decode) (rw r refl))
    | inr r ↦
        ap tabs (keeps b'n' b'\n' a b s q)
        ∙ tabs_past a b s r
        ∙ ap (◌∷◌ a) (two_passes (b ∷ s))
        ∙ sym (rw (q, decode) (rw r refl))
  ]
]

-- The two replacements of formatOutputLine are one pass that decodes escaped newlines and tabs
-- from left to right: neither makes or breaks a sequence that the other looks for.
pub format_output_line-eq-decode : (line : Text) → format_output_line line true ≡ decode line
unfolding format_output_line
format_output_line-eq-decode line = two_passes line
