-- ===== src/Glob/Validator/Grammar.antt =====
-- The patterns that filepath.Match documents: on Windows without the escapes.
use go_libtail.Prelude.{ℕ, ◌≡◌, ◌≢◌, Bool, true, false, [], ◌∷◌, ◌++◌}
use go_libtail.Errors.{Text}

-- An end of a character range: c other than '\\', '-', ']'; or '\\' c.
pub data Member (windows : Bool) : Text → Type 0 where
  plain : (c : ℕ) → (c ≡ b'\\' → windows ≡ true) → c ≢ b'-' → c ≢ b']' → Member windows (c ∷ [])
  quoted : (c : ℕ) → windows ≡ false → Member windows (b'\\' ∷ c ∷ [])

abbrev pub StartsCaret : Text → Type 0
StartsCaret [] = ⊥
StartsCaret (c ∷ p) = c ≡ b'^'

-- `IsClass windows b p`: p goes on, inside a character class, with ranges, the ']' and the rest of
-- a pattern; `b` tells whether a range has been read, as there must be one.
mutual
  pub data IsPattern (windows : Bool) : Text → Type 0 where
    nothing : IsPattern windows []
    literal :
        (c : ℕ) {p : Text}
        → (c ≡ b'\\' → windows ≡ true)
        → c ≢ b'['
        → IsPattern windows p
        → IsPattern windows (c ∷ p)
    escaped :
        (c : ℕ) {p : Text}
        → windows ≡ false
        → IsPattern windows p
        → IsPattern windows (b'\\' ∷ c ∷ p)
    class : {p : Text} → (¬ StartsCaret p) → IsClass windows false p → IsPattern windows (b'[' ∷ p)
    negated : {p : Text} → IsClass windows false p → IsPattern windows (b'[' ∷ b'^' ∷ p)

  pub data IsClass (windows : Bool) : Bool → Text → Type 0 where
    closed : {p : Text} → IsPattern windows p → IsClass windows true (b']' ∷ p)
    single :
        {b : Bool} {m p : Text}
        → Member windows m
        → IsClass windows true p
        → IsClass windows b (m ++ p)
    range :
        {b : Bool} {lo hi p : Text}
        → Member windows lo
        → Member windows hi
        → IsClass windows true p
        → IsClass windows b (lo ++ b'-' ∷ (hi ++ p))
