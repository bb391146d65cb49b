-- ===== src/LineBuffer/Ring.antt =====
-- The places of a ring in order, from its head on.
use go_libtail.Prelude.{
  ℕ, zero, suc, ◌+◌, ◌-◌, ◌%◌, ◌≤◌, ◌<◌, ◌≡◌, ◌≢◌, ◌⊎◌, inl, inr, refl, ap, ap₂, ◌∙◌, List, [], ◌∷◌,
  ◌++◌, arith, length,
}
use native.Mathlib.Decide.{dec_lt}
use native.Mathlib.Nat.{mod-eq_of_lt, mod-eq-sub-mod, mod-add-mod}

module _ {ℓ} {A : Type ℓ} where
  -- f from, …, f (from + n - 1)
  abbrev pub tabulate : (ℕ → A) → ℕ → ℕ → List A
  tabulate f from zero = []
  tabulate f from (suc n) = f from ∷ tabulate f (suc from) n

  pub tabulate_ext :
      (f g : ℕ → A) (from n : ℕ)
      → ((m : ℕ) → from ≤ m → m < from + n → f m ≡ g m)
      → tabulate f from n ≡ tabulate g from n
  tabulate_ext f g from zero h = refl
  tabulate_ext f g from (suc n) h =
      ap₂ ◌∷◌ (h from (omega arith) (omega arith))
        (tabulate_ext f g (suc from) n (λ m a b. h m (omega arith) (omega arith)))

  pub tabulate_shift :
      (f : ℕ → A) (from n : ℕ) → tabulate f (suc from) n ≡ tabulate (λ m. f (suc m)) from n
  tabulate_shift f from zero = refl
  tabulate_shift f from (suc n) = ap (◌∷◌ (f (suc from))) (tabulate_shift f (suc from) n)

  pub tabulate_last :
      (f : ℕ → A) (from n : ℕ) → tabulate f from (suc n) ≡ tabulate f from n ++ f (from + n) ∷ []
  tabulate_last f from zero = ap (λ k. f k ∷ []) (from_zero from)
    where
      from_zero : (k : ℕ) → k ≡ k + 0
      from_zero k = omega arith
  tabulate_last f from (suc n) = ap (◌∷◌ (f from)) (
      tabulate_last f (suc from) n
      ∙ ap (λ k. tabulate f (suc from) n ++ f k ∷ []) (next_from from n))
    where
      next_from : (k n : ℕ) → suc k + n ≡ k + suc n
      next_from k n = omega arith

  pub length-tabulate : (f : ℕ → A) (from n : ℕ) → length (tabulate f from n) ≡ n
  length-tabulate f from zero = refl
  length-tabulate f from (suc n) = ap suc (length-tabulate f (suc from) n)

-- A place at most once round the ring.
pub place-cases :
    (size x : ℕ)
    → x < size + size
    → ((x < size) × (x % size ≡ x)) ⊎ ((size ≤ x) × (x % size + size ≡ x))
place-cases size x h = elim (dec_lt x size) [
  | yes p ↦ inl (p, mod-eq_of_lt p)
  | no p ↦ inr (
    omega arith,
    omega (
      arith,
      mod-eq-sub-mod {n = x} {m = size} (omega arith),
      mod-eq_of_lt {n = x - size} {m = size} (omega arith),
    ),
  )
]

-- Fewer steps than the ring is long lead to different places.
pub place-ne :
    (size head i j : ℕ) → head < size → i < j → j < size → (head + i) % size ≢ (head + j) % size
place-ne size head i j h ij jc =
    omega
      (arith, place-cases size (head + i) (omega arith), place-cases size (head + j) (omega arith))

-- One step of the head is one step of every place.
pub place-next : (size head i : ℕ) → ((head + 1) % size + i) % size ≡ (head + suc i) % size
place-next size head i = mod-add-mod (head + 1) size i ∙ ap (λ k. k % size) (step head i)
  where
    step : (h i : ℕ) → h + 1 + i ≡ h + suc i
    step h i = omega arith
