-- ===== src/LineBuffer/Inv.antt =====
-- The invariant of the ring, and the queue that it holds.
use go_libtail.Prelude.{
  ℕ, zero, suc, ◌+◌, ◌*◌, ◌%◌, ◌≤◌, ◌<◌, ◌≡◌, ◌≢◌, refl, sym, ap, ◌∙◌, Option, none, some, List, [],
  ◌∷◌, map, arith, length, get_or, set, replicate, length-set, get_or-set_self, get_or-set_ne, ◌==◌,
}
use native.Mathlib.Decide.{dec_lt}
use native.Mathlib.Nat.{mod-eq_of_lt}
use go_libtail.LineBuffer.{LineBuffer, new_line_buffer, copy_items, grow, drop_items}
use go_libtail.LineBuffer.Ring.{tabulate, tabulate_ext, length-tabulate}

pub zero_add : (m : ℕ) → 0 + m ≡ m
zero_add m = omega arith

module _ {A : Type 0} where
  -- items[(head+i)%len(items)]
  abbrev pub place : List (Option A) → ℕ → ℕ → Option A
  place items head i = get_or items ((head + i) % length items) none

  -- The pointers in the buffer, oldest first.
  abbrev pub contents : LineBuffer A → List (Option A)
  contents b = tabulate (place b.items b.head) 0 b.len

  pub record IsValid (b : LineBuffer A) : Type 0 where
    pub room : 0 < length b.items
    pub head_in : b.head < length b.items
    pub len_in : b.len ≤ length b.items
    pub tail_is : b.tail ≡ (b.head + b.len) % length b.items
    pub empty_is : b.empty ≡ (b.len == 0)

  -- The buffer is valid and holds exactly the lines `q`, none of them nil.
  pub record Holds (b : LineBuffer A) (q : List A) : Type 0 where
    pub valid : IsValid b
    pub lines_are : contents b ≡ map some q

  pub length-replicate : (n : ℕ) (a : Option A) → length (replicate n a) ≡ n
  length-replicate zero a = refl
  length-replicate (suc n) a = ap suc (length-replicate n a)

  pub new_line_buffer-Holds : (size : ℕ) → 0 < size → Holds (new_line_buffer size) []
  unfolding new_line_buffer
  new_line_buffer-Holds size positive = record {
    valid = record {
      room = omega (arith, length-replicate size none);
      head_in = omega (arith, length-replicate size none);
      len_in = omega arith;
      tail_is = omega (arith, length-replicate size none);
      empty_is = refl;
    };
    lines_are = refl;
  }

  pub length-copy_items :
      (items : List (Option A)) (head from n : ℕ) (new : List (Option A))
      → length (copy_items items head from n new) ≡ length new
  unfolding copy_items
  length-copy_items items head from zero new = refl
  length-copy_items items head from (suc n) new =
      length-copy_items items head (from + 1) n _ ∙ length-set new from _

  -- The loop leaves the places in front of it alone.
  copy_items_before :
      (items : List (Option A)) (head from n : ℕ) (new : List (Option A)) (i : ℕ)
      → i < from
      → get_or (copy_items items head from n new) i none ≡ get_or new i none
  unfolding copy_items
  copy_items_before items head from zero new i h = refl
  copy_items_before items head from (suc n) new i h =
      copy_items_before items head (from + 1) n _ i (omega arith)
      ∙ get_or-set_ne new from i _ none (λ e. omega arith)

  -- What it has written at place `i` is what the ring held there.
  copy_items_at :
      (items : List (Option A)) (head from n : ℕ) (new : List (Option A)) (i : ℕ)
      → from ≤ i
      → i < from + n
      → from + n ≤ length new
      → get_or (copy_items items head from n new) i none ≡ place items head i
  unfolding copy_items
  copy_items_at items head from zero new i low high fits = absurd (omega arith)
  copy_items_at items head from (suc n) new i low high fits = elim (dec_lt from i) [
    | yes p ↦
        copy_items_at items head (from + 1) n _ i (omega arith) (omega arith)
          (omega (arith, length-set new from (place items head from)))
    | no p ↦ copy_items_before items head (from + 1) n _ i (omega arith) ∙ written (omega arith)
  ]
    where
      written : i ≡ from → get_or (set new from (place items head from)) i none ≡ place items head i
      written e =
          ap (λ k. get_or (set new from (place items head from)) k none) e
          ∙ get_or-set_self new from _ none (omega arith)
          ∙ ap (place items head) (sym e)

  -- Clear leaves as many places as there were.
  pub length-drop_items :
      (head from n : ℕ) (items : List (Option A))
      → length (drop_items head from n items) ≡ length items
  unfolding drop_items
  length-drop_items head from zero items = refl
  length-drop_items head from (suc n) items =
      length-drop_items head (from + 1) n _ ∙ length-set items _ none

  pub length-contents : (b : LineBuffer A) (q : List A) → Holds b q → b.len ≡ length q
  length-contents b q h =
      sym (length-tabulate (place b.items b.head) 0 b.len) ∙ ap length h.lines_are ∙ length_map q
    where
      length_map : (q : List A) → length (map some q) ≡ length q
      length_map [] = refl
      length_map (x ∷ q) = ap suc (length_map q)

  pub place-set_ne :
      (items : List (Option A)) (head k : ℕ) (v : Option A) (m : ℕ)
      → (head + m) % length items ≢ k
      → place (set items k v) head m ≡ place items head m
  place-set_ne items head k v m h =
      ap (λ l. get_or (set items k v) ((head + m) % l) none) (length-set items k v)
      ∙ get_or-set_ne items k _ v none (λ e. h (sym e))

  pub place-set_at :
      (items : List (Option A)) (head k : ℕ) (v : Option A) (m : ℕ)
      → (head + m) % length items ≡ k
      → k < length items
      → place (set items k v) head m ≡ v
  place-set_at items head k v m e h =
      ap (λ l. get_or (set items k v) ((head + m) % l) none) (length-set items k v)
      ∙ ap (λ i. get_or (set items k v) i none) e
      ∙ get_or-set_self items k v none h

  pub grow-Holds : (b : LineBuffer A) (q : List A) → Holds b q → Holds (grow b) q
  unfolding grow
  grow-Holds b q h = record {
    valid = record {
      room = omega (arith, room, copied);
      head_in = omega (arith, room, copied);
      len_in = omega (arith, len_in, copied);
      tail_is = sym (
          ap (λ n. n % length new) (zero_add b.len)
          ∙ mod-eq_of_lt {n = b.len} {m = length new} (omega (arith, room, len_in, copied)));
      empty_is = h.valid.empty_is;
    };
    lines_are = tabulate_ext _ _ 0 b.len same ∙ h.lines_are;
  }
    where
      blank : List (Option A)
      blank = replicate (length b.items * 2) none

      new : List (Option A)
      new = copy_items b.items b.head 0 b.len blank

      room : 0 < length b.items
      room = h.valid.room

      len_in : b.len ≤ length b.items
      len_in = h.valid.len_in

      copied : length new ≡ length b.items * 2
      copied =
          length-copy_items b.items b.head 0 b.len blank
          ∙ length-replicate (length b.items * 2) none

      same : (m : ℕ) → 0 ≤ m → m < 0 + b.len → place new 0 m ≡ place b.items b.head m
      same m low high =
          ap (λ k. get_or new (k % length new) none) (zero_add m)
          ∙ ap (λ k. get_or new k none)
              (mod-eq_of_lt {n = m} {m = length new} (omega (arith, len_in, room, copied)))
          ∙ copy_items_at b.items b.head 0 b.len blank m low high
              (omega (arith, len_in, length-replicate (length b.items * 2) none))
