-- ===== src/LineBuffer/Keeps.antt =====
-- What Push, BlockingPop and Clear do to the lines of a valid buffer.
use go_libtail.Prelude.{
  ℕ, suc, ◌+◌, ◌-◌, ◌%◌, ◌≤◌, ◌<◌, ◌≡◌, refl, sym, ap, ap₂, ◌∙◌, Bool, true, false, Option, none,
  some, List, [], ◌∷◌, ◌++◌, map, arith, length, get_or, set, drop, length-set, get_or-set_ne, ◌==◌,
  if◌then◌else◌,
}
use native.Mathlib.Nat.{mod-eq_of_lt, mod-add-mod, mod-lt}
use go_libtail.LineBuffer.{LineBuffer, drop_items, clear, put, take_first}
use go_libtail.LineBuffer.Ring.{
  tabulate, tabulate_ext, tabulate_shift, tabulate_last, place-ne, place-next, place-cases,
}
use go_libtail.LineBuffer.Inv.{
  zero_add, place, Holds, length-drop_items, length-contents, place-set_ne, place-set_at,
}

suc-test : (n : ℕ) → (suc n == 0) ≡ false
suc-test n = ground arith

add_one : (n : ℕ) → n + 1 ≡ suc n
add_one n = omega arith

module _ {A : Type 0} where
  map-last : (q : List A) (x : A) → map some (q ++ x ∷ []) ≡ map some q ++ some x ∷ []
  map-last [] x = refl
  map-last (y ∷ q) x = ap (◌∷◌ (some y)) (map-last q x)

  pub put-Holds :
      (b : LineBuffer A) (q : List A) (x : A)
      → Holds b q
      → b.len < length b.items
      → Holds (put b x) (q ++ x ∷ [])
  unfolding put
  put-Holds b q x h room = record {
    valid = record {
      room = omega (arith, room, size_is);
      head_in = omega (arith, head_in, size_is);
      len_in = omega (arith, room, size_is);
      tail_is =
          ap (λ t. (t + 1) % length b.items) h.valid.tail_is
          ∙ mod-add-mod (b.head + b.len) (length b.items) 1
          ∙ ap₂ (λ n m. n % m) (one_more b.head b.len) (sym size_is);
      empty_is = sym (ap (λ n. n == 0) (add_one b.len) ∙ suc-test b.len);
    };
    lines_are =
        ap (tabulate (place items' b.head) 0) (add_one b.len)
        ∙ tabulate_last (place items' b.head) 0 b.len
        ∙ ap₂ (λ l v. l ++ v ∷ []) (tabulate_ext _ _ 0 b.len kept ∙ h.lines_are)
            (place-set_at b.items b.head b.tail (some x) (0 + b.len)
              (ap (λ n. (b.head + n) % length b.items) (zero_add b.len) ∙ sym h.valid.tail_is)
              tail_in)
        ∙ sym (map-last q x);
  }
    where
      items' : List (Option A)
      items' = set b.items b.tail (some x)

      size_is : length items' ≡ length b.items
      size_is = length-set b.items b.tail (some x)

      head_in : b.head < length b.items
      head_in = h.valid.head_in

      one_more : (h l : ℕ) → h + l + 1 ≡ h + (l + 1)
      one_more h l = omega arith

      tail_in : b.tail < length b.items
      tail_in = omega (
        arith,
        h.valid.tail_is,
        place-cases (length b.items) (b.head + b.len) (omega (arith, head_in, room)),
        head_in,
        room,
      )

      kept : (m : ℕ) → 0 ≤ m → m < 0 + b.len → place items' b.head m ≡ place b.items b.head m
      kept m low high = place-set_ne b.items b.head b.tail (some x) m (λ e.
          place-ne (length b.items) b.head m b.len head_in (omega arith) room (e ∙ h.valid.tail_is))

  pub take_first-Holds :
      (b : LineBuffer A) (x : A) (q : List A)
      → Holds b (x ∷ q)
      → (get_or b.items b.head none ≡ some x) × Holds (take_first b) q
  unfolding take_first
  take_first-Holds b x q h = (
    sym head_place ∙ ap (λ l. get_or l 0 none) split,
    record {
      valid = record {
        room = omega (arith, head_in, size_is);
        head_in =
            omega (arith, size_is, head_in, mod-lt (b.head + 1) {m = length b.items} h.valid.room);
        len_in = omega (arith, h.valid.len_in, size_is);
        tail_is =
            h.valid.tail_is
            ∙ ap (λ n. (b.head + n) % length b.items)
                (len_is ∙ ap suc (sym (pred b.len (length q) len_is)))
            ∙ sym (place-next (length b.items) b.head (b.len - 1))
            ∙ ap (λ n. ((b.head + 1) % length b.items + (b.len - 1)) % n) (sym size_is);
        empty_is =
            test b.empty (b.len - 1 == 0)
              (h.valid.empty_is ∙ ap (λ n. n == 0) len_is ∙ suc-test (length q));
      };
      lines_are =
          ap (tabulate (place items' ((b.head + 1) % length b.items)) 0)
            (pred b.len (length q) len_is)
          ∙ tabulate_ext _ _ 0 (length q) kept
          ∙ sym (tabulate_shift (place b.items b.head) 0 (length q))
          ∙ ap (drop 1) split;
    },
  )
    where
      items' : List (Option A)
      items' = set b.items b.head none

      size_is : length items' ≡ length b.items
      size_is = length-set b.items b.head none

      head_in : b.head < length b.items
      head_in = h.valid.head_in

      len_is : b.len ≡ suc (length q)
      len_is = length-contents b (x ∷ q) h

      split : tabulate (place b.items b.head) 0 (suc (length q)) ≡ some x ∷ map some q
      split = ap (tabulate (place b.items b.head) 0) (sym len_is) ∙ h.lines_are

      pred : (n m : ℕ) → n ≡ suc m → n - 1 ≡ m
      pred n m e = omega arith

      add_zero : (n : ℕ) → n + 0 ≡ n
      add_zero n = omega arith

      head_at : (b.head + 0) % length b.items ≡ b.head
      head_at = ap (λ n. n % length b.items) (add_zero b.head) ∙ mod-eq_of_lt head_in

      head_place : place b.items b.head 0 ≡ get_or b.items b.head none
      head_place = ap (λ k. get_or b.items k none) head_at

      test : (e c : Bool) → e ≡ false → (if c then true else e) ≡ c
      test e true p = refl
      test e false p = p

      kept :
          (m : ℕ)
          → 0 ≤ m
          → m < 0 + length q
          → place items' ((b.head + 1) % length b.items) m ≡ place b.items b.head (suc m)
      kept m low high =
          ap (λ n. get_or items' (((b.head + 1) % length b.items + m) % n) none) size_is
          ∙ ap (λ k. get_or items' k none) (place-next (length b.items) b.head m)
          ∙ get_or-set_ne b.items b.head _ none none (λ e.
            place-ne (length b.items) b.head 0 (suc m) head_in (omega arith)
              (omega (arith, h.valid.len_in, len_is)) (head_at ∙ e))

  pub clear-Holds : (b : LineBuffer A) (q : List A) → Holds b q → Holds (clear b) []
  unfolding clear
  clear-Holds b q h = record {
    valid = record {
      room = omega (arith, h.valid.room, size_is);
      head_in = omega (arith, h.valid.room, size_is);
      len_in = omega arith;
      tail_is = sym (mod-eq_of_lt {n = 0} (omega (arith, h.valid.room, size_is)));
      empty_is = refl;
    };
    lines_are = refl;
  }
    where
      size_is : length (drop_items b.head 0 b.len b.items) ≡ length b.items
      size_is = length-drop_items b.head 0 b.len b.items
