-- ===== src/BufferedTailer/Len.antt =====
-- How the calls of the buffer change its length.
use go_libtail.Prelude.{
  ◌+◌, ◌≤◌, Bool, true, false, not, ◌&&◌, ◌≡◌, refl, arith, length, leb, get_or, none,
  if◌then◌else◌,
}
use go_libtail.LineBuffer
use go_libtail.LineBuffer.{LineBuffer, Popped, grow, put, take_first, blocking_pop}

module _ {A : Type 0} where
  pub push-len : (b : LineBuffer A) (x : A) → (LineBuffer.push b x).len ≤ b.len + 1
  unfolding LineBuffer.push put grow
  push-len b x = by_tests b.closed (leb (length b.items) b.len)
    where
      by_tests :
          (c full : Bool) → (if c then b else put (if full then grow b else b) x).len ≤ b.len + 1
      by_tests true full = omega arith
      by_tests false true = omega arith
      by_tests false false = omega arith

  pub blocking_pop-len : (b : LineBuffer A) → (blocking_pop b).1.len ≤ b.len
  unfolding blocking_pop take_first
  blocking_pop-len b = by_tests b.empty b.closed
    where
      by_tests :
          (e c : Bool)
          → (if◌then◌else◌ {A = Popped A × LineBuffer A}
              (e && not c)
              (Popped.waits, b)
              (if◌then◌else◌ {A = Popped A × LineBuffer A} c
                (Popped.interrupted, b)
                (Popped.popped (get_or b.items b.head none), take_first b))).1.len
            ≤ b.len
      by_tests true true = omega arith
      by_tests true false = omega arith
      by_tests false true = omega arith
      by_tests false false = omega arith

  pub close-len : (b : LineBuffer A) → (LineBuffer.close b).len ≡ b.len
  unfolding LineBuffer.close
  close-len b = by_test b.closed
    where
      by_test : (c : Bool) → (if not c then record b { closed = true } else b).len ≡ b.len
      by_test true = refl
      by_test false = refl
