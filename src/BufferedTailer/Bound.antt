-- ===== src/BufferedTailer/Bound.antt =====
-- The limit on the lines in the buffer.
use go_libtail.Prelude.{
  ℕ, suc, ◌+◌, ◌≤◌, ◌≡◌, refl, Bool, true, false, none, some, List, [], ◌∷◌, arith, ltb,
  if◌then◌else◌,
}
use go_libtail.Prelude.Int.{pos}
use go_libtail.LineBuffer
use go_libtail.LineBuffer.{LineBuffer, Popped, new_line_buffer, blocking_pop}
use go_libtail.BufferedTailer.{
  Producer, starting, receiving, counting, closing, stopping, returned, checking, clearing,
  resetting, pushing, Consumer, popping, ended, counting_out, sending, Tailer, Move, produces,
  consumes, drops, closes, is_full, buffered_tailer, produce, consume, move, run, produce_at,
  consume_at, popped_to, drop_at, receive, metered,
}
use go_libtail.BufferedTailer.Len.{push-len, blocking_pop-len, close-len}

module _ {A : Type 0} where
  -- Room is made before a line is pushed: the length that the limit `suc m` leaves at `p`.
  abbrev allowed : ℕ → Producer A → ℕ
  allowed m (resetting line) = m
  allowed m (pushing line) = m
  allowed m starting = suc m
  allowed m receiving = suc m
  allowed m counting = suc m
  allowed m closing = suc m
  allowed m stopping = suc m
  allowed m returned = suc m
  allowed m (checking line) = suc m
  allowed m (clearing line) = suc m

  abbrev Keeps : ℕ → Tailer A → Type 0
  Keeps m t = t.buffer.len ≤ allowed m t.producer

  receive-Keeps :
      (m : ℕ) (input : List A) (t : Tailer A) → t.buffer.len ≤ suc m → Keeps m (receive input t)
  unfolding receive
  receive-Keeps m [] t h = h
  receive-Keeps m (line ∷ input) t h = h

  check-Keeps :
      (m : ℕ) (full : Bool) (line : A) (t : Tailer A)
      → ltb m t.buffer.len ≡ full
      → t.buffer.len ≤ suc m
      → Keeps m (
          if full
          then record t { producer = clearing line; warnings = t.warnings + 1 }
          else record t { producer = pushing line })
  check-Keeps m true line t e h = h
  check-Keeps m false line t e h = ground arith

  produce-Keeps :
      (m : ℕ) (p : Producer A) (t : Tailer A)
      → t.buffer.len ≤ allowed m p
      → Keeps m t
      → Keeps m (produce_at (pos (suc m)) p t)
  unfolding produce_at metered is_full LineBuffer.clear
  produce-Keeps m starting t h k = h
  produce-Keeps m receiving t h k = receive-Keeps m t.input t h
  produce-Keeps m (checking line) t h k = check-Keeps m (ltb m t.buffer.len) line t refl h
  produce-Keeps m (clearing line) t h k = omega arith
  produce-Keeps m (resetting line) t h k = h
  produce-Keeps m (pushing line) t h k = omega (arith, push-len t.buffer line)
  produce-Keeps m counting t h k = h
  produce-Keeps m closing t h k = omega (arith, close-len t.buffer)
  produce-Keeps m stopping t h k = h
  produce-Keeps m returned t h k = k

  popped-Keeps :
      (m : ℕ) (p : Popped A) (b : LineBuffer A) (t : Tailer A)
      → b.len ≤ t.buffer.len
      → Keeps m t
      → Keeps m (popped_to p b t)
  unfolding popped_to
  popped-Keeps m Popped.waits b t h k = k
  popped-Keeps m Popped.interrupted b t h k = omega arith
  popped-Keeps m (Popped.popped none) b t h k = omega arith
  popped-Keeps m (Popped.popped (some line)) b t h k = omega arith

  consume-Keeps : (m : ℕ) (c : Consumer A) (t : Tailer A) → Keeps m t → Keeps m (consume_at c t)
  unfolding consume_at
  consume-Keeps m popping t k = popped-Keeps m _ _ t (blocking_pop-len t.buffer) k
  consume-Keeps m (counting_out line) t k = k
  consume-Keeps m (sending line) t k = k
  consume-Keeps m ended t k = k

  drop-Keeps :
      (m : ℕ) (c : Consumer A) (done : Bool) (t : Tailer A) → Keeps m t → Keeps m (drop_at c done t)
  unfolding drop_at
  drop-Keeps m (sending line) true t k = k
  drop-Keeps m (sending line) false t k = k
  drop-Keeps m (counting_out line) done t k = k
  drop-Keeps m popping done t k = k
  drop-Keeps m ended done t k = k

  move-Keeps : (m : ℕ) (v : Move) (t : Tailer A) → Keeps m t → Keeps m (move (pos (suc m)) v t)
  unfolding move produce consume
  move-Keeps m produces t k = produce-Keeps m t.producer t k k
  move-Keeps m consumes t k = consume-Keeps m t.consumer t k
  move-Keeps m drops t k = drop-Keeps m t.consumer t.done t k
  move-Keeps m closes t k = k

  run-Keeps : (m : ℕ) (vs : List Move) (t : Tailer A) → Keeps m t → Keeps m (run (pos (suc m)) vs t)
  unfolding run
  run-Keeps m [] t k = k
  run-Keeps m (v ∷ vs) t k = run-Keeps m vs (move (pos (suc m)) v t) (move-Keeps m v t k)

  allowed-le : (m : ℕ) (p : Producer A) → allowed m p ≤ suc m
  allowed-le m (resetting line) = omega arith
  allowed-le m (pushing line) = omega arith
  allowed-le m starting = omega arith
  allowed-le m receiving = omega arith
  allowed-le m counting = omega arith
  allowed-le m closing = omega arith
  allowed-le m stopping = omega arith
  allowed-le m returned = omega arith
  allowed-le m (checking line) = omega arith
  allowed-le m (clearing line) = omega arith

  -- With a limit of `suc m` lines the buffer never holds more, whatever the order of the steps
  -- of the two goroutines: the check and the push are two calls, but in between the consumer
  -- can only take lines out.
  pub run-len :
      (m : ℕ) (lines : List A) (ms : List Move)
      → (run (pos (suc m)) ms (buffered_tailer lines)).buffer.len ≤ suc m
  unfolding buffered_tailer new_line_buffer
  run-len m lines ms =
      let t = run (pos (suc m)) ms (buffered_tailer lines) in
      omega (arith, run-Keeps m ms (buffered_tailer lines) (omega arith), allowed-le m t.producer)
