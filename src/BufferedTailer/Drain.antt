-- ===== src/BufferedTailer/Drain.antt =====
-- What the consumer does when it goes on alone: it sends every line of an open buffer.
use go_libtail.Prelude.{
  ℕ, suc, ◌≡◌, refl, sym, ap, ◌∙◌, Bool, true, false, Bool-cases, inl, inr, none, some, List, [],
  ◌∷◌, ◌++◌, append-nil, append_assoc, replicate,
}
use go_libtail.Prelude.Int.{ℤ}
use go_libtail.LineBuffer.{LineBuffer, Popped, blocking_pop}
use go_libtail.LineBuffer.Queue.{Op, Answer, step, pop_lines}
use go_libtail.LineBuffer.Refine.{Shows, shown, call, call-Shows}
use go_libtail.BufferedTailer.{
  Producer, starting, receiving, counting, closing, stopping, returned, checking, clearing,
  resetting, pushing, Consumer, popping, ended, counting_out, sending, Tailer, dec, Move, produces,
  consumes, drops, closes, is_full, receive, produce_at, produce, popped_to, consume_at, consume,
  drop_at, move, run,
}
use go_libtail.BufferedTailer.Flow.{taken, has_closed, Flows}
use go_libtail.BufferedTailer.Moves.{move-Flows}

module _ {A : Type 0} where
  -- The consumer has ended only if the buffer is closed.
  abbrev pub EndsClosed : Consumer A → Bool → Type 0
  EndsClosed ended closed = closed ≡ true
  EndsClosed popping closed = Unit
  EndsClosed (counting_out line) closed = Unit
  EndsClosed (sending line) closed = Unit

  later_closed : (c : Consumer A) (closed : Bool) → EndsClosed c false → EndsClosed c closed
  later_closed ended closed h = absurd (cc)
  later_closed popping closed h = tt
  later_closed (counting_out line) closed h = tt
  later_closed (sending line) closed h = tt

  produce-EndsClosed :
      (max : ℤ) (p : Producer A) (t : Tailer A)
      → EndsClosed t.consumer (has_closed t.producer)
      → EndsClosed t.consumer (has_closed p)
      → let u = produce_at max p t in EndsClosed u.consumer (has_closed u.producer)
  unfolding produce_at receive
  produce-EndsClosed max starting t same h = h
  produce-EndsClosed max receiving t same h = by_input t.input
    where
      by_input :
          (lines : List A)
          → let u = receive lines t in EndsClosed u.consumer (has_closed u.producer)
      by_input [] = h
      by_input (line ∷ lines) = h
  produce-EndsClosed max (checking line) t same h = elim (Bool-cases (is_full max t.buffer.len)) [
    | inl full ↦ rw (full, produce_at) h
    | inr room ↦ rw (room, produce_at) h
  ]
  produce-EndsClosed max (clearing line) t same h = h
  produce-EndsClosed max (resetting line) t same h = h
  produce-EndsClosed max (pushing line) t same h = h
  produce-EndsClosed max counting t same h = h
  produce-EndsClosed max closing t same h = later_closed t.consumer true h
  produce-EndsClosed max stopping t same h = h
  produce-EndsClosed max returned t same h = same

  pop-EndsClosed :
      (closed : Bool) (queued : List A) (p : Popped A) (b : LineBuffer A) (t : Tailer A)
      → (shown p ≡ (step (record { lines = queued; closed = closed }) Op.pop).0)
      → has_closed t.producer ≡ closed
      → EndsClosed t.consumer (has_closed t.producer)
      → let u = popped_to p b t in EndsClosed u.consumer (has_closed u.producer)
  unfolding popped_to shown step pop_lines
  pop-EndsClosed closed q Popped.waits b t s k h = h
  pop-EndsClosed closed q (Popped.popped (some line)) b t s k h = tt
  pop-EndsClosed true q Popped.interrupted b t s k h = k
  pop-EndsClosed true q (Popped.popped none) b t s k h = k
  pop-EndsClosed false [] Popped.interrupted b t s k h = cc
  pop-EndsClosed false [] (Popped.popped none) b t s k h = cc
  pop-EndsClosed false (x ∷ q) Popped.interrupted b t s k h = cc
  pop-EndsClosed false (x ∷ q) (Popped.popped none) b t s k h = cc

  consume-EndsClosed :
      (c : Consumer A) (t : Tailer A) (queued lines : List A)
      → Flows lines t queued
      → EndsClosed t.consumer (has_closed t.producer)
      → EndsClosed c (has_closed t.producer)
      → let u = consume_at c t in EndsClosed u.consumer (has_closed u.producer)
  unfolding consume_at call
  consume-EndsClosed popping t q lines f h k =
      pop-EndsClosed (has_closed t.producer) q ((blocking_pop t.buffer).0)
        ((blocking_pop t.buffer).1) t (call-Shows t.buffer _ Op.pop f.flow.shows).0 refl h
  consume-EndsClosed (counting_out line) t q lines f h k = tt
  consume-EndsClosed (sending line) t q lines f h k = tt
  consume-EndsClosed ended t q lines f h k = h

  drop-EndsClosed :
      (c : Consumer A) (done : Bool) (t : Tailer A)
      → EndsClosed t.consumer (has_closed t.producer)
      → let u = drop_at c done t in EndsClosed u.consumer (has_closed u.producer)
  unfolding drop_at
  drop-EndsClosed (sending line) true t h = tt
  drop-EndsClosed (sending line) false t h = h
  drop-EndsClosed (counting_out line) done t h = h
  drop-EndsClosed popping done t h = h
  drop-EndsClosed ended done t h = h

  move-EndsClosed :
      (max : ℤ) (m : Move) (t : Tailer A) (queued lines : List A)
      → Flows lines t queued
      → EndsClosed t.consumer (has_closed t.producer)
      → let u = move max m t in EndsClosed u.consumer (has_closed u.producer)
  unfolding move produce consume
  move-EndsClosed max produces t q lines f h = produce-EndsClosed max t.producer t h h
  move-EndsClosed max consumes t q lines f h = consume-EndsClosed t.consumer t q lines f h h
  move-EndsClosed max drops t q lines f h = drop-EndsClosed t.consumer t.done t h
  move-EndsClosed max closes t q lines f h = h

  pub run-EndsClosed :
      (max : ℤ) (ms : List Move) (t : Tailer A) (queued lines : List A)
      → Flows lines t queued
      → EndsClosed t.consumer (has_closed t.producer)
      → let u = run max ms t in EndsClosed u.consumer (has_closed u.producer)
  unfolding run
  run-EndsClosed max [] t q lines f h = h
  run-EndsClosed max (m ∷ ms) t q lines f h =
      let (q', f') = move-Flows lines max m t q f in
      run-EndsClosed max ms (move max m t) q' lines f' (move-EndsClosed max m t q lines f h)

  -- BlockingPop gives the first line of an open buffer.
  pop_one :
      (b : LineBuffer A) (x : A) (q : List A)
      → Shows b (record { lines = x ∷ q; closed = false })
      → (b' : LineBuffer A) × (blocking_pop b ≡ (Popped.popped (some x), b'))
        × Shows b' (record { lines = q; closed = false })
  unfolding call shown step pop_lines
  pop_one b x q h =
      let (answer, after) = call-Shows b _ Op.pop h in by_popped (blocking_pop b) refl answer after
    where
      by_popped :
          (o : Popped A × LineBuffer A)
          → blocking_pop b ≡ o
          → shown o.0 ≡ Answer.got x
          → Shows o.1 (record { lines = q; closed = false })
          → (b' : LineBuffer A) × (blocking_pop b ≡ (Popped.popped (some x), b'))
            × Shows b' (record { lines = q; closed = false })
      by_popped (Popped.waits, b') e s k = absurd (cc)
      by_popped (Popped.interrupted, b') e s k = absurd (cc)
      by_popped (Popped.popped none, b') e s k = absurd (cc)
      by_popped (Popped.popped (some y), b') e s k =
          let same : y ≡ x = cc in (b', e ∙ ap (λ z. (Popped.popped (some z), b')) same, k)

  module _ (max : ℤ) where
    -- So many steps of the consumer.
    abbrev goes_on : ℕ → Tailer A → Tailer A
    goes_on n t = run max (replicate n consumes) t

    popped-consume :
        (t : Tailer A) (x : A) (b : LineBuffer A)
        → t.consumer ≡ popping
        → blocking_pop t.buffer ≡ (Popped.popped (some x), b)
        → consume t ≡ record t { buffer = b; consumer = counting_out x }
    unfolding consume consume_at popped_to
    popped-consume t x b e p = rw (e, consume) (rw (p, consume_at) refl)

    drain :
        (q : List A) (t : Tailer A)
        → t.consumer ≡ popping
        → Shows t.buffer (record { lines = q; closed = false })
        → (n : ℕ) × ((goes_on n t).out ≡ t.out ++ q)
    unfolding run move consume consume_at
    drain [] t e h = (0, sym (append-nil t.out))
    drain (x ∷ q) t e h =
        let (b, popped, after) = pop_one t.buffer x q h in
        let sent : Tailer A = record t {
          buffer = b;
          consumer = popping;
          out = t.out ++ x ∷ [];
          metric = t.metric ++ dec ∷ [];
        } in
        let (n, runs) = drain q sent refl after in
        let first = popped-consume t x b e popped in
        (
          suc (suc (suc n)),
          ap (λ u. (goes_on n (consume (consume u))).out) first
              ∙ runs
              ∙ append_assoc t.out (x ∷ []) q,
        )

    sends :
        (x : A) (q : List A) (t : Tailer A)
        → t.consumer ≡ sending x
        → Shows t.buffer (record { lines = q; closed = false })
        → (n : ℕ) × ((goes_on n t).out ≡ t.out ++ x ∷ q)
    unfolding run move consume consume_at
    sends x q t e s =
        let sent : Tailer A = record t { consumer = popping; out = t.out ++ x ∷ [] } in
        let (n, runs) = drain q sent refl s in
        let one : consume t ≡ sent = rw (e, consume) refl in
        (suc n, ap (λ u. (goes_on n u).out) one ∙ runs ∙ append_assoc t.out (x ∷ []) q)

    -- The consumer sends the line that it holds and those in the buffer.
    pub finishes :
        (c : Consumer A) (q : List A) (t : Tailer A)
        → t.consumer ≡ c
        → EndsClosed c false
        → Shows t.buffer (record { lines = q; closed = false })
        → (n : ℕ) × ((goes_on n t).out ≡ t.out ++ (taken c ++ q))
    unfolding run move consume consume_at
    finishes ended q t e h s = absurd (cc)
    finishes popping q t e h s = drain q t e s
    finishes (sending x) q t e h s = sends x q t e s
    finishes (counting_out x) q t e h s =
        let counted : Tailer A = record t { consumer = sending x; metric = t.metric ++ dec ∷ [] } in
        let (n, runs) = sends x q counted refl s in
        let one : consume t ≡ counted = rw (e, consume) refl in
        (suc n, ap (λ u. (goes_on n u).out) one ∙ runs)
