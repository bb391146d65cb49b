-- ===== src/BufferedTailer/Fifo.antt =====
-- What the reader of Lines() receives.
use go_libtail.Prelude.{
  ℕ, ◌≡◌, ap, ◌∙◌, subst, false, List, [], ◌++◌, append-nil, append_assoc, replicate, refl,
}
use go_libtail.Prelude.Int.{ℤ}
use mathlib.Core.List.{Sublistᴰ}
use mathlib.Core.List.Sublistᴰ as Sublist
use go_libtail.LineBuffer.Inv.{Holds}
use go_libtail.BufferedTailer.{Move, consumes, buffered_tailer, run}
use go_libtail.BufferedTailer.Flow.{carried, has_closed, taken, buffered_tailer-Flows}
use go_libtail.BufferedTailer.Moves.{run-Flows}
use go_libtail.BufferedTailer.Drain.{EndsClosed, run-EndsClosed, finishes}
use go_libtail.LineBuffer.Refine.{Shows}

module _ {A : Type 0} where
  -- Under every limit and every order of the steps of the two goroutines and of Close, the lines
  -- received are some of the lines of the wrapped tailer in their order, none of them twice.
  pub run-Sublist :
      (lines : List A) (max : ℤ) (ms : List Move)
      → Sublistᴰ (run max ms (buffered_tailer lines)).out lines
  run-Sublist lines max ms =
      let (queued, h) =
        run-Flows lines max ms (buffered_tailer lines) [] (buffered_tailer-Flows lines) in
      let t = run max ms (buffered_tailer lines) in
      let out = t.out in
      let pending = taken t.consumer ++ (queued ++ (carried t.producer ++ t.input)) in
      Sublist.trans
        (subst (λ l. Sublistᴰ l (out ++ pending)) (append-nil out)
          (Sublist.append (Sublist.refl out) (Sublist.nil-sublist pending)))
        h.flow.ordered

  -- As long as no warning of dropped lines was logged, Close was not called and the producer has
  -- not closed the buffer, which it does when the wrapped tailer ends, no line is lost, whatever the
  -- order of the steps. Those received, the one that the consumer holds, those in the buffer, the
  -- one that the producer holds and those still to come are, in this order, all the lines of the
  -- wrapped tailer; and so many more steps of the consumer alone are enough that those received,
  -- the one that the producer holds and those still to come are all of them.
  pub run_complete :
      (lines : List A) (max : ℤ) (ms : List Move)
      → let t = run max ms (buffered_tailer lines) in
        t.warnings ≡ 0
        → t.done ≡ false
        → has_closed t.producer ≡ false
        → ((queued : List A) × Holds t.buffer queued
            × (t.out ++ (taken t.consumer ++ (queued ++ (carried t.producer ++ t.input))) ≡ lines))
          × ((n : ℕ) × ((run max (replicate n consumes) t).out ++ (carried t.producer ++ t.input)
                ≡ lines))
  unfolding buffered_tailer
  run_complete lines max ms quiet running still_open =
      let (queued, h) =
        run-Flows lines max ms (buffered_tailer lines) [] (buffered_tailer-Flows lines) in
      let t = run max ms (buffered_tailer lines) in
      let ends =
        run-EndsClosed max ms (buffered_tailer lines) [] lines (buffered_tailer-Flows lines)
          (starts lines) in
      let (n, sent) =
        finishes max t.consumer queued t refl (subst (EndsClosed t.consumer) still_open ends) (
          subst (λ c. Shows t.buffer (record { lines = queued; closed = c })) still_open
            h.flow.shows) in
      let whole = h.flow.complete quiet running in
      (
        (queued, h.flow.shows.lines_are, whole),
        (
          n,
          ap (λ l. l ++ (carried t.producer ++ t.input)) sent
              ∙ append_assoc t.out (taken t.consumer ++ queued) _
              ∙ ap (λ l. t.out ++ l) (append_assoc (taken t.consumer) queued _)
              ∙ whole,
        ),
      )
    where
      starts :
          (lines : List A)
          → let t = buffered_tailer lines in EndsClosed t.consumer (has_closed t.producer)
      starts lines = tt
