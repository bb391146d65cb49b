-- ===== src/BufferedTailer/Moves.antt =====
-- The steps of the goroutines, and where each takes the lines.
use go_libtail.Prelude.{
  ℕ, ◌+◌, ◌≡◌, ◌≢◌, refl, sym, ap, ◌∙◌, subst, Bool, true, false, none, some, List, [], ◌∷◌, ◌++◌,
  arith, append_assoc, if◌then◌else◌,
}
use go_libtail.Prelude.Int.{ℤ}
use mathlib.Core.List.{Sublistᴰ}
use mathlib.Core.List.Sublistᴰ as Sublist
use mathlib.Core.Bool.{true≢false}
use go_libtail.LineBuffer.{Popped, blocking_pop, LineBuffer, Popped, blocking_pop}
use go_libtail.LineBuffer.Queue.{step, pop_lines, Op, step, pop_lines}
use go_libtail.LineBuffer.Refine.{shown, Shows, call, shown, call-Shows}
use go_libtail.BufferedTailer.{
  Producer, starting, receiving, counting, closing, stopping, returned, checking, clearing,
  resetting, pushing, Consumer, popping, ended, counting_out, sending, Tailer, Move, produces,
  consumes, drops, closes, is_full, produce, consume, move, run, produce_at, consume_at, popped_to,
  drop_at, receive,
}
use go_libtail.BufferedTailer.Flow.{carried, has_closed, taken, IsWarned, Flow, Flows}

module _ {A : Type 0} where
  -- The same lines in other places.
  moved :
      {lines rest held out rest' held' out' : List A} {closed closed' done : Bool} {warnings : ℕ}
      {b b' : LineBuffer A} {queued queued' : List A}
      → Flow lines closed rest held out done warnings b queued
      → Shows b' (record { lines = queued'; closed = closed' })
      → out ++ (held ++ (queued ++ rest)) ≡ out' ++ (held' ++ (queued' ++ rest'))
      → Flow lines closed' rest' held' out' done warnings b' queued'
  moved {lines} h shows e = record {
    shows = shows;
    ordered = subst (λ l. Sublistᴰ l lines) e h.ordered;
    complete = λ w d. sym e ∙ h.complete w d;
  }

  -- Fewer lines, where that is accounted for.
  lost :
      {lines rest held out held' queued' : List A} {closed done : Bool} {warnings : ℕ}
      {b b' : LineBuffer A} {queued : List A}
      → Flow lines closed rest held out done warnings b queued
      → Shows b' (record { lines = queued'; closed = closed })
      → Sublistᴰ held' held
      → Sublistᴰ queued' queued
      → (warnings ≡ 0 → done ≢ false)
      → Flow lines closed rest held' out done warnings b' queued'
  lost {rest = rest} {out = out} h shows fewer shorter excuse = record {
    shows = shows;
    ordered =
        Sublist.trans
          (Sublist.append (Sublist.refl out)
            (Sublist.append fewer (Sublist.append shorter (Sublist.refl rest))))
          h.ordered;
    complete = λ w d. absurd (excuse w d);
  }

  warn :
      {lines rest held out queued : List A} {closed done : Bool} {w : ℕ} {b : LineBuffer A}
      → Flow lines closed rest held out done w b queued
      → Flow lines closed rest held out done (w + 1) b queued
  warn h = record { shows = h.shows; ordered = h.ordered; complete = λ e d. absurd (omega arith) }

  receive-Flows :
      (lines input : List A) (t : Tailer A) (queued : List A)
      → t.input ≡ input
      → Flow lines false input (taken t.consumer) t.out t.done t.warnings t.buffer queued
      → Flows lines (receive input t) queued
  unfolding receive
  receive-Flows lines [] t queued e h = record {
    flow = moved h h.shows (ap (λ l. t.out ++ (taken t.consumer ++ (queued ++ l))) (sym e));
    warned = tt;
  }
  receive-Flows lines (line ∷ input) t queued e h = record {
    flow = moved h h.shows refl;
    warned = tt;
  }

  check-Flows :
      (lines : List A) (full : Bool) (line : A) (t : Tailer A) (queued : List A)
      → Flow lines false (line ∷ t.input) (taken t.consumer) t.out t.done t.warnings t.buffer queued
      → Flows lines
          (if full
            then record t { producer = clearing line; warnings = t.warnings + 1 }
            else record t { producer = pushing line })
          queued
  check-Flows lines true line t queued h = record { flow = warn h; warned = λ e. omega arith }
  check-Flows lines false line t queued h = record { flow = h; warned = tt }

  produce-Flows :
      (lines : List A) (max : ℤ) (p : Producer A) (t : Tailer A) (queued : List A)
      → Flow lines
          (has_closed p)
          (carried p ++ t.input)
          (taken t.consumer)
          t.out
          t.done
          t.warnings
          t.buffer
          queued
      → IsWarned p t.warnings
      → Flows lines t queued
      → (queued' : List A) × Flows lines (produce_at max p t) queued'
  unfolding produce_at call step
  produce-Flows lines max starting t q h w same = (q, record { flow = h; warned = tt })
  produce-Flows lines max receiving t q h w same = (q, receive-Flows lines t.input t q refl h)
  produce-Flows lines max (checking line) t q h w same =
      (q, check-Flows lines (is_full max t.buffer.len) line t q h)
  produce-Flows lines max (clearing line) t q h w same = (
    [],
    record {
      flow =
          lost h (call-Shows t.buffer _ Op.clear h.shows).1 (Sublist.refl _) (Sublist.nil-sublist q)
            (λ e d. w e);
      warned = tt;
    },
  )
  produce-Flows lines max (resetting line) t q h w same = (q, record { flow = h; warned = tt })
  produce-Flows lines max (pushing line) t q h w same = (
    q ++ line ∷ [],
    record {
      flow =
          moved h (call-Shows t.buffer _ (Op.push line) h.shows).1
            (ap (λ l. t.out ++ (taken t.consumer ++ l)) (sym (append_assoc q (line ∷ []) t.input)));
      warned = tt;
    },
  )
  produce-Flows lines max counting t q h w same = (q, record { flow = h; warned = tt })
  produce-Flows lines max closing t q h w same =
      (q, record { flow = moved h (call-Shows t.buffer _ Op.close h.shows).1 refl; warned = tt })
  produce-Flows lines max stopping t q h w same = (q, record { flow = h; warned = tt })
  produce-Flows lines max returned t q h w same = (q, same)

  -- What BlockingPop gave the consumer is the first of the lines that the buffer held.
  pop-Flows :
      (lines : List A) (closed : Bool) (p : Popped A) (b : LineBuffer A) (t : Tailer A)
      (queued : List A)
      → Flow lines closed (carried t.producer ++ t.input) [] t.out t.done t.warnings t.buffer queued
      → has_closed t.producer ≡ closed
      → (shown p ≡ (step (record { lines = queued; closed = closed }) Op.pop).0)
      → Shows b (step (record { lines = queued; closed = closed }) Op.pop).1
      → IsWarned t.producer t.warnings
      → Flows lines t queued
      → (queued' : List A) × Flows lines (popped_to p b t) queued'
  unfolding popped_to shown step pop_lines
  pop-Flows lines closed Popped.waits b t q h k e s w same = (q, same)
  pop-Flows lines true Popped.interrupted b t q h k e s w same = (
    q,
    record {
      flow = moved h (subst (λ c. Shows b (record { lines = q; closed = c })) (sym k) s) refl;
      warned = w;
    },
  )
  pop-Flows lines true (Popped.popped none) b t q h k e s w same = cc
  pop-Flows lines true (Popped.popped (some line)) b t q h k e s w same = cc
  pop-Flows lines false Popped.interrupted b t [] h k e s w same = cc
  pop-Flows lines false (Popped.popped none) b t [] h k e s w same = cc
  pop-Flows lines false (Popped.popped (some line)) b t [] h k e s w same = cc
  pop-Flows lines false Popped.interrupted b t (x ∷ q) h k e s w same = cc
  pop-Flows lines false (Popped.popped none) b t (x ∷ q) h k e s w same = cc
  pop-Flows lines false (Popped.popped (some line)) b t (x ∷ q) h k e s w same =
      let first : x ≡ line = cc in
      (
        q,
        record {
          flow =
              moved h (subst (λ c. Shows b (record { lines = q; closed = c })) (sym k) s)
                (ap (λ y. t.out ++ (y ∷ (q ++ (carried t.producer ++ t.input)))) first);
          warned = w;
        },
      )

  consume-Flows :
      (lines : List A) (c : Consumer A) (t : Tailer A) (queued : List A)
      → Flow lines
          (has_closed t.producer)
          (carried t.producer ++ t.input)
          (taken c)
          t.out
          t.done
          t.warnings
          t.buffer
          queued
      → Flows lines t queued
      → (queued' : List A) × Flows lines (consume_at c t) queued'
  unfolding consume_at call
  consume-Flows lines popping t q h same =
      let (answer, after) = call-Shows t.buffer _ Op.pop h.shows in
      pop-Flows lines (has_closed t.producer) ((blocking_pop t.buffer).0)
        ((blocking_pop t.buffer).1) t q h refl answer after same.warned same
  consume-Flows lines (counting_out line) t q h same =
      (q, record { flow = h; warned = same.warned })
  consume-Flows lines (sending line) t q h same = (
    q,
    record {
      flow =
          moved h h.shows
            (sym (append_assoc t.out (line ∷ []) (q ++ (carried t.producer ++ t.input))));
      warned = same.warned;
    },
  )
  consume-Flows lines ended t q h same = (q, same)

  drop-Flows :
      (lines : List A) (c : Consumer A) (done : Bool) (t : Tailer A) (queued : List A)
      → t.done ≡ done
      → Flow lines
          (has_closed t.producer)
          (carried t.producer ++ t.input)
          (taken c)
          t.out
          t.done
          t.warnings
          t.buffer
          queued
      → Flows lines t queued
      → Flows lines (drop_at c done t) queued
  unfolding drop_at
  drop-Flows lines (sending line) true t q e h same = record {
    flow = lost h h.shows (Sublist.nil-sublist _) (Sublist.refl q) (λ w d. true≢false (sym e ∙ d));
    warned = same.warned;
  }
  drop-Flows lines (sending line) false t q e h same = same
  drop-Flows lines (counting_out line) done t q e h same = same
  drop-Flows lines popping done t q e h same = same
  drop-Flows lines ended done t q e h same = same

  pub move-Flows :
      (lines : List A) (max : ℤ) (m : Move) (t : Tailer A) (queued : List A)
      → Flows lines t queued
      → (queued' : List A) × Flows lines (move max m t) queued'
  unfolding move produce consume
  move-Flows lines max produces t q h = produce-Flows lines max t.producer t q h.flow h.warned h
  move-Flows lines max consumes t q h = consume-Flows lines t.consumer t q h.flow h
  move-Flows lines max drops t q h = (q, drop-Flows lines t.consumer t.done t q refl h.flow h)
  move-Flows lines max closes t q h = (
    q,
    record {
      flow = record {
        shows = h.flow.shows;
        ordered = h.flow.ordered;
        complete = λ w d. absurd (true≢false d);
      };
      warned = h.warned;
    },
  )

  pub run-Flows :
      (lines : List A) (max : ℤ) (ms : List Move) (t : Tailer A) (queued : List A)
      → Flows lines t queued
      → (queued' : List A) × Flows lines (run max ms t) queued'
  unfolding run
  run-Flows lines max [] t q h = (q, h)
  run-Flows lines max (m ∷ ms) t q h =
      let (q', h') = move-Flows lines max m t q h in run-Flows lines max ms (move max m t) q' h'
