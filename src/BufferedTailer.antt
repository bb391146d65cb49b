-- ===== src/BufferedTailer.antt =====
-- tailer/bufferedTailer.go: a goroutine takes lines from the wrapped tailer into the buffer,
-- another takes them out to the consumer. The points between the calls that others can see are
-- the states of the two goroutines; every call of a method of the buffer is one step.
pub mod Len
pub mod Flow
pub mod Moves
pub mod Drain
pub mod Fifo
pub mod Bound
use go_libtail.Prelude.{
  ℕ, zero, suc, ◌+◌, Bool, true, false, Option, none, some, List, [], ◌∷◌, ◌++◌, ltb, if◌then◌else◌,
}
use go_libtail.Prelude.Int.{ℤ, pos, negsuc}
use go_libtail.LineBuffer
use go_libtail.LineBuffer.{
  LineBuffer, Popped, new_line_buffer, line_buffer_initial_size, blocking_pop,
}

-- A call of the BufferLoadMetric.
pub data MetricCall : Type 0 where
  start inc dec stop : MetricCall
  set : ℕ → MetricCall

-- Where the producer is: at the top, before each call, and after its return.
pub data Producer (A : Type 0) : Type 0 where
  starting receiving counting closing stopping returned : Producer A
  checking clearing resetting pushing : A → Producer A

-- Where the consumer is; `ended` is after close(out).
pub data Consumer (A : Type 0) : Type 0 where
  popping ended : Consumer A
  counting_out sending : A → Consumer A

-- `input` is what the wrapped tailer will still send before it closes its channel, `out` what
-- the reader of Lines() has received. `warnings` counts the log's warnings of dropped lines.
pub record Tailer (A : Type 0) : Type 0 where
  pub input : List A
  pub producer : Producer A
  pub buffer : LineBuffer A
  pub consumer : Consumer A
  pub out : List A
  pub done : Bool
  pub metric : List MetricCall
  pub warnings : ℕ

-- One goroutine goes on, `drops` being the consumer's choice of the done channel; or Close.
pub data Move : Type 0 where
  produces consumes drops closes : Move

-- maxLinesInBuffer > 0 && n > maxLinesInBuffer-1
unfoldable pub is_full : ℤ → ℕ → Bool
is_full (pos zero) n = false
is_full (pos (suc m)) n = ltb m n
is_full (negsuc m) n = false

module _ {A : Type 0} where
  unfoldable pub buffered_tailer : List A → Tailer A
  buffered_tailer lines = record {
    input = lines;
    producer = starting;
    buffer = new_line_buffer line_buffer_initial_size;
    consumer = popping;
    out = [];
    done = false;
    metric = [];
    warnings = 0;
  }

  unfoldable pub metered : Tailer A → MetricCall → Producer A → Tailer A
  metered t c p = record t { metric = t.metric ++ c ∷ []; producer = p }

  -- line, ok := <-orig.Lines()
  unfoldable pub receive : List A → Tailer A → Tailer A
  receive [] t = record t { producer = closing }
  receive (line ∷ lines) t = record t { input = lines; producer = checking line }

  unfoldable pub produce_at : ℤ → Producer A → Tailer A → Tailer A
  unfolding metered receive
  produce_at max starting t = metered t start receiving
  produce_at max receiving t = receive t.input t
  produce_at max (checking line) t =
      if is_full max t.buffer.len
      then record t { producer = clearing line; warnings = t.warnings + 1 }
      else record t { producer = pushing line }
  produce_at max (clearing line) t = record t {
    buffer = LineBuffer.clear t.buffer;
    producer = resetting line;
  }
  produce_at max (resetting line) t = metered t (set 0) (pushing line)
  produce_at max (pushing line) t = record t {
    buffer = LineBuffer.push t.buffer line;
    producer = counting;
  }
  produce_at max counting t = metered t inc receiving
  produce_at max closing t = record t { buffer = LineBuffer.close t.buffer; producer = stopping }
  produce_at max stopping t = metered t stop returned
  produce_at max returned t = t

  unfoldable pub produce : ℤ → Tailer A → Tailer A
  unfolding produce_at
  produce max t = produce_at max t.producer t

  -- What the consumer does with the result of BlockingPop. A nil line is taken for the end.
  unfoldable pub popped_to : Popped A → LineBuffer A → Tailer A → Tailer A
  popped_to Popped.waits b t = t
  popped_to Popped.interrupted b t = record t { buffer = b; consumer = ended }
  popped_to (Popped.popped none) b t = record t { buffer = b; consumer = ended }
  popped_to (Popped.popped (some line)) b t = record t { buffer = b; consumer = counting_out line }

  unfoldable pub consume_at : Consumer A → Tailer A → Tailer A
  unfolding popped_to
  consume_at popping t = let (p, b) = blocking_pop t.buffer in popped_to p b t
  consume_at (counting_out line) t = record t {
    metric = t.metric ++ dec ∷ [];
    consumer = sending line;
  }
  consume_at (sending line) t = record t { out = t.out ++ line ∷ []; consumer = popping }
  consume_at ended t = t

  unfoldable pub consume : Tailer A → Tailer A
  unfolding consume_at
  consume t = consume_at t.consumer t

  unfoldable pub drop_at : Consumer A → Bool → Tailer A → Tailer A
  drop_at (sending line) true t = record t { consumer = popping }
  drop_at (sending line) false t = t
  drop_at (counting_out line) done t = t
  drop_at popping done t = t
  drop_at ended done t = t

  unfoldable pub move : ℤ → Move → Tailer A → Tailer A
  unfolding drop_at
  move max produces t = produce max t
  move max consumes t = consume t
  move max drops t = drop_at t.consumer t.done t
  move max closes t = record t { done = true }

  unfoldable pub run : ℤ → List Move → Tailer A → Tailer A
  run max [] t = t
  run max (m ∷ ms) t = run max ms (move max m t)
