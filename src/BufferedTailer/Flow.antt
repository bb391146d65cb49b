-- ===== src/BufferedTailer/Flow.antt =====
-- Where the lines are: delivered, with the consumer, in the buffer, with the producer, to come.
use go_libtail.Prelude.{ℕ, ◌≡◌, ◌≢◌, refl, Bool, true, false, List, [], ◌∷◌, ◌++◌, arith}
use mathlib.Core.List.{Sublistᴰ}
use mathlib.Core.List.Sublistᴰ as Sublist
use go_libtail.LineBuffer.{LineBuffer, new_line_buffer, line_buffer_initial_size}
use go_libtail.LineBuffer.Inv.{new_line_buffer-Holds}
use go_libtail.LineBuffer.Refine.{Shows}
use go_libtail.BufferedTailer.{
  Producer, starting, receiving, counting, closing, stopping, returned, checking, clearing,
  resetting, pushing, Consumer, popping, ended, counting_out, sending, Tailer, buffered_tailer,
}

module _ {A : Type 0} where
  -- The line that the producer has received and not yet pushed.
  abbrev pub carried : Producer A → List A
  carried (checking line) = line ∷ []
  carried (clearing line) = line ∷ []
  carried (resetting line) = line ∷ []
  carried (pushing line) = line ∷ []
  carried starting = []
  carried receiving = []
  carried counting = []
  carried closing = []
  carried stopping = []
  carried returned = []

  -- Whether the producer has closed the buffer.
  abbrev pub has_closed : Producer A → Bool
  has_closed stopping = true
  has_closed returned = true
  has_closed starting = false
  has_closed receiving = false
  has_closed counting = false
  has_closed closing = false
  has_closed (checking line) = false
  has_closed (clearing line) = false
  has_closed (resetting line) = false
  has_closed (pushing line) = false

  -- The line that the consumer has popped and not yet sent.
  abbrev pub taken : Consumer A → List A
  taken (counting_out line) = line ∷ []
  taken (sending line) = line ∷ []
  taken popping = []
  taken ended = []

  -- The decision to clear has been logged.
  abbrev pub IsWarned : Producer A → ℕ → Type 0
  IsWarned (clearing line) w = w ≢ 0
  IsWarned starting w = Unit
  IsWarned receiving w = Unit
  IsWarned counting w = Unit
  IsWarned closing w = Unit
  IsWarned stopping w = Unit
  IsWarned returned w = Unit
  IsWarned (checking line) w = Unit
  IsWarned (resetting line) w = Unit
  IsWarned (pushing line) w = Unit

  -- The buffer holds `queued`. What is delivered, held by the consumer, queued and still in
  -- front of the buffer is in order; and is all of `lines` if no line was dropped, with a
  -- warning or after Close.
  pub record Flow (lines : List A) (closed : Bool) (rest held out : List A) (done : Bool)
      (warnings : ℕ) (buffer : LineBuffer A) (queued : List A) : Type 0 where
    pub shows : Shows buffer (record { lines = queued; closed = closed })
    pub ordered : Sublistᴰ (out ++ (held ++ (queued ++ rest))) lines
    pub complete : warnings ≡ 0 → done ≡ false → out ++ (held ++ (queued ++ rest)) ≡ lines

  pub record Flows (lines : List A) (t : Tailer A) (queued : List A) : Type 0 where
    pub flow :
        Flow lines
          (has_closed t.producer)
          (carried t.producer ++ t.input)
          (taken t.consumer)
          t.out
          t.done
          t.warnings
          t.buffer
          queued
    pub warned : IsWarned t.producer t.warnings

  pub buffered_tailer-Flows : (lines : List A) → Flows lines (buffered_tailer lines) []
  unfolding buffered_tailer new_line_buffer
  buffered_tailer-Flows lines = record {
    flow = record {
      shows = record {
        lines_are = new_line_buffer-Holds line_buffer_initial_size (omega arith);
        closed_is = refl;
      };
      ordered = Sublist.refl lines;
      complete = λ w d. refl;
    };
    warned = tt;
  }
