-- ===== src/Tests/Buffer.antt =====
-- The line buffer, tailer/lineBuffer.go, on short sequences of calls.
use go_libtail.Prelude.{ℕ, ◌≡◌, List, [], ◌∷◌, false, arith}
use go_libtail.LineBuffer.{new_line_buffer}
use go_libtail.LineBuffer.Queue.{Op, run, push, pop, close, clear, size}
use go_libtail.LineBuffer.Refine.{calls, new_line_buffer-run}

-- Three lines in a ring of two: it wraps and grows; then a clear, and a close.
abbrev busy : List (Op ℕ)
busy =
    push 1
    ∷ pop
    ∷ push 2
    ∷ push 3
    ∷ push 4
    ∷ pop
    ∷ size
    ∷ clear
    ∷ pop
    ∷ push 5
    ∷ pop
    ∷ close
    ∷ pop
    ∷ []

new_line_buffer-run_example :
    calls (new_line_buffer 2) busy ≡ run (record { lines = []; closed = false }) busy
new_line_buffer-run_example = new_line_buffer-run 2 busy (omega arith)
