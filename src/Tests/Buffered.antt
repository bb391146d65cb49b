-- ===== src/Tests/Buffered.antt =====
-- The two goroutines of tailer/bufferedTailer.go under some orders of their steps.
use go_libtail.Prelude.{ℕ, ◌≡◌, refl, List, [], ◌∷◌}
use go_libtail.Prelude.{◌++◌, ◌≤◌, replicate}
use go_libtail.Prelude.Int.{pos}
use mathlib.Core.List.{Sublistᴰ}
use go_libtail.LineBuffer.Inv.{Holds}
use go_libtail.LineBuffer
use go_libtail.LineBuffer.{blocking_pop, new_line_buffer}
use go_libtail.BufferedTailer.{
  is_full, Move, produces, consumes, buffered_tailer, run, move, produce, consume,
}
use go_libtail.BufferedTailer.Flow.{carried, taken}
use go_libtail.BufferedTailer.Fifo.{run-Sublist, run_complete}
use go_libtail.BufferedTailer.Bound.{run-len}

abbrev three : List ℕ
three = 1 ∷ 2 ∷ 3 ∷ []

-- Three lines under a limit of one: the second comes while the first is with the consumer, and
-- the third while the second is still in the buffer, which is cleared.
abbrev crowded : List Move
crowded =
    produces ∷ produces ∷ produces ∷ produces ∷ produces ∷ consumes ∷ consumes ∷ produces ∷ produces
    ∷ produces ∷ produces ∷ produces ∷ produces ∷ produces ∷ produces ∷ produces ∷ consumes
    ∷ consumes ∷ []

run-Sublist_example : Sublistᴰ (run (pos 1) crowded (buffered_tailer (three))).out (three)
run-Sublist_example = run-Sublist (three) (pos 1) crowded

run-len_example : (run (pos 1) crowded (buffered_tailer (three))).buffer.len ≤ 1
run-len_example = run-len 0 (three) crowded

-- The first line received, the second in the buffer, the third with the producer.
abbrev unlimited : List Move
unlimited =
    produces ∷ produces ∷ produces ∷ produces ∷ produces ∷ consumes ∷ consumes ∷ consumes ∷ produces
    ∷ produces ∷ produces ∷ produces ∷ produces ∷ []

run_complete_example :
    let t = run (pos 0) unlimited (buffered_tailer (three)) in
    ((queued : List ℕ) × Holds t.buffer queued
      × (t.out ++ (taken t.consumer ++ (queued ++ (carried t.producer ++ t.input))) ≡ three))
    × ((n : ℕ) × ((run (pos 0) (replicate n consumes) t).out ++ (carried t.producer ++ t.input)
          ≡ three))
unfolding run move produce consume buffered_tailer is_full blocking_pop LineBuffer.push
    new_line_buffer
run_complete_example = run_complete (three) (pos 0) unlimited refl refl refl
