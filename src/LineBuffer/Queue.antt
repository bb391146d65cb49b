-- ===== src/LineBuffer/Queue.antt =====
-- What a line buffer promises: an unbounded queue that can be closed and cleared.
use go_libtail.Prelude.{ℕ, Bool, true, false, List, [], ◌∷◌, ◌++◌, length, if◌then◌else◌}

pub data Op (A : Type 0) : Type 0 where
  push : A → Op A
  pop : Op A
  close clear size : Op A

-- What a call shows to its caller.
pub data Answer (A : Type 0) : Type 0 where
  done waits interrupted : Answer A
  got : A → Answer A
  sized : ℕ → Answer A
  nil_line : Answer A

pub record Queue (A : Type 0) : Type 0 where
  pub lines : List A
  pub closed : Bool

module _ {A : Type 0} where
  unfoldable pub pop_lines : List A → Answer A × Queue A
  pop_lines [] = (waits, record { lines = []; closed = false })
  pop_lines (x ∷ xs) = (got x, record { lines = xs; closed = false })

  -- A closed queue takes nothing, and gives nothing but the interruption.
  unfoldable pub step : Queue A → Op A → Answer A × Queue A
  unfolding pop_lines
  step q (push x) = (done, if q.closed then q else record q { lines = q.lines ++ x ∷ [] })
  step q pop = if q.closed then (interrupted, q) else pop_lines q.lines
  step q close = (done, record q { closed = true })
  step q clear = (done, record q { lines = [] })
  step q size = (sized (length q.lines), q)

  unfoldable pub run : Queue A → List (Op A) → List (Answer A)
  run q [] = []
  run q (op ∷ ops) = let (a, q') = step q op in a ∷ run q' ops
