-- ===== src/LineBuffer/Refine.antt =====
-- The ring buffer and the queue, call by call.
use go_libtail.Prelude.{
  ℕ, suc, ◌*◌, subst, ◌<◌, ◌≡◌, refl, sym, ap, ap₂, ◌∙◌, Bool, true, false, not, ◌&&◌, none, some,
  List, [], ◌∷◌, ◌++◌, arith, length, get_or, ◌==◌, leb, if◌then◌else◌, replicate,
}
use mathlib.Core.Bool.{true≢false}
use go_libtail.LineBuffer
use go_libtail.LineBuffer.{LineBuffer, Popped, new_line_buffer, grow, put, take_first, blocking_pop}
use go_libtail.LineBuffer.Queue.{Op, Answer, Queue, step, run, pop_lines}
use go_libtail.LineBuffer.Inv.{
  Holds, new_line_buffer-Holds, length-contents, grow-Holds, length-copy_items, length-replicate,
}
use go_libtail.LineBuffer.Keeps.{put-Holds, take_first-Holds, clear-Holds}

suc-test : (n : ℕ) → (suc n == 0) ≡ false
suc-test n = ground arith

module _ {A : Type 0} where
  unfoldable pub shown : Popped A → Answer A
  shown Popped.waits = Answer.waits
  shown Popped.interrupted = Answer.interrupted
  shown (Popped.popped none) = Answer.nil_line
  shown (Popped.popped (some x)) = Answer.got x

  -- One call of a method.
  unfoldable pub call : LineBuffer A → Op A → Answer A × LineBuffer A
  unfolding shown
  call b (Op.push x) = (Answer.done, LineBuffer.push b x)
  call b Op.pop = let (p, b') = blocking_pop b in (shown p, b')
  call b Op.close = (Answer.done, LineBuffer.close b)
  call b Op.clear = (Answer.done, LineBuffer.clear b)
  call b Op.size = (Answer.sized b.len, b)

  unfoldable pub calls : LineBuffer A → List (Op A) → List (Answer A)
  unfolding call
  calls b [] = []
  calls b (op ∷ ops) = let (a, b') = call b op in a ∷ calls b' ops

  pub record Shows (b : LineBuffer A) (q : Queue A) : Type 0 where
    pub lines_are : Holds b q.lines
    pub closed_is : b.closed ≡ q.closed

  -- The room that Push makes.
  grown-room :
      (b : LineBuffer A) (q : List A) (full : Bool)
      → Holds b q
      → leb (length b.items) b.len ≡ full
      → let b' = if full then grow b else b in
        Holds b' q × (b'.len < length b'.items) × (b'.closed ≡ b.closed)
  unfolding grow
  grown-room b q true h e = (
    grow-Holds b q h,
    omega (
      arith,
      h.valid.room,
      h.valid.len_in,
      length-copy_items b.items b.head 0 b.len (replicate (length b.items * 2) none),
      length-replicate {A = A} (length b.items * 2) none,
    ),
    refl,
  )
  grown-room b q false h e = (h, ground arith, refl)

  put-Shows :
      (b : LineBuffer A) (lines : List A) (closed : Bool) (x : A)
      → Shows b (record { lines = lines; closed = closed })
      → Shows (if closed then b else put (if leb (length b.items) b.len then grow b else b) x) (
          if closed
          then record { lines = lines; closed = closed }
          else record { lines = lines ++ x ∷ []; closed = closed })
  unfolding put
  put-Shows b lines true x h = h
  put-Shows b lines false x h =
      let (held, room, same) = grown-room b lines _ h.lines_are refl in
      record { lines_are = put-Holds _ lines x held room; closed_is = same ∙ h.closed_is }

  push-Shows :
      (b : LineBuffer A) (q : Queue A) (x : A)
      → Shows b q
      → Shows (LineBuffer.push b x) ((step q (Op.push x)).1)
  unfolding LineBuffer.push step
  push-Shows b q x h =
      subst
        (λ c.
          Shows (if c then b else put (if leb (length b.items) b.len then grow b else b) x)
            ((step q (Op.push x)).1))
        (sym h.closed_is) (put-Shows b q.lines q.closed x h)

  -- BlockingPop and the queue's answer, for what the two tests find.
  abbrev popped_when : LineBuffer A → Bool → Bool → Popped A × LineBuffer A
  popped_when b closed empty =
      if empty && not closed
      then (Popped.waits, b)
      else if closed
      then (Popped.interrupted, b)
      else (Popped.popped (get_or b.items b.head none), take_first b)

  abbrev asked : Queue A → Bool → Answer A × Queue A
  asked q closed = if closed then (Answer.interrupted, q) else pop_lines q.lines

  pop-at :
      (b : LineBuffer A) (closed empty : Bool) (lines : List A)
      → b.empty ≡ empty
      → Shows b (record { lines = lines; closed = closed })
      → let o = popped_when b closed empty in
        let a = asked (record { lines = lines; closed = closed }) closed in
        (shown (o.0) ≡ a.0) × Shows (o.1) (a.1)
  unfolding shown pop_lines take_first
  pop-at b true true lines e h = (refl, h)
  pop-at b true false lines e h = (refl, h)
  pop-at b false true [] e h = (refl, h)
  pop-at b false true (x ∷ xs) e h = absurd (
      true≢false (
        sym e
        ∙ h.lines_are.valid.empty_is
        ∙ ap (λ n. n == 0) (length-contents b _ h.lines_are)
        ∙ suc-test (length xs)))
  pop-at b false false [] e h = absurd (
      true≢false (
        sym (
          sym e ∙ h.lines_are.valid.empty_is ∙ ap (λ n. n == 0) (length-contents b _ h.lines_are))))
  pop-at b false false (x ∷ xs) e h =
      let (first, held) = take_first-Holds b x xs h.lines_are in
      (
        ap (λ o. shown (Popped.popped o)) first,
        record { lines_are = held; closed_is = h.closed_is },
      )

  close-at :
      (b : LineBuffer A) (c : Bool)
      → b.closed ≡ c
      → (if not c then record b { closed = true } else b).closed ≡ true
  close-at b true e = e
  close-at b false e = refl

  close-keeps :
      (b : LineBuffer A) (q : List A) (c : Bool)
      → Holds b q
      → Holds (if not c then record b { closed = true } else b) q
  close-keeps b q true h = h
  close-keeps b q false h = record {
    valid = record {
      room = h.valid.room;
      head_in = h.valid.head_in;
      len_in = h.valid.len_in;
      tail_is = h.valid.tail_is;
      empty_is = h.valid.empty_is;
    };
    lines_are = h.lines_are;
  }

  -- Every method answers as the queue does, and the two stay in step.
  pub call-Shows :
      (b : LineBuffer A) (q : Queue A) (op : Op A)
      → Shows b q
      → ((call b op).0 ≡ (step q op).0) × Shows ((call b op).1) ((step q op).1)
  unfolding call step blocking_pop LineBuffer.close LineBuffer.clear
  call-Shows b q (Op.push x) h = (refl, push-Shows b q x h)
  call-Shows b q Op.pop h =
      subst
        (λ c.
          let o = popped_when b c b.empty in
          let a = asked q q.closed in (shown (o.0) ≡ a.0) × Shows (o.1) (a.1))
        (sym h.closed_is) (pop-at b q.closed b.empty q.lines refl h)
  call-Shows b q Op.close h = (
    refl,
    record {
      lines_are = close-keeps b q.lines b.closed h.lines_are;
      closed_is = close-at b b.closed refl;
    },
  )
  call-Shows b q Op.clear h =
      (refl, record { lines_are = clear-Holds b q.lines h.lines_are; closed_is = h.closed_is })
  call-Shows b q Op.size h = (ap Answer.sized (length-contents b q.lines h.lines_are), h)

  calls-run :
      (b : LineBuffer A) (q : Queue A) (ops : List (Op A)) → Shows b q → calls b ops ≡ run q ops
  unfolding calls run
  calls-run b q [] h = refl
  calls-run b q (op ∷ ops) h =
      let (same, after) = call-Shows b q op h in
      ap₂ ◌∷◌ same (calls-run ((call b op).1) ((step q op).1) ops after)

  -- A buffer made with room for at least one line answers every sequence of calls of its
  -- methods, Push, BlockingPop, Close, Clear and Len in any order, as an unbounded queue does,
  -- however often the ring wraps or grows: a queue that gives its lines out in the order they
  -- came in, is emptied by Clear, and takes and gives nothing once it is closed.
  pub new_line_buffer-run :
      (size : ℕ) (ops : List (Op A))
      → 0 < size
      → calls (new_line_buffer size) ops ≡ run (record { lines = []; closed = false }) ops
  unfolding new_line_buffer
  new_line_buffer-run size ops positive =
      calls-run _ _ ops
        (record { lines_are = new_line_buffer-Holds size positive; closed_is = refl })
