-- ===== src/LineBuffer.antt =====
-- tailer/lineBuffer.go: the queue between the tailer and its consumer, a ring that doubles when
-- it is full. Every method runs under the lock, so each is one step; it returns the new buffer.
pub mod Queue
pub mod Ring
pub mod Inv
pub mod Keeps
pub mod Refine
use go_libtail.Prelude.{
  ℕ, zero, suc, ◌+◌, ◌-◌, ◌*◌, ◌%◌, Bool, true, false, not, ◌&&◌, Option, none, some, List, [], ◌∷◌,
  length, get_or, set, replicate, leb, ltb, ◌==◌, if◌then◌else◌,
}

-- `items` holds pointers, of which `none` is nil. The lock and its condition are not state
-- that a method reads.
pub record LineBuffer (A : Type 0) : Type 0 where
  pub items : List (Option A)
  pub head : ℕ
  pub tail : ℕ
  pub len : ℕ
  pub closed : Bool
  pub empty : Bool

abbrev pub line_buffer_initial_size : ℕ
line_buffer_initial_size = 1024

-- What BlockingPop comes to: it waits, it returns nil because the buffer is closed, or it
-- returns the pointer that it took out.
pub data Popped (A : Type 0) : Type 0 where
  waits : Popped A
  interrupted : Popped A
  popped : Option A → Popped A

module _ {A : Type 0} where
  -- NewLineBuffer, with the initial size as an argument.
  unfoldable pub new_line_buffer : ℕ → LineBuffer A
  new_line_buffer size = record {
    items = replicate size none;
    head = 0;
    tail = 0;
    len = 0;
    closed = false;
    empty = true;
  }

  -- for i := from; i < from + n; i++ { new[i] = items[(head+i)%len(items)] }
  unfoldable pub copy_items : List (Option A) → ℕ → ℕ → ℕ → List (Option A) → List (Option A)
  copy_items items head from zero new = new
  copy_items items head from (suc n) new =
      copy_items items head (from + 1) n
        (set new from (get_or items ((head + from) % length items) none))

  unfoldable pub grow : LineBuffer A → LineBuffer A
  unfolding copy_items
  grow b = record b {
    items = copy_items b.items b.head 0 b.len (replicate (length b.items * 2) none);
    head = 0;
    tail = b.len;
  }

  -- The write of Push, where there is room.
  unfoldable pub put : LineBuffer A → A → LineBuffer A
  put b line = record b {
    items = set b.items b.tail (some line);
    tail = (b.tail + 1) % length b.items;
    len = b.len + 1;
    empty = false;
  }

  unfoldable pub push : LineBuffer A → A → LineBuffer A
  unfolding grow put
  push b line = if b.closed then b else put (if leb (length b.items) b.len then grow b else b) line

  -- Whether Push signals the condition: it does if the buffer was open and empty.
  unfoldable pub push_signals : LineBuffer A → Bool
  push_signals b = not b.closed && b.empty

  unfoldable pub take_first : LineBuffer A → LineBuffer A
  take_first b = record b {
    items = set b.items b.head none;
    head = (b.head + 1) % length b.items;
    len = b.len - 1;
    empty = if b.len - 1 == 0 then true else b.empty;
  }

  -- BlockingPop: from the test of its loop on.
  unfoldable pub blocking_pop : LineBuffer A → Popped A × LineBuffer A
  unfolding take_first
  blocking_pop b =
      if b.empty && not b.closed
      then (waits, b)
      else if b.closed
      then (interrupted, b)
      else (popped (get_or b.items b.head none), take_first b)

  unfoldable pub close : LineBuffer A → LineBuffer A
  close b = if not b.closed then record b { closed = true } else b

  -- Whether Close signals the condition.
  unfoldable pub close_signals : LineBuffer A → Bool
  close_signals b = not b.closed

  -- for i := from; i < from + n; i++ { items[(head+i)%len(items)] = nil }
  unfoldable pub drop_items : ℕ → ℕ → ℕ → List (Option A) → List (Option A)
  drop_items head from zero items = items
  drop_items head from (suc n) items =
      drop_items head (from + 1) n (set items ((head + from) % length items) none)

  unfoldable pub clear : LineBuffer A → LineBuffer A
  unfolding drop_items
  clear b = record b {
    items = drop_items b.head 0 b.len b.items;
    head = 0;
    tail = 0;
    len = 0;
    empty = true;
  }
