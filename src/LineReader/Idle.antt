-- ===== src/LineReader/Idle.antt =====
-- Readers with nothing left in their bufio.Reader: new ones, cleared ones, and those that have
-- come to the end of their file. They may go on with another file, as after a rename.
use go_libtail.Prelude.{
  ℕ, zero, suc, ◌+◌, ◌≤◌, ◌<◌, ◌≡◌, refl, sym, subst, ap, ◌∙◌, true, false, inl, inr, Option, none,
  some, [], ◌++◌, arith, length, if◌then◌else◌, append-nil, length-append, Bool-cases,
}
use go_libtail.Bufio.{Bytes, File, Reader, new_reader_size, index_byte}
use go_libtail.Bufio.Laws.{IsReader, pending}
use go_libtail.LineReader.{LineReader, newline, held, fresh_reader, make_bytes, clear}
use go_libtail.LineReader.ReadLine.{rebind, read_loop, read_line, is_bound, buffered_bytes}
use go_libtail.LineReader.Spec.{Stream, next}
use go_libtail.LineReader.State.{IsBound, IsChunk, part, view}
use go_libtail.LineReader.Refine.{Runs}
use go_libtail.LineReader.Contract.{read_loop_refines, read_line_refines}

-- A bound reader, or none, has nothing buffered.
abbrev IsDrained : Option Reader → Type 0
IsDrained none = Unit
IsDrained (some b) = IsReader b × (b.buffered ≡ [])

pub record IsIdle (max : ℕ) (r : LineReader) : Type 0 where
  pub limit : r.max_line_bytes ≡ max
  pub capacity : length r.buf ≡ max
  pub in_range : r.pos ≤ max
  pub clear : index_byte newline (held r) ≡ none
  pub quiet : r.discarding_too_long_line ≡ false → r.overflow ≡ []
  pub chunk_left : IsChunk r.overflow
  pub drained : IsDrained r.reader

-- What an idle reader will deliver from `f`.
abbrev pub idle_view : LineReader → File → Stream
idle_view r f = record {
  skipping = r.discarding_too_long_line;
  bytes = (if r.discarding_too_long_line then [] else held r) ++ (r.overflow ++ f.unread);
}

length-make_bytes : (n : ℕ) → length (make_bytes n) ≡ n
length-make_bytes zero = refl
length-make_bytes (suc n) = ap suc (length-make_bytes n)

pub fresh_reader-IsIdle : (max size : ℕ) → IsIdle max (fresh_reader max size)
unfolding fresh_reader
fresh_reader-IsIdle max size = record {
  limit = refl;
  capacity = length-make_bytes max;
  in_range = omega arith;
  clear = refl;
  quiet = λ e. refl;
  chunk_left = part refl;
  drained = tt;
}

pub clear-IsIdle :
    (max : ℕ) (r : LineReader) → r.max_line_bytes ≡ max → length r.buf ≡ max → IsIdle max (clear r)
unfolding clear
clear-IsIdle max r limit capacity = record {
  limit = limit;
  capacity = capacity;
  in_range = omega arith;
  clear = refl;
  quiet = λ e. refl;
  chunk_left = part refl;
  drained = tt;
}

-- At the end of its file, a reader is idle.
pub end-IsIdle :
    (max : ℕ) (r : LineReader) (f : File) (b : Reader)
    → IsBound max r f b
    → b.buffered ≡ []
    → IsIdle max r
end-IsIdle max r f b h e = record {
  limit = h.limit;
  capacity = h.capacity;
  in_range = h.in_range;
  clear = h.clear;
  quiet = h.quiet;
  chunk_left = h.chunk_left;
  drained = subst IsDrained (sym h.bound) (h.reader_ok, e);
}

-- What binding an idle reader to `f` gives.
record Rebound (max : ℕ) (r : LineReader) (f : File) (s : LineReader) : Type 0 where
  reader' : Reader
  bound : IsBound max s f reader'
  viewed : view s reader' f ≡ idle_view r f
  overflow_kept : s.overflow ≡ r.overflow
  buffered_none : reader'.buffered ≡ []

is_bound-true :
    (o : Option Reader) (s : Option ℕ) (id : ℕ)
    → is_bound o s id ≡ true
    → (b : Reader) × (o ≡ some b) × (s ≡ some id)
unfolding is_bound
is_bound-true (some b) (some i) id h = (b, refl, ground arith)
is_bound-true none _ id h = cc
is_bound-true (some b) none id h = cc

buffered_bytes-drained : (o : Option Reader) → IsDrained o → buffered_bytes o ≡ []
unfolding buffered_bytes
buffered_bytes-drained none h = refl
buffered_bytes-drained (some b) h = h.1

drained_reader :
    (o : Option Reader) (b : Reader) → o ≡ some b → IsDrained o → IsReader b × (b.buffered ≡ [])
drained_reader o b e h = subst IsDrained e h

new_reader_size-IsReader : (n : ℕ) → IsReader (new_reader_size n)
new_reader_size-IsReader n = ground arith

module _ (max : ℕ) (r : LineReader) (f : File) (h : IsIdle max r) where
  same_file : is_bound r.reader r.source f.id ≡ true → Rebound max r f r
  same_file e =
      let (b, reader_is, source_is) = is_bound-true r.reader r.source f.id e in
      let (ok, empty) = drained_reader r.reader b reader_is h.drained in
      record {
        reader' = b;
        bound = record {
          limit = h.limit;
          capacity = h.capacity;
          in_range = h.in_range;
          bound = reader_is;
          source_is = source_is;
          reader_ok = ok;
          clear = h.clear;
          quiet = h.quiet;
          chunk_left = h.chunk_left;
        };
        viewed =
            ap
              (λ k. record {
                skipping = r.discarding_too_long_line;
                bytes =
                    (if r.discarding_too_long_line then [] else held r)
                    ++ (r.overflow ++ (k ++ f.unread));
              })
              empty;
        overflow_kept = refl;
        buffered_none = empty;
      }

  abbrev bound_reader : Bytes → LineReader
  bound_reader o = record r {
    overflow = o;
    reader = some (new_reader_size r.read_buffer_size);
    source = some f.id;
  }

  other_file : Rebound max r f (bound_reader r.overflow)
  other_file = record {
    reader' = new_reader_size r.read_buffer_size;
    bound = record {
      limit = h.limit;
      capacity = h.capacity;
      in_range = h.in_range;
      bound = refl;
      source_is = refl;
      reader_ok = new_reader_size-IsReader r.read_buffer_size;
      clear = h.clear;
      quiet = h.quiet;
      chunk_left = h.chunk_left;
    };
    viewed = refl;
    overflow_kept = refl;
    buffered_none = refl;
  }

  rebind-Rebound : Rebound max r f (rebind r f)
  unfolding rebind
  rebind-Rebound = elim (Bool-cases (is_bound r.reader r.source f.id)) [
    | inl same ↦
        subst (Rebound max r f) (ap (λ t. if t then r else other) (sym same)) (same_file same)
    | inr new ↦
        subst (Rebound max r f)
          (ap bound_reader (sym kept) ∙ ap (λ t. if t then r else other) (sym new)) other_file
  ]
    where
      other : LineReader
      other = bound_reader (r.overflow ++ buffered_bytes r.reader)

      kept : r.overflow ++ buffered_bytes r.reader ≡ r.overflow
      kept =
          ap (◌++◌ r.overflow) (buffered_bytes-drained r.reader h.drained) ∙ append-nil r.overflow

-- An idle reader goes on with any file, its own or another: what it has kept of an unfinished
-- line, or the skipping of an oversized one, is followed by what is unread in that file. The
-- fuel is two more than the bytes.
pub read_line_idle :
    (max fuel : ℕ) (r : LineReader) (f : File)
    → IsIdle max r
    → length r.overflow + length f.unread + 1 < fuel
    → Runs max f (next max (idle_view r f)) (read_line fuel r f)
unfolding read_line
read_line_idle max zero r f h fuel = absurd (omega arith)
read_line_idle max (suc n) r f h fuel =
    let s = rebind-Rebound max r f h in
    subst (λ v. Runs max f (next max v) (read_loop (suc n) (rebind r f) f)) s.viewed
      (read_loop_refines max n (rebind r f) f s.reader' s.bound (
        omega (
          arith,
          ap length s.overflow_kept,
          ap length s.buffered_none,
          length-append s.reader'.buffered f.unread,
        )))

-- A reader that will deliver the stream `v` from `f`: bound to it, or idle.
pub data IsReady (max : ℕ) (r : LineReader) (f : File) (v : Stream) : Type 0 where
  bound_ready : (b : Reader) → IsBound max r f b → view r b f ≡ v → IsReady max r f v
  idle_ready : IsIdle max r → idle_view r f ≡ v → IsReady max r f v

pub read_line_ready :
    (max fuel : ℕ) (r : LineReader) (f : File) (v : Stream)
    → IsReady max r f v
    → length v.bytes + 1 < fuel
    → Runs max f (next max v) (read_line fuel r f)
read_line_ready max fuel r f v (bound_ready b h e) enough =
    subst (λ v. Runs max f (next max v) (read_line fuel r f)) e
      (read_line_refines max fuel r f b h (
        omega (
          arith,
          ap (λ x. length x.bytes) e,
          length-append (if r.discarding_too_long_line then [] else held r)
              (r.overflow ++ pending b f),
          length-append r.overflow (pending b f),
        )))
read_line_ready max fuel r f v (idle_ready h e) enough =
    subst (λ v. Runs max f (next max v) (read_line fuel r f)) e
      (read_line_idle max fuel r f h (
        omega (
          arith,
          ap (λ x. length x.bytes) e,
          length-append (if r.discarding_too_long_line then [] else held r)
              (r.overflow ++ f.unread),
          length-append r.overflow f.unread,
        )))
