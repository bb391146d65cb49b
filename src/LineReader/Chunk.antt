-- ===== src/LineReader/Chunk.antt =====
-- linereader.go, readChunk and discardUntilNewline: the next bytes from the overflow or from the
-- file, and the rest of an oversized line skipped.
use go_libtail.Prelude.{ℕ, zero, suc, Bool, true, false, Option, none, some, [], ◌∷◌, drop}
use go_libtail.Bufio.{
  Bytes, File, ReadError, eof, buffer_full, nil_reader, Reader, index_byte, read_slice,
}
use go_libtail.LineReader.{
  LineReader, LineError, read_failed, newline, held, shift, set_buffer_from_bytes,
}

pub record ChunkRead : Type 0 where
  pub chunk : Bytes
  pub err : Option ReadError
  pub owner : LineReader
  pub file : File

-- ErrBufferFull is no error: the chunk is used as it is.
unfoldable pub drop_full : Option ReadError → Option ReadError
drop_full (some buffer_full) = none
drop_full e = e

unfoldable pub slice_of : LineReader → File → Option Reader → ChunkRead
unfolding drop_full
slice_of r f none = record { chunk = []; err = some nil_reader; owner = r; file = f }
slice_of r f (some b) =
    let s = read_slice newline b f in
    record {
      chunk = s.chunk;
      err = drop_full s.err;
      owner = record r { reader = some s.reader };
      file = s.file;
    }

unfoldable pub chunk_of : LineReader → File → Bytes → ChunkRead
unfolding slice_of
chunk_of r f [] = slice_of r f r.reader
chunk_of r f (x ∷ xs) = record {
  chunk = x ∷ xs;
  err = none;
  owner = record r { overflow = [] };
  file = f;
}

unfoldable pub read_chunk : LineReader → File → ChunkRead
unfolding chunk_of
read_chunk r f = chunk_of r f r.overflow

-- How one turn of a `for` loop ends: by a return, or with the next turn.
pub data Turn (A : Type 0) : Type 0 where
  done : A → LineReader → File → Turn A
  again : LineReader → File → Turn A

-- A result of discardUntilNewline: whether the end of the file was met, and the error.
abbrev pub Found : Type 0
Found = Bool × Option LineError

unfoldable pub stop_discarding : LineReader → LineReader
stop_discarding r = record r { discarding_too_long_line = false }

unfoldable pub discard_end : Option ReadError → LineReader → File → Turn Found
discard_end none r f = again r f
discard_end (some eof) r f = done (true, none) r f
discard_end (some e) r f = done (false, some (read_failed e)) r f

unfoldable pub discard_chunk : ChunkRead → Turn Found
unfolding stop_discarding discard_end set_buffer_from_bytes
discard_chunk c = elim (index_byte newline c.chunk) [
  | some i ↦
      done (false, none) (stop_discarding (set_buffer_from_bytes c.owner (drop (suc i) c.chunk)))
        c.file
  | none ↦ discard_end c.err c.owner c.file
]

unfoldable pub discard_overflow : LineReader → File → Bytes → Turn Found
unfolding discard_chunk
discard_overflow r f [] = discard_chunk (read_chunk r f)
discard_overflow r f (x ∷ xs) = elim (index_byte newline (x ∷ xs)) [
  | some i ↦
      done (false, none) (stop_discarding (set_buffer_from_bytes r (drop (suc i) (x ∷ xs)))) f
  | none ↦ discard_chunk (read_chunk (record r { overflow = [] }) f)
]

-- One turn of the loop in discardUntilNewline.
unfoldable pub discard_turn : LineReader → File → Turn Found
unfolding discard_overflow shift
discard_turn r f = elim (index_byte newline (held r)) [
  | some i ↦ done (false, none) (stop_discarding (shift r i)) f
  | none ↦ discard_overflow r f r.overflow
]

-- `none`: out of fuel.
unfoldable pub discard_until_newline : ℕ → LineReader → File → Option (Found × LineReader × File)
discard_until_newline zero r f = none
discard_until_newline (suc n) r f = elim (discard_turn r f) [
  | done a r' f' ↦ some (a, r', f')
  | again r' f' ↦ discard_until_newline n r' f'
]
