-- ===== src/LineReader/Skip.antt =====
-- discardUntilNewline, turn by turn.
pub mod Loop
use go_libtail.Prelude.{
  ℕ, zero, suc, ◌+◌, ◌≤◌, ◌<◌, ◌≡◌, refl, sym, subst, ap, ap₂, ◌∙◌, Bool, true, false, inl, inr,
  Option, none, some, [], ◌∷◌, ◌++◌, arith, length, take, drop, if◌then◌else◌, append-nil,
  append_assoc, length-append, Option-cases,
}
use go_libtail.Bufio.{Bytes, File, Reader, ReadError, io_failure, index_byte, end_error}
use go_libtail.Bufio.Laws.{IsReader, pending}
use go_libtail.Bufio.Index.{index_byte-append_none, index_byte-append_self}
use go_libtail.LineReader.{LineReader, LineError, read_failed, newline, held, set_buffer_from_bytes}
use go_libtail.LineReader.Chunk.{
  ChunkRead, read_chunk, Turn, done, again, Found, discard_turn, discard_overflow, discard_chunk,
  discard_end, stop_discarding, discard_until_newline,
}
use go_libtail.LineReader.Spec.{skip_stream, scan, skip, skip_found, skip-none}
use go_libtail.LineReader.State.{IsBound, IsChunk, part, ended, IsChunk-rest}
use go_libtail.LineReader.Fetch.{Fetched, Shape, bytes_read, file_ended, read_chunk-Fetched}

abbrev pub end_found : File → Found
end_found f = if f.failing then (false, some (read_failed io_failure)) else (true, none)

-- Where the skipping stopped, for the bytes `s` behind those in use.
pub data Stop (max : ℕ) (f : File) (s : Bytes) (a : Found) (r : LineReader) (b : Reader) (g : File)
    : Type 0 where
  at_newline :
      a ≡ (false, none)
      → r.discarding_too_long_line ≡ false
      → held r ≡ []
      → skip max s ≡ scan max (pending b g)
      → length (pending b g) ≤ length s
      → Stop max f s a r b g
  at_end :
      a ≡ end_found f
      → r.discarding_too_long_line ≡ true
      → r.overflow ≡ []
      → pending b g ≡ []
      → skip max s ≡ (none, skip_stream [])
      → Stop max f s a r b g

pub record Skipped (max : ℕ) (f : File) (s : Bytes) (out : Found × LineReader × File) : Type 0 where
  pub reader' : Reader
  pub bound : IsBound max out.1 out.2 reader'
  pub id_kept : out.2.id ≡ f.id
  pub failing_kept : out.2.failing ≡ f.failing
  pub stop : Stop max f s out.0 out.1 reader' out.2

abbrev pub Skips : ℕ → File → Bytes → Option (Found × LineReader × File) → Type 0
Skips max f s run = (out : Found × LineReader × File) × (run ≡ some out) × Skipped max f s out

pub discard_until_newline_done :
    (n : ℕ) (r : LineReader) (f : File) (a : Found) (r' : LineReader) (f' : File)
    → discard_turn r f ≡ done a r' f'
    → discard_until_newline (suc n) r f ≡ some (a, r', f')
unfolding discard_until_newline
discard_until_newline_done n r f a r' f' e = rw (e, discard_until_newline)

pub discard_until_newline-again :
    (n : ℕ) (r : LineReader) (f : File) (r' : LineReader) (f' : File)
    → discard_turn r f ≡ again r' f'
    → discard_until_newline (suc n) r f ≡ discard_until_newline n r' f'
unfolding discard_until_newline
discard_until_newline-again n r f r' f' e = rw (e, discard_until_newline)

pub discard_turn_clear :
    (r : LineReader) (f : File)
    → index_byte newline (held r) ≡ none
    → discard_turn r f ≡ discard_overflow r f r.overflow
unfolding discard_turn
discard_turn_clear r f e = rw (e, discard_turn)

-- The buffer after the newline was found at the end of a chunk: nothing is in use.
abbrev pub emptied : LineReader → LineReader
emptied r = record r { pos = 0; overflow = []; discarding_too_long_line = false }

pub discard_chunk_found :
    (c : ChunkRead) (i : ℕ)
    → index_byte newline c.chunk ≡ some i
    → IsChunk c.chunk
    → discard_chunk c ≡ done (false, none) (emptied c.owner) c.file
unfolding discard_chunk
discard_chunk_found c i e is_chunk = rw (e, discard_chunk) (rw (IsChunk-rest c.chunk i is_chunk e))

pub discard_chunk_clear :
    (c : ChunkRead)
    → index_byte newline c.chunk ≡ none
    → discard_chunk c ≡ discard_end c.err c.owner c.file
unfolding discard_chunk
discard_chunk_clear c e = rw (e, discard_chunk)

pub discard_end_eof :
    (f : File) (r : LineReader) (g : File)
    → discard_end (some (end_error f)) r g ≡ done (end_found f) r g
unfolding discard_end end_error
discard_end_eof f r g = ground arith

pub discard_end-none : (r : LineReader) (g : File) → discard_end none r g ≡ again r g
unfolding discard_end
discard_end-none r g = refl

pub discard_overflow_nil :
    (r : LineReader) (f : File) → discard_overflow r f [] ≡ discard_chunk (read_chunk r f)
unfolding discard_overflow
discard_overflow_nil r f = refl

pub discard_overflow_found :
    (r : LineReader) (f : File) (o : Bytes) (i : ℕ)
    → index_byte newline o ≡ some i
    → IsChunk o
    → discard_overflow r f o ≡ done (false, none) (emptied r) f
unfolding discard_overflow
discard_overflow_found r f [] i e is_chunk = cc
discard_overflow_found r f (x ∷ xs) i e is_chunk =
    rw (e, discard_overflow) (rw (IsChunk-rest (x ∷ xs) i is_chunk e))

-- An overflow with no newline is dropped; an empty one stays so.
pub discard_overflow_clear :
    (r : LineReader) (f : File) (o : Bytes)
    → r.overflow ≡ o
    → index_byte newline o ≡ none
    → discard_overflow r f o ≡ discard_chunk (read_chunk (record r { overflow = [] }) f)
unfolding discard_overflow
discard_overflow_clear r f [] same e =
    ap (λ o. discard_chunk (read_chunk (record r { overflow = o }) f)) same
discard_overflow_clear r f (x ∷ xs) same e = rw (e, discard_overflow)
