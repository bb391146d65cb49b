-- ===== src/LineReader/Refine/Bound.antt =====
-- The operations of a turn and the invariant.
use go_libtail.Prelude.{
  ℕ, suc, ◌+◌, ◌-◌, ◌≤◌, ◌<◌, ◌≡◌, refl, sym, ap, ◌∙◌, none, some, [], ◌++◌, arith, length, take,
  drop_all, length-drop, length-take,
}
use go_libtail.Bufio.{Bytes, File, Reader, index_byte}
use go_libtail.Bufio.Laws.{IsReader}
use go_libtail.Bufio.Index.{index_byte-append_none}
use go_libtail.LineReader.{LineReader, newline, held, shift}
use go_libtail.LineReader.ReadLine.{append_chunk, keep_front}
use go_libtail.LineReader.State.{
  IsBound, IsChunk, IsChunk-drop, IsChunk-front, length-copy_at, held-shift,
}
use go_libtail.LineReader.Refine.Buffer.{
  held-append_chunk, length-append_chunk, pos-keep_front, held-keep_front, length-keep_front,
}

module _ {max : ℕ} (r : LineReader) (f : File) (b : Reader) (h : IsBound max r f b) where
  -- A read leaves all but the bufio.Reader as it was.
  pub rebound-IsBound :
      (b' : Reader) (f' : File)
      → IsReader b'
      → f'.id ≡ f.id
      → IsBound max (record r { reader = some b' }) f' b'
  rebound-IsBound b' f' reads same = record {
    limit = h.limit;
    capacity = h.capacity;
    in_range = h.in_range;
    bound = refl;
    source_is = h.source_is ∙ ap some (sym same);
    reader_ok = reads;
    clear = h.clear;
    quiet = h.quiet;
    chunk_left = h.chunk_left;
  }

  pub append_chunk-IsBound :
      (chunk : Bytes)
      → r.pos + length chunk ≤ max
      → index_byte newline chunk ≡ none
      → IsBound max (append_chunk r chunk) f b
  unfolding append_chunk
  append_chunk-IsBound chunk fits none_in = record {
    limit = h.limit;
    capacity = length-append_chunk r chunk same_size fits' ∙ h.limit;
    in_range = fits;
    bound = h.bound;
    source_is = h.source_is;
    reader_ok = h.reader_ok;
    clear =
        rw (held-append_chunk r chunk same_size fits')
          (index_byte-append_none newline (held r) chunk h.clear none_in);
    quiet = h.quiet;
    chunk_left = h.chunk_left;
  }
    where
      same_size : length r.buf ≡ r.max_line_bytes
      same_size = h.capacity ∙ sym h.limit

      fits' : r.pos + length chunk ≤ r.max_line_bytes
      fits' = omega (arith, h.limit)

  pub held-cut :
      (chunk : Bytes)
      → max < r.pos + length chunk
      → held (keep_front r chunk) ≡ held r ++ take (max - r.pos) chunk
  held-cut chunk long =
      held-keep_front r chunk (h.capacity ∙ sym h.limit) (omega (arith, h.limit, h.in_range))
        (omega (arith, h.limit))
      ∙ ap (λ m. held r ++ take (m - r.pos) chunk) h.limit

  pub keep_front-IsBound :
      (chunk : Bytes)
      → max < r.pos + length chunk
      → IsChunk chunk
      → IsBound max (keep_front r chunk) f b
  unfolding keep_front
  keep_front-IsBound chunk long is_chunk = record {
    limit = h.limit;
    capacity = length-keep_front r chunk same_size in_range' long' ∙ h.limit;
    in_range = omega (arith, pos-keep_front r chunk same_size in_range' long', h.limit);
    bound = h.bound;
    source_is = h.source_is;
    reader_ok = h.reader_ok;
    clear = rw (held-cut chunk long) (
        index_byte-append_none newline (held r) _ h.clear
          (IsChunk-front (max - r.pos) chunk (omega (arith, h.in_range)) is_chunk));
    quiet = λ e. cc;
    chunk_left = IsChunk-drop _ chunk is_chunk;
  }
    where
      same_size : length r.buf ≡ r.max_line_bytes
      same_size = h.capacity ∙ sym h.limit

      in_range' : r.pos ≤ r.max_line_bytes
      in_range' = omega (arith, h.limit, h.in_range)

      long' : r.max_line_bytes < r.pos + length chunk
      long' = omega (arith, h.limit)

  module _ (chunk : Bytes) (i : ℕ) (fits : r.pos + length chunk ≤ max)
      (all : suc i ≡ r.pos + length chunk) where
    -- The buffer that the line is taken from.
    abbrev full : LineReader
    full = append_chunk r chunk

    pos-full : full.pos ≡ suc i
    unfolding append_chunk
    pos-full = sym all

    capacity-full : length full.buf ≡ max
    capacity-full =
        length-append_chunk r chunk (h.capacity ∙ sym h.limit) (omega (arith, h.limit)) ∙ h.limit

    -- The line is all that is in use.
    pub held_taken : held (shift full i) ≡ []
    held_taken =
        held-shift full i (omega (arith, pos-full, capacity-full)) (omega (arith, pos-full))
        ∙ drop_all (suc i) (held full) (omega (arith, length-take full.pos full.buf, pos-full))

    pub shift-IsBound : IsBound max (shift full i) f b
    unfolding shift append_chunk
    shift-IsBound = record {
      limit = h.limit;
      capacity =
          length-copy_at full.buf 0 _
            (omega (arith, length-drop (suc i) (held full), length-take full.pos full.buf))
          ∙ capacity-full;
      in_range = omega (arith, pos-full);
      bound = h.bound;
      source_is = h.source_is;
      reader_ok = h.reader_ok;
      clear = rw held_taken;
      quiet = h.quiet;
      chunk_left = h.chunk_left;
    }
