-- ===== src/LineReader/Skip/Loop.antt =====
-- The loop of discardUntilNewline.
use go_libtail.Prelude.{
  ℕ, zero, suc, ◌+◌, ◌≤◌, ◌<◌, ◌≡◌, refl, sym, ap, ap₂, ◌∙◌, true, false, Option, none, some, [],
  ◌∷◌, ◌++◌, arith, length, if◌then◌else◌, append-nil, append_assoc, length-append,
}
use go_libtail.Bufio.{Bytes, File, Reader, io_failure, index_byte, end_error}
use go_libtail.Bufio.Laws.{pending}
use go_libtail.Bufio.Index.{index_byte-append_self}
use go_libtail.LineReader.{LineReader, read_failed, newline}
use go_libtail.LineReader.Chunk.{
  read_chunk, Turn, done, Found, discard_turn, discard_chunk, discard_end, discard_until_newline,
}
use go_libtail.LineReader.Spec.{scan, skip, skip_found, skip_more, skip-none}
use go_libtail.LineReader.State.{IsBound, IsChunk, part, ended}
use go_libtail.LineReader.Fetch.{Fetched, Shape, bytes_read, file_ended, read_chunk-Fetched}
use go_libtail.LineReader.Refine.Bound.{rebound-IsBound}
use go_libtail.LineReader.Skip.{
  end_found, Stop, at_newline, at_end, Skips, emptied, discard_until_newline_done,
  discard_until_newline-again, discard_turn_clear, discard_chunk_found, discard_chunk_clear,
  discard_end_eof, discard_end-none, discard_overflow_found, discard_overflow_clear,
}

emptied-IsBound :
    {max : ℕ} (r : LineReader) (f : File) (b : Reader)
    → IsBound max r f b
    → IsBound max (emptied r) f b
emptied-IsBound r f b h = record {
  limit = h.limit;
  capacity = h.capacity;
  in_range = omega arith;
  bound = h.bound;
  source_is = h.source_is;
  reader_ok = h.reader_ok;
  clear = refl;
  quiet = λ e. refl;
  chunk_left = part refl;
}

-- The overflow dropped.
abbrev dropped : LineReader → LineReader
dropped r = record r { overflow = [] }

dropped-IsBound :
    {max : ℕ} (r : LineReader) (f : File) (b : Reader)
    → IsBound max r f b
    → IsBound max (dropped r) f b
dropped-IsBound r f b h = record {
  limit = h.limit;
  capacity = h.capacity;
  in_range = h.in_range;
  bound = h.bound;
  source_is = h.source_is;
  reader_ok = h.reader_ok;
  clear = h.clear;
  quiet = λ e. refl;
  chunk_left = part refl;
}

-- The newline at the end of `c`, with `rest` behind it.
skip_chunk :
    (max : ℕ) (c body rest : Bytes)
    → c ≡ body ++ newline ∷ []
    → index_byte newline body ≡ none
    → skip max (c ++ rest) ≡ scan max rest
skip_chunk max c body rest e clear =
    ap (skip max) (ap (λ k. k ++ rest) e ∙ append_assoc body (newline ∷ []) rest)
    ∙ skip_found max body rest clear

Stop-stream :
    {max : ℕ} {f : File} {a : Found} {r : LineReader} {b : Reader} {g : File} (f' : File)
    (s s' : Bytes)
    → f.failing ≡ f'.failing
    → skip max s ≡ skip max s'
    → length s' ≤ length s
    → Stop max f s' a r b g
    → Stop max f' s a r b g
Stop-stream f' s s' same e shorter (at_newline found scanning empty to left) =
    at_newline found scanning empty (e ∙ to) (omega arith)
Stop-stream f' s s' same e shorter (at_end found skipping dropped ends to) =
    at_end
      (found ∙ ap (λ b. if b then (false, some (read_failed io_failure)) else (true, none)) same)
      skipping dropped ends (e ∙ to)

-- The bytes dropped so far may be put in front of those still to come.
Skips-stream :
    {max : ℕ} (f f' : File) (s s' : Bytes) (run : Option (Found × LineReader × File))
    → f'.id ≡ f.id
    → f'.failing ≡ f.failing
    → skip max s ≡ skip max s'
    → length s' ≤ length s
    → Skips max f' s' run
    → Skips max f s run
Skips-stream f f' s s' run same same_end e shorter (out, runs, h) = (
  out,
  runs,
  record {
    reader' = h.reader';
    bound = h.bound;
    id_kept = h.id_kept ∙ same;
    failing_kept = h.failing_kept ∙ same_end;
    stop = Stop-stream f s s' same_end e shorter h.stop;
  },
)

module _ {max : ℕ} (n : ℕ) (r : LineReader) (f : File) (b : Reader) (h : IsBound max r f b)
    (skipping : r.discarding_too_long_line ≡ true)
    (c : Fetched (dropped r) f b (read_chunk (dropped r) f)) where
  abbrev chunk : Bytes
  chunk = (read_chunk (dropped r) f).chunk

  abbrev f' : File
  f' = (read_chunk (dropped r) f).file

  abbrev r' : LineReader
  r' = record r { overflow = []; reader = some c.reader' }

  abbrev turn : Turn Found
  turn = discard_chunk (read_chunk (dropped r) f)

  -- What the bytes that the file has yet to give come to.
  abbrev rest : Bytes
  rest = pending b f

  h' : IsBound max r' f' c.reader'
  h' = rebound-IsBound (dropped r) f b (dropped-IsBound r f b h) c.reader' f' c.reader_ok c.id_kept

  returns :
      (a : Found) (r'' : LineReader)
      → discard_turn r f ≡ done a r'' f'
      → IsBound max r'' f' c.reader'
      → Stop max f rest a r'' c.reader' f'
      → Skips max f rest (discard_until_newline (suc n) r f)
  returns a r'' e bound stop = (
    (a, r'', f'),
    discard_until_newline_done n r f a r'' f' e,
    record {
      reader' = c.reader';
      bound = bound;
      id_kept = c.id_kept;
      failing_kept = c.failing_kept;
      stop = stop;
    },
  )

  module _ (begins : discard_turn r f ≡ turn) where
    meets_newline :
        (body : Bytes)
        → chunk ≡ body ++ newline ∷ []
        → index_byte newline body ≡ none
        → Skips max f rest (discard_until_newline (suc n) r f)
    meets_newline body e clear =
        returns (false, none) (emptied r')
          (begins
            ∙ discard_chunk_found _ (length body) found c.is_chunk
            ∙ ap (λ o. done (false, none) (emptied o) f') c.owner_is)
          (emptied-IsBound r' f' c.reader' h')
          (at_newline refl refl refl
            (ap (skip max) (sym c.stream) ∙ skip_chunk max chunk body _ e clear)
            (omega (arith, ap length c.stream, length-append chunk (pending c.reader' f'))))
      where
        found : index_byte newline chunk ≡ some (length body)
        found = ap (index_byte newline) e ∙ index_byte-append_self newline body [] clear

    meets_end :
        (read_chunk (dropped r) f).err ≡ some (end_error f)
        → index_byte newline chunk ≡ none
        → pending c.reader' f' ≡ []
        → Skips max f rest (discard_until_newline (suc n) r f)
    meets_end e clear ends =
        returns (end_found f) r'
          (begins
            ∙ discard_chunk_clear _ clear
            ∙ ap₂ (λ x o. discard_end x o f') e c.owner_is
            ∙ discard_end_eof f r' f')
          h'
          (at_end refl skipping refl ends
            (skip-none max rest (rw (← c.stream, ends, append-nil) clear)))

    goes_on :
        (read_chunk (dropped r) f).err ≡ none
        → index_byte newline chunk ≡ none
        → discard_until_newline (suc n) r f ≡ discard_until_newline n r' f'
    goes_on e clear = discard_until_newline-again n r f r' f' (
        begins
        ∙ discard_chunk_clear _ clear
        ∙ ap₂ (λ x o. discard_end x o f') e c.owner_is
        ∙ discard_end-none r' f')

    -- A turn that reads a chunk, and what the later turns make of the rest.
    one_chunk :
        length rest < suc n
        → ((s : LineReader) (g : File) (d : Reader)
            → IsBound max s g d
            → s.discarding_too_long_line ≡ true
            → s.overflow ≡ []
            → length (pending d g) < n
            → Skips max g (pending d g) (discard_until_newline n s g))
        → Skips max f rest (discard_until_newline (suc n) r f)
    one_chunk fuel later = split c.is_chunk c.shape
      where
        read : length chunk + length (pending c.reader' f') ≡ length rest
        read = omega (arith, ap length c.stream, length-append chunk (pending c.reader' f'))

        split :
            IsChunk chunk
            → Shape f c.reader' (read_chunk (dropped r) f)
            → Skips max f rest (discard_until_newline (suc n) r f)
        split (ended body e clear) shape = meets_newline body e clear
        split (part clear) (file_ended e _ ends) = meets_end e clear ends
        split (part clear) (bytes_read e some_bytes) = rw (goes_on e clear) (
            Skips-stream f f' rest (pending c.reader' f') _ c.id_kept c.failing_kept
              (ap (skip max) (sym c.stream) ∙ skip_more max chunk (pending c.reader' f') clear)
              (omega (arith, read)) (later r' f' c.reader' h' skipping refl (omega (arith, read))))

begins_clear :
    {max : ℕ} (r : LineReader) (f : File) (b : Reader)
    → IsBound max r f b
    → index_byte newline r.overflow ≡ none
    → discard_turn r f ≡ discard_chunk (read_chunk (dropped r) f)
begins_clear r f b h clear =
    discard_turn_clear r f h.clear ∙ discard_overflow_clear r f r.overflow refl clear

module _ (max : ℕ) where
  fetch :
      (r : LineReader) (f : File) (b : Reader)
      → IsBound max r f b
      → Fetched (dropped r) f b (read_chunk (dropped r) f)
  fetch r f b h = read_chunk-Fetched (dropped r) f b refl h.bound h.reader_ok

  chunk_loop :
      (n : ℕ) (r : LineReader) (f : File) (b : Reader)
      → IsBound max r f b
      → r.discarding_too_long_line ≡ true
      → r.overflow ≡ []
      → length (pending b f) < n
      → Skips max f (pending b f) (discard_until_newline n r f)
  chunk_loop zero r f b h skipping quiet fuel = absurd (omega arith)
  chunk_loop (suc n) r f b h skipping quiet fuel =
      one_chunk n r f b h skipping (fetch r f b h)
        (begins_clear r f b h (ap (index_byte newline) quiet)) fuel (chunk_loop n)

  -- The overflow first, then the file. Enough fuel: more than the bytes still to be read.
  pub skip_loop :
      (n : ℕ) (r : LineReader) (f : File) (b : Reader)
      → IsBound max r f b
      → r.discarding_too_long_line ≡ true
      → length (pending b f) < n
      → Skips max f (r.overflow ++ pending b f) (discard_until_newline n r f)
  skip_loop zero r f b h skipping fuel = absurd (omega arith)
  skip_loop (suc n) r f b h skipping fuel = by_overflow h.chunk_left
    where
      shorter : length (pending b f) ≤ length (r.overflow ++ pending b f)
      shorter = omega (arith, length-append r.overflow (pending b f))

      by_overflow :
          IsChunk r.overflow
          → Skips max f (r.overflow ++ pending b f) (discard_until_newline (suc n) r f)
      by_overflow (part clear) =
          Skips-stream f f _ _ _ refl refl (skip_more max r.overflow (pending b f) clear) shorter (
            one_chunk n r f b h skipping (fetch r f b h) (begins_clear r f b h clear) fuel
              (chunk_loop n))
      by_overflow (ended body e clear) = (
        ((false, none), emptied r, f),
        discard_until_newline_done n r f (false, none) (emptied r) f
            (discard_turn_clear r f h.clear
              ∙ discard_overflow_found r f r.overflow (length body)
                  (ap (index_byte newline) e ∙ index_byte-append_self newline body [] clear)
                  h.chunk_left),
        record {
          reader' = b;
          bound = emptied-IsBound r f b h;
          id_kept = refl;
          failing_kept = refl;
          stop =
              at_newline refl refl refl (skip_chunk max r.overflow body (pending b f) e clear)
                shorter;
        },
      )
