-- ===== src/LineReader/Refine/Scan.antt =====
-- The loop of ReadLine when no oversized line is being skipped.
use go_libtail.Prelude.{
  ℕ, zero, suc, ◌+◌, ◌≤◌, ◌<◌, ◌≡◌, ◌⊎◌, refl, sym, subst, ap, ap₂, ◌∙◌, false, inl, inr, Option,
  none, some, [], ◌∷◌, ◌++◌, arith, length, take, lt→ltb, le→ltb, leb, leb→le, if◌then◌else◌,
  append_assoc, length-append, Bool-cases,
}
use go_libtail.Bufio.{Bytes, File, Reader, ReadError, io_failure, index_byte, end_error}
use go_libtail.Bufio.Laws.{pending}
use go_libtail.LineReader.{
  LineReader, Reply, newline, held, shift, strip_windows_line_ending, line_too_long, read_failed,
}
use go_libtail.LineReader.Chunk.{ChunkRead, read_chunk, done, again}
use go_libtail.LineReader.ReadLine.{
  append_chunk, keep_front, no_chunk, take_chunk, cut_line, next_chunk, scan_turn, read_loop,
  line_reply, error_reply, eof_reply,
}
use go_libtail.LineReader.Spec.{Stream, Item, line, too_long, scan}
use go_libtail.LineReader.State.{IsBound, IsChunk, part, ended}
use go_libtail.LineReader.Fetch.{Fetched, Shape, bytes_read, file_ended, read_chunk-Fetched}
use go_libtail.LineReader.Refine.{end_reply, Agrees, Refines, Runs, read_loop_done, read_loop-again}
use go_libtail.LineReader.Refine.Bound.{rebound-IsBound, append_chunk-IsBound}
use go_libtail.LineReader.Refine.Cases.{waits, cuts, takes_line, index-full}
use go_libtail.LineReader.Refine.Buffer.{held-append_chunk}

-- What the turn makes of a chunk `c`, with the fields of the read named.
scan_turn_clear :
    (r : LineReader) (f : File)
    → index_byte newline (held r) ≡ none
    → scan_turn r f ≡ next_chunk (read_chunk r f)
unfolding scan_turn
scan_turn_clear r f e = rw (e, scan_turn)

scan_turn_found :
    (r : LineReader) (f : File) (i : ℕ)
    → index_byte newline (held r) ≡ some i
    → scan_turn r f ≡ done (line_reply (strip_windows_line_ending (take i (held r)))) (shift r i) f
unfolding scan_turn
scan_turn_found r f i e = rw (e, scan_turn)

no_chunk_end :
    (r : LineReader) (f f' : File) → no_chunk (some (end_error f)) r f' ≡ done (end_reply f) r f'
unfolding no_chunk end_error
no_chunk_end r f f' = ground arith

take_chunk_cut :
    (r : LineReader) (f : File) (c : Bytes) (err : Option ReadError)
    → 0 < length c
    → r.max_line_bytes < r.pos + length c
    → take_chunk r f c err ≡ cut_line r f c
unfolding take_chunk
take_chunk_cut r f [] err some_bytes long = absurd (omega arith)
take_chunk_cut r f (x ∷ xs) err some_bytes long = rw (lt→ltb _ _ long)

take_chunk_fits :
    (r : LineReader) (f : File) (c : Bytes) (err : Option ReadError)
    → 0 < length c
    → r.pos + length c ≤ r.max_line_bytes
    → take_chunk r f c err ≡ again (append_chunk r c) f
unfolding take_chunk
take_chunk_fits r f [] err some_bytes fits = absurd (omega arith)
take_chunk_fits r f (x ∷ xs) err some_bytes fits = rw (le→ltb _ _ fits)

next_chunk_lem : (c : ChunkRead) → next_chunk c ≡ take_chunk c.owner c.file c.chunk c.err
unfolding next_chunk
next_chunk_lem c = refl

take_chunk_end :
    (r : LineReader) (f f' : File)
    → take_chunk r f' [] (some (end_error f)) ≡ done (end_reply f) r f'
unfolding take_chunk
take_chunk_end r f f' = no_chunk_end r f f'

empty_or : (c : Bytes) → (c ≡ []) ⊎ (0 < length c)
empty_or [] = inl refl
empty_or (x ∷ xs) = inr (omega arith)

end_reply-file : (f f' : File) → f'.failing ≡ f.failing → end_reply f' ≡ end_reply f
end_reply-file f f' e = ap (λ b. if b then error_reply (read_failed io_failure) else eof_reply) e

Agrees-file :
    (max : ℕ) (f f' : File) (o : Option Item) (a : Reply)
    → f'.failing ≡ f.failing
    → Agrees max f' o a
    → Agrees max f o a
Agrees-file max f f' none a e h = h ∙ end_reply-file f f' e
Agrees-file max f f' (some (line s)) a e h = h
Agrees-file max f f' (some (too_long s)) a e h = h

-- A result for the file as it was after a read is one for the file before it.
pub Runs-file :
    (max : ℕ) (f f' : File) (o : Option Item × Stream) (run : Option (Reply × LineReader × File))
    → f'.id ≡ f.id
    → f'.failing ≡ f.failing
    → Runs max f' o run
    → Runs max f o run
Runs-file max f f' o run same same_end (out, e, h) = (
  out,
  e,
  record {
    agrees = Agrees-file max f f' o.0 out.0 same_end h.agrees;
    reader' = h.reader';
    drained = h.drained;
    bound = h.bound;
    viewed = h.viewed;
    id_kept = h.id_kept ∙ same;
    failing_kept = h.failing_kept ∙ same_end;
  },
)

module _ {max : ℕ} (n : ℕ) (r : LineReader) (f : File) (b : Reader) (h : IsBound max r f b)
    (scanning : r.discarding_too_long_line ≡ false) (fuel : length (pending b f) < suc n)
    (c : Fetched r f b (read_chunk r f)) where
  abbrev chunk : Bytes
  chunk = (read_chunk r f).chunk

  abbrev f' : File
  f' = (read_chunk r f).file

  -- The reader behind the read.
  abbrev r' : LineReader
  r' = record r { reader = some c.reader' }

  h' : IsBound max r' f' c.reader'
  h' = rebound-IsBound r f b h c.reader' f' c.reader_ok c.id_kept

  abbrev outcome : Option Item × Stream
  outcome = scan max (held r ++ (chunk ++ pending c.reader' f'))

  turn_is : scan_turn r f ≡ take_chunk r' f' chunk (read_chunk r f).err
  turn_is =
      scan_turn_clear r f h.clear
      ∙ next_chunk_lem (read_chunk r f)
      ∙ ap (λ o. take_chunk o f' chunk (read_chunk r f).err) c.owner_is

  -- A turn that returns.
  returns :
      (a : Reply) (r'' : LineReader)
      → take_chunk r' f' chunk (read_chunk r f).err ≡ done a r'' f'
      → Refines max f outcome (a, r'', f')
      → Runs max f outcome (read_loop (suc n) r f)
  returns a r'' e refines = ((a, r'', f'), read_loop_done n r f scanning (turn_is ∙ e), refines)

  no_bytes :
      chunk ≡ [] → Shape f c.reader' (read_chunk r f) → Runs max f outcome (read_loop (suc n) r f)
  no_bytes empty (bytes_read e some_bytes) = absurd (omega (arith, ap length empty))
  no_bytes empty (file_ended e clear at_end) =
      returns (end_reply f) r' (ap₂ (take_chunk r' f') empty e ∙ take_chunk_end r' f f') (
        subst
          (λ k.
            Refines max f (scan max (held r ++ (k ++ pending c.reader' f'))) (end_reply f, r', f'))
          (sym empty) (waits r' f f' c.reader' h' scanning c.id_kept c.failing_kept at_end))

  too_many :
      0 < length chunk → max < r.pos + length chunk → Runs max f outcome (read_loop (suc n) r f)
  unfolding cut_line
  too_many some_bytes long =
      returns (reply max) (keep_front r' chunk)
        (take_chunk_cut r' f' chunk _ some_bytes (omega (arith, h.limit))
          ∙ ap (λ m. done (reply m) (keep_front r' chunk) f') h.limit)
        (cuts r' f f' c.reader' h' scanning c.id_kept c.failing_kept chunk c.is_chunk long)
    where
      reply : ℕ → Reply
      reply m = record {
        line = strip_windows_line_ending (held (keep_front r' chunk));
        at_eof = false;
        err = some (line_too_long (r.pos + length chunk) m);
      }

  pending_falls : 0 < length chunk → length (pending c.reader' f') < n
  pending_falls some_bytes =
      omega (arith, ap length c.stream, length-append chunk (pending c.reader' f'), fuel)

  goes_on :
      0 < length chunk
      → r.pos + length chunk ≤ max
      → read_loop (suc n) r f ≡ read_loop n (append_chunk r' chunk) f'
  goes_on some_bytes fits =
      read_loop-again n r f scanning
        (turn_is ∙ take_chunk_fits r' f' chunk _ some_bytes (omega (arith, h.limit)))

  ends_line :
      0 < length chunk
      → r.pos + length chunk ≤ max
      → (body : Bytes) → chunk ≡ body ++ newline ∷ []
      → index_byte newline body ≡ none
      → Runs max f outcome (read_loop (suc n) r f)
  ends_line some_bytes fits body is_line clear = (
    (a, shift r'' line_end, f'),
    goes_on some_bytes fits ∙ last n (omega (arith, pending_falls some_bytes)),
    takes_line r' f f' c.reader' h' scanning c.id_kept c.failing_kept chunk body is_line clear fits,
  )
    where
      r'' : LineReader
      r'' = append_chunk r' chunk

      line_end : ℕ
      line_end = length (held r ++ body)

      a : Reply
      a = line_reply (strip_windows_line_ending (take line_end (held r'')))

      last : (k : ℕ) → 0 < k → read_loop k r'' f' ≡ some (a, shift r'' line_end, f')
      last zero p = absurd (omega arith)
      last (suc k) p = read_loop_done k r'' f' (unfold append_chunk in scanning) (
          scan_turn_found r'' f' line_end (
            index-full r' f f' c.reader' h' scanning c.id_kept c.failing_kept chunk body is_line
              clear fits))

  more_bytes :
      0 < length chunk
      → r.pos + length chunk ≤ max
      → index_byte newline chunk ≡ none
      → Runs max f'
          (scan max (held (append_chunk r' chunk) ++ pending c.reader' f'))
          (read_loop n (append_chunk r' chunk) f')
      → Runs max f outcome (read_loop (suc n) r f)
  more_bytes some_bytes fits clear ih =
      let (out, e, refines) = Runs-file max f f' _ _ c.id_kept c.failing_kept ih in
      (
        out,
        goes_on some_bytes fits ∙ e,
        subst (λ s. Refines max f (scan max s) out) regroup refines,
      )
    where
      regroup :
          held (append_chunk r' chunk) ++ pending c.reader' f'
          ≡ held r ++ (chunk ++ pending c.reader' f')
      regroup =
          ap (λ k. k ++ pending c.reader' f')
            (held-append_chunk r' chunk (h.capacity ∙ sym h.limit) (omega (arith, h.limit)))
          ∙ append_assoc (held r) chunk (pending c.reader' f')

  -- What the loop does with less fuel, for any reader.
  abbrev Later : Type 0
  Later =
      (s : LineReader) (g : File) (d : Reader)
      → IsBound max s g d
      → s.discarding_too_long_line ≡ false
      → length (pending d g) < n
      → Runs max g (scan max (held s ++ pending d g)) (read_loop n s g)

  one_turn : Later → Runs max f outcome (read_loop (suc n) r f)
  unfolding append_chunk
  one_turn later = elim (empty_or chunk) [
    | inl empty ↦ no_bytes empty c.shape
    | inr some_bytes ↦ elim (Bool-cases (leb (r.pos + length chunk) max)) [
      | inl fits ↦ appended some_bytes (leb→le _ _ fits) c.is_chunk
      | inr long ↦ too_many some_bytes (ground arith)
    ]
  ]
    where
      appended :
          0 < length chunk
          → r.pos + length chunk ≤ max
          → IsChunk chunk
          → Runs max f outcome (read_loop (suc n) r f)
      appended some_bytes fits (part clear) = more_bytes some_bytes fits clear (
          later (append_chunk r' chunk) f' c.reader'
            (append_chunk-IsBound r' f' c.reader' h' chunk fits clear) scanning
            (pending_falls some_bytes))
      appended some_bytes fits (ended body is_line clear) =
          ends_line some_bytes fits body is_line clear

-- Enough fuel: more than the bytes that the file and its reader have yet to give.
pub scan_loop :
    (max n : ℕ) (r : LineReader) (f : File) (b : Reader)
    → IsBound max r f b
    → r.discarding_too_long_line ≡ false
    → length (pending b f) < n
    → Runs max f (scan max (held r ++ pending b f)) (read_loop n r f)
scan_loop max zero r f b h scanning fuel = absurd (omega arith)
scan_loop max (suc n) r f b h scanning fuel =
    let c = read_chunk-Fetched r f b (h.quiet scanning) h.bound h.reader_ok in
    subst (λ s. Runs max f (scan max (held r ++ s)) (read_loop (suc n) r f)) c.stream
      (one_turn n r f b h scanning fuel c (scan_loop max n))
