-- ===== src/LineReader/ReadLine.antt =====
-- linereader.go, ReadLine.
use go_libtail.Prelude.{
  ℕ, zero, suc, ◌+◌, ◌-◌, Bool, true, false, Option, none, some, [], ◌∷◌, ◌++◌, length, take, drop,
  ltb, ◌==◌, if◌then◌else◌,
}
use go_libtail.Bufio.{Bytes, File, ReadError, eof, Reader, new_reader_size, index_byte}
use go_libtail.LineReader.{
  LineReader, LineError, line_too_long, read_failed, Reply, newline, held, copy_at, shift,
  strip_windows_line_ending,
}
use go_libtail.LineReader.Chunk.{
  ChunkRead, read_chunk, Turn, done, again, Found, discard_until_newline,
}

-- r.reader != nil && r.source == file
unfoldable pub is_bound : Option Reader → Option ℕ → ℕ → Bool
is_bound (some b) (some i) id = i == id
is_bound _ _ id = false

-- r.reader.Peek(r.reader.Buffered())
unfoldable pub buffered_bytes : Option Reader → Bytes
buffered_bytes none = []
buffered_bytes (some b) = b.buffered

-- The head of ReadLine: bind the reader to `f`, and keep what the old one had buffered.
unfoldable pub rebind : LineReader → File → LineReader
unfolding is_bound buffered_bytes
rebind r f = if is_bound r.reader r.source f.id then r else record r {
  overflow = r.overflow ++ buffered_bytes r.reader;
  reader = some (new_reader_size r.read_buffer_size);
  source = some f.id;
}

abbrev pub line_reply : Bytes → Reply
line_reply s = record { line = s; at_eof = false; err = none }

abbrev pub eof_reply : Reply
eof_reply = record { line = []; at_eof = true; err = none }

abbrev pub error_reply : LineError → Reply
error_reply e = record { line = []; at_eof = false; err = some e }

-- What is kept of a line whose chunk does not fit: as much as the limit allows.
unfoldable pub keep_front : LineReader → Bytes → LineReader
keep_front r chunk =
    let fit_bytes = r.max_line_bytes - r.pos in
    record r {
      discarding_too_long_line = true;
      buf = if ltb 0 fit_bytes then copy_at r.buf r.pos (take fit_bytes chunk) else r.buf;
      pos = if ltb 0 fit_bytes then r.pos + fit_bytes else r.pos;
      overflow = drop fit_bytes chunk;
    }

unfoldable pub cut_line : LineReader → File → Bytes → Turn Reply
unfolding keep_front
cut_line r f chunk =
    let kept = keep_front r chunk in
    done
      (record {
        line = strip_windows_line_ending (held kept);
        at_eof = false;
        err = some (line_too_long (r.pos + length chunk) r.max_line_bytes);
      })
      kept f

-- The chunk fits.
unfoldable pub append_chunk : LineReader → Bytes → LineReader
append_chunk r chunk = record r { buf = copy_at r.buf r.pos chunk; pos = r.pos + length chunk }

unfoldable pub no_chunk : Option ReadError → LineReader → File → Turn Reply
no_chunk none r f = again r f
no_chunk (some eof) r f = done eof_reply r f
no_chunk (some e) r f = done (error_reply (read_failed e)) r f

unfoldable pub take_chunk : LineReader → File → Bytes → Option ReadError → Turn Reply
unfolding cut_line append_chunk no_chunk
take_chunk r f [] err = no_chunk err r f
take_chunk r f (x ∷ xs) err =
    let chunk = x ∷ xs in
    if ltb r.max_line_bytes (r.pos + length chunk)
    then cut_line r f chunk
    else again (append_chunk r chunk) f

unfoldable pub next_chunk : ChunkRead → Turn Reply
unfolding take_chunk
next_chunk c = take_chunk c.owner c.file c.chunk c.err

-- One turn of the loop in ReadLine, behind the discarding.
unfoldable pub scan_turn : LineReader → File → Turn Reply
unfolding next_chunk shift
scan_turn r f = elim (index_byte newline (held r)) [
  | some i ↦ done (line_reply (strip_windows_line_ending (take i (held r)))) (shift r i) f
  | none ↦ next_chunk (read_chunk r f)
]

after_discard : Found → LineReader → File → Turn Reply
after_discard (eof_met, some e) r f = done (error_reply e) r f
after_discard (true, none) r f = done eof_reply r f
after_discard (false, none) r f = again r f

-- The first part of a turn: skip the rest of an oversized line, where there is one.
unfoldable pub begin_turn : ℕ → LineReader → File → Option (Turn Reply)
unfolding after_discard
begin_turn n r f = elim r.discarding_too_long_line [
  | false ↦ some (again r f)
  | true ↦ elim (discard_until_newline n r f) [
    | none ↦ none
    | some (a, r', f') ↦ some (after_discard a r' f')
  ]
]

-- The loop of ReadLine. `none`: out of fuel.
unfoldable pub read_loop : ℕ → LineReader → File → Option (Reply × LineReader × File)
read_loop zero r f = none
read_loop (suc n) r f = elim (begin_turn n r f) [
  | none ↦ none
  | some (done a r' f') ↦ some (a, r', f')
  | some (again r' f') ↦ elim (scan_turn r' f') [
    | done a r'' f'' ↦ some (a, r'', f'')
    | again r'' f'' ↦ read_loop n r'' f''
  ]
]

unfoldable pub read_line : ℕ → LineReader → File → Option (Reply × LineReader × File)
unfolding rebind read_loop
read_line fuel r f = read_loop fuel (rebind r f) f
