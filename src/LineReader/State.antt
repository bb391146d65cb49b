-- ===== src/LineReader/State.antt =====
-- The representation invariant of a lineReader between two calls of ReadLine, and what its
-- buffer operations do to the bytes in use.
use go_libtail.Prelude.{
  ℕ, suc, ◌+◌, ◌-◌, ◌≤◌, ◌<◌, ◌≡◌, inl, inr, sym, ap, ap₂, ◌∙◌, Bool, true, false, none, some, [],
  ◌∷◌, ◌++◌, arith, length, take, drop, append_assoc, length-append, length-take, length-drop,
  take_all, take_prefix, drop_all, drop-append_le, take-append_le, if◌then◌else◌, drop_past, leb,
  leb→le, Bool-cases,
}
use native.Mathlib.Numerals.{add-one}
use go_libtail.Bufio.{Bytes, File, Reader, index_byte}
use go_libtail.Bufio.Laws.{IsReader, pending}
use go_libtail.Bufio.Index.{index_byte-append_self, index_byte-drop-none, index_byte-take-none}
use go_libtail.LineReader.{LineReader, newline, held, copy_at, shift}
use go_libtail.LineReader.Spec.{Stream, fresh_stream, skip_stream}

-- At most one newline, at the end: what a ReadSlice for newlines returns, and any end of it.
pub data IsChunk (c : Bytes) : Type 0 where
  part : index_byte newline c ≡ none → IsChunk c
  ended : (body : Bytes) → c ≡ body ++ newline ∷ [] → index_byte newline body ≡ none → IsChunk c

-- The reader is bound to `f` through `b`; its buffer has the room that the limit asks for and
-- holds no newline; bytes wait in the overflow only while an oversized line is skipped.
pub record IsBound (max : ℕ) (r : LineReader) (f : File) (b : Reader) : Type 0 where
  pub limit : r.max_line_bytes ≡ max
  pub capacity : length r.buf ≡ max
  pub in_range : r.pos ≤ max
  pub bound : r.reader ≡ some b
  pub source_is : r.source ≡ some f.id
  pub reader_ok : IsReader b
  pub clear : index_byte newline (held r) ≡ none
  pub quiet : r.discarding_too_long_line ≡ false → r.overflow ≡ []
  pub chunk_left : IsChunk r.overflow

-- What is still to be delivered. The bytes in use are dropped with the rest of their line.
abbrev pub view : LineReader → Reader → File → Stream
view r b f = record {
  skipping = r.discarding_too_long_line;
  bytes = (if r.discarding_too_long_line then [] else held r) ++ (r.overflow ++ pending b f);
}

pub IsChunk-drop : (n : ℕ) (c : Bytes) → IsChunk c → IsChunk (drop n c)
IsChunk-drop n c (part h) = part (index_byte-drop-none newline n c h)
IsChunk-drop n c (ended body e h) = elim (Bool-cases (leb n (length body))) [
  | inl inside ↦
      ended (drop n body) (rw (e, drop-append_le n body (newline ∷ []) (leb→le _ _ inside)))
        (index_byte-drop-none newline n body h)
  | inr past ↦ part (rw (drop_all n c (rw e (ground (arith, length-append body (newline ∷ []))))))
]

-- Nothing follows the newline of a chunk.
pub IsChunk-rest :
    (c : Bytes) (i : ℕ) → IsChunk c → index_byte newline c ≡ some i → drop (suc i) c ≡ []
IsChunk-rest c i (part h) e = cc
IsChunk-rest c i (ended body p h) e =
    let q : some i ≡ some (length body) =
      sym e ∙ ap (index_byte newline) p ∙ index_byte-append_self newline body [] h in
    let at_end : i ≡ length body = cc in rw (p, at_end) (drop_past body newline [])

pub length-copy_at :
    (dst : Bytes) (at : ℕ) (src : Bytes)
    → at + length src ≤ length dst
    → length (copy_at dst at src) ≡ length dst
length-copy_at dst at src h = omega (
  arith,
  length-append (take at dst) (take (length dst - at) src ++ drop (at + length src) dst),
  length-append (take (length dst - at) src) (drop (at + length src) dst),
  length-take at dst,
  length-take (length dst - at) src,
  length-drop (at + length src) dst,
)

-- What was in use stays, and the copied bytes follow it.
pub take-copy_at :
    (dst : Bytes) (at : ℕ) (src : Bytes)
    → at + length src ≤ length dst
    → take (at + length src) (copy_at dst at src) ≡ take at dst ++ src
take-copy_at dst at src h =
    rw (take_all (length dst - at) src (omega arith), ← append_assoc)
      (take_prefix (at + length src) (take at dst ++ src) _
        (omega (arith, length-append (take at dst) src, length-take at dst)))

pub held-shift :
    (r : LineReader) (i : ℕ)
    → r.pos ≤ length r.buf
    → i < r.pos
    → held (shift r i) ≡ drop (suc i) (held r)
unfolding shift
held-shift r i h k =
    let size : length (drop (suc i) (held r)) ≡ r.pos - suc i =
      omega (arith, length-drop (suc i) (held r), length-take r.pos r.buf) in
    rw (take_all (length r.buf - 0) (drop (suc i) (held r)) (omega (arith, size)))
      (take_prefix (r.pos - suc i) (drop (suc i) (held r)) _ (sym size))

pub length-held : (r : LineReader) → r.pos ≤ length r.buf → length (held r) ≡ r.pos
length-held r h = omega (arith, length-take r.pos r.buf)

-- The front of a chunk, without its last byte or less, holds no newline.
pub IsChunk-front :
    (n : ℕ) (c : Bytes) → n < length c → IsChunk c → index_byte newline (take n c) ≡ none
IsChunk-front n c h (part e) = index_byte-take-none newline n c e
IsChunk-front n c h (ended body p e) =
    let size : length c ≡ suc (length body) =
      ap length p ∙ length-append body (newline ∷ []) ∙ add-one (length body) in
    rw (p, take-append_le n body (newline ∷ []) (omega (arith, size)))
      (index_byte-take-none newline n body e)

view_of : Bool → Bytes → Bytes → Bytes → Stream
view_of d h o p = record { skipping = d; bytes = (if d then [] else h) ++ (o ++ p) }

pub view_scanning :
    (r : LineReader) (b : Reader) (f : File)
    → r.discarding_too_long_line ≡ false
    → r.overflow ≡ []
    → view r b f ≡ fresh_stream (held r ++ pending b f)
unfolding view_of
view_scanning r b f d o = ap₂ (λ d o. view_of d (held r) o (pending b f)) d o

pub view_skipping :
    (r : LineReader) (b : Reader) (f : File)
    → r.discarding_too_long_line ≡ true
    → view r b f ≡ skip_stream (r.overflow ++ pending b f)
unfolding view_of
view_skipping r b f d = ap (λ d. view_of d (held r) r.overflow (pending b f)) d
