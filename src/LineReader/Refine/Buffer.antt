-- ===== src/LineReader/Refine/Buffer.antt =====
-- The buffer after a chunk that fits, and after one that does not.
use go_libtail.Prelude.{
  ◌+◌, ◌-◌, ◌≤◌, ◌<◌, ◌≡◌, sym, subst, ap, ◌∙◌, false, inl, inr, ◌++◌, arith, length, take, ltb,
  append-nil, length-take, Bool-cases,
}
use go_libtail.Bufio.{Bytes}
use go_libtail.LineReader.{LineReader, held, copy_at}
use go_libtail.LineReader.ReadLine.{append_chunk, keep_front}
use go_libtail.LineReader.State.{length-copy_at, take-copy_at}

module _ (r : LineReader) (chunk : Bytes) (capacity : length r.buf ≡ r.max_line_bytes) where
  module _ (fits : r.pos + length chunk ≤ r.max_line_bytes) where
    pub held-append_chunk : held (append_chunk r chunk) ≡ held r ++ chunk
    unfolding append_chunk
    held-append_chunk = take-copy_at r.buf r.pos chunk (omega arith)

    pub length-append_chunk : length (append_chunk r chunk).buf ≡ r.max_line_bytes
    unfolding append_chunk
    length-append_chunk = length-copy_at r.buf r.pos chunk (omega arith) ∙ capacity

  module _ (in_range : r.pos ≤ r.max_line_bytes)
      (long : r.max_line_bytes < r.pos + length chunk) where
    abbrev front : Bytes
    front = take (r.max_line_bytes - r.pos) chunk

    length-front : length front ≡ r.max_line_bytes - r.pos
    length-front = omega (arith, length-take (r.max_line_bytes - r.pos) chunk)

    pub pos-keep_front : (keep_front r chunk).pos ≡ r.max_line_bytes
    unfolding keep_front
    pos-keep_front = ground arith

    none_left : ltb 0 (r.max_line_bytes - r.pos) ≡ false → r.max_line_bytes - r.pos ≡ 0
    none_left h = ground arith

    pub held-keep_front :
        held (keep_front r chunk) ≡ held r ++ take (r.max_line_bytes - r.pos) chunk
    unfolding keep_front
    held-keep_front = elim (Bool-cases (ltb 0 (r.max_line_bytes - r.pos))) [
      | inl some_fit ↦ rw some_fit (
          subst (λ k. take (r.pos + k) (copy_at r.buf r.pos front) ≡ held r ++ front) length-front
            (take-copy_at r.buf r.pos front (omega (arith, length-front))))
      | inr none_fit ↦
          rw none_fit
            (sym (ap (λ k. held r ++ take k chunk) (none_left none_fit) ∙ append-nil (held r)))
    ]

    pub length-keep_front : length (keep_front r chunk).buf ≡ r.max_line_bytes
    unfolding keep_front
    length-keep_front = elim (Bool-cases (ltb 0 (r.max_line_bytes - r.pos))) [
      | inl some_fit ↦
          rw some_fit (length-copy_at r.buf r.pos front (omega (arith, length-front)) ∙ capacity)
      | inr none_fit ↦ rw none_fit capacity
    ]
