-- ===== src/LineReader/Refine/Cases.antt =====
-- One turn of ReadLine's loop: at the end of the file, with a chunk that does not fit, and with
-- one that ends the line.
use go_libtail.Prelude.{
  ℕ, suc, ◌+◌, ◌-◌, ◌≤◌, ◌<◌, ◌≡◌, refl, sym, subst, ap, ◌∙◌, false, none, some, [], ◌∷◌, ◌++◌,
  arith, length, take, drop, append-nil, append_assoc, length-append, take-append_le,
  take-append_add, drop-append_add, drop-append_le, take_before,
}
use go_libtail.Bufio.{Bytes, File, Reader, index_byte}
use go_libtail.Bufio.Laws.{pending}
use go_libtail.Bufio.Index.{index_byte-append_none, index_byte-append_self}
use go_libtail.LineReader.{
  LineReader, Reply, newline, held, shift, strip_windows_line_ending, line_too_long,
}
use go_libtail.LineReader.ReadLine.{append_chunk, keep_front, line_reply}
use go_libtail.LineReader.Spec.{
  line, too_long, fresh_stream, skip_stream, scan, scan_line, scan_cut, scan_wait,
}
use go_libtail.LineReader.State.{IsBound, IsChunk, view, view_scanning, length-held}
use go_libtail.LineReader.Refine.{end_reply, Refines}
use go_libtail.LineReader.Refine.Bound.{held-cut, keep_front-IsBound, held_taken, shift-IsBound}
use go_libtail.LineReader.Refine.Buffer.{held-append_chunk}

module _ {max : ℕ} (r : LineReader) (f f' : File) (b' : Reader) (h : IsBound max r f' b')
    (scanning : r.discarding_too_long_line ≡ false) (same : f'.id ≡ f.id)
    (same_end : f'.failing ≡ f.failing) where
  size : length (held r) ≡ r.pos
  size = length-held r (omega (arith, h.capacity, h.in_range))

  -- The end of the file, with no chunk.
  pub waits :
      pending b' f' ≡ [] → Refines max f (scan max (held r ++ pending b' f')) (end_reply f, r, f')
  waits at_end =
      subst (λ o. Refines max f o (end_reply f, r, f')) (sym settled)
        (record {
          agrees = refl;
          reader' = b';
          drained = λ e. at_end;
          bound = h;
          viewed = view_scanning r b' f' scanning (h.quiet scanning);
          id_kept = same;
          failing_kept = same_end;
        })
    where
      settled : scan max (held r ++ pending b' f') ≡ (none, fresh_stream (held r ++ pending b' f'))
      settled = scan_wait max (held r ++ pending b' f') (rw (at_end, append-nil) h.clear) (
          omega (arith, length-append (held r) (pending b' f'), ap length at_end, size, h.in_range))

  module _ (c : Bytes) (is_chunk : IsChunk c) (long : max < r.pos + length c) where
    abbrev whole : Bytes
    whole = held r ++ (c ++ pending b' f')

    take-whole : take max whole ≡ held (keep_front r c)
    take-whole =
        take-append_add max (held r) (c ++ pending b' f') (omega (arith, size, h.in_range))
        ∙ ap (λ k. held r ++ take (max - k) (c ++ pending b' f')) size
        ∙ ap (◌++◌ (held r))
            (take-append_le (max - r.pos) c (pending b' f') (omega (arith, h.in_range)))
        ∙ sym (held-cut r f' b' h c long)

    drop-whole : drop max whole ≡ drop (max - r.pos) c ++ pending b' f'
    drop-whole =
        drop-append_add max (held r) (c ++ pending b' f') (omega (arith, size, h.in_range))
        ∙ ap (λ k. drop (max - k) (c ++ pending b' f')) size
        ∙ drop-append_le (max - r.pos) c (pending b' f') (omega (arith, h.in_range))

    view-keep_front : view (keep_front r c) b' f' ≡ skip_stream (drop max whole)
    unfolding keep_front
    view-keep_front =
        ap (λ m. skip_stream (drop (m - r.pos) c ++ pending b' f')) h.limit
        ∙ ap skip_stream (sym drop-whole)

    abbrev cut_reply : Bytes → Reply
    cut_reply s = record {
      line = strip_windows_line_ending s;
      at_eof = false;
      err = some (line_too_long (r.pos + length c) max);
    }

    -- A chunk that does not fit.
    pub cuts :
        Refines max f (scan max whole) (cut_reply (held (keep_front r c)), keep_front r c, f')
    cuts =
        subst (λ o. Refines max f o (cut_reply (held (keep_front r c)), keep_front r c, f'))
          (sym settled)
          (record {
            agrees = (r.pos + length c, long, ap cut_reply (sym take-whole));
            reader' = b';
            drained = λ e. cc;
            bound = keep_front-IsBound r f' b' h c long is_chunk;
            viewed = view-keep_front;
            id_kept = same;
            failing_kept = same_end;
          })
      where
        settled : scan max whole ≡ (some (too_long (take max whole)), skip_stream (drop max whole))
        settled =
            scan_cut max whole (rw take-whole (keep_front-IsBound r f' b' h c long is_chunk).clear)
              (omega (
                arith,
                size,
                length-append (held r) (c ++ pending b' f'),
                length-append c (pending b' f'),
              ))

  module _ (c body : Bytes) (is_line : c ≡ body ++ newline ∷ [])
      (clear : index_byte newline body ≡ none) (fits : r.pos + length c ≤ max) where
    abbrev full : LineReader
    full = append_chunk r c

    held-full : held full ≡ (held r ++ body) ++ newline ∷ []
    held-full =
        held-append_chunk r c (h.capacity ∙ sym h.limit) (omega (arith, h.limit))
        ∙ ap (◌++◌ (held r)) is_line
        ∙ sym (append_assoc (held r) body (newline ∷ []))

    length-line : suc (length (held r ++ body)) ≡ r.pos + length c
    length-line = omega (
      arith,
      size,
      length-append (held r) body,
      length-append body (newline ∷ []),
      ap length is_line,
    )

    clear-line : index_byte newline (held r ++ body) ≡ none
    clear-line = index_byte-append_none newline (held r) body h.clear clear

    pub index-full : index_byte newline (held full) ≡ some (length (held r ++ body))
    index-full = rw held-full (index_byte-append_self newline (held r ++ body) [] clear-line)

    scan-line :
        scan max (held r ++ (c ++ pending b' f'))
        ≡ (some (line (held r ++ body)), fresh_stream (pending b' f'))
    scan-line =
        ap (scan max) regroup
        ∙ scan_line max (held r ++ body) (pending b' f') clear-line (omega (arith, length-line))
      where
        regroup : held r ++ (c ++ pending b' f') ≡ (held r ++ body) ++ newline ∷ pending b' f'
        regroup =
            rw (is_line, append_assoc body (newline ∷ []) (pending b' f'))
              (sym (append_assoc (held r) body (newline ∷ pending b' f')))

    abbrev line_end : ℕ
    line_end = length (held r ++ body)

    -- A chunk that ends the line.
    pub takes_line : Refines max f (scan max (held r ++ (c ++ pending b' f'))) (
      line_reply (strip_windows_line_ending (take line_end (held full))),
      shift full line_end,
      f',
    )
    unfolding shift append_chunk
    takes_line =
        subst
          (λ o. Refines max f o (
            line_reply (strip_windows_line_ending (take line_end (held full))),
            shift full line_end,
            f',
          ))
          (sym scan-line)
          (record {
            agrees =
                ap (λ k. line_reply (strip_windows_line_ending k))
                  (ap (take line_end) held-full ∙ take_before (held r ++ body) (newline ∷ []));
            reader' = b';
            drained = λ e. cc;
            bound = shift-IsBound r f' b' h c line_end fits length-line;
            viewed =
                view_scanning (shift full line_end) b' f' scanning (h.quiet scanning)
                ∙ ap (λ k. fresh_stream (k ++ pending b' f'))
                    (held_taken r f' b' h c line_end fits length-line);
            id_kept = same;
            failing_kept = same_end;
          })
