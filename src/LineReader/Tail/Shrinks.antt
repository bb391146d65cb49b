-- ===== src/LineReader/Tail/Shrinks.antt =====
-- The length of a stream while it delivers.
use go_libtail.Prelude.{
  ℕ, suc, ◌≤◌, ◌<◌, ◌≡◌, sym, ap, ◌∙◌, Bool, true, false, inl, inr, none, some, List, [], ◌∷◌,
  arith, length, take, drop, if◌then◌else◌, length-append, length-drop, length-drop, Option-cases,
}
use go_libtail.Bufio.{Bytes, index_byte}
use go_libtail.Bufio.Index.{index_byte-IsFirst}
use go_libtail.LineReader.{newline}
use go_libtail.LineReader.Spec.{
  Item, Stream, fresh_stream, skip_stream, scan, skip, next, scan_line, scan_cut, scan_wait,
  skip_found, skip-none,
}
use go_libtail.LineReader.Tail.{
  Delivers, waits, delivers, Scanned, whole, cut, unfinished, scan-Scanned,
}

-- With a limit that is not zero each item takes bytes off the stream.
pub next-shrinks :
    (max : ℕ) (s : Stream) (i : Item) (t : Stream)
    → 0 < max
    → next max s ≡ (some i, t)
    → length t.bytes < length s.bytes
unfolding next
next-shrinks max s i t positive e = by_mode s.skipping s.bytes e
  where
    scanned : (u : Bytes) → scan max u ≡ (some i, t) → length t.bytes < length u
    scanned u h = by_case (scan-Scanned max u)
      where
        by_case : Scanned max u → length t.bytes < length u
        by_case (whole body rest is clear short) =
            let left : t ≡ fresh_stream rest =
              cc (ap (scan max) is ∙ scan_line max body rest clear short) in
            omega (
              arith,
              ap (λ x. length x.bytes) left,
              ap length is,
              length-append body (newline ∷ rest),
            )
        by_case (cut clear long) =
            let left : t ≡ skip_stream (drop max u) = cc (scan_cut max u clear long) in
            omega (arith, ap (λ x. length x.bytes) left, length-drop max u)
        by_case (unfinished clear short) = cc (scan_wait max u clear short)

    by_mode :
        (k : Bool) (u : Bytes)
        → (if k then skip max u else scan max u) ≡ (some i, t)
        → length t.bytes < length u
    by_mode false u h = scanned u h
    by_mode true u h = elim (Option-cases (index_byte newline u)) [
      | inl absent ↦ cc (skip-none max u absent)
      | inr (k, found) ↦
          let first = index_byte-IsFirst newline u k found in
          let rest = drop (suc k) u in
          omega (
            arith,
            scanned rest
                (sym (ap (skip max) first.splits ∙ skip_found max (take k u) rest first.clear) ∙ h),
            length-drop (suc k) u,
          )
    ]

next_wait_shorter :
    (max : ℕ) (s t : Stream) → next max s ≡ (none, t) → length t.bytes ≤ length s.bytes
unfolding next
next_wait_shorter max s t e = by_mode s.skipping s.bytes e
  where
    scanned : (u : Bytes) → scan max u ≡ (none, t) → length t.bytes ≤ length u
    scanned u h = by_case (scan-Scanned max u)
      where
        by_case : Scanned max u → length t.bytes ≤ length u
        by_case (whole body rest is clear short) =
            cc (ap (scan max) is ∙ scan_line max body rest clear short)
        by_case (cut clear long) = cc (scan_cut max u clear long)
        by_case (unfinished clear short) =
            let left : t ≡ fresh_stream u = cc (scan_wait max u clear short) in
            omega (arith, ap (λ x. length x.bytes) left)

    by_mode :
        (k : Bool) (u : Bytes)
        → (if k then skip max u else scan max u) ≡ (none, t)
        → length t.bytes ≤ length u
    by_mode false u h = scanned u h
    by_mode true u h = elim (Option-cases (index_byte newline u)) [
      | inl absent ↦
          let left : t ≡ skip_stream [] = cc (skip-none max u absent) in
          omega (arith, ap (λ x. length x.bytes) left)
      | inr (k, found) ↦
          let first = index_byte-IsFirst newline u k found in
          let rest = drop (suc k) u in
          omega (
            arith,
            scanned rest
                (sym (ap (skip max) first.splits ∙ skip_found max (take k u) rest first.clear) ∙ h),
            length-drop (suc k) u,
          )
    ]

pub Delivers-shorter :
    {max : ℕ} {s t : Stream} {is : List Item}
    → 0 < max
    → Delivers max s is t
    → length t.bytes ≤ length s.bytes
Delivers-shorter {max} {s} {t} positive (waits h) = next_wait_shorter max s t h
Delivers-shorter {max} {s} positive (delivers {i = i} v h d) =
    omega (arith, next-shrinks max s i v positive h, Delivers-shorter positive d)
