-- ===== src/LineReader/Contract.antt =====
-- ReadLine against its specification, from every state that its own calls leave behind.
use go_libtail.Prelude.{
  ℕ, zero, suc, ◌+◌, ◌<◌, ◌≡◌, refl, sym, subst, ap, ap₂, ◌∙◌, true, false, inl, inr, none, some,
  ◌++◌, arith, length, length-append, Bool-cases,
}
use go_libtail.Bufio.{Bytes, File, Reader}
use go_libtail.Bufio.Laws.{pending}
use go_libtail.LineReader.{LineReader}
use go_libtail.LineReader.Chunk.{Found, discard_until_newline}
use go_libtail.LineReader.ReadLine.{rebind, begin_turn, read_loop, read_line}
use go_libtail.LineReader.Spec.{fresh_stream, skip_stream, scan, skip, next}
use go_libtail.LineReader.State.{IsBound, view, view_scanning, view_skipping}
use go_libtail.LineReader.Skip.{end_found, Skipped, Stop, at_newline, at_end}
use go_libtail.LineReader.Skip.Loop.{skip_loop}
use go_libtail.LineReader.Refine.{Agrees, end_reply, Runs}
use go_libtail.LineReader.Refine.Scan.{scan_loop, Runs-file}

module _ (n : ℕ) (r : LineReader) (f : File) (skipping : r.discarding_too_long_line ≡ true) where
  read_loop_skipped :
      (r' : LineReader) (f' : File)
      → discard_until_newline n r f ≡ some ((false, none), r', f')
      → r'.discarding_too_long_line ≡ false
      → read_loop (suc n) r f ≡ read_loop (suc n) r' f'
  unfolding read_loop begin_turn
  read_loop_skipped r' f' e scanning = ground arith

  read_loop_ended :
      (r' : LineReader) (f' g : File)
      → discard_until_newline n r f ≡ some (end_found g, r', f')
      → read_loop (suc n) r f ≡ some (end_reply g, r', f')
  unfolding read_loop begin_turn
  read_loop_ended r' f' g e = ground arith

next_scanning : (max : ℕ) (s : Bytes) → next max (fresh_stream s) ≡ scan max s
unfolding next
next_scanning max s = refl

next_skipping : (max : ℕ) (s : Bytes) → next max (skip_stream s) ≡ skip max s
unfolding next
next_skipping max s = refl

-- What the bytes in front of the reader count for in fuel: one turn of the loop each, at most.
abbrev pub unread_bytes : LineReader → Reader → File → ℕ
unread_bytes r b f = length r.overflow + length (pending b f)

module _ (max n : ℕ) (r : LineReader) (f : File) (b : Reader) (h : IsBound max r f b)
    (fuel : unread_bytes r b f < n) where
  scanning_refines :
      r.discarding_too_long_line ≡ false
      → Runs max f (next max (view r b f)) (read_loop (suc n) r f)
  scanning_refines scanning =
      subst (λ o. Runs max f o (read_loop (suc n) r f))
        (sym
          (ap (next max) (view_scanning r b f scanning (h.quiet scanning)) ∙ next_scanning max _))
        (scan_loop max (suc n) r f b h scanning (omega arith))

  skipping_refines :
      r.discarding_too_long_line ≡ true → Runs max f (next max (view r b f)) (read_loop (suc n) r f)
  skipping_refines skipping =
      let (out, runs, skipped) = skip_loop max n r f b h skipping (omega arith) in
      subst (λ o. Runs max f o (read_loop (suc n) r f))
        (sym (ap (next max) (view_skipping r b f skipping) ∙ next_skipping max _))
        (stopped out runs skipped skipped.stop)
    where
      stopped :
          (out : Found × LineReader × File)
          → discard_until_newline n r f ≡ some out
          → (sk : Skipped max f (r.overflow ++ pending b f) out)
          → Stop max f (r.overflow ++ pending b f) out.0 out.1 sk.reader' out.2
          → Runs max f (skip max (r.overflow ++ pending b f)) (read_loop (suc n) r f)
      stopped (a, r', f') runs sk (at_newline found scanning empty to left) =
          rw
            (read_loop_skipped n r f skipping r' f' (runs ∙ ap (λ a. some (a, r', f')) found)
              scanning)
            (subst (λ o. Runs max f o (read_loop (suc n) r' f'))
              (ap (λ k. scan max (k ++ pending sk.reader' f')) empty ∙ sym to)
              (Runs-file max f f' _ _ sk.id_kept sk.failing_kept (
                scan_loop max (suc n) r' f' sk.reader' sk.bound scanning
                  (omega (arith, length-append r.overflow (pending b f))))))
      stopped (a, r', f') runs sk (at_end found still quiet ends to) = (
        (end_reply f, r', f'),
        read_loop_ended n r f skipping r' f' f (runs ∙ ap (λ a. some (a, r', f')) found),
        record {
          agrees = subst (λ o. Agrees max f o.0 (end_reply f)) (sym to) refl;
          reader' = sk.reader';
          drained = λ e. ends;
          bound = sk.bound;
          viewed =
              view_skipping r' sk.reader' f' still
              ∙ ap₂ (λ o p. skip_stream (o ++ p)) quiet ends
              ∙ sym (ap (λ o. o.1) to);
          id_kept = sk.id_kept;
          failing_kept = sk.failing_kept;
        },
      )

  pub read_loop_refines : Runs max f (next max (view r b f)) (read_loop (suc n) r f)
  read_loop_refines = elim (Bool-cases r.discarding_too_long_line) [
    | inl skipping ↦ skipping_refines skipping
    | inr scanning ↦ scanning_refines scanning
  ]

-- A second call on the same file does not rebind.
rebind_same :
    (max : ℕ) (r : LineReader) (f : File) (b : Reader) → IsBound max r f b → rebind r f ≡ r
unfolding rebind
rebind_same max r f b h = ground (arith, h.bound, h.source_is)

-- Whatever the buffers hold, ReadLine returns, and what it returns and leaves to be read is the
-- next item of the stream: a line that ends within the limit, stripped of a carriage return;
-- the first bytes of a longer one, as an error, with the rest of that line skipped by the calls
-- that follow; or, if neither is there yet, end of file (or the file's own error) with nothing
-- of the unfinished line lost. The reader is bound to the file. Enough fuel is two more than the bytes still to be read.
pub read_line_refines :
    (max fuel : ℕ) (r : LineReader) (f : File) (b : Reader)
    → IsBound max r f b
    → unread_bytes r b f + 1 < fuel
    → Runs max f (next max (view r b f)) (read_line fuel r f)
unfolding read_line
read_line_refines max zero r f b h fuel = absurd (omega arith)
read_line_refines max (suc n) r f b h fuel =
    rw (rebind_same max r f b h) (read_loop_refines max n r f b h (omega arith))
