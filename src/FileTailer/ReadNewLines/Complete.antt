-- ===== src/FileTailer/ReadNewLines/Complete.antt =====
-- The loop of readNewLines to its end.
use go_libtail.Prelude.{
  ℕ, zero, suc, ◌+◌, ◌<◌, ◌≡◌, refl, sym, ap, ap₂, ◌∙◌, Bool, true, Option, none, some, List, [],
  ◌∷◌, ◌++◌, arith, length, if◌then◌else◌,
}
use mathlib.Core.Option
use go_libtail.Bufio.{Bytes, File}
use go_libtail.Errors.{Text}
use go_libtail.LineReader.{LineReader, Reply, held}
use go_libtail.LineReader.ReadLine.{read_line}
use go_libtail.LineReader.Spec.{Item, Stream, next}
use go_libtail.LineReader.Tail.{waits, delivers}
use go_libtail.LineReader.Tail.Shrinks.{next-shrinks}
use go_libtail.LineReader.Refine.{Refines}
use go_libtail.LineReader.Idle.{end-IsIdle, IsReady, bound_ready, read_line_ready}
use go_libtail.FileTailer.{Line}
use go_libtail.FileTailer.ReadNewLines.{action, Output, stopped, sent_first, read_new_lines}
use go_libtail.FileTailer.ReadNewLines.Delivery.{
  report, end_result, Delivered, read_new_lines_stop, read_new_lines_pass, read_new_lines_send,
  action_end, Acts, passes, sends, Acts-item,
}

empty_parts : (xs ys : Bytes) → xs ++ ys ≡ [] → (xs ≡ []) × (ys ≡ [])
empty_parts [] ys e = (refl, e)
empty_parts (x ∷ xs) ys e = cc

-- Another file value for the same file.
end_result-file :
    (name cause : Text) (f f' : File)
    → f'.failing ≡ f.failing
    → end_result name cause f' ≡ end_result name cause f
end_result-file name cause f f' e = ground arith

-- The run of the whole call.
abbrev pub Completes : Text → Text → ℕ → File → Stream → Option Output → Type 0
Completes name cause max f v run =
    (out : Output) × (run ≡ some out) × Delivered name cause max f v out

module _ (name cause : Text) (max : ℕ) (f f' : File) (same : f'.id ≡ f.id)
    (same_end : f'.failing ≡ f.failing) (i : Item) (v t : Stream)
    (e : next max v ≡ (some i, t)) where
  -- An item in front of what the rest of the call sends.
  one_more :
      (out : Output) (ls : List Line)
      → report name i ≡ ls
      → Delivered name cause max f' t out
      → Delivered name cause max f v (record out { sent = ls ++ out.sent })
  one_more out ls is d = record {
    items = i ∷ d.items;
    rest = d.rest;
    all_delivered = delivers t e d.all_delivered;
    sent_is = ap₂ ◌++◌ (sym is) d.sent_is;
    result_is = d.result_is ∙ end_result-file name cause f f' same_end;
    idle = d.idle;
    viewed = d.viewed;
    all_read = d.all_read;
    id_kept = d.id_kept ∙ same;
    failing_kept = d.failing_kept ∙ same_end;
  }

module _ (name cause : Text) (max : ℕ) (f : File) (v t : Stream) where
  -- Nothing more is there.
  at_end :
      (out : Reply × LineReader × File)
      → Refines max f (none, t) out
      → next max v ≡ (none, t)
      → Delivered name cause max f v (stopped (end_result name cause f) out.1 out.2)
  at_end (a, r, g) h e =
      let (buffered_none, all_read) = empty_parts h.reader'.buffered g.unread (h.drained refl) in
      record {
        items = [];
        rest = t;
        all_delivered = waits e;
        sent_is = refl;
        result_is = refl;
        idle = end-IsIdle max r g h.reader' h.bound buffered_none;
        viewed =
            ap
              (λ k. record {
                skipping = r.discarding_too_long_line;
                bytes =
                    (if r.discarding_too_long_line then [] else held r)
                    ++ (r.overflow ++ (k ++ g.unread));
              })
              (sym buffered_none)
            ∙ h.viewed;
        all_read = all_read;
        id_kept = h.id_kept;
        failing_kept = h.failing_kept;
      }

module _ (name cause : Text) (accepts : ℕ → Bool) (takes_all : (k : ℕ) → accepts k ≡ true) (max : ℕ)
    (positive : 0 < max) where
  completes :
      (n k : ℕ) (r : LineReader) (f : File) (v : Stream)
      → IsReady max r f v
      → length v.bytes + 1 < n
      → Completes name cause max f v (read_new_lines name cause accepts n k r f)
  completes zero k r f v ready enough = absurd (omega arith)
  completes (suc n) k r f v ready enough =
      let (out, runs, h) = read_line_ready max (suc n) r f v ready enough in
      by_item (next max v).0 (next max v).1 refl out runs h (completes n)
    where
      by_item :
          (o : Option Item) (t : Stream)
          → next max v ≡ (o, t)
          → (out : Reply × LineReader × File) → read_line (suc n) r f ≡ some out
          → Refines max f (o, t) out
          → ((k : ℕ) (r : LineReader) (f : File) (v : Stream)
              → IsReady max r f v
              → length v.bytes + 1 < n
              → Completes name cause max f v (read_new_lines name cause accepts n k r f))
          → Completes name cause max f v (read_new_lines name cause accepts (suc n) k r f)
      by_item none t e (a, r', f') runs h later = (
        stopped (end_result name cause f) r' f',
        read_new_lines_stop name cause accepts n k r f a r' f' _ runs
            (ap (action name cause) h.agrees ∙ action_end name cause f),
        at_end name cause max f v t (a, r', f') h e,
      )
      by_item (some i) t e (a, r', f') runs h later =
          by_action (report name i) refl (Acts-item name cause max f i a h.agrees)
        where
          rest :
              (k : ℕ) → Completes name cause max f' t (read_new_lines name cause accepts n k r' f')
          rest k =
              later k r' f' t (bound_ready h.reader' h.bound h.viewed)
                (omega (arith, next-shrinks max v i t positive e))

          by_action :
              (ls : List Line)
              → report name i ≡ ls
              → Acts name cause a ls
              → Completes name cause max f v (read_new_lines name cause accepts (suc n) k r f)
          by_action ls is (passes g) =
              let (out, later_runs, d) = rest k in
              (
                out,
                read_new_lines_pass name cause accepts n k r f a r' f' runs g ∙ later_runs,
                one_more name cause max f f' h.id_kept h.failing_kept i v t e out [] is d,
              )
          by_action ls is (sends l g) =
              let (out, later_runs, d) = rest (suc k) in
              (
                sent_first l out,
                read_new_lines_send name cause accepts n k r f a r' f' l runs g (takes_all k)
                    ∙ ap (Option.map (sent_first l)) later_runs,
                one_more name cause max f f' h.id_kept h.failing_kept i v t e out (l ∷ []) is d,
              )

  -- A call of readNewLines, whose consumer takes every line, ends: it has sent, in order and
  -- with their file's name, all the items of the stream that the reader and the file hold, each
  -- line stripped and the oversized ones cut and marked; it returns nil at the end of the file
  -- or the file's read error; and it has read the whole file, keeping what is unfinished. The
  -- limit is not zero, and the fuel is more than the bytes plus one.
  pub read_new_lines_complete :
      (n k : ℕ) (r : LineReader) (f : File) (v : Stream)
      → IsReady max r f v
      → length v.bytes + 1 < n
      → (out : Output) × (read_new_lines name cause accepts n k r f ≡ some out)
        × Delivered name cause max f v out
  read_new_lines_complete n k r f v ready enough = completes n k r f v ready enough
