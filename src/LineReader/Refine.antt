-- ===== src/LineReader/Refine.antt =====
-- ReadLine and `next`: what it is to refine, and the turns of its loop.
mod Buffer
pub mod Bound
mod Cases
pub mod Scan
use go_libtail.Prelude.{
  ℕ, zero, suc, ◌+◌, ◌-◌, ◌≤◌, ◌<◌, ◌≡◌, Bool, true, false, Option, none, some, [], ◌∷◌, arith,
  if◌then◌else◌,
}
use go_libtail.Bufio.{File, Reader, io_failure}
use go_libtail.Bufio.Laws.{pending}
use go_libtail.LineReader.{LineReader, line_too_long, read_failed, Reply, strip_windows_line_ending}
use go_libtail.LineReader.ReadLine.{
  line_reply, eof_reply, error_reply, scan_turn, begin_turn, read_loop,
}
use go_libtail.LineReader.Chunk.{done, again}
use go_libtail.LineReader.Spec.{Item, line, too_long, Stream}
use go_libtail.LineReader.State.{IsBound, view}

-- At the end of the bytes: end of file, or the file's error.
abbrev pub end_reply : File → Reply
end_reply f = if f.failing then error_reply (read_failed io_failure) else eof_reply

-- What ReadLine returns for an item. The length that it reports of a cut line is above the
-- limit.
abbrev pub Agrees : ℕ → File → Option Item → Reply → Type 0
Agrees max f none reply = reply ≡ end_reply f
Agrees max f (some (line s)) reply = reply ≡ line_reply (strip_windows_line_ending s)
Agrees max f (some (too_long s)) reply =
    (n : ℕ) × (max < n)
    × (reply ≡ record {
      line = strip_windows_line_ending s;
      at_eof = false;
      err = some (line_too_long n max);
    })

pub record Refines (max : ℕ) (f : File) (o : Option Item × Stream) (out : Reply × LineReader × File)
    : Type 0 where
  pub agrees : Agrees max f o.0 out.0
  pub reader' : Reader
  pub drained : o.0 ≡ none → pending reader' out.2 ≡ []
  pub bound : IsBound max out.1 out.2 reader'
  pub viewed : view out.1 reader' out.2 ≡ o.1
  pub id_kept : out.2.id ≡ f.id
  pub failing_kept : out.2.failing ≡ f.failing

-- The run ends, with a result that refines `o`.
abbrev pub Runs : ℕ → File → Option Item × Stream → Option (Reply × LineReader × File) → Type 0
Runs max f o run = (out : Reply × LineReader × File) × (run ≡ some out) × Refines max f o out

module _ (n : ℕ) (r : LineReader) (f : File) (scanning : r.discarding_too_long_line ≡ false) where
  pub read_loop_done :
      {a : Reply} {r' : LineReader} {f' : File}
      → scan_turn r f ≡ done a r' f'
      → read_loop (suc n) r f ≡ some (a, r', f')
  unfolding read_loop begin_turn
  read_loop_done e = ground arith

  pub read_loop-again :
      {r' : LineReader} {f' : File}
      → scan_turn r f ≡ again r' f'
      → read_loop (suc n) r f ≡ read_loop n r' f'
  unfolding read_loop begin_turn
  read_loop-again e = ground arith
