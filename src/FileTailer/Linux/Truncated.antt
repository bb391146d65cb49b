-- ===== src/FileTailer/Linux/Truncated.antt =====
-- What is read of a file that has grown, and of one that was truncated.
use go_libtail.Prelude.{
  ℕ, zero, suc, ◌+◌, ◌≤◌, ◌<◌, ◌≡◌, refl, sym, ap, ◌∙◌, subst, Bool, true, false, none, some, List,
  [], ◌∷◌, ◌++◌, arith, length, set, ltb, length-append, length-take, length-drop, if◌then◌else◌,
}
use go_libtail.Bufio.{File}
use go_libtail.LineReader
use go_libtail.LineReader.{LineReader, held}
use go_libtail.LineReader.Spec.{Item, Stream, fresh_stream}
use go_libtail.LineReader.Tail.{Delivers}
use go_libtail.LineReader.Idle.{IsIdle, idle_view, idle_ready, clear-IsIdle}
use go_libtail.FileTailer.ReadNewLines.{Output, read_new_lines}
use go_libtail.FileTailer.ReadNewLines.Delivery.{reports, Delivered}
use go_libtail.FileTailer.ReadNewLines.Complete.{read_new_lines_complete}
use go_libtail.FileTailer.Session.{Watched, Session, System}
use go_libtail.FileTailer.Os.{file_of, linux}
use go_libtail.FileTailer.Sync.{Outcome, handle_after, fuel_for, update, read_watched}
use go_libtail.FileTailer.Os.{is_truncated}
use go_libtail.FileTailer.Linux.{restarted, restart_and_read, read_modified}

set-set :
    (heap : List Watched) (ref : ℕ) (a b : Watched) → set (set heap ref a) ref b ≡ set heap ref b
set-set [] ref a b = refl
set-set (x ∷ heap) zero a b = refl
set-set (x ∷ heap) (suc ref) a b = ap (◌∷◌ x) (set-set heap ref a b)

module _ (accepts : ℕ → Bool) (takes_all : (k : ℕ) → accepts k ≡ true) (w : System) (max : ℕ)
    (positive : 0 < max) where
  -- The call returned nil: it has sent the items of `s`, and left the reader idle with the rest,
  -- at the end of the file.
  pub record ReadAll (t : Session) (ref : ℕ) (watched : Watched) (s : Stream) (out : Outcome)
      : Type 0 where
    pub items : List Item
    pub rest : Stream
    pub after : Session
    pub watched' : Watched
    pub returns : out ≡ some (none, after)
    pub delivers : Delivers max s items rest
    pub sent_is : after.sent ≡ t.sent ++ reports watched.handle.name items
    pub heap_is : after.heap ≡ set t.heap ref watched'
    pub idle : IsIdle max watched'.reader
    pub viewed :
        idle_view watched'.reader (record { id = watched'.handle.id; unread = []; failing = false })
        ≡ rest
    pub at_end : watched'.handle.offset ≡ length (w.content watched.handle.file)

  pub enough : (r : LineReader) (f : File) → length (idle_view r f).bytes + 1 < fuel_for r f
  unfolding fuel_for
  enough r f = by_mode r.discarding_too_long_line
    where
      by_mode :
          (b : Bool)
          → length ((if b then [] else held r) ++ (r.overflow ++ f.unread)) + 1
            < r.pos + (length r.overflow + (length f.unread + 2))
      by_mode true = omega (arith, length-append r.overflow f.unread)
      by_mode false = omega (
        arith,
        length-append (held r) (r.overflow ++ f.unread),
        length-append r.overflow f.unread,
        length-take r.pos r.buf,
      )

  read_watched-idle :
      (t : Session) (ref : ℕ) (watched : Watched)
      → IsIdle max watched.reader
      → watched.handle.offset ≤ length (w.content watched.handle.file)
      → w.reading_fails watched.handle.file ≡ false
      → ReadAll t ref watched
          (idle_view watched.reader (file_of w watched.handle))
          (read_watched linux accepts w t ref watched)
  unfolding read_watched update file_of handle_after
  read_watched-idle t ref watched idle in_file reads = of_call (
      read_new_lines_complete watched.handle.name w.read_error accepts takes_all max positive
        (fuel_for watched.reader f) (length t.sent) watched.reader f _ (idle_ready idle refl)
        (enough watched.reader f))
    where
      f : File
      f = file_of w watched.handle

      of_call :
          ((out : Output) × (read_new_lines watched.handle.name w.read_error accepts
                (fuel_for watched.reader f)
                (length t.sent)
                watched.reader
                f
              ≡ some out)
            × Delivered watched.handle.name w.read_error max f (idle_view watched.reader f) out)
          → ReadAll t ref watched
              (idle_view watched.reader f)
              (read_watched linux accepts w t ref watched)
      of_call (out, run, d) = record {
        items = d.items;
        rest = d.rest;
        after =
            record (update t ref
              (record { handle = handle_after watched.handle f out.file; reader = out.reader })) {
                sent = t.sent ++ out.sent;
              };
        watched' = record { handle = handle_after watched.handle f out.file; reader = out.reader };
        returns =
            let nil : out.result ≡ none = ground (arith, d.result_is, reads) in
            rw (run, read_watched) (rw nil refl);
        delivers = d.all_delivered;
        sent_is = ap (λ l. t.sent ++ l) d.sent_is;
        heap_is = refl;
        idle = d.idle;
        viewed =
            ap
              (λ u. record {
                skipping = out.reader.discarding_too_long_line;
                bytes =
                    (if out.reader.discarding_too_long_line then [] else held out.reader)
                    ++ (out.reader.overflow ++ u);
              })
              (sym d.all_read)
            ∙ d.viewed;
        at_end = omega (
          arith,
          ap length d.all_read,
          length-drop watched.handle.offset (w.content watched.handle.file),
          in_file,
        );
      }

  -- What a watched file has to deliver: all of it from the start, if it is shorter than the
  -- offset; otherwise what the reader has kept and what is behind the offset.
  abbrev pub due : Watched → Stream
  due watched =
      if ltb (length (w.content watched.handle.file)) watched.handle.offset
      then fresh_stream (w.content watched.handle.file)
      else idle_view watched.reader (file_of w watched.handle)

  pub restarted-IsIdle :
      (watched : Watched) → IsIdle max watched.reader → IsIdle max (restarted watched).reader
  unfolding restarted
  restarted-IsIdle watched idle = clear-IsIdle max watched.reader idle.limit idle.capacity

  restart-ReadAll :
      (t : Session) (ref : ℕ) (watched : Watched)
      → IsIdle max watched.reader
      → w.reading_fails watched.handle.file ≡ false
      → ReadAll t ref watched
          (fresh_stream (w.content watched.handle.file))
          (read_watched linux accepts w (update t ref (restarted watched)) ref (restarted watched))
  unfolding restarted update file_of LineReader.clear
  restart-ReadAll t ref watched idle reads =
      let r =
        read_watched-idle (update t ref (restarted watched)) ref (restarted watched)
          (restarted-IsIdle watched idle) (omega arith) reads in
      record {
        items = r.items;
        rest = r.rest;
        after = r.after;
        watched' = r.watched';
        returns = r.returns;
        delivers = r.delivers;
        sent_is = r.sent_is;
        heap_is = r.heap_is ∙ set-set t.heap ref (restarted watched) r.watched';
        idle = r.idle;
        viewed = r.viewed;
        at_end = r.at_end;
      }

  restarts :
      (t : Session) (ref : ℕ) (watched : Watched)
      → w.seek_error watched.handle.file ≡ none
      → w.stat_error watched.handle.file ≡ none
      → ltb (length (w.content watched.handle.file)) watched.handle.offset ≡ true
      → read_modified linux accepts w t ref watched
        ≡ read_watched linux accepts w (update t ref (restarted watched)) ref (restarted watched)
  unfolding read_modified is_truncated restart_and_read
  restarts t ref watched seeks stats e = ground arith

  goes_on :
      (t : Session) (ref : ℕ) (watched : Watched)
      → w.seek_error watched.handle.file ≡ none
      → w.stat_error watched.handle.file ≡ none
      → ltb (length (w.content watched.handle.file)) watched.handle.offset ≡ false
      → read_modified linux accepts w t ref watched ≡ read_watched linux accepts w t ref watched
  unfolding read_modified is_truncated
  goes_on t ref watched seeks stats e = ground arith

  -- A watched file that was written to, or truncated and perhaps written again: with a reader
  -- idle at the limit, no error of the system and a consumer that takes every line, all that is
  -- due is sent, once and in order, under the file's name; the handle is at the end of the file,
  -- and the reader keeps the unfinished line. A file shorter than the offset is read from its
  -- start and the reader forgets what it had kept. The limit is not zero.
  pub read_modified-ReadAll :
      (t : Session) (ref : ℕ) (watched : Watched)
      → IsIdle max watched.reader
      → w.seek_error watched.handle.file ≡ none
      → w.stat_error watched.handle.file ≡ none
      → w.reading_fails watched.handle.file ≡ false
      → ReadAll t ref watched (due watched) (read_modified linux accepts w t ref watched)
  unfolding read_modified is_truncated restart_and_read
  read_modified-ReadAll t ref watched idle seeks stats reads =
      by_size (ltb (length (w.content watched.handle.file)) watched.handle.offset) refl
    where
      by_size :
          (b : Bool)
          → ltb (length (w.content watched.handle.file)) watched.handle.offset ≡ b
          → ReadAll t ref watched
              (if b
                then fresh_stream (w.content watched.handle.file)
                else idle_view watched.reader (file_of w watched.handle))
              (read_modified linux accepts w t ref watched)
      by_size true e =
          subst (ReadAll t ref watched (fresh_stream (w.content watched.handle.file)))
            (sym (restarts t ref watched seeks stats e)) (restart-ReadAll t ref watched idle reads)
      by_size false e =
          subst (ReadAll t ref watched (idle_view watched.reader (file_of w watched.handle)))
            (sym (goes_on t ref watched seeks stats e))
            (read_watched-idle t ref watched idle (ground arith) reads)
