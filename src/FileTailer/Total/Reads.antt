-- ===== src/FileTailer/Total/Reads.antt =====
-- The calls that read a watched file.
use go_libtail.Prelude.{
  ℕ, zero, suc, ◌<◌, ◌≡◌, refl, sym, subst, ◌⊎◌, inl, inr, Bool, true, false, Option, none, some,
  Option-cases, List, [], ◌∷◌, ◌++◌, arith, get_elem?, set, length,
}
use go_libtail.Prelude.Int.{pos}
use go_libtail.Errors.{Text, Error}
use go_libtail.LineReader.{new_line_reader_with_max_line_bytes}
use go_libtail.LineReader.Idle.{IsIdle, idle_ready, fresh_reader-IsIdle}
use go_libtail.FileTailer.ReadNewLines.Complete.{read_new_lines_complete}
use go_libtail.FileTailer.Session.{Watched, Session, System}
use go_libtail.FileTailer.Os.{Os}
use go_libtail.FileTailer.Sync.{
  Outcome, fuel_for, handle_after, update, read_watched, read_or_close, follow_moved, start_reading,
  seek_end, renamed, close_handle, started, unused, if_watched,
}
use go_libtail.FileTailer.Linux.{restarted, restart_and_read, read_modified}
use go_libtail.FileTailer.Linux.Truncated.{enough, restarted-IsIdle}

abbrev pub AreIdle : ℕ → List Watched → Type 0
AreIdle max [] = Unit
AreIdle max (watched ∷ heap) = IsIdle max watched.reader × AreIdle max heap

-- The limit is `suc m`, and every reader is idle at it.
pub record IsQuiet (m : ℕ) (t : Session) : Type 0 where
  pub limit : t.max_line_bytes ≡ suc m
  pub readers : AreIdle (suc m) t.heap

-- The call returned, with an error or nil.
abbrev pub Returns : ℕ → Outcome → Type 0
Returns m out = (r : Option Error) × (t : Session) × (out ≡ some (r, t)) × IsQuiet m t

pub AreIdle-set :
    (max : ℕ) (heap : List Watched) (ref : ℕ) (watched : Watched)
    → AreIdle max heap
    → IsIdle max watched.reader
    → AreIdle max (set heap ref watched)
AreIdle-set max [] ref watched h k = tt
AreIdle-set max (x ∷ heap) zero watched h k = (k, h.1)
AreIdle-set max (x ∷ heap) (suc ref) watched h k = (h.0, AreIdle-set max heap ref watched h.1 k)

AreIdle-append :
    (max : ℕ) (heap : List Watched) (watched : Watched)
    → AreIdle max heap
    → IsIdle max watched.reader
    → AreIdle max (heap ++ watched ∷ [])
AreIdle-append max [] watched h k = (k, tt)
AreIdle-append max (x ∷ heap) watched h k = (h.0, AreIdle-append max heap watched h.1 k)

pub AreIdle-get :
    (max : ℕ) (heap : List Watched) (ref : ℕ) (watched : Watched)
    → AreIdle max heap
    → get_elem? heap ref ≡ some watched
    → IsIdle max watched.reader
AreIdle-get max [] ref watched h at = absurd cc
AreIdle-get max (x ∷ heap) zero watched h at =
    let same : x ≡ watched = cc in subst (λ v. IsIdle max v.reader) same h.0
AreIdle-get max (x ∷ heap) (suc ref) watched h at = AreIdle-get max heap ref watched h.1 at

if_watched-Returns :
    (m : ℕ) (o : Option Error) (t : Session) (id : ℕ) (next : Outcome)
    → IsQuiet m t
    → Returns m next
    → Returns m (if_watched o t id next)
unfolding if_watched
if_watched-Returns m none t id next quiet h = h
if_watched-Returns m (some e) t id next quiet h =
    (_, _, refl, record { limit = quiet.limit; readers = quiet.readers })

module _ (os : Os) (accepts : ℕ → Bool) (takes_all : (k : ℕ) → accepts k ≡ true) (w : System)
    (m : ℕ) where
  positive : 0 < suc m
  positive = omega arith

  pub read_watched-Returns :
      (t : Session) (ref : ℕ) (watched : Watched)
      → IsQuiet m t
      → IsIdle (suc m) watched.reader
      → Returns m (read_watched os accepts w t ref watched)
  unfolding read_watched update
  read_watched-Returns t ref watched quiet idle =
      let f = os.file_of w watched.handle in
      let (out, run, d) =
        read_new_lines_complete watched.handle.name (os.read_error w watched.handle) accepts
          takes_all (suc m) positive (fuel_for watched.reader f) (length t.sent) watched.reader f _
          (idle_ready idle refl) (enough accepts takes_all w (suc m) positive watched.reader f) in
      (
        out.result,
        record (update t ref
            (record { handle = handle_after watched.handle f out.file; reader = out.reader })) {
              sent = t.sent ++ out.sent;
            },
        rw (run, read_watched) refl,
        record {
          limit = quiet.limit;
          readers = AreIdle-set (suc m) t.heap ref _ quiet.readers d.idle;
        },
      )

  pub read_or_close-Returns :
      (t : Session) (ref : ℕ) (watched : Watched)
      → IsQuiet m t
      → IsIdle (suc m) watched.reader
      → Returns m (read_or_close os accepts w t ref watched)
  unfolding read_or_close
  read_or_close-Returns t ref watched quiet idle =
      by_result (read_watched-Returns t ref watched quiet idle)
    where
      by_result :
          Returns m (read_watched os accepts w t ref watched)
          → Returns m (read_or_close os accepts w t ref watched)
      by_result (none, t', e, q) = (none, t', rw (e, read_or_close) refl, q)
      by_result (some x, t', e, q) = (
        some x,
        close_handle t' watched.handle.id,
        rw (e, read_or_close) refl,
        record { limit = q.limit; readers = q.readers },
      )

  pub follow_moved-Returns :
      (t : Session) (ref : ℕ) (watched : Watched) (path : Text)
      → IsQuiet m t
      → IsIdle (suc m) watched.reader
      → Returns m (follow_moved os accepts w t ref watched path)
  unfolding follow_moved
  follow_moved-Returns t ref watched path quiet idle =
      elim (Option-cases (os.dup_error w watched.handle)) [
        | inr (cause, e) ↦ rw (e, follow_moved) (_, t, refl, quiet)
        | inl e ↦
            rw (e, follow_moved)
              (if_watched-Returns m (os.watch_file w (renamed t watched path).handle)
                (unused (close_handle t watched.handle.id)) t.next_id _
                (record { limit = quiet.limit; readers = quiet.readers })
                (read_or_close-Returns _ ref (renamed t watched path)
                  (record {
                    limit = quiet.limit;
                    readers = AreIdle-set (suc m) t.heap ref _ quiet.readers idle;
                  })
                  idle))
      ]

  new_reader-IsIdle :
      (n : ℕ) → n ≡ suc m → IsIdle (suc m) (new_line_reader_with_max_line_bytes (pos n))
  unfolding new_line_reader_with_max_line_bytes
  new_reader-IsIdle n e =
      subst (λ n. IsIdle (suc m) (new_line_reader_with_max_line_bytes (pos n))) (sym e)
        (fresh_reader-IsIdle (suc m) _)

  start_reading-Returns :
      (readall : Bool) (t : Session) (path : Text) (file ref : ℕ)
      → IsQuiet m t
      → Returns m (start_reading os accepts w readall t path file ref)
  unfolding start_reading
  start_reading-Returns readall t path file ref quiet =
      let idle = new_reader-IsIdle t.max_line_bytes quiet.limit in
      if_watched-Returns m (os.watch_file w (started os accepts w readall t path file).handle)
        (unused t) t.next_id _ (record { limit = quiet.limit; readers = quiet.readers })
        (read_or_close-Returns _ ref _
          (record {
            limit = quiet.limit;
            readers = AreIdle-append (suc m) t.heap _ quiet.readers idle;
          })
          idle)

  pub seek_end-Returns :
      (readall : Bool) (t : Session) (path : Text) (file ref : ℕ) (cause : Option Text)
      → IsQuiet m t
      → Returns m (seek_end os accepts w readall t path file ref cause)
  unfolding seek_end
  seek_end-Returns false t path file ref (some cause) quiet =
      (_, _, refl, record { limit = quiet.limit; readers = quiet.readers })
  seek_end-Returns false t path file ref none quiet =
      start_reading-Returns false t path file ref quiet
  seek_end-Returns true t path file ref (some cause) quiet =
      start_reading-Returns true t path file ref quiet
  seek_end-Returns true t path file ref none quiet =
      start_reading-Returns true t path file ref quiet

module _ (os : Os) (accepts : ℕ → Bool) (takes_all : (k : ℕ) → accepts k ≡ true) (w : System)
    (m : ℕ) where
  pub read_modified-Returns :
      (t : Session) (ref : ℕ) (watched : Watched)
      → IsQuiet m t
      → IsIdle (suc m) watched.reader
      → Returns m (read_modified os accepts w t ref watched)
  unfolding read_modified restart_and_read
  read_modified-Returns t ref watched quiet idle =
      by_answer (os.check_truncated w watched.handle) refl
    where
      restart : (o : Option Text) → Returns m (restart_and_read os accepts w t ref watched o)
      restart (some cause) = (_, t, refl, quiet)
      restart none =
          let idle' = restarted-IsIdle accepts takes_all w (suc m) (omega arith) watched idle in
          read_watched-Returns os accepts takes_all w m (update t ref (restarted watched)) ref
            (restarted watched)
            (record {
              limit = quiet.limit;
              readers = AreIdle-set (suc m) t.heap ref _ quiet.readers idle';
            })
            idle'

      by_answer :
          (o : Text ⊎ Bool)
          → os.check_truncated w watched.handle ≡ o
          → Returns m (read_modified os accepts w t ref watched)
      by_answer (inl cause) e = rw (e, read_modified) (_, t, refl, quiet)
      by_answer (inr true) e = rw (e, read_modified) (restart (os.seek_error w watched.handle))
      by_answer (inr false) e =
          rw (e, read_modified)
            (read_watched-Returns os accepts takes_all w m t ref watched quiet idle)
