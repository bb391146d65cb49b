-- ===== src/FileTailer/Run/Ends.antt =====
-- A tailer that is closed ends.
use go_libtail.Prelude.{
  ℕ, ◌≡◌, refl, ◌⊎◌, inl, inr, Bool, true, false, Option, none, some, List, [], ◌∷◌,
}
use go_libtail.Errors.{Text, Error}
use go_libtail.FileTailer.Session.{Dir, Session, System, unique_dirs, check_missing_file}
use go_libtail.FileTailer.Os.{Os}
use go_libtail.FileTailer.Sync.{Outcome, sync_files_in_dir}
use go_libtail.FileTailer.Total.Reads.{IsQuiet, Returns}
use go_libtail.FileTailer.Total.Syncs.{sync_files_in_dir-Returns}
use go_libtail.FileTailer.Run.{
  Fswatcher, Input, done, events_closed, errors_closed, event, loop_error, Answer, received,
  done_closed, unanswered, send_error, Reason, failed, Status, stopped, watch_each, watch_dirs,
  consumer_loop, sync_each, after_missing, check_first, after_sync, after_watching, tail_files,
}

-- One of the channels is closed, or an error of the event loop comes.
abbrev pub HasEnd : {E : Type 0} → List (Input E) → Type 0
HasEnd [] = ⊥
HasEnd (event w accepts answer e ∷ inputs) = HasEnd inputs
HasEnd (done ∷ inputs) = Unit
HasEnd (events_closed ∷ inputs) = Unit
HasEnd (errors_closed ∷ inputs) = Unit
HasEnd (loop_error answer e ∷ inputs) = Unit

-- The consumer takes every line.
abbrev pub TakeAll : {E : Type 0} → List (Input E) → Type 0
TakeAll [] = Unit
TakeAll (event w accepts answer e ∷ inputs) = ((k : ℕ) → accepts k ≡ true) × TakeAll inputs
TakeAll (done ∷ inputs) = Unit
TakeAll (events_closed ∷ inputs) = Unit
TakeAll (errors_closed ∷ inputs) = Unit
TakeAll (loop_error answer e ∷ inputs) = Unit

-- Someone receives the error, or closes the tailer in place of it.
abbrev pub IsAnswered : Answer → Type 0
IsAnswered received = Unit
IsAnswered done_closed = Unit
IsAnswered unanswered = ⊥

-- So it is for every error that comes of the inputs.
abbrev pub AreAnswered : {E : Type 0} → List (Input E) → Type 0
AreAnswered [] = Unit
AreAnswered (event w accepts answer e ∷ inputs) = IsAnswered answer × AreAnswered inputs
AreAnswered (done ∷ inputs) = Unit
AreAnswered (events_closed ∷ inputs) = Unit
AreAnswered (errors_closed ∷ inputs) = Unit
AreAnswered (loop_error answer e ∷ inputs) = IsAnswered answer

abbrev Stops : Option Status → Type 0
Stops out = (reason : Reason) × (t : Session) × (out ≡ some (stopped reason t))

send_error-Stops :
    (answer : Answer) (e : Error) (why : Bool → Reason) (t : Session)
    → IsAnswered answer
    → Stops (some (send_error answer e why t))
unfolding send_error
send_error-Stops received e why t h = (_, _, refl)
send_error-Stops done_closed e why t h = (_, _, refl)
send_error-Stops unanswered e why t h = absurd h

abbrev pub AlwaysReturns : {E : Type 0} → ℕ → Fswatcher E → Type 0
AlwaysReturns {E} m watcher =
    (w : System) (accepts : ℕ → Bool)
    → ((k : ℕ) → accepts k ≡ true)
    → (t : Session) (e : E) → IsQuiet m t
    → Returns m (watcher.process_event w accepts t e)

module _ {E : Type 0} (m : ℕ) (watcher : Fswatcher E) (returns : AlwaysReturns m watcher) where
  consumer_loop-Stops :
      (inputs : List (Input E)) (t : Session)
      → HasEnd inputs
      → TakeAll inputs
      → AreAnswered inputs
      → IsQuiet m t
      → Stops (consumer_loop watcher inputs t)
  unfolding consumer_loop
  consumer_loop-Stops [] t ends takes answers quiet = absurd ends
  consumer_loop-Stops (done ∷ inputs) t ends takes answers quiet = (_, _, refl)
  consumer_loop-Stops (events_closed ∷ inputs) t ends takes answers quiet = (_, _, refl)
  consumer_loop-Stops (errors_closed ∷ inputs) t ends takes answers quiet = (_, _, refl)
  consumer_loop-Stops (loop_error answer e ∷ inputs) t ends takes answers quiet =
      send_error-Stops answer _ _ t answers
  consumer_loop-Stops (event w accepts answer e ∷ inputs) t ends takes answers quiet =
      by_result (returns w accepts takes.0 t e quiet)
        (λ t' q. consumer_loop-Stops inputs t' ends takes.1 answers.1 q)
    where
      by_result :
          Returns m (watcher.process_event w accepts t e)
          → ((t' : Session) → IsQuiet m t' → Stops (consumer_loop watcher inputs t'))
          → Stops (consumer_loop watcher (event w accepts answer e ∷ inputs) t)
      by_result (none, t', q, k) later = rw (q, consumer_loop) (later t' k)
      by_result (some x, t', q, k) later =
          rw (q, consumer_loop) (send_error-Stops answer x (failed x) t' answers.0)

  watch_each-IsQuiet :
      (w : System) (paths : List Text) (t : Session)
      → IsQuiet m t
      → IsQuiet m (watch_each watcher w t paths).1
  unfolding watch_each
  watch_each-IsQuiet w [] t quiet = quiet
  watch_each-IsQuiet w (path ∷ paths) t quiet =
      by_answer (watcher.watch_dir w path) refl (λ t' q. watch_each-IsQuiet w paths t' q)
    where
      by_answer :
          (o : Error ⊎ Dir)
          → watcher.watch_dir w path ≡ o
          → ((t' : Session) → IsQuiet m t' → IsQuiet m (watch_each watcher w t' paths).1)
          → IsQuiet m (watch_each watcher w t (path ∷ paths)).1
      by_answer (inl e) q later = rw (q, watch_each) quiet
      by_answer (inr d) q later =
          rw (q, watch_each) (later _ (record { limit = quiet.limit; readers = quiet.readers }))

  watch_dirs-IsQuiet :
      (w : System) (t : Session) → IsQuiet m t → IsQuiet m (watch_dirs watcher w t).1
  unfolding watch_dirs
  watch_dirs-IsQuiet w t quiet = by_answer (unique_dirs w t.globs) refl
    where
      by_answer :
          (o : Error ⊎ List Text) → unique_dirs w t.globs ≡ o → IsQuiet m (watch_dirs watcher w t).1
      by_answer (inl e) q = rw (q, watch_dirs) quiet
      by_answer (inr paths) q = rw (q, watch_dirs) (watch_each-IsQuiet w paths t quiet)

  module _ (os : Os) (matches : Text → Text → Bool) (accepts : ℕ → Bool)
      (takes_all : (k : ℕ) → accepts k ≡ true) (w : System) (answer : Answer)
      (answered : IsAnswered answer) where
    sync_each-Returns :
        (readall : Bool) (dirs : List Dir) (t : Session)
        → IsQuiet m t
        → Returns m (sync_each watcher os matches accepts w answer readall t dirs)
    unfolding sync_each
    sync_each-Returns readall [] t quiet = (_, t, refl, quiet)
    sync_each-Returns readall (d ∷ dirs) t quiet =
        by_result
          (sync_files_in_dir-Returns os matches accepts takes_all w m t d.path readall quiet)
          (λ t' q. sync_each-Returns readall dirs t' q)
      where
        by_result :
            Returns m (sync_files_in_dir os matches accepts w t d.path readall)
            → ((t' : Session)
                → IsQuiet m t'
                → Returns m (sync_each watcher os matches accepts w answer readall t' dirs))
            → Returns m (sync_each watcher os matches accepts w answer readall t (d ∷ dirs))
        by_result (none, t', q, k) later = rw (q, sync_each) (later t' k)
        by_result (some x, t', q, k) later = rw (q, sync_each) (_, t', refl, k)

    module _ (inputs : List (Input E)) (ends : HasEnd inputs) (takes : TakeAll inputs)
        (answers : AreAnswered inputs) where
      after_missing-Stops :
          (o : Option Error) (t : Session)
          → IsQuiet m t
          → Stops (after_missing watcher os matches accepts w answer o inputs t)
      unfolding after_missing
      after_missing-Stops none t quiet = consumer_loop-Stops inputs t ends takes answers quiet
      after_missing-Stops (some e) t quiet = send_error-Stops answer e (failed e) t answered

      check_first-Stops :
          (fail : Bool) (t : Session)
          → IsQuiet m t
          → Stops (check_first watcher os matches accepts w answer fail inputs t)
      unfolding check_first
      check_first-Stops true t quiet = after_missing-Stops (check_missing_file matches t) t quiet
      check_first-Stops false t quiet = after_missing-Stops none t quiet

      after_sync-Stops :
          (fail : Bool) (o : Outcome)
          → Returns m o
          → Stops (after_sync watcher os matches accepts w answer fail inputs o)
      unfolding after_sync
      after_sync-Stops fail o (none, t, e, q) = rw e (check_first-Stops fail t q)
      after_sync-Stops fail o (some x, t, e, q) =
          rw e (send_error-Stops answer x (failed x) t answered)

      after_watching-Stops :
          (readall fail : Bool) (o : Option Error × Session)
          → IsQuiet m o.1
          → Stops (after_watching watcher os matches accepts w answer readall fail inputs o)
      unfolding after_watching
      after_watching-Stops readall fail (some e, t) quiet =
          send_error-Stops answer e (failed e) t answered
      after_watching-Stops readall fail (none, t) quiet =
          after_sync-Stops fail _ (sync_each-Returns readall t.watched_dirs t quiet)

      pub tail_files-Stops :
          (readall fail : Bool) (t : Session)
          → IsQuiet m t
          → Stops (tail_files watcher os matches accepts w answer readall fail inputs t)
      unfolding tail_files
      tail_files-Stops readall fail t quiet =
          after_watching-Stops readall fail (watch_dirs watcher w t) (watch_dirs-IsQuiet w t quiet)
