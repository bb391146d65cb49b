-- ===== src/FileTailer/Run/Stops.antt =====
-- A tailer that is closed ends: the tailer of Linux.
use go_libtail.Prelude.{ℕ, zero, suc, ◌≡◌, refl, inr, Bool, true, some, List, ap}
use go_libtail.Prelude.Int.{ℤ, pos, negsuc}
use go_libtail.Errors.{Text}
use go_libtail.FileTailer.{TailerOptions, normalize_tailer_options}
use go_libtail.FileTailer.Session.{Session, System}
use go_libtail.FileTailer.Os.{Os, linux}
use go_libtail.FileTailer.Linux.{Event}
use go_libtail.FileTailer.Total.Reads.{IsQuiet}
use go_libtail.FileTailer.Total.Events.{process_event-Returns}
use go_libtail.FileTailer.Run.Watchers.{linux_watcher}
use go_libtail.FileTailer.Run.Ends.{
  HasEnd, TakeAll, IsAnswered, AreAnswered, AlwaysReturns, tail_files-Stops,
}
use go_libtail.FileTailer.Run.{
  Answer, Fswatcher, Input, Reason, stopped, limit_of, new_session, run_file_tailer,
}

-- A limit is never zero once it is normalized.
positive_limit :
    (z : ℤ)
    → (m : ℕ) × (limit_of (normalize_tailer_options (record { max_line_bytes = z })).max_line_bytes
        ≡ suc m)
unfolding normalize_tailer_options
positive_limit (pos zero) = (1048575, refl)
positive_limit (pos (suc n)) = (n, refl)
positive_limit (negsuc n) = (1048575, refl)

new_session-IsQuiet :
    (globs : List Text) (options : TailerOptions) → (m : ℕ) × IsQuiet m (new_session globs options)
unfolding new_session
new_session-IsQuiet globs options =
    let (m, e) = positive_limit options.max_line_bytes in (m, record { limit = e; readers = tt })

module _ {E : Type 0} (watcher : Fswatcher E) (returns : (m : ℕ) → AlwaysReturns m watcher)
    (os : Os) (matches : Text → Text → Bool) (accepts : ℕ → Bool)
    (takes_all : (k : ℕ) → accepts k ≡ true) (w : System) (answer : Answer) (globs : List Text)
    (readall fail : Bool) (options : TailerOptions) (inputs : List (Input E)) (ends : HasEnd inputs)
    (takes : TakeAll inputs) (answered : IsAnswered answer) (answers : AreAnswered inputs) where
  pub run-stops :
      (reason : Reason) × (t : Session) × (run_file_tailer
          (inr watcher)
          os
          matches
          accepts
          w
          answer
          globs
          readall
          fail
          options
          inputs
        ≡ inr (some (stopped reason t)))
  unfolding run_file_tailer
  run-stops =
      let (m, quiet) = new_session-IsQuiet globs options in
      let (reason, t, e) =
        tail_files-Stops m watcher (returns m) os matches accepts takes_all w answer answered inputs
          ends takes answers readall fail (new_session globs options) quiet in
      (reason, t, ap inr e)

module _ (matches : Text → Text → Bool) (accepts : ℕ → Bool)
    (takes_all : (k : ℕ) → accepts k ≡ true) (w : System) (answer : Answer) (globs : List Text)
    (readall fail : Bool) (options : TailerOptions) where
  -- A tailer on Linux that is closed, or whose event loop ends or fails, comes to its deferred
  -- calls: whatever events come before and whatever the system answers, it ends, also where an
  -- error stops it before. The consumer takes every line, and where an error is sent someone
  -- receives from Errors() or calls Close.
  pub run-linux-stops :
      (inputs : List (Input Event))
      → HasEnd inputs
      → TakeAll inputs
      → IsAnswered answer
      → AreAnswered inputs
      → (reason : Reason) × (t : Session) × (run_file_tailer
            (inr (linux_watcher matches))
            linux
            matches
            accepts
            w
            answer
            globs
            readall
            fail
            options
            inputs
          ≡ inr (some (stopped reason t)))
  run-linux-stops inputs ends takes answered answers =
      run-stops (linux_watcher matches)
        (λ m w' accepts' all t e quiet. process_event-Returns matches accepts' all w' m t e quiet)
        linux matches accepts takes_all w answer globs readall fail options inputs ends takes
        answered answers
