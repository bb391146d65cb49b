-- ===== src/FileTailer/Darwin/Runs.antt =====
-- A tailer on macOS from its start to its shutdown.
use go_libtail.Prelude.{ℕ, ◌<◌, ◌≡◌, inr, Bool, true, some, List}
use go_libtail.Prelude.In.{In}
use go_libtail.Errors.{Text}
use go_libtail.FileTailer.{TailerOptions}
use go_libtail.FileTailer.Session.{Session, System}
use go_libtail.FileTailer.Sync.Tracked.Listings.{ListsOnce, find_same_file-FindsWatched}
use go_libtail.FileTailer.Run.{Answer, Input, Reason, stopped, shutdown, run_file_tailer}
use go_libtail.FileTailer.Run.Tracked.{IsOrderly, ListOnce}
use go_libtail.FileTailer.Run.Closes.{closes_all}
use go_libtail.FileTailer.Run.Ends.{HasEnd, TakeAll, IsAnswered, AreAnswered}
use go_libtail.FileTailer.Run.Stops.{run-stops}
use go_libtail.FileTailer.Darwin.{Kevent, darwin, darwin_watcher}
use go_libtail.FileTailer.Darwin.Tracked.{process_kevent-StaysTracked}
use go_libtail.FileTailer.Darwin.Ends.{process_kevent-Returns}

module _ (fd : ℕ → ℕ) (matches : Text → Text → Bool) (accepts : ℕ → Bool) (w : System)
    (answer : Answer) (globs : List Text) (readall fail : Bool) (options : TailerOptions)
    (inputs : List (Input Kevent)) where
  -- A tailer on macOS that stops because it is closed, or because its event loop ends or fails, has
  -- closed every handle of a file that it ever opened when shutdown returns, whatever kevents it
  -- processed. The system lists each directory's entries once, under that directory.
  pub run-darwin-closes_all :
      ListsOnce darwin w
      → ListOnce darwin inputs
      → (reason : Reason) (t : Session)
      → run_file_tailer
          (inr (darwin_watcher fd matches))
          darwin
          matches
          accepts
          w
          answer
          globs
          readall
          fail
          options
          inputs
        ≡ inr (some (stopped reason t))
      → IsOrderly reason
      → (id : ℕ) → id < t.next_id
      → In id (shutdown t).closed
  run-darwin-closes_all lists later =
      closes_all darwin (darwin_watcher fd matches)
        (λ w' lists' accepts' t k h.
          process_kevent-StaysTracked fd matches accepts' w' lists' t k h)
        matches accepts w answer (find_same_file-FindsWatched w) lists globs readall fail options
        inputs later

  -- A tailer on macOS that is closed, or whose event loop ends or fails, comes to its deferred
  -- calls: whatever kevents come before and whatever the system answers, it ends, also where an
  -- error stops it before. The consumer takes every line, and where an error is sent someone
  -- receives from Errors() or calls Close.
  pub run-darwin-stops :
      ((k : ℕ) → accepts k ≡ true)
      → HasEnd inputs
      → TakeAll inputs
      → IsAnswered answer
      → AreAnswered inputs
      → (reason : Reason) × (t : Session) × (run_file_tailer
            (inr (darwin_watcher fd matches))
            darwin
            matches
            accepts
            w
            answer
            globs
            readall
            fail
            options
            inputs
          ≡ inr (some (stopped reason t)))
  run-darwin-stops takes_all ends takes answered answers =
      run-stops (darwin_watcher fd matches)
        (λ m w' accepts' all t k quiet.
          process_kevent-Returns fd matches accepts' all w' m t k quiet)
        darwin matches accepts takes_all w answer globs readall fail options inputs ends takes
        answered answers
