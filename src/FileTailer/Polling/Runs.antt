-- ===== src/FileTailer/Polling/Runs.antt =====
-- A tailer that polls, from its start to its shutdown.
use go_libtail.Prelude.{ℕ, ◌<◌, ◌≡◌, inr, Bool, true, some, List}
use go_libtail.Prelude.In.{In}
use go_libtail.Errors.{Text}
use go_libtail.FileTailer.{TailerOptions}
use go_libtail.FileTailer.Session.{Session, System}
use go_libtail.FileTailer.Sync.Tracked.Listings.{ListsOnce}
use go_libtail.FileTailer.Run.{Answer, Input, Reason, stopped, shutdown, run_file_tailer}
use go_libtail.FileTailer.Run.Tracked.{IsOrderly, ListOnce}
use go_libtail.FileTailer.Run.Closes.{closes_all}
use go_libtail.FileTailer.Run.Ends.{HasEnd, TakeAll, IsAnswered, AreAnswered}
use go_libtail.FileTailer.Run.Stops.{run-stops}
use go_libtail.FileTailer.Polling.{Platform, os_of, polling_watcher}
use go_libtail.FileTailer.Polling.Ends.{poll-Returns}
use go_libtail.FileTailer.Polling.Tracked.{platform-FindsWatched, poll-StaysTracked}

module _ (p : Platform) (matches : Text → Text → Bool) (accepts : ℕ → Bool) (w : System)
    (answer : Answer) (globs : List Text) (readall fail : Bool) (options : TailerOptions) where
  -- A tailer that polls, on Linux, macOS or Windows, and that stops because it is closed or because
  -- its event loop ends or fails, has called Close of every file that syncFilesInDir ever had from
  -- open or NewFile when shutdown returns, after any number of polls. Not counted are directories,
  -- and on Windows, where an open file has no handle of the system between two calls, the handles
  -- within a call. The system lists each directory's entries once, under that directory.
  pub run-polling-closes_all :
      (inputs : List (Input (Unit {0})))
      → ListsOnce (os_of p) w
      → ListOnce (os_of p) inputs
      → (reason : Reason) (t : Session)
      → run_file_tailer
          (inr (polling_watcher p matches))
          (os_of p)
          matches
          accepts
          w
          answer
          globs
          readall
          fail
          options
          inputs
        ≡ inr (some (stopped reason t))
      → IsOrderly reason
      → (id : ℕ) → id < t.next_id
      → In id (shutdown t).closed
  run-polling-closes_all inputs lists later =
      closes_all (os_of p) (polling_watcher p matches)
        (λ w' lists' accepts' t e h.
          poll-StaysTracked (os_of p) matches accepts' w' (platform-FindsWatched p w') lists' t h)
        matches accepts w answer (platform-FindsWatched p w) lists globs readall fail options inputs
        later

  -- A tailer that polls, on Linux, macOS or Windows, ends when it is closed, or its event loop ends,
  -- after any number of polls and whatever the system answers, also where an error stops it before.
  -- The consumer takes every line, and where an error is sent someone receives from Errors() or calls
  -- Close.
  pub run-polling-stops :
      (inputs : List (Input (Unit {0})))
      → ((k : ℕ) → accepts k ≡ true)
      → HasEnd inputs
      → TakeAll inputs
      → IsAnswered answer
      → AreAnswered inputs
      → (reason : Reason) × (t : Session) × (run_file_tailer
            (inr (polling_watcher p matches))
            (os_of p)
            matches
            accepts
            w
            answer
            globs
            readall
            fail
            options
            inputs
          ≡ inr (some (stopped reason t)))
  run-polling-stops inputs takes_all ends takes answered answers =
      run-stops (polling_watcher p matches)
        (λ m w' accepts' all t e quiet. poll-Returns (os_of p) matches accepts' all w' m t quiet)
        (os_of p) matches accepts takes_all w answer globs readall fail options inputs ends takes
        answered answers
