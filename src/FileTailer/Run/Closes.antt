-- ===== src/FileTailer/Run/Closes.antt =====
-- What is open while a tailer runs, and that its shutdown closes all of it.
use go_libtail.Prelude.{
  ℕ, ◌<◌, ◌≡◌, refl, sym, subst, ◌⊎◌, inl, inr, Bool, Option, none, some, List, [], ◌∷◌, get_elem?,
  ap, arith,
}
use go_libtail.Prelude.In.{In, In-append_left, In-append_right}
use go_libtail.Errors.{Text, Error}
use go_libtail.FileTailer.{TailerOptions}
use go_libtail.FileTailer.Session.{Watched, Session, System}
use go_libtail.FileTailer.Os.{Os, linux}
use go_libtail.FileTailer.Handles.Maps.{heap_ids, refs_of, heap_ids-get}
use go_libtail.FileTailer.Sync.{Files}
use go_libtail.FileTailer.Sync.Tracked.{Tracks}
use go_libtail.FileTailer.Sync.Tracked.Turns.{FindsWatched}
use go_libtail.FileTailer.Sync.Tracked.Listings.{ListsOnce, find_same_file-FindsWatched}
use go_libtail.FileTailer.Linux.{Event}
use go_libtail.FileTailer.Linux.Tracked.{process_event-StaysTracked}
use go_libtail.FileTailer.Run.Watchers.{linux_watcher}
use go_libtail.FileTailer.Run.Tracked.{
  IsOrderly, ListOnce, KeepsTracked, AreTracked, tail_files-AreTracked,
}
use go_libtail.FileTailer.Run.{
  Answer, Fswatcher, Input, Reason, Status, waiting, stopped, new_session, ids_watched, shutdown,
  run_file_tailer,
}

new_session-Tracks :
    (globs : List Text) (options : TailerOptions)
    → Tracks (new_session globs options) (refs_of (new_session globs options).watched_files)
unfolding new_session
new_session-Tracks globs options = record {
  fresh = λ i id e. absurd (cc);
  distinct = λ i j id e f. absurd (cc);
  past = λ id m. absurd m;
  is_open = λ i id m e c. m;
  accounted = λ id lt. absurd (omega arith);
}

In-ids_watched :
    (heap : List Watched) (files : Files) (i id : ℕ)
    → In i (refs_of files)
    → get_elem? (heap_ids heap) i ≡ some id
    → In id (ids_watched heap files)
unfolding ids_watched
In-ids_watched heap [] i id m e = elim m [ ]
In-ids_watched heap ((p, ref) ∷ files) i id m e =
    by_place (get_elem? heap ref) refl m (λ k. In-ids_watched heap files i id k e)
  where
    by_place :
        (o : Option Watched)
        → get_elem? heap ref ≡ o
        → (i ≡ ref) ⊎ In i (refs_of files)
        → (In i (refs_of files) → In id (ids_watched heap files))
        → In id (ids_watched heap ((p, ref) ∷ files))
    by_place none at (inr k) later = rw (at, ids_watched) (later k)
    by_place (some watched) at (inr k) later = rw (at, ids_watched) (inr (later k))
    by_place o at (inl same) later =
        let (watched, found, is) = heap_ids-get heap i id e in
        let here : get_elem? heap ref ≡ some watched = rw (← same) found in
        rw (here, ids_watched) (inl (sym is))

shutdown-closes_all :
    (t : Session)
    → Tracks t (refs_of t.watched_files)
    → (id : ℕ) → id < t.next_id
    → In id (shutdown t).closed
unfolding shutdown
shutdown-closes_all t h id lt = elim (h.accounted id lt) [
  | inl c ↦ In-append_left id t.closed _ c
  | inr (i, m, e) ↦ In-append_right id t.closed _ (In-ids_watched t.heap t.watched_files i id m e)
]

abbrev status_of : Error ⊎ Option Status → Option Status
status_of (inl e) = none
status_of (inr o) = o

module _ {E : Type 0} (os : Os) (watcher : Fswatcher E) (keeps : KeepsTracked os watcher)
    (matches : Text → Text → Bool) (accepts : ℕ → Bool) (w : System) (answer : Answer)
    (finds : FindsWatched os w) (lists : ListsOnce os w) (globs : List Text) (readall fail : Bool)
    (options : TailerOptions) (inputs : List (Input E)) (later : ListOnce os inputs) where
  run-AreTracked :
      (s : Status)
      → run_file_tailer (inr watcher) os matches accepts w answer globs readall fail options inputs
        ≡ inr (some s)
      → AreTracked (some s)
  unfolding run_file_tailer
  run-AreTracked s runs = subst AreTracked (ap status_of runs) (
      tail_files-AreTracked os watcher keeps matches accepts w answer finds lists readall fail
        inputs (new_session globs options) later (new_session-Tracks globs options))

  pub closes_all :
      (reason : Reason) (t : Session)
      → run_file_tailer (inr watcher) os matches accepts w answer globs readall fail options inputs
        ≡ inr (some (stopped reason t))
      → IsOrderly reason
      → (id : ℕ) → id < t.next_id
      → In id (shutdown t).closed
  closes_all reason t runs orderly =
      shutdown-closes_all t (run-AreTracked (stopped reason t) runs orderly)

module _ (matches : Text → Text → Bool) (accepts : ℕ → Bool) (w : System) (answer : Answer)
    (lists : ListsOnce linux w) (globs : List Text) (readall fail : Bool)
    (options : TailerOptions) where
  -- A tailer on Linux that stops because it is closed, or because its event loop ends or fails, has
  -- closed every handle that it ever opened when shutdown returns, whatever events it processed.
  -- The system lists each directory's entries once, under that directory.
  pub run-linux-closes_all :
      (inputs : List (Input Event))
      → ListOnce linux inputs
      → (reason : Reason) (t : Session)
      → run_file_tailer
          (inr (linux_watcher matches))
          linux
          matches
          accepts
          w
          answer
          globs
          readall
          fail
          options
          inputs
        ≡ inr (some (stopped reason t))
      → IsOrderly reason
      → (id : ℕ) → id < t.next_id
      → In id (shutdown t).closed
  run-linux-closes_all inputs later =
      closes_all linux (linux_watcher matches)
        (λ w' lists' accepts' t e h. process_event-StaysTracked matches accepts' w' lists' t e h)
        matches accepts w answer (find_same_file-FindsWatched w) lists globs readall fail options
        inputs later

  -- While a tailer on Linux waits for the next event, none of the files that it watches has a
  -- handle that was closed, whatever events it processed. The system lists each directory's entries
  -- once, under that directory.
  pub run-linux-keeps_open :
      (inputs : List (Input Event))
      → ListOnce linux inputs
      → (t : Session)
      → run_file_tailer
          (inr (linux_watcher matches))
          linux
          matches
          accepts
          w
          answer
          globs
          readall
          fail
          options
          inputs
        ≡ inr (some (waiting t))
      → (i id : ℕ) → In i (refs_of t.watched_files)
      → get_elem? (heap_ids t.heap) i ≡ some id
      → ¬ In id t.closed
  run-linux-keeps_open inputs later t runs i id m at =
      (run-AreTracked linux (linux_watcher matches)
          (λ w' lists' accepts' u e h. process_event-StaysTracked matches accepts' w' lists' u e h)
          matches accepts w answer (find_same_file-FindsWatched w) lists globs readall fail options
          inputs later (waiting t) runs).is_open
        i id m at
