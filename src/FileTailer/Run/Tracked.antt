-- ===== src/FileTailer/Run/Tracked.antt =====
-- The handles over the life of a tailer.
use go_libtail.Prelude.{
  ℕ, ◌≡◌, refl, ◌⊎◌, inl, inr, Bool, true, false, Option, none, some, List, [], ◌∷◌,
}
use go_libtail.Errors.{Text, Error}
use go_libtail.FileTailer.Session.{Dir, Session, System, unique_dirs, check_missing_file}
use go_libtail.FileTailer.Os.{Os}
use go_libtail.FileTailer.Handles.Maps.{refs_of}
use go_libtail.FileTailer.Sync.{Outcome, sync_files_in_dir}
use go_libtail.FileTailer.Sync.Tracked.{Tracks}
use go_libtail.FileTailer.Sync.Tracked.Turns.{FindsWatched}
use go_libtail.FileTailer.Sync.Tracked.Listings.{
  ListsOnce, StaysTracked, sync_files_in_dir-StaysTracked,
}
use go_libtail.FileTailer.Run.{
  Answer, received, done_closed, unanswered, send_error, blocked, Fswatcher, Input, done,
  events_closed, errors_closed, event, loop_error, Reason, closed_by_user, loop_closed, failed,
  loop_failed, Status, waiting, stopped, watch_each, watch_dirs, consumer_loop, sync_each,
  after_missing, check_first, after_sync, after_watching, tail_files,
}

-- The goroutine did not stop on an error of its own.
abbrev pub IsOrderly : Reason → Type 0
IsOrderly closed_by_user = Unit
IsOrderly loop_closed = Unit
IsOrderly (loop_failed e answer) = Unit
IsOrderly (failed e answer) = ⊥

-- While events are processed, the system lists directories as it is documented to.
abbrev pub ListOnce : {E : Type 0} → Os → List (Input E) → Type 0
ListOnce os [] = Unit
ListOnce os (event w accepts answer e ∷ inputs) = ListsOnce os w × ListOnce os inputs
ListOnce os (done ∷ inputs) = Unit
ListOnce os (events_closed ∷ inputs) = Unit
ListOnce os (errors_closed ∷ inputs) = Unit
ListOnce os (loop_error answer e ∷ inputs) = Unit

abbrev pub KeepsTracked : {E : Type 0} → Os → Fswatcher E → Type 0
KeepsTracked {E} os watcher =
    (w : System)
    → ListsOnce os w
    → (accepts : ℕ → Bool) (t : Session) (e : E) → Tracks t (refs_of t.watched_files)
    → StaysTracked (watcher.process_event w accepts t e)

-- The handles are accounted for, unless the goroutine stopped on an error of its own.
abbrev pub AreTracked : Option Status → Type 0
AreTracked none = Unit
AreTracked (some (blocked e t)) = Unit
AreTracked (some (waiting t)) = Tracks t (refs_of t.watched_files)
AreTracked (some (stopped reason t)) = IsOrderly reason → Tracks t (refs_of t.watched_files)

failed-AreTracked :
    (answer : Answer) (e : Error) (t : Session)
    → AreTracked (some (send_error answer e (failed e) t))
unfolding send_error
failed-AreTracked received e t = λ o. absurd o
failed-AreTracked done_closed e t = λ o. absurd o
failed-AreTracked unanswered e t = tt

loop_failed-AreTracked :
    (answer : Answer) (e : Error) (t : Session)
    → Tracks t (refs_of t.watched_files)
    → AreTracked (some (send_error answer e (loop_failed e) t))
unfolding send_error
loop_failed-AreTracked received e t h = λ o. h
loop_failed-AreTracked done_closed e t h = λ o. h
loop_failed-AreTracked unanswered e t h = tt

module _ {E : Type 0} (os : Os) (watcher : Fswatcher E) (keeps : KeepsTracked os watcher) where
  consumer_loop-AreTracked :
      (inputs : List (Input E)) (t : Session)
      → ListOnce os inputs
      → Tracks t (refs_of t.watched_files)
      → AreTracked (consumer_loop watcher inputs t)
  unfolding consumer_loop
  consumer_loop-AreTracked [] t lists h = h
  consumer_loop-AreTracked (done ∷ inputs) t lists h = λ o. h
  consumer_loop-AreTracked (events_closed ∷ inputs) t lists h = λ o. h
  consumer_loop-AreTracked (errors_closed ∷ inputs) t lists h = λ o. h
  consumer_loop-AreTracked (loop_error answer e ∷ inputs) t lists h =
      loop_failed-AreTracked answer _ t h
  consumer_loop-AreTracked (event w accepts answer e ∷ inputs) t lists h =
      by_outcome (watcher.process_event w accepts t e) refl (keeps w lists.0 accepts t e h)
        (λ t' k. consumer_loop-AreTracked inputs t' lists.1 k)
    where
      by_outcome :
          (o : Outcome)
          → watcher.process_event w accepts t e ≡ o
          → StaysTracked o
          → ((t' : Session)
              → Tracks t' (refs_of t'.watched_files)
              → AreTracked (consumer_loop watcher inputs t'))
          → AreTracked (consumer_loop watcher (event w accepts answer e ∷ inputs) t)
      by_outcome none q k later = rw (q, consumer_loop) tt
      by_outcome (some (some x, t')) q k later =
          rw (q, consumer_loop) (failed-AreTracked answer x t')
      by_outcome (some (none, t')) q k later = rw (q, consumer_loop) (later t' k)

  module _ (matches : Text → Text → Bool) (accepts : ℕ → Bool) (w : System) (answer : Answer)
      (finds : FindsWatched os w) (lists : ListsOnce os w) where
    sync_each-StaysTracked :
        (readall : Bool) (dirs : List Dir) (t : Session)
        → Tracks t (refs_of t.watched_files)
        → StaysTracked (sync_each watcher os matches accepts w answer readall t dirs)
    unfolding sync_each
    sync_each-StaysTracked readall [] t h = h
    sync_each-StaysTracked readall (d ∷ dirs) t h =
        by_outcome (sync_files_in_dir os matches accepts w t d.path readall) refl
          (sync_files_in_dir-StaysTracked os matches accepts w finds lists d.path readall t h)
          (λ t' k. sync_each-StaysTracked readall dirs t' k)
      where
        by_outcome :
            (o : Outcome)
            → sync_files_in_dir os matches accepts w t d.path readall ≡ o
            → StaysTracked o
            → ((t' : Session)
                → Tracks t' (refs_of t'.watched_files)
                → StaysTracked (sync_each watcher os matches accepts w answer readall t' dirs))
            → StaysTracked (sync_each watcher os matches accepts w answer readall t (d ∷ dirs))
        by_outcome none q k later = rw (q, sync_each) tt
        by_outcome (some (some x, t')) q k later = rw (q, sync_each) tt
        by_outcome (some (none, t')) q k later = rw (q, sync_each) (later t' k)

    after_missing-AreTracked :
        (o : Option Error) (inputs : List (Input E)) (t : Session)
        → ListOnce os inputs
        → Tracks t (refs_of t.watched_files)
        → AreTracked (after_missing watcher os matches accepts w answer o inputs t)
    unfolding after_missing
    after_missing-AreTracked none inputs t l h = consumer_loop-AreTracked inputs t l h
    after_missing-AreTracked (some e) inputs t l h = failed-AreTracked answer e t

    check_first-AreTracked :
        (fail : Bool) (inputs : List (Input E)) (t : Session)
        → ListOnce os inputs
        → Tracks t (refs_of t.watched_files)
        → AreTracked (check_first watcher os matches accepts w answer fail inputs t)
    unfolding check_first
    check_first-AreTracked true inputs t l h =
        after_missing-AreTracked (check_missing_file matches t) inputs t l h
    check_first-AreTracked false inputs t l h = after_missing-AreTracked none inputs t l h

    after_sync-AreTracked :
        (fail : Bool) (inputs : List (Input E)) (o : Outcome)
        → ListOnce os inputs
        → StaysTracked o
        → AreTracked (after_sync watcher os matches accepts w answer fail inputs o)
    unfolding after_sync
    after_sync-AreTracked fail inputs none l h = tt
    after_sync-AreTracked fail inputs (some (some e, t)) l h = failed-AreTracked answer e t
    after_sync-AreTracked fail inputs (some (none, t)) l h =
        check_first-AreTracked fail inputs t l h

    watch_each-Tracks :
        (paths : List Text) (t : Session)
        → Tracks t (refs_of t.watched_files)
        → let u = (watch_each watcher w t paths).1 in Tracks u (refs_of u.watched_files)
    unfolding watch_each
    watch_each-Tracks [] t h = h
    watch_each-Tracks (path ∷ paths) t h =
        by_answer (watcher.watch_dir w path) refl (λ t' k. watch_each-Tracks paths t' k)
      where
        by_answer :
            (o : Error ⊎ Dir)
            → watcher.watch_dir w path ≡ o
            → ((t' : Session)
                → Tracks t' (refs_of t'.watched_files)
                → let u = (watch_each watcher w t' paths).1 in Tracks u (refs_of u.watched_files))
            → let u = (watch_each watcher w t (path ∷ paths)).1 in
              Tracks u (refs_of u.watched_files)
        by_answer (inl e) q later = rw (q, watch_each) h
        by_answer (inr d) q later = rw (q, watch_each) (later _ h)

    watch_dirs-Tracks :
        (t : Session)
        → Tracks t (refs_of t.watched_files)
        → let u = (watch_dirs watcher w t).1 in Tracks u (refs_of u.watched_files)
    unfolding watch_dirs
    watch_dirs-Tracks t h = by_answer (unique_dirs w t.globs) refl
      where
        by_answer :
            (o : Error ⊎ List Text)
            → unique_dirs w t.globs ≡ o
            → let u = (watch_dirs watcher w t).1 in Tracks u (refs_of u.watched_files)
        by_answer (inl e) q = rw (q, watch_dirs) h
        by_answer (inr paths) q = rw (q, watch_dirs) (watch_each-Tracks paths t h)

    after_watching-AreTracked :
        (readall fail : Bool) (inputs : List (Input E)) (o : Option Error × Session)
        → ListOnce os inputs
        → Tracks o.1 (refs_of o.1.watched_files)
        → AreTracked (after_watching watcher os matches accepts w answer readall fail inputs o)
    unfolding after_watching
    after_watching-AreTracked readall fail inputs (some e, t) l h = failed-AreTracked answer e t
    after_watching-AreTracked readall fail inputs (none, t) l h =
        after_sync-AreTracked fail inputs _ l (sync_each-StaysTracked readall t.watched_dirs t h)

    pub tail_files-AreTracked :
        (readall fail : Bool) (inputs : List (Input E)) (t : Session)
        → ListOnce os inputs
        → Tracks t (refs_of t.watched_files)
        → AreTracked (tail_files watcher os matches accepts w answer readall fail inputs t)
    unfolding tail_files
    tail_files-AreTracked readall fail inputs t l h =
        after_watching-AreTracked readall fail inputs (watch_dirs watcher w t) l
          (watch_dirs-Tracks t h)
