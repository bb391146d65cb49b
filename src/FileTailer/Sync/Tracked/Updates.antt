-- ===== src/FileTailer/Sync/Tracked/Updates.antt =====
-- The handles where a watched file is read.
use go_libtail.Prelude.{ℕ, ◌≡◌, sym, subst, Bool, none, some, List, get_elem?, ◌∙◌}
use go_libtail.FileTailer.Session.{Watched, Session, System}
use go_libtail.FileTailer.Os.{Os}
use go_libtail.FileTailer.Handles.{IsTracked}
use go_libtail.FileTailer.Handles.Maps.{heap_ids, refs_of, heap_ids-set, set_same}
use go_libtail.FileTailer.Sync.{unless_error}
use go_libtail.FileTailer.Sync.{Outcome, Files, update, read_watched}
use go_libtail.FileTailer.Sync.Tracked.{Tracks, KeepsTrack, read_watched-KeepsTrack}
use go_libtail.FileTailer.Sync.Tracked.Listings.{StaysTracked}

pub update-Tracks :
    (t : Session) (refs : List ℕ) (ref : ℕ) (watched : Watched)
    → get_elem? (heap_ids t.heap) ref ≡ some watched.handle.id
    → Tracks t refs
    → Tracks (update t ref watched) refs
unfolding update
update-Tracks t refs ref watched at h =
    subst (λ ids. IsTracked ids t.next_id t.closed refs)
      (sym (heap_ids-set t.heap ref watched ∙ set_same (heap_ids t.heap) ref _ at)) h

pub update-at :
    (t : Session) (ref : ℕ) (watched : Watched)
    → get_elem? (heap_ids t.heap) ref ≡ some watched.handle.id
    → get_elem? (heap_ids (update t ref watched).heap) ref ≡ some watched.handle.id
unfolding update
update-at t ref watched at =
    subst (λ ids. get_elem? ids ref ≡ some watched.handle.id)
      (sym (heap_ids-set t.heap ref watched ∙ set_same (heap_ids t.heap) ref _ at)) at

-- From the pointers of the map before to those of the map after.
pub same_map-StaysTracked :
    (files : Files) (o : Outcome) → KeepsTrack files (refs_of files) o → StaysTracked o
same_map-StaysTracked files none h = tt
same_map-StaysTracked files (some (some e, t)) h = tt
same_map-StaysTracked files (some (none, t)) h = subst (λ l. Tracks t (refs_of l)) (sym h.1) h.0

pub unless_error-StaysTracked :
    (o : Outcome) (next : Session → Outcome)
    → StaysTracked o
    → ((t : Session) → Tracks t (refs_of t.watched_files) → StaysTracked (next t))
    → StaysTracked (unless_error o next)
unless_error-StaysTracked none next h later = tt
unless_error-StaysTracked (some (some e, t)) next h later = tt
unless_error-StaysTracked (some (none, t)) next h later = later t h

pub read-StaysTracked :
    (os : Os) (accepts : ℕ → Bool) (w : System) (t : Session) (ref : ℕ) (watched : Watched)
    → get_elem? (heap_ids t.heap) ref ≡ some watched.handle.id
    → Tracks t (refs_of t.watched_files)
    → StaysTracked (read_watched os accepts w t ref watched)
read-StaysTracked os accepts w t ref watched at h =
    same_map-StaysTracked t.watched_files _
      (read_watched-KeepsTrack os accepts w t (refs_of t.watched_files) ref watched h at)
