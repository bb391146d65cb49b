-- ===== src/FileTailer/Total/Syncs.antt =====
-- The calls that look at directories.
use go_libtail.Prelude.{
  ℕ, suc, ◌≡◌, refl, ◌⊎◌, inl, inr, Bool, true, false, Bool-cases, Option, none, some, Option-cases,
  List, [], ◌∷◌, get_elem?, length,
}
use go_libtail.Errors.{
  Text, Error, ErrorType, not_specified, directory_not_found, file_not_found, win_file_removed,
}
use go_libtail.FileTailer.Session.{Session, FileInfo, System, text_eq, any_glob_matches}
use go_libtail.FileTailer.Os.{Os}
use go_libtail.FileTailer.Sync.{
  Outcome, Files, of_other_dirs, after_read, open_new, watched_already, sync_matched, sync_entry,
  sync_entries, skip_missing, new_handle, finish_sync, sync_files_in_dir,
}
use go_libtail.FileTailer.Total.Reads.{
  IsQuiet, Returns, AreIdle-get, follow_moved-Returns, seek_end-Returns,
}

-- The turn of the loop came to its end.
abbrev TurnEnds : ℕ → Option ((Error ⊎ Files) × Session) → Type 0
TurnEnds m out = (r : Error ⊎ Files) × (t : Session) × (out ≡ some (r, t)) × IsQuiet m t

after_read-TurnEnds :
    (m : ℕ) (after : Files) (path : Text) (ref : ℕ) (o : Outcome)
    → Returns m o
    → TurnEnds m (after_read after path ref o)
unfolding after_read
after_read-TurnEnds m after path ref o (none, t, e, q) = rw e (_, t, refl, q)
after_read-TurnEnds m after path ref o (some x, t, e, q) = rw e (_, t, refl, q)

finish_sync-Returns :
    (m : ℕ) (o : Option ((Error ⊎ Files) × Session)) → TurnEnds m o → Returns m (finish_sync o)
unfolding finish_sync
finish_sync-Returns m o (inl x, t, e, q) = rw e (_, t, refl, q)
finish_sync-Returns m o (inr files, t, e, q) =
    rw e (_, _, refl, record { limit = q.limit; readers = q.readers })

skip_missing-TurnEnds :
    (m : ℕ) (t : Session) (after : Files) (e : Error) (k : ErrorType)
    → IsQuiet m t
    → TurnEnds m (skip_missing t after e k)
unfolding skip_missing
skip_missing-TurnEnds m t after e file_not_found quiet = (_, t, refl, quiet)
skip_missing-TurnEnds m t after e not_specified quiet = (_, t, refl, quiet)
skip_missing-TurnEnds m t after e directory_not_found quiet = (_, t, refl, quiet)
skip_missing-TurnEnds m t after e win_file_removed quiet = (_, t, refl, quiet)

module _ (os : Os) (accepts : ℕ → Bool) (takes_all : (k : ℕ) → accepts k ≡ true) (w : System)
    (m : ℕ) where
  open_new-TurnEnds :
      (readall : Bool) (t : Session) (after : Files) (path : Text)
      → IsQuiet m t
      → TurnEnds m (open_new os accepts w readall t after path)
  unfolding open_new
  open_new-TurnEnds readall t after path quiet = by_answer (os.open_file w path) refl
    where
      by_answer :
          (o : Error ⊎ ℕ)
          → os.open_file w path ≡ o
          → TurnEnds m (open_new os accepts w readall t after path)
      by_answer (inl x) e = rw (e, open_new) (skip_missing-TurnEnds m t after x x.error_type quiet)
      by_answer (inr file) e =
          rw (e, open_new)
            (after_read-TurnEnds m after path (length t.heap) _ (
              seek_end-Returns os accepts takes_all w m readall t path file (length t.heap)
                (os.seek_error w (new_handle t path file)) quiet))

  watched_already-TurnEnds :
      (t : Session) (after : Files) (path : Text) (ref : ℕ)
      → IsQuiet m t
      → TurnEnds m (watched_already os accepts w t after path ref)
  unfolding watched_already
  watched_already-TurnEnds t after path ref quiet = elim (Option-cases (get_elem? t.heap ref)) [
    | inl e ↦ rw (e, watched_already) (_, t, refl, quiet)
    | inr (watched, e) ↦ elim (Bool-cases (text_eq watched.handle.name path)) [
      | inl same ↦ rw (e, watched_already) (rw same (_, t, refl, quiet))
      | inr other ↦
          rw (e, watched_already)
            (rw other (
              after_read-TurnEnds m after path ref _ (
                follow_moved-Returns os accepts takes_all w m t ref watched path quiet
                  (AreIdle-get (suc m) t.heap ref watched quiet.readers e))))
    ]
  ]

module _ (os : Os) (matches : Text → Text → Bool) (accepts : ℕ → Bool)
    (takes_all : (k : ℕ) → accepts k ≡ true) (w : System) (m : ℕ) where
  sync_matched-TurnEnds :
      (is_dir readall : Bool) (t : Session) (after : Files) (path : Text) (info : FileInfo)
      → IsQuiet m t
      → TurnEnds m (sync_matched os matches accepts w is_dir readall t after path info)
  unfolding sync_matched
  sync_matched-TurnEnds true readall t after path info quiet = (_, t, refl, quiet)
  sync_matched-TurnEnds false readall t after path info quiet =
      by_found (os.same_file w t.heap t.watched_files info path) refl
    where
      by_found :
          (o : Error ⊎ Option ℕ)
          → os.same_file w t.heap t.watched_files info path ≡ o
          → TurnEnds m (sync_matched os matches accepts w false readall t after path info)
      by_found (inl x) e = rw (e, sync_matched) (_, t, refl, quiet)
      by_found (inr (some ref)) e =
          rw (e, sync_matched)
            (watched_already-TurnEnds os accepts takes_all w m t after path ref quiet)
      by_found (inr none) e =
          rw (e, sync_matched)
            (open_new-TurnEnds os accepts takes_all w m readall t after path quiet)

  sync_entry-TurnEnds :
      (d : Text) (readall : Bool) (t : Session) (after : Files) (info : FileInfo)
      → IsQuiet m t
      → TurnEnds m (sync_entry os matches accepts w d readall t after info)
  unfolding sync_entry
  sync_entry-TurnEnds d readall t after info quiet =
      elim (Bool-cases (any_glob_matches matches t.globs (os.join d info.name))) [
        | inr other ↦ rw (other, sync_entry) (_, t, refl, quiet)
        | inl hit ↦
            rw (hit, sync_entry)
              (sync_matched-TurnEnds info.is_dir readall t after (os.join d info.name) info quiet)
      ]

  sync_entries-TurnEnds :
      (d : Text) (readall : Bool) (infos : List FileInfo) (t : Session) (after : Files)
      → IsQuiet m t
      → TurnEnds m (sync_entries os matches accepts w d readall t after infos)
  unfolding sync_entries
  sync_entries-TurnEnds d readall [] t after quiet = (_, t, refl, quiet)
  sync_entries-TurnEnds d readall (info ∷ infos) t after quiet =
      by_entry (sync_entry-TurnEnds d readall t after info quiet)
        (λ t' files q. sync_entries-TurnEnds d readall infos t' files q)
    where
      by_entry :
          TurnEnds m (sync_entry os matches accepts w d readall t after info)
          → ((t' : Session) (files : Files)
              → IsQuiet m t'
              → TurnEnds m (sync_entries os matches accepts w d readall t' files infos))
          → TurnEnds m (sync_entries os matches accepts w d readall t after (info ∷ infos))
      by_entry (inl x, t', e, q) later = rw (e, sync_entries) (_, t', refl, q)
      by_entry (inr files, t', e, q) later = rw (e, sync_entries) (later t' files q)

  pub sync_files_in_dir-Returns :
      (t : Session) (d : Text) (readall : Bool)
      → IsQuiet m t
      → Returns m (sync_files_in_dir os matches accepts w t d readall)
  unfolding sync_files_in_dir
  sync_files_in_dir-Returns t d readall quiet = by_listing (os.ls w d) refl
    where
      by_listing :
          (o : Error ⊎ List FileInfo)
          → os.ls w d ≡ o
          → Returns m (sync_files_in_dir os matches accepts w t d readall)
      by_listing (inl x) e = rw (e, sync_files_in_dir) (_, t, refl, quiet)
      by_listing (inr infos) e =
          rw (e, sync_files_in_dir)
            (finish_sync-Returns m _
              (sync_entries-TurnEnds d readall infos t (of_other_dirs os d t.watched_files) quiet))
