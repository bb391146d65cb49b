-- ===== src/FileTailer/Sync.antt =====
-- fswatcher.go, syncFilesInDir: the watched files of a directory are brought in line with what it
-- lists. What the files of one operating system do in it is the parameter `os`.
pub mod Turns
pub mod Files
pub mod Covers
pub mod Tracked
use go_libtail.Prelude.{
  ℕ, suc, ◌+◌, ◌-◌, ◌⊎◌, inl, inr, Bool, true, false, Option, none, some, List, [], ◌∷◌, ◌++◌,
  length, drop, get_elem?, set, ◌==◌, if◌then◌else◌,
}
use go_libtail.Bufio.{File}
use go_libtail.FileTailer.Os.{Os}
use go_libtail.Errors.{
  Text, text, Error, ErrorType, new_error, not_specified, directory_not_found, file_not_found,
  win_file_removed,
}
use go_libtail.LineReader.{LineReader, new_line_reader_with_max_line_bytes}
use go_libtail.Prelude.Int.{pos}
use go_libtail.FileTailer.ReadNewLines.{read_new_lines}
use go_libtail.FileTailer.Session.{
  listed, open_dir_failed, read_dir_failed, quoted, Handle, Watched, Session, FileInfo, opened,
  not_there, open_failed, System, text_eq, contains, any_glob_matches,
}

-- Where the handle stands afterwards.
unfoldable pub handle_after : Handle → File → File → Handle
handle_after h before after = record h {
  offset = h.offset + (length before.unread - length after.unread);
}

-- Enough for all the bytes that the reader and the file hold.
unfoldable pub fuel_for : LineReader → File → ℕ
fuel_for r f = r.pos + (length r.overflow + (length f.unread + 2))

unfoldable pub update : Session → ℕ → Watched → Session
update t ref watched = record t { heap = set t.heap ref watched }

-- The entries that are not of this directory.
unfoldable pub of_other_dirs : Os → Text → List (Text × ℕ) → List (Text × ℕ)
of_other_dirs os d [] = []
of_other_dirs os d ((path, file) ∷ files) =
    let rest = of_other_dirs os d files in
    if text_eq (os.dir path) d then rest else (path, file) ∷ rest

-- files[path] = file
unfoldable pub put_file : List (Text × ℕ) → Text → ℕ → List (Text × ℕ)
put_file [] path file = (path, file) ∷ []
put_file ((p, f) ∷ files) path file =
    let rest = put_file files path file in
    if text_eq p path then (path, file) ∷ files else (p, f) ∷ rest

-- How a call ends: with an error or nil, and the state; `none`: out of fuel.
abbrev pub Outcome : Type 0
Outcome = Option (Option Error × Session)

-- What follows a call that may return an error.
abbrev pub unless_error : Outcome → (Session → Outcome) → Outcome
unless_error none next = none
unless_error (some (some e, t)) next = some (some e, t)
unless_error (some (none, t)) next = next t

-- The files watched so far.
abbrev pub Files : Type 0
Files = List (Text × ℕ)

abbrev pub close_handle : Session → ℕ → Session
close_handle t id = record t { closed = t.closed ++ id ∷ [] }

-- NewFile: the same open file under another name.
abbrev pub renamed : Session → Watched → Text → Watched
renamed t watched path = record watched {
  handle = record watched.handle { id = t.next_id; name = path };
}

-- What open returns.
abbrev pub new_handle : Session → Text → ℕ → Handle
new_handle t path file = record { id = t.next_id; name = path; file = file; offset = 0 }

-- The next handle has another number.
abbrev pub unused : Session → Session
unused t = record t { next_id = suc t.next_id }

-- How a turn of the loop ends, from a call that may return an error.
unfoldable pub after_read : Files → Text → ℕ → Outcome → Option ((Error ⊎ Files) × Session)
after_read after path ref none = none
after_read after path ref (some (some e, t)) = some (inl e, t)
after_read after path ref (some (none, t)) = some (inr (put_file after path ref), t)

-- What follows watchFile: after an error the new handle is closed.
unfoldable pub if_watched : Option Error → Session → ℕ → Outcome → Outcome
if_watched (some e) t id next = some (some e, close_handle t id)
if_watched none t id next = next

-- The file could not be opened: one that is not there any more is passed over.
unfoldable pub skip_missing :
    Session → Files → Error → ErrorType → Option ((Error ⊎ Files) × Session)
skip_missing t after e file_not_found = some (inr after, t)
skip_missing t after e not_specified = some (inl e, t)
skip_missing t after e directory_not_found = some (inl e, t)
skip_missing t after e win_file_removed = some (inl e, t)

module _ (os : Os) (accepts : ℕ → Bool) (w : System) where
  -- t.readNewLines(file, log)
  unfoldable pub read_watched : Session → ℕ → Watched → Outcome
  unfolding update
  read_watched t ref watched =
      let f = os.file_of w watched.handle in
      elim (read_new_lines watched.handle.name (os.read_error w watched.handle) accepts
        (fuel_for watched.reader f) (length t.sent) watched.reader f) [
          | none ↦ none
          | some out ↦ some (
            out.result,
            record (update t ref
                (record { handle = handle_after watched.handle f out.file; reader = out.reader })) {
                  sent = t.sent ++ out.sent;
                },
          )
        ]

  -- A call of readNewLines, then the handle closed if it failed.
  unfoldable pub read_or_close : Session → ℕ → Watched → Outcome
  unfolding read_watched
  read_or_close t ref watched = elim (read_watched t ref watched) [
    | none ↦ none
    | some (none, t') ↦ some (none, t')
    | some (some e, t') ↦ some (some e, close_handle t' watched.handle.id)
  ]

  -- The file is watched already, under another name.
  unfoldable pub follow_moved : Session → ℕ → Watched → Text → Outcome
  unfolding read_or_close if_watched
  follow_moved t ref watched path = elim (os.dup_error w watched.handle) [
    | some cause ↦ some (
      some (new_error not_specified (some cause) (path ++ text ": failed to follow moved file")),
      t,
    )
    | none ↦
        if_watched (os.watch_file w (renamed t watched path).handle)
          (unused (close_handle t watched.handle.id)) t.next_id
          (read_or_close
            (record (unused (close_handle t watched.handle.id)) {
              heap = set t.heap ref (renamed t watched path);
            })
            ref (renamed t watched path))
  ]

  -- The new file, at its start or, where not all is to be read, at its end.
  abbrev pub started : Bool → Session → Text → ℕ → Watched
  started readall t path file = record {
    handle = record (new_handle t path file) {
      offset = if readall then 0 else length (w.content file);
    };
    reader = new_line_reader_with_max_line_bytes (pos t.max_line_bytes);
  }

  unfoldable pub start_reading : Bool → Session → Text → ℕ → ℕ → Outcome
  unfolding read_or_close if_watched
  start_reading readall t path file ref =
      let watched = started readall t path file in
      if_watched (os.watch_file w watched.handle) (unused t) t.next_id
        (read_or_close (record (unused t) { heap = t.heap ++ watched ∷ [] }) ref watched)

  unfoldable pub seek_end : Bool → Session → Text → ℕ → ℕ → Option Text → Outcome
  unfolding start_reading
  seek_end false t path file ref (some cause) = some (
    some (new_error not_specified (some (text "seek: " ++ cause)) path),
    close_handle (unused t) t.next_id,
  )
  seek_end readall t path file ref cause = start_reading readall t path file ref

  unfoldable pub open_new : Bool → Session → Files → Text → Option ((Error ⊎ Files) × Session)
  unfolding seek_end after_read skip_missing
  open_new readall t after path = elim (os.open_file w path) [
    | inl e ↦ skip_missing t after e e.error_type
    | inr file ↦
        after_read after path (length t.heap)
          (seek_end readall t path file (length t.heap) (os.seek_error w (new_handle t path file)))
  ]

  unfoldable pub watched_already : Session → Files → Text → ℕ → Option ((Error ⊎ Files) × Session)
  unfolding follow_moved after_read
  watched_already t after path ref = elim (get_elem? t.heap ref) [
    | none ↦ some (inr after, t)
    | some watched ↦ elim (text_eq watched.handle.name path) [
      | true ↦ some (inr (put_file after path ref), t)
      | false ↦ after_read after path ref (follow_moved t ref watched path)
    ]
  ]

-- The handles of the files that are watched no more.
unfoldable pub ids_removed : List Watched → Files → Files → List ℕ
ids_removed heap after [] = []
ids_removed heap after ((path, ref) ∷ files) =
    let rest = ids_removed heap after files in
    if contains after ref
    then rest
    else elim (get_elem? heap ref) [ none ↦ rest | some watched ↦ watched.handle.id ∷ rest ]

unfoldable pub finish_sync : Option ((Error ⊎ Files) × Session) → Outcome
unfolding ids_removed
finish_sync none = none
finish_sync (some (inl e, t)) = some (some e, t)
finish_sync (some (inr after, t)) = some (
  none,
  record t { closed = t.closed ++ ids_removed t.heap after t.watched_files; watched_files = after },
)

module _ (os : Os) (matches : Text → Text → Bool) (accepts : ℕ → Bool) (w : System) where
  -- An entry that a glob matches: a directory is skipped.
  unfoldable pub sync_matched :
      Bool → Bool → Session → Files → Text → FileInfo → Option ((Error ⊎ Files) × Session)
  unfolding open_new watched_already
  sync_matched true readall t after path info = some (inr after, t)
  sync_matched false readall t after path info =
      elim (os.same_file w t.heap t.watched_files info path) [
        | inl e ↦ some (inl e, t)
        | inr (some ref) ↦ watched_already os accepts w t after path ref
        | inr none ↦ open_new os accepts w readall t after path
      ]

  -- One turn of the loop over the directory's entries.
  unfoldable pub sync_entry :
      Text → Bool → Session → Files → FileInfo → Option ((Error ⊎ Files) × Session)
  unfolding sync_matched
  sync_entry d readall t after info =
      elim (any_glob_matches matches t.globs (os.join d info.name)) [
        | false ↦ some (inr after, t)
        | true ↦ sync_matched info.is_dir readall t after (os.join d info.name) info
      ]

  unfoldable pub sync_entries :
      Text → Bool → Session → Files → List FileInfo → Option ((Error ⊎ Files) × Session)
  unfolding sync_entry
  sync_entries d readall t after [] = some (inr after, t)
  sync_entries d readall t after (info ∷ infos) = elim (sync_entry d readall t after info) [
    | none ↦ none
    | some (inl e, t') ↦ some (inl e, t')
    | some (inr after', t') ↦ sync_entries d readall t' after' infos
  ]

  unfoldable pub sync_files_in_dir : Session → Text → Bool → Outcome
  unfolding finish_sync sync_entries
  sync_files_in_dir t d readall = elim (os.ls w d) [
    | inl e ↦ some (some e, t)
    | inr infos ↦ finish_sync (sync_entries d readall t (of_other_dirs os d t.watched_files) infos)
  ]
