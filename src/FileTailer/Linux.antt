-- ===== src/FileTailer/Linux.antt =====
-- fswatcher_linux.go: what an event does to the tailer. Every event on Linux is an inotifyEvent. Descriptors are taken as their 32 bits.
pub mod Events
pub mod Truncated
pub mod Tracked
use go_libtail.Prelude.{
  ℕ, zero, suc, ◌+◌, ◌-◌, ◌*◌, ◌/◌, ◌%◌, ◌^◌, ◌⊎◌, inl, inr, Bool, true, false, not, ◌||◌, Option,
  none, some, List, [], ◌∷◌, ◌++◌, length, get_elem?, ltb, ◌==◌, if◌then◌else◌,
}
use Prim.Native.Nat.{bit_and}
use go_libtail.Errors.{Text, text, Error, new_error, not_specified}
use go_libtail.LineReader
use go_libtail.FileTailer.Session.{Handle, Watched, Dir, Session, System, text_eq, quoted}
use go_libtail.FileTailer.Os.{Os, linux, join}
use go_libtail.FileTailer.Sync.{Outcome, update, read_watched, sync_files_in_dir, unless_error}

pub record Event : Type 0 where
  pub wd : ℕ
  pub mask : ℕ
  pub name : Text

abbrev pub in_modify : ℕ
in_modify = 2

abbrev pub in_moved_from : ℕ
in_moved_from = 64

abbrev pub in_moved_to : ℕ
in_moved_to = 128

abbrev pub in_create : ℕ
in_create = 256

abbrev pub in_delete : ℕ
in_delete = 512

abbrev pub in_ignored : ℕ
in_ignored = 32768

-- mask & flag == flag
unfoldable pub has_flag : ℕ → ℕ → Bool
has_flag mask flag = bit_and mask flag == flag

-- The names of flags2string.
abbrev flag_names : List (ℕ × Text)
flag_names =
    (1, text "IN_ACCESS")
    ∷ (4, text "IN_ATTRIB")
    ∷ (8, text "IN_CLOSE_WRITE")
    ∷ (16, text "IN_CLOSE_NOWRITE")
    ∷ (256, text "IN_CREATE")
    ∷ (512, text "IN_DELETE")
    ∷ (1024, text "IN_DELETE_SELF")
    ∷ (32768, text "IN_IGNORED")
    ∷ (2, text "IN_MODIFY")
    ∷ (2048, text "IN_MOVE_SELF")
    ∷ (64, text "IN_MOVED_FROM")
    ∷ (128, text "IN_MOVED_TO")
    ∷ (32, text "IN_OPEN")
    ∷ []

set_flags : ℕ → List (ℕ × Text) → List Text
unfolding has_flag
set_flags mask [] = []
set_flags mask ((flag, name) ∷ flags) =
    let rest = set_flags mask flags in if has_flag mask flag then name ∷ rest else rest

-- strings.Join(texts, ", ")
unfoldable pub joined : List Text → Text
joined [] = []
joined (s ∷ []) = s
joined (s ∷ t ∷ texts) = s ++ (text ", " ++ joined (t ∷ texts))

unfoldable pub flags2string : ℕ → Text
unfolding set_flags joined
flags2string mask = joined (set_flags mask flag_names)

-- The method String() of an event.
unfoldable pub event_string : Event → Text
unfolding flags2string
event_string e = shown_name e.name ++ (text ": " ++ flags2string e.mask)
  where
    shown_name : Text → Text
    shown_name [] = text "<nil>"
    shown_name (c ∷ name) = c ∷ name

digits : ℕ → ℕ → Text → Text
digits zero n behind = behind
digits (suc fuel) n behind =
    let more = digits fuel (n / 10) ((b'0' + n % 10) ∷ behind) in
    if ltb n 10 then (b'0' + n) ∷ behind else more

-- %d of an int32, given by its 32 bits: it has ten digits at most.
unfoldable pub decimal : ℕ → Text
unfolding digits
decimal n = if ltb n (2 ^ 31) then digits 10 n [] else b'-' ∷ digits 10 (2 ^ 32 - n) []

shown_dirs : List Dir → List Text
unfolding decimal
shown_dirs [] = []
shown_dirs (d ∷ dirs) =
    (text "Wd=" ++ (decimal d.wd ++ (text " (" ++ (quoted d.path ++ text ")")))) ∷ shown_dirs dirs

unfoldable pub find_in : List Dir → ℕ → Option Dir
find_in [] wd = none
find_in (d ∷ dirs) wd = let rest = find_in dirs wd in if d.wd == wd then some d else rest

unfoldable pub find_dir : Session → Event → Error ⊎ Dir
unfolding find_in joined shown_dirs event_string decimal
find_dir t e = elim (find_in t.watched_dirs e.wd) [
  | some d ↦ inr d
  | none ↦ inl (
      new_error not_specified none (
        text "watch list inconsistent: cannot find directory for file system event "
        ++ (quoted (event_string e)
            ++ (text " with watch descriptor "
                ++ (decimal e.wd
                    ++ (text " in the list of watched directories ["
                        ++ (joined (shown_dirs t.watched_dirs) ++ text "]")))))))
]

other_dirs : List Dir → ℕ → List Dir
other_dirs [] wd = []
other_dirs (d ∷ dirs) wd = let rest = other_dirs dirs wd in if d.wd == wd then rest else d ∷ rest

unfoldable pub unwatch_dir_by_event : Session → Event → Session
unfolding other_dirs
unwatch_dir_by_event t e = record t { watched_dirs = other_dirs t.watched_dirs e.wd }

unfoldable pub lookup_file : List (Text × ℕ) → Text → Option ℕ
lookup_file [] path = none
lookup_file ((p, file) ∷ files) path =
    let rest = lookup_file files path in if text_eq p path then some file else rest

-- file.file.Seek(0, io.SeekStart), and file.reader.Clear()
unfoldable pub restarted : Watched → Watched
restarted watched = record {
  handle = record watched.handle { offset = 0 };
  reader = LineReader.clear watched.reader;
}

unfoldable pub failure : Handle → Text → Text → Option Error
failure h cause what = some (new_error not_specified (some cause) (h.name ++ what))

-- IN_MOVED_FROM, IN_DELETE, IN_CREATE and IN_MOVED_TO
unfoldable pub is_moving : ℕ → Bool
unfolding has_flag
is_moving mask =
    has_flag mask in_moved_from
    || (has_flag mask in_delete || (has_flag mask in_create || has_flag mask in_moved_to))

-- The pointer that the map holds for a path.
unfoldable pub watched_at : Session → Text → Option (ℕ × Watched)
unfolding lookup_file
watched_at t path = elim (lookup_file t.watched_files path) [
  | none ↦ none
  | some ref ↦ elim (get_elem? t.heap ref) [ none ↦ none | some watched ↦ some (ref, watched) ]
]

module _ (os : Os) (accepts : ℕ → Bool) (w : System) where
  unfoldable pub restart_and_read : Session → ℕ → Watched → Option Text → Outcome
  unfolding read_watched restarted failure
  restart_and_read t ref watched (some cause) =
      some (failure watched.handle cause (text ": seek() failed"), t)
  restart_and_read t ref watched none =
      read_watched os accepts w (update t ref (restarted watched)) ref (restarted watched)

  -- A watched file that may have grown: from isTruncated on.
  unfoldable pub read_modified : Session → ℕ → Watched → Outcome
  unfolding restart_and_read
  read_modified t ref watched = elim (os.check_truncated w watched.handle) [
    | inl cause ↦ some (failure watched.handle cause (text ": seek() or stat() failed"), t)
    | inr true ↦ restart_and_read t ref watched (os.seek_error w watched.handle)
    | inr false ↦ read_watched os accepts w t ref watched
  ]

module _ (matches : Text → Text → Bool) (accepts : ℕ → Bool) (w : System) where
  unfoldable pub sync_if_moving : Session → Dir → Event → Outcome
  unfolding is_moving
  sync_if_moving t d e = elim (is_moving e.mask) [
    | true ↦ sync_files_in_dir linux matches accepts w t d.path true
    | false ↦ some (none, t)
  ]

  unfoldable pub process_in_dir : Session → Dir → Event → Outcome
  unfolding sync_if_moving read_modified watched_at unwatch_dir_by_event has_flag
  process_in_dir t d e = elim (has_flag e.mask in_ignored) [
    | true ↦ some (
      some (
          new_error not_specified none
            (d.path ++ text ": directory was removed while being watched")),
      unwatch_dir_by_event t e,
    )
    | false ↦ elim (has_flag e.mask in_modify) [
      | true ↦ elim (watched_at t (join d.path e.name)) [
        | none ↦ some (none, t)
        | some (ref, watched) ↦
            unless_error (read_modified linux accepts w t ref watched) (λ t'. sync_if_moving t' d e)
      ]
      | false ↦ sync_if_moving t d e
    ]
  ]

  unfoldable pub process_event : Session → Event → Outcome
  unfolding process_in_dir
  process_event t e = elim (find_dir t e) [
    | inl err ↦ some (some err, t)
    | inr d ↦ process_in_dir t d e
  ]
