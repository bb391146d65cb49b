-- ===== src/FileTailer/Linux/Events.antt =====
-- fseventProducerLoop_linux.go: the events in the bytes of one read, and the format in which
-- inotify writes them.
pub mod Decode
pub mod Padded
use go_libtail.Prelude.{
  ℕ, zero, suc, ◌+◌, ◌-◌, ◌*◌, Bool, true, false, List, [], ◌∷◌, ◌++◌, length, take, drop, ltb,
  ◌==◌, if◌then◌else◌,
}
use go_libtail.Bufio.{Bytes}
use go_libtail.Errors.{Text}
use go_libtail.FileTailer.Linux.{Event, has_flag, in_ignored}

-- syscall.SizeofInotifyEvent and syscall.NAME_MAX.
abbrev pub event_size : ℕ
event_size = 16

abbrev pub name_max : ℕ
name_max = 255

-- A field of 32 bits, the low byte first.
unfoldable pub word : Bytes → ℕ
word (a ∷ b ∷ c ∷ d ∷ s) = a + 256 * (b + 256 * (c + 256 * d))
word _ = 0

-- strings.TrimRight(s, "\000")
unfoldable pub trim_right_nul : Text → Text
trim_right_nul [] = []
trim_right_nul (c ∷ s) = put_front c (trim_right_nul s)
  where
    put_front : ℕ → Text → Text
    put_front zero [] = []
    put_front zero (d ∷ s) = 0 ∷ d ∷ s
    put_front (suc c) s = suc c ∷ s

-- How the loop over the bytes ends: with the next read, by a return behind an IN_IGNORED event, by
-- the error of a piece that is too short, or by a panic, as a slice of the name is out of range.
pub data Ending : Type 0 where
  reads_again ignored too_short panics out_of_fuel : Ending

-- inotifyEvent{*(*syscall.InotifyEvent)(unsafe.Pointer(&buf[offset])), ""}, with its name.
unfoldable pub event_at : Bytes → Event
unfolding word trim_right_nul
event_at s = record {
  wd = word s;
  mask = word (drop 4 s);
  name = trim_right_nul (take (word (drop 12 s)) (drop 16 s));
}

abbrev pub and_then : Event → List Event × Ending → List Event × Ending
and_then e (es, ending) = (e ∷ es, ending)

-- The loop over offset, in the first n bytes of buf. All events are taken by the consumer.
unfoldable pub events_from : ℕ → ℕ → Bytes → ℕ → List Event × Ending
unfolding event_at has_flag
events_from zero n buf offset = ([], out_of_fuel)
events_from (suc fuel) n buf offset = elim (ltb offset n) [
  | false ↦ ([], reads_again)
  | true ↦ elim (ltb (n - offset) event_size) [
    | true ↦ ([], too_short)
    | false ↦ elim (ltb name_max (word (drop 12 (drop offset buf)))) [
      | true ↦ ([], panics)
      | false ↦ elim (has_flag (event_at (drop offset buf)).mask in_ignored) [
        | true ↦ (event_at (drop offset buf) ∷ [], ignored)
        | false ↦
            and_then (event_at (drop offset buf))
              (events_from fuel n buf (offset + (event_size + word (drop 12 (drop offset buf)))))
      ]
    ]
  ]
]
