-- ===== src/LineReader.antt =====
-- tailer/fswatcher/linereader.go: lines from a growing file, in bounded memory.
-- A method with a pointer receiver returns the new reader, and the file that it read from.
pub mod Chunk
pub mod ReadLine
pub mod Spec
pub mod State
pub mod Fetch
pub mod Skip
pub mod Refine
pub mod Contract
pub mod Idle
pub mod Tail
use go_libtail.Prelude.{
  ℕ, zero, suc, ◌+◌, ◌-◌, ◌*◌, Bool, true, false, ◌&&◌, not, Option, none, some, List, [], ◌∷◌,
  ◌++◌, length, take, drop, ltb, ◌==◌, if◌then◌else◌,
}
use go_libtail.Prelude.Int.{ℤ, pos, negsuc}
use go_libtail.Bufio.{Bytes, ReadError, Reader}

abbrev pub newline : ℕ
newline = b'\n'

abbrev pub default_max_line_bytes : ℕ
default_max_line_bytes = 1024 * 1024

abbrev pub default_read_buffer_size : ℕ
default_read_buffer_size = 32 * 1024

-- `buf` is the whole slice, of which the first `pos` bytes are in use. `reader` and `source`
-- are nil before the first read.
pub record LineReader : Type 0 where
  pub buf : Bytes
  pub pos : ℕ
  pub max_line_bytes : ℕ
  pub discarding_too_long_line : Bool
  pub overflow : Bytes
  pub reader : Option Reader
  pub source : Option ℕ
  pub read_buffer_size : ℕ

-- An error of ReadLine: a lineTooLongError with its two fields, or the reader's own.
pub data LineError : Type 0 where
  line_too_long : ℕ → ℕ → LineError
  read_failed : ReadError → LineError

-- What ReadLine returns.
pub record Reply : Type 0 where
  pub line : Bytes
  pub at_eof : Bool
  pub err : Option LineError

-- make([]byte, n)
abbrev pub make_bytes : ℕ → Bytes
make_bytes zero = []
make_bytes (suc n) = 0 ∷ make_bytes n

unfoldable pub fresh_reader : ℕ → ℕ → LineReader
fresh_reader max_line_bytes read_buffer_size = record {
  buf = make_bytes max_line_bytes;
  pos = 0;
  max_line_bytes = max_line_bytes;
  discarding_too_long_line = false;
  overflow = [];
  reader = none;
  source = none;
  read_buffer_size = read_buffer_size;
}

unfoldable pub new_line_reader : LineReader
unfolding fresh_reader
new_line_reader = fresh_reader default_max_line_bytes default_read_buffer_size

-- A limit that is not positive stands for the default.
unfoldable pub positive_or : ℕ → ℤ → ℕ
positive_or default (pos zero) = default
positive_or default (pos (suc n)) = suc n
positive_or default (negsuc n) = default

unfoldable pub new_line_reader_with_max_line_bytes : ℤ → LineReader
unfolding fresh_reader positive_or
new_line_reader_with_max_line_bytes max =
    fresh_reader (positive_or default_max_line_bytes max) default_read_buffer_size

unfoldable pub new_line_reader_with_options : ℤ → ℤ → LineReader
unfolding new_line_reader_with_max_line_bytes
new_line_reader_with_options max read_buffer_size =
    let r = new_line_reader_with_max_line_bytes max in
    record r { read_buffer_size = positive_or r.read_buffer_size read_buffer_size }

-- r.buf[:r.pos]
abbrev pub held : LineReader → Bytes
held r = take r.pos r.buf

-- copy(dst[at:], src)
abbrev pub copy_at : Bytes → ℕ → Bytes → Bytes
copy_at dst at src = take at dst ++ (take (length dst - at) src ++ drop (at + length src) dst)

unfoldable pub strip_windows_line_ending : Bytes → Bytes
strip_windows_line_ending [] = []
strip_windows_line_ending (c ∷ []) = if c == b'\r' then [] else c ∷ []
strip_windows_line_ending (c ∷ d ∷ s) = c ∷ strip_windows_line_ending (d ∷ s)

-- copy(r.buf, r.buf[newlinePos+1:r.pos]); r.pos -= newlinePos + 1
unfoldable pub shift : LineReader → ℕ → LineReader
shift r i = record r { buf = copy_at r.buf 0 (drop (suc i) (held r)); pos = r.pos - suc i }

unfoldable pub set_buffer_from_bytes : LineReader → Bytes → LineReader
set_buffer_from_bytes r [] = record r { pos = 0; overflow = [] }
set_buffer_from_bytes r (x ∷ xs) =
    let bytes = x ∷ xs in
    let copy_size =
      if ltb r.max_line_bytes (length bytes) then r.max_line_bytes else length bytes in
    record r {
      buf = copy_at r.buf 0 (take copy_size bytes);
      pos = copy_size;
      overflow = if ltb copy_size (length bytes) then drop copy_size bytes else [];
    }

-- Clear: as after construction, but with the buffer's bytes left in place.
unfoldable pub clear : LineReader → LineReader
clear r = record r {
  pos = 0;
  overflow = [];
  discarding_too_long_line = false;
  reader = none;
  source = none;
}
