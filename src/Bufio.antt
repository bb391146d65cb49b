-- ===== src/Bufio.antt =====
-- What tailer/fswatcher/linereader.go uses of Go's bufio.Reader and bytes.IndexByte, and the
-- file that it reads from.
pub mod Index
pub mod Laws
use go_libtail.Prelude.{
  ℕ, suc, ◌-◌, Bool, true, false, Option, none, some, List, [], ◌∷◌, ◌++◌, length, take, drop, leb,
  ltb, ◌==◌, if◌then◌else◌,
}
use mathlib.Core.Option

abbrev pub Bytes : Type 0
Bytes = List ℕ

-- An open file. `id` stands for the identity of the reader value, `unread` for the bytes from
-- its offset to its end, and `failing` for a read error that takes the place of io.EOF there.
-- A read in front of the end returns as many bytes as are there and fit.
pub record File : Type 0 where
  pub id : ℕ
  pub unread : Bytes
  pub failing : Bool

pub data ReadError : Type 0 where
  eof buffer_full io_failure nil_reader : ReadError

-- bufio.Reader: the bytes between its read and write positions, and len(b.buf).
pub record Reader : Type 0 where
  pub buffered : Bytes
  pub size : ℕ

abbrev pub min_read_buffer_size : ℕ
min_read_buffer_size = 16

-- bufio.NewReaderSize; a size below the least one is raised to it.
abbrev pub new_reader_size : ℕ → Reader
new_reader_size size = record {
  buffered = [];
  size = if ltb size min_read_buffer_size then min_read_buffer_size else size;
}

-- bytes.IndexByte, with `none` for -1.
abbrev pub index_byte : ℕ → Bytes → Option ℕ
index_byte c [] = none
index_byte c (x ∷ xs) = let rest = index_byte c xs in if x == c then some 0 else Option.map suc rest

pub record Slice : Type 0 where
  pub chunk : Bytes
  pub err : Option ReadError
  pub reader : Reader
  pub file : File

-- fill(): one Read into the free part of the buffer.
fill : Reader → File → Reader × File
fill b f =
    let room = b.size - length b.buffered in
    (
      record b { buffered = b.buffered ++ take room f.unread },
      record f { unread = drop room f.unread },
    )

unfoldable pub end_error : File → ReadError
end_error f = if f.failing then io_failure else eof

-- What ReadSlice returns once it can buffer no more in front of the delimiter.
stop_slice : Reader → File → Slice
unfolding end_error
stop_slice b f = record {
  chunk = b.buffered;
  err = some (if leb b.size (length b.buffered) then buffer_full else end_error f);
  reader = record b { buffered = [] };
  file = f;
}

pub cut_slice : ℕ → Reader → File → Option ℕ → Slice
unfolding stop_slice
cut_slice delim b f (some i) = record {
  chunk = take (suc i) b.buffered;
  err = none;
  reader = record b { buffered = drop (suc i) b.buffered };
  file = f;
}
cut_slice delim b f none = stop_slice b f

-- bufio.Reader.ReadSlice. A file in front of its end fills the buffer in one Read, so the second
-- look at the buffer finds the delimiter, a full buffer, or the end of the file.
unfoldable pub read_slice : ℕ → Reader → File → Slice
unfolding fill cut_slice
read_slice delim b f =
    let (b', f') = fill b f in
    let again = cut_slice delim b' f' (index_byte delim b'.buffered) in
    elim (index_byte delim b.buffered) [ some i ↦ cut_slice delim b f (some i) | none ↦ again ]
