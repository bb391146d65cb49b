-- ===== src/Bufio/Laws.antt =====
-- bufio.Reader.ReadSlice: the bytes that it takes, and how a slice can end.
use go_libtail.Prelude.{
  ℕ, suc, ◌-◌, ◌≤◌, ◌<◌, ◌⊎◌, inl, inr, Option, none, some, [], ◌∷◌, ◌++◌, ◌≡◌, refl, sym, ap, ◌∙◌,
  arith, length, take, drop, leb, leb→le, Option-cases, Bool-cases, append_assoc, take-append-drop,
  length-append, length-take, length-drop, drop_all,
}
use go_libtail.Bufio.{
  Bytes, File, Reader, buffer_full, Slice, index_byte, fill, cut_slice, read_slice, end_error,
}
use go_libtail.Bufio.Index.{index_byte-IsFirst}

-- What a reader and its file have yet to give.
abbrev pub pending : Reader → File → Bytes
pending b f = b.buffered ++ f.unread

pub record IsReader (b : Reader) : Type 0 where
  pub fits : length b.buffered ≤ b.size
  pub room : 0 < b.size

-- A slice takes its chunk from the front of what is pending, from the same file.
pub record Reads (b : Reader) (f : File) (s : Slice) : Type 0 where
  pub stream : s.chunk ++ pending s.reader s.file ≡ pending b f
  pub reader_kept : IsReader s.reader
  pub id_kept : s.file.id ≡ f.id
  pub failing_kept : s.file.failing ≡ f.failing

-- How a slice ends: behind the first delimiter, at a full buffer, or at the end of the file.
pub data Ends (delim : ℕ) (f : File) (s : Slice) : Type 0 where
  found :
      (body : Bytes)
      → s.chunk ≡ body ++ delim ∷ []
      → index_byte delim body ≡ none
      → s.err ≡ none
      → Ends delim f s
  full :
      s.err ≡ some buffer_full
      → index_byte delim s.chunk ≡ none
      → 0 < length s.chunk
      → Ends delim f s
  finished :
      s.err ≡ some (end_error f)
      → index_byte delim s.chunk ≡ none
      → pending s.reader s.file ≡ []
      → Ends delim f s

module _ (delim : ℕ) (b : Reader) (f : File) (ok : IsReader b) where
  cut_slice-Reads :
      (o : Option ℕ) → index_byte delim b.buffered ≡ o → Reads b f (cut_slice delim b f o)
  unfolding cut_slice
  cut_slice-Reads none e = record {
    stream = refl;
    reader_kept = record { fits = omega (arith, ok.room); room = ok.room };
    id_kept = refl;
    failing_kept = refl;
  }
  cut_slice-Reads (some i) e = record {
    stream =
        sym (append_assoc (take (suc i) b.buffered) (drop (suc i) b.buffered) f.unread)
        ∙ ap (λ k. k ++ f.unread) (take-append-drop (suc i) b.buffered);
    reader_kept = record {
      fits = omega (arith, ok.fits, length-drop (suc i) b.buffered);
      room = ok.room;
    };
    id_kept = refl;
    failing_kept = refl;
  }

  found-Ends :
      (i : ℕ) → index_byte delim b.buffered ≡ some i → Ends delim f (cut_slice delim b f (some i))
  unfolding cut_slice
  found-Ends i e =
      let first = index_byte-IsFirst delim b.buffered i e in
      found (take i b.buffered) first.through first.clear refl

  stopped-Ends :
      index_byte delim b.buffered ≡ none
      → (b.size ≤ length b.buffered) ⊎ (f.unread ≡ [])
      → Ends delim f (cut_slice delim b f none)
  unfolding cut_slice
  stopped-Ends e stop = elim (Bool-cases (leb b.size (length b.buffered))) [
    | inl is_full ↦ full (rw is_full) e (ground (arith, ok.room))
    | inr more ↦ finished (rw more) e (ground arith)
  ]

module _ (b : Reader) (f : File) (ok : IsReader b) where
  pending-fill : pending (fill b f).0 (fill b f).1 ≡ pending b f
  unfolding fill
  pending-fill =
      append_assoc b.buffered (take room f.unread) (drop room f.unread)
      ∙ ap (◌++◌ b.buffered) (take-append-drop room f.unread)
    where
      room : ℕ
      room = b.size - length b.buffered

  fill-IsReader : IsReader (fill b f).0
  unfolding fill
  fill-IsReader = record {
    fits =
        omega (
          arith,
          ok.fits,
          length-append b.buffered (take room f.unread),
          length-take room f.unread,
        );
    room = ok.room;
  }
    where
      room : ℕ
      room = b.size - length b.buffered

  -- After one Read the buffer is full, or the file is at its end.
  fill_stops : ((fill b f).0.size ≤ length (fill b f).0.buffered) ⊎ ((fill b f).1.unread ≡ [])
  unfolding fill
  fill_stops = elim (Bool-cases (leb (b.size - length b.buffered) (length f.unread))) [
    | inl more ↦ inl (
        omega (
          arith,
          length-append b.buffered (take room f.unread),
          length-take room f.unread,
          leb→le _ _ more,
          ok.fits,
        ))
    | inr less ↦ inr (drop_all room f.unread (ground arith))
  ]
    where
      room : ℕ
      room = b.size - length b.buffered

  read_slice_found :
      (delim i : ℕ)
      → index_byte delim b.buffered ≡ some i
      → read_slice delim b f ≡ cut_slice delim b f (some i)
  unfolding read_slice
  read_slice_found delim i e = rw (e, read_slice)

  read_slice_filled :
      (delim : ℕ)
      → index_byte delim b.buffered ≡ none
      → let (b', f') = fill b f in
        read_slice delim b f ≡ cut_slice delim b' f' (index_byte delim b'.buffered)
  unfolding read_slice
  read_slice_filled delim e = rw (e, read_slice)

  -- What holds of a slice of the filled buffer holds of it before the Read, too.
  Reads-fill : (s : Slice) → Reads (fill b f).0 (fill b f).1 s → Reads b f s
  Reads-fill s r = record {
    stream = r.stream ∙ pending-fill;
    reader_kept = r.reader_kept;
    id_kept = r.id_kept ∙ unfold fill in refl;
    failing_kept = r.failing_kept ∙ unfold fill in refl;
  }

  Ends-fill : (delim : ℕ) (s : Slice) → Ends delim (fill b f).1 s → Ends delim f s
  Ends-fill delim s (found body c n e) = found body c n e
  Ends-fill delim s (full e n l) = full e n l
  Ends-fill delim s (finished e n p) = finished (e ∙ unfold fill end_error in refl) n p

-- ReadSlice reads on in the stream, and ends in one of the three ways.
pub read_slice_lem :
    (delim : ℕ) (b : Reader) (f : File)
    → IsReader b
    → Reads b f (read_slice delim b f) × Ends delim f (read_slice delim b f)
read_slice_lem delim b f ok = elim (Option-cases (index_byte delim b.buffered)) [
  | inl absent ↦ rw (read_slice_filled b f ok delim absent) (
    Reads-fill b f ok _ (cut_slice-Reads delim b' f' ok' _ refl),
    Ends-fill b f ok delim _ (again (index_byte delim b'.buffered) refl),
  )
  | inr (i, e) ↦
      rw (read_slice_found b f ok delim i e)
        (cut_slice-Reads delim b f ok (some i) e, found-Ends delim b f ok i e)
]
  where
    b' : Reader
    b' = (fill b f).0

    f' : File
    f' = (fill b f).1

    ok' : IsReader b'
    ok' = fill-IsReader b f ok

    again :
        (o : Option ℕ) → index_byte delim b'.buffered ≡ o → Ends delim f' (cut_slice delim b' f' o)
    again none e = stopped-Ends delim b' f' ok' e (fill_stops b f ok)
    again (some i) e = found-Ends delim b' f' ok' i e
