-- ===== src/LineReader/Fetch.antt =====
-- readChunk with an empty overflow: the chunk comes from the file, through the bufio.Reader.
use go_libtail.Prelude.{
  ◌<◌, ◌≡◌, refl, sym, ap, subst, ◌∙◌, none, some, [], ◌∷◌, ◌++◌, arith, length, length-append,
}
use go_libtail.Bufio.{File, Reader, index_byte, read_slice, end_error}
use go_libtail.Bufio.Laws.{IsReader, pending, Ends, found, full, finished, read_slice_lem}
use go_libtail.LineReader.{LineReader, newline}
use go_libtail.LineReader.Chunk.{ChunkRead, read_chunk, chunk_of, slice_of, drop_full}
use go_libtail.LineReader.State.{IsChunk, part, ended}

-- How a chunk from the file ends: with bytes, or at the end of the file.
pub data Shape (f : File) (b : Reader) (c : ChunkRead) : Type 0 where
  bytes_read : c.err ≡ none → 0 < length c.chunk → Shape f b c
  file_ended :
      c.err ≡ some (end_error f)
      → index_byte newline c.chunk ≡ none
      → pending b c.file ≡ []
      → Shape f b c

pub record Fetched (r : LineReader) (f : File) (b : Reader) (c : ChunkRead) : Type 0 where
  pub reader' : Reader
  pub owner_is : c.owner ≡ record r { reader = some reader' }
  pub stream : c.chunk ++ pending reader' c.file ≡ pending b f
  pub reader_ok : IsReader reader'
  pub id_kept : c.file.id ≡ f.id
  pub failing_kept : c.file.failing ≡ f.failing
  pub is_chunk : IsChunk c.chunk
  pub shape : Shape f reader' c

drop_full-end_error : (f : File) → drop_full (some (end_error f)) ≡ some (end_error f)
unfolding drop_full end_error
drop_full-end_error f = ground arith

slice_of-Fetched :
    (r : LineReader) (f : File) (b : Reader) → IsReader b → Fetched r f b (slice_of r f (some b))
unfolding slice_of
slice_of-Fetched r f b ok =
    let (reads, ends) = read_slice_lem newline b f ok in
    record {
      reader' = (read_slice newline b f).reader;
      owner_is = refl;
      stream = reads.stream;
      reader_ok = reads.reader_kept;
      id_kept = reads.id_kept;
      failing_kept = reads.failing_kept;
      is_chunk = chunk_of_ends ends;
      shape = shape_of_ends ends;
    }
  where
    chunk_of_ends : Ends newline f (read_slice newline b f) → IsChunk (read_slice newline b f).chunk
    chunk_of_ends (found body c n e) = ended body c n
    chunk_of_ends (full e n l) = part n
    chunk_of_ends (finished e n p) = part n

    shape_of_ends :
        Ends newline f (read_slice newline b f)
        → Shape f (read_slice newline b f).reader (slice_of r f (some b))
    shape_of_ends (found body c n e) =
        bytes_read (rw e) (rw c (omega (arith, length-append body (newline ∷ []))))
    shape_of_ends (full e n l) = bytes_read (rw e) l
    shape_of_ends (finished e n p) = file_ended (rw e (drop_full-end_error f)) n p

pub read_chunk-Fetched :
    (r : LineReader) (f : File) (b : Reader)
    → r.overflow ≡ []
    → r.reader ≡ some b
    → IsReader b
    → Fetched r f b (read_chunk r f)
unfolding read_chunk chunk_of
read_chunk-Fetched r f b quiet bound ok =
    subst (Fetched r f b) (sym (ap (chunk_of r f) quiet ∙ ap (slice_of r f) bound))
      (slice_of-Fetched r f b ok)
