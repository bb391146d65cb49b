-- ===== src/Tests/Reader.antt =====
-- Reading lines from small files: tailer/fswatcher/linereader.go and readNewLines.
use go_libtail.Prelude.{◌≡◌, refl, true, false, some, List, [], ◌∷◌, ◌++◌, map, arith}
use go_libtail.Bufio.{File, Reader}
use go_libtail.Errors.{text}
use go_libtail.LineReader.{LineReader, fresh_reader, make_bytes}
use go_libtail.LineReader.ReadLine.{read_line}
use go_libtail.LineReader.Spec.{next}
use go_libtail.LineReader.State.{IsBound, view, part}
use go_libtail.LineReader.Refine.{Runs}
use go_libtail.LineReader.Contract.{read_line_refines}
use go_libtail.LineReader.Idle.{idle_view, idle_ready, fresh_reader-IsIdle, read_line_idle}
use go_libtail.LineReader.Tail.Lines.{unlines}
use go_libtail.FileTailer.ReadNewLines.{Output, read_new_lines}
use go_libtail.FileTailer.ReadNewLines.Delivery.{Delivered}
use go_libtail.FileTailer.ReadNewLines.Complete.{read_new_lines_complete}
use go_libtail.FileTailer.ReadNewLines.Growth.{read_new_lines-append}
use go_libtail.Prelude.{inl, inr}
use go_libtail.FileTailer.ReadNewLines.Lines.{WrittenLine, sent_line, read_new_lines-unlines}

-- "ab\nabcdef\nc" with a limit of four bytes.
abbrev mixed_file : File
mixed_file = record {
  id = 1;
  unread = 97 ∷ 98 ∷ 10 ∷ 97 ∷ 98 ∷ 99 ∷ 100 ∷ 101 ∷ 102 ∷ 10 ∷ 99 ∷ [];
  failing = false;
}

abbrev small_reader : LineReader
small_reader = fresh_reader 4 16

-- A reader in the middle of mixed_file, whose bufio.Reader has all but the last byte.
abbrev half_read : Reader
half_read = record { buffered = 97 ∷ 98 ∷ 10 ∷ 97 ∷ 98 ∷ 99 ∷ 100 ∷ 101 ∷ 102 ∷ 10 ∷ []; size = 16 }

abbrev half_read_file : File
half_read_file = record { id = 1; unread = 99 ∷ []; failing = false }

abbrev bound_reader : LineReader
bound_reader = record {
  buf = make_bytes 4;
  pos = 0;
  max_line_bytes = 4;
  discarding_too_long_line = false;
  overflow = [];
  reader = some half_read;
  source = some 1;
  read_buffer_size = 16;
}

bound_reader-IsBound : IsBound 4 bound_reader half_read_file half_read
bound_reader-IsBound = record {
  limit = refl;
  capacity = refl;
  in_range = omega arith;
  bound = refl;
  source_is = refl;
  reader_ok = record { fits = omega arith; room = omega arith };
  clear = refl;
  quiet = λ e. refl;
  chunk_left = part refl;
}

read_line_refines_example :
    Runs 4 half_read_file
      (next 4 (view bound_reader half_read half_read_file))
      (read_line 20 bound_reader half_read_file)
read_line_refines_example =
    read_line_refines 4 20 bound_reader half_read_file half_read bound_reader-IsBound (omega arith)

read_line_idle_example :
    Runs 4 mixed_file
      (next 4 (idle_view small_reader mixed_file))
      (read_line 20 small_reader mixed_file)
unfolding fresh_reader
read_line_idle_example =
    read_line_idle 4 20 small_reader mixed_file (fresh_reader-IsIdle 4 16) (omega arith)

read_new_lines_complete_example :
    (out : Output) × (read_new_lines
        (text "a.log")
        (text "EIO")
        (λ k. true)
        20
        0
        small_reader
        mixed_file
      ≡ some out)
    × Delivered (text "a.log") (text "EIO") 4 mixed_file (idle_view small_reader mixed_file) out
unfolding fresh_reader
read_new_lines_complete_example =
    read_new_lines_complete (text "a.log") (text "EIO") (λ k. true) (λ k. refl) 4 (omega arith) 20 0
      small_reader mixed_file (idle_view small_reader mixed_file)
      (idle_ready (fresh_reader-IsIdle 4 16) refl) (omega arith)

abbrev grown_file : File
grown_file = record { id = 2; unread = 100 ∷ 10 ∷ []; failing = false }

read_new_lines-append_example :
    (first : Output) × (read_new_lines
        (text "a.log")
        (text "EIO")
        (λ k. true)
        20
        0
        small_reader
        mixed_file
      ≡ some first)
    × ((second whole : Output) × (read_new_lines
            (text "a.log")
            (text "EIO")
            (λ k. true)
            20
            0
            first.reader
            grown_file
          ≡ some second)
        × (read_new_lines
              (text "a.log")
              (text "EIO")
              (λ k. true)
              20
              0
              small_reader
              (record mixed_file { unread = mixed_file.unread ++ grown_file.unread })
            ≡ some whole)
        × (first.sent ++ second.sent ≡ whole.sent)
        × (idle_view second.reader second.file ≡ idle_view whole.reader whole.file))
unfolding fresh_reader
read_new_lines-append_example =
    read_new_lines-append (text "a.log") (text "EIO") (λ k. true) (λ k. refl) 4 (omega arith) 20 0 0
      0 small_reader mixed_file grown_file grown_file.unread (fresh_reader-IsIdle 4 16) refl
      (omega arith)

-- "ab\r\n", "c\n", and then "d".
abbrev two_lines : List WrittenLine
two_lines =
    (record { content = 97 ∷ 98 ∷ []; returns = true })
    ∷ (record { content = 99 ∷ []; returns = false })
    ∷ []

abbrev two_lines_file : File
two_lines_file = record { id = 1; unread = 97 ∷ 98 ∷ 13 ∷ 10 ∷ 99 ∷ 10 ∷ 100 ∷ []; failing = false }

read_new_lines-unlines_example :
    (out : Output) × (read_new_lines
        (text "a.log")
        (text "EIO")
        (λ k. true)
        20
        0
        small_reader
        two_lines_file
      ≡ some out)
    × (out.sent ≡ map (sent_line (text "a.log")) two_lines)
    × (idle_view out.reader out.file ≡ record { skipping = false; bytes = 100 ∷ [] })
unfolding fresh_reader unlines
read_new_lines-unlines_example =
    read_new_lines-unlines (text "a.log") (text "EIO") (λ k. true) (λ k. refl) 4 (omega arith) 20 0
      small_reader two_lines_file two_lines (100 ∷ []) (fresh_reader-IsIdle 4 16) refl
      (refl, omega arith, (refl, omega arith, tt)) (inl refl, (inr refl, tt)) refl (omega arith)
      (omega arith)
