-- ===== src/StdinTailer.antt =====
-- tailer/stdinTailer.go: the lines of standard input. Its reader is given as the bytes that it
-- delivers, and the text of the error that follows them, "EOF" at the end of the input.
pub mod Lines
use go_libtail.Prelude.{
  ℕ, zero, suc, ◌||◌, Option, none, some, List, [], ◌∷◌, take, drop, ◌==◌, if◌then◌else◌, true,
  false, Bool,
}
use go_libtail.Bufio.{Bytes, index_byte}
use go_libtail.Errors.{Text, Error, new_error, not_specified}
use go_libtail.FileTailer.{Line}
use go_libtail.LineReader.{newline}

-- strings.TrimRight(line, "\r\n")
unfoldable pub trim_right_crlf : Bytes → Bytes
trim_right_crlf [] = []
trim_right_crlf (c ∷ s) = put_front (c == b'\r' || c == b'\n') c (trim_right_crlf s)
  where
    put_front : Bool → ℕ → Bytes → Bytes
    put_front true c [] = []
    put_front false c [] = c ∷ []
    put_front trimmed c (d ∷ s) = c ∷ d ∷ s

-- bufio.Reader.ReadString: the text up to and with the delimiter, and what is unread behind it.
-- `none`: the input ends in front of a delimiter, an error.
unfoldable pub read_string : ℕ → Bytes → Option (Bytes × Bytes)
read_string delim s = elim (index_byte delim s) [
  | none ↦ none
  | some i ↦ some (take (suc i) s, drop (suc i) s)
]

abbrev pub sent_first : Line → Option (List Line × Error) → Option (List Line × Error)
sent_first l none = none
sent_first l (some (ls, e)) = some (l ∷ ls, e)

-- The goroutine: the lines that it sends, and the error that it sends behind them. Its consumer
-- takes all of them. `none`: out of fuel.
unfoldable pub tail_stdin : ℕ → Text → Bytes → Option (List Line × Error)
unfolding trim_right_crlf read_string
tail_stdin zero cause s = none
tail_stdin (suc n) cause s = elim (read_string newline s) [
  | none ↦ some ([], new_error not_specified (some cause) [])
  | some (l, rest) ↦
      sent_first (record { line = trim_right_crlf l; file = []; truncated = false })
        (tail_stdin n cause rest)
]
