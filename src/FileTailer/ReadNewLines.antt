-- ===== src/FileTailer/ReadNewLines.antt =====
-- fswatcher.go, readNewLines.
pub mod Delivery
pub mod Complete
pub mod Growth
pub mod Lines
use go_libtail.Prelude.{ℕ, zero, suc, Bool, true, false, Option, none, some, List, [], ◌∷◌, ◌++◌}
use mathlib.Core.Option
use go_libtail.Bufio.{File}
use go_libtail.Errors.{Text, text, Error, new_error, not_specified}
use go_libtail.LineReader.{LineReader, LineError, line_too_long, read_failed, Reply}
use go_libtail.LineReader.ReadLine.{read_line}
use go_libtail.FileTailer.{Line}

-- What the loop does with a reply of ReadLine.
pub data Action : Type 0 where
  send : Line → Action
  pass : Action
  stop : Option Error → Action

-- An oversized line is sent cut, if anything of it is left.
send_cut : Text → Text → Action
send_cut name [] = pass
send_cut name (c ∷ s) = send (record { line = c ∷ s; file = name; truncated = true })

send_line : Text → Text → Bool → Action
send_line name s true = stop none
send_line name s false = send (record { line = s; file = name; truncated = false })

-- `cause` is the text of the file's read error.
act : Text → Text → Text → Bool → Option LineError → Action
unfolding send_cut send_line
act name cause s at_eof (some (line_too_long n max)) = send_cut name s
act name cause s at_eof (some (read_failed e)) =
    stop (some (new_error not_specified (some cause) (name ++ text ": read() failed")))
act name cause s at_eof none = send_line name s at_eof

unfoldable pub action : Text → Text → Reply → Action
unfolding act
action name cause a = act name cause a.line a.at_eof a.err

-- The lines sent, in order, and what the call returns and leaves.
pub record Output : Type 0 where
  pub sent : List Line
  pub result : Option Error
  pub reader : LineReader
  pub file : File

abbrev pub stopped : Option Error → LineReader → File → Output
stopped e r f = record { sent = []; result = e; reader = r; file = f }

abbrev pub sent_first : Line → Output → Output
sent_first l out = record out { sent = l ∷ out.sent }

module _ (name cause : Text) (accepts : ℕ → Bool) where
  -- `accepts k`: the consumer takes the line that is sent after k others; where it does not, the
  -- closed done channel ends the call. `none`: out of fuel.
  unfoldable pub read_new_lines : ℕ → ℕ → LineReader → File → Option Output
  read_new_lines zero k r f = none
  read_new_lines (suc n) k r f = elim (read_line (suc n) r f) [
    | none ↦ none
    | some (a, r', f') ↦ elim (action name cause a) [
      | stop e ↦ some (stopped e r' f')
      | pass ↦ read_new_lines n k r' f'
      | send l ↦ elim (accepts k) [
        | false ↦ some (stopped none r' f')
        | true ↦ Option.map (sent_first l) (read_new_lines n (suc k) r' f')
      ]
    ]
  ]
