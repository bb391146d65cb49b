-- ===== src/Command.antt =====
-- cmd/tailer/tailer.go: the command. What it makes of the channels is a function of the sequence in
-- which it receives from them; the times that it measures are left out.
pub mod Format
pub mod Limit
pub mod Panics
use go_libtail.Prelude.{
  ℕ, zero, suc, ◌⊎◌, inl, inr, Bool, true, false, ◌&&◌, Option, none, some, List, [], ◌∷◌, ◌++◌,
  leb, ◌==◌, if◌then◌else◌,
}
use go_libtail.Prelude.Int.{ℤ, pos, negsuc}
use go_libtail.Errors.{Text, text, Error, error}
use go_libtail.Glob.{Parsed, glob, failed, ParseError, from_path}
use go_libtail.FileTailer.{Line, TailerOptions}
use go_libtail.FileTailer.Session.{text_eq}

-- myConfig; the field Type is input_type.
pub record Config : Type 0 where
  pub input_type : Text
  pub path : Text
  pub poll_interval : ℕ
  pub readall : Bool
  pub fail_on_missing_logfile : Bool
  pub max_line_bytes : ℤ
  pub max_lines : ℤ
  pub no_output : Bool
  pub decode_escaped_seqs : Bool

-- strings.ReplaceAll(s, `\c`, with), for a c of one byte.
unfoldable pub replace_all : ℕ → ℕ → Text → Text
replace_all c with [] = []
replace_all c with (a ∷ []) = a ∷ []
replace_all c with (a ∷ b ∷ s) = elim (a == b'\\' && b == c) [
  | true ↦ with ∷ replace_all c with s
  | false ↦ a ∷ replace_all c with (b ∷ s)
]

unfoldable pub format_output_line : Text → Bool → Text
unfolding replace_all
format_output_line line false = line
format_output_line line true = replace_all b't' b'\t' (replace_all b'n' b'\n' line)

-- What the select of main receives.
pub data Received : Type 0 where
  error_received : Error → Received
  errors_closed : Received
  line_received : Line → Received
  lines_closed : Received

-- How main ends: it returns, exits with a text on standard error, or has closed the tailer after so
-- many lines; or it waits for more.
pub data Ending : Type 0 where
  waits returns panics : Ending
  exits : Text → Ending
  limit_reached : ℕ → Ending

-- cfg.MaxLines > 0 && processed >= cfg.MaxLines
unfoldable pub is_enough : ℤ → ℕ → Bool
is_enough (pos zero) processed = false
is_enough (pos (suc m)) processed = leb (suc m) processed
is_enough (negsuc n) processed = false

-- What is written to standard output for a line.
unfoldable pub output_of : Config → Line → List Text
unfolding format_output_line
output_of cfg l =
    if cfg.no_output
    then []
    else (format_output_line l.line cfg.decode_escaped_seqs ++ b'\n' ∷ []) ∷ []

module _ (is_not_exist : Option Text → Bool) where
  unfoldable pub error_output : Error → Text
  error_output e =
      if is_not_exist e.cause
      then text "error reading log lines: "
        ++ (error e
            ++ text
                ": use 'fail_on_missing_logfile: false' in the input configuration if you want grok_exporter to start even though the logfile is missing")
      else text "error reading log lines: " ++ error e

  -- The loop: what it writes to standard output, and how it ends.
  unfoldable pub main_loop : Config → ℕ → List Received → List Text × Ending
  unfolding is_enough output_of error_output
  main_loop cfg processed [] = ([], waits)
  main_loop cfg processed (errors_closed ∷ rest) = ([], returns)
  main_loop cfg processed (lines_closed ∷ rest) = ([], returns)
  main_loop cfg processed (error_received e ∷ rest) = ([], exits (error_output e))
  main_loop cfg processed (line_received l ∷ rest) =
      elim (is_enough cfg.max_lines (suc processed)) [
        | true ↦ (output_of cfg l, limit_reached (suc processed))
        | false ↦
            let next = main_loop cfg (suc processed) rest in (output_of cfg l ++ next.0, next.1)
      ]

-- What startTailer starts. `no_tailer`: a nil tailer, and no error.
pub data Started : Type 0 where
  no_glob : ParseError → Started
  unknown_type : Text → Started
  no_tailer stdin_tailer : Started
  file_tailer polling_tailer : Text → Bool → Bool → TailerOptions → Started

-- The error of the call that makes the watcher is not looked at.
unfoldable pub unless_failed : Option Error → Started → Started
unless_failed (some e) started = no_tailer
unless_failed none started = started

-- `init_error`: of the making of the watcher.
unfoldable pub start_file : Option Error → Config → Text → Started
unfolding unless_failed
start_file init_error cfg g =
    let options : TailerOptions = record { max_line_bytes = cfg.max_line_bytes } in
    unless_failed init_error (
      if cfg.poll_interval == 0
      then file_tailer g cfg.readall cfg.fail_on_missing_logfile options
      else polling_tailer g cfg.readall cfg.fail_on_missing_logfile options)

unfoldable pub start_with : Option Error → Config → Parsed → Started
unfolding start_file text_eq
start_with init_error cfg (failed e) = no_glob e
start_with init_error cfg (glob g) =
    if text_eq cfg.input_type (text "file")
    then start_file init_error cfg g
    else if text_eq cfg.input_type (text "stdin")
    then stdin_tailer
    else unknown_type (text "Config error: Input type '" ++ (cfg.input_type ++ text "' unknown."))

unfoldable pub start_tailer : Option Error → Option Text → Config → Started
unfolding start_with from_path
start_tailer init_error cwd cfg = start_with init_error cfg (from_path cwd cfg.path)

-- The command's flags.
pub record Flags : Type 0 where
  pub logpath : Text
  pub max_line_bytes : ℤ
  pub max_lines : ℤ
  pub no_output : Bool
  pub decode_escaped_sequences : Bool

abbrev pub config_of : Flags → Config
config_of flags = record {
  input_type = text "file";
  path = flags.logpath;
  poll_interval = 0;
  readall = true;
  fail_on_missing_logfile = true;
  max_line_bytes = flags.max_line_bytes;
  max_lines = flags.max_lines;
  no_output = flags.no_output;
  decode_escaped_seqs = flags.decode_escaped_sequences;
}

module _ (is_not_exist : Option Text → Bool) (parse_error : ParseError → Text) where
  -- With a nil tailer, tail.Errors() panics.
  unfoldable pub run_started : Config → List Received → Started → List Text × Ending
  unfolding main_loop
  run_started cfg received (no_glob e) = ([], exits (parse_error e))
  run_started cfg received (unknown_type message) = ([], exits message)
  run_started cfg received no_tailer = ([], panics)
  run_started cfg received stdin_tailer = main_loop is_not_exist cfg 0 received
  run_started cfg received (file_tailer g readall fail options) =
      main_loop is_not_exist cfg 0 received
  run_started cfg received (polling_tailer g readall fail options) =
      main_loop is_not_exist cfg 0 received

  unfoldable pub run_main : Option Error → Option Text → Flags → List Received → List Text × Ending
  unfolding run_started start_tailer
  run_main init_error cwd flags received =
      run_started (config_of flags) received (start_tailer init_error cwd (config_of flags))
