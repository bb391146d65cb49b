-- ===== src/Tests/Command.antt =====
-- The command, and the reading of standard input.
use go_libtail.Prelude.{
  ◌≡◌, ◌≢◌, ◌↔◌, ◌≤◌, refl, true, false, none, some, List, [], ◌∷◌, ◌++◌, map, length, arith,
}
use go_libtail.Prelude.Int.{pos}
use go_libtail.Errors.{Text, text, Error, new_error, not_specified}
use go_libtail.Glob.{glob, from_path}
use go_libtail.LineReader.Tail.Lines.{unlines}
use go_libtail.StdinTailer.{tail_stdin}
use go_libtail.StdinTailer.Lines.{TypedLine, raw, stdin_line, tail_stdin-unlines}
use go_libtail.Command.{
  Received, line_received, limit_reached, panics, format_output_line, main_loop, Flags, config_of,
  run_main,
}
use go_libtail.Command.Format.{decode, format_output_line-eq-decode}
use go_libtail.Command.Limit.{
  lines_before_end, within_limit, printed, main_loop_prints, main_loop_reaches_iff,
}
use go_libtail.Command.Panics.{run_main_panics_iff}

-- "ab\r\r\nc\nunfinished"
abbrev two_lines : List TypedLine
two_lines =
    (record { content = text "ab"; returns = 2 })
    ∷ (record { content = text "c"; returns = 0 })
    ∷ []

tail_stdin-unlines_example :
    tail_stdin 3 (text "EOF") (unlines (map raw two_lines) ++ text "unfinished")
    ≡ some (map stdin_line two_lines, new_error not_specified (some (text "EOF")) [])
tail_stdin-unlines_example =
    tail_stdin-unlines 3 (text "EOF") two_lines (text "unfinished") (refl, refl, (refl, refl, tt))
      refl (omega arith)

format_output_line-eq-decode_example :
    format_output_line (text "a\\\\nb\\t\\x") true ≡ decode (text "a\\\\nb\\t\\x")
format_output_line-eq-decode_example = format_output_line-eq-decode (text "a\\\\nb\\t\\x")

decode_test : decode (text "a\\\\nb\\t\\x") ≡ text "a\\\nb\t\\x"
decode_test = refl

abbrev two_at_most : Flags
two_at_most = record {
  logpath = text "/a/x";
  max_line_bytes = pos 0;
  max_lines = pos 2;
  no_output = false;
  decode_escaped_sequences = true;
}

abbrev line_of : Text → Received
line_of s = line_received (record { line = s; file = text "/a/x"; truncated = false })

abbrev three : List Received
three = line_of (text "a") ∷ line_of (text "b") ∷ line_of (text "c") ∷ []

main_loop_prints_example :
    (main_loop (λ cause. false) (config_of two_at_most) 0 three).0
    ≡ printed false true (within_limit (pos 2) 0 (lines_before_end three))
main_loop_prints_example = main_loop_prints (λ cause. false) (config_of two_at_most) three

main_loop_reaches_iff_example :
    ((main_loop (λ cause. false) (config_of two_at_most) 0 three).1 ≡ limit_reached 2)
    ↔ (2 ≤ length (lines_before_end three))
main_loop_reaches_iff_example =
    main_loop_reaches_iff (λ cause. false) (config_of two_at_most) 1 three refl

abbrev no_watches : Error
no_watches =
    new_error not_specified (some (text "too many open files")) (text "inotify_init1() failed")

run_main_panics_iff_example :
    ((run_main (λ cause. false) (λ e. text "illegal") (some no_watches) none two_at_most three).1
      ≡ panics)
    ↔ (((g : Text) × (from_path none (text "/a/x") ≡ glob g)) × (some no_watches ≢ none))
run_main_panics_iff_example =
    run_main_panics_iff (λ cause. false) (λ e. text "illegal") none two_at_most three
      (some no_watches)
