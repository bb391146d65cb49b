-- ===== src/Command/Panics.antt =====
-- The start of the command.
use go_libtail.Prelude.{
  ℕ, suc, ◌≡◌, ◌≢◌, ◌↔◌, refl, inl, inr, Bool, Bool-cases, Option, none, some, List, [], ◌∷◌,
}
use go_libtail.Errors.{Text, Error}
use go_libtail.Glob.{Parsed, glob, failed, ParseError, from_path}
use go_libtail.FileTailer.Session.{text_eq}
use go_libtail.Command.{
  Config, Received, error_received, errors_closed, line_received, lines_closed, panics, is_enough,
  main_loop, start_with, start_tailer, Flags, config_of, run_started, run_main,
}

module _ (is_not_exist : Option Text → Bool) (parse_error : ParseError → Text) (cwd : Option Text)
    (flags : Flags) (received : List Received) where
  never_panics :
      (cfg : Config) (p : ℕ) (inputs : List Received)
      → (main_loop is_not_exist cfg p inputs).1 ≢ panics
  unfolding main_loop
  never_panics cfg p [] e = cc
  never_panics cfg p (errors_closed ∷ rest) e = cc
  never_panics cfg p (lines_closed ∷ rest) e = cc
  never_panics cfg p (error_received x ∷ rest) e = cc
  never_panics cfg p (line_received l ∷ rest) e =
      elim (Bool-cases (is_enough cfg.max_lines (suc p))) [
        | inl q ↦ let f = rw (q, main_loop) at e in cc
        | inr q ↦ never_panics cfg (suc p) rest (rw (q, main_loop) at e)
      ]

  -- The command panics exactly if the path is a good one and the watcher cannot be made: startTailer
  -- drops that error and returns a nil tailer.
  pub run_main_panics_iff :
      (init_error : Option Error)
      → ((run_main is_not_exist parse_error init_error cwd flags received).1 ≡ panics)
        ↔ (((g : Text) × (from_path cwd flags.logpath ≡ glob g)) × (init_error ≢ none))
  unfolding run_main run_started start_tailer start_with text_eq
  run_main_panics_iff init_error = by_path (from_path cwd flags.logpath) refl init_error
    where
      by_path :
          (o : Parsed)
          → from_path cwd flags.logpath ≡ o
          → (i : Option Error)
          → ((run_main is_not_exist parse_error i cwd flags received).1 ≡ panics)
            ↔ (((g : Text) × (from_path cwd flags.logpath ≡ glob g)) × (i ≢ none))
      by_path (failed x) q i =
          rw (q, run_main) ((λ e. absurd (cc)), (λ h. let f = h.0.1 in absurd (cc)))
      by_path (glob g) q none =
          rw (q, run_main)
            ((λ e. absurd (never_panics (config_of flags) 0 received e)), (λ h. absurd (h.1 refl)))
      by_path (glob g) q (some e) = rw (q, run_main) ((λ _. ((g, refl), λ n. cc)), (λ _. refl))
