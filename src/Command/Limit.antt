-- ===== src/Command/Limit.antt =====
-- Which lines the command prints, and how many.
use go_libtail.Prelude.{
  ℕ, zero, suc, ◌+◌, ◌-◌, ◌≤◌, ◌<◌, ◌≡◌, ◌↔◌, refl, sym, ap, ap₂, ◌∙◌, inl, inr, Bool, true, false,
  Bool-cases, Option, List, [], ◌∷◌, ◌++◌, append-nil, take, length, leb, arith,
}
use go_libtail.Prelude.Int.{ℤ, pos, negsuc}
use go_libtail.Errors.{Text}
use go_libtail.FileTailer.{Line}
use go_libtail.Command.{
  Config, Received, error_received, errors_closed, line_received, lines_closed, limit_reached,
  is_enough, output_of, main_loop, format_output_line,
}
use go_libtail.Command.Format.{decode, format_output_line-eq-decode}

-- The lines that are received before an error or the closing of a channel.
abbrev pub lines_before_end : List Received → List Line
lines_before_end [] = []
lines_before_end (errors_closed ∷ rest) = []
lines_before_end (lines_closed ∷ rest) = []
lines_before_end (error_received e ∷ rest) = []
lines_before_end (line_received l ∷ rest) = l ∷ lines_before_end rest

-- Those within the limit, where so many were processed before.
abbrev pub within_limit : ℤ → ℕ → List Line → List Line
within_limit (pos zero) processed ls = ls
within_limit (pos (suc m)) processed ls = take (suc m - processed) ls
within_limit (negsuc n) processed ls = ls

abbrev outputs : Config → List Line → List Text
outputs cfg [] = []
outputs cfg (l ∷ ls) = output_of cfg l ++ outputs cfg ls

last_within :
    (k : ℤ) (p : ℕ) (l : Line) (ls : List Line)
    → is_enough k p ≡ false
    → is_enough k (suc p) ≡ true
    → within_limit k p (l ∷ ls) ≡ l ∷ []
unfolding is_enough
last_within (pos zero) p l ls h e = cc
last_within (negsuc n) p l ls h e = cc
last_within (pos (suc m)) p l ls h e = let one : suc m - p ≡ 1 = ground arith in rw one refl

more_within :
    (k : ℤ) (p : ℕ) (l : Line) (ls : List Line)
    → is_enough k (suc p) ≡ false
    → within_limit k p (l ∷ ls) ≡ l ∷ within_limit k (suc p) ls
unfolding is_enough
more_within (pos zero) p l ls h = refl
more_within (negsuc n) p l ls h = refl
more_within (pos (suc m)) p l ls h =
    let next : suc m - p ≡ suc (suc m - suc p) = ground arith in rw next refl

nothing_within : (cfg : Config) (k : ℤ) (p : ℕ) → [] ≡ outputs cfg (within_limit k p [])
nothing_within cfg (pos zero) p = refl
nothing_within cfg (negsuc n) p = refl
nothing_within cfg (pos (suc m)) p = by_count (suc m - p)
  where
    by_count : (n : ℕ) → ◌≡◌ {A = List Text} [] (outputs cfg (take n []))
    by_count zero = refl
    by_count (suc n) = refl

none_yet : (k : ℤ) → is_enough k 0 ≡ false
unfolding is_enough
none_yet (pos zero) = refl
none_yet (pos (suc m)) = ground arith
none_yet (negsuc n) = refl

-- What is to be printed, as the flags say: the line, decoded or as it is, and a newline.
abbrev pub printed : Bool → Bool → List Line → List Text
printed no_output decodes [] = []
printed true decodes (l ∷ ls) = []
printed false true (l ∷ ls) = (decode l.line ++ b'\n' ∷ []) ∷ printed false true ls
printed false false (l ∷ ls) = (l.line ++ b'\n' ∷ []) ∷ printed false false ls

silent : (cfg : Config) → cfg.no_output ≡ true → (ls : List Line) → outputs cfg ls ≡ []
unfolding output_of
silent cfg q [] = refl
silent cfg q (l ∷ ls) =
    let none : output_of cfg l ≡ [] = rw (q, output_of) refl in rw none (silent cfg q ls)

-- One line of the output.
shows_one :
    (cfg : Config) (d : Bool) (l : Line)
    → cfg.no_output ≡ false
    → cfg.decode_escaped_seqs ≡ d
    → output_of cfg l ≡ printed false d (l ∷ [])
unfolding output_of format_output_line
shows_one cfg true l q r =
    rw (q, output_of)
      (rw r (ap (λ s. (s ++ b'\n' ∷ []) ∷ []) (format_output_line-eq-decode l.line)))
shows_one cfg false l q r = rw (q, output_of) (rw r refl)

outputs-printed :
    (cfg : Config) (n d : Bool)
    → cfg.no_output ≡ n
    → cfg.decode_escaped_seqs ≡ d
    → (ls : List Line) → outputs cfg ls ≡ printed n d ls
outputs-printed cfg true d q r [] = refl
outputs-printed cfg true d q r (l ∷ ls) = silent cfg q (l ∷ ls)
outputs-printed cfg false true q r [] = refl
outputs-printed cfg false false q r [] = refl
outputs-printed cfg false true q r (l ∷ ls) =
    ap₂ (◌++◌) (shows_one cfg true l q r) (outputs-printed cfg false true q r ls)
outputs-printed cfg false false q r (l ∷ ls) =
    ap₂ (◌++◌) (shows_one cfg false l q r) (outputs-printed cfg false false q r ls)

module _ (is_not_exist : Option Text → Bool) (cfg : Config) where
  stops_here :
      (p : ℕ) (l : Line) (rest : List Received)
      → is_enough cfg.max_lines (suc p) ≡ true
      → main_loop is_not_exist cfg p (line_received l ∷ rest)
        ≡ (output_of cfg l, limit_reached (suc p))
  unfolding main_loop
  stops_here p l rest e = rw (e, main_loop) refl

  goes_on :
      (p : ℕ) (l : Line) (rest : List Received)
      → is_enough cfg.max_lines (suc p) ≡ false
      → main_loop is_not_exist cfg p (line_received l ∷ rest) ≡ (
        output_of cfg l ++ (main_loop is_not_exist cfg (suc p) rest).0,
        (main_loop is_not_exist cfg (suc p) rest).1,
      )
  unfolding main_loop
  goes_on p l rest e = rw (e, main_loop) refl

  prints_from :
      (p : ℕ) (inputs : List Received)
      → is_enough cfg.max_lines p ≡ false
      → (main_loop is_not_exist cfg p inputs).0
        ≡ outputs cfg (within_limit cfg.max_lines p (lines_before_end inputs))
  unfolding main_loop
  prints_from p [] h = nothing_within cfg cfg.max_lines p
  prints_from p (errors_closed ∷ rest) h = nothing_within cfg cfg.max_lines p
  prints_from p (lines_closed ∷ rest) h = nothing_within cfg cfg.max_lines p
  prints_from p (error_received e ∷ rest) h = nothing_within cfg cfg.max_lines p
  prints_from p (line_received l ∷ rest) h = elim (Bool-cases (is_enough cfg.max_lines (suc p))) [
    | inl e ↦
        ap (λ x. x.0) (stops_here p l rest e)
        ∙ sym (append-nil (output_of cfg l))
        ∙ sym (ap (outputs cfg) (last_within cfg.max_lines p l (lines_before_end rest) h e))
    | inr e ↦
        ap (λ x. x.0) (goes_on p l rest e)
        ∙ ap (λ x. output_of cfg l ++ x) (prints_from (suc p) rest e)
        ∙ sym (ap (outputs cfg) (more_within cfg.max_lines p l (lines_before_end rest) e))
  ]

  -- The command prints, in order and each with a newline, the lines that it receives before an
  -- error or the closing of a channel: their escaped newlines and tabs decoded, or unchanged where
  -- the flag for decoding is off; with a limit of `suc m` lines the first `suc m` of them and no
  -- more. With the flag no-output it prints nothing.
  pub main_loop_prints :
      (inputs : List Received)
      → (main_loop is_not_exist cfg 0 inputs).0
        ≡ printed cfg.no_output cfg.decode_escaped_seqs
            (within_limit cfg.max_lines 0 (lines_before_end inputs))
  main_loop_prints inputs =
      prints_from 0 inputs (none_yet cfg.max_lines)
      ∙ outputs-printed cfg cfg.no_output cfg.decode_escaped_seqs refl refl _

  ends_by_limit :
      (m p : ℕ) (inputs : List Received)
      → cfg.max_lines ≡ pos (suc m)
      → p < suc m
      → ((main_loop is_not_exist cfg p inputs).1 ≡ limit_reached (suc m))
        ↔ (suc m ≤ p + length (lines_before_end inputs))
  unfolding main_loop is_enough
  ends_by_limit m p [] k h = ((λ e. cc), (λ l. absurd (omega arith)))
  ends_by_limit m p (errors_closed ∷ rest) k h = ((λ e. cc), (λ l. absurd (omega arith)))
  ends_by_limit m p (lines_closed ∷ rest) k h = ((λ e. cc), (λ l. absurd (omega arith)))
  ends_by_limit m p (error_received e ∷ rest) k h = ((λ e. cc), (λ l. absurd (omega arith)))
  ends_by_limit m p (line_received l ∷ rest) k h =
      elim (Bool-cases (is_enough cfg.max_lines (suc p))) [
        | inl e ↦
            let full : leb (suc m) (suc p) ≡ true = ap (λ x. is_enough x (suc p)) (sym k) ∙ e in
            let same : suc p ≡ suc m = ground arith in
            (
              (λ _. omega arith),
              (λ _. ap (λ x. x.1) (stops_here p l rest e) ∙ ap limit_reached same),
            )
        | inr e ↦
            let room : leb (suc m) (suc p) ≡ false = ap (λ x. is_enough x (suc p)) (sym k) ∙ e in
            let below : suc p < suc m = ground arith in
            let (forth, back) = ends_by_limit m (suc p) rest k below in
            let steps = ap (λ x. x.1) (goes_on p l rest e) in
            ((λ q. omega (arith, forth (sym steps ∙ q))), (λ q. steps ∙ back (omega arith)))
      ]

  -- With a limit of `suc m` lines the command closes the tailer and ends by that limit exactly if it
  -- receives as many lines before an error or the closing of a channel.
  pub main_loop_reaches_iff :
      (m : ℕ) (inputs : List Received)
      → cfg.max_lines ≡ pos (suc m)
      → ((main_loop is_not_exist cfg 0 inputs).1 ≡ limit_reached (suc m))
        ↔ (suc m ≤ length (lines_before_end inputs))
  main_loop_reaches_iff m inputs k =
      let (forth, back) = ends_by_limit m 0 inputs k (omega arith) in
      ((λ e. omega (arith, forth e)), (λ l. back (omega arith)))
