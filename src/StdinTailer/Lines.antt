-- ===== src/StdinTailer/Lines.antt =====
-- Which lines of standard input are sent.
use go_libtail.Prelude.{
  ℕ, zero, suc, ◌<◌, ◌≡◌, refl, ap, ap₂, ◌∙◌, false, none, some, List, [], ◌∷◌, ◌++◌, map, length,
  append_assoc, take, drop_past, arith, replicate, ◌||◌, ◌==◌,
}
use go_libtail.Bufio.{Bytes, index_byte}
use go_libtail.Bufio.Index.{index_byte-append_self, index_byte-append_none, index_byte-cons_none}
use go_libtail.Errors.{Text, new_error, not_specified}
use go_libtail.FileTailer.{Line}
use go_libtail.LineReader.{newline}
use go_libtail.LineReader.Tail.Lines.{unlines, ends_in}
use go_libtail.StdinTailer.{trim_right_crlf, read_string, sent_first, tail_stdin}

-- A line as it is written: so many carriage returns stand in front of its newline.
pub record TypedLine : Type 0 where
  pub content : Bytes
  pub returns : ℕ

-- All of it but the newline.
abbrev pub raw : TypedLine → Bytes
raw l = l.content ++ replicate l.returns b'\r'

-- The content has no newline in it, and no carriage return at its end.
abbrev pub AreTyped : List TypedLine → Type 0
AreTyped [] = Unit
AreTyped (l ∷ ls) =
    (index_byte newline l.content ≡ none) × (ends_in b'\r' l.content ≡ false) × AreTyped ls

-- The line as it is sent.
abbrev pub stdin_line : TypedLine → Line
stdin_line l = record { line = l.content; file = []; truncated = false }

trim-returns : (k : ℕ) → trim_right_crlf (replicate k b'\r') ≡ []
unfolding trim_right_crlf
trim-returns zero = refl
trim-returns (suc k) = rw (trim-returns k) refl

trim-raw :
    (s : Bytes) (k : ℕ)
    → index_byte newline s ≡ none
    → ends_in b'\r' s ≡ false
    → trim_right_crlf (s ++ replicate k b'\r') ≡ s
unfolding trim_right_crlf
trim-raw [] k clear h = trim-returns k
trim-raw (c ∷ []) k clear h =
    let kept : (c == b'\r' || c == b'\n') ≡ false = ground arith in
    rw (trim-returns k) (rw kept refl)
trim-raw (c ∷ d ∷ s) k clear h =
    let rest = trim-raw (d ∷ s) k (index_byte-cons_none newline c (d ∷ s) clear).1 h in rw rest refl

clear-returns : (k : ℕ) → index_byte newline (replicate k b'\r') ≡ none
clear-returns zero = refl
clear-returns (suc k) = rw (clear-returns k) refl

trim-newline : (l : Bytes) → trim_right_crlf (l ++ newline ∷ []) ≡ trim_right_crlf l
unfolding trim_right_crlf
trim-newline [] = refl
trim-newline (c ∷ l) = rw (trim-newline l) refl

through : (l rest : Bytes) → take (suc (length l)) (l ++ newline ∷ rest) ≡ l ++ newline ∷ []
through [] rest = refl
through (c ∷ l) rest = ap (◌∷◌ c) (through l rest)

reads_line :
    (l rest : Bytes)
    → index_byte newline l ≡ none
    → read_string newline (l ++ newline ∷ rest) ≡ some (l ++ newline ∷ [], rest)
unfolding read_string
reads_line l rest clear =
    rw (index_byte-append_self newline l rest clear, read_string)
      (ap₂ (λ a b. some (a, b)) (through l rest) (drop_past l newline rest))

none_read : (s : Bytes) → index_byte newline s ≡ none → read_string newline s ≡ none
unfolding read_string
none_read s e = rw (e, read_string) refl

sends_line :
    (n : ℕ) (cause : Text) (l : TypedLine) (rest : Bytes)
    → index_byte newline l.content ≡ none
    → ends_in b'\r' l.content ≡ false
    → tail_stdin (suc n) cause (raw l ++ newline ∷ rest)
      ≡ sent_first (stdin_line l) (tail_stdin n cause rest)
unfolding tail_stdin
sends_line n cause l rest clear ends =
    let whole =
      index_byte-append_none newline l.content (replicate l.returns b'\r') clear
        (clear-returns l.returns) in
    rw (reads_line (raw l) rest whole, tail_stdin)
      (rw (trim-newline (raw l)) (rw (trim-raw l.content l.returns clear ends) refl))

-- Every line of standard input that ends in a newline is sent, in order and without its newline
-- and the carriage returns in front of it, however many; then the error of the reader is sent, the
-- end of the input included. What follows the last newline is not sent. The fuel is more than the
-- number of lines.
pub tail_stdin-unlines :
    (n : ℕ) (cause : Text) (ls : List TypedLine) (last : Bytes)
    → AreTyped ls
    → index_byte newline last ≡ none
    → length ls < n
    → tail_stdin n cause (unlines (map raw ls) ++ last)
      ≡ some (map stdin_line ls, new_error not_specified (some cause) [])
unfolding tail_stdin unlines
tail_stdin-unlines zero cause ls last clear end h = absurd (omega arith)
tail_stdin-unlines (suc n) cause [] last clear end h = rw (none_read last end, tail_stdin) refl
tail_stdin-unlines (suc n) cause (l ∷ ls) last clear end h =
    ap (tail_stdin (suc n) cause) (append_assoc (raw l) (newline ∷ unlines (map raw ls)) last)
    ∙ sends_line n cause l (unlines (map raw ls) ++ last) clear.0 clear.1
    ∙ ap (sent_first (stdin_line l)) (tail_stdin-unlines n cause ls last clear.2 end (omega arith))
