-- ===== src/FileTailer/ReadNewLines/Lines.antt =====
-- readNewLines on a file that was written line by line.
use go_libtail.Prelude.{
  ℕ, ◌+◌, ◌≤◌, ◌<◌, ◌≡◌, refl, ap, ap₂, ◌∙◌, ◌⊎◌, inl, inr, Bool, true, false, none, some, List, [],
  ◌∷◌, ◌++◌, append-nil, map, length, if◌then◌else◌,
}
use go_libtail.Bufio.{Bytes, File, index_byte}
use go_libtail.Errors.{Text}
use go_libtail.LineReader.{LineReader, newline, strip_windows_line_ending}
use go_libtail.LineReader.Spec.{line, fresh_stream}
use go_libtail.LineReader.Tail.{Delivers-unique}
use go_libtail.LineReader.Tail.Lines.{unlines, ends_in, Fit, Delivers-unlines}
use go_libtail.LineReader.Idle.{IsIdle, idle_view, idle_ready}
use go_libtail.FileTailer.{Line}
use go_libtail.FileTailer.ReadNewLines.{Output, read_new_lines}
use go_libtail.FileTailer.ReadNewLines.Delivery.{reports}
use go_libtail.FileTailer.ReadNewLines.Complete.{read_new_lines_complete}

-- A line as a program writes it: in front of its newline, or of a carriage return and a newline.
pub record WrittenLine : Type 0 where
  pub content : Bytes
  pub returns : Bool

-- All of it but the newline.
abbrev pub raw : WrittenLine → Bytes
raw l = l.content ++ (if l.returns then b'\r' ∷ [] else [])

-- Where the newline stands alone, the content does not end in a carriage return.
abbrev pub AreWritten : List WrittenLine → Type 0
AreWritten [] = Unit
AreWritten (l ∷ ls) = ((l.returns ≡ true) ⊎ (ends_in b'\r' l.content ≡ false)) × AreWritten ls

-- The line as it is sent.
abbrev pub sent_line : Text → WrittenLine → Line
sent_line name l = record { line = l.content; file = name; truncated = false }

strip-return : (s : Bytes) → strip_windows_line_ending (s ++ b'\r' ∷ []) ≡ s
unfolding strip_windows_line_ending
strip-return [] = refl
strip-return (c ∷ []) = refl
strip-return (c ∷ d ∷ s) = ap (◌∷◌ c) (strip-return (d ∷ s))

strip-other : (s : Bytes) → ends_in b'\r' s ≡ false → strip_windows_line_ending s ≡ s
unfolding strip_windows_line_ending
strip-other [] h = refl
strip-other (c ∷ []) h = rw (h, strip_windows_line_ending) refl
strip-other (c ∷ d ∷ s) h = ap (◌∷◌ c) (strip-other (d ∷ s) h)

strip-raw :
    (s : Bytes) (returns : Bool)
    → (returns ≡ true) ⊎ (ends_in b'\r' s ≡ false)
    → strip_windows_line_ending (s ++ (if returns then b'\r' ∷ [] else [])) ≡ s
strip-raw s true h = strip-return s
strip-raw s false (inl e) = absurd (cc)
strip-raw s false (inr other) = ap strip_windows_line_ending (append-nil s) ∙ strip-other s other

reports-lines :
    (name : Text) (ls : List WrittenLine)
    → AreWritten ls
    → reports name (map line (map raw ls)) ≡ map (sent_line name) ls
reports-lines name [] h = refl
reports-lines name (l ∷ ls) h =
    ap₂ (λ s rest. record { line = s; file = name; truncated = false } ∷ rest)
      (strip-raw l.content l.returns h.0) (reports-lines name ls h.1)

module _ (name cause : Text) (accepts : ℕ → Bool) (takes_all : (k : ℕ) → accepts k ≡ true) (max : ℕ)
    (positive : 0 < max) where
  -- An idle reader that holds nothing reads a file of lines, each shorter than the limit and
  -- written with a newline or with a carriage return and a newline behind it, and an unfinished
  -- line no longer than the limit: readNewLines sends each line once, in order, whole and without
  -- what was written behind it, and keeps the unfinished line for the next call. The consumer
  -- takes every line, the limit is not zero, and the fuel is more than the bytes plus one.
  pub read_new_lines-unlines :
      (n k : ℕ) (r : LineReader) (f : File) (ls : List WrittenLine) (last : Bytes)
      → IsIdle max r
      → idle_view r f ≡ fresh_stream (unlines (map raw ls) ++ last)
      → Fit max (map raw ls)
      → AreWritten ls
      → index_byte newline last ≡ none
      → length last ≤ max
      → length (unlines (map raw ls) ++ last) + 1 < n
      → (out : Output) × (read_new_lines name cause accepts n k r f ≡ some out)
        × (out.sent ≡ map (sent_line name) ls)
        × (idle_view out.reader out.file ≡ fresh_stream last)
  read_new_lines-unlines n k r f ls last idle viewed fit written clear short enough =
      let (out, run, d) =
        read_new_lines_complete name cause accepts takes_all max positive n k r f _
          (idle_ready idle viewed) enough in
      let (items, rest) =
        Delivers-unique d.all_delivered (Delivers-unlines max (map raw ls) last fit clear short) in
      (
        out,
        run,
        d.sent_is ∙ ap (reports name) items ∙ reports-lines name ls written,
        d.viewed ∙ rest,
      )
