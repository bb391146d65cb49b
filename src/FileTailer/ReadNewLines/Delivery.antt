-- ===== src/FileTailer/ReadNewLines/Delivery.antt =====
-- What a call of readNewLines is to send, and the turns of its loop.
use go_libtail.Prelude.{
  ℕ, suc, ◌≡◌, refl, sym, subst, Bool, true, false, Option, none, some, List, [], ◌∷◌, ◌++◌, arith,
  if◌then◌else◌,
}
use mathlib.Core.Option
use go_libtail.Bufio.{File}
use go_libtail.Errors.{Text, text, Error, new_error, not_specified}
use go_libtail.LineReader.{LineReader, Reply, strip_windows_line_ending, line_too_long}
use go_libtail.LineReader.ReadLine.{read_line}
use go_libtail.LineReader.Spec.{Item, line, too_long, Stream}
use go_libtail.LineReader.Tail.{Delivers}
use go_libtail.LineReader.Refine.{end_reply, Agrees}
use go_libtail.LineReader.Idle.{IsIdle, idle_view}
use go_libtail.FileTailer.{Line}
use go_libtail.FileTailer.ReadNewLines.{
  send, pass, stop, action, Output, stopped, sent_first, read_new_lines,
}

-- What is sent for an item: nothing for an oversized line of which nothing is left.
abbrev pub cut_report : Text → Text → List Line
cut_report name [] = []
cut_report name (c ∷ s) = (record { line = c ∷ s; file = name; truncated = true }) ∷ []

abbrev pub report : Text → Item → List Line
report name (line s) =
    (record { line = strip_windows_line_ending s; file = name; truncated = false }) ∷ []
report name (too_long s) = cut_report name (strip_windows_line_ending s)

abbrev pub reports : Text → List Item → List Line
reports name [] = []
reports name (i ∷ is) = report name i ++ reports name is

-- What the call returns at the end of the file.
abbrev pub end_result : Text → Text → File → Option Error
end_result name cause f =
    if f.failing
    then some (new_error not_specified (some cause) (name ++ text ": read() failed"))
    else none

-- The call sent the items of the stream `v`, read all of the file, and kept the stream `rest`.
pub record Delivered (name cause : Text) (max : ℕ) (f : File) (v : Stream) (out : Output)
    : Type 0 where
  pub items : List Item
  pub rest : Stream
  pub all_delivered : Delivers max v items rest
  pub sent_is : out.sent ≡ reports name items
  pub result_is : out.result ≡ end_result name cause f
  pub idle : IsIdle max out.reader
  pub viewed : idle_view out.reader out.file ≡ rest
  pub all_read : out.file.unread ≡ []
  pub id_kept : out.file.id ≡ f.id
  pub failing_kept : out.file.failing ≡ f.failing

module _ (name cause : Text) (accepts : ℕ → Bool) where
  pub read_new_lines_stop :
      (n k : ℕ) (r : LineReader) (f : File) (a : Reply) (r' : LineReader) (f' : File)
      (e : Option Error)
      → read_line (suc n) r f ≡ some (a, r', f')
      → action name cause a ≡ stop e
      → read_new_lines name cause accepts (suc n) k r f ≡ some (stopped e r' f')
  unfolding read_new_lines
  read_new_lines_stop n k r f a r' f' e h g = rw (h, read_new_lines) (rw g)

  pub read_new_lines_pass :
      (n k : ℕ) (r : LineReader) (f : File) (a : Reply) (r' : LineReader) (f' : File)
      → read_line (suc n) r f ≡ some (a, r', f')
      → action name cause a ≡ pass
      → read_new_lines name cause accepts (suc n) k r f
        ≡ read_new_lines name cause accepts n k r' f'
  unfolding read_new_lines
  read_new_lines_pass n k r f a r' f' h g = rw (h, read_new_lines) (rw g)

  pub read_new_lines_send :
      (n k : ℕ) (r : LineReader) (f : File) (a : Reply) (r' : LineReader) (f' : File) (l : Line)
      → read_line (suc n) r f ≡ some (a, r', f')
      → action name cause a ≡ send l
      → accepts k ≡ true
      → read_new_lines name cause accepts (suc n) k r f
        ≡ Option.map (sent_first l) (read_new_lines name cause accepts n (suc k) r' f')
  unfolding read_new_lines
  read_new_lines_send n k r f a r' f' l h g t = rw (h, read_new_lines) (rw g (rw t))

pub action_end :
    (name cause : Text) (f : File)
    → action name cause (end_reply f) ≡ stop (end_result name cause f)
unfolding action
action_end name cause f = ground arith

-- The action of a reply that agrees with an item.
pub data Acts (name cause : Text) (a : Reply) : List Line → Type 0 where
  passes : action name cause a ≡ pass → Acts name cause a []
  sends : (l : Line) → action name cause a ≡ send l → Acts name cause a (l ∷ [])

Acts-cut :
    (name cause : Text) (s : Text) (n max : ℕ)
    → Acts name cause
        (record { line = s; at_eof = false; err = some (line_too_long n max) })
        (cut_report name s)
unfolding action
Acts-cut name cause [] n max = passes refl
Acts-cut name cause (c ∷ s) n max = sends _ refl

pub Acts-item :
    (name cause : Text) (max : ℕ) (f : File) (i : Item) (a : Reply)
    → Agrees max f (some i) a
    → Acts name cause a (report name i)
unfolding action
Acts-item name cause max f (line s) a e =
    subst (λ a. Acts name cause a (report name (line s))) (sym e) (sends _ refl)
Acts-item name cause max f (too_long s) a (n, long, e) =
    subst (λ a. Acts name cause a (report name (too_long s))) (sym e)
      (Acts-cut name cause (strip_windows_line_ending s) n max)
