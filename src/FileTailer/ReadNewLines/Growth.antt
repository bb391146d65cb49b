-- ===== src/FileTailer/ReadNewLines/Growth.antt =====
-- readNewLines on a file that grows between two calls.
use go_libtail.Prelude.{
  ℕ, ◌+◌, ◌<◌, ◌≡◌, refl, sym, ap, ap₂, ◌∙◌, Bool, true, some, List, [], ◌∷◌, ◌++◌, arith, length,
  if◌then◌else◌, length-append, append_assoc,
}
use go_libtail.Bufio.{Bytes, File}
use go_libtail.Errors.{Text}
use go_libtail.LineReader.{LineReader, held}
use go_libtail.LineReader.Spec.{Item}
use go_libtail.LineReader.Tail.{grow, Delivers-grow, Delivers-unique}
use go_libtail.LineReader.Tail.Shrinks.{Delivers-shorter}
use go_libtail.LineReader.Idle.{IsIdle, idle_view, idle_ready}
use go_libtail.FileTailer.ReadNewLines.{Output, read_new_lines}
use go_libtail.FileTailer.ReadNewLines.Delivery.{report, reports, Delivered}
use go_libtail.FileTailer.ReadNewLines.Complete.{Completes, read_new_lines_complete}

reports-append :
    (name : Text) (is js : List Item) → reports name (is ++ js) ≡ reports name is ++ reports name js
reports-append name [] js = refl
reports-append name (i ∷ is) js =
    ap (◌++◌ (report name i)) (reports-append name is js)
    ∙ sym (append_assoc (report name i) (reports name is) (reports name js))

regroup : (a o u more : Bytes) → a ++ (o ++ (u ++ more)) ≡ (a ++ (o ++ u)) ++ more
regroup a o u more = ap (◌++◌ a) (sym (append_assoc o u more)) ∙ sym (append_assoc a (o ++ u) more)

abbrev front : LineReader → Bytes
front r = if r.discarding_too_long_line then [] else held r

-- More bytes in the file are more bytes in the stream.
idle_view-grow :
    (r : LineReader) (f : File) (more : Bytes)
    → idle_view r (record f { unread = f.unread ++ more }) ≡ grow (idle_view r f) more
idle_view-grow r f more =
    ap (λ k. record { skipping = r.discarding_too_long_line; bytes = k })
      (regroup (front r) r.overflow f.unread more)

-- Where all of `f` is read, any file with `more` unread goes on behind it.
idle_view_on :
    (r : LineReader) (f g : File) (more : Bytes)
    → f.unread ≡ []
    → g.unread ≡ more
    → idle_view r g ≡ grow (idle_view r f) more
idle_view_on r f g more all_read e =
    ap (λ k. record { skipping = r.discarding_too_long_line; bytes = front r ++ (r.overflow ++ k) })
      (e ∙ ap (λ u. u ++ more) (sym all_read))
    ∙ idle_view-grow r f more

module _ (name cause : Text) (accepts : ℕ → Bool) (takes_all : (k : ℕ) → accepts k ≡ true) (max : ℕ)
    (positive : 0 < max) where
  abbrev Continues : ℕ → ℕ → ℕ → LineReader → File → File → Bytes → Output → Type 0
  Continues n j l r f g more first =
      (second whole : Output) × (read_new_lines name cause accepts n j first.reader g ≡ some second)
      × (read_new_lines name cause accepts n l r (record f { unread = f.unread ++ more })
          ≡ some whole)
      × (first.sent ++ second.sent ≡ whole.sent)
      × (idle_view second.reader second.file ≡ idle_view whole.reader whole.file)

  continues :
      (n j l : ℕ) (r : LineReader) (f g : File) (more : Bytes) (first : Output)
      → IsIdle max r
      → g.unread ≡ more
      → length (idle_view r f).bytes + length more + 1 < n
      → Delivered name cause max f (idle_view r f) first
      → Continues n j l r f g more first
  continues n j l r f g more first idle unread enough d =
      join
        (read_new_lines_complete name cause accepts takes_all max positive n j first.reader g
          (grow d.rest more)
          (idle_ready d.idle (
            idle_view_on first.reader first.file g more d.all_read unread
            ∙ ap (λ s. grow s more) d.viewed))
          (omega
            (arith, Delivers-shorter positive d.all_delivered, length-append d.rest.bytes more)))
        (read_new_lines_complete name cause accepts takes_all max positive n l r
          (record f { unread = f.unread ++ more }) (grow (idle_view r f) more)
          (idle_ready idle (idle_view-grow r f more))
          (omega (arith, length-append (idle_view r f).bytes more)))
    where
      join :
          Completes name cause max g
            (grow d.rest more)
            (read_new_lines name cause accepts n j first.reader g)
          → Completes name cause max
              (record f { unread = f.unread ++ more })
              (grow (idle_view r f) more)
              (read_new_lines name cause accepts n l r (record f { unread = f.unread ++ more }))
          → Continues n j l r f g more first
      join (second, run, d') (whole, run', d'') =
          let (items, rests) =
            Delivers-unique (Delivers-grow more d.all_delivered d'.all_delivered)
              d''.all_delivered in
          (
            second,
            whole,
            run,
            run',
            ap₂ ◌++◌ d.sent_is d'.sent_is
                ∙ sym (reports-append name d.items d'.items)
                ∙ ap (reports name) items
                ∙ sym d''.sent_is,
            d'.viewed ∙ rests ∙ sym d''.viewed,
          )

  -- A file that grows is read as if it had been complete. An idle reader that reads `f` to its
  -- end, and then a file value `g` in which `more` bytes are unread (the same file, or the same
  -- content under another descriptor), sends in the two calls together exactly the lines that
  -- one call sends for the bytes of `f` with `more` behind them, and keeps the same rest. The
  -- consumer takes every line, the limit is not zero, and there is fuel for all the bytes.
  pub read_new_lines-append :
      (n k j l : ℕ) (r : LineReader) (f g : File) (more : Bytes)
      → IsIdle max r
      → g.unread ≡ more
      → length (idle_view r f).bytes + length more + 1 < n
      → (first : Output) × (read_new_lines name cause accepts n k r f ≡ some first)
        × ((second whole : Output) × (read_new_lines name cause accepts n j first.reader g
              ≡ some second)
            × (read_new_lines name cause accepts n l r (record f { unread = f.unread ++ more })
                ≡ some whole)
            × (first.sent ++ second.sent ≡ whole.sent)
            × (idle_view second.reader second.file ≡ idle_view whole.reader whole.file))
  read_new_lines-append n k j l r f g more idle unread enough =
      let (first, run, d) =
        read_new_lines_complete name cause accepts takes_all max positive n k r f (idle_view r f)
          (idle_ready idle refl) (omega arith) in
      (first, run, continues n j l r f g more first idle unread enough d)
