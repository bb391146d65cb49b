-- ===== src/FileTailer/Linux/Events/Decode.antt =====
-- The loop over the bytes of a read, on bytes in the format of inotify.
use go_libtail.Prelude.{
  ℕ, zero, suc, ◌+◌, ◌-◌, ◌/◌, ◌%◌, ◌^◌, ◌≤◌, ◌<◌, ◌≡◌, ◌≢◌, refl, sym, ap, ap₂, ◌∙◌, true, false,
  List, [], ◌∷◌, ◌++◌, map, arith, length, take, drop, replicate, ltb, lt→ltb, le→ltb, append_assoc,
  length-append, take_prefix, drop_prefix,
}
use go_libtail.Bufio.{Bytes}
use go_libtail.Errors.{Text}
use go_libtail.FileTailer.Linux.{Event, has_flag, in_ignored}
use go_libtail.FileTailer.Linux.Events.{
  event_size, name_max, word, trim_right_nul, reads_again, event_at, and_then, events_from,
}

-- What inotify writes for an event: the name is filled up with zeros.
pub record Written : Type 0 where
  pub event : Event
  pub cookie : ℕ
  pub padding : ℕ

abbrev pub bytes4 : ℕ → Bytes → Bytes
bytes4 n s = n % 256 ∷ n / 256 % 256 ∷ n / 65536 % 256 ∷ n / 16777216 ∷ s

abbrev pub encode : Written → Bytes → Bytes
encode e s = bytes4 e.event.wd (
    bytes4 e.event.mask (
      bytes4 e.cookie
        (bytes4 (length e.event.name + e.padding) (e.event.name ++ (replicate e.padding 0 ++ s)))))

abbrev pub encode_all : List Written → Bytes → Bytes
encode_all [] s = s
encode_all (e ∷ es) s = encode e (encode_all es s)

abbrev pub HasNoNul : Text → Type 0
HasNoNul [] = Unit
HasNoNul (c ∷ s) = (c ≢ 0) × HasNoNul s

-- What the kernel keeps to, with a name that the code has room for.
pub record IsWritten (e : Written) : Type 0 where
  pub wd_fits : e.event.wd < 2 ^ 32
  pub mask_fits : e.event.mask < 2 ^ 32
  pub name_fits : length e.event.name + e.padding ≤ name_max
  pub no_nul : HasNoNul e.event.name
  pub not_ignored : has_flag e.event.mask in_ignored ≡ false

abbrev pub AreWritten : List Written → Type 0
AreWritten [] = Unit
AreWritten (e ∷ es) = IsWritten e × AreWritten es

pub word-bytes4 : (n : ℕ) (s : Bytes) → n < 2 ^ 32 → word (bytes4 n s) ≡ n
unfolding word
word-bytes4 n s h = omega arith

trim-zeros : (n : ℕ) → trim_right_nul (replicate n 0) ≡ []
unfolding trim_right_nul
trim-zeros zero = refl
trim-zeros (suc n) = rw (trim-zeros n) refl

trim-name : (s : Text) (n : ℕ) → HasNoNul s → trim_right_nul (s ++ replicate n 0) ≡ s
unfolding trim_right_nul
trim-name [] n h = trim-zeros n
trim-name (zero ∷ s) n h = absurd (h.0 refl)
trim-name (suc c ∷ s) n h = ap (◌∷◌ (suc c)) (trim-name s n h.1)

abbrev zeros : ℕ → Bytes
zeros n = replicate n 0

length-zeros : (n : ℕ) → length (zeros n) ≡ n
length-zeros zero = refl
length-zeros (suc n) = ap suc (length-zeros n)

abbrev pub name_length : Written → ℕ
name_length e = length e.event.name + e.padding

-- The bytes of an event alone.
abbrev pub front : Written → Bytes
front e = bytes4 e.event.wd (
    bytes4 e.event.mask
      (bytes4 e.cookie (bytes4 (name_length e) (e.event.name ++ zeros e.padding))))

encode-front : (e : Written) (s : Bytes) → encode e s ≡ front e ++ s
encode-front e s =
    ap (λ t. bytes4 e.event.wd (bytes4 e.event.mask (bytes4 e.cookie (bytes4 (name_length e) t))))
      (sym (append_assoc e.event.name (zeros e.padding) s))

length-front : (e : Written) → length (front e) ≡ event_size + name_length e
length-front e = omega (arith, length-append e.event.name (zeros e.padding), length-zeros e.padding)

name_length-encode :
    (e : Written) (s : Bytes) → IsWritten e → word (drop 12 (encode e s)) ≡ name_length e
name_length-encode e s h =
    word-bytes4 (name_length e) (e.event.name ++ (zeros e.padding ++ s))
      (omega (arith, h.name_fits))

event_at-encode : (e : Written) (s : Bytes) → IsWritten e → event_at (encode e s) ≡ e.event
unfolding event_at
event_at-encode e s h =
    ap₂ (λ wd (rest : ℕ × Text). record { wd = wd; mask = rest.0; name = rest.1 })
      (word-bytes4 e.event.wd [] h.wd_fits)
      (ap₂ (λ mask name. (mask, name)) (word-bytes4 e.event.mask [] h.mask_fits) name_is)
  where
    tail : Bytes
    tail = e.event.name ++ (zeros e.padding ++ s)

    name_is : trim_right_nul (take (word (drop 12 (encode e s))) tail) ≡ e.event.name
    name_is =
        ap (λ k. trim_right_nul (take k tail)) (name_length-encode e s h)
        ∙ ap (λ t. trim_right_nul (take (name_length e) t))
            (sym (append_assoc e.event.name (zeros e.padding) s))
        ∙ ap trim_right_nul (
            take_prefix (name_length e) (e.event.name ++ zeros e.padding) s
              (omega (arith, length-append e.event.name (zeros e.padding), length-zeros e.padding)))
        ∙ trim-name e.event.name e.padding h.no_nul

-- One turn of the loop.
events_from-step :
    (fuel n : ℕ) (buf : Bytes) (offset : ℕ) (e : Written) (s : Bytes)
    → IsWritten e
    → offset + event_size ≤ n
    → drop offset buf ≡ encode e s
    → events_from (suc fuel) n buf offset
      ≡ and_then e.event (events_from fuel n buf (offset + (event_size + name_length e)))
unfolding events_from
events_from-step fuel n buf offset e s h inside at =
    let size : word (drop 12 (drop offset buf)) ≡ name_length e =
      ap (λ t. word (drop 12 t)) at ∙ name_length-encode e s h in
    let found : event_at (drop offset buf) ≡ e.event = ap event_at at ∙ event_at-encode e s h in
    let more : ltb offset n ≡ true = lt→ltb offset n (omega arith) in
    let whole : ltb (n - offset) event_size ≡ false =
      le→ltb event_size (n - offset) (omega arith) in
    let room : ltb name_max (word (drop 12 (drop offset buf))) ≡ false =
      ap (ltb name_max) size ∙ le→ltb (name_length e) name_max h.name_fits in
    let plain : has_flag (event_at (drop offset buf)).mask in_ignored ≡ false =
      ap (λ v. has_flag v.mask in_ignored) found ∙ h.not_ignored in
    rw (more, events_from)
      (rw whole (
        rw room (
          rw plain (
            ap₂ (λ v k. and_then v (events_from fuel n buf (offset + (event_size + k)))) found
              size))))

unfoldable pub size_all : List Written → ℕ
size_all [] = 0
size_all (e ∷ es) = event_size + name_length e + size_all es

-- One turn, seen from the rest of the bytes.
pub moves_on :
    (e : Written) (es : List Written) (fuel : ℕ) (pre behind : Bytes)
    → IsWritten e
    → events_from
        (suc fuel)
        (length pre + size_all (e ∷ es))
        (pre ++ encode_all (e ∷ es) behind)
        (length pre)
      ≡ and_then e.event (
          events_from fuel
            (length (pre ++ front e) + size_all es)
            ((pre ++ front e) ++ encode_all es behind)
            (length (pre ++ front e)))
unfolding size_all
moves_on e es fuel pre behind h =
    events_from-step fuel _ (pre ++ encode e (encode_all es behind)) (length pre) e
      (encode_all es behind) h (omega arith) (drop_prefix (length pre) pre _ refl)
    ∙ ap (and_then e.event) (
        ap
          (λ n.
            events_from fuel n (pre ++ encode e (encode_all es behind))
              (length pre + (event_size + name_length e)))
          (omega (arith, length-append pre (front e), length-front e))
        ∙ ap
            (λ offset.
              events_from fuel (length (pre ++ front e) + size_all es)
                (pre ++ encode e (encode_all es behind)) offset)
            (omega (arith, length-append pre (front e), length-front e))
        ∙ ap
            (λ buf.
              events_from fuel (length (pre ++ front e) + size_all es) buf
                (length (pre ++ front e)))
            (ap (λ t. pre ++ t) (encode-front e (encode_all es behind))
              ∙ sym (append_assoc pre (front e) (encode_all es behind))))

decode-from :
    (es : List Written) (fuel : ℕ) (pre behind : Bytes)
    → AreWritten es
    → length es < fuel
    → events_from fuel (length pre + size_all es) (pre ++ encode_all es behind) (length pre)
      ≡ (map (λ e. e.event) es, reads_again)
unfolding events_from size_all
decode-from es zero pre behind h enough = absurd (omega arith)
decode-from [] (suc fuel) pre behind h enough =
    rw (le→ltb (length pre + 0) (length pre) (omega arith), events_from) refl
decode-from (e ∷ es) (suc fuel) pre behind h enough =
    moves_on e es fuel pre behind h.0
    ∙ ap (and_then e.event) (decode-from es fuel (pre ++ front e) behind h.1 (omega arith))

-- The events that inotify wrote into the first bytes of the buffer, none of them IN_IGNORED and
-- each with its name filled up to at most NAME_MAX bytes, are the events sent, in order and
-- with their names less the filling; then the loop reads on. The fuel is more than the events.
pub events_from-encode_all :
    (es : List Written) (fuel : ℕ) (behind : Bytes)
    → AreWritten es
    → length es < fuel
    → events_from fuel (size_all es) (encode_all es behind) 0 ≡ (map (λ e. e.event) es, reads_again)
events_from-encode_all es fuel behind h enough =
    ap (λ n. events_from fuel n (encode_all es behind) 0) (zero_add (size_all es))
    ∙ decode-from es fuel [] behind h enough
  where
    zero_add : (n : ℕ) → n ≡ 0 + n
    zero_add n = omega arith
