-- ===== src/FileTailer/Linux/Events/Padded.antt =====
-- The loop over the bytes of a read, on names filled up the way the kernel fills them up.
use go_libtail.Prelude.{
  ℕ, zero, suc, ◌+◌, ◌-◌, ◌%◌, ◌^◌, ◌≤◌, ◌<◌, ◌≡◌, ◌↔◌, refl, sym, ap, subst, ◌∙◌, inl, inr, false,
  true, List, [], ◌∷◌, ◌++◌, arith, length, drop, ltb, leb, lt→ltb, le→ltb, Bool-cases, drop_prefix,
  if◌then◌else◌, ◌==◌,
}
use go_libtail.Prelude.In.{In}
use go_libtail.Bufio.{Bytes}
use go_libtail.FileTailer.Linux.{has_flag, in_ignored}
use go_libtail.FileTailer.Linux.Events.{event_size, name_max, word, panics, events_from}
use go_libtail.FileTailer.Linux.Events.Decode.{
  Written, IsWritten, HasNoNul, name_length, encode, encode_all, size_all, front, moves_on,
  word-bytes4,
}

-- What the kernel writes: a name of a file, or none, ended by at least one zero and filled up with
-- zeros to a multiple of 16 bytes; and no IN_IGNORED.
pub record IsPadded (e : Written) : Type 0 where
  pub wd_fits : e.event.wd < 2 ^ 32
  pub mask_fits : e.event.mask < 2 ^ 32
  pub is_name : length e.event.name ≤ name_max
  pub no_nul : HasNoNul e.event.name
  pub padded : e.padding ≡ (if length e.event.name == 0 then 0 else 16 - length e.event.name % 16)
  pub not_ignored : has_flag e.event.mask in_ignored ≡ false

abbrev pub ArePadded : List Written → Type 0
ArePadded [] = Unit
ArePadded (e ∷ es) = IsPadded e × ArePadded es

-- One of the events has a name of 240 bytes or more.
abbrev pub HasLongName : List Written → Type 0
HasLongName es = (e : Written) × In e es × (240 ≤ length e.event.name)

short_fits : (n p : ℕ) → n < 240 → p ≡ (if n == 0 then 0 else 16 - n % 16) → n + p ≤ name_max
short_fits n p h e = ground arith

long_exceeds :
    (n p : ℕ) → 240 ≤ n → n ≤ name_max → p ≡ (if n == 0 then 0 else 16 - n % 16) → n + p ≡ 256
long_exceeds n p h l e = ground arith

short-IsWritten : (e : Written) → IsPadded e → length e.event.name < 240 → IsWritten e
short-IsWritten e h short = record {
  wd_fits = h.wd_fits;
  mask_fits = h.mask_fits;
  name_fits = short_fits (length e.event.name) e.padding short h.padded;
  no_nul = h.no_nul;
  not_ignored = h.not_ignored;
}

-- At an event with a long name.
panics_here :
    (e : Written) (es : List Written) (fuel : ℕ) (pre behind : Bytes)
    → name_length e ≡ 256
    → events_from
        (suc fuel)
        (length pre + size_all (e ∷ es))
        (pre ++ encode_all (e ∷ es) behind)
        (length pre)
      ≡ ([], panics)
unfolding events_from size_all
panics_here e es fuel pre behind long =
    let n = length pre + (event_size + name_length e + size_all es) in
    let buf = pre ++ encode e (encode_all es behind) in
    let more : ltb (length pre) n ≡ true = lt→ltb (length pre) n (omega arith) in
    let whole : ltb (n - length pre) event_size ≡ false =
      le→ltb event_size (n - length pre) (omega arith) in
    let at : drop (length pre) buf ≡ encode e (encode_all es behind) =
      drop_prefix (length pre) pre _ refl in
    let size : word (drop 12 (drop (length pre) buf)) ≡ name_length e =
      ap (λ t. word (drop 12 t)) at ∙ word-bytes4 (name_length e) [] (omega (arith, long)) in
    let room : ltb name_max (word (drop 12 (drop (length pre) buf))) ≡ true =
      ap (ltb name_max) (size ∙ long) in
    rw (more, events_from) (rw whole (rw room refl))

panics_from :
    (es : List Written) (fuel : ℕ) (pre behind : Bytes)
    → ArePadded es
    → length es < fuel
    → ((events_from fuel (length pre + size_all es) (pre ++ encode_all es behind) (length pre)).1
        ≡ panics)
      ↔ HasLongName es
unfolding events_from size_all
panics_from es zero pre behind h enough = absurd (omega arith)
panics_from [] (suc fuel) pre behind h enough =
    rw (le→ltb (length pre + 0) (length pre) (omega arith), events_from)
      ((λ e. absurd (cc)), (λ l. absurd l.1))
panics_from (e ∷ es) (suc fuel) pre behind h enough =
    elim (Bool-cases (leb 240 (length e.event.name))) [
      | inl long ↦
          let at_least : 240 ≤ length e.event.name = ground arith in
          let size = long_exceeds (length e.event.name) e.padding at_least h.0.is_name h.0.padded in
          (
            (λ _. (e, inl refl, at_least)),
            (λ _. ap (λ x. x.1) (panics_here e es fuel pre behind size)),
          )
      | inr short ↦
          let below : length e.event.name < 240 = ground arith in
          let step = ap (λ x. x.1) (moves_on e es fuel pre behind (short-IsWritten e h.0 below)) in
          let (forth, back) = panics_from es fuel (pre ++ front e) behind h.1 (omega arith) in
          (
            (λ q. let (x, m, l) = forth (sym step ∙ q) in (x, inr m, l)),
            (λ l. step ∙ back (later l below)),
          )
    ]
  where
    later : HasLongName (e ∷ es) → length e.event.name < 240 → HasLongName es
    later (x, inl same, l) below =
        let long : 240 ≤ length e.event.name = subst (λ y. 240 ≤ length y.event.name) same l in
        absurd (omega arith)
    later (x, inr m, l) below = (x, m, l)

-- The loop over the events that the kernel wrote into the first bytes of the buffer, none of them
-- IN_IGNORED, panics exactly if one of them has a name of 240 bytes or more, wherever it stands,
-- although names may have 255: its filled name does not fit into NAME_MAX bytes. The fuel is more
-- than the events.
pub events_from_panics_iff :
    (es : List Written) (fuel : ℕ) (behind : Bytes)
    → ArePadded es
    → length es < fuel
    → ((events_from fuel (size_all es) (encode_all es behind) 0).1 ≡ panics) ↔ HasLongName es
events_from_panics_iff es fuel behind h enough =
    subst (λ n. ((events_from fuel n (encode_all es behind) 0).1 ≡ panics) ↔ HasLongName es)
      (zero_add (size_all es)) (panics_from es fuel [] behind h enough)
  where
    zero_add : (n : ℕ) → 0 + n ≡ n
    zero_add n = omega arith
