-- ===== src/LineReader/Tail.antt =====
-- All that a stream delivers, item by item, until it waits for more bytes: how a file that
-- grows piece by piece is read.
pub mod Lines
pub mod Shrinks
use go_libtail.Prelude.{
  ℕ, zero, suc, ◌+◌, ◌-◌, ◌≤◌, ◌<◌, ◌≡◌, refl, sym, subst, ap, ap₂, ◌∙◌, Bool, true, false, inl,
  inr, Option, none, some, List, [], ◌∷◌, ◌++◌, map, arith, length, take, drop, leb, ltb, le→ltb,
  lt→ltb, leb→le, if◌then◌else◌, append-nil, append_assoc, length-append, length-take, length-drop,
  length-drop, take_all, take-append-drop, take-append_le, drop-append_le, Bool-cases, Option-cases,
}
use go_libtail.Bufio.{Bytes, index_byte}
use go_libtail.Bufio.Index.{index_byte-IsFirst, index_byte-append_some}
use go_libtail.LineReader.{newline}
use go_libtail.LineReader.Spec.{
  Item, line, too_long, Stream, fresh_stream, skip_stream, scan, skip, next, scan_line, scan_cut,
  scan_wait, skip_found, skip_more, skip-none, skip_at,
}

pub data Delivers (max : ℕ) : Stream → List Item → Stream → Type 0 where
  waits : {s t : Stream} → next max s ≡ (none, t) → Delivers max s [] t
  delivers :
      {s : Stream} {i : Item} {is : List Item} (t : Stream) {u : Stream}
      → next max s ≡ (some i, t)
      → Delivers max t is u
      → Delivers max s (i ∷ is) u

-- More bytes behind those of a stream.
abbrev pub grow : Stream → Bytes → Stream
grow s more = record s { bytes = s.bytes ++ more }

-- How a scan of `s` ends.
pub data Scanned (max : ℕ) (s : Bytes) : Type 0 where
  whole :
      (body rest : Bytes)
      → s ≡ body ++ newline ∷ rest
      → index_byte newline body ≡ none
      → length body < max
      → Scanned max s
  cut : index_byte newline (take max s) ≡ none → max < length s → Scanned max s
  unfinished : index_byte newline s ≡ none → length s ≤ max → Scanned max s

pub scan-Scanned : (max : ℕ) (s : Bytes) → Scanned max s
scan-Scanned max s = elim (Option-cases (index_byte newline (take max s))) [
  | inl absent ↦ elim (Bool-cases (ltb max (length s))) [
    | inl long ↦ cut absent (ground arith)
    | inr short ↦
        unfinished (subst (λ k. index_byte newline k ≡ none) (take_all max s (ground arith)) absent)
          (ground arith)
  ]
  | inr (i, e) ↦
      let first = index_byte-IsFirst newline (take max s) i e in
      whole (take i (take max s)) (drop (suc i) (take max s) ++ drop max s)
        (sym (take-append-drop max s)
          ∙ ap (λ k. k ++ drop max s) first.splits
          ∙ append_assoc (take i (take max s)) (newline ∷ drop (suc i) (take max s)) (drop max s))
        first.clear (omega (arith, first.within, length-take max s, length-take i (take max s)))
]

-- A pair that a scan is known to give, in place of another.
same_outcome :
    (f : Option Item × Stream → Option Item × Stream) {o p q : Option Item × Stream}
    → q ≡ o
    → q ≡ p
    → (a : Option Item × Stream) → a ≡ f p
    → a ≡ f o
same_outcome f x y a h = h ∙ ap f (sym y ∙ x)

module _ (max : ℕ) (more : Bytes) where
  abbrev grown : Option Item × Stream → Option Item × Stream
  grown o = (o.0, grow o.1 more)

  -- An item that is there stays the next one when bytes are added.
  scan-grow :
      (s : Bytes) (i : Item) (t : Stream)
      → scan max s ≡ (some i, t)
      → scan max (s ++ more) ≡ (some i, grow t more)
  scan-grow s i t e = by_case (scan-Scanned max s)
    where
      by_case : Scanned max s → scan max (s ++ more) ≡ (some i, grow t more)
      by_case (whole body rest is clear short) =
          same_outcome grown e (ap (scan max) is ∙ scan_line max body rest clear short) _ (
            ap (λ k. scan max (k ++ more)) is
            ∙ ap (scan max) (append_assoc body (newline ∷ rest) more)
            ∙ scan_line max body (rest ++ more) clear short)
      by_case (cut clear long) =
          let front = take-append_le max s more (omega arith) in
          same_outcome grown e (scan_cut max s clear long) _ (
            scan_cut max (s ++ more) (ap (index_byte newline) front ∙ clear)
              (omega (arith, length-append s more))
            ∙ ap₂ (λ k l. (some (too_long k), skip_stream l)) front
                (drop-append_le max s more (omega arith)))
      by_case (unfinished clear short) = cc (scan_wait max s clear short)

  scan_grow_wait : (s : Bytes) (t : Stream) → scan max s ≡ (none, t) → t ≡ fresh_stream s
  scan_grow_wait s t e = by_case (scan-Scanned max s)
    where
      by_case : Scanned max s → t ≡ fresh_stream s
      by_case (whole body rest is clear short) =
          cc (ap (scan max) is ∙ scan_line max body rest clear short)
      by_case (cut clear long) = cc (scan_cut max s clear long)
      by_case (unfinished clear short) = cc (scan_wait max s clear short)

  skip-grow :
      (s : Bytes) (i : Item) (t : Stream)
      → skip max s ≡ (some i, t)
      → skip max (s ++ more) ≡ (some i, grow t more)
  skip-grow s i t e = elim (Option-cases (index_byte newline s)) [
    | inl absent ↦ cc (skip-none max s absent)
    | inr (k, found) ↦
        let rest = drop (suc k) s in
        let first = index_byte-IsFirst newline s k found in
        ap (λ u. skip max (u ++ more)) first.splits
        ∙ ap (skip max) (append_assoc (take k s) (newline ∷ rest) more)
        ∙ skip_found max (take k s) (rest ++ more) first.clear
        ∙ scan-grow rest i t
            (sym (ap (skip max) first.splits ∙ skip_found max (take k s) rest first.clear) ∙ e)
  ]

  -- Bytes added to a stream that waits come to the same as bytes added to what it keeps.
  skip-grow_wait :
      (s : Bytes) (t : Stream)
      → skip max s ≡ (none, t)
      → skip max (s ++ more) ≡ next max (grow t more)
  unfolding skip next
  skip-grow_wait s t e = elim (Option-cases (index_byte newline s)) [
    | inl absent ↦
        let kept : t ≡ skip_stream [] = cc (skip-none max s absent) in
        skip_more max s more absent ∙ sym (ap (λ u. next max (grow u more)) kept)
    | inr (k, found) ↦
        let rest = drop (suc k) s in
        let first = index_byte-IsFirst newline s k found in
        let waiting =
          sym (ap (skip max) first.splits ∙ skip_found max (take k s) rest first.clear) ∙ e in
        ap (λ u. skip max (u ++ more)) first.splits
        ∙ ap (skip max) (append_assoc (take k s) (newline ∷ rest) more)
        ∙ skip_found max (take k s) (rest ++ more) first.clear
        ∙ sym (ap (λ u. next max (grow u more)) (scan_grow_wait rest t waiting))
  ]

  next-grow :
      (s : Stream) (i : Item) (t : Stream)
      → next max s ≡ (some i, t)
      → next max (grow s more) ≡ (some i, grow t more)
  unfolding next
  next-grow s i t e = by_mode s.skipping s.bytes e
    where
      by_mode :
          (k : Bool) (u : Bytes)
          → (if k then skip max u else scan max u) ≡ (some i, t)
          → (if k then skip max (u ++ more) else scan max (u ++ more)) ≡ (some i, grow t more)
      by_mode true u h = skip-grow u i t h
      by_mode false u h = scan-grow u i t h

  next-grow_wait :
      (s t : Stream) → next max s ≡ (none, t) → next max (grow s more) ≡ next max (grow t more)
  unfolding next
  next-grow_wait s t e = by_mode s.skipping s.bytes e
    where
      by_mode :
          (k : Bool) (u : Bytes)
          → (if k then skip max u else scan max u) ≡ (none, t)
          → (if k then skip max (u ++ more) else scan max (u ++ more)) ≡ next max (grow t more)
      by_mode true u h = skip-grow_wait u t h
      by_mode false u h = sym (ap (λ v. next max (grow v more)) (scan_grow_wait u t h))

Delivers-next :
    {max : ℕ} {s t : Stream} {is : List Item} (r : Stream)
    → next max r ≡ next max s
    → Delivers max s is t
    → Delivers max r is t
Delivers-next r e (waits h) = waits (e ∙ h)
Delivers-next r e (delivers t h d) = delivers t (e ∙ h) d

-- Bytes that arrive later: what is delivered before them and after them is what the whole
-- would have delivered at once.
pub Delivers-grow :
    {max : ℕ} {s t u : Stream} {is js : List Item} (more : Bytes)
    → Delivers max s is t
    → Delivers max (grow t more) js u
    → Delivers max (grow s more) (is ++ js) u
Delivers-grow {s = s} {t = t} more (waits h) later =
    Delivers-next (grow s more) (next-grow_wait _ more s t h) later
Delivers-grow {s = s} more (delivers {i = i} v h d) later =
    delivers (grow v more) (next-grow _ more s i v h) (Delivers-grow more d later)

-- The items and what is left are determined by the stream.
pub Delivers-unique :
    {max : ℕ} {s t u : Stream} {is js : List Item}
    → Delivers max s is t
    → Delivers max s js u
    → (is ≡ js) × (t ≡ u)
Delivers-unique (waits h) (waits k) = (refl, cc)
Delivers-unique (waits h) (delivers v k d) = cc
Delivers-unique (delivers v h d) (waits k) = cc
Delivers-unique {max} {u = u} (delivers v h d) (delivers {is = ks} w k e) =
    let same : v ≡ w = cc in
    let (rest, left) = Delivers-unique d (subst (λ x. Delivers max x ks u) (sym same) e) in
    (cc, left)
