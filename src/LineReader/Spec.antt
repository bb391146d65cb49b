-- ===== src/LineReader/Spec.antt =====
-- What the line reader promises, in terms of the bytes still to be delivered: independent of
-- the buffers, of the read size, and of how the bytes arrived.
use go_libtail.Prelude.{
  ℕ, suc, ◌≤◌, ◌<◌, ◌≡◌, refl, inl, inr, sym, ap, ◌∙◌, append_assoc, Option-cases, Bool, true,
  false, Option, none, some, [], ◌∷◌, ◌++◌, arith, length, take, drop, ltb, lt→ltb, if◌then◌else◌,
  take_all, take_past, take_before, drop_past,
}
use go_libtail.Bufio.{Bytes, index_byte}
use go_libtail.Bufio.Index.{index_byte-append_self, index_byte-append_none, index_byte-IsFirst}
use go_libtail.LineReader.{newline}

-- A whole line without its newline, or the front of one that is longer than the limit.
pub data Item : Type 0 where
  line : Bytes → Item
  too_long : Bytes → Item

-- `skipping`: the rest of an oversized line is still to be dropped.
pub record Stream : Type 0 where
  pub skipping : Bool
  pub bytes : Bytes

abbrev pub fresh_stream : Bytes → Stream
fresh_stream s = record { skipping = false; bytes = s }

abbrev pub skip_stream : Bytes → Stream
skip_stream s = record { skipping = true; bytes = s }

-- The next line of `s`: it ends at a newline among the first `max` bytes, or is cut there, or
-- is not complete yet.
unfoldable pub scan : ℕ → Bytes → Option Item × Stream
scan max s = elim (index_byte newline (take max s)) [
  | some i ↦ (some (line (take i s)), fresh_stream (drop (suc i) s))
  | none ↦
      if ltb max (length s)
      then (some (too_long (take max s)), skip_stream (drop max s))
      else (none, fresh_stream s)
]

unfoldable pub skip : ℕ → Bytes → Option Item × Stream
unfolding scan
skip max s = elim (index_byte newline s) [
  | some i ↦ scan max (drop (suc i) s)
  | none ↦ (none, skip_stream [])
]

unfoldable pub next : ℕ → Stream → Option Item × Stream
unfolding skip
next max s = if s.skipping then skip max s.bytes else scan max s.bytes

module _ (max : ℕ) where
  pub scan_line :
      (body rest : Bytes)
      → index_byte newline body ≡ none
      → length body < max
      → scan max (body ++ newline ∷ rest) ≡ (some (line body), fresh_stream rest)
  unfolding scan
  scan_line body rest clear short = rw (
    take_past max body newline rest short,
    index_byte-append_self newline body _ clear,
    take_before body (newline ∷ rest),
    drop_past body newline rest,
    scan,
  )

  pub scan_cut :
      (s : Bytes)
      → index_byte newline (take max s) ≡ none
      → max < length s
      → scan max s ≡ (some (too_long (take max s)), skip_stream (drop max s))
  unfolding scan
  scan_cut s clear long = rw (clear, scan) (rw (lt→ltb _ _ long))

  pub scan_wait :
      (s : Bytes)
      → index_byte newline s ≡ none
      → length s ≤ max
      → scan max s ≡ (none, fresh_stream s)
  unfolding scan
  scan_wait s clear short = rw (take_all max s short, clear, scan) (ground arith)

  pub skip_found :
      (body rest : Bytes)
      → index_byte newline body ≡ none
      → skip max (body ++ newline ∷ rest) ≡ scan max rest
  unfolding skip
  skip_found body rest clear =
      rw (index_byte-append_self newline body rest clear, drop_past body newline rest, skip)

  pub skip-none : (s : Bytes) → index_byte newline s ≡ none → skip max s ≡ (none, skip_stream [])
  unfolding skip
  skip-none s clear = rw (clear, skip)

  pub skip_at :
      (c s : Bytes) (i : ℕ)
      → index_byte newline c ≡ none
      → index_byte newline s ≡ some i
      → skip max (c ++ s) ≡ scan max (drop (suc i) s)
  skip_at c s i clear e =
      let first = index_byte-IsFirst newline s i e in
      ap (λ k. skip max (c ++ k)) first.splits
      ∙ ap (skip max) (sym (append_assoc c (take i s) (newline ∷ drop (suc i) s)))
      ∙ skip_found (c ++ take i s) (drop (suc i) s)
          (index_byte-append_none newline c (take i s) clear first.clear)

  -- Bytes with no newline make no difference to what is skipped to.
  pub skip_more : (c s : Bytes) → index_byte newline c ≡ none → skip max (c ++ s) ≡ skip max s
  skip_more c s clear = elim (Option-cases (index_byte newline s)) [
    | inl absent ↦
        skip-none (c ++ s) (index_byte-append_none newline c s clear absent)
        ∙ sym (skip-none s absent)
    | inr (i, e) ↦ skip_at c s i clear e ∙ sym (skip_at [] s i refl e)
  ]
