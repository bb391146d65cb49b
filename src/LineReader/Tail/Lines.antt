-- ===== src/LineReader/Tail/Lines.antt =====
-- The stream of a file written line by line.
use go_libtail.Prelude.{
  ℕ, ◌≤◌, ◌<◌, ◌≡◌, ap, ◌∙◌, none, List, [], ◌∷◌, ◌++◌, map, length, append_assoc, Bool, false,
  ◌==◌,
}
use go_libtail.Bufio.{Bytes, index_byte}
use go_libtail.LineReader.{newline}
use go_libtail.LineReader.Spec.{line, fresh_stream, scan, next, scan_line, scan_wait}
use go_libtail.LineReader.Tail.{Delivers, waits, delivers}

-- Each line with its newline.
unfoldable pub unlines : List Bytes → Bytes
unlines [] = []
unlines (l ∷ ls) = l ++ newline ∷ unlines ls

-- Whether this is the last byte.
abbrev pub ends_in : ℕ → Bytes → Bool
ends_in c [] = false
ends_in c (x ∷ []) = x == c
ends_in c (x ∷ y ∷ s) = ends_in c (y ∷ s)

-- Lines that hold no newline, and with their newline keep to the limit.
abbrev pub Fit : ℕ → List Bytes → Type 0
Fit max [] = Unit
Fit max (l ∷ ls) = (index_byte newline l ≡ none) × (length l < max) × Fit max ls

pub Delivers-unlines :
    (max : ℕ) (ls : List Bytes) (last : Bytes)
    → Fit max ls
    → index_byte newline last ≡ none
    → length last ≤ max
    → Delivers max (fresh_stream (unlines ls ++ last)) (map line ls) (fresh_stream last)
unfolding unlines next
Delivers-unlines max [] last fit clear short = waits (scan_wait max last clear short)
Delivers-unlines max (l ∷ ls) last fit clear short =
    delivers (fresh_stream (unlines ls ++ last))
      (ap (scan max) (append_assoc l (newline ∷ unlines ls) last)
        ∙ scan_line max l (unlines ls ++ last) fit.0 fit.1)
      (Delivers-unlines max ls last fit.2 clear short)
