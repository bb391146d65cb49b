-- ===== src/FileTailer/Windows/Dirs.antt =====
-- Which directory dirAndFile finds.
use go_libtail.Prelude.{
  ℕ, ◌≤◌, ◌≡◌, ◌↔◌, refl, sym, subst, ◌⊎◌, inl, inr, Bool, true, false, Bool-cases, Option, none,
  some, List, [], ◌∷◌, length, drop, ltb, ltb→lt, arith,
}
use go_libtail.Prelude.In.{In}
use go_libtail.Errors.{Text}
use go_libtail.FileTailer.Session.{Dir, Session, System}
use go_libtail.FileTailer.Windows.{
  has_prefix, is_longer, longest, dir_and_file, trim_separators, WinEvent, process_win_event,
  process_in_win_dir,
}

-- The directory is at least as long as every one of the list whose path the name starts with.
abbrev pub IsLongest : List Dir → Text → ℕ → Type 0
IsLongest dirs name n = (d : Dir) → In d dirs → has_prefix name d.path ≡ true → length d.path ≤ n

abbrev FoundIn : List Dir → Text → Option Dir → Option Dir → Type 0
FoundIn dirs name before none =
    (before ≡ none) × ((d : Dir) → In d dirs → has_prefix name d.path ≡ false)
FoundIn dirs name before (some d) =
    ((before ≡ some d) ⊎ (In d dirs × (has_prefix name d.path ≡ true)))
    × IsLongest dirs name (length d.path)
    × ((b : Dir) → before ≡ some b → length b.path ≤ length d.path)

-- The directory is taken, being longer than the one before.
taken :
    (d : Dir) (dirs : List Dir) (name : Text) (before o : Option Dir)
    → has_prefix name d.path ≡ true
    → ((b : Dir) → before ≡ some b → length b.path ≤ length d.path)
    → FoundIn dirs name (some d) o
    → FoundIn (d ∷ dirs) name before o
taken d dirs name before none fits shorter h = absurd (cc (h.0))
taken d dirs name before (some r) fits shorter (from, most, old) = (
  inr (elim from [
    | inl e ↦
        let same : d ≡ r = cc in
        (inl (sym same), subst (λ x. has_prefix name x.path ≡ true) same fits)
    | inr (m, p) ↦ (inr m, p)
  ]),
  λ x m p. elim m [ inl e ↦ rw e (old d refl) | inr k ↦ most x k p ],
  λ b e. omega (arith, shorter b e, old d refl),
)

-- The directory is passed over: it does not fit, or is no longer than the one before.
passed :
    (d : Dir) (dirs : List Dir) (name : Text) (before o : Option Dir)
    → (has_prefix name d.path ≡ true
        → (b : Dir) × (before ≡ some b) × (length d.path ≤ length b.path))
    → FoundIn dirs name before o
    → FoundIn (d ∷ dirs) name before o
passed d dirs name before none why (none_before, none_fits) = (
  none_before,
  λ x m. elim m [
    | inr k ↦ none_fits x k
    | inl e ↦ elim (Bool-cases (has_prefix name d.path)) [
      | inr other ↦ rw e other
      | inl fits ↦ let (b, has, le) = why fits in absurd (cc)
    ]
  ],
)
passed d dirs name before (some r) why (from, most, old) = (
  elim from [ inl e ↦ inl e | inr (m, p) ↦ inr (inr m, p) ],
  λ x m p. elim m [
    | inr k ↦ most x k p
    | inl e ↦ let (b, has, le) = why (rw (← e) p) in rw e (omega (arith, old b has))
  ],
  old,
)

longest-FoundIn :
    (dirs : List Dir) (name : Text) (before : Option Dir)
    → FoundIn dirs name before (longest dirs name before)
unfolding longest is_longer
longest-FoundIn [] name none = (refl, (λ d m. absurd m))
longest-FoundIn [] name (some b) =
    (inl refl, (λ d m p. absurd m), (λ c e. let same : b ≡ c = cc in rw same (omega arith)))
longest-FoundIn (d ∷ dirs) name before = elim (Bool-cases (has_prefix name d.path)) [
  | inr other ↦
      rw other
        (passed d dirs name before _ (λ fits. absurd (cc)) (longest-FoundIn dirs name before))
  | inl fits ↦ by_length before fits (λ o. longest-FoundIn dirs name o)
]
  where
    by_length :
        (before : Option Dir)
        → has_prefix name d.path ≡ true
        → ((o : Option Dir) → FoundIn dirs name o (longest dirs name o))
        → FoundIn (d ∷ dirs) name before (longest (d ∷ dirs) name before)
    by_length none fits ih =
        rw fits (taken d dirs name none _ fits (λ b e. absurd (cc)) (ih (some d)))
    by_length (some b) fits ih = elim (Bool-cases (ltb (length b.path) (length d.path))) [
      | inl more ↦ rw fits (
          rw more (
            taken d dirs name (some b) _ fits
              (λ c e. let same : b ≡ c = cc in rw (← same) (omega (arith, ltb→lt _ _ more)))
              (ih (some d))))
      | inr less ↦ rw fits (
          rw less (
            passed d dirs name (some b) _
              (λ f. (b, refl, not_lt (length b.path) (length d.path) less)) (ih (some b))))
    ]
      where
        not_lt : (x y : ℕ) → ltb x y ≡ false → y ≤ x
        not_lt x y h = ground arith

-- The directory that dirAndFile finds is one of the list, the event's path starts with its path,
-- and no other such directory of the list has a longer one.
pub dir_and_file-IsLongest :
    (dirs : List Dir) (name : Text) (d : Dir) (file : Text)
    → dir_and_file dirs name ≡ some (d, file)
    → In d dirs × (has_prefix name d.path ≡ true) × IsLongest dirs name (length d.path)
unfolding dir_and_file
dir_and_file-IsLongest dirs name d file h =
    by_found (longest dirs name none) refl (longest-FoundIn dirs name none)
  where
    by_found :
        (o : Option Dir)
        → longest dirs name none ≡ o
        → FoundIn dirs name none o
        → In d dirs × (has_prefix name d.path ≡ true) × IsLongest dirs name (length d.path)
    by_found none e k =
        let gone : dir_and_file dirs name ≡ none = rw (e, dir_and_file) refl in absurd (cc)
    by_found (some r) e (from, most, old) =
        let found : dir_and_file dirs name ≡ some (r, trim_separators (drop (length r.path) name)) =
          rw (e, dir_and_file) refl in
        let same : r ≡ d = cc in
        elim from [
          | inl none_is ↦ absurd (cc)
          | inr (m, p) ↦
              subst
                (λ x.
                  In x dirs × (has_prefix name x.path ≡ true) × IsLongest dirs name (length x.path))
                same (m, p, most)
        ]

-- processEvent panics exactly if the path of the event starts with the path of no watched directory.
pub process_win_event_panics_iff :
    (join : Text → Text → Text) (dir : Text → Text) (matches : Text → Text → Bool)
    (accepts : ℕ → Bool) (w : System) (t : Session) (e : WinEvent)
    → (process_win_event join dir matches accepts w t e ≡ none)
      ↔ ((d : Dir) → In d t.watched_dirs → has_prefix e.name d.path ≡ false)
unfolding process_win_event dir_and_file
process_win_event_panics_iff join dir matches accepts w t e =
    by_found (longest t.watched_dirs e.name none) refl (longest-FoundIn t.watched_dirs e.name none)
  where
    by_found :
        (o : Option Dir)
        → longest t.watched_dirs e.name none ≡ o
        → FoundIn t.watched_dirs e.name none o
        → (process_win_event join dir matches accepts w t e ≡ none)
          ↔ ((d : Dir) → In d t.watched_dirs → has_prefix e.name d.path ≡ false)
    by_found none q k = ((λ h. k.1), (λ h. rw (q, process_win_event) refl))
    by_found (some r) q (from, most, old) = (
      λ h.
          let runs : process_win_event join dir matches accepts w t e
              ≡ some (
                  process_in_win_dir join dir matches accepts w t r
                    (trim_separators (drop (length r.path) e.name)) e) =
            rw (q, process_win_event) refl in
          absurd (cc),
      λ h. elim from [ inl none_is ↦ absurd (cc) | inr (m, p) ↦ let other = h r m in absurd (cc) ],
    )
