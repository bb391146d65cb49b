-- ===== src/FileTailer/Session/Dirs.antt =====
-- What uniqueDirs returns.
use go_libtail.Prelude.{
  ℕ, zero, suc, ◌≡◌, refl, sym, ap, ◌∙◌, subst, true, false, Bool-cases, inl, inr, none, some,
  Option-cases, List, [], ◌∷◌, ◌++◌, arith, get_elem?, if◌then◌else◌,
}
use mathlib.Core.Bool.{true≢false}
use go_libtail.Prelude.In.{In}
use go_libtail.Errors.{Text}
use go_libtail.Glob.{dir}
use go_libtail.FileTailer.Session.{
  System, Stated, stated, no_such, stat_failed, text_eq, contains_string, check_dir, unique_dirs,
  unique_dirs_from,
}
use go_libtail.FileTailer.Session.Contains.{
  text_eq_self, text_eq-same, contains-last, contains-more, not-contains-last, contains_string-In,
  In-contains_string,
}

-- No two are the same, as containsString tells.
abbrev NoneTwice : List Text → Type 0
NoneTwice [] = Unit
NoneTwice (d ∷ ds) = (contains_string ds d ≡ false) × NoneTwice ds

abbrev AreDirs : System → List Text → Type 0
AreDirs w [] = Unit
AreDirs w (d ∷ ds) = (w.stat d ≡ stated true) × AreDirs w ds

AreDirs-append :
    (w : System) (ds : List Text) (d : Text)
    → AreDirs w ds
    → w.stat d ≡ stated true
    → AreDirs w (ds ++ d ∷ [])
AreDirs-append w [] d h k = (k, tt)
AreDirs-append w (x ∷ ds) d h k = (h.0, AreDirs-append w ds d h.1 k)

NoneTwice-append :
    (ds : List Text) (d : Text)
    → NoneTwice ds
    → contains_string ds d ≡ false
    → NoneTwice (ds ++ d ∷ [])
unfolding contains_string
NoneTwice-append [] d h k = (refl, tt)
NoneTwice-append (x ∷ ds) d h k = elim (Bool-cases (text_eq x d)) [
  | inl e ↦ absurd (true≢false (sym (ap (λ b. if b then true else contains_string ds d) e) ∙ k))
  | inr e ↦
      let other : text_eq d x ≡ false = different x d e in
      (
        not-contains-last ds x d h.0 other,
        NoneTwice-append ds d h.1 (sym (ap (λ b. if b then true else contains_string ds d) e) ∙ k),
      )
]
  where
    different : (x d : Text) → text_eq x d ≡ false → text_eq d x ≡ false
    different x d e = elim (Bool-cases (text_eq d x)) [
      | inl same ↦ absurd (
          true≢false
            (sym (ap (λ y. text_eq y d) (sym (text_eq-same d x same)) ∙ text_eq_self d) ∙ e))
      | inr other ↦ other
    ]

check_dir-stated : (s : Stated) (d : Text) → check_dir s d ≡ none → s ≡ stated true
unfolding check_dir
check_dir-stated no_such d h = cc
check_dir-stated (stat_failed cause) d h = cc
check_dir-stated (stated true) d h = refl
check_dir-stated (stated false) d h = cc

-- `ds` goes on from `result` with the directories of `globs`.
record Holds (w : System) (result globs ds : List Text) : Type 0 where
  keeps : (d : Text) → contains_string result d ≡ true → contains_string ds d ≡ true
  covers : (i : ℕ) (g : Text) → get_elem? globs i ≡ some g → contains_string ds (dir g) ≡ true
  no_repeat : NoneTwice ds
  are_dirs : AreDirs w ds

covers_head :
    (g : Text) (globs ds : List Text)
    → ((i : ℕ) (k : Text) → get_elem? globs i ≡ some k → contains_string ds (dir k) ≡ true)
    → contains_string ds (dir g) ≡ true
    → (i : ℕ) (k : Text) → get_elem? (g ∷ globs) i ≡ some k
    → contains_string ds (dir k) ≡ true
covers_head g globs ds later now zero k at =
    let same : g ≡ k = cc in subst (λ k. contains_string ds (dir k) ≡ true) same now
covers_head g globs ds later now (suc i) k at = later i k at

Holds-from :
    (w : System) (result globs ds : List Text)
    → NoneTwice result
    → AreDirs w result
    → unique_dirs_from w result globs ≡ inr ds
    → Holds w result globs ds
unfolding unique_dirs_from
Holds-from w result [] ds single dirs h =
    let same : result ≡ ds = cc in
    record {
      keeps = λ d k. subst (λ l. contains_string l d ≡ true) same k;
      covers = λ i g at. cc;
      no_repeat = subst NoneTwice same single;
      are_dirs = subst (AreDirs w) same dirs;
    }
Holds-from w result (g ∷ globs) ds single dirs h =
    elim (Bool-cases (contains_string result (dir g))) [
      | inl there ↦ with_head (Holds-from w result globs ds single dirs (ground arith)) there
      | inr absent ↦ elim (Option-cases (check_dir (w.stat (dir g)) (dir g))) [
        | inl fine ↦ after_new (
            Holds-from w (result ++ dir g ∷ []) globs ds
              (NoneTwice-append result (dir g) single absent)
              (AreDirs-append w result (dir g) dirs (check_dir-stated _ (dir g) fine))
              (ground arith))
        | inr (e, bad) ↦ absurd (ground arith)
      ]
    ]
  where
    with_head :
        Holds w result globs ds
        → contains_string result (dir g) ≡ true
        → Holds w result (g ∷ globs) ds
    with_head c there = record {
      keeps = c.keeps;
      covers = covers_head g globs ds c.covers (c.keeps (dir g) there);
      no_repeat = c.no_repeat;
      are_dirs = c.are_dirs;
    }

    after_new : Holds w (result ++ dir g ∷ []) globs ds → Holds w result (g ∷ globs) ds
    after_new c = record {
      keeps = λ d k. c.keeps d (contains-more result d (dir g) k);
      covers = covers_head g globs ds c.covers (c.keeps (dir g) (contains-last result (dir g)));
      no_repeat = c.no_repeat;
      are_dirs = c.are_dirs;
    }

-- No two are the same.
abbrev pub NoRepeat : List Text → Type 0
NoRepeat [] = Unit
NoRepeat (d ∷ ds) = (¬ In d ds) × NoRepeat ds

NoneTwice-NoRepeat : (ds : List Text) → NoneTwice ds → NoRepeat ds
NoneTwice-NoRepeat [] h = tt
NoneTwice-NoRepeat (d ∷ ds) h =
    (λ there. true≢false (sym (In-contains_string ds d there) ∙ h.0), NoneTwice-NoRepeat ds h.1)

-- `ds` has the directories of `globs`, once each.
pub record Covers (w : System) (globs ds : List Text) : Type 0 where
  pub covers : (i : ℕ) (g : Text) → get_elem? globs i ≡ some g → In (dir g) ds
  pub no_repeat : NoRepeat ds
  pub are_dirs : (d : Text) → In d ds → w.stat d ≡ stated true

AreDirs-In :
    (w : System) (ds : List Text) → AreDirs w ds → (d : Text) → In d ds → w.stat d ≡ stated true
AreDirs-In w [] h d there = elim there [ ]
AreDirs-In w (x ∷ ds) h d (inl same) = subst (λ y. w.stat y ≡ stated true) (sym same) h.0
AreDirs-In w (x ∷ ds) h d (inr there) = AreDirs-In w ds h.1 d there

-- Where uniqueDirs returns no error, its result has the directory of every glob, has none twice,
-- and all that it has are directories that exist.
pub unique_dirs-Covers :
    (w : System) (globs ds : List Text) → unique_dirs w globs ≡ inr ds → Covers w globs ds
unfolding unique_dirs
unique_dirs-Covers w globs ds h =
    let held = Holds-from w [] globs ds tt tt h in
    record {
      covers = λ i g at. contains_string-In ds (dir g) (held.covers i g at);
      no_repeat = NoneTwice-NoRepeat ds held.no_repeat;
      are_dirs = AreDirs-In w ds held.are_dirs;
    }
