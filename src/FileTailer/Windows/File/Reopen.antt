-- ===== src/FileTailer/Windows/File/Reopen.antt =====
-- When a File can be opened again.
use go_libtail.Prelude.{
  ℕ, zero, suc, ◌≡◌, ◌≢◌, ◌↔◌, refl, sym, ◌∙◌, ◌⊎◌, inl, inr, false, none, [], ◌==◌, ==_iff,
  Bool-cases,
}
use go_libtail.Errors.{
  Text, Error, ErrorType, new_error, not_specified, file_not_found, directory_not_found,
  win_file_removed,
}
use go_libtail.FileTailer.Session.{
  Handle, System, Created, created, no_information, no_such_file, refused,
}
use go_libtail.FileTailer.Windows.File.{
  has_nul, give_up, attempts, open_with_backoff, if_same_index, reopen_failed, reopen,
}

-- The attempts from i on, so many of them, are refused up to one that succeeds with this index.
abbrev pub SucceedsWithin : System → Text → ℕ → ℕ → ℕ → Type 0
SucceedsWithin w path zero i index = ⊥
SucceedsWithin w path (suc left) i index = elim (w.create_file path i) [
  | created k ↦ k ≡ index
  | no_information cause ↦ ⊥
  | no_such_file cause ↦ SucceedsWithin w path left (suc i) index
  | refused cause ↦ SucceedsWithin w path left (suc i) index
]

attempts_iff :
    (w : System) (path : Text) (left i : ℕ) (last : Created) (index : ℕ)
    → (attempts w path left i last ≡ inr index) ↔ SucceedsWithin w path left i index
unfolding attempts
attempts_iff w path zero i last index = ((λ e. cc), (λ h. absurd h))
attempts_iff w path (suc left) i last index =
    by_answer (w.create_file path i) (λ c. attempts_iff w path left (suc i) c index)
  where
    by_answer :
        (c : Created)
        → ((l : Created)
            → (attempts w path left (suc i) l ≡ inr index)
              ↔ SucceedsWithin w path left (suc i) index)
        → ((elim c as (λ _. Error ⊎ ℕ) [
          | created k ↦ inr k
          | no_information cause ↦ inl (give_up path (no_information cause))
          | no_such_file cause ↦ attempts w path left (suc i) (no_such_file cause)
          | refused cause ↦ attempts w path left (suc i) (refused cause)
        ])
            ≡ inr index)
          ↔ (elim c as (λ _. Type 0) [
            | created k ↦ k ≡ index
            | no_information cause ↦ ⊥
            | no_such_file cause ↦ SucceedsWithin w path left (suc i) index
            | refused cause ↦ SucceedsWithin w path left (suc i) index
          ])
    by_answer (created k) ih = ((λ e. cc), (λ e. cc))
    by_answer (no_information cause) ih = ((λ e. absurd (cc)), (λ h. absurd h))
    by_answer (no_such_file cause) ih = ih (no_such_file cause)
    by_answer (refused cause) ih = ih (refused cause)

opens_iff :
    (w : System) (path : Text) (index : ℕ)
    → (open_with_backoff w path ≡ inr index)
      ↔ ((has_nul path ≡ false) × SucceedsWithin w path 3 1 index)
unfolding open_with_backoff
opens_iff w path index = elim (Bool-cases (has_nul path)) [
  | inl nul ↦ rw (nul, open_with_backoff) ((λ e. absurd (cc)), (λ h. absurd (cc)))
  | inr fine ↦
      rw (fine, open_with_backoff)
        (
          (λ e. (refl, (attempts_iff w path 3 1 (refused []) index).0 e)),
          (λ h. (attempts_iff w path 3 1 (refused []) index).1 h.1),
        )
]

same_index : (h : Handle) (index : ℕ) (r : Error ⊎ ℕ) → h.file ≡ index → if_same_index h index r ≡ r
unfolding if_same_index
same_index h index r e = rw ((==_iff h.file index).1 e, if_same_index) refl

index_is :
    (h : Handle) (index k : ℕ) (r : Error ⊎ ℕ)
    → if_same_index h index r ≡ inr k
    → (h.file ≡ index) × (r ≡ inr k)
unfolding if_same_index
index_is h index k r e = elim (Bool-cases (h.file == index)) [
  | inl same ↦ ((==_iff h.file index).0 same, sym (rw (same, if_same_index) refl) ∙ e)
  | inr other ↦
      let gone : if_same_index h index r ≡ inl (new_error win_file_removed none h.name) =
        rw (other, if_same_index) refl in
      absurd (cc)
]

not_reopened :
    (h : Handle) (e : Error) (k : ErrorType) (index : ℕ) → reopen_failed h e k ≢ inr index
unfolding reopen_failed
not_reopened h e file_not_found index q = cc
not_reopened h e not_specified index q = let (a, b) = index_is h 0 index (inl e) q in cc
not_reopened h e directory_not_found index q = let (a, b) = index_is h 0 index (inl e) q in cc
not_reopened h e win_file_removed index q = let (a, b) = index_is h 0 index (inl e) q in cc

-- A File is opened again exactly if its path has no NUL, one of three attempts opens a file there,
-- none before it having opened one of which no information can be had, and that file has the index
-- of the File.
pub reopen_iff :
    (w : System) (h : Handle) (index : ℕ)
    → (reopen w h ≡ inr index)
      ↔ ((index ≡ h.file) × (has_nul h.name ≡ false) × SucceedsWithin w h.name 3 1 index)
unfolding reopen
reopen_iff w h index = (
  λ e. forth (open_with_backoff w h.name) refl e,
  λ p.
      rw ((opens_iff w h.name index).1 (p.1, p.2), reopen)
        (same_index h index (inr index) (sym p.0)),
)
  where
    forth :
        (o : Error ⊎ ℕ)
        → open_with_backoff w h.name ≡ o
        → reopen w h ≡ inr index
        → (index ≡ h.file) × (has_nul h.name ≡ false) × SucceedsWithin w h.name 3 1 index
    forth (inl x) q e = absurd (not_reopened h x x.error_type index (sym (rw (q, reopen) refl) ∙ e))
    forth (inr k) q e =
        let (same, is) = index_is h k index (inr k) (sym (rw (q, reopen) refl) ∙ e) in
        let one : k ≡ index = cc in
        let (fine, success) = (opens_iff w h.name index).0 (q ∙ is) in
        (sym (same ∙ one), fine, success)

removed_if_other :
    (h : Handle) (index : ℕ) (r : Error ⊎ ℕ) (e : Error)
    → h.file ≢ index
    → if_same_index h index r ≡ inl e
    → e.error_type ≡ win_file_removed
unfolding if_same_index
removed_if_other h index r e ne q = elim (Bool-cases (h.file == index)) [
  | inl same ↦ absurd (ne ((==_iff h.file index).0 same))
  | inr other ↦ by_error (rw (other, if_same_index) at q)
]
  where
    by_error :
        (◌≡◌ {A = Error ⊎ ℕ} (inl (new_error win_file_removed none h.name)) (inl e))
        → e.error_type ≡ win_file_removed
    by_error q = cc

failed_is_removed :
    (h : Handle) (x : Error) (k : ErrorType) (e : Error)
    → h.file ≢ 0
    → reopen_failed h x k ≡ inl e
    → e.error_type ≡ win_file_removed
unfolding reopen_failed
failed_is_removed h x file_not_found e ne q = cc
failed_is_removed h x not_specified e ne q = removed_if_other h 0 (inl x) e ne q
failed_is_removed h x directory_not_found e ne q = removed_if_other h 0 (inl x) e ne q
failed_is_removed h x win_file_removed e ne q = removed_if_other h 0 (inl x) e ne q

-- Whatever keeps a File with an index that is not zero from being opened again is reported as the
-- removal of the file, also that another program has it locked.
pub reopen_removed :
    (w : System) (h : Handle) (e : Error)
    → h.file ≢ 0
    → reopen w h ≡ inl e
    → e.error_type ≡ win_file_removed
unfolding reopen
reopen_removed w h e ne q = by_open (open_with_backoff w h.name) refl
  where
    by_open : (o : Error ⊎ ℕ) → open_with_backoff w h.name ≡ o → e.error_type ≡ win_file_removed
    by_open (inl x) o = failed_is_removed h x x.error_type e ne (sym (rw (o, reopen) refl) ∙ q)
    by_open (inr k) o = elim (Bool-cases (h.file == k)) [
      | inl same ↦
          let fine : reopen w h ≡ inr k =
            rw (o, reopen) (same_index h k (inr k) ((==_iff h.file k).0 same)) in
          absurd (cc)
      | inr other ↦
          removed_if_other h k (inr k) e (λ s. let t = (==_iff h.file k).1 s in absurd (cc))
            (sym (rw (o, reopen) refl) ∙ q)
    ]
