-- ===== src/Worker/Scanner/Deleted/Marking.antt =====
-- delete_not_in_fs of src/worker/scanner.rs: what it marks.
use vorleser_server.Prelude.{
  String, ◌≡◌, refl, sym, subst, ap, ◌∙◌, inl, inr, Bool, true, false, not, ◌&&◌, List, [], ◌∷◌,
  ◌++◌, filter, any, In, ◌==◌, nat_eq, string_eq, bytes_eq, bool_eq, nat_beq_iff, Result, arith,
  Bool-cases,
}
use vorleser_server.Exec.{for_each}
use vorleser_server.Exec.Ends.{
  Ends, returns, fails, Ends-bind, Ends-mono, Ends-converted, Ends-for_each,
}
use vorleser_server.Errors.{diesel}
use vorleser_server.Db.{Audiobook, Tables}
use vorleser_server.Db.Backend.{Backend}
use vorleser_server.Db.Lawful.{IsLawful, IsStopped, amend}
use vorleser_server.Models.Audiobook.Growth.{HasKeys}
use vorleser_server.Worker.Host.{Host}
use vorleser_server.Worker.Scanner.{Scanner, belongs, path_of}
use vorleser_server.Prelude.{any_iff, In-filter}
use vorleser_server.Worker.Scanner.Deleted.{mark_if_gone, delete_not_in_fs}
use vorleser_server.Db.Amending.{any-append, amend-amend, amend-none, amend-congr, bool_of_iff}

abbrev pub as_deleted : Audiobook → Audiobook
as_deleted x = record x { deleted = true }

abbrev pub with_audiobooks : List Audiobook → Tables → Tables
with_audiobooks rows t = record t { audiobooks = rows }

-- The statements of the database do not touch the files.
pub record IsApart (B : Backend) (H : Host B.State) : Type 0 where
  pub load_apart :
      (p : String) (q : Audiobook → Bool) (s : B.State)
      → H.exists p (B.audiobooks.load q s).1 ≡ H.exists p s
  pub update_apart :
      (p : String) (q : Audiobook → Bool) (f : Audiobook → Audiobook) (s : B.State)
      → H.exists p (B.audiobooks.update q f s).1 ≡ H.exists p s

-- What holds of the state after both kinds of end.
pub Ends-and :
    {S E A : Type 0} {Q : A → S → Type 0} {F : E → S → Type 0} (P : S → Type 0) {r : Result E A × S}
    → Ends Q F r
    → P r.1
    → Ends (λ a s. Q a s × P s) (λ e s. F e s × P s) r
Ends-and P (returns a s q) p = returns a s (q, p)
Ends-and P (fails e s f) p = fails e s (f, p)

module _ (B : Backend) (L : IsLawful B) (H : Host B.State) (self : Scanner) where
  open L use {view}

  -- A book of which the files are gone, and that is not marked yet.
  abbrev pub gone : B.State → Audiobook → Bool
  gone s b = not (H.exists (path_of B H self b) s) && not b.deleted

  abbrev marks : B.State → List Audiobook → Audiobook → Bool
  marks s books x = belongs B H self x && any (λ b. gone s b && x.id == b.id) books

  abbrev marked : B.State → List Audiobook → List Audiobook → List Audiobook
  marked s books = amend (marks s books) as_deleted

  abbrev Undisturbed : B.State → B.State → Type 0
  Undisturbed s s' = (p : String) → H.exists p s' ≡ H.exists p s

  one_more :
      (s : B.State) (books : List Audiobook) (b : Audiobook) (rows : List Audiobook)
      → gone s b ≡ true
      → amend (λ x. belongs B H self x && x.id == b.id) as_deleted (marked s books rows)
        ≡ marked s (books ++ b ∷ []) rows
  one_more s books b rows g =
      amend-amend _ _ _ as_deleted
        (λ r. rw (any-append (λ b. gone s b && r.id == b.id) books b) (ground (arith, g))) rows

  none_more :
      (s : B.State) (books : List Audiobook) (b : Audiobook) (rows : List Audiobook)
      → gone s b ≡ false
      → marked s books rows ≡ marked s (books ++ b ∷ []) rows
  none_more s books b rows g =
      amend-congr _ _ as_deleted rows
        (λ r _. rw (any-append (λ b. gone s b && r.id == b.id) books b) (ground (arith, g)))

  module _ (A : IsApart B H) (s₀ : B.State) where
    abbrev Marked : List Audiobook → B.State → Type 0
    Marked books s =
        (view s ≡ with_audiobooks (marked s₀ books (view s₀).audiobooks) (view s₀))
        × Undisturbed s₀ s

    mark_step :
        (books : List Audiobook) (b : Audiobook) (s : B.State)
        → Marked books s
        → Ends (λ _. Marked (books ++ b ∷ [])) (λ e _. IsStopped L e) (mark_if_gone B H self b s)
    unfolding mark_if_gone
    mark_step books b s (v, u) = elim (Bool-cases (gone s b)) [
      | inl g ↦ rw g (
          Ends-bind _
            (Ends-converted diesel
              (Ends-and (Undisturbed s) (L.audiobooks.update_law _ as_deleted s)
                (λ p. A.update_apart p _ as_deleted s))
              (λ e s' k. (e, refl, k.0.1)))
            (λ n s' k. returns tt s' (
              k.0.0
                  ∙ ap
                      (λ t.
                        with_audiobooks
                          (amend (λ x. belongs B H self x && x.id == b.id) as_deleted t.audiobooks)
                          t)
                      v
                  ∙ ap (λ rows. with_audiobooks rows (view s₀))
                      (one_more s₀ books b (view s₀).audiobooks
                        (ap (λ e. not e && not b.deleted) (sym (u _)) ∙ g)),
              λ p. k.1 p ∙ u p,
            ))
            (λ e s' k. k))
      | inr g ↦ rw g (
          returns tt s (
            v
                ∙ ap (λ rows. with_audiobooks rows (view s₀))
                    (none_more s₀ books b (view s₀).audiobooks
                      (ap (λ e. not e && not b.deleted) (sym (u _)) ∙ g)),
            u,
          ))
    ]

    mark_all :
        (books xs : List Audiobook) (s : B.State)
        → Marked books s
        → Ends
            (λ _. Marked (books ++ xs))
            (λ e _. IsStopped L e)
            (for_each (mark_if_gone B H self) xs s)
    mark_all = Ends-for_each Marked (λ e _. IsStopped L e) (mark_if_gone B H self) mark_step

  -- With unique keys, a row is marked exactly if it is itself one of the books that are gone.
  marks-gone :
      (s : B.State) (rows : List Audiobook)
      → HasKeys rows
      → (x : Audiobook) → In x rows
      → marks s (filter (belongs B H self) rows) x ≡ (belongs B H self x && gone s x)
  marks-gone s rows keys x here =
      bool_of_iff _ _
        (λ m. itself (ground (arith, m)) (
          (any_iff (λ b. gone s b && x.id == b.id) (filter (belongs B H self) rows)).0
            (ground (arith, m))))
        (λ e.
          let listed = (In-filter (belongs B H self) x rows).1 (here, ground (arith, e)) in
          let found =
            (any_iff (λ b. gone s b && x.id == b.id) (filter (belongs B H self) rows)).1
              (x, listed, ground (arith, e, nat_beq_iff x.id x.id)) in
          ground (arith, e, found))
    where
      itself :
          belongs B H self x ≡ true
          → ((b : Audiobook) × In b (filter (belongs B H self) rows)
              × ((gone s b && x.id == b.id) ≡ true))
          → (belongs B H self x && gone s x) ≡ true
      itself own (b, listed, e) =
          let same =
            keys x b here ((In-filter (belongs B H self) b rows).0 listed).0
              (ground (arith, e, nat_beq_iff x.id b.id)) in
          subst (λ y. (belongs B H self x && gone s y) ≡ true) (sym same) (ground (arith, own, e))

  -- After `delete_not_in_fs`, the books of the library that are not in the file system are marked as
  -- deleted, and no other row of any table has changed; the files are as they were. The keys of the
  -- books have to be unique. An error is one of the database.
  pub delete_not_in_fs_outcome :
      IsApart B H
      → (s : B.State) → HasKeys (view s).audiobooks
      → Ends
          (λ _ s'.
            (view s'
              ≡ with_audiobooks
                  (amend (λ x. belongs B H self x && gone s x) as_deleted (view s).audiobooks)
                  (view s))
            × Undisturbed s s')
          (λ e _. IsStopped L e)
          (delete_not_in_fs B H self s)
  unfolding delete_not_in_fs
  delete_not_in_fs_outcome A s keys =
      Ends-bind _
        (Ends-converted diesel
          (Ends-and (Undisturbed s) (L.audiobooks.load_law (belongs B H self) s)
            (λ p. A.load_apart p (belongs B H self) s))
          (λ e s' k. (e, refl, k.0.1)))
        (λ books s₁ k.
          Ends-mono
            (mark_all A s [] books s₁ (
              k.0.0
                  ∙ ap (λ rows. with_audiobooks rows (view s))
                      (sym (amend-none as_deleted (view s).audiobooks (λ r. ground arith))),
              k.1,
            ))
            (λ _ s' m. (
              m.0
                  ∙ ap (λ rows. with_audiobooks rows (view s))
                      (rw k.0.1 (
                        amend-congr _ _ as_deleted (view s).audiobooks
                          (marks-gone s (view s).audiobooks keys))),
              m.1,
            ))
            (λ e _ d. d))
        (λ e _ d. d)
