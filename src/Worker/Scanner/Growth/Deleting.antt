-- ===== src/Worker/Scanner/Growth/Deleting.antt =====
-- recover_deleted and delete_not_in_fs of src/worker/scanner.rs change no key.
use vorleser_server.Prelude.{
  ℕ, refl, inl, inr, not, ◌&&◌, true, false, List, [], ◌∷◌, Bool-cases, ◌==◌, nat_eq, string_eq,
  bytes_eq, bool_eq,
}
use vorleser_server.Errors.{diesel}
use vorleser_server.Db.{Audiobook}
use vorleser_server.Db.Backend.{Backend}
use vorleser_server.Db.Lawful.{IsLawful}
use vorleser_server.Worker.Host.{Host}
use vorleser_server.Worker.Scanner.{Scanner, belongs, path_of}
use vorleser_server.Worker.Scanner.Deleted.{
  checksum, recover_if_equal, recover_book, recover_books, recover_deleted, mark_if_gone,
  delete_not_in_fs,
}
use vorleser_server.Worker.Scanner.Growth.{
  GrowsTo, of_view, after_bind, after_converted, after_each, after_load, after_update,
}

module _ (B : Backend) (L : IsLawful B) (H : Host B.State) (self : Scanner) where
  open L use {view}

  mark_if_gone-Grows : (b : Audiobook) (s : B.State) → GrowsTo B L s (mark_if_gone B H self b s).1
  unfolding mark_if_gone
  mark_if_gone-Grows b s =
      elim (Bool-cases (not (H.exists (path_of B H self b) s) && not b.deleted)) [
        | inl e ↦ rw e (
            after_bind B L _ _
              (after_converted B L diesel _
                (after_update B L _ (λ x. record x { deleted = true }) (λ r. refl) s))
              (λ _ s'. of_view B L refl))
        | inr e ↦ rw e (of_view B L refl)
      ]

  pub delete_not_in_fs-Grows : (s : B.State) → GrowsTo B L s (delete_not_in_fs B H self s).1
  unfolding delete_not_in_fs
  delete_not_in_fs-Grows s =
      after_bind B L _ _ (after_converted B L diesel _ (after_load B L (belongs B H self) s))
        (λ books s'. after_each B L (mark_if_gone B H self) mark_if_gone-Grows books s')

  recover_if_equal-Grows :
      (b : Audiobook) (n : ℕ) (hash : List ℕ) (s : B.State)
      → GrowsTo B L s (recover_if_equal B H self b n hash s).1
  unfolding recover_if_equal
  recover_if_equal-Grows b n hash s = elim (Bool-cases (hash == b.hash)) [
    | inl e ↦ rw e (
        after_bind B L _ _
          (after_converted B L diesel _
            (after_update B L _ (λ x. record x { deleted = false }) (λ r. refl) s))
          (λ _ s'. of_view B L refl))
    | inr e ↦ rw e (of_view B L refl)
  ]

  recover_book-Grows :
      (b : Audiobook) (n : ℕ) (s : B.State) → GrowsTo B L s (recover_book B H self b n s).1
  unfolding recover_book
  recover_book-Grows b n s = elim (Bool-cases (H.exists (path_of B H self b) s)) [
    | inl e ↦ rw e (
        after_bind B L (recover_if_equal B H self b n) (checksum B H self (path_of B H self b) s, s)
          (of_view B L refl) (recover_if_equal-Grows b n))
    | inr e ↦ rw e (of_view B L refl)
  ]

  recover_books-Grows :
      (bs : List Audiobook) (n : ℕ) (s : B.State) → GrowsTo B L s (recover_books B H self bs n s).1
  unfolding recover_books
  recover_books-Grows [] n s = of_view B L refl
  recover_books-Grows (b ∷ bs) n s =
      after_bind B L (recover_books B H self bs) (recover_book B H self b n s)
        (recover_book-Grows b n s) (recover_books-Grows bs)

  pub recover_deleted-Grows : (s : B.State) → GrowsTo B L s (recover_deleted B H self s).1
  unfolding recover_deleted
  recover_deleted-Grows s =
      after_bind B L _ _ (after_converted B L diesel _ (after_load B L _ s))
        (λ books s'. recover_books-Grows books 0 s')
