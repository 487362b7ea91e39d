-- ===== src/Worker/Scanner/Deleted.antt =====
-- src/worker/scanner.rs: books that were deleted, and books that are gone.
pub mod Marking
pub mod Files
pub mod Recovery
use vorleser_server.Prelude.{
  ℕ, ◌+◌, String, true, false, not, ◌&&◌, List, [], ◌∷◌, if◌then◌else◌, ◌==◌, nat_eq, string_eq,
  bytes_eq, bool_eq, Result, ok,
}
use vorleser_server.Exec.{pure, ◌>>=◌, ◌>>◌, for_each, continue}
use vorleser_server.Errors.{Failure}
use vorleser_server.Db.{Audiobook}
use vorleser_server.Db.Backend.{Backend}
use vorleser_server.Worker.Host.{Host}
use vorleser_server.Worker.Hashing.{checksum_file, checksum_dir}
use vorleser_server.Worker.Scanner.{Scanner, Action, read, asks, db, belongs, path_of}

module _ (B : Backend) (H : Host B.State) (self : Scanner) where
  abbrev pub checksum : String → B.State → Result Failure (List ℕ)
  checksum p s = if H.is_dir p s then checksum_dir H p s else checksum_file H p s

  unfoldable pub recover_if_equal : Audiobook → ℕ → List ℕ → Action B ℕ
  recover_if_equal book recovered hash =
      if hash == book.hash
      then (do
        db B (
            B.audiobooks.update (λ x. belongs B H self x && x.id == book.id)
              (λ x. record x { deleted = false }))
        pure (recovered + 1))
      else pure recovered

  unfoldable pub recover_book : Audiobook → ℕ → Action B ℕ
  unfolding recover_if_equal
  recover_book book recovered = do
    there ← read B (H.exists (path_of B H self book))
    (if there
        then asks B (checksum (path_of B H self book)) >>= recover_if_equal book recovered
        else pure recovered)

  unfoldable pub recover_books : List Audiobook → ℕ → Action B ℕ
  recover_books [] recovered s = (ok recovered, s)
  recover_books (b ∷ bs) recovered s = continue (recover_books bs) (recover_book b recovered s)

  unfoldable pub recover_deleted : Action B ℕ
  unfolding recover_books
  recover_deleted = do
    books ← db B (B.audiobooks.load (λ b. belongs B H self b && b.deleted == true))
    recover_books books 0

  unfoldable pub mark_if_gone : Audiobook → Action B (Unit {0})
  mark_if_gone book = do
    there ← read B (H.exists (path_of B H self book))
    (if not there && not book.deleted
        then (do
          db B (
              B.audiobooks.update (λ x. belongs B H self x && x.id == book.id)
                (λ x. record x { deleted = true }))
          pure tt)
        else pure tt)

  unfoldable pub delete_not_in_fs : Action B (Unit {0})
  unfolding mark_if_gone
  delete_not_in_fs = do
    books ← db B (B.audiobooks.load (belongs B H self))
    for_each mark_if_gone books
