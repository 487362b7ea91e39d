-- ===== src/Models/Audiobook.antt =====
-- src/models/audiobook.rs
pub mod Paths
pub mod Existence
pub mod Growth
use vorleser_server.Prelude.{
  ℕ, String, not, ◌&&◌, Option, none, some, List, if◌then◌else◌, ◌==◌, nat_eq, string_eq, bytes_eq,
  bool_eq, Result, ok, err,
}
use vorleser_server.Exec.{pure, ◌>>=◌, ◌>>◌, attempt}
use vorleser_server.Errors.{DieselError}
use vorleser_server.Db.{Library, Audiobook}
use vorleser_server.Db.Table
use vorleser_server.Db.Backend.{Backend, Query}

-- `enum Update`
pub data Update : Type 0 where
  nothing : Update
  path : Update
  unknown : Update

abbrev pub or_else : Option String → Option String → Option String
or_else none old = old
or_else (some new) old = some new

-- `.set(&new)` of a derived changeset on the row `old`: the key is kept, and so is a nullable column
-- for which the new value is `None`.
unfoldable pub changeset : Audiobook → Audiobook → Audiobook
changeset new old = record new { id = old.id; artist = or_else new.artist old.artist }

module _ (B : Backend) where
  unfoldable pub find_by_hash : List ℕ → Query B.State Audiobook
  find_by_hash hash = B.audiobooks.first (λ b. b.hash == hash)

  unfoldable pub update_found :
      List ℕ → String → Result DieselError Audiobook → Query B.State Update
  update_found book_hash new_path (ok book) =
      if not (book.location == new_path)
      then (do
        B.audiobooks.update (λ b. b.hash == book_hash) (λ b. record b { location = new_path })
        pure path)
      else pure nothing
  update_found book_hash new_path (err _) = pure unknown

  unfoldable pub update_path : List ℕ → String → Query B.State Update
  unfolding update_found find_by_hash
  update_path book_hash new_path =
      attempt (find_by_hash book_hash) (update_found book_hash new_path)

  unfoldable pub delete_all_chapters : Audiobook → Query B.State ℕ
  delete_all_chapters self = B.chapters.delete (λ c. c.audiobook_id == self.id)

  -- The row under the path is overwritten; else the new one is inserted, whatever comes of that.
  unfoldable pub overwrite_or_insert : Audiobook → Option Audiobook → Query B.State Audiobook
  overwrite_or_insert new_book (some b) = do
    let updated : Audiobook = record new_book { id = b.id }
    B.audiobooks.update (λ x. x.id == b.id) (changeset updated)
    pure updated
  overwrite_or_insert new_book none = attempt (B.audiobooks.insert new_book) (λ _. pure new_book)

  unfoldable pub ensure_exists_in : String → Library → Audiobook → Query B.State Audiobook
  ensure_exists_in relative_path library new_book = do
    found ←
        B.audiobooks.first_optional (λ b. b.library_id == library.id && b.location == relative_path)
    overwrite_or_insert new_book found
