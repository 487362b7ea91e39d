-- ===== src/Models/Audiobook/Existence.antt =====
-- Audiobook::ensure_exists_in of src/models/audiobook.rs, on every branch.
use vorleser_server.Prelude.{
  String, ◌≡◌, refl, sym, ap, ◌∙◌, Bool, false, ◌&&◌, Option, none, some, [], ◌∷◌, ◌++◌, find, any,
  ◌==◌, nat_eq, string_eq, bytes_eq, bool_eq,
}
use vorleser_server.Exec.{pure}
use vorleser_server.Exec.Ends.{Ends, returns, Ends-bind, Ends-handled}
use vorleser_server.Errors.{DieselError}
use vorleser_server.Db.{Library, Audiobook, Tables}
use vorleser_server.Db.Backend.{Backend}
use vorleser_server.Db.Lawful.{IsLawful, amend}
use vorleser_server.Models.Audiobook.{changeset, overwrite_or_insert, ensure_exists_in}

abbrev pub stands_at : Library → String → Audiobook → Bool
stands_at library relative_path b = b.library_id == library.id && b.location == relative_path

-- The row with the key of `old` holds the new values.
abbrev pub overwritten : Audiobook → Audiobook → Tables → Tables
overwritten old new t = record t {
  audiobooks = amend (λ x. x.id == old.id) (changeset (record new { id = old.id })) t.audiobooks;
}

module _ (B : Backend) (L : IsLawful B) where
  open L use {view, IsDatabase}

  -- What `ensure_exists_in` returns, with what it has done.
  pub data Ensured (library : Library) (relative_path : String) (new : Audiobook) (t t' : Tables)
      (r : Audiobook) : Type 0 where
    overwrote :
        (old : Audiobook)
        → find (stands_at library relative_path) t.audiobooks ≡ some old
        → r ≡ record new { id = old.id }
        → t' ≡ overwritten old new t
        → Ensured library relative_path new t t' r
    inserted :
        find (stands_at library relative_path) t.audiobooks ≡ none
        → r ≡ new
        → any (λ b. new.id == b.id) t.audiobooks ≡ false
        → t' ≡ record t { audiobooks = t.audiobooks ++ new ∷ [] }
        → Ensured library relative_path new t t' r
    lost :
        find (stands_at library relative_path) t.audiobooks ≡ none
        → r ≡ new
        → (e : DieselError) → IsDatabase e
        → t' ≡ t
        → Ensured library relative_path new t t' r

  overwrite_or_insert_lem :
      (library : Library) (relative_path : String) (new : Audiobook) (o : Option Audiobook)
      (s : B.State) (t : Tables)
      → view s ≡ t
      → o ≡ find (stands_at library relative_path) t.audiobooks
      → Ends
          (λ r s'. Ensured library relative_path new t (view s') r)
          (λ e s'. (view s' ≡ t) × IsDatabase e)
          (overwrite_or_insert B new o s)
  unfolding overwrite_or_insert
  overwrite_or_insert_lem library relative_path new (some old) s t v f =
      Ends-bind _ (L.audiobooks.update_law _ _ s)
        (λ n s₁ u. returns _ s₁ (overwrote old (sym f) refl (u.0 ∙ ap (overwritten old new) v)))
        (λ e s₁ k. (k.0 ∙ v, k.1))
  overwrite_or_insert_lem library relative_path new none s t v f =
      Ends-handled (λ _. pure new) (L.audiobooks.insert_law new s)
        (λ n s₁ u. returns new s₁ (inserted (sym f) refl (rw v at u.1) (rw v at u.0)))
        (λ e s₁ k. returns new s₁ (lost (sym f) refl e k.1 (k.0 ∙ v)))

  -- A book that stands under the path in the library keeps its key and is overwritten; the result has
  -- that key. Else the new book is inserted; if the insertion fails, the new book is returned all the
  -- same and the tables hold no row for it. An error leaves the tables as they were.
  pub ensure_exists_in_outcome :
      (relative_path : String) (library : Library) (new : Audiobook) (s : B.State)
      → Ends
          (λ r s'. Ensured library relative_path new (view s) (view s') r)
          (λ e s'. (view s' ≡ view s) × IsDatabase e)
          (ensure_exists_in B relative_path library new s)
  unfolding ensure_exists_in
  ensure_exists_in_outcome relative_path library new s =
      Ends-bind _ (L.audiobooks.first_optional_law (stands_at library relative_path) s)
        (λ o s₁ h. overwrite_or_insert_lem library relative_path new o s₁ (view s) h.0 h.1)
        (λ e s₁ h. h)
