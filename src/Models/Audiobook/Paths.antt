-- ===== src/Models/Audiobook/Paths.antt =====
-- Audiobook::update_path of src/models/audiobook.rs, on every branch.
use vorleser_server.Prelude.{
  ℕ, String, ◌≡◌, ap, ◌∙◌, ◌≢◌, ◌⊎◌, inl, inr, false, none, some, List, find, ◌==◌, nat_eq,
  string_eq, bytes_eq, bool_eq, eq_iff, ok, Bool-cases,
}
use vorleser_server.Exec.Ends.{Ends, returns, Ends-bind, Ends-handled}
use vorleser_server.Errors.{DieselError, not_found}
use vorleser_server.Db.{Audiobook, Tables}
use vorleser_server.Db.Backend.{Backend}
use vorleser_server.Db.Lawful.{IsLawful, amend}
use vorleser_server.Models.Audiobook.{Update, nothing, path, unknown, update_found, update_path}

-- Every row with the hash, in whatever library, has the new location.
abbrev pub relocated : List ℕ → String → Tables → Tables
relocated hash new_path t = record t {
  audiobooks = amend (λ b. b.hash == hash) (λ b. record b { location = new_path }) t.audiobooks;
}

module _ (B : Backend) (L : IsLawful B) where
  open L use {view, IsDatabase}

  -- What `update_path` reports, with what it has done.
  pub data Reported (hash : List ℕ) (new_path : String) (t t' : Tables) : Update → Type 0 where
    right :
        (b : Audiobook)
        → find (λ b. b.hash == hash) t.audiobooks ≡ some b
        → b.location ≡ new_path
        → t' ≡ t
        → Reported hash new_path t t' nothing
    moved :
        (b : Audiobook)
        → find (λ b. b.hash == hash) t.audiobooks ≡ some b
        → b.location ≢ new_path
        → t' ≡ relocated hash new_path t
        → Reported hash new_path t t' path
    missing :
        find (λ b. b.hash == hash) t.audiobooks ≡ none
        → t' ≡ t
        → Reported hash new_path t t' unknown
    unread : (e : DieselError) → IsDatabase e → t' ≡ t → Reported hash new_path t t' unknown

  -- The first book with the hash decides. Is it at the path already, nothing is done; is it
  -- elsewhere, all books with the hash move to the path, those of other libraries too; without such
  -- a book, or if it cannot be read, nothing is done. An error leaves the tables as they were.
  pub update_path_outcome :
      (hash : List ℕ) (new_path : String) (s : B.State)
      → Ends
          (λ r s'. Reported hash new_path (view s) (view s') r)
          (λ e s'. (view s' ≡ view s) × IsDatabase e)
          (update_path B hash new_path s)
  unfolding update_path
  update_path_outcome hash new_path s =
      Ends-handled (update_found B hash new_path) (L.audiobooks.first_law (λ b. b.hash == hash) s)
        (λ b s₁ h. elim (Bool-cases (b.location == new_path)) [
          | inl e ↦ rw e (returns nothing s₁ (right b h.1 ((eq_iff b.location new_path).0 e) h.0))
          | inr e ↦ moves b s₁ h e
        ])
        (λ e s₁ h. returns unknown s₁ (unfound e s₁ h))
    where
      same : (b : Audiobook) → (b.location == new_path) ≡ false → b.location ≢ new_path
      same b e f = cc ((eq_iff b.location new_path).1 f)

      moves :
          (b : Audiobook) (s₁ : B.State)
          → (view s₁ ≡ view s) × (find (λ b. b.hash == hash) (view s).audiobooks ≡ some b)
          → (b.location == new_path) ≡ false
          → Ends
              (λ r s'. Reported hash new_path (view s) (view s') r)
              (λ e s'. (view s' ≡ view s) × IsDatabase e)
              (update_found B hash new_path (ok b) s₁)
      moves b s₁ h e = rw e (
          Ends-bind _ (L.audiobooks.update_law _ _ s₁)
            (λ n s₂ u.
              returns path s₂ (moved b h.1 (same b e) (u.0 ∙ ap (relocated hash new_path) h.0)))
            (λ e s₂ k. (k.0 ∙ h.0, k.1)))

      unfound :
          (e : DieselError) (s₁ : B.State)
          → (view s₁ ≡ view s)
            × (IsDatabase e
                ⊎ ((e ≡ not_found) × (find (λ b. b.hash == hash) (view s).audiobooks ≡ none)))
          → Reported hash new_path (view s) (view s₁) unknown
      unfound e s₁ (v, inl d) = unread e d v
      unfound e s₁ (v, inr (_, none_left)) = missing none_left v
