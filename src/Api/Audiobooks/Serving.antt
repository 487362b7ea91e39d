-- ===== src/Api/Audiobooks/Serving.antt =====
-- What the handlers of src/api/audiobooks.rs serve, and to whom.
use vorleser_server.Prelude.{
  String, ◌≡◌, refl, sym, ap, ◌∙◌, ◌≢◌, ◌⊎◌, inl, inr, none, some, find, In, ◌==◌, nat_eq,
  string_eq, bytes_eq, bool_eq, nat_beq_iff, err,
}
use vorleser_server.Exec.{map_err}
use vorleser_server.Exec.Ends.{
  Ends, returns, fails, Ends-bind, Ends-converted, Ends-handled, Ends-run,
}
use vorleser_server.Errors.{DieselError, not_found}
use vorleser_server.Db.{Uuid, User, Audiobook, Tables}
use vorleser_server.Db.Backend.{Backend}
use vorleser_server.Db.Lawful.{IsLawful, Chosen}
use vorleser_server.Prelude.{find-none}
use vorleser_server.Responses.Error.{ApiError, not_found_error, internal_server_error}
use vorleser_server.Responses.Success.{ok_response, with_data}
use vorleser_server.Responses.Convert.{from_diesel, from-database}
use vorleser_server.Models.User
use vorleser_server.Models.Access.{MayRead, get_book_if_accessible_iff}
use vorleser_server.Api.Answer.{Stop, refused, audiobook_answer}
use vorleser_server.Api.Audiobooks.{
  Opening, IoError, data_file_path, opened, data_file_if, get_data_file, audiobook_if,
  get_audiobook,
}

-- A book with the number, in a library that is permitted to the user.
abbrev pub Readable : User → Uuid → Tables → Audiobook → Type 0
Readable u id t b = In b t.audiobooks × (b.id ≡ id) × MayRead u b t

-- An internal error, because the engine failed at a statement.
abbrev pub Broken : {B : Backend} → IsLawful B → Stop → Type 0
Broken L e = (e ≡ refused internal_server_error) × ((d : DieselError) × L.IsDatabase d)

-- A refusal: there is no such book, or the database is at fault.
abbrev pub Refusal : {B : Backend} → IsLawful B → ApiError → User → Uuid → Tables → Stop → Type 0
Refusal L missing u id t e = ((e ≡ refused missing) × Chosen (Readable u id t) none) ⊎ Broken L e

-- Opening a file yields that file or fails, and does not touch the tables.
abbrev pub OpensFiles : {S : Type 0} → (S → Tables) → Opening S → Type 0
OpensFiles {S} view open_file =
    (p : String) (s : S)
    → Ends (λ f s'. (view s' ≡ view s) × (f ≡ p)) (λ e s'. view s' ≡ view s) (open_file p s)

module _ (B : Backend) (L : IsLawful B) where
  open L use {view, IsDatabase}

  accessible :
      (u : User) (id : Uuid) (s : B.State)
      → Ends
          (λ o s'. (view s' ≡ view s) × Chosen (Readable u id (view s)) o)
          (λ e s'. (view s' ≡ view s) × Broken L e)
          (map_err (λ e. refused (from_diesel e)) (User.get_book_if_accessible B u id) s)
  accessible u id s =
      Ends-converted (λ e. refused (from_diesel e)) (get_book_if_accessible_iff B L u id s)
        (λ e s' h. (h.0, (ap refused (from-database e (L.database_law e h.1)), (e, h.1))))

  -- A book is shown if and only if its library is permitted to the user, and else is not found; only
  -- where the database fails is the answer an internal error.
  pub get_audiobook_outcome :
      (open_file : Opening B.State) (data_directory : String) (u : User) (id : Uuid) (s : B.State)
      → Ends
          (λ r s'.
            (view s' ≡ view s)
            × ((b : Audiobook) × Readable u id (view s) b
                × (r ≡ with_data ok_response (audiobook_answer b))))
          (λ e s'. (view s' ≡ view s) × Refusal L not_found_error u id (view s) e)
          (get_audiobook B open_file data_directory u id s)
  unfolding get_audiobook audiobook_if
  get_audiobook_outcome open_file data_directory u id s =
      Ends-bind _ (accessible u id s)
        (elim [
          | none ↦ λ s' h. fails _ s' (h.0, inl (refl, h.1))
          | some b ↦ λ s' h. returns _ s' (h.0, (b, h.1, refl))
        ])
        (λ e s' h. (h.0, inr h.1))

  module _ (open_file : Opening B.State) (opens : OpensFiles view open_file)
      (data_directory : String) where
    still_there :
        (u : User) (id : Uuid) (t : Tables) (b : Audiobook)
        → Readable u id t b
        → find (λ b. b.id == id) t.audiobooks ≢ none
    still_there u id t b r gone =
        cc (find-none (λ b. b.id == id) t.audiobooks gone b r.0, (nat_beq_iff b.id id).1 r.1)

    -- An internal error, because a file cannot be opened: that of the first row with the number, of
    -- which there is a book that is permitted to the user.
    abbrev pub Unopened : User → Uuid → Tables → Stop → Type 0
    Unopened u id t e =
        (e ≡ refused internal_server_error)
        × ((b : Audiobook) × Readable u id t b)
        × ((b : Audiobook) × (find (λ b. b.id == id) t.audiobooks ≡ some b)
            × ((f : IoError) × (s : B.State) × ((open_file (data_file_path B data_directory b) s).0
                  ≡ err f)))

    -- A data file is served only for a book whose library is permitted to the user, and then it is the
    -- file of the first row with that number. Without such a book the answer is not found. It is an
    -- internal error only where the database fails, or the file of a permitted book cannot be opened.
    pub get_data_file_outcome :
        (u : User) (id : Uuid) (s : B.State)
        → Ends
            (λ f s'.
              (view s' ≡ view s)
              × ((b : Audiobook) × Readable u id (view s) b)
              × ((b : Audiobook) × (find (λ b. b.id == id) (view s).audiobooks ≡ some b)
                  × (f ≡ data_file_path B data_directory b)))
            (λ e s'.
              (view s' ≡ view s)
              × (Refusal L not_found_error u id (view s) e ⊎ Unopened u id (view s) e))
            (get_data_file B open_file data_directory u id s)
    unfolding get_data_file data_file_if
    get_data_file_outcome u id s =
        Ends-bind _ (accessible u id s)
          (elim [
            | none ↦ λ s' h. fails _ s' (h.0, inl (inl (refl, h.1)))
            | some b ↦ λ s' h. served b s' h.0 h.1
          ])
          (λ e s' h. (h.0, inl (inr h.1)))
      where
        Served : String → B.State → Type 0
        Served f s' =
            (view s' ≡ view s)
            × ((b : Audiobook) × Readable u id (view s) b)
            × ((b : Audiobook) × (find (λ b. b.id == id) (view s).audiobooks ≡ some b)
                × (f ≡ data_file_path B data_directory b))

        Failed : Stop → B.State → Type 0
        Failed e s' =
            (view s' ≡ view s)
            × (Refusal L not_found_error u id (view s) e ⊎ Unopened u id (view s) e)

        not_missing :
            (b : Audiobook) (s₁ : B.State)
            → view s₁ ≡ view s
            → Readable u id (view s) b
            → (e : DieselError)
            → IsDatabase e
              ⊎ ((e ≡ not_found) × (find (λ b. b.id == id) (view s₁).audiobooks ≡ none))
            → Broken L (refused (from_diesel e))
        not_missing b s₁ v r e (inl d) = (ap refused (from-database e (L.database_law e d)), (e, d))
        not_missing b s₁ v r e (inr g) = absurd (
            still_there u id (view s) b r
              (ap (λ t. find (λ b. b.id == id) t.audiobooks) (sym v) ∙ g.1))

        served :
            (b : Audiobook) (s₁ : B.State)
            → view s₁ ≡ view s
            → Readable u id (view s) b
            → Ends Served Failed (data_file_if B open_file data_directory id (some b) s₁)
        served b s₁ v r =
            Ends-bind _
              (Ends-converted {F' = Failed} (λ e. refused (from_diesel e))
                (L.audiobooks.first_law (λ b. b.id == id) s₁)
                (λ e s₂ h. (h.0 ∙ v, inl (inr (not_missing b s₁ v r e h.1)))))
              (λ c s₂ h.
                Ends-handled (opened B open_file data_directory)
                  (Ends-run (opens (data_file_path B data_directory c) s₂))
                  (λ f s₃ k. returns f s₃ (
                    k.0 ∙ h.0 ∙ v,
                    (b, r),
                    (c, ap (λ t. find (λ b. b.id == id) t.audiobooks) (sym v) ∙ h.1, k.1),
                  ))
                  (λ e s₃ (k, run). fails _ s₃ (
                    k ∙ h.0 ∙ v,
                    inr (
                      refl,
                      (b, r),
                      (
                        c,
                        ap (λ t. find (λ b. b.id == id) t.audiobooks) (sym v) ∙ h.1,
                        (e, s₂, ap (λ q. q.0) run),
                      ),
                    ),
                  )))
              (λ e s₂ h. h)
