-- ===== src/Server/Kept.antt =====
-- The web server of src/helpers/rocket.rs reads the library and changes nothing in it.
use vorleser_server.Prelude.{
  String, ◌≡◌, ap, ◌∙◌, inl, inr, Bool, true, false, Option, none, some, List, [], ◌∷◌, Result, ok,
  err, Option-cases, ◌==◌, nat_eq,
}
use vorleser_server.Exec.Ends.{
  Ends, returns, fails, Ends-state, Ends-mono, Ends-bind, Ends-converted, Ends-handled,
}
use vorleser_server.Db.{Uuid, User, Library, Audiobook, Chapter, ApiToken, Tables}
use vorleser_server.Db.Backend.{Backend}
use vorleser_server.Db.Lawful.{IsLawful}
use vorleser_server.Models.User.Creation.{create_user_outcome}
use vorleser_server.Models.Access.{
  accessible_libraries_iff, accessible_audiobooks_iff, get_book_if_accessible_iff,
}
use vorleser_server.Models.Playstate.{ApiPlaystate}
use vorleser_server.Api.Auth
use vorleser_server.Api.Auth.{UserSerializer}
use vorleser_server.Api.Auth.Sessions.{login_outcome}
use vorleser_server.Api.Auth.Lifetime.{logout_outcome, logout_all_outcome}
use vorleser_server.Api.Audiobooks
use vorleser_server.Api.Audiobooks.{Opening}
use vorleser_server.Api.Audiobooks.Serving.{
  OpensFiles, get_data_file_outcome, get_audiobook_outcome,
}
use vorleser_server.Api.Libraries
use vorleser_server.Api.Libraries.Playstates.{update_playstates_outcome}
use vorleser_server.Api.Request.{Request, token_text}
use vorleser_server.Api.Guard.{token_from_request, token_from_text, token_with_id}

-- What the scanner has gathered, and the libraries.
abbrev pub Collection : Type 0
Collection = List Library × List Audiobook × List Chapter

abbrev pub collection : Tables → Collection
collection t = (t.libraries, t.audiobooks, t.chapters)

module _ (B : Backend) (L : IsLawful B) where
  open L use {view}

  module _ (c : Collection) where
    abbrev pub Kept : B.State → Type 0
    Kept s = collection (view s) ≡ c

    of_view : {s s' : B.State} → Kept s → view s' ≡ view s → Kept s'
    of_view k e = ap collection e ∙ k

    pub token-Kept : (r : Request) (s : B.State) → Kept s → Kept (token_from_request B r s).1
    unfolding token_from_request token_from_text token_with_id
    token-Kept r s k = text-Kept (token_text r)
      where
        text-Kept : (o : Option String) → Kept (token_from_text B o s).1
        text-Kept none = k
        text-Kept (some text) = elim (Option-cases (B.parse_str text)) [
          | inl e ↦ rw e k
          | inr (id, e) ↦ rw e (
              Ends-state Kept (L.api_tokens.first_optional_law (λ t. t.id == id) s)
                (λ _ _ h. of_view k h.0) (λ _ _ h. of_view k h.0))
        ]

    -- A call that keeps it, whatever it returns.
    abbrev pub Keeping : {E A : Type 0} → Result E A × B.State → Type 0
    Keeping r = Ends (λ _ s. Kept s) (λ _ s. Kept s) r

    pub login-Keeping : (u : UserSerializer) (s : B.State) → Kept s → Keeping (Auth.login B u s)
    login-Keeping u s k =
        Ends-mono (login_outcome B L u s) (λ _ _ h. ap collection h.added ∙ k)
          (λ _ _ h. of_view k h.0)

    pub register-Keeping :
        (u : UserSerializer) (b : Bool) (s : B.State) → Kept s → Keeping (Auth.register B u b s)
    unfolding Auth.register
    register-Keeping u false s k = fails _ s k
    register-Keeping u true s k =
        Ends-bind _
          (Ends-converted _ (create_user_outcome B L u.email u.password s) (λ _ _ h. of_view k h.0))
          (λ _ s' h. returns _ s' (ap collection h.3 ∙ k)) (λ _ _ h. h)

    pub logout-Keeping :
        (u : User) (t : ApiToken) (s : B.State) → Kept s → Keeping (Auth.logout B u t s)
    logout-Keeping u t s k =
        Ends-mono (logout_outcome B L u t s) (λ _ _ h. ap collection h.1 ∙ k)
          (λ _ _ h. of_view k h.0)

    pub logout_all-Keeping :
        (u : User) (t : ApiToken) (s : B.State) → Kept s → Keeping (Auth.logout_all B u t s)
    logout_all-Keeping u t s k =
        Ends-mono (logout_all_outcome B L u t s) (λ _ _ h. ap collection h.1 ∙ k)
          (λ _ _ h. of_view k h.0)

    pub libraries-Keeping : (u : User) (s : B.State) → Kept s → Keeping (Libraries.libraries B u s)
    unfolding Libraries.libraries
    libraries-Keeping u s k =
        Ends-bind _ (Ends-converted _ (L.libraries.load_law (λ _. true) s) (λ _ _ h. of_view k h.0))
          (λ _ s' h. returns _ s' (of_view k h.0)) (λ _ _ h. h)

    chapters-Keeping :
        (bs : List Audiobook) (s : B.State) → Kept s → Keeping (Libraries.chapters_of B bs s)
    unfolding Libraries.chapters_of
    chapters-Keeping [] s k = returns [] s k
    chapters-Keeping (b ∷ bs) s k =
        Ends-bind _
          (Ends-converted _ (L.chapters.load_law (λ c. c.audiobook_id == b.id) s)
            (λ _ _ h. of_view k h.0))
          (λ cs s₁ h.
            Ends-bind _ (chapters-Keeping bs s₁ (of_view k h.0)) (λ _ s₂ h. returns _ s₂ h)
              (λ _ _ h. h))
          (λ _ _ h. h)

    pub things-Keeping :
        (u : User) (s : B.State) → Kept s → Keeping (Libraries.all_the_things B u s)
    unfolding Libraries.all_the_things
    things-Keeping u s k =
        Ends-bind _ (Ends-converted _ (accessible_libraries_iff B L u s) (λ _ _ h. of_view k h.0))
          (λ _ s₁ h₁.
            Ends-bind _
              (Ends-converted _ (accessible_audiobooks_iff B L u s₁)
                (λ _ _ h. of_view (of_view k h₁.0) h.0))
              (λ books s₂ h₂.
                Ends-bind _ (chapters-Keeping books s₂ (of_view (of_view k h₁.0) h₂.0))
                  (λ _ s₃ k₃.
                    Ends-bind _
                      (Ends-converted _ (L.playstates.load_law (λ p. p.user_id == u.id) s₃)
                        (λ _ _ h. of_view k₃ h.0))
                      (λ _ s₄ h₄. returns _ s₄ (of_view k₃ h₄.0)) (λ _ _ h. h))
                  (λ _ _ h. h))
              (λ _ _ h. h))
          (λ _ _ h. h)

    pub update_playstates-Keeping :
        (p : List ApiPlaystate) (u : User) (s : B.State)
        → Kept s
        → Keeping (Libraries.update_playstates B p u s)
    update_playstates-Keeping p u s k =
        Ends-mono (update_playstates_outcome B L p u s)
          (λ _ _ h. elim h.1 [
            | inl done ↦ ap collection done.others ∙ k
            | inr same ↦ of_view k same
          ])
          (λ _ _ b. absurd b)

    module _ (open_file : Opening B.State) (opens : OpensFiles view open_file) (dir : String) where
      pub data_file-Keeping :
          (u : User) (id : Uuid) (s : B.State)
          → Kept s
          → Keeping (Audiobooks.get_data_file B open_file dir u id s)
      data_file-Keeping u id s k =
          Ends-mono (get_data_file_outcome B L open_file opens dir u id s) (λ _ _ h. of_view k h.0)
            (λ _ _ h. of_view k h.0)

      pub audiobook-Keeping :
          (u : User) (id : Uuid) (s : B.State)
          → Kept s
          → Keeping (Audiobooks.get_audiobook B open_file dir u id s)
      audiobook-Keeping u id s k =
          Ends-mono (get_audiobook_outcome B L open_file dir u id s) (λ _ _ h. of_view k h.0)
            (λ _ _ h. of_view k h.0)

      pub audiobooks-Keeping :
          (u : User) (s : B.State)
          → Kept s
          → Keeping (Audiobooks.get_audiobooks B open_file dir u s)
      unfolding Audiobooks.get_audiobooks
      audiobooks-Keeping u s k =
          Ends-bind _
            (Ends-converted _ (accessible_audiobooks_iff B L u s) (λ _ _ h. of_view k h.0))
            (λ _ s' h. returns _ s' (of_view k h.0)) (λ _ _ h. h)

      cover-Keeping :
          (r : Result Audiobooks.IoError String) (s : B.State)
          → Kept s
          → Keeping (Audiobooks.cover_opened B open_file dir r s)
      unfolding Audiobooks.cover_opened
      cover-Keeping (ok f) s k = returns f s k
      cover-Keeping (err Audiobooks.io_not_found) s k = fails _ s k
      cover-Keeping (err Audiobooks.io_other) s k = fails _ s k

      coverart_if-Keeping :
          (id : Uuid) (o : Option Audiobook) (s : B.State)
          → Kept s
          → Keeping (Audiobooks.coverart_if B open_file dir id o s)
      unfolding Audiobooks.coverart_if
      coverart_if-Keeping id none s k = fails _ s k
      coverart_if-Keeping id (some b) s k =
          Ends-handled (Audiobooks.cover_opened B open_file dir) (opens _ s)
            (λ f s' h. cover-Keeping (ok f) s' (of_view k h.0))
            (λ e s' h. cover-Keeping (err e) s' (of_view k h))

      pub coverart-Keeping :
          (u : User) (id : Uuid) (s : B.State)
          → Kept s
          → Keeping (Audiobooks.get_coverart B open_file dir u id s)
      unfolding Audiobooks.get_coverart
      coverart-Keeping u id s k =
          Ends-bind _
            (Ends-converted _ (get_book_if_accessible_iff B L u id s) (λ _ _ h. of_view k h.0))
            (λ o s' h. coverart_if-Keeping id o s' (of_view k h.0)) (λ _ _ h. h)
