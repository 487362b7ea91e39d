-- ===== src/Api/Guard.antt =====
-- src/handlers.rs: who a request comes from.
use vorleser_server.Prelude.{
  String, ◌≡◌, refl, sym, subst, ◌∙◌, ◌⊎◌, inl, inr, Bool, true, false, Option, none, some, find,
  ◌==◌, nat_eq, string_eq, bytes_eq, bool_eq, Result, ok, err, Option-cases,
}
use vorleser_server.Exec.Ends.{Ends, returns, fails, Ends-mono}
use vorleser_server.Errors.{DieselError, not_found}
use vorleser_server.Db.{Uuid, User, ApiToken, Tables}
use vorleser_server.Db.Backend.{Backend}
use vorleser_server.Db.Lawful.{IsLawful}
use vorleser_server.Responses.Status.{Status}
use vorleser_server.Api.Request.{Request, token_text}

-- `request::Outcome`, and a panic.
pub data Outcome (A : Type 0) : Type 0 where
  success : A → Outcome A
  failure : Status → Outcome A
  panicked : Outcome A

module _ (B : Backend) where
  abbrev Guarded : Type 0 → Type 0
  Guarded A = B.State → Outcome A × B.State

  -- `expect("Database error!")` on an error.
  unfoldable pub found_token : Result DieselError (Option ApiToken) → Outcome ApiToken
  found_token (ok (some token)) = success token
  found_token (ok none) = failure Status.unauthorized
  found_token (err _) = panicked

  unfoldable pub token_with_id : Option Uuid → Guarded ApiToken
  unfolding found_token
  token_with_id (some submitted_id) s =
      let (r, s') = B.api_tokens.first_optional (λ t. t.id == submitted_id) s in (found_token r, s')
  token_with_id none s = (failure Status.bad_request, s)

  unfoldable pub token_from_text : Option String → Guarded ApiToken
  unfolding token_with_id
  token_from_text (some token) s = token_with_id (B.parse_str token) s
  token_from_text none s = (failure Status.unauthorized, s)

  -- `FromRequest for ApiToken`
  unfoldable pub token_from_request : Request → Guarded ApiToken
  unfolding token_from_text token_text
  token_from_request request = token_from_text (token_text request)

  -- `first::<User>(&*db).unwrap()`
  unfoldable pub found_user : Result DieselError User → Outcome User
  found_user (ok u) = success u
  found_user (err _) = panicked

  unfoldable pub user_of_token : Outcome ApiToken → Guarded User
  unfolding found_user
  user_of_token (success token) s =
      let (r, s') = B.users.first (λ u. u.id == token.user_id) s in (found_user r, s')
  user_of_token (failure status) s = (failure status, s)
  user_of_token panicked s = (panicked, s)

  -- `FromRequest for User`
  unfoldable pub user_from_request : Request → Guarded User
  unfolding user_of_token token_from_request
  user_from_request request s =
      let (token, s') = token_from_request request s in user_of_token token s'

  -- The token that a text names in the tables.
  abbrev pub named_token : Option String → Tables → Option ApiToken
  named_token none t = none
  named_token (some text) t = elim (B.parse_str text) [
    | none ↦ none
    | some id ↦ find (λ x. x.id == id) t.api_tokens
  ]

  abbrev pub is_malformed : Option String → Bool
  is_malformed none = false
  is_malformed (some text) = elim (B.parse_str text) [ none ↦ true | some _ ↦ false ]

  -- The user of a stored token.
  abbrev pub named_user : Option ApiToken → Tables → Option User
  named_user none t = none
  named_user (some token) t = find (λ u. u.id == token.user_id) t.users

module _ (B : Backend) (L : IsLawful B) where
  open L use {view, IsDatabase}

  -- What the guard may say, and on what grounds. It panics only where the database fails or a token
  -- belongs to no user.
  pub data Identified (text : Option String) (t : Tables) : Outcome User → Type 0 where
    is_user :
        (k : ApiToken) (u : User)
        → named_token B text t ≡ some k
        → named_user B (some k) t ≡ some u
        → Identified text t (success u)
    bad : is_malformed B text ≡ true → Identified text t (failure Status.bad_request)
    no_token :
        is_malformed B text ≡ false
        → named_token B text t ≡ none
        → Identified text t (failure Status.unauthorized)
    orphan :
        (k : ApiToken)
        → named_token B text t ≡ some k
        → named_user B (some k) t ≡ none
        → Identified text t panicked
    failed : (e : DieselError) → IsDatabase e → Identified text t panicked

  -- The guard's last step.
  user_found :
      (text : Option String) (t : Tables) (k : ApiToken)
      → named_token B text t ≡ some k
      → {r : Result DieselError User × B.State}
      → Ends
          (λ u s'. (view s' ≡ t) × (find (λ u. u.id == k.user_id) t.users ≡ some u))
          (λ e s'.
            (view s' ≡ t)
            × (IsDatabase e ⊎ ((e ≡ not_found) × (find (λ u. u.id == k.user_id) t.users ≡ none))))
          r
      → Identified text t (found_user B r.0) × (view r.1 ≡ t)
  unfolding found_user
  user_found text t k named (returns u s' h) = (is_user k u named h.1, h.0)
  user_found text t k named (fails e s' (v, inl d)) = (failed e d, v)
  user_found text t k named (fails e s' (v, inr h)) = (orphan k named h.1, v)

  token_found :
      (text : Option String) (t : Tables) {r : Result DieselError (Option ApiToken) × B.State}
      → is_malformed B text ≡ false
      → Ends
          (λ o s'. (view s' ≡ t) × (o ≡ named_token B text t))
          (λ e s'. (view s' ≡ t) × IsDatabase e)
          r
      → Identified text t (user_of_token B (found_token B r.0) r.1).0
        × (view (user_of_token B (found_token B r.0) r.1).1 ≡ t)
  unfolding user_of_token found_token
  token_found text t m (returns none s' h) = (no_token m (sym h.1), h.0)
  token_found text t m (returns (some k) s' h) = user_found text t k (sym h.1) (
      subst
        (λ t.
          Ends (λ u s''. (view s'' ≡ t) × (find (λ u. u.id == k.user_id) t.users ≡ some u))
            (λ e s''.
              (view s'' ≡ t)
              × (IsDatabase e ⊎ ((e ≡ not_found) × (find (λ u. u.id == k.user_id) t.users ≡ none))))
            (B.users.first (λ u. u.id == k.user_id) s'))
        h.0 (L.users.first_law (λ u. u.id == k.user_id) s'))
  token_found text t m (fails e s' h) = (failed e h.1, h.0)

  text_read :
      (text : Option String) (s : B.State)
      → Identified text
          (view s)
          (user_of_token B (token_from_text B text s).0 (token_from_text B text s).1).0
        × (view (user_of_token B (token_from_text B text s).0 (token_from_text B text s).1).1
            ≡ view s)
  unfolding user_of_token token_from_text
  text_read none s = (no_token refl refl, refl)
  text_read (some text) s = elim (Option-cases (B.parse_str text)) [
    | inl e ↦ rw e (bad (rw (e, is_malformed)), refl)
    | inr (id, e) ↦ rw e (
        token_found (some text) (view s) (rw (e, is_malformed)) (
          Ends-mono (L.api_tokens.first_optional_law (λ x. x.id == id) s)
            (λ o s' h. (h.0, h.1 ∙ rw (e, named_token))) (λ e s' h. h)))
  ]

  -- A request is taken for a user exactly if the text of its token names a stored token of theirs; it
  -- is refused as malformed if the text is no UUID, and as unauthorized if there is no text or no such
  -- token. Only where the database fails at a statement, or the token's user is not stored, does the
  -- guard panic instead. The tables stay as they are.
  pub user_from_request_outcome :
      (request : Request) (s : B.State)
      → Identified (token_text request) (view s) (user_from_request B request s).0
        × (view (user_from_request B request s).1 ≡ view s)
  unfolding user_from_request token_from_request
  user_from_request_outcome request s = text_read (token_text request) s
