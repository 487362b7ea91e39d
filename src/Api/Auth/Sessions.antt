-- ===== src/Api/Auth/Sessions.antt =====
-- What login, logout and logout_all of src/api/auth.rs do to the sessions.
use vorleser_server.Prelude.{
  String, ◌≡◌, refl, sym, subst, ap, ◌∙◌, ◌⊎◌, inl, inr, Bool, true, false, Option, none, some, [],
  ◌∷◌, ◌++◌, find, any, ◌==◌, nat_eq, string_eq, bytes_eq, bool_eq,
}
use vorleser_server.Exec.Ends.{Ends, returns, fails, Ends-bind, Ends-converted, Ends-handled}
use vorleser_server.Errors.{DieselError, not_found, Failure, diesel}
use vorleser_server.Db.{User, ApiToken, Tables}
use vorleser_server.Db.Table
use vorleser_server.Db.Backend.{Backend}
use vorleser_server.Db.Lawful.{IsLawful, IsStopped}
use vorleser_server.Responses.Error.{internal_server_error}
use vorleser_server.Responses.Success.{ApiResponse, ok_response, with_data}
use vorleser_server.Responses.Convert.{from_diesel, from_failure}
use vorleser_server.Models.User
use vorleser_server.Api.Answer.{Stop, refused, panicked, Answer, token_answer}
use vorleser_server.Api.Auth.{UserSerializer, wrong_login, login_if, login_found, login}

abbrev pub with_token : ApiToken → Tables → Tables
with_token k t = record t { api_tokens = t.api_tokens ++ k ∷ [] }

abbrev pub account : String → Tables → Option User
account email t = find (λ u. u.email == email) t.users

module _ (B : Backend) where
  -- A login with its token, fresh and of the account with the address.
  pub record LoggedIn (user_in : UserSerializer) (t t' : Tables) (r : ApiResponse Answer)
      : Type 0 where
    pub who : User
    pub token : ApiToken
    pub known : account user_in.email t ≡ some who
    pub verified : User.verify_password B who user_in.password ≡ some true
    pub answer : r ≡ with_data ok_response (token_answer token.id)
    pub own : token.user_id ≡ who.id
    pub fresh : any (Table.api_tokens.clash token) t.api_tokens ≡ false
    pub added : t' ≡ with_token token t

module _ (B : Backend) (L : IsLawful B) where
  open L use {view, IsDatabase}

  -- Why a login ends without a token.
  pub data Denied (user_in : UserSerializer) (t : Tables) : Stop → Type 0 where
    unknown : account user_in.email t ≡ none → Denied user_in t wrong_login
    unread : (e : DieselError) → IsDatabase e → Denied user_in t wrong_login
    wrong :
        (u : User)
        → account user_in.email t ≡ some u
        → User.verify_password B u user_in.password ≡ some false
        → Denied user_in t wrong_login
    malformed_hash :
        (u : User)
        → account user_in.email t ≡ some u
        → User.verify_password B u user_in.password ≡ none
        → Denied user_in t panicked
    unstored :
        (u : User)
        → account user_in.email t ≡ some u
        → User.verify_password B u user_in.password ≡ some true
        → (e : DieselError) → IsDatabase e
        → Denied user_in t (refused internal_server_error)

  -- A database failure is answered as an internal error.
  from-stopped : (e : Failure) → IsStopped L e → from_failure e ≡ internal_server_error
  unfolding from_failure from_diesel
  from-stopped e (d, f, k) = ap from_failure (f ∙ ap diesel (L.database_law d k).1)

  generate_api_token_lem :
      (u : User) (s : B.State) (t : Tables)
      → view s ≡ t
      → Ends
          (λ k s'.
            (k.user_id ≡ u.id)
            × (any (Table.api_tokens.clash k) t.api_tokens ≡ false)
            × (view s' ≡ with_token k t))
          (λ e s'. (view s' ≡ t) × IsStopped L e)
          (User.generate_api_token B u s)
  unfolding User.generate_api_token
  generate_api_token_lem u s t v =
      Ends-bind _
        (Ends-converted diesel (L.api_tokens.insert_law _ _)
          (λ e s' h. (h.0 ∙ steady, (e, refl, h.1))))
        (λ n s' h. returns _ s' (refl, rw steady at h.1, rw steady at h.0)) (λ e s' h. h)
    where
      steady : view (B.utc_now (B.new_v4 s).1).1 ≡ t
      steady = L.utc_now_law _ ∙ L.new_v4_law s ∙ v

  login_if_lem :
      (user_in : UserSerializer) (u : User) (o : Option Bool) (s : B.State) (t : Tables)
      → view s ≡ t
      → account user_in.email t ≡ some u
      → User.verify_password B u user_in.password ≡ o
      → Ends
          (λ r s'. LoggedIn B user_in t (view s') r)
          (λ e s'. (view s' ≡ t) × Denied user_in t e)
          (login_if B u o s)
  unfolding login_if
  login_if_lem user_in u none s t v known p = fails panicked s (v, malformed_hash u known p)
  login_if_lem user_in u (some false) s t v known p = fails wrong_login s (v, wrong u known p)
  login_if_lem user_in u (some true) s t v known p =
      Ends-bind _
        (Ends-converted (λ e. refused (from_failure e)) (generate_api_token_lem u s t v)
          (λ e s' h. (
            h.0,
            subst (λ a. Denied user_in t (refused a)) (sym (from-stopped e h.1))
                (unstored u known p h.1.0 h.1.2),
          )))
        (λ k s' h. returns _ s' (record {
          who = u;
          token = k;
          known = known;
          verified = p;
          answer = refl;
          own = h.0;
          fresh = h.1;
          added = h.2;
        }))
        (λ e s' h. h)

  -- A login with the password of the account at the address adds one fresh token of that account and
  -- answers with its id. Every other login leaves the tables as they were; an unknown address and a
  -- wrong password are answered alike, as unauthorized.
  pub login_outcome :
      (user_in : UserSerializer) (s : B.State)
      → Ends
          (λ r s'. LoggedIn B user_in (view s) (view s') r)
          (λ e s'. (view s' ≡ view s) × Denied user_in (view s) e)
          (login B user_in s)
  unfolding login login_found
  login_outcome user_in s =
      Ends-handled (login_found B user_in) (L.users.first_law (λ u. u.email == user_in.email) s)
        (λ u s₁ h. login_if_lem user_in u _ s₁ (view s) h.0 h.1 refl)
        (λ e s₁ h. fails wrong_login s₁ (h.0, denied e h.1))
    where
      denied :
          (e : DieselError)
          → (IsDatabase e ⊎ ((e ≡ not_found) × (account user_in.email (view s) ≡ none)))
          → Denied user_in (view s) wrong_login
      denied e (inl d) = unread e d
      denied e (inr h) = unknown h.1
