-- ===== src/Api/Auth/Lifetime.antt =====
-- A token works from the login that made it until a logout.
use vorleser_server.Prelude.{
  String, ◌≡◌, refl, sym, subst, ap, ◌∙◌, ◌≢◌, ◌⊎◌, inl, inr, ◌↔◌, true, false, not, Option, none,
  some, List, [], ◌∷◌, ◌++◌, filter, find, any, In, if◌then◌else◌, ◌==◌, nat_eq, string_eq,
  bytes_eq, bool_eq, nat_beq_iff, arith,
}
use vorleser_server.Exec.Ends.{Ends, returns, Ends-bind, Ends-converted}
use vorleser_server.Errors.{DieselError}
use vorleser_server.Db.{Uuid, User, ApiToken, Tables}
use vorleser_server.Db.Table
use vorleser_server.Db.Backend.{Backend}
use vorleser_server.Db.Lawful.{IsLawful}
use mathlib.Core.Option.{some-injective}
use vorleser_server.Prelude.{find-append, In-filter}
use vorleser_server.Responses.Status.{Status}
use vorleser_server.Responses.Success.{ApiResponse, ok_response}
use vorleser_server.Responses.Error.{internal_server_error}
use vorleser_server.Responses.Convert.{from_diesel, from-database}
use vorleser_server.Api.Answer.{refused, Answer}
use vorleser_server.Api.Request.{Request, token_text}
use vorleser_server.Api.Guard.{
  Outcome, success, failure, panicked, named_token, named_user, Identified, is_user, bad, no_token,
  orphan, failed, user_from_request, user_from_request_outcome, is_malformed,
}
use vorleser_server.Api.Auth.{UserSerializer, logout, logout_all}
use vorleser_server.Api.Auth.Sessions.{LoggedIn, with_token}

fresh_id :
    (k : ApiToken) (l : List ApiToken)
    → any (Table.api_tokens.clash k) l ≡ false
    → any (λ t. t.id == k.id) l ≡ false
fresh_id k [] h = refl
fresh_id k (x ∷ xs) h = ground (arith, fresh_id k xs)

-- What is answered once the token and its user are known.
recognised :
    (B : Backend) (L : IsLawful B) (text : Option String) (t : Tables) (k : ApiToken) (u : User)
    (o : Outcome User)
    → is_malformed B text ≡ false
    → named_token B text t ≡ some k
    → named_user B (some k) t ≡ some u
    → Identified B L text t o
    → (o ≡ success u) ⊎ ((o ≡ panicked) × ((e : DieselError) × L.IsDatabase e))
recognised B L text t k u _ m named known (is_user k' u' named' known') =
    inl (
      ap success (some-injective _ _ (sym known' ∙ ap (λ k. named_user B (some k) t) same ∙ known)))
  where
    same : k' ≡ k
    same = some-injective _ _ (sym named' ∙ named)
recognised B L text t k u _ m named known (bad b) = cc
recognised B L text t k u _ m named known (no_token _ none_left) = cc
recognised B L text t k u _ m named known (orphan k' named' gone) =
    cc (ap (λ k. named_user B (some k) t) (some-injective _ _ (sym named' ∙ named)))
recognised B L text t k u _ m named known (failed e d) = inr (refl, (e, d))

-- The text of a token's id names it, if it is the row with that id.
named-hyphenated :
    (B : Backend) (L : IsLawful B) (text : Option String) (id : Uuid) (t : Tables)
    → text ≡ some (B.hyphenated id)
    → (is_malformed B text ≡ false) × (named_token B text t ≡ find (λ x. x.id == id) t.api_tokens)
named-hyphenated B L text id t e = (
  ap (is_malformed B) e ∙ rw (L.parse_str-hyphenated id, is_malformed),
  ap (λ o. named_token B o t) e ∙ rw (L.parse_str-hyphenated id, named_token),
)

find-last :
    (k : ApiToken) (l : List ApiToken)
    → any (Table.api_tokens.clash k) l ≡ false
    → find (λ x. x.id == k.id) (l ++ k ∷ []) ≡ some k
find-last k l h =
    find-append (λ x. x.id == k.id) l (k ∷ []) ∙ ground (arith, fresh_id k l, nat_beq_iff k.id k.id)

find-removed :
    (id gone : Uuid) (l : List ApiToken)
    → find (λ t. t.id == id) (filter (λ t. not (t.id == gone)) l)
      ≡ (if id == gone then none else find (λ t. t.id == id) l)
find-removed id gone [] = ground arith
find-removed id gone (x ∷ xs) = ground (arith, find-removed id gone xs)

-- What is answered once the token is known to be gone.
turned_away :
    (B : Backend) (L : IsLawful B) (text : Option String) (t : Tables) (o : Outcome User)
    → is_malformed B text ≡ false
    → named_token B text t ≡ none
    → Identified B L text t o
    → (o ≡ failure Status.unauthorized) ⊎ ((o ≡ panicked) × ((e : DieselError) × L.IsDatabase e))
turned_away B L text t _ m none_left (is_user k u named known) = cc
turned_away B L text t _ m none_left (bad b) = cc
turned_away B L text t _ m none_left (no_token _ _) = inl refl
turned_away B L text t _ m none_left (orphan k named gone) = cc
turned_away B L text t _ m none_left (failed e d) = inr (refl, (e, d))

module _ (B : Backend) (L : IsLawful B) where
  open L use {view, IsDatabase}

  -- A request that presents the token of a login, in the state that the login left, comes from the
  -- account that logged in, unless the database fails; the account has to be found under its id.
  pub session_opened :
      (user_in : UserSerializer) (t t' : Tables) (r : ApiResponse Answer)
      (l : LoggedIn B user_in t t' r) (request : Request) (s : B.State)
      → view s ≡ t'
      → find (λ u. u.id == l.who.id) t.users ≡ some l.who
      → token_text request ≡ some (B.hyphenated l.token.id)
      → ((user_from_request B request s).0 ≡ success l.who)
        ⊎ (((user_from_request B request s).0 ≡ panicked) × ((e : DieselError) × IsDatabase e))
  session_opened user_in t t' r l request s v found presented =
      recognised B L (token_text request) (view s) l.token l.who _ read.0
        (read.1
          ∙ ap (λ t. find (λ x. x.id == l.token.id) t.api_tokens) now
          ∙ find-last l.token t.api_tokens l.fresh)
        (ap (λ t. find (λ u. u.id == l.token.user_id) t.users) now
          ∙ ap (λ id. find (λ u. u.id == id) t.users) l.own
          ∙ found)
        (user_from_request_outcome B L request s).0
    where
      now : view s ≡ with_token l.token t
      now = v ∙ l.added

      read :
          (is_malformed B (token_text request) ≡ false)
          × (named_token B (token_text request) (view s)
              ≡ find (λ x. x.id == l.token.id) (view s).api_tokens)
      read = named-hyphenated B L (token_text request) l.token.id (view s) presented

  pub logout_outcome :
      (current_user : User) (token : ApiToken) (s : B.State)
      → Ends
          (λ r s'.
            (r ≡ ok_response)
            × (view s' ≡ record (view s) { api_tokens = (view s').api_tokens })
            × ((id : Uuid)
                → find (λ t. t.id == id) (view s').api_tokens
                  ≡ (if id == token.id then none else find (λ t. t.id == id) (view s).api_tokens)))
          (λ e s'. (view s' ≡ view s) × (e ≡ refused internal_server_error))
          (logout B current_user token s)
  unfolding logout
  logout_outcome current_user token s =
      Ends-bind _
        (Ends-converted (λ e. refused (from_diesel e))
          (L.api_tokens.delete_law (λ t. t.id == token.id) s)
          (λ e s' h. (h.0, ap refused (from-database e (L.database_law e h.1)))))
        (λ n s' h. returns ok_response s' (
          refl,
          h ∙ ap (λ t. record (view s) { api_tokens = t.api_tokens }) (sym h),
          λ id.
              ap (λ t. find (λ x. x.id == id) t.api_tokens) h
              ∙ find-removed id token.id (view s).api_tokens,
        ))
        (λ e s' h. h)

  pub logout_all_outcome :
      (current_user : User) (token : ApiToken) (s : B.State)
      → Ends
          (λ r s'.
            (r ≡ ok_response)
            × (view s' ≡ record (view s) { api_tokens = (view s').api_tokens })
            × ((t : ApiToken)
                → In t (view s').api_tokens
                  ↔ (In t (view s).api_tokens × (t.user_id ≢ current_user.id))))
          (λ e s'. (view s' ≡ view s) × (e ≡ refused internal_server_error))
          (logout_all B current_user token s)
  unfolding logout_all
  logout_all_outcome current_user token s =
      Ends-bind _
        (Ends-converted (λ e. refused (from_diesel e))
          (L.api_tokens.delete_law (λ t. t.user_id == current_user.id) s)
          (λ e s' h. (h.0, ap refused (from-database e (L.database_law e h.1)))))
        (λ n s' h. returns ok_response s' (
          refl,
          h ∙ ap (λ t. record (view s) { api_tokens = t.api_tokens }) (sym h),
          λ t. subst (λ v. In t v.api_tokens ↔ Kept t) (sym h) (kept t),
        ))
        (λ e s' h. h)
    where
      Kept : ApiToken → Type 0
      Kept t = In t (view s).api_tokens × (t.user_id ≢ current_user.id)

      other :
          (t : ApiToken)
          → (not (t.user_id == current_user.id) ≡ true) ↔ (t.user_id ≢ current_user.id)
      other t = ground (arith, nat_beq_iff t.user_id current_user.id)

      kept :
          (t : ApiToken)
          → In t (filter (λ t. not (t.user_id == current_user.id)) (view s).api_tokens) ↔ Kept t
      kept t =
          let f = In-filter (λ t. not (t.user_id == current_user.id)) t (view s).api_tokens in
          (λ i. ((f.0 i).0, (other t).0 (f.0 i).1), λ (i, n). f.1 (i, (other t).1 n))

  -- A request that presents the id of a token that is not stored is refused as unauthorized, unless
  -- the database fails.
  pub session_closed :
      (request : Request) (id : Uuid) (s : B.State)
      → find (λ t. t.id == id) (view s).api_tokens ≡ none
      → token_text request ≡ some (B.hyphenated id)
      → ((user_from_request B request s).0 ≡ failure Status.unauthorized)
        ⊎ (((user_from_request B request s).0 ≡ panicked) × ((e : DieselError) × IsDatabase e))
  session_closed request id s gone presented =
      turned_away B L (token_text request) (view s) _ read.0 (read.1 ∙ gone)
        (user_from_request_outcome B L request s).0
    where
      read :
          (is_malformed B (token_text request) ≡ false)
          × (named_token B (token_text request) (view s)
              ≡ find (λ x. x.id == id) (view s).api_tokens)
      read = named-hyphenated B L (token_text request) id (view s) presented
