-- ===== src/Server.antt =====
-- src/helpers/rocket.rs, the catchers of src/handlers.rs, and the guard of src/helpers/db.rs: the
-- whole web server as a function from requests to replies. Rocket finds the route, evaluates the
-- guards of its handler in order, then the parameter of the path, then the body; a parameter that is
-- refused leaves no route. Parsing a body as JSON is a parameter.
pub mod Routes
pub mod Headers
pub mod Sealed
pub mod Kept
pub mod Serving
mod Tests
use vorleser_server.Prelude.{
  String, Bool, true, false, Option, none, some, List, [], ◌∷◌, Result, ok, err,
}
use vorleser_server.Exec.{Exec}
use vorleser_server.Config.{Config}
use vorleser_server.Db.{Uuid, User, ApiToken}
use vorleser_server.Db.Backend.{Backend}
use vorleser_server.Models.Playstate.{ApiPlaystate}
use vorleser_server.Responses.Status.{Status}
use vorleser_server.Responses.Error.{
  ApiError, bad_request, unauthorized, forbidden, not_found_error, internal_server_error,
  service_unavailable,
}
use vorleser_server.Responses.Success.{ApiResponse}
use vorleser_server.Api.Answer.{Answer, Stop, refused, panicked}
use vorleser_server.Api.Request.{Request}
use vorleser_server.Api.Guard.{Outcome, success, failure, user_from_request, token_from_request}
use vorleser_server.Api.Auth
use vorleser_server.Api.Auth.{UserSerializer}
use vorleser_server.Api.Audiobooks
use vorleser_server.Api.Audiobooks.{Opening}
use vorleser_server.Api.Libraries
use vorleser_server.Server.Routes.{
  HttpRequest, Endpoint, UserEndpoint, for_user, options_handler, get_data_file, libraries,
  all_the_things, update_playstates, get_coverart, get_audiobook, get_audiobooks, login, logout,
  logout_all, register, whoami, find_route, mounted,
}

-- What a client gets. A catcher's reply is an error too; a status without a catcher gets Rocket's own page, and
-- after a panic the connection is closed.
pub data Reply : Type 0 where
  answered : ApiResponse Answer → Reply
  file : String → Reply
  refusal : ApiError → Reply
  preflight : Reply
  plain : Status → Reply
  crashed : Reply

-- `catchers![...]`
unfoldable pub caught : Status → Reply
unfolding bad_request unauthorized forbidden not_found_error internal_server_error
    service_unavailable
caught Status.bad_request = refusal bad_request
caught Status.unauthorized = refusal unauthorized
caught Status.forbidden = refusal forbidden
caught Status.not_found = refusal not_found_error
caught Status.internal_server_error = refusal internal_server_error
caught Status.service_unavailable = refusal service_unavailable
caught status = plain status

module _ (B : Backend) where
  abbrev pub Serving : Type 0
  Serving = B.State → Reply × B.State

  abbrev pub rendered : {A : Type 0} → (A → Reply) → Result Stop A → Reply
  rendered render (ok a) = render a
  rendered render (err (refused e)) = refusal e
  rendered render (err panicked) = crashed

  abbrev pub reply_with : {A : Type 0} → (A → Reply) → Exec B.State Stop A → Serving
  reply_with render m s = let (r, s') = m s in (rendered render r, s')

  -- After a guard.
  abbrev pub guarded : {A : Type 0} → Outcome A × B.State → (A → Serving) → Reply × B.State
  guarded (success a, s) k = k a s
  guarded (failure status, s) k = (caught status, s)
  guarded (guard_panicked, s) k = (crashed, s)

  -- `FromParam for Uuid`
  abbrev pub with_uuid : List String → (Uuid → Serving) → Serving
  with_uuid [] k s = (caught Status.not_found, s)
  with_uuid (text ∷ _) k s = elim (B.parse_str text) [
    | none ↦ (caught Status.not_found, s)
    | some id ↦ k id s
  ]

  abbrev pub with_body : {A : Type 0} → Result Status A → (A → Serving) → Serving
  with_body (ok a) k s = k a s
  with_body (err status) k s = (caught status, s)

  abbrev pub connected : Bool × B.State → Serving → Reply × B.State
  connected (true, s) k = k s
  connected (false, s) k = (caught Status.service_unavailable, s)

  -- `connect` is the request for a connection, which fails when none is free in time.
  module _ (connect : B.State → Bool × B.State) (open_file : Opening B.State)
      (json_user : String → Result Status UserSerializer)
      (json_playstates : String → Result Status (List ApiPlaystate)) (config : Config) where
    -- FromRequest for DB
    abbrev pub with_db : Serving → Serving
    with_db k s = connected (connect s) k

    abbrev pub with_user : Request → (User → Serving) → Serving
    with_user credentials k s = guarded (user_from_request B credentials s) k

    abbrev pub with_token : Request → (ApiToken → Serving) → Serving
    with_token credentials k s = guarded (token_from_request B credentials s) k

    -- What the guarded handlers do for a user.
    abbrev pub serve_user : UserEndpoint → List String → HttpRequest → User → Serving
    serve_user get_data_file params r user = with_db (
        with_uuid params (λ book_id.
          reply_with file
            (Audiobooks.get_data_file B open_file config.data_directory user book_id)))
    serve_user get_coverart params r user = with_db (
        with_uuid params (λ book_id.
          reply_with file (Audiobooks.get_coverart B open_file config.data_directory user book_id)))
    serve_user get_audiobook params r user = with_db (
        with_uuid params (λ book_id.
          reply_with answered
            (Audiobooks.get_audiobook B open_file config.data_directory user book_id)))
    serve_user get_audiobooks params r user =
        with_db
          (reply_with answered (Audiobooks.get_audiobooks B open_file config.data_directory user))
    serve_user libraries params r user = with_db (reply_with answered (Libraries.libraries B user))
    serve_user all_the_things params r user =
        with_db (reply_with answered (Libraries.all_the_things B user))
    serve_user update_playstates params r user = with_db (
        with_body (json_playstates r.body)
          (λ playstate. reply_with answered (Libraries.update_playstates B playstate user)))
    serve_user whoami params r user = reply_with answered (Auth.whoami B user)
    serve_user logout params r user =
        with_token r.credentials (λ token. with_db (reply_with answered (Auth.logout B user token)))
    serve_user logout_all params r user =
        with_token r.credentials
          (λ token. with_db (reply_with answered (Auth.logout_all B user token)))

    -- The three routes without a guard for the user, and the others.
    abbrev pub serve_endpoint : Endpoint → List String → HttpRequest → Serving
    serve_endpoint options_handler params r = λ s. (preflight, s)
    serve_endpoint login params r =
        with_db
          (with_body (json_user r.body) (λ user_in. reply_with answered (Auth.login B user_in)))
    serve_endpoint register params r = with_db (
        with_body (json_user r.body)
          (λ user_in. reply_with answered (Auth.register B user_in config.register_web)))
    serve_endpoint (for_user e) params r = with_user r.credentials (serve_user e params r)

    abbrev pub routed : HttpRequest → Option (Endpoint × List String) → Serving
    routed r none s = (caught Status.not_found, s)
    routed r (some (e, params)) s = serve_endpoint e params r s

    unfoldable pub serve : HttpRequest → Serving
    unfolding mounted find_route caught
    serve r = routed r (find_route mounted r)
