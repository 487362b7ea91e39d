-- ===== src/Server/Sealed.antt =====
-- What the web server of src/helpers/rocket.rs does for a client without a session.
use vorleser_server.Prelude.{String, ◌≡◌, refl, Bool, true, false, Option, none, some, List, Result}
use vorleser_server.Config.{Config}
use vorleser_server.Db.{User, Tables}
use vorleser_server.Db.Backend.{Backend}
use vorleser_server.Db.Lawful.{IsLawful}
use vorleser_server.Models.Playstate.{ApiPlaystate}
use vorleser_server.Responses.Status.{Status}
use vorleser_server.Api.Auth.{UserSerializer}
use vorleser_server.Api.Audiobooks.{Opening}
use vorleser_server.Api.Request.{token_text}
use vorleser_server.Api.Guard.{
  Outcome, Identified, is_user, bad, no_token, orphan, failed, named_token,
  user_from_request_outcome,
}
use vorleser_server.Server.Routes.{
  HttpRequest, Endpoint, for_user, options_handler, login, register, find_route, mounted,
}
use vorleser_server.Server.{Reply, preflight, crashed, caught, Serving, guarded, routed, serve}

-- The reply of a catcher, the reply to OPTIONS, or a closed connection: no data and no file.
pub data Turned : Reply → Type 0 where
  turned_away : (status : Status) → Turned (caught status)
  only_preflight : Turned preflight
  closed : Turned crashed

abbrev pub opens : Option (Endpoint × List String) → Bool
opens none = false
opens (some (options_handler, params)) = false
opens (some (login, params)) = true
opens (some (register, params)) = true
opens (some (for_user e, params)) = false

-- Whether a request is one to log in or to register.
abbrev pub asks_in : HttpRequest → Bool
asks_in r = opens (find_route mounted r)

module _ (B : Backend) (L : IsLawful B) where
  open L use {view}

  abbrev Shut : Tables → Reply × B.State → Type 0
  Shut t (reply, s) = Turned reply × (view s ≡ t)

  unknown-Shut :
      (text : Option String) (t : Tables) (k : User → Serving B)
      → named_token B text t ≡ none
      → {o : Outcome User} (s : B.State) → Identified B L text t o
      → view s ≡ t
      → Shut t (guarded B (o, s) k)
  unknown-Shut text t k n s (is_user token u e _) v = cc
  unknown-Shut text t k n s (bad _) v = (turned_away Status.bad_request, v)
  unknown-Shut text t k n s (no_token _ _) v = (turned_away Status.unauthorized, v)
  unknown-Shut text t k n s (orphan token e _) v = cc
  unknown-Shut text t k n s (failed e _) v = (closed, v)

  module _ (connect : B.State → Bool × B.State) (open_file : Opening B.State)
      (json_user : String → Result Status UserSerializer)
      (json_playstates : String → Result Status (List ApiPlaystate)) (config : Config) where
    routed-Shut :
        (r : HttpRequest) (o : Option (Endpoint × List String)) (s : B.State)
        → opens o ≡ false
        → named_token B (token_text r.credentials) (view s) ≡ none
        → Shut (view s) (routed B connect open_file json_user json_playstates config r o s)
    routed-Shut r none s q n = (turned_away Status.not_found, refl)
    routed-Shut r (some (options_handler, params)) s q n = (only_preflight, refl)
    routed-Shut r (some (login, params)) s q n = cc
    routed-Shut r (some (register, params)) s q n = cc
    routed-Shut r (some (for_user e, params)) s q n =
        let (identified, v) = user_from_request_outcome B L r.credentials s in
        unknown-Shut (token_text r.credentials) (view s) _ n _ identified v

    -- Whatever a request asks for, other than to log in or to register: if the text of its token names
    -- no stored token, the reply holds no data and no file, and the tables stay as they are.
    pub serve-Turned :
        (r : HttpRequest) (s : B.State)
        → asks_in r ≡ false
        → named_token B (token_text r.credentials) (view s) ≡ none
        → Turned (serve B connect open_file json_user json_playstates config r s).0
          × (view (serve B connect open_file json_user json_playstates config r s).1 ≡ view s)
    unfolding serve
    serve-Turned r s q n = routed-Shut r (find_route mounted r) s q n
