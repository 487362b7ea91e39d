-- ===== src/Server/Serving.antt =====
-- No request to the web server of src/helpers/rocket.rs changes the library.
use vorleser_server.Prelude.{
  String, ◌≡◌, refl, ap, ◌∙◌, inl, inr, Bool, true, false, Option, none, some, List, [], ◌∷◌,
  Result, ok, err, Option-cases,
}
use vorleser_server.Exec.{Exec}
use vorleser_server.Exec.Ends.{Ends-state}
use vorleser_server.Config.{Config}
use vorleser_server.Db.{Uuid, User}
use vorleser_server.Db.Backend.{Backend}
use vorleser_server.Db.Lawful.{IsLawful}
use vorleser_server.Models.Playstate.{ApiPlaystate}
use vorleser_server.Responses.Status.{Status}
use vorleser_server.Api.Answer.{Stop}
use vorleser_server.Api.Auth
use vorleser_server.Api.Auth.{UserSerializer}
use vorleser_server.Api.Audiobooks.{Opening}
use vorleser_server.Api.Audiobooks.Serving.{OpensFiles}
use vorleser_server.Api.Guard.{Outcome, success, failure, panicked, user_from_request_outcome}
use vorleser_server.Server.Routes.{
  HttpRequest, UserEndpoint, Endpoint, for_user, options_handler, login, register, get_data_file,
  libraries, all_the_things, update_playstates, get_coverart, get_audiobook, get_audiobooks, logout,
  logout_all, whoami, find_route, mounted,
}
use vorleser_server.Server.{
  Reply, file, answered, Serving, reply_with, guarded, with_uuid, with_body, with_db, serve_user,
  serve_endpoint, routed, serve,
}
use vorleser_server.Server.Kept.{
  Collection, collection, Kept, Keeping, token-Kept, login-Keeping, register-Keeping,
  logout-Keeping, logout_all-Keeping, libraries-Keeping, things-Keeping, update_playstates-Keeping,
  data_file-Keeping, audiobook-Keeping, audiobooks-Keeping, coverart-Keeping,
}

module _ (B : Backend) (L : IsLawful B) (connect : B.State → Bool × B.State)
    (quiet : (s : B.State) → L.view (connect s).1 ≡ L.view s) (open_file : Opening B.State)
    (opens : OpensFiles (L.view) open_file) (json_user : String → Result Status UserSerializer)
    (json_playstates : String → Result Status (List ApiPlaystate)) (config : Config) where
  open L use {view}

  module _ (c : Collection) where
    -- Serving keeps the collection.
    abbrev ServesKept : Serving B → Type 0
    ServesKept m = (s : B.State) → Kept B L c s → Kept B L c (m s).1

    replied-Kept :
        {A : Type 0} (render : A → Reply) (m : Exec B.State Stop A)
        → ((s : B.State) → Kept B L c s → Keeping B L c (m s))
        → ServesKept (reply_with B render m)
    replied-Kept render m h s k = Ends-state (Kept B L c) (h s k) (λ _ _ q. q) (λ _ _ q. q)

    guarded-Kept :
        {A : Type 0} (m : A → Serving B) (o : Outcome A) (s : B.State)
        → ((a : A) → ServesKept (m a))
        → Kept B L c s
        → Kept B L c (guarded B (o, s) m).1
    guarded-Kept m (success a) s h k = h a s k
    guarded-Kept m (failure status) s h k = k
    guarded-Kept m panicked s h k = k

    uuid-Kept :
        (params : List String) (m : Uuid → Serving B)
        → ((id : Uuid) → ServesKept (m id))
        → ServesKept (with_uuid B params m)
    uuid-Kept [] m h s k = k
    uuid-Kept (text ∷ others) m h s k = elim (Option-cases (B.parse_str text)) [
      | inl e ↦ rw (with_uuid, e) k
      | inr (id, e) ↦ rw (with_uuid, e) (h id s k)
    ]

    body-Kept :
        {A : Type 0} (r : Result Status A) (m : A → Serving B)
        → ((a : A) → ServesKept (m a))
        → ServesKept (with_body B r m)
    body-Kept (ok a) m h s k = h a s k
    body-Kept (err status) m h s k = k

    connected-Kept :
        (free : Bool) (m : Serving B) (s : B.State)
        → ServesKept m
        → Kept B L c s
        → Kept B L c (vorleser_server.Server.connected B (free, s) m).1
    connected-Kept true m s h k = h s k
    connected-Kept false m s h k = k

    abbrev db_of : Serving B → Serving B
    db_of = with_db B connect open_file json_user json_playstates config

    db-Kept : (m : Serving B) → ServesKept m → ServesKept (db_of m)
    db-Kept m h s k = connected-Kept (connect s).0 m (connect s).1 h (ap collection (quiet s) ∙ k)

    abbrev user_of : UserEndpoint → List String → HttpRequest → User → Serving B
    user_of = serve_user B connect open_file json_user json_playstates config

    serve_user-Kept :
        (e : UserEndpoint) (params : List String) (r : HttpRequest) (u : User)
        → ServesKept (user_of e params r u)
    unfolding Auth.whoami
    serve_user-Kept get_data_file params r u = db-Kept _ (
        uuid-Kept params _ (λ id.
          replied-Kept file _ (data_file-Keeping B L c open_file opens config.data_directory u id)))
    serve_user-Kept get_coverart params r u = db-Kept _ (
        uuid-Kept params _ (λ id.
          replied-Kept file _ (coverart-Keeping B L c open_file opens config.data_directory u id)))
    serve_user-Kept get_audiobook params r u = db-Kept _ (
        uuid-Kept params _ (λ id.
          replied-Kept answered _
            (audiobook-Keeping B L c open_file opens config.data_directory u id)))
    serve_user-Kept get_audiobooks params r u =
        db-Kept _ (
          replied-Kept answered _
            (audiobooks-Keeping B L c open_file opens config.data_directory u))
    serve_user-Kept libraries params r u =
        db-Kept _ (replied-Kept answered _ (libraries-Keeping B L c u))
    serve_user-Kept all_the_things params r u =
        db-Kept _ (replied-Kept answered _ (things-Keeping B L c u))
    serve_user-Kept update_playstates params r u = db-Kept _ (
        body-Kept (json_playstates r.body) _
          (λ p. replied-Kept answered _ (update_playstates-Keeping B L c p u)))
    serve_user-Kept whoami params r u = λ s k. k
    serve_user-Kept logout params r u = λ s k.
        guarded-Kept _ _ _ (λ t. db-Kept _ (replied-Kept answered _ (logout-Keeping B L c u t)))
          (token-Kept B L c r.credentials s k)
    serve_user-Kept logout_all params r u = λ s k.
        guarded-Kept _ _ _ (λ t. db-Kept _ (replied-Kept answered _ (logout_all-Keeping B L c u t)))
          (token-Kept B L c r.credentials s k)

    serve_endpoint-Kept :
        (e : Endpoint) (params : List String) (r : HttpRequest)
        → ServesKept
            (serve_endpoint B connect open_file json_user json_playstates config e params r)
    serve_endpoint-Kept options_handler params r = λ s k. k
    serve_endpoint-Kept login params r =
        db-Kept _
          (body-Kept (json_user r.body) _ (λ u. replied-Kept answered _ (login-Keeping B L c u)))
    serve_endpoint-Kept register params r = db-Kept _ (
        body-Kept (json_user r.body) _
          (λ u. replied-Kept answered _ (register-Keeping B L c u config.register_web)))
    serve_endpoint-Kept (for_user e) params r = λ s k.
        guarded-Kept _ _ _ (serve_user-Kept e params r)
          (ap collection (user_from_request_outcome B L r.credentials s).1 ∙ k)

    routed-Kept :
        (r : HttpRequest) (o : Option (Endpoint × List String))
        → ServesKept (routed B connect open_file json_user json_playstates config r o)
    routed-Kept r none = λ s k. k
    routed-Kept r (some (e, params)) = serve_endpoint-Kept e params r

  -- If taking a connection and opening a file change no table, then no request, whoever sends it and
  -- whatever becomes of it, changes the libraries, the audiobooks or the chapters.
  pub serve-Kept :
      (r : HttpRequest) (s : B.State)
      → collection (view (serve B connect open_file json_user json_playstates config r s).1)
        ≡ collection (view s)
  unfolding serve
  serve-Kept r s = routed-Kept (collection (view s)) r (find_route mounted r) s refl
