-- ===== src/Server/Routes.antt =====
-- base_factory of src/helpers/rocket.rs: the routes of the web server and how a request finds its own.
use vorleser_server.Prelude.{
  String, Bool, true, false, ◌&&◌, Option, none, some, List, [], ◌∷◌, if◌then◌else◌, ◌==◌,
  string_eq,
}
use vorleser_server.Api.Request.{Request}

pub data Method : Type 0 where
  http_get http_head http_post http_put http_delete http_options http_other : Method

abbrev pub same_method : Method → Method → Bool
same_method http_get http_get = true
same_method http_head http_head = true
same_method http_post http_post = true
same_method http_put http_put = true
same_method http_delete http_delete = true
same_method http_options http_options = true
same_method http_other http_other = true
same_method _ _ = false

-- A HEAD request, for which there is no route, is taken as a GET request; that Rocket leaves the body
-- of the reply out is not modelled.
abbrev pub as_routed : Method → Method
as_routed http_head = http_get
as_routed method = method

-- The path in its segments, whether the content is JSON, and the body.
pub record HttpRequest : Type 0 where
  pub method : Method
  pub segments : List String
  pub is_json : Bool
  pub credentials : Request
  pub body : String

-- The handlers that take a user, and the three that do not.
pub data UserEndpoint : Type 0 where
  get_data_file libraries all_the_things update_playstates : UserEndpoint
  get_coverart get_audiobook get_audiobooks : UserEndpoint
  logout logout_all whoami : UserEndpoint

pub data Endpoint : Type 0 where
  options_handler login register : Endpoint
  for_user : UserEndpoint → Endpoint

-- `name`, `<parameter>`, and `<rest..>`, which takes one segment at least
pub data Segment : Type 0 where
  name : String → Segment
  parameter : Segment
  rest : Segment

pub record Mount : Type 0 where
  pub method : Method
  pub path : List Segment
  pub wants_json : Bool
  pub endpoint : Endpoint

abbrev get_route : List Segment → Endpoint → Mount
get_route path endpoint = record {
  method = http_get;
  path = path;
  wants_json = false;
  endpoint = endpoint;
}

abbrev post_route : List Segment → Bool → Endpoint → Mount
post_route path wants_json endpoint = record {
  method = http_post;
  path = path;
  wants_json = wants_json;
  endpoint = endpoint;
}

abbrev under_api : List Segment → List Segment
under_api path = name "api" ∷ path

abbrev under_auth : List Segment → List Segment
under_auth path = name "api" ∷ name "auth" ∷ path

unfoldable pub mounted : List Mount
mounted =
    record {
      method = http_options;
      path = rest ∷ [];
      wants_json = false;
      endpoint = options_handler;
    }
    ∷ get_route (name "data" ∷ parameter ∷ []) (for_user get_data_file)
    ∷ get_route (under_api (name "libraries" ∷ [])) (for_user libraries)
    ∷ get_route (under_api (name "all_the_things" ∷ [])) (for_user all_the_things)
    ∷ post_route (under_api (name "update_playstates" ∷ [])) true (for_user update_playstates)
    ∷ get_route (under_api (name "coverart" ∷ parameter ∷ [])) (for_user get_coverart)
    ∷ get_route (under_api (name "audiobooks" ∷ parameter ∷ [])) (for_user get_audiobook)
    ∷ get_route (under_api (name "audiobooks" ∷ [])) (for_user get_audiobooks)
    ∷ post_route (under_auth (name "login" ∷ [])) true login
    ∷ post_route (under_auth (name "logout" ∷ [])) false (for_user logout)
    ∷ post_route (under_auth (name "logout_all" ∷ [])) false (for_user logout_all)
    ∷ post_route (under_auth (name "register" ∷ [])) true register
    ∷ get_route (under_auth (name "whoami" ∷ [])) (for_user whoami)
    ∷ []

-- The parameters of a path that fits.
unfoldable pub match_path : List Segment → List String → Option (List String)
match_path [] [] = some []
match_path [] (s ∷ ss) = none
match_path (rest ∷ ps) [] = none
match_path (rest ∷ ps) (s ∷ ss) = some []
match_path (name n ∷ ps) [] = none
match_path (name n ∷ ps) (s ∷ ss) = let later = match_path ps ss in if n == s then later else none
match_path (parameter ∷ ps) [] = none
match_path (parameter ∷ ps) (s ∷ ss) = elim (match_path ps ss) [
  | none ↦ none
  | some more ↦ some (s ∷ more)
]

abbrev implies : Bool → Bool → Bool
implies true b = b
implies false b = true

abbrev match_mount : Mount → HttpRequest → Option (List String)
match_mount m r =
    if same_method m.method (as_routed r.method) && implies m.wants_json r.is_json
    then match_path m.path r.segments
    else none

abbrev first_match :
    Endpoint
    → Option (List String)
    → Option (Endpoint × List String)
    → Option (Endpoint × List String)
first_match e (some params) later = some (e, params)
first_match e none later = later

unfoldable pub find_route : List Mount → HttpRequest → Option (Endpoint × List String)
unfolding match_path
find_route [] r = none
find_route (m ∷ ms) r = first_match m.endpoint (match_mount m r) (find_route ms r)
