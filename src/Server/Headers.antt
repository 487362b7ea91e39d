-- ===== src/Server/Headers.antt =====
-- The responses that src/helpers/rocket.rs and src/static_files.rs make themselves: the CORS fairing,
-- the reply to OPTIONS, and the static files. A header is kept under one spelling of its name.
use vorleser_server.Prelude.{
  ℕ, String, ◌≡◌, refl, Bool, false, not, ◌||◌, Option, none, some, List, [], ◌∷◌, ◌++◌, filter,
  if◌then◌else◌, ◌==◌, string_eq,
}
use vorleser_server.Server.Routes.{Method, http_options, http_get, same_method}

pub record Wire : Type 0 where
  pub headers : List (String × String)
  pub content_type : Option String
  pub sized_body : List ℕ

-- response.set_header(...), which replaces
abbrev pub set_header : String → String → Wire → Wire
set_header name value w = record w {
  headers = filter (λ (n, v). not (n == name)) w.headers ++ (name, value) ∷ [];
}

abbrev is_json : Option String → Bool
is_json none = false
is_json (some t) = t == "application/json"

abbrev allowed : Wire → Wire
allowed w = set_header "Access-Control-Allow-Headers" "Content-Type, Authorization" (
    set_header "Access-Control-Allow-Methods" "POST, GET, PUT, GET, DELETE"
      (set_header "Access-Control-Allow-Origin" "*" w))

abbrev emptied : Wire → Wire
emptied w = record w { content_type = some "text/plain"; sized_body = [] }

-- Fairing::on_response of CORS
unfoldable pub on_response : Method → Wire → Wire
on_response method w =
    let w' = if same_method method http_options || is_json w.content_type then allowed w else w in
    if same_method method http_options then emptied w' else w'

unfoldable pub options_response : Wire
options_response = record {
  headers =
      ("Access-Control-Allow-Origin", "*")
      ∷ ("Access-Control-Allow-Methods", "OPTIONS, POST, PUT, GET, DELETE")
      ∷ ("Access-Control-Allow-Headers", "Content-Type, Authorization")
      ∷ [];
  content_type = none;
  sized_body = [];
}

-- `StaticFile`, with its content type.
pub record StaticFile : Type 0 where
  pub content : List ℕ
  pub kind : String

-- The plain type is replaced.
unfoldable pub respond_to : StaticFile → Wire
respond_to self =
    let response : Wire = record {
      headers = [];
      content_type = some "text/plain";
      sized_body = self.content;
    } in
    record response { content_type = some self.kind }

-- The methods that the handler lists do not reach the client: the fairing's own list replaces them.
preflight_methods : on_response http_options options_response ≡ record {
  headers =
      ("Access-Control-Allow-Origin", "*")
      ∷ ("Access-Control-Allow-Methods", "POST, GET, PUT, GET, DELETE")
      ∷ ("Access-Control-Allow-Headers", "Content-Type, Authorization")
      ∷ [];
  content_type = some "text/plain";
  sized_body = [];
}
unfolding on_response options_response
preflight_methods = refl

unlisted :
    on_response http_get (respond_to (record { content = 1 ∷ []; kind = "text/html" }))
    ≡ record { headers = []; content_type = some "text/html"; sized_body = 1 ∷ [] }
unfolding on_response respond_to
unlisted = refl
