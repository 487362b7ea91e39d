-- ===== src/Server/Tests.antt =====
-- The theorems on the web server at a concrete request.
use vorleser_server.Prelude.{String, ◌≡◌, refl, true, false, none, some, List, [], ◌∷◌, ok, err}
use vorleser_server.Config.{Config}
use vorleser_server.Db.Memory.{Memory, memory, empty}
use vorleser_server.Db.Memory.Laws.{memory-IsLawful}
use vorleser_server.Models.Playstate.{ApiPlaystate}
use vorleser_server.Prelude.{Result}
use vorleser_server.Responses.Status.{Status}
use vorleser_server.Api.Auth.{UserSerializer}
use vorleser_server.Api.Audiobooks.{Opening}
use vorleser_server.Api.Guard.{named_token}
use vorleser_server.Api.Request.{token_text}
use vorleser_server.Server.{serve}
use vorleser_server.Server.Routes.{
  HttpRequest, http_get, find_route, mounted, for_user, get_data_file,
}
use vorleser_server.Server.Kept.{collection}
use vorleser_server.Server.Serving.{serve-Kept}
use vorleser_server.Exec.Ends.{returns}
use vorleser_server.Server.Sealed.{Turned, asks_in, serve-Turned}

abbrev conf : Config
conf = record {
  data_directory = "data";
  register_web = false;
  database = "test.db";
  web = record { address = "localhost"; port = 8000; debug = false };
  scan = record { enabled = true; interval = 600 };
  sentry_dsn = none;
  logging = record { level = "info"; file = none };
}

abbrev opening : Opening Memory
opening path s = (ok path, s)

abbrev no_user : String → Result Status UserSerializer
no_user body = err Status.bad_request

abbrev no_playstates : String → Result Status (List ApiPlaystate)
no_playstates body = ok []

-- A book's file is one user's that has logged out.
abbrev shelf : Memory
shelf = record {
  tables = record empty.tables {
    libraries =
        record { id = 1; location = "/books"; is_audiobook_regex = "^[^/]+$"; last_scan = none }
        ∷ [];
    users =
        record {
          id = 2;
          created_at = 3;
          updated_at = 3;
          email = "ann@example.org";
          password_hash = "";
        }
        ∷ [];
    api_tokens = record { id = 5; user_id = 2; created_at = 4 } ∷ [];
  };
  next_id = 20;
}

abbrev listening : HttpRequest
listening = record {
  method = http_get;
  segments = "data" ∷ memory.hyphenated 10 ∷ [];
  is_json = false;
  credentials = record { authorization = memory.hyphenated 3 ∷ []; query = none };
  body = "";
}

route_found :
    find_route mounted listening ≡ some (for_user get_data_file, memory.hyphenated 10 ∷ [])
unfolding find_route mounted
route_found = refl

asks_nothing : asks_in listening ≡ false
unfolding find_route mounted
asks_nothing = refl

unnamed : named_token memory (token_text listening.credentials) shelf.tables ≡ none
unfolding token_text
unnamed = refl

serve-Turned_example :
    Turned (serve memory (λ s. (true, s)) opening no_user no_playstates conf listening shelf).0
    × ((serve memory (λ s. (true, s)) opening no_user no_playstates conf listening shelf).1.tables
        ≡ shelf.tables)
serve-Turned_example =
    serve-Turned memory memory-IsLawful (λ s. (true, s)) opening no_user no_playstates conf
      listening shelf asks_nothing unnamed

serve-Kept_example :
    collection (
      memory-IsLawful.view
        (serve memory (λ s. (true, s)) opening no_user no_playstates conf listening shelf).1)
    ≡ collection shelf.tables
serve-Kept_example =
    serve-Kept memory memory-IsLawful (λ s. (true, s)) (λ s. refl) opening
      (λ p s. returns p s (refl, refl)) no_user no_playstates conf listening shelf
