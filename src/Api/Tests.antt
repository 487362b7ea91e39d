-- ===== src/Api/Tests.antt =====
-- The theorems on src/api and src/handlers.rs at concrete tables and requests.
use vorleser_server.Api.RangedFile.{ranged, from_to}
use vorleser_server.Api.RangedFile.Ranges.{ranged-overrun}
use vorleser_server.Prelude.{length, ◌<◌}
use vorleser_server.Prelude.{
  ◌≡◌, refl, ◌⊎◌, true, false, none, some, List, [], ◌∷◌, find, ◌==◌, nat_eq, string_eq, bytes_eq,
  bool_eq, ok,
}
use vorleser_server.Exec.{Exec, map_err, pure}
use vorleser_server.Exec.Ends.{Ends-ok, returns}
use vorleser_server.Errors.{DieselError}
use vorleser_server.Db.{User, ApiToken, Audiobook, Tables, Playstate}
use vorleser_server.Db.Memory.{Memory, memory, empty}
use vorleser_server.Db.Memory.Laws.{memory-IsLawful}
use vorleser_server.Models.User
use vorleser_server.Models.Playstate.{ApiPlaystate}
use vorleser_server.Responses.Status.{Status}
use vorleser_server.Responses.Success.{ok_response, with_data}
use vorleser_server.Api.Answer.{token_answer, audiobook_answer}
use vorleser_server.Api.Request.{Request, token_text}
use vorleser_server.Api.Guard.{
  success, failure, panicked, Identified, user_from_request, user_from_request_outcome,
}
use vorleser_server.Api.Auth.{UserSerializer, login, login_found, login_if}
use vorleser_server.Api.Auth.Sessions.{LoggedIn, with_token, login_outcome}
use vorleser_server.Api.Auth.Lifetime.{session_opened, session_closed}
use vorleser_server.Api.Audiobooks.{
  Opening, data_file_path, get_data_file, data_file_if, get_audiobook, audiobook_if,
}
use vorleser_server.Api.Audiobooks.Serving.{Readable, get_audiobook_outcome, get_data_file_outcome}
use vorleser_server.Prelude.{arith}
use vorleser_server.Api.RangedFile.{RangedResponse, respond_to, bytes, last}
use vorleser_server.Api.RangedFile.Ranges.{Answers, asks_last, respond_to-in_range}

abbrev ann : User
ann = record {
  id = 2;
  created_at = 3;
  updated_at = 3;
  email = "ann@example.org";
  password_hash = memory.base64_encode (memory.default2i "secret" []);
}

abbrev book : Audiobook
book = record {
  id = 10;
  location = "dune.mp3";
  title = "Dune";
  artist = none;
  length = 0;
  library_id = 1;
  hash = 1 ∷ [];
  file_extension = "mp3";
  deleted = false;
}

abbrev half_heard : Playstate
half_heard = record { audiobook_id = 10; user_id = 2; position = 7; timestamp = 5 }

abbrev signed_out : Memory
signed_out = record {
  tables = record empty.tables {
    libraries =
        record { id = 1; location = "/books"; is_audiobook_regex = "^[^/]+$"; last_scan = none }
        ∷ [];
    users = ann ∷ [];
    library_permissions = record { library_id = 1; user_id = 2 } ∷ [];
    audiobooks = book ∷ [];
    playstates = half_heard ∷ [];
  };
  next_id = 3;
}

abbrev secret : UserSerializer
secret = record { id = none; email = "ann@example.org"; password = "secret" }

abbrev session : ApiToken
session = record { id = 3; user_id = 2; created_at = 4 }

abbrev signed_in : Memory
signed_in = record { tables = with_token session signed_out.tables; next_id = 4 }

-- The header that a client sends with the token of the session.
abbrev asking : Request
asking = record { authorization = memory.hyphenated 3 ∷ []; query = none }

verified_secret : User.verify_password memory ann "secret" ≡ some true
unfolding User.verify_password
verified_secret = refl

abbrev logged_in :
    LoggedIn memory secret signed_out.tables signed_in.tables
      (with_data ok_response (token_answer 3))
logged_in = record {
  who = ann;
  token = session;
  known = refl;
  verified = verified_secret;
  answer = refl;
  own = refl;
  fresh = refl;
  added = refl;
}

login_outcome_example :
    LoggedIn memory secret signed_out.tables signed_in.tables
      (with_data ok_response (token_answer 3))
unfolding login login_found login_if User.verify_password User.generate_api_token
login_outcome_example =
    Ends-ok {a = with_data ok_response (token_answer 3)}
      (login_outcome memory memory-IsLawful secret signed_out)

user_from_request_outcome_example :
    Identified memory memory-IsLawful (token_text asking) signed_in.tables (success ann)
    × (signed_in.tables ≡ signed_in.tables)
unfolding user_from_request
user_from_request_outcome_example =
    user_from_request_outcome memory memory-IsLawful asking signed_in

session_opened_example :
    ((user_from_request memory asking signed_in).0 ≡ success ann)
    ⊎ (((user_from_request memory asking signed_in).0 ≡ panicked)
        × ((e : DieselError) × memory-IsLawful.IsDatabase e))
unfolding token_text
session_opened_example =
    session_opened memory memory-IsLawful secret signed_out.tables signed_in.tables
      (with_data ok_response (token_answer 3)) logged_in asking signed_in refl refl refl

session_closed_example :
    ((user_from_request memory asking signed_out).0 ≡ failure Status.unauthorized)
    ⊎ (((user_from_request memory asking signed_out).0 ≡ panicked)
        × ((e : DieselError) × memory-IsLawful.IsDatabase e))
unfolding token_text
session_closed_example = session_closed memory memory-IsLawful asking 3 signed_out refl refl

abbrev open_file : Opening Memory
open_file p m = (ok p, m)

get_audiobook_outcome_example :
    (signed_in.tables ≡ signed_in.tables)
    × ((b : Audiobook) × Readable ann 10 signed_in.tables b
        × (with_data ok_response (audiobook_answer book)
            ≡ with_data ok_response (audiobook_answer b)))
unfolding get_audiobook User.get_book_if_accessible audiobook_if
get_audiobook_outcome_example =
    Ends-ok {a = with_data ok_response (audiobook_answer book)}
      (get_audiobook_outcome memory memory-IsLawful open_file "data" ann 10 signed_in)

get_data_file_outcome_example :
    (signed_in.tables ≡ signed_in.tables)
    × ((b : Audiobook) × Readable ann 10 signed_in.tables b)
    × ((b : Audiobook) × (find (λ b. b.id == 10) signed_in.tables.audiobooks ≡ some b)
        × ("data/aaaaaaaaaaa.mp3" ≡ data_file_path memory "data" b))
unfolding get_data_file User.get_book_if_accessible data_file_if data_file_path
get_data_file_outcome_example = Ends-ok {a = "data/aaaaaaaaaaa.mp3"} (
    get_data_file_outcome memory memory-IsLawful open_file (λ p s. returns p s (refl, refl)) "data"
      ann 10 signed_in)

abbrev further : List ApiPlaystate
further =
    record { audiobook_id = 10; position = 8; timestamp = 6 }
    ∷ record { audiobook_id = 10; position = 9; timestamp = 7 }
    ∷ []

abbrev listened : Tables
listened = record signed_in.tables {
  playstates = record { audiobook_id = 10; user_id = 2; position = 9; timestamp = 7 } ∷ [];
}

respond_to-in_range_example :
    (r : RangedResponse) × (respond_to (4 ∷ 5 ∷ 6 ∷ 7 ∷ []) (some (some (bytes (last 3 ∷ []))))
      ≡ some r)
    × Answers (4 ∷ 5 ∷ 6 ∷ 7 ∷ []) 1 3 r
respond_to-in_range_example =
    respond_to-in_range (4 ∷ 5 ∷ 6 ∷ 7 ∷ []) (last 3) [] 1 3 (omega arith)
      (asks_last 3 (omega arith) (omega arith))

ranged-overrun_example :
    ((ranged (4 ∷ 5 ∷ 6 ∷ []) (from_to 1 9)).body ≡ 5 ∷ 6 ∷ [])
    × ((ranged (4 ∷ 5 ∷ 6 ∷ []) (from_to 1 9)).body_size ≡ 9)
    × (length (ranged (4 ∷ 5 ∷ 6 ∷ []) (from_to 1 9)).body
        < (ranged (4 ∷ 5 ∷ 6 ∷ []) (from_to 1 9)).body_size)
ranged-overrun_example =
    ranged-overrun (4 ∷ 5 ∷ 6 ∷ []) 1 9 (omega arith) (omega arith) (omega arith) (omega arith)
