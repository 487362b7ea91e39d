-- ===== src/Api/Answer.antt =====
-- What the handlers answer: the serialised rows, and how a handler ends without an answer.
use vorleser_server.Prelude.{String, List, nat_eq, string_eq, bytes_eq, bool_eq}
use vorleser_server.Db.{Uuid, NaiveDateTime, User, Library, Audiobook, Chapter}
use vorleser_server.Responses.Error.{ApiError}
use vorleser_server.Models.Playstate.{ApiPlaystate}

-- A refusal is `Err(ApiError)`; a panic unwinds out of the handler.
pub data Stop : Type 0 where
  refused : ApiError → Stop
  panicked : Stop

-- A serialised `User`: its password hash is skipped.
pub record UserOut : Type 0 where
  pub id : Uuid
  pub created_at : NaiveDateTime
  pub updated_at : NaiveDateTime
  pub email : String

unfoldable pub user_out : User → UserOut
user_out u = record {
  id = u.id;
  created_at = u.created_at;
  updated_at = u.updated_at;
  email = u.email;
}

-- A serialised `Library`: all but its id is skipped.
abbrev pub library_out : Library → Uuid
library_out l = l.id

-- The data of an answer.
pub data Answer : Type 0 where
  nothing : Answer
  token_answer : Uuid → Answer
  user_answer : UserOut → Answer
  libraries_answer : List Uuid → Answer
  audiobook_answer : Audiobook → Answer
  audiobooks_answer : List Audiobook → Answer
  things_answer : List Uuid → List Audiobook → List Chapter → List ApiPlaystate → Answer
