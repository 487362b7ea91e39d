-- ===== src/Responses/Convert.antt =====
-- The conversions into `ApiError` of src/responses/error_response.rs.
use vorleser_server.Prelude.{String, ◌≡◌, ap, none, some, nat_eq, string_eq, bytes_eq, bool_eq}
use vorleser_server.Errors.{
  DieselError, not_found, database_error, Failure, user_error, diesel, already_exists,
}
use vorleser_server.Prelude.{◌<>◌}
use vorleser_server.Responses.Status.{Status}
use vorleser_server.Responses.Error.{
  ApiError, conflict, not_found_error, internal_server_error, bad_request,
}

unfoldable pub from_diesel : DieselError → ApiError
from_diesel not_found = not_found_error
from_diesel (database_error _) = internal_server_error

pub from-database :
    (e : DieselError)
    → (m : String) × (e ≡ database_error m)
    → from_diesel e ≡ internal_server_error
unfolding from_diesel
from-database e (m, h) = ap from_diesel h

-- The downcasts are tried in this order.
unfoldable pub from_failure : Failure → ApiError
from_failure (user_error (already_exists name)) = record conflict {
  message = some ("The " <> name <> " already exists");
}
from_failure (diesel cause) = from_diesel cause
from_failure other_error = record {
  message = none;
  error = some other_error;
  status = Status.internal_server_error;
}

unfoldable pub from_serde : (display : String) → (error : Failure) → ApiError
from_serde display error = record {
  message = some ("Error parsing input: " <> display);
  error = some error;
  status = Status.bad_request;
}

-- `From<uuid::parser::ParseError>`
unfoldable pub from_parse : String → ApiError
from_parse error = bad_request
