-- ===== src/Responses/Error.antt =====
-- src/responses/error_response.rs and the errors of src/responses/responses.rs
use vorleser_server.Responses.Status.{Status, Response, Value, text, lines, null, object}
use vorleser_server.Prelude.{
  String, Bool, true, false, Option, none, some, List, [], ◌∷◌, nat_eq, string_eq, bytes_eq,
  bool_eq,
}
use vorleser_server.Errors.{Failure}

pub record ApiError : Type 0 where
  pub message : Option String
  pub error : Option Failure
  pub status : Status

unfoldable pub new_error : Status → ApiError
new_error status = record { message = none; error = none; status = status }

unfoldable pub with_message : ApiError → String → ApiError
with_message self msg = record self { message = some msg }

unfoldable pub with_error : ApiError → Failure → ApiError
with_error self e = record self { error = some e }

unfoldable pub no_content : ApiError
unfolding new_error with_message
no_content = with_message (new_error Status.no_content) "No Content"

unfoldable pub bad_request : ApiError
unfolding new_error with_message
bad_request = with_message (new_error Status.bad_request) "Bad Request"

unfoldable pub unauthorized : ApiError
unfolding new_error with_message
unauthorized = with_message (new_error Status.unauthorized) "Unauthorized"

unfoldable pub forbidden : ApiError
unfolding new_error with_message
forbidden = with_message (new_error Status.forbidden) "Forbidden"

unfoldable pub not_found_error : ApiError
unfolding new_error with_message
not_found_error = with_message (new_error Status.not_found) "Not Found"

unfoldable pub method_not_allowed : ApiError
unfolding new_error with_message
method_not_allowed = with_message (new_error Status.method_not_allowed) "Method Not Allowed"

unfoldable pub conflict : ApiError
unfolding new_error with_message
conflict = with_message (new_error Status.conflict) "Conflict"

unfoldable pub unprocessable_entity : ApiError
unfolding new_error with_message
unprocessable_entity = with_message (new_error Status.unprocessable_entity) "Unprocessable Entity"

unfoldable pub internal_server_error : ApiError
unfolding new_error with_message
internal_server_error =
    with_message (new_error Status.internal_server_error) "Internal Server Error"

unfoldable pub service_unavailable : ApiError
unfolding new_error with_message
service_unavailable = with_message (new_error Status.service_unavailable) "Service Unavailable"

-- `web.debug` of the configuration, and false if there is none.
abbrev pub debug_of : Option Bool → Bool
debug_of none = false
debug_of (some debug) = debug

-- The display and the backtrace of a `failure::Error`.
module _ (to_string : Failure → String) (backtrace : Failure → List String) where
  abbrev error_text : Option Failure → Value
  error_text none = null
  error_text (some e) = text (to_string e)

  abbrev backtrace_list : Option Failure → Value
  backtrace_list none = null
  backtrace_list (some e) = lines (backtrace e)

  unfoldable pub error_body : Bool → Option String → Option Failure → List (String × Value)
  error_body false (some msg) _ = ("message", text msg) ∷ []
  error_body false none _ = []
  error_body true none e = ("error", error_text e) ∷ ("backtrace", backtrace_list e) ∷ []
  error_body true (some msg) e =
      ("message", text msg) ∷ ("error", error_text e) ∷ ("backtrace", backtrace_list e) ∷ []

  unfoldable pub respond_to : {J : Type 0} → Option Bool → ApiError → Response J
  respond_to config self = record {
    status = self.status;
    body = object (error_body (debug_of config) self.message self.error);
  }
