-- ===== src/Responses/Status.antt =====
-- The statuses of src/responses/responses.rs, and the JSON bodies.
use vorleser_server.Prelude.{ℕ, String, List}

pub data Status : Type 0 where
  ok created accepted no_content partial_content : Status
  bad_request unauthorized forbidden not_found method_not_allowed conflict : Status
  unprocessable_entity internal_server_error service_unavailable : Status

unfoldable pub status_code : Status → ℕ
status_code Status.ok = 200
status_code Status.created = 201
status_code Status.accepted = 202
status_code Status.no_content = 204
status_code Status.partial_content = 206
status_code Status.bad_request = 400
status_code Status.unauthorized = 401
status_code Status.forbidden = 403
status_code Status.not_found = 404
status_code Status.method_not_allowed = 405
status_code Status.conflict = 409
status_code Status.unprocessable_entity = 422
status_code Status.internal_server_error = 500
status_code Status.service_unavailable = 503

-- A field of the objects that `json!` builds here.
pub data Value : Type 0 where
  text : String → Value
  lines : List String → Value
  null : Value

-- A body is the data of a handler, of any type `J`, or an object.
pub data Body (J : Type 0) : Type 0 where
  payload : J → Body J
  object : List (String × Value) → Body J

pub record Response (J : Type 0) : Type 0 where
  pub status : Status
  pub body : Body J
