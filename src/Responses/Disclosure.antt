-- ===== src/Responses/Disclosure.antt =====
-- What a client learns of an error.
use vorleser_server.Prelude.{
  String, ◌≡◌, refl, ◌≢◌, Bool, true, false, Option, none, some, List, nat_eq, string_eq, bytes_eq,
  bool_eq,
}
use vorleser_server.Errors.{
  not_found, database_error, Failure, user_error, worker_error, diesel, foreign, already_exists,
}
use vorleser_server.Responses.Status.{Status, Response, object}
use vorleser_server.Responses.Error.{
  ApiError, debug_of, respond_to, error_body, conflict, not_found_error, internal_server_error,
}
use vorleser_server.Responses.Convert.{from_diesel, from_failure}

-- The status that an error of the program deserves.
abbrev status_of : Failure → Status
status_of (user_error (already_exists _)) = Status.conflict
status_of (diesel not_found) = Status.not_found
status_of _ = Status.internal_server_error

-- The failures of which a client learns nothing: those of the worker and the foreign ones. A failure
-- of the database is answered with a message of its own.
abbrev pub IsInternal : Failure → Type 0
IsInternal (worker_error _) = Unit
IsInternal (foreign _) = Unit
IsInternal _ = ⊥

-- A taken address is a conflict, a missing row is not found, and all else is the server's error.
status-from_failure : (e : Failure) → (from_failure e).status ≡ status_of e
unfolding from_failure from_diesel conflict not_found_error internal_server_error
status-from_failure (user_error (already_exists name)) = refl
status-from_failure (diesel not_found) = refl
status-from_failure (diesel (database_error m)) = refl
status-from_failure (worker_error e) = refl
status-from_failure (foreign m) = refl

quiet : (config : Option Bool) → config ≢ some true → debug_of config ≡ false
quiet none h = refl
quiet (some false) h = refl
quiet (some true) h = absurd (h refl)

module _ (to_string : Failure → String) (backtrace : Failure → List String) {J : Type 0} where
  -- Without `web.debug` the response to an error does not depend on the error that is attached to
  -- it, only on the status and the message.
  respond_to-hides :
      (config : Option Bool) (e : ApiError) (attached : Option Failure)
      → config ≢ some true
      → respond_to to_string backtrace {J = J} config (record e { error = attached })
        ≡ respond_to to_string backtrace config e
  unfolding respond_to error_body
  respond_to-hides config e attached h = rw (quiet config h) (hidden e.message)
    where
      hidden :
          (m : Option String)
          → (let r : Response J = record {
            status = e.status;
            body = object (error_body to_string backtrace false m attached);
          } in
              r)
            ≡ record {
              status = e.status;
              body = object (error_body to_string backtrace false m e.error);
            }
      hidden none = refl
      hidden (some m) = refl

  -- Without `web.debug` no two failures that are errors of the worker or foreign (of input and output,
  -- parsing, or a directory walk, but not of the database or of the user) can be told apart.
  pub internal_failures_alike :
      (config : Option Bool) (e e' : Failure)
      → config ≢ some true
      → IsInternal e
      → IsInternal e'
      → respond_to to_string backtrace {J = J} config (from_failure e)
        ≡ respond_to to_string backtrace config (from_failure e')
  unfolding respond_to error_body from_failure
  internal_failures_alike config (worker_error a) (worker_error b) h i i' = rw (quiet config h)
  internal_failures_alike config (worker_error a) (foreign b) h i i' = rw (quiet config h)
  internal_failures_alike config (foreign a) (worker_error b) h i i' = rw (quiet config h)
  internal_failures_alike config (foreign a) (foreign b) h i i' = rw (quiet config h)
  internal_failures_alike config (user_error a) e' h i i' = absurd i
  internal_failures_alike config (diesel a) e' h i i' = absurd i
  internal_failures_alike config e (user_error a) h i i' = absurd i'
  internal_failures_alike config e (diesel a) h i i' = absurd i'
