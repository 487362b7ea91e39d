-- ===== src/Errors.antt =====
-- The error types: `WorkerError` of src/worker/error.rs, `UserError` of src/models/user.rs, and
-- `failure::Error` as the list of what the program can downcast it to or merely reports.
use vorleser_server.Prelude.{String}
use vorleser_server.Prelude.Int.{ℤ}

pub data UserError : Type 0 where
  already_exists : String → UserError

pub data WorkerError : Type 0 where
  invalid_utf8 : WorkerError
  other : String → WorkerError
  locked : WorkerError
  media_error : String → ℤ → WorkerError
  unkown_format : WorkerError
  no_valid_file_extensions : WorkerError
  not_an_audio_file : WorkerError
  outside_library : WorkerError

-- `diesel::result::Error`, as far as the program tells its cases apart.
pub data DieselError : Type 0 where
  not_found : DieselError
  database_error : String → DieselError

-- `failure::Error`: the cases that the program makes, and `foreign` for any other error that it
-- passes on (input and output, parsing, walking a directory), by its text.
pub data Failure : Type 0 where
  user_error : UserError → Failure
  worker_error : WorkerError → Failure
  diesel : DieselError → Failure
  foreign : String → Failure

-- How a call ends that returns no value: with an error, with a panic and its text, or, in the model
-- of a loop, without the fuel for another round.
pub data Fault : Type 0 where
  failed : Failure → Fault
  panicked : String → Fault
  out_of_fuel : Fault
