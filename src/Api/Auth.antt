-- ===== src/Api/Auth.antt =====
-- src/api/auth.rs: the handlers.
pub mod Sessions
pub mod Lifetime
use vorleser_server.Prelude.{
  String, Bool, true, false, Option, none, some, ◌==◌, nat_eq, string_eq, bytes_eq, bool_eq, Result,
  ok, err,
}
use vorleser_server.Exec.{Exec, pure, raise, ◌>>=◌, ◌>>◌, map_err, attempt}
use vorleser_server.Errors.{DieselError}
use vorleser_server.Db.{Uuid, User, ApiToken}
use vorleser_server.Db.Table
use vorleser_server.Db.Backend.{Backend}
use vorleser_server.Responses.Error.{with_message, unauthorized}
use vorleser_server.Responses.Success.{
  ApiResponse, with_message as say, ok_response, created, with_data,
}
use vorleser_server.Responses.Convert.{from_diesel, from_failure}
use vorleser_server.Models.User
use vorleser_server.Api.Answer.{
  Stop, refused, panicked, Answer, token_answer, user_answer, user_out,
}

-- `UserSerializer` of src/validation/user.rs
pub record UserSerializer : Type 0 where
  pub id : Option Uuid
  pub email : String
  pub password : String

abbrev pub wrong_login : Stop
wrong_login = refused (with_message unauthorized "Username or password incorrect.")

module _ (B : Backend) where
  abbrev pub Handler : Type 0
  Handler = Exec B.State Stop (ApiResponse Answer)

  -- `TokenSerializer::from(token)` is the token's id.
  unfoldable pub login_if : User → Option Bool → Handler
  login_if account none = raise panicked
  login_if account (some false) = raise wrong_login
  login_if account (some true) = do
    token ← map_err (λ e. refused (from_failure e)) (User.generate_api_token B account)
    pure (with_data ok_response (token_answer token.id))

  unfoldable pub login_found : UserSerializer → Result DieselError User → Handler
  login_found user_in (err _) = raise wrong_login
  login_found user_in (ok account) =
      login_if account (User.verify_password B account user_in.password)

  unfoldable pub login : UserSerializer → Handler
  login user_in = attempt (B.users.first (λ u. u.email == user_in.email)) (login_found user_in)

  unfoldable pub register : UserSerializer → Bool → Handler
  register user_in true = do
    new_user ←
        map_err (λ e. refused (from_failure e)) (User.create B user_in.email user_in.password)
    pure (with_data (say created "User created.") (user_answer (user_out new_user)))
  register user_in false = raise (
      refused (
        with_message unauthorized
          "Registration is disabled. Create a user via the commandline or enable user creation in the config file."))

  unfoldable pub whoami : User → Handler
  whoami current_user = pure (with_data ok_response (user_answer (user_out current_user)))

  unfoldable pub logout : User → ApiToken → Handler
  logout current_user token = do
    map_err (λ e. refused (from_diesel e)) (B.api_tokens.delete (λ t. t.id == token.id))
    pure ok_response

  unfoldable pub logout_all : User → ApiToken → Handler
  logout_all current_user token = do
    map_err (λ e. refused (from_diesel e)) (B.api_tokens.delete (λ t. t.user_id == current_user.id))
    pure ok_response
