-- ===== src/Models/User.antt =====
-- src/models/user.rs
pub mod Creation
use vorleser_server.Prelude.{
  ℕ, String, Bool, true, false, ◌&&◌, Option, none, some, List, ◌==◌, nat_eq, string_eq, bytes_eq,
  bool_eq, Result, ok, err,
}
use vorleser_server.Exec.{Exec, pure, raise, lift, ◌>>=◌, ◌>>◌, for_each, map_err, attempt}
use vorleser_server.Errors.{DieselError, Failure, user_error, diesel, foreign, already_exists}
use vorleser_server.Db.{Uuid, User, ApiToken, Library, Audiobook}
use vorleser_server.Db.Backend.{Backend, Query}
use vorleser_server.Models.Permission.{permit}

-- `Result<T>` of the module: `failure::Error`.
abbrev pub Action : Backend → Type 0 → Type 0
Action B A = Exec B.State Failure A

module _ (B : Backend) where
  -- A salt cannot be had without the world, and the hash is the encoding of the session.
  unfoldable pub make_password_hash : String → B.State → String × B.State
  make_password_hash new_password s =
      let (salt, s') = B.random_salt s in (B.base64_encode (B.default2i new_password salt), s')

  abbrev pub verify_bytes : Option (List ℕ) → String → Option Bool
  verify_bytes none candidate_password = none
  verify_bytes (some bytes) candidate_password = B.verify bytes candidate_password

  -- `none` is a panic: "Malformed hash" or "Cant load hashing setting."
  unfoldable pub verify_password : User → String → Option Bool
  verify_password self candidate_password =
      verify_bytes (B.base64_decode self.password_hash) candidate_password

  unfoldable pub accessible_libraries : User → Action B (List Library)
  accessible_libraries self = map_err diesel (B.joined_libraries (λ q l. q.user_id == self.id))

  unfoldable pub accessible_audiobooks : User → Query B.State (List Audiobook)
  accessible_audiobooks self =
      B.joined_audiobooks (λ b l q. b.deleted == false && q.user_id == self.id)

  unfoldable pub get_book_if_accessible : User → Uuid → Query B.State (Option Audiobook)
  get_book_if_accessible self book_id =
      B.joined_audiobook (λ b l q. q.user_id == self.id && b.id == book_id)

  -- The new row, and a permission for each library.
  unfoldable pub insert_user : User → Action B User
  insert_user new_user = do
    map_err diesel (B.users.insert new_user)
    libraries ← map_err diesel (B.libraries.load (λ _. true))
    for_each (λ l. map_err diesel (permit B new_user l)) libraries
    pure new_user

  -- The transaction of `create`.
  unfoldable pub create_in_transaction : String → String → Action B User
  create_in_transaction email new_password_hash = do
    id ← lift B.new_v4
    created_at ← lift B.utc_now
    updated_at ← lift B.utc_now
    let new_user : User = record {
      id = id;
      created_at = created_at;
      updated_at = updated_at;
      email = email;
      password_hash = new_password_hash;
    }
    insert_user new_user

  unfoldable pub create_unless : String → String → Result DieselError User → Action B User
  create_unless email hash (ok taken) = raise (user_error (already_exists email))
  create_unless email hash (err _) =
      B.exclusive_transaction diesel (create_in_transaction email hash)

  unfoldable pub create : String → String → Action B User
  unfolding create_unless
  create email password = do
    new_password_hash ← lift (make_password_hash password)
    attempt (B.users.first (λ u. u.email == email)) (create_unless email new_password_hash)

  unfoldable pub generate_api_token : User → Action B ApiToken
  generate_api_token self = do
    id ← lift B.new_v4
    created_at ← lift B.utc_now
    let token : ApiToken = record { id = id; user_id = self.id; created_at = created_at }
    map_err diesel (B.api_tokens.insert token)
    pure token

  -- The user of a token, if there is one.
  user_of : Option ApiToken → Action B (Option User)
  user_of none = pure none
  user_of (some token) = map_err diesel (B.users.first_optional (λ u. u.id == token.user_id))

  token_id_or : Option Uuid → Action B Uuid
  token_id_or none = raise (foreign "ParseError")
  token_id_or (some id) = pure id

  unfoldable pub get_user_from_api_token : String → Action B (Option User)
  unfolding user_of token_id_or
  get_user_from_api_token token_id_string = do
    token_id ← token_id_or (B.parse_str token_id_string)
    token ← map_err diesel (B.api_tokens.first_optional (λ t. t.id == token_id))
    user_of token
