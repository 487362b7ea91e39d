-- ===== src/Models/Library.antt =====
-- src/models/library.rs
pub mod Creation
use vorleser_server.Prelude.{String, true, none}
use vorleser_server.Exec.{pure, lift, ◌>>=◌, ◌>>◌, for_each}
use vorleser_server.Db.{Library}
use vorleser_server.Db.Table
use vorleser_server.Db.Backend.{Backend, Query}
use vorleser_server.Models.Permission.{permit}

module _ (B : Backend) where
  -- The new row, and a permission for each user.
  unfoldable pub insert_library : Library → Query B.State Library
  insert_library lib = do
    B.libraries.insert lib
    users ← B.users.load (λ _. true)
    for_each (λ u. permit B u lib) users
    pure lib

  -- The transaction of `create`.
  unfoldable pub create_in_transaction : String → String → Query B.State Library
  create_in_transaction location audiobook_regex = do
    id ← lift B.new_v4
    let lib : Library = record {
      id = id;
      location = location;
      is_audiobook_regex = audiobook_regex;
      last_scan = none;
    }
    insert_library lib

  unfoldable pub create : String → String → Query B.State Library
  create location audiobook_regex =
      B.exclusive_transaction (λ e. e) (create_in_transaction location audiobook_regex)
