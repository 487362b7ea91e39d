-- ===== src/Db/Table.antt =====
-- The seven tables of src/schema.rs and their keys in up.sql.
use vorleser_server.Prelude.{Bool, List, ◌&&◌, ◌||◌, ◌==◌, nat_eq, string_eq}
use vorleser_server.Db.{
  User, ApiToken, Library, LibraryPermission, Audiobook, Chapter, Playstate, Tables,
}

-- A table: where its rows stand, and when two rows may not stand together (its primary key and its
-- unique columns).
pub record Table (R : Type 0) : Type 0 where
  pub rows : Tables → List R
  pub set_rows : List R → Tables → Tables
  pub clash : R → R → Bool

abbrev pub api_tokens : Table ApiToken
api_tokens = record {
  rows = λ t. t.api_tokens;
  set_rows = λ l t. record t { api_tokens = l };
  clash = λ a b. a.id == b.id;
}

abbrev pub audiobooks : Table Audiobook
audiobooks = record {
  rows = λ t. t.audiobooks;
  set_rows = λ l t. record t { audiobooks = l };
  clash = λ a b. a.id == b.id;
}

abbrev pub chapters : Table Chapter
chapters = record {
  rows = λ t. t.chapters;
  set_rows = λ l t. record t { chapters = l };
  clash = λ a b. a.id == b.id;
}

abbrev pub libraries : Table Library
libraries = record {
  rows = λ t. t.libraries;
  set_rows = λ l t. record t { libraries = l };
  clash = λ a b. a.id == b.id;
}

abbrev pub library_permissions : Table LibraryPermission
library_permissions = record {
  rows = λ t. t.library_permissions;
  set_rows = λ l t. record t { library_permissions = l };
  clash = λ a b. a.library_id == b.library_id && a.user_id == b.user_id;
}

abbrev pub playstates : Table Playstate
playstates = record {
  rows = λ t. t.playstates;
  set_rows = λ l t. record t { playstates = l };
  clash = λ a b. a.audiobook_id == b.audiobook_id && a.user_id == b.user_id;
}

abbrev pub users : Table User
users = record {
  rows = λ t. t.users;
  set_rows = λ l t. record t { users = l };
  clash = λ a b. a.id == b.id || a.email == b.email;
}
