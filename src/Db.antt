-- ===== src/Db.antt =====
-- The database: src/schema.rs with migrations/20170211131857_create_initial_db/up.sql, and the row
-- types of src/models. A row type is a record with the columns of its table.
pub mod Table
pub mod Backend
pub mod Lawful
pub mod Amending
pub mod Memory
use vorleser_server.Prelude.{ℕ, String, Bool, Option, List}

-- A UUID is its 128-bit number, a time stamp its number of nanoseconds, and an `f64` its bits.
abbrev pub Uuid : Type 0
Uuid = ℕ

abbrev pub NaiveDateTime : Type 0
NaiveDateTime = ℕ

abbrev pub F64 : Type 0
F64 = ℕ

pub record User : Type 0 where
  pub id : Uuid
  pub created_at : NaiveDateTime
  pub updated_at : NaiveDateTime
  pub email : String
  pub password_hash : String

pub record ApiToken : Type 0 where
  pub id : Uuid
  pub user_id : Uuid
  pub created_at : NaiveDateTime

pub record Library : Type 0 where
  pub id : Uuid
  pub location : String
  pub is_audiobook_regex : String
  pub last_scan : Option NaiveDateTime

pub record LibraryPermission : Type 0 where
  pub library_id : Uuid
  pub user_id : Uuid

pub record Audiobook : Type 0 where
  pub id : Uuid
  pub location : String
  pub title : String
  pub artist : Option String
  pub length : F64
  pub library_id : Uuid
  pub hash : List ℕ
  pub file_extension : String
  pub deleted : Bool

pub record Chapter : Type 0 where
  pub id : Uuid
  pub title : Option String
  pub audiobook_id : Uuid
  pub start_time : F64
  pub number : ℕ

pub record Playstate : Type 0 where
  pub audiobook_id : Uuid
  pub user_id : Uuid
  pub position : F64
  pub timestamp : NaiveDateTime

pub record Tables : Type 0 where
  pub api_tokens : List ApiToken
  pub audiobooks : List Audiobook
  pub chapters : List Chapter
  pub libraries : List Library
  pub library_permissions : List LibraryPermission
  pub playstates : List Playstate
  pub users : List User
