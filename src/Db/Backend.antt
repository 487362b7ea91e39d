-- ===== src/Db/Backend.antt =====
-- What the program uses of diesel and SQLite, `uuid`, `chrono` and `argon2rs`: an interface. Its
-- laws are in `Db.Lawful`.
use vorleser_server.Prelude.{ℕ, String, Bool, Option, List}
use vorleser_server.Errors.{DieselError}
use vorleser_server.Exec.{Exec}
use vorleser_server.Db.{
  Uuid, NaiveDateTime, User, ApiToken, Library, LibraryPermission, Audiobook, Chapter, Playstate,
}

-- `QueryResult<A>`
abbrev pub Query : Type 0 → Type 0 → Type 0
Query S A = Exec S DieselError A

-- The statements on one table: `filter(p)` with `load` (`get_results`), `first` (`get_result`) and
-- `first().optional()`; `insert_into`, `replace_into`, `update(filter(p)).set(f)`, `delete(filter(p))`.
pub record Statements (S R : Type 0) : Type 0 where
  pub load : (R → Bool) → Query S (List R)
  pub first : (R → Bool) → Query S R
  pub first_optional : (R → Bool) → Query S (Option R)
  pub insert : R → Query S ℕ
  pub replace : List R → Query S ℕ
  pub update : (R → Bool) → (R → R) → Query S ℕ
  pub delete : (R → Bool) → Query S ℕ

pub record Backend : Type 1 where
  pub State : Type 0
  pub api_tokens : Statements State ApiToken
  pub audiobooks : Statements State Audiobook
  pub chapters : Statements State Chapter
  pub libraries : Statements State Library
  pub library_permissions : Statements State LibraryPermission
  pub playstates : Statements State Playstate
  pub users : Statements State User
  -- library_permissions.inner_join(libraries).filter(p).select(libraries).get_results()
  pub joined_libraries : (LibraryPermission → Library → Bool) → Query State (List Library)
  -- audiobooks.inner_join(libraries.inner_join(library_permissions)).filter(p).select(audiobooks)
  -- with .order(location.asc()).get_results(), and with .get_result().optional()
  pub joined_audiobooks :
      (Audiobook → Library → LibraryPermission → Bool) → Query State (List Audiobook)
  pub joined_audiobook :
      (Audiobook → Library → LibraryPermission → Bool) → Query State (Option Audiobook)
  -- conn.exclusive_transaction(f), with the conversion of diesel's own errors
  pub exclusive_transaction : {E A : Type 0} → (DieselError → E) → Exec State E A → Exec State E A
  pub new_v4 : State → Uuid × State
  pub utc_now : State → NaiveDateTime × State
  -- Uuid::parse_str, and hyphenated().to_string()
  pub parse_str : String → Option Uuid
  pub hyphenated : Uuid → String
  -- a salt from SystemRandom; Encoded::default2i(password, salt).to_u8(); from_u8 and verify, with
  -- none where the bytes are no encoding; base64
  pub random_salt : State → List ℕ × State
  pub default2i : String → List ℕ → List ℕ
  pub verify : List ℕ → String → Option Bool
  pub base64_encode : List ℕ → String
  pub base64_decode : String → Option (List ℕ)
