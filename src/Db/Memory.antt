-- ===== src/Db/Memory.antt =====
-- A backend in memory: it shows that the laws of `Db.Lawful` can be met, and runs the tests.
pub mod Laws
use vorleser_server.Prelude.{
  ℕ, zero, suc, ◌+◌, String, Bool, true, false, not, ◌&&◌, Option, none, some, List, [], ◌∷◌, ◌++◌,
  filter, find, any, length, if◌then◌else◌, ◌==◌, nat_eq, string_eq, bytes_eq, bool_eq, Result, ok,
  err,
}
use vorleser_server.Errors.{DieselError, not_found, database_error}
use vorleser_server.Db.{Uuid, Library, LibraryPermission, Audiobook, Tables}
use vorleser_server.Db.Table
use vorleser_server.Db.Backend.{Backend, Statements}
use vorleser_server.Db.Lawful.{amend, replaced}
use Prim.Native.Char.{code}

pub record Memory : Type 0 where
  pub tables : Tables
  pub next_id : ℕ

abbrev pub unique_failed : DieselError
unique_failed = database_error "UNIQUE constraint failed"

module _ {R : Type 0} (T : Table.Table R) where
  abbrev pub store : List R → Memory → Memory
  store l m = record m { tables = T.set_rows l m.tables }

  abbrev first_of_option : Option R → Memory → Result DieselError R × Memory
  first_of_option none m = (err not_found, m)
  first_of_option (some r) m = (ok r, m)

  abbrev insert_unless : Bool → R → Memory → Result DieselError ℕ × Memory
  insert_unless true r m = (err unique_failed, m)
  insert_unless false r m = (ok 1, store (T.rows m.tables ++ r ∷ []) m)

  abbrev pub statements : Statements Memory R
  statements = record {
    load = λ p m. (ok (filter p (T.rows m.tables)), m);
    first = λ p m. first_of_option (find p (T.rows m.tables)) m;
    first_optional = λ p m. (ok (find p (T.rows m.tables)), m);
    insert = λ r m. insert_unless (any (T.clash r) (T.rows m.tables)) r m;
    replace = λ rs m. (ok (length rs), store (replaced T.clash rs (T.rows m.tables)) m);
    update =
        λ p f m. (ok (length (filter p (T.rows m.tables))), store (amend p f (T.rows m.tables)) m);
    delete = λ p m. (ok 1, store (filter (λ r. not (p r)) (T.rows m.tables)) m);
  }

abbrev pub libraries_of : (LibraryPermission → Library → Bool) → Tables → List Library
libraries_of p t =
    filter (λ l. any (λ q. q.library_id == l.id && p q l) t.library_permissions) t.libraries

abbrev pub is_joined : (Audiobook → Library → LibraryPermission → Bool) → Tables → Audiobook → Bool
is_joined p t b =
    any
      (λ l.
        any (λ q. (b.library_id == l.id && q.library_id == l.id) && p b l q) t.library_permissions)
      t.libraries

abbrev pub ended : {E A : Type 0} → Memory → Result E A × Memory → Result E A × Memory
ended m (ok a, m') = (ok a, m')
ended m (err e, m') = (err e, m)

-- A text that spells numbers in unary, for `base64`.
abbrev pub spell : ℕ → String → String
spell zero r = String.◌∷◌ "b" r
spell (suc n) r = String.◌∷◌ "a" (spell n r)

abbrev pub encode : List ℕ → String
encode [] = ""
encode (x ∷ xs) = spell x (encode xs)

abbrev pub decode : ℕ → String → List ℕ
decode n String.[] = []
decode n (String.◌∷◌ c r) = elim (code c == b'a') [
  | true ↦ decode (n + 1) r
  | false ↦ n ∷ decode 0 r
]

abbrev pub codes : String → List ℕ
codes String.[] = []
codes (String.◌∷◌ c r) = code c ∷ codes r

abbrev pub unary : ℕ → String
unary zero = ""
unary (suc n) = String.◌∷◌ "a" (unary n)

abbrev pub parse_text : String → Option Uuid
parse_text String.[] = none
parse_text (String.◌∷◌ c r) = if code c == b'a' then some (length (codes r)) else none

abbrev pub memory : Backend
memory = record {
  State = Memory;
  api_tokens = statements Table.api_tokens;
  audiobooks = statements Table.audiobooks;
  chapters = statements Table.chapters;
  libraries = statements Table.libraries;
  library_permissions = statements Table.library_permissions;
  playstates = statements Table.playstates;
  users = statements Table.users;
  joined_libraries = λ p m. (ok (libraries_of p m.tables), m);
  joined_audiobooks = λ p m. (ok (filter (is_joined p m.tables) m.tables.audiobooks), m);
  joined_audiobook = λ p m. (ok (find (is_joined p m.tables) m.tables.audiobooks), m);
  exclusive_transaction = λ into f m. ended m (f m);
  new_v4 = λ m. (m.next_id, record m { next_id = m.next_id + 1 });
  utc_now = λ m. (m.next_id, m);
  parse_str = parse_text;
  hyphenated = λ id. String.◌∷◌ "a" (unary id);
  random_salt = λ m. (m.next_id ∷ [], m);
  default2i = λ pw salt. codes pw;
  verify = λ x pw. some (x == codes pw);
  base64_encode = encode;
  base64_decode = λ t. some (decode 0 t);
}

abbrev pub empty : Memory
empty = record {
  tables = record {
    api_tokens = [];
    audiobooks = [];
    chapters = [];
    libraries = [];
    library_permissions = [];
    playstates = [];
    users = [];
  };
  next_id = 1;
}
