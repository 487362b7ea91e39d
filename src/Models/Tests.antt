-- ===== src/Models/Tests.antt =====
-- The theorems on src/models at concrete tables.
use vorleser_server.Prelude.{
  ◌≡◌, refl, inl, Bool, true, false, none, some, List, [], ◌∷◌, In, nat_eq, string_eq, bytes_eq,
  bool_eq,
}
use vorleser_server.Exec.{for_each}
use vorleser_server.Exec.Ends.{Ends-ok}
use vorleser_server.Db.{Uuid, User, Library, Audiobook}
use vorleser_server.Db.Memory.{Memory, memory, empty}
use vorleser_server.Db.Memory.Laws.{memory-IsLawful}
use vorleser_server.Models.Permission.{permit}
use vorleser_server.Models.User
use vorleser_server.Models.User.Creation.{create_user_outcome}
use vorleser_server.Models.Library
use vorleser_server.Models.Library.Creation.{with_library, create_library_outcome}
use vorleser_server.Models.Everyone.{
  Call, new_user, new_library, after_call, after_calls, after_calls-EveryonePermitted,
  EveryonePermitted,
}
use vorleser_server.Models.Access.{
  MayUse, MayRead, accessible_libraries_iff, accessible_audiobooks_iff, get_book_if_accessible_iff,
}
use vorleser_server.Prelude.{ℕ}
use vorleser_server.Db.{Playstate}
use vorleser_server.Models.Audiobook.{
  path, update_path, update_found, find_by_hash, ensure_exists_in, overwrite_or_insert, changeset,
}
use vorleser_server.Models.Audiobook.Paths.{Reported, relocated, update_path_outcome}
use vorleser_server.Models.Audiobook.Existence.{Ensured, overwritten, ensure_exists_in_outcome}
use vorleser_server.Models.Playstate.{upsert}
use vorleser_server.Models.Playstate.Upsert.{get, upsert_outcome}

-- A library at 1, a user at 2, and a second attempt at the same address.
abbrev script : List Call
script =
    new_library "/books" "^[^/]+$"
    ∷ new_user "ann@example.org" "secret"
    ∷ new_user "ann@example.org" "other"
    ∷ []

abbrev library_1 : Library
library_1 = record { id = 1; location = "/books"; is_audiobook_regex = "^[^/]+$"; last_scan = none }

abbrev ann : User
ann = record {
  id = 2;
  created_at = 3;
  updated_at = 3;
  email = "ann@example.org";
  password_hash = memory.base64_encode (memory.default2i "secret" []);
}

abbrev at_start : Memory
at_start = record { tables = record empty.tables { libraries = library_1 ∷ [] }; next_id = 2 }

abbrev at_end : Memory
at_end = record {
  tables = record empty.tables {
    libraries = library_1 ∷ [];
    users = ann ∷ [];
    library_permissions = record { library_id = 1; user_id = 2 } ∷ [];
  };
  next_id = 3;
}

abbrev book : Uuid → Uuid → Bool → Audiobook
book id library_id deleted = record {
  id = id;
  location = "dune.mp3";
  title = "Dune";
  artist = none;
  length = 0;
  library_id = library_id;
  hash = 1 ∷ [];
  file_extension = "mp3";
  deleted = deleted;
}

-- Two books of the library, one of them deleted, and one of a library that is not permitted.
abbrev shelved : Memory
shelved = record at_end {
  tables = record at_end.tables {
    audiobooks = book 10 1 false ∷ book 11 1 true ∷ book 12 9 false ∷ [];
  };
}

after_script : after_calls memory script empty ≡ at_end
unfolding after_calls after_call User.create User.create_in_transaction User.insert_user
    User.make_password_hash Library.create Library.create_in_transaction Library.insert_library
    for_each permit
after_script = refl

create_user_outcome_example : User.verify_password memory ann "secret" ≡ some true
unfolding User.create User.create_unless User.create_in_transaction User.insert_user
    User.make_password_hash for_each permit
create_user_outcome_example =
    (Ends-ok {a = ann}
      (create_user_outcome memory memory-IsLawful "ann@example.org" "secret" at_start)).1

create_library_outcome_example : at_start.tables ≡ with_library library_1 empty.tables
unfolding Library.create Library.create_in_transaction Library.insert_library for_each
create_library_outcome_example =
    (Ends-ok {a = library_1}
      (create_library_outcome memory memory-IsLawful "/books" "^[^/]+$" empty)).2

after_calls-EveryonePermitted_example : EveryonePermitted (after_calls memory script empty).tables
after_calls-EveryonePermitted_example =
    after_calls-EveryonePermitted memory memory-IsLawful script empty (λ u l hu hl. absurd hu)

accessible_libraries_iff_example : MayUse ann library_1 shelved.tables
unfolding User.accessible_libraries
accessible_libraries_iff_example =
    ((Ends-ok {a = library_1 ∷ []} (accessible_libraries_iff memory memory-IsLawful ann shelved)).1
        library_1).0
      (inl refl)

accessible_audiobooks_iff_example :
    In (book 10 1 false) shelved.tables.audiobooks
    × ((book 10 1 false).deleted ≡ false)
    × MayRead ann (book 10 1 false) shelved.tables
unfolding User.accessible_audiobooks
accessible_audiobooks_iff_example =
    ((Ends-ok {a = book 10 1 false ∷ []}
          (accessible_audiobooks_iff memory memory-IsLawful ann shelved)).1
        (book 10 1 false)).0
      (inl refl)

get_book_if_accessible_iff_example :
    In (book 11 1 true) shelved.tables.audiobooks
    × ((book 11 1 true).id ≡ 11)
    × MayRead ann (book 11 1 true) shelved.tables
unfolding User.get_book_if_accessible
get_book_if_accessible_iff_example =
    (Ends-ok {a = some (book 11 1 true)}
      (get_book_if_accessible_iff memory memory-IsLawful ann 11 shelved)).1

update_path_outcome_example :
    Reported memory memory-IsLawful
      (1 ∷ [])
      "dune.m4b"
      shelved.tables
      (relocated (1 ∷ []) "dune.m4b" shelved.tables)
      path
unfolding update_path update_found find_by_hash
update_path_outcome_example =
    Ends-ok {a = path} (update_path_outcome memory memory-IsLawful (1 ∷ []) "dune.m4b" shelved)

-- The same book, read again with another title and no artist.
abbrev reread : Audiobook
reread = record (book 20 1 false) { title = "Dune, read again" }

ensure_exists_in_outcome_example :
    Ensured memory memory-IsLawful library_1 "dune.mp3" reread shelved.tables
      (overwritten (book 10 1 false) reread shelved.tables)
      (record reread { id = 10 })
unfolding ensure_exists_in overwrite_or_insert changeset
ensure_exists_in_outcome_example =
    Ends-ok {a = record reread { id = 10 }}
      (ensure_exists_in_outcome memory memory-IsLawful "dune.mp3" library_1 reread shelved)

abbrev heard : ℕ → Playstate
heard position = record { audiobook_id = 10; user_id = 2; position = position; timestamp = 5 }

abbrev half_heard : Memory
half_heard = record shelved { tables = record shelved.tables { playstates = heard 7 ∷ [] } }

upsert_outcome_example : get 10 2 (heard 8 ∷ []) ≡ some (heard 8)
unfolding upsert
upsert_outcome_example =
    (Ends-ok {a = heard 8} (upsert_outcome memory memory-IsLawful (heard 8) half_heard)).2 10 2
