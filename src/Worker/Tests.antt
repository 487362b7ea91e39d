-- ===== src/Worker/Tests.antt =====
-- The theorems on src/worker at a concrete disk.
use vorleser_server.Prelude.{
  ◌<>◌, ℕ, ◌+◌, String, ◌≡◌, refl, ◌≢◌, inl, inr, Bool, true, false, not, none, some, List, [], ◌∷◌,
  All, ◌||◌, ◌&&◌, ltb, subst, Bool-cases, ◌==◌, nat_eq, string_eq, bytes_eq, bool_eq, ok,
}
use vorleser_server.Exec.{for_each}
use vorleser_server.Exec.Ends.{Ends-ok, returns}
use vorleser_server.Db.{Library, Audiobook, Uuid}
use vorleser_server.Db.Memory.{Memory, memory, empty}
use vorleser_server.Db.Memory.Laws.{memory-IsLawful}
use vorleser_server.Worker.Host.{Host, done, visit, entries, Media}
use vorleser_server.Worker.Hashing.{checksum_file, Reads, at_end, piece, checksum_file_lem}
use vorleser_server.Worker.Scanner.{Scanner, relative_path_str}
use vorleser_server.Worker.Scanner.Changes.{should_scan}
use vorleser_server.Worker.Scanner.Changes.Passing.{ChangedBefore, should_scan_iff}
use vorleser_server.Worker.Scanner.Deleted.Files.{SameFiles}
use vorleser_server.Worker.Scanner.Deleted.Recovery.{IsStill, recover_deleted_outcome}
use vorleser_server.Worker.Scanner.Deleted.{recover_deleted, delete_not_in_fs}
use vorleser_server.Worker.Scanner.Deleted.Marking.{IsApart, delete_not_in_fs_outcome}
use vorleser_server.Models.Audiobook.Growth.{HasKeys}
use vorleser_server.Worker.Scanner.Single.{create_audiobook}
use vorleser_server.Path.{strip_prefix}
use vorleser_server.Worker.Host.{Walk, png}
use vorleser_server.Worker.Scanner.{full}
use vorleser_server.Worker.Scanner.Run.{handle_book_at_path, walk_books}
use vorleser_server.Worker.Scanner.Walking.{handle_entries, walk_books_lem}
use vorleser_server.Worker.Scanner.{lock_file_path, aquire_lock_file, error}
use vorleser_server.Worker.Scanner.Locking.{IsLockable, Passed, aquire_lock_file_outcome}
use vorleser_server.Worker.Scanner.Single.Storing.{IsHarmless}
use vorleser_server.Worker.Scanner.Single.Atomic.{Scanned, create_audiobook_outcome}

abbrev media : Media
media = record {
  has_audio_track = true;
  title = "Dune";
  album = none;
  artist = some "Frank Herbert";
  length = 7;
  chapters = record { title = some "One"; start = 0 } ∷ record { title = none; start = 4 } ∷ [];
  coverart = ok none;
}

-- Every file is there but one, and has the same three bytes.
abbrev disk : Host Memory
disk = record {
  exists = λ p s. not (p == "/books/gone.mp3");
  is_dir = λ p s. false;
  is_file = λ p s. true;
  walk = λ p s. visit p (visit (p <> "/1.mp3") done done) done;
  sorted_walk = λ p s. visit p (visit (p <> "/1.mp3") done done) done;
  modified = λ p s. ok 5;
  reads = λ p s. ok (ok (1 ∷ 2 ∷ []) ∷ ok (3 ∷ []) ∷ ok [] ∷ []);
  sha256 = λ content. content;
  as_bytes = λ t. [];
  is_utf8 = λ p. true;
  is_match = λ r p. true;
  drain = λ counts. counts;
  f64_add = λ a b. a + b;
  read_media = λ p s. ok media;
  merge_files = λ p ms s. (ok tt, s);
  get_connection = λ s. (ok tt, s);
  create_dir = λ p s. (ok tt, s);
  save_image = λ i p s. (ok tt, s);
  rename = λ p q s. (ok tt, s);
  symlink = λ p q s. s;
  create_lock_file = λ p s. (ok tt, s);
  try_lock_exclusive = λ p s. (true, s);
  lock_exclusive = λ p s. (ok tt, s);
  close_lock_file = λ p s. s;
}

abbrev books : Library
books = record { id = 1; location = "/books"; is_audiobook_regex = "^[^/]+$"; last_scan = none }

abbrev scanner : Scanner
scanner = record { regex = "^[^/]+$"; library = books; data_directory = "data" }

abbrev book : Uuid → String → Bool → Audiobook
book id location deleted = record {
  id = id;
  location = location;
  title = "Dune";
  artist = none;
  length = 0;
  library_id = 1;
  hash = 9 ∷ [];
  file_extension = "mp3";
  deleted = deleted;
}

abbrev shelf : Memory
shelf = record {
  tables = record empty.tables {
    libraries = books ∷ [];
    audiobooks = book 10 "dune.mp3" false ∷ book 11 "gone.mp3" false ∷ [];
  };
  next_id = 20;
}

abbrev three_bytes : Reads (1 ∷ 2 ∷ 3 ∷ []) (ok (1 ∷ 2 ∷ []) ∷ ok (3 ∷ []) ∷ ok [] ∷ [])
three_bytes = piece 1 (2 ∷ []) (3 ∷ []) _ (piece 3 [] [] _ (at_end []))

checksum_file_lem_example : checksum_file disk "/books/dune.mp3" shelf ≡ ok (1 ∷ 2 ∷ 3 ∷ [])
checksum_file_lem_example =
    checksum_file_lem disk "/books/dune.mp3" shelf (1 ∷ 2 ∷ 3 ∷ []) _ refl three_bytes

should_scan_iff_example :
    (entries (disk.walk "/books/dune.mp3" shelf) ≢ [])
    × All (ChangedBefore disk 6 shelf) (entries (disk.walk "/books/dune.mp3" shelf))
unfolding should_scan
should_scan_iff_example = (should_scan_iff disk "/books/dune.mp3" 6 shelf).0 refl

apart : IsApart memory disk
apart = record { load_apart = λ p q s. refl; update_apart = λ p q f s. refl }

harmless : IsHarmless memory-IsLawful.view disk
harmless = record {
  symlink_law = λ p q s. refl;
  create_dir_law = λ p s. refl;
  save_image_law = λ i p s. refl;
}

two_keys : HasKeys shelf.tables.audiobooks
two_keys x y (inl a) (inl b) e = cc
two_keys x y (inl a) (inr (inl b)) e = cc
two_keys x y (inl a) (inr (inr b)) e = absurd b
two_keys x y (inr (inl a)) (inl b) e = cc
two_keys x y (inr (inl a)) (inr (inl b)) e = cc
two_keys x y (inr (inl a)) (inr (inr b)) e = absurd b
two_keys x y (inr (inr a)) j e = absurd a

delete_not_in_fs_outcome_example :
    (delete_not_in_fs memory disk scanner shelf).1.tables
    ≡ record shelf.tables { audiobooks = book 10 "dune.mp3" false ∷ book 11 "gone.mp3" true ∷ [] }
unfolding delete_not_in_fs for_each
delete_not_in_fs_outcome_example =
    (Ends-ok {a = tt}
      (delete_not_in_fs_outcome memory memory-IsLawful disk scanner apart shelf two_keys)).0

create_audiobook_outcome_example :
    (relative_path : String) × (hash : List ℕ) × (relative_path_str memory disk scanner
        "/books/new.mp3"
      ≡ ok relative_path)
    × (checksum_file disk "/books/new.mp3" shelf ≡ ok hash)
    × Scanned memory memory-IsLawful disk scanner "/books/new.mp3" relative_path hash shelf.tables
        (create_audiobook memory disk scanner "/books/new.mp3" shelf).1.tables
unfolding create_audiobook relative_path_str vorleser_server.Path.strip_prefix checksum_file
    vorleser_server.Models.Audiobook.update_path vorleser_server.Models.Audiobook.ensure_exists_in
    vorleser_server.Models.Audiobook.overwrite_or_insert
    vorleser_server.Worker.Scanner.link_audiobook
create_audiobook_outcome_example =
    Ends-ok {a = tt}
      (create_audiobook_outcome memory memory-IsLawful disk scanner harmless "/books/new.mp3" shelf)

-- A book that was marked as deleted and is there again, with its three bytes.
abbrev returned : Memory
returned = record shelf {
  tables = record shelf.tables {
    audiobooks =
        record (book 10 "dune.mp3" true) { hash = 1 ∷ 2 ∷ 3 ∷ [] } ∷ book 11 "gone.mp3" true ∷ [];
  };
}

still : IsStill memory disk
still = record { load_still = λ q s. same s; update_still = λ q f s. same s }
  where
    same : {s' : Memory} (s : Memory) → SameFiles disk s s'
    same s = record {
      exists = λ p. refl;
      is_dir = λ p. refl;
      is_file = λ p. refl;
      reads = λ p. refl;
      sorted_walk = λ p. refl;
    }

two_keys_again : HasKeys returned.tables.audiobooks
two_keys_again x y (inl a) (inl b) e = cc
two_keys_again x y (inl a) (inr (inl b)) e = cc
two_keys_again x y (inl a) (inr (inr b)) e = absurd b
two_keys_again x y (inr (inl a)) (inl b) e = cc
two_keys_again x y (inr (inl a)) (inr (inl b)) e = cc
two_keys_again x y (inr (inl a)) (inr (inr b)) e = absurd b
two_keys_again x y (inr (inr a)) j e = absurd a

recover_deleted_outcome_example :
    (recover_deleted memory disk scanner returned).1.tables ≡ record returned.tables {
      audiobooks =
          record (book 10 "dune.mp3" false) { hash = 1 ∷ 2 ∷ 3 ∷ [] }
          ∷ book 11 "gone.mp3" true
          ∷ [];
    }
unfolding recover_deleted vorleser_server.Worker.Scanner.Deleted.recover_book checksum_file
recover_deleted_outcome_example =
    (Ends-ok {a = 1}
      (recover_deleted_outcome memory memory-IsLawful disk scanner still returned two_keys_again)).0

-- A disk on which a lock can be held: the number of the next row stands for it.
abbrev lockable : Host Memory
lockable = record disk {
  try_lock_exclusive = λ p s. (true, record s { next_id = 1 });
  lock_exclusive = λ p s. (ok tt, record s { next_id = 1 });
  close_lock_file = λ p s. record s { next_id = 0 };
}

abbrev lock : IsLockable lockable (lock_file_path memory lockable scanner)
lock = record {
  held = λ s. s.next_id == 1;
  try_law = λ s. refl;
  lock_law = λ s. returns tt _ refl;
  close_law = λ s. refl;
}

aquire_lock_file_outcome_example :
    Passed memory lockable scanner lock (aquire_lock_file memory lockable scanner error shelf).1
unfolding aquire_lock_file
aquire_lock_file_outcome_example =
    Ends-ok {a = tt} (aquire_lock_file_outcome memory lockable scanner lock error shelf (λ e. cc))

-- A library with a book that is a directory and one that is a file.
-- The books have covers, and the directory for them comes to be when the first is saved.
abbrev tree : Host Memory
tree = record disk {
  is_dir = λ p s. p == "/books/dune" || (p == "data/img" && ltb 999 s.next_id);
  create_dir = λ p s. (ok tt, record s { next_id = s.next_id + 1000 });
  read_media = λ p s.
      ok (record media { coverart = ok (some (record { data_bytes = 1 ∷ []; image_type = png })) });
}

same_in_library :
    (q r : String) (s s' : Memory)
    → strip_prefix q "/books" ≡ some r
    → tree.is_dir q s' ≡ tree.is_dir q s
unfolding strip_prefix
same_in_library q r s s' e = elim (Bool-cases (q == "data/img")) [
  | inr f ↦ rw f refl
  | inl f ↦
      elsewhere
        (subst (λ p. strip_prefix p "/books" ≡ some r) ((string_eq.same_iff q "data/img").1 f) e)
]
  where
    elsewhere : strip_prefix "data/img" "/books" ≡ some r → tree.is_dir q s' ≡ tree.is_dir q s
    elsewhere h = cc

abbrev two_books : Walk
two_books =
    visit "/books"
      (visit "/books/dune" (visit "/books/dune/1.mp3" done done) (visit "/books/new.mp3" done done))
      done

-- The file inside of the directory is not looked at.
walk_books_lem_example :
    walk_books memory tree scanner full none two_books shelf
    ≡ handle_entries memory tree scanner full none
        (ok "/books" ∷ ok "/books/dune" ∷ ok "/books/new.mp3" ∷ [])
        shelf
unfolding strip_prefix
walk_books_lem_example =
    walk_books_lem memory tree scanner full none
      (λ path p s q r.
        same_in_library q r s (handle_book_at_path memory tree scanner full path p none s).1)
      two_books shelf
