-- ===== src/Worker/Scanner/Multifile/Storing.antt =====
-- The transaction of create_multifile_audiobook in src/worker/scanner.rs.
use vorleser_server.Prelude.{
  append-nil, append_assoc, String, ◌≡◌, sym, subst, ap, ◌∙◌, Bool, ◌&&◌, List, [], ◌∷◌, ◌++◌, ◌==◌,
  nat_eq, string_eq, bytes_eq, bool_eq,
}
use vorleser_server.Exec.{pure, ◌>>◌, for_each}
use vorleser_server.Exec.Ends.{Ends, returns, Ends-bind, Ends-mono, Ends-converted, Ends-for_each}
use vorleser_server.Errors.{diesel}
use vorleser_server.Db.{Library, Audiobook, Chapter, Tables}
use vorleser_server.Db.Backend.{Backend}
use vorleser_server.Db.Lawful.{IsLawful, amend}
use vorleser_server.Worker.Host.{Host, Media}
use vorleser_server.Worker.Scanner.{Scanner, Action, db, ignored, belongs, build_target_path}
use vorleser_server.Models.Audiobook.{changeset, delete_all_chapters}
use vorleser_server.Models.Audiobook.Existence.{Ensured, ensure_exists_in_outcome}
use vorleser_server.Worker.Scanner.Single.Storing.{
  IsHarmless, Ends-anyhow, Cleared, with_chapters, clear_lem, save_lem,
}
use vorleser_server.Worker.Scanner.Multifile.{Extraction, store_multifile, insert_multifile}

abbrev with_books : List Audiobook → Tables → Tables
with_books rows t = record t { audiobooks = rows }

-- What the scanner does to files does not touch the tables, the muxing included.
pub record IsQuiet {S : Type 0} (view : S → Tables) (H : Host S) : Type 0 where
  pub harmless : IsHarmless view H
  pub merge_law : (p : String) (ms : List Media) (s : S) → view (H.merge_files p ms s).1 ≡ view s
  pub rename_law : (p q : String) (s : S) → view (H.rename p q s).1 ≡ view s

module _ {B : Backend} (L : IsLawful B) (library : Library) (relative_path : String)
    (collection : Extraction) (t : Tables) where
  -- The book is stored with the length of its files, and its chapters are added.
  pub record StoredWhole (t' : Tables) : Type 0 where
    pub ensured : Tables
    pub book : Audiobook
    pub has_book : Ensured B L library relative_path collection.book t ensured book
    pub before : List Chapter
    pub was_cleared : Cleared L book.id ensured.chapters before
    pub stored : t' ≡ record ensured {
      chapters = before ++ collection.chapters;
      audiobooks =
          amend
            (λ x. x.library_id == library.id && x.id == book.id)
            (changeset (record book { length = collection.start_time }))
            ensured.audiobooks;
    }

module _ (B : Backend) (L : IsLawful B) (H : Host B.State) (self : Scanner) where
  open L use {view}

  insert_chapters_lem :
      (cs : List Chapter) (s : B.State) (t : Tables)
      → view s ≡ t
      → Ends
          (λ _ s'. view s' ≡ with_chapters (t.chapters ++ cs) t)
          (λ _ _. Unit {0})
          (for_each (λ c. db B (B.chapters.insert c)) cs s)
  insert_chapters_lem cs s t v =
      Ends-for_each (λ done s'. view s' ≡ with_chapters (t.chapters ++ done) t) (λ _ _. Unit {0})
        (λ c. db B (B.chapters.insert c))
        (λ done c s' i.
          Ends-converted diesel
            (Ends-mono (L.chapters.insert_law c s')
              (λ _ s'' h.
                h.0
                ∙ ap (λ u. with_chapters (u.chapters ++ c ∷ []) u) i
                ∙ ap (λ l. with_chapters l t) (append_assoc t.chapters done (c ∷ [])))
              (λ e s'' h. h))
            (λ _ _ _. tt))
        [] cs s (v ∙ ap (λ l. with_chapters l t) (sym (append-nil t.chapters)))

  -- The rows that `store_multifile` changes.
  abbrev finished : Extraction → Audiobook → Tables → Tables
  finished collection book t = record t {
    chapters = t.chapters ++ collection.chapters;
    audiobooks = amend (λ x. belongs B H self x && x.id == book.id) (changeset book) t.audiobooks;
  }

  store_multifile_lem :
      IsQuiet view H
      → (filetype temp : String) (collection : Extraction) (book : Audiobook) (s : B.State)
        (t : Tables)
      → view s ≡ t
      → Ends
          (λ _ s'. view s' ≡ finished collection book t)
          (λ _ _. Unit {0})
          (store_multifile B H self filetype temp collection book s)
  unfolding store_multifile
  store_multifile_lem W filetype temp collection book s t v =
      Ends-bind (λ _. db B (B.audiobooks.update mine (changeset book)) >> moving)
        (insert_chapters_lem collection.chapters s t v)
        (λ _ s₁ i.
          Ends-bind (λ _. moving)
            (Ends-converted diesel (L.audiobooks.update_law mine (changeset book) s₁) (λ _ _ _. tt))
            (λ _ s₂ u.
              Ends-bind (λ _. pure book)
                (Ends-mono
                  (Ends-anyhow (λ s'. view s' ≡ view s₂) (H.rename temp target s₂)
                    (W.rename_law temp target s₂))
                  (λ _ _ r. r) (λ _ _ _. tt))
                (λ _ s₃ r.
                  returns book s₃
                    (r ∙ u.0 ∙ ap (λ t. with_books (amend mine (changeset book) t.audiobooks) t) i))
                (λ _ _ d. d))
            (λ _ _ d. d))
        (λ _ _ d. d)
    where
      mine : Audiobook → Bool
      mine x = belongs B H self x && x.id == book.id

      target : String
      target = build_target_path B H self book.id filetype

      moving : Action B Audiobook
      moving = H.rename temp target >> pure book

  pub insert_multifile_lem :
      IsQuiet view H
      → (relative_path filetype temp : String) (collection : Extraction) (s : B.State) (t : Tables)
      → view s ≡ t
      → Ends
          (λ _ s'. StoredWhole L self.library relative_path collection t (view s'))
          (λ _ _. Unit {0})
          (insert_multifile B H self relative_path filetype temp collection s)
  unfolding insert_multifile
  insert_multifile_lem W relative_path filetype temp collection s t v =
      Ends-bind _
        (Ends-converted diesel
          (ensure_exists_in_outcome B L relative_path self.library collection.book s) (λ _ _ _. tt))
        (λ b s₁ h.
          Ends-bind
            (λ _.
              ignored B (delete_all_chapters B (timed b))
              >> store_multifile B H self filetype temp collection (timed b))
            (save_lem B L H self W.harmless b collection.cover s₁)
            (λ _ s₂ k.
              Ends-bind (λ _. store_multifile B H self filetype temp collection (timed b))
                (clear_lem B L H self (timed b) s₂)
                (λ _ s₃ c.
                  Ends-mono
                    (store_multifile_lem W filetype temp collection (timed b) s₃ _
                      (c.2 ∙ ap (λ u. with_chapters c.0 u) k))
                    (λ _ s₄ f. record {
                      ensured = view s₁;
                      book = b;
                      has_book =
                          subst
                            (λ t.
                              Ensured B L self.library relative_path collection.book t (view s₁) b)
                            v h;
                      before = c.0;
                      was_cleared = subst (λ u. Cleared L b.id u.chapters c.0) k c.1;
                      stored = f;
                    })
                    (λ _ _ d. d))
                (λ _ _ d. absurd d))
            (λ _ _ d. absurd d))
        (λ _ _ d. d)
    where
      timed : Audiobook → Audiobook
      timed b = record b { length = collection.start_time }
