-- ===== src/Worker/Scanner/Multifile/Reading.antt =====
-- multifile_extract_chapters of src/worker/scanner.rs touches no table.
use vorleser_server.Prelude.{
  String, ◌≡◌, ◌∙◌, inl, inr, List, [], ◌∷◌, ◌==◌, nat_eq, string_eq, bytes_eq, bool_eq, Result, ok,
  err, Bool-cases,
}
use vorleser_server.Exec.Keeps.{keeps_bind}
use vorleser_server.Errors.{Failure}
use vorleser_server.Db.{Audiobook, Tables}
use vorleser_server.Db.Backend.{Backend}
use vorleser_server.Db.Lawful.{IsLawful}
use vorleser_server.Path.{extension}
use vorleser_server.Worker.Host.{Host, Media}
use vorleser_server.Worker.Scanner.{Scanner}
use vorleser_server.Worker.Scanner.Multifile.{
  Extraction, first_file, next_chapter, extract_file, extract_entry, extract_entries,
  multifile_extract_chapters, has_extension, is_title, last_title,
}

module _ (B : Backend) (L : IsLawful B) (H : Host B.State) (self : Scanner) where
  open L use {view}

  -- Reading the files of a book touches no table.
  module _ (t : Tables) where
    abbrev pub Kept : B.State → Type 0
    Kept s = view s ≡ t

    first_keeps :
        (x : Extraction) (m : Media) (s : B.State) → Kept s → Kept (first_file B H self x m s).1
    unfolding first_file
    first_keeps x m s v = elim (Bool-cases (x.chapter_index == 0)) [
      | inl e ↦ rw e (keeps_bind Kept _ (m.coverart, s) v (λ _ _ w. w))
      | inr e ↦ rw e v
    ]

    next_keeps :
        (x : Extraction) (m : Media) (s : B.State) → Kept s → Kept (next_chapter B H self x m s).1
    unfolding next_chapter
    next_keeps x m s v = elim (Bool-cases (is_title m.title (last_title x.chapters))) [
      | inl e ↦ rw e v
      | inr e ↦ rw e (L.new_v4_law s ∙ v)
    ]

    file_keeps :
        (x : Extraction) (p : String) (s : B.State) → Kept s → Kept (extract_file B H self x p s).1
    unfolding extract_file
    file_keeps x p s v =
        keeps_bind Kept _ (H.read_media p s, s) v
          (λ m s₁ v₁.
            keeps_bind Kept _ (first_file B H self x m s₁) (first_keeps x m s₁ v₁) (λ y s₂ v₂.
              keeps_bind Kept _ (next_chapter B H self y m s₂) (next_keeps y m s₂ v₂) (λ _ _ w. w)))

    entry_keeps :
        (x : Extraction) (p : String) (s : B.State) → Kept s → Kept (extract_entry B H self x p s).1
    unfolding extract_entry
    entry_keeps x p s v = elim (Bool-cases (H.is_dir p s)) [
      | inl e ↦ rw e v
      | inr e ↦ elim (Bool-cases (has_extension x.book.file_extension (extension p))) [
        | inl h ↦ rw (e, h) (file_keeps x p s v)
        | inr h ↦ rw (e, h) v
      ]
    ]

    entries_keep :
        (es : List (Result Failure String)) (x : Extraction) (s : B.State)
        → Kept s
        → Kept (extract_entries B H self es x s).1
    unfolding extract_entries
    entries_keep [] x s v = v
    entries_keep (err e ∷ es) x s v = v
    entries_keep (ok p ∷ es) x s v =
        keeps_bind Kept (extract_entries B H self es) (extract_entry B H self x p s)
          (entry_keeps x p s v) (entries_keep es)

    pub extract_keeps :
        (b : Audiobook) (s : B.State) → Kept s → Kept (multifile_extract_chapters B H self b s).1
    unfolding multifile_extract_chapters
    extract_keeps b s v = entries_keep _ _ s v
