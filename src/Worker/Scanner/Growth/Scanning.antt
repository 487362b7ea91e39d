-- ===== src/Worker/Scanner/Growth/Scanning.antt =====
-- A scan of src/worker/scanner.rs loses no book.
use vorleser_server.Prelude.{ℕ}
use vorleser_server.Worker.Scanner.Run.{is_none}
use vorleser_server.Prelude.{
  String, refl, ap, ◌||◌, inl, inr, not, ◌&&◌, if◌then◌else◌, true, false, Bool, Option, none, some,
  List, Bool-cases, ◌==◌, nat_eq, string_eq, bytes_eq, bool_eq, Result, ok, err,
}
use vorleser_server.Errors.{DieselError, diesel, failed}
use vorleser_server.Exec.{pure, converted}
use vorleser_server.Exec.Ends.{Ends-state}
use vorleser_server.Path.{strip_prefix}
use vorleser_server.Db.{Audiobook, Tables, NaiveDateTime}
use vorleser_server.Db.Backend.{Backend}
use vorleser_server.Db.Lawful.{IsLawful}
use vorleser_server.Worker.Host.{Host, Walk, done, failed as failed_entry, visit}
use vorleser_server.Models.Audiobook.{changeset}
use vorleser_server.Models.Audiobook.Growth.{
  Grows, Grows-same, Grows-trans, Grows-amend, Reported-Grows, Ensured-Grows,
}
use vorleser_server.Worker.Scanner.{
  passed_on, Scanner, data_path_of, link_audiobook, Scan, incremental, full,
}
use vorleser_server.Worker.Scanner.Changes.{should_scan}
use vorleser_server.Worker.Scanner.Single.Atomic.{Scanned, known, added, create_audiobook_outcome}
use vorleser_server.Worker.Scanner.Multifile.{multifile_remux, multifile_extract_chapters}
use vorleser_server.Worker.Scanner.Multifile.Reading.{extract_keeps}
use vorleser_server.Worker.Scanner.Multifile.Storing.{IsQuiet}
use vorleser_server.Worker.Scanner.Multifile.Whole.{
  ScannedWhole, create_multifile_audiobook_outcome, known as known_whole, added as added_whole,
}
use vorleser_server.Worker.Scanner.Run.{
  process_audiobook, process_if_needed, stands_under, ensure_cached, handle_book_at_path, visited,
  walk_books,
}
use vorleser_server.Worker.Scanner.Growth.{
  GrowsTo, of_view, after_bind, after_handled, after_converted, passed_on-Grows,
}

module _ (B : Backend) (L : IsLawful B) (H : Host B.State) (self : Scanner) where
  open L use {view}

  Scanned-Grows :
      (path relative_path : String) (hash : List ℕ) (t t' : Tables)
      → Scanned B L H self path relative_path hash t t'
      → Grows t.audiobooks t'.audiobooks
  Scanned-Grows path p hash t t' (known u _ r) = Reported-Grows hash p t t' u r
  Scanned-Grows path p hash t t' (added _ s file id _ _ st) =
      Grows-trans (Ensured-Grows self.library p _ t st.ensured st.book st.has_book)
        (Grows-same (ap (λ t. t.audiobooks) st.stored))

  ScannedWhole-Grows :
      (p : String) (hash : List ℕ) (t t' : Tables)
      → ScannedWhole B L H self p hash t t'
      → Grows t.audiobooks t'.audiobooks
  unfolding changeset
  ScannedWhole-Grows p hash t t' (known_whole u _ r) = Reported-Grows hash p t t' u r
  ScannedWhole-Grows p hash t t' (added_whole _ _ _ _ s s' collection _ st) =
      Grows-trans (Ensured-Grows self.library p _ t st.ensured st.book st.has_book) (
        rw st.stored (
          Grows-amend (λ x. x.library_id == self.library.id && x.id == st.book.id)
            (changeset (record st.book { length = collection.start_time })) (λ r. refl)
            st.ensured.audiobooks))

  module _ (W : IsQuiet view H) where
    process_audiobook-Grows :
        (path : String) (s : B.State) → GrowsTo B L s (process_audiobook B H self path s).1
    unfolding process_audiobook
    process_audiobook-Grows path s = elim (Bool-cases (H.is_dir path s)) [
      | inl e ↦ rw e (
          Ends-state (GrowsTo B L s) (create_multifile_audiobook_outcome B L H self W path s)
            (λ _ s' (p, hash, _, _, d). ScannedWhole-Grows p hash (view s) (view s') d)
            (λ _ _ v. of_view B L v))
      | inr e ↦ rw e (
          Ends-state (GrowsTo B L s) (create_audiobook_outcome B L H self W.harmless path s)
            (λ _ s' (p, hash, _, _, d). Scanned-Grows path p hash (view s) (view s') d)
            (λ _ _ v. of_view B L v))
    ]

    first_optional-Grows :
        (p : Audiobook → Bool) (s : B.State) → GrowsTo B L s (B.audiobooks.first_optional p s).1
    first_optional-Grows p s =
        Ends-state (GrowsTo B L s) (L.audiobooks.first_optional_law p s) (λ _ _ h. of_view B L h.0)
          (λ _ _ h. of_view B L h.0)

    process_if_needed-Grows :
        (scan_type : Scan) (path p : String) (last_scan : Option NaiveDateTime) (s : B.State)
        → GrowsTo B L s (process_if_needed B H self scan_type path p last_scan s).1
    unfolding process_if_needed
    process_if_needed-Grows full path p last_scan s = process_audiobook-Grows path s
    process_if_needed-Grows incremental path p last_scan s =
        after_bind B L _ _
          (after_converted B L failed _
            (after_converted B L diesel _ (first_optional-Grows (stands_under B H self p) s)))
          (λ book s₁.
            after_bind B L _ (converted failed (should_scan H path last_scan s₁, s₁))
              (after_converted B L failed _ (of_view B L refl))
              (λ changed s₂. needed (changed || is_none book) s₂))
      where
        needed :
            (b : Bool) (s : B.State)
            → GrowsTo B L s ((if b then process_audiobook B H self path else pure tt) s).1
        needed true s = process_audiobook-Grows path s
        needed false s = of_view B L refl

    remux-Grows : (b : Audiobook) (s : B.State) → GrowsTo B L s (multifile_remux B H self b s).1
    unfolding multifile_remux
    remux-Grows b s =
        after_bind B L _ (multifile_extract_chapters B H self b s)
          (of_view B L (extract_keeps B L H self (view s) b s refl))
          (λ collection s₁. of_view B L (W.merge_law _ collection.media_files s₁))

    ensure_cached-Grows :
        (path : String) (r : Result DieselError Audiobook) (s : B.State)
        → GrowsTo B L s (ensure_cached B H self path r s).1
    unfolding ensure_cached link_audiobook
    ensure_cached-Grows path (err e) s = of_view B L refl
    ensure_cached-Grows path (ok b) s =
        elim (Bool-cases (H.is_dir path s && not (H.exists (data_path_of B H self b) s))) [
          | inl e ↦ rw e (
              after_handled B L (passed_on B) (multifile_remux B H self b s) (remux-Grows b s)
                (passed_on-Grows B L))
          | inr e ↦ elim (Bool-cases (not (H.exists (data_path_of B H self b) s))) [
            | inl n ↦ rw (e, n) (of_view B L (W.harmless.symlink_law _ _ s))
            | inr n ↦ rw (e, n) (of_view B L refl)
          ]
        ]

    handle-Grows :
        (scan_type : Scan) (path p : String) (last_scan : Option NaiveDateTime) (s : B.State)
        → GrowsTo B L s (handle_book_at_path B H self scan_type path p last_scan s).1
    unfolding handle_book_at_path
    handle-Grows scan_type path p last_scan s =
        after_bind B L _ (process_if_needed B H self scan_type path p last_scan s)
          (process_if_needed-Grows scan_type path p last_scan s)
          (λ _ s₁.
            after_handled B L (ensure_cached B H self path)
              (B.audiobooks.first (stands_under B H self p) s₁)
              (Ends-state (GrowsTo B L s₁) (L.audiobooks.first_law (stands_under B H self p) s₁)
                (λ _ _ h. of_view B L h.0) (λ _ _ h. of_view B L h.0))
              (ensure_cached-Grows path))

    visited-Grows :
        (scan_type : Scan) (last_scan : Option NaiveDateTime) (path : String) (o : Option String)
        (s : B.State)
        → GrowsTo B L s (visited B H self scan_type last_scan path o s).1
    unfolding visited
    visited-Grows scan_type last_scan path none s = of_view B L refl
    visited-Grows scan_type last_scan path (some p) s =
        elim (Bool-cases (H.is_match self.regex p && not (p == ""))) [
          | inl e ↦ rw e (
              after_bind B L _ _
                (after_handled B L (passed_on B)
                  (handle_book_at_path B H self scan_type path p last_scan s)
                  (handle-Grows scan_type path p last_scan s) (passed_on-Grows B L))
                (λ _ s₁. of_view B L refl))
          | inr e ↦ rw e (of_view B L refl)
        ]

    pub walk_books-Grows :
        (scan_type : Scan) (last_scan : Option NaiveDateTime) (w : Walk) (s : B.State)
        → GrowsTo B L s (walk_books B H self scan_type last_scan w s).1
    unfolding walk_books
    walk_books-Grows scan_type last_scan done s = of_view B L refl
    walk_books-Grows scan_type last_scan (failed_entry e rest) s = of_view B L refl
    walk_books-Grows scan_type last_scan (visit path contents rest) s =
        after_bind B L _
          (visited B H self scan_type last_scan path (strip_prefix path self.library.location) s)
          (visited-Grows scan_type last_scan path (strip_prefix path self.library.location) s)
          (elim [
            | true ↦ walk_books-Grows scan_type last_scan rest
            | false ↦ λ s'.
                after_bind B L (λ _. walk_books B H self scan_type last_scan rest)
                  (walk_books B H self scan_type last_scan contents s')
                  (walk_books-Grows scan_type last_scan contents s')
                  (λ _. walk_books-Grows scan_type last_scan rest)
          ])
