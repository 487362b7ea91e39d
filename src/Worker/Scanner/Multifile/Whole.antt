-- ===== src/Worker/Scanner/Multifile/Whole.antt =====
-- create_multifile_audiobook of src/worker/scanner.rs: all or nothing.
use vorleser_server.Prelude.{
  ℕ, String, ◌≡◌, refl, subst, ◌∙◌, inl, inr, true, List, if◌then◌else◌, nat_eq, string_eq,
  bytes_eq, bool_eq, Result, ok, err, Option-cases, Result-cases,
}
use vorleser_server.Exec.{pure}
use vorleser_server.Exec.Ends.{Ends, returns, fails, Ends-bind, Ends-mono, Ends-converted}
use vorleser_server.Errors.{Fault, diesel, failed}
use vorleser_server.Db.{Audiobook, Tables}
use vorleser_server.Db.Backend.{Backend}
use vorleser_server.Db.Lawful.{IsLawful}
use vorleser_server.Path.{file_name}
use vorleser_server.Worker.Host.{Host}
use vorleser_server.Worker.Hashing.{checksum_dir}
use vorleser_server.Worker.Scanner.{Scanner, relative_path_str}
use vorleser_server.Worker.Scanner.Changes.{probable_audio_filetype}
use vorleser_server.Models.Audiobook.{Update, nothing, path as moved, unknown}
use vorleser_server.Models.Audiobook.Paths.{Reported, update_path_outcome}
use vorleser_server.Worker.Scanner.Single.{is_done}
use vorleser_server.Worker.Scanner.Single.Storing.{Ends-anyhow}
use vorleser_server.Worker.Scanner.Single.Atomic.{unchanged}
use vorleser_server.Worker.Scanner.Multifile.{
  Extraction, multifile_extract_chapters, mux_and_insert, scan_directory,
  create_multifile_audiobook,
}
use vorleser_server.Worker.Scanner.Multifile.Storing.{IsQuiet, StoredWhole, insert_multifile_lem}
use vorleser_server.Worker.Scanner.Multifile.Reading.{extract_keeps}

-- How something ran, with what holds of the state after it.
Ends-as_run :
    {S E A : Type 0} (P : S → Type 0) (r : Result E A × S)
    → P r.1
    → Ends (λ a s. (r ≡ (ok a, s)) × P s) (λ _ s. P s) r
Ends-as_run P (ok a, s) p = returns a s (refl, p)
Ends-as_run P (err e, s) p = fails e s p

module _ (B : Backend) (L : IsLawful B) (H : Host B.State) (self : Scanner) where
  open L use {view}

  -- What the scan of a directory has done: a book with its hash was known, and has this path now; or
  -- none was found, and one is stored as its files describe it, with that hash and path at first.
  pub data ScannedWhole (relative_path : String) (hash : List ℕ) (t t' : Tables) : Type 0 where
    known :
        (u : Update)
        → is_done u ≡ true
        → Reported B L hash relative_path t t' u
        → ScannedWhole relative_path hash t t'
    added :
        Reported B L hash relative_path t t unknown
        → (default_book : Audiobook) → default_book.hash ≡ hash
        → default_book.location ≡ relative_path
        → (s s' : B.State) (collection : Extraction)
        → multifile_extract_chapters B H self default_book s ≡ (ok collection, s')
        → StoredWhole L self.library relative_path collection t t'
        → ScannedWhole relative_path hash t t'

  module _ (W : IsQuiet view H) (relative_path : String) (hash : List ℕ) (t : Tables)
      (r : Reported B L hash relative_path t t unknown) where
    abbrev Done : {A : Type 0} → A → B.State → Type 0
    Done _ s' = ScannedWhole relative_path hash t (view s')

    abbrev AsBefore : Fault → B.State → Type 0
    AsBefore _ s' = view s' ≡ t

    mux_lem :
        (filetype title : String) (s : B.State)
        → view s ≡ t
        → Ends Done AsBefore (mux_and_insert B H self relative_path hash filetype title s)
    unfolding mux_and_insert
    mux_lem filetype title s v =
        Ends-bind _
          (Ends-as_run (λ s'. view s' ≡ t) (multifile_extract_chapters B H self _ (B.new_v4 s).1)
            (extract_keeps B L H self t _ _ (L.new_v4_law s ∙ v)))
          (λ collection s₁ k.
            Ends-bind _
              (Ends-anyhow (λ s'. view s' ≡ t) (H.merge_files _ collection.media_files s₁)
                (W.merge_law _ collection.media_files s₁ ∙ k.1))
              (λ _ s₂ v₂.
                Ends-bind _
                  (Ends-converted failed
                    (L.exclusive_transaction_law diesel _ s₂
                      (λ _ t'. StoredWhole L self.library relative_path collection t t')
                      (λ _. Unit {0})
                      (λ s₃ v₃.
                        insert_multifile_lem B L H self W relative_path filetype _ collection s₃ t
                          (v₃ ∙ v₂)))
                    (λ _ _ d. d.0 ∙ v₂))
                  (λ _ s₄ st. returns tt s₄ (added r _ refl refl _ s₁ collection k.0 st))
                  (λ _ _ d. d))
              (λ _ _ d. d))
          (λ _ _ d. d)

    directory_lem :
        (p : String) (s : B.State)
        → view s ≡ t
        → Ends Done AsBefore (scan_directory B H self p relative_path hash s)
    unfolding scan_directory
    directory_lem p s v = elim (Option-cases (probable_audio_filetype H p s)) [
      | inl e ↦ rw e (fails _ s v)
      | inr (filetype, e) ↦ elim (Option-cases (file_name p)) [
        | inl n ↦ rw (e, n) (fails _ s v)
        | inr (title, n) ↦ rw (e, n) (mux_lem filetype title s v)
      ]
    ]

  update_whole :
      IsQuiet view H
      → (p relative_path : String) (hash : List ℕ) (u : Update) (s : B.State) (t : Tables)
      → Reported B L hash relative_path t (view s) u
      → Ends
          (λ _ s'. ScannedWhole relative_path hash t (view s'))
          (λ _ s'. view s' ≡ t)
          ((if is_done u then pure tt else scan_directory B H self p relative_path hash) s)
  update_whole W p relative_path hash nothing s t r = returns tt s (known nothing refl r)
  update_whole W p relative_path hash moved s t r = returns tt s (known moved refl r)
  update_whole W p relative_path hash unknown s t r =
      let same = unchanged hash relative_path t (view s) r in
      directory_lem W relative_path hash t
        (subst (λ t'. Reported B L hash relative_path t t' unknown) same r) p s same

  pub create_multifile_audiobook_outcome :
      IsQuiet view H
      → (p : String) (s : B.State)
      → Ends
          (λ _ s'.
            (relative_path : String) × (hash : List ℕ) × (relative_path_str B H self p
              ≡ ok relative_path)
            × (checksum_dir H p s ≡ ok hash)
            × ScannedWhole relative_path hash (view s) (view s'))
          (λ _ s'. view s' ≡ view s)
          (create_multifile_audiobook B H self p s)
  unfolding create_multifile_audiobook
  create_multifile_audiobook_outcome W p s = elim (Result-cases (checksum_dir H p s)) [
    | inr (e, c) ↦ rw c (fails _ s refl)
    | inl (hash, c) ↦ elim (Result-cases (relative_path_str B H self p)) [
      | inr (e, r) ↦ rw (c, r) (fails _ s refl)
      | inl (relative_path, r) ↦
          rw (c, r)
            (Ends-bind _
              (Ends-converted failed
                (Ends-converted {F' = λ _ s'. view s' ≡ view s} diesel
                  (update_path_outcome B L hash relative_path s) (λ _ _ k. k.0))
                (λ _ _ k. k))
              (λ u s₁ k.
                Ends-mono (update_whole W p relative_path hash u s₁ (view s) k)
                  (λ _ _ d. (relative_path, hash, refl, refl, d)) (λ _ _ d. d))
              (λ _ _ d. d))
    ]
  ]
