-- ===== src/Worker/Scanner/Single/Atomic.antt =====
-- create_audiobook of src/worker/scanner.rs: all or nothing.
use vorleser_server.Prelude.{
  ℕ, String, ◌≡◌, refl, subst, ◌∙◌, inl, inr, true, false, List, if◌then◌else◌, nat_eq, string_eq,
  bytes_eq, bool_eq, ok, Bool-cases, Result-cases,
}
use vorleser_server.Exec.{pure}
use vorleser_server.Exec.Ends.{Ends, returns, fails, Ends-bind, Ends-mono, Ends-converted}
use vorleser_server.Errors.{diesel, failed}
use vorleser_server.Db.{Uuid, Audiobook, Tables}
use vorleser_server.Db.Backend.{Backend}
use vorleser_server.Db.Lawful.{IsLawful, IsStopped}
use vorleser_server.Path.{extension}
use vorleser_server.Worker.Host.{Host, Media}
use vorleser_server.Worker.Hashing.{checksum_file}
use vorleser_server.Worker.Scanner.{Scanner, relative_path_str}
use vorleser_server.Models.Audiobook.{Update, nothing, path as moved, unknown}
use vorleser_server.Models.Audiobook.Paths.{Reported, missing, unread, update_path_outcome}
use vorleser_server.Worker.Scanner.Single.{
  is_done, store_audiobook, scan_file, or_empty, create_audiobook,
}
use vorleser_server.Worker.Scanner.Single.Storing.{IsHarmless, Ends-anyhow, Stored, insert_lem}

pub unchanged :
    {B : Backend} {L : IsLawful B} (hash : List ℕ) (p : String) (t t' : Tables)
    → Reported B L hash p t t' unknown
    → t' ≡ t
unchanged hash p t t' (missing _ e) = e
unchanged hash p t t' (unread _ _ e) = e

module _ (B : Backend) (L : IsLawful B) (H : Host B.State) (self : Scanner) where
  open L use {view}

  -- The book that a file is described as.
  abbrev pub described : String → String → List ℕ → Media → Uuid → Audiobook
  described path relative_path hash file id = record {
    id = id;
    location = relative_path;
    title = file.title;
    artist = file.artist;
    length = file.length;
    library_id = self.library.id;
    hash = hash;
    file_extension = or_empty B H self (extension path);
    deleted = false;
  }

  -- What the scan of one file has done: a book with its hash was known, and has this path now; or
  -- there was none, and the book is stored as the file describes it.
  pub data Scanned (path relative_path : String) (hash : List ℕ) (t t' : Tables) : Type 0 where
    known :
        (u : Update)
        → is_done u ≡ true
        → Reported B L hash relative_path t t' u
        → Scanned path relative_path hash t t'
    added :
        Reported B L hash relative_path t t unknown
        → (s : B.State) (file : Media) (id : Uuid) → H.read_media path s ≡ ok file
        → file.has_audio_track ≡ true
        → Stored L self.library relative_path
            (described path relative_path hash file id)
            file.chapters
            t
            t'
        → Scanned path relative_path hash t t'

  module _ (W : IsHarmless view H) (path relative_path : String) (hash : List ℕ) where
    store_lem :
        (file : Media) (s : B.State) (t : Tables)
        → view s ≡ t
        → Ends
            (λ _ s'.
              (id : Uuid) × Stored L self.library relative_path
                (described path relative_path hash file id)
                file.chapters
                t
                (view s'))
            (λ _ s'. view s' ≡ t)
            (store_audiobook B H self path relative_path hash file s)
    unfolding store_audiobook
    store_lem file s t v =
        Ends-bind _ (Ends-anyhow (λ s'. view s' ≡ t) (H.read_media path s, s) v)
          (λ _ s₁ v₁.
            Ends-bind _
              (Ends-anyhow (λ s'. view s' ≡ t) (file.coverart, (B.new_v4 s₁).1)
                (L.new_v4_law s₁ ∙ v₁))
              (λ o s₂ v₂.
                Ends-bind _
                  (Ends-converted failed
                    (L.exclusive_transaction_law diesel _ s₂
                      (λ _ t'.
                        Stored L self.library relative_path
                          (described path relative_path hash file (B.new_v4 s₁).0) file.chapters t
                          t')
                      (IsStopped L)
                      (λ s₃ v₃.
                        insert_lem B L H self W relative_path _ file.chapters o s₃ t (v₃ ∙ v₂)))
                    (λ _ _ k. k.0 ∙ v₂))
                  (λ _ s₄ st. returns tt s₄ (_, st)) (λ _ _ k. k))
              (λ _ _ v. v))
          (λ _ _ v. v)

    scan_lem :
        (s : B.State) (t : Tables)
        → view s ≡ t
        → Reported B L hash relative_path t t unknown
        → Ends
            (λ _ s'. Scanned path relative_path hash t (view s'))
            (λ _ s'. view s' ≡ t)
            (scan_file B H self path relative_path hash s)
    unfolding scan_file
    scan_lem s t v r = elim (Result-cases (H.read_media path s)) [
      | inr (e, m) ↦ rw m (fails e s v)
      | inl (file, m) ↦ rw m (elim (Bool-cases file.has_audio_track) [
        | inr a ↦ rw a (fails _ s v)
        | inl a ↦
            rw a
              (Ends-mono (store_lem file s t v) (λ _ s' k. added r s file k.0 m a k.1) (λ _ _ k. k))
      ])
    ]

    update_lem :
        (u : Update) (s : B.State) (t : Tables)
        → Reported B L hash relative_path t (view s) u
        → Ends
            (λ _ s'. Scanned path relative_path hash t (view s'))
            (λ _ s'. view s' ≡ t)
            ((if is_done u then pure tt else scan_file B H self path relative_path hash) s)
    update_lem nothing s t r = returns tt s (known nothing refl r)
    update_lem moved s t r = returns tt s (known moved refl r)
    update_lem unknown s t r =
        let same = unchanged hash relative_path t (view s) r in
        scan_lem s t same (subst (λ t'. Reported B L hash relative_path t t' unknown) same r)

  -- Scanning one file is all or nothing: on an error or a panic the tables are as they were. Else either a book
  -- with the file's hash was known and has the file's path now, or none was found and one is ensured
  -- as the file describes it, its chapters replace the rows with their keys, and the chapters that it
  -- had are gone unless their deletion failed unnoticed. What is done to files must not touch the
  -- tables.
  pub create_audiobook_outcome :
      IsHarmless view H
      → (path : String) (s : B.State)
      → Ends
          (λ _ s'.
            (relative_path : String) × (hash : List ℕ) × (relative_path_str B H self path
              ≡ ok relative_path)
            × (checksum_file H path s ≡ ok hash)
            × Scanned path relative_path hash (view s) (view s'))
          (λ _ s'. view s' ≡ view s)
          (create_audiobook B H self path s)
  unfolding create_audiobook
  create_audiobook_outcome W path s = elim (Result-cases (relative_path_str B H self path)) [
    | inr (e, r) ↦ rw r (fails _ s refl)
    | inl (relative_path, r) ↦ rw r (elim (Result-cases (checksum_file H path s)) [
      | inr (e, c) ↦ rw c (fails _ s refl)
      | inl (hash, c) ↦ rw c (
          Ends-bind _
            (Ends-converted failed
              (Ends-converted {F' = λ _ s'. view s' ≡ view s} diesel
                (update_path_outcome B L hash relative_path s) (λ _ _ k. k.0))
              (λ _ _ k. k))
            (λ u s₁ k.
              Ends-mono (update_lem W path relative_path hash u s₁ (view s) k)
                (λ _ _ d. (relative_path, hash, refl, refl, d)) (λ _ _ d. d))
            (λ _ _ d. d))
    ])
  ]
