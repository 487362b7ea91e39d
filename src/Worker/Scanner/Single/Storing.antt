-- ===== src/Worker/Scanner/Single/Storing.antt =====
-- The transaction of create_audiobook in src/worker/scanner.rs.
use vorleser_server.Prelude.{
  ℕ, ◌+◌, String, ◌<>◌, ◌≡◌, refl, subst, ap, ◌∙◌, not, Option, none, some, List, [], ◌∷◌, filter,
  ◌==◌, nat_eq, string_eq, bytes_eq, bool_eq, Result, ok, err,
}
use vorleser_server.Exec.{pure, ◌>>◌}
use vorleser_server.Exec.Ends.{
  Ends, returns, fails, Ends-bind, Ends-mono, Ends-converted, Ends-handled,
}
use vorleser_server.Errors.{DieselError, Failure, diesel}
use vorleser_server.Db.{Uuid, Library, Audiobook, Chapter, Tables}
use vorleser_server.Db.Backend.{Backend}
use vorleser_server.Db.Lawful.{IsLawful, IsStopped}
use vorleser_server.Worker.Host.{Host, Image, MediaChapter, CreateDirError, dir_exists, not_created}
use vorleser_server.Worker.Scanner.{Scanner, ignored, link_audiobook, save_coverart}
use vorleser_server.Models.Audiobook.{delete_all_chapters}
use vorleser_server.Db.Table
use vorleser_server.Db.Lawful.{replaced}
use vorleser_server.Models.Audiobook.Existence.{Ensured, ensure_exists_in_outcome}
use vorleser_server.Worker.Scanner.{unless_exists}
use vorleser_server.Worker.Scanner.Single.{
  save_if, number_chapters, store_chapters, insert_audiobook,
}

-- What the scanner does to files does not touch the tables.
pub record IsHarmless {S : Type 0} (view : S → Tables) (H : Host S) : Type 0 where
  pub symlink_law : (src dest : String) (s : S) → view (H.symlink src dest s) ≡ view s
  pub create_dir_law : (p : String) (s : S) → view (H.create_dir p s).1 ≡ view s
  pub save_image_law : (i : Image) (p : String) (s : S) → view (H.save_image i p s).1 ≡ view s

pub Ends-anyhow :
    {S E A : Type 0} (P : S → Type 0) (r : Result E A × S)
    → P r.1
    → Ends (λ (_ : A) s. P s) (λ (_ : E) s. P s) r
Ends-anyhow P (ok a, s) p = returns a s p
Ends-anyhow P (err e, s) p = fails e s p

abbrev pub with_chapters : List Chapter → Tables → Tables
with_chapters rows t = record t { chapters = rows }

-- The chapters of a book as they were, or without those of the book: the database may
-- fail at their deletion unnoticed.
pub data Cleared {B : Backend} (L : IsLawful B) (id : Uuid) (old : List Chapter)
    : List Chapter → Type 0 where
  cleared : Cleared L id old (filter (λ c. not (c.audiobook_id == id)) old)
  kept : (e : DieselError) → L.IsDatabase e → Cleared L id old old

-- The chapters of a file as rows: titles, times and numbers in order.
pub data Numbered (id : Uuid) : ℕ → List MediaChapter → List Chapter → Type 0 where
  no_chapters : {i : ℕ} → Numbered id i [] []
  next :
      {i : ℕ} {c : MediaChapter} {cs : List MediaChapter} {r : Chapter} {rs : List Chapter}
      → r.audiobook_id ≡ id
      → r.title ≡ c.title
      → r.start_time ≡ c.start
      → r.number ≡ i
      → Numbered id (i + 1) cs rs
      → Numbered id i (c ∷ cs) (r ∷ rs)

module _ {B : Backend} (L : IsLawful B) (library : Library) (relative_path : String)
    (new : Audiobook) (chapters : List MediaChapter) (t : Tables) where
  -- The book and its chapters are stored.
  pub record Stored (t' : Tables) : Type 0 where
    pub ensured : Tables
    pub book : Audiobook
    pub has_book : Ensured B L library relative_path new t ensured book
    pub rows : List Chapter
    pub numbered : Numbered book.id 0 chapters rows
    pub before : List Chapter
    pub was_cleared : Cleared L book.id ensured.chapters before
    pub stored : t' ≡ record ensured { chapters = replaced Table.chapters.clash rows before }

module _ (B : Backend) (L : IsLawful B) (H : Host B.State) (self : Scanner) where
  open L use {view}

  number_chapters_lem :
      (id : Uuid) (i : ℕ) (cs : List MediaChapter) (s : B.State)
      → Ends
          (λ rs s'. (view s' ≡ view s) × Numbered id i cs rs)
          (λ e _. IsStopped L e)
          (number_chapters B H self id i cs s)
  unfolding number_chapters
  number_chapters_lem id i [] s = returns [] s (refl, no_chapters)
  number_chapters_lem id i (c ∷ cs) s =
      Ends-bind _ (number_chapters_lem id (i + 1) cs (B.new_v4 s).1)
        (λ rs s' h. returns _ s' (h.0 ∙ L.new_v4_law s, next refl refl refl refl h.1)) (λ e s' h. h)

  saved :
      IsHarmless view H
      → (b : Audiobook) (image : Image) (s : B.State)
      → Ends
          (λ _ s'. view s' ≡ view s)
          (λ _ s'. view s' ≡ view s)
          (save_coverart B H self b image s)
  unfolding save_coverart
  saved W b image s =
      Ends-bind _
        (Ends-handled (unless_exists B H self)
          (Ends-anyhow (λ s'. view s' ≡ view s) (H.create_dir (self.data_directory <> "/img") s)
            (W.create_dir_law _ s))
          (λ _ s' h. returns tt s' h) (λ e s' h. in_spite e s' h))
        (λ _ s₁ h.
          Ends-mono
            (Ends-anyhow (λ s'. view s' ≡ view s₁) (H.save_image image _ s₁)
              (W.save_image_law image _ s₁))
            (λ _ s' k. k ∙ h) (λ _ s' k. k ∙ h))
        (λ _ _ h. h)
    where
      in_spite :
          (e : CreateDirError) (s' : B.State)
          → view s' ≡ view s
          → Ends
              (λ _ s'. view s' ≡ view s)
              (λ _ s'. view s' ≡ view s)
              (unless_exists B H self (err e) s')
      in_spite dir_exists s' h = returns tt s' h
      in_spite (not_created e) s' h = fails e s' h

  pub save_lem :
      IsHarmless view H
      → (b : Audiobook) (o : Option Image) (s : B.State)
      → Ends (λ _ s'. view s' ≡ view s) (λ _ _. ⊥) (save_if B H self b o s)
  save_lem W b none s = returns tt s refl
  save_lem W b (some image) s =
      Ends-handled (λ _. pure tt) (saved W b image s) (λ _ s' h. returns tt s' h)
        (λ _ s' h. returns tt s' h)

  -- The chapters of the book are cleared away or, if that fails, kept.
  pub clear_lem :
      (b : Audiobook) (s : B.State)
      → Ends
          (λ _ s'.
            (before : List Chapter) × Cleared L b.id (view s).chapters before
            × (view s' ≡ record (view s) { chapters = before }))
          (λ (_ : Failure) _. ⊥)
          (ignored B (delete_all_chapters B b) s)
  unfolding delete_all_chapters
  clear_lem b s =
      Ends-handled (λ _. pure tt) (L.chapters.delete_law (λ c. c.audiobook_id == b.id) s)
        (λ _ s' h. returns tt s' (_, cleared, h)) (λ e s' h. returns tt s' (_, kept e h.1, h.0))

  chapters_lem :
      IsHarmless view H
      → (chapters : List MediaChapter) (b : Audiobook) (s : B.State)
      → Ends
          (λ _ s'.
            (rows : List Chapter) × Numbered b.id 0 chapters rows
            × (view s'
                ≡ with_chapters (replaced Table.chapters.clash rows (view s).chapters) (view s)))
          (λ e _. IsStopped L e)
          (store_chapters B H self chapters b s)
  unfolding store_chapters link_audiobook
  chapters_lem W chapters b s =
      Ends-bind _ (number_chapters_lem b.id 0 chapters (link_audiobook B H self b s).1)
        (λ rs s₁ n.
          Ends-bind _
            (Ends-converted diesel (L.chapters.replace_law rs s₁) (λ e s' k. (e, refl, k.1)))
            (λ m s₂ r.
              returns (b, m) s₂
                (
                  rs,
                  n.1,
                  r
                      ∙ ap (λ t. with_chapters (replaced Table.chapters.clash rs t.chapters) t)
                          (n.0 ∙ W.symlink_law _ _ s),
                ))
            (λ _ _ d. d))
        (λ _ _ d. d)

  pub insert_lem :
      IsHarmless view H
      → (relative_path : String) (new : Audiobook) (chapters : List MediaChapter) (o : Option Image)
        (s : B.State) (t : Tables)
      → view s ≡ t
      → Ends
          (λ _ s'. Stored L self.library relative_path new chapters t (view s'))
          (λ e _. IsStopped L e)
          (insert_audiobook B H self relative_path new chapters o s)
  unfolding insert_audiobook
  insert_lem W relative_path new chapters o s t v =
      Ends-bind _
        (Ends-converted diesel (ensure_exists_in_outcome B L relative_path self.library new s)
          (λ e s' k. (e, refl, k.1)))
        (λ b s₁ h.
          Ends-bind (λ _. save_if B H self b o >> store_chapters B H self chapters b)
            (clear_lem b s₁)
            (λ _ s₂ c.
              Ends-bind (λ _. store_chapters B H self chapters b) (save_lem W b o s₂)
                (λ _ s₃ k.
                  Ends-mono (chapters_lem W chapters b s₃)
                    (λ _ s₄ r. record {
                      ensured = view s₁;
                      book = b;
                      has_book =
                          subst (λ t. Ensured B L self.library relative_path new t (view s₁) b) v h;
                      rows = r.0;
                      numbered = r.1;
                      before = c.0;
                      was_cleared = c.1;
                      stored =
                          r.2
                          ∙ ap (λ t. with_chapters (replaced Table.chapters.clash r.0 t.chapters) t)
                              (k ∙ c.2);
                    })
                    (λ _ _ d. d))
                (λ _ _ d. absurd d))
            (λ _ _ d. absurd d))
        (λ e _ d. d)
