-- ===== src/Worker/Scanner/Deleted/Recovery.antt =====
-- recover_deleted of src/worker/scanner.rs: what it marks as there again.
use vorleser_server.Prelude.{
  ℕ, ◌+◌, String, ◌≡◌, refl, sym, subst, ap, ◌∙◌, ◌⊎◌, inl, inr, Bool, true, false, ◌&&◌, List, [],
  ◌∷◌, ◌++◌, filter, any, length, In, if◌then◌else◌, ◌==◌, nat_eq, string_eq, bytes_eq, bool_eq,
  nat_beq_iff, Result, ok, err, arith, Bool-cases, Result-cases,
}
use vorleser_server.Exec.Ends.{Ends, returns, fails, Ends-bind, Ends-mono, Ends-converted}
use vorleser_server.Errors.{Failure, diesel}
use vorleser_server.Db.{Audiobook}
use vorleser_server.Db.Backend.{Backend}
use vorleser_server.Db.Lawful.{IsLawful, IsStopped, amend}
use vorleser_server.Worker.Host.{Host}
use vorleser_server.Worker.Scanner.{Scanner, belongs, path_of}
use vorleser_server.Prelude.{any_iff, In-filter, append-nil, append_assoc}
use vorleser_server.Db.Amending.{any-append, amend-amend, amend-none, amend-congr, bool_of_iff}
use vorleser_server.Worker.Scanner.Deleted.Files.{SameFiles, same_again, file_same, dir_same}
use vorleser_server.Worker.Scanner.Deleted.{
  checksum, recover_if_equal, recover_book, recover_books, recover_deleted,
}
use vorleser_server.Models.Audiobook.Growth.{HasKeys}
use vorleser_server.Worker.Scanner.Deleted.Marking.{with_audiobooks, Ends-and}

abbrev pub as_live : Audiobook → Audiobook
as_live x = record x { deleted = false }

-- With unique keys, a row is among the chosen books exactly if it is chosen itself.
chosen-itself :
    (own q : Audiobook → Bool) (rows : List Audiobook)
    → HasKeys rows
    → (x : Audiobook) → In x rows
    → any (λ b. q b && x.id == b.id) (filter own rows) ≡ (own x && q x)
chosen-itself own q rows keys x here =
    bool_of_iff _ _ (λ m. itself ((any_iff (λ b. q b && x.id == b.id) (filter own rows)).0 m))
      (λ e. (any_iff (λ b. q b && x.id == b.id) (filter own rows)).1 (
        x,
        (In-filter own x rows).1 (here, ground (arith, e)),
        ground (arith, e, nat_beq_iff x.id x.id),
      ))
  where
    itself :
        ((b : Audiobook) × In b (filter own rows) × ((q b && x.id == b.id) ≡ true))
        → (own x && q x) ≡ true
    itself (b, listed, e) =
        let (old, mine) = (In-filter own b rows).0 listed in
        let same = keys x b here old (ground (arith, e, nat_beq_iff x.id b.id)) in
        subst (λ y. (own y && q y) ≡ true) (sym same) (ground (arith, mine, e))

abbrev pub has_hash : List ℕ → Result Failure (List ℕ) → Bool
has_hash wanted (err e) = false
has_hash wanted (ok hash) = hash == wanted

length-filter-append :
    {R : Type 0} (p : R → Bool) (xs : List R) (y : R)
    → length (filter p (xs ++ y ∷ []))
      ≡ (if p y then length (filter p xs) + 1 else length (filter p xs))
length-filter-append p [] y = ground arith
length-filter-append p (x ∷ xs) y = ground (arith, length-filter-append p xs y)

-- The statements of the database leave the files alone.
pub record IsStill (B : Backend) (H : Host B.State) : Type 0 where
  pub load_still : (q : Audiobook → Bool) (s : B.State) → SameFiles H s (B.audiobooks.load q s).1
  pub update_still :
      (q : Audiobook → Bool) (f : Audiobook → Audiobook) (s : B.State)
      → SameFiles H s (B.audiobooks.update q f s).1

module _ (B : Backend) (L : IsLawful B) (H : Host B.State) (self : Scanner) where
  open L use {view}

  checksum_same :
      (s s' : B.State)
      → SameFiles H s s'
      → (p : String) → checksum B H self p s' ≡ checksum B H self p s
  checksum_same s s' f p = rw (f.is_dir p, dir_same H s s' f p, file_same H s s' f p) refl

  -- The files of the book are there, with the contents that it was stored with.
  abbrev pub is_back : B.State → Audiobook → Bool
  is_back s b =
      H.exists (path_of B H self b) s && has_hash b.hash (checksum B H self (path_of B H self b) s)

  back_same : (s s' : B.State) → SameFiles H s s' → (b : Audiobook) → is_back s' b ≡ is_back s b
  back_same s s' f b =
      rw (f.exists (path_of B H self b), checksum_same s s' f (path_of B H self b)) refl

  abbrev marks : B.State → List Audiobook → Audiobook → Bool
  marks s books x = belongs B H self x && any (λ b. is_back s b && x.id == b.id) books

  abbrev count : B.State → List Audiobook → ℕ
  count s books = length (filter (is_back s) books)

  module _ (A : IsStill B H) (s₀ : B.State) where
    abbrev Recovered : List Audiobook → ℕ → B.State → Type 0
    Recovered books n s =
        (view s ≡ with_audiobooks (amend (marks s₀ books) as_live (view s₀).audiobooks) (view s₀))
        × SameFiles H s₀ s
        × (n ≡ count s₀ books)

    abbrev Stopped : Failure → Type 0
    Stopped e =
        IsStopped L e ⊎ ((b : Audiobook) × (checksum B H self (path_of B H self b) s₀ ≡ err e))

    passed_over :
        (books : List Audiobook) (b : Audiobook) (n : ℕ) (s : B.State)
        → is_back s b ≡ false
        → Recovered books n s
        → Recovered (books ++ b ∷ []) n s
    passed_over books b n s g (v, f, c) = (
      v
          ∙ ap (λ rows. with_audiobooks rows (view s₀))
              (amend-congr _ _ as_live (view s₀).audiobooks (λ r _.
                rw (any-append (λ b. is_back s₀ b && r.id == b.id) books b)
                  (ground (arith, before)))),
      f,
      c ∙ sym (length-filter-append (is_back s₀) books b ∙ rw before refl),
    )
      where
        before : is_back s₀ b ≡ false
        before = sym (back_same s₀ s f b) ∙ g

    brought_back :
        (books : List Audiobook) (b : Audiobook) (n : ℕ) (hash : List ℕ) (s : B.State)
        → (hash == b.hash) ≡ true
        → is_back s b ≡ true
        → Recovered books n s
        → Ends
            (Recovered (books ++ b ∷ []))
            (λ e _. Stopped e)
            (recover_if_equal B H self b n hash s)
    unfolding recover_if_equal
    brought_back books b n hash s h g (v, f, c) = rw h (
        Ends-bind _
          (Ends-converted diesel
            (Ends-and (SameFiles H s) (L.audiobooks.update_law mine as_live s)
              (A.update_still mine as_live s))
            (λ e s' k. inl (e, refl, k.0.1)))
          (λ _ s' k. returns (n + 1) s' (
            k.0.0
                ∙ ap (λ t. with_audiobooks (amend mine as_live t.audiobooks) t) v
                ∙ ap (λ rows. with_audiobooks rows (view s₀))
                    (amend-amend _ mine _ as_live
                      (λ r.
                        rw (any-append (λ b. is_back s₀ b && r.id == b.id) books b)
                          (ground (arith, before)))
                      (view s₀).audiobooks),
            same_again H s₀ s s' f k.1,
            ap (λ n. n + 1) c ∙ sym (length-filter-append (is_back s₀) books b ∙ rw before refl),
          ))
          (λ _ _ d. d))
      where
        mine : Audiobook → Bool
        mine x = belongs B H self x && x.id == b.id

        before : is_back s₀ b ≡ true
        before = sym (back_same s₀ s f b) ∙ g

    recover_step :
        (books : List Audiobook) (b : Audiobook) (n : ℕ) (s : B.State)
        → Recovered books n s
        → Ends (Recovered (books ++ b ∷ [])) (λ e _. Stopped e) (recover_book B H self b n s)
    unfolding recover_book recover_if_equal
    recover_step books b n s i = elim (Bool-cases (H.exists (path_of B H self b) s)) [
      | inr e ↦ rw e (returns n s (passed_over books b n s (rw e refl) i))
      | inl e ↦ elim (Result-cases (checksum B H self (path_of B H self b) s)) [
        | inr (x, c) ↦
            rw (e, c) (fails x s (inr (b, sym (checksum_same s₀ s i.1 (path_of B H self b)) ∙ c)))
        | inl (hash, c) ↦ elim (Bool-cases (hash == b.hash)) [
          | inl h ↦ rw (e, c) (brought_back books b n hash s h (rw (e, c, h) refl) i)
          | inr h ↦ rw (e, c, h) (returns n s (passed_over books b n s (rw (e, c, h) refl) i))
        ]
      ]
    ]

    recover_all :
        (books bs : List Audiobook) (n : ℕ) (s : B.State)
        → Recovered books n s
        → Ends (Recovered (books ++ bs)) (λ e _. Stopped e) (recover_books B H self bs n s)
    unfolding recover_books
    recover_all books [] n s i =
        returns n s (subst (λ l. Recovered l n s) (sym (append-nil books)) i)
    recover_all books (b ∷ bs) n s i =
        Ends-bind _ (recover_step books b n s i)
          (λ m s' j.
            subst (λ l. Ends (Recovered l) (λ e _. Stopped e) (recover_books B H self bs m s'))
              (append_assoc books (b ∷ []) bs) (recover_all (books ++ b ∷ []) bs m s' j))
          (λ _ _ d. d)

  -- After `recover_deleted`, the books of the library that were marked as deleted, and of which the
  -- files are there and have the checksum that is stored, are no longer marked; no other row of any
  -- table has changed, and the result is the number of these books. The keys of the books have to be
  -- unique. An error is one of the database or of a checksum.
  pub recover_deleted_outcome :
      (A : IsStill B H) (s : B.State)
      → HasKeys (view s).audiobooks
      → Ends
          (λ n s'.
            (view s'
              ≡ with_audiobooks
                  (amend
                    (λ x. (belongs B H self x && x.deleted == true) && is_back s x)
                    as_live
                    (view s).audiobooks)
                  (view s))
            × (n
                ≡ length (
                    filter
                      (is_back s)
                      (filter (λ x. belongs B H self x && x.deleted == true) (view s).audiobooks))))
          (λ e _.
            IsStopped L e ⊎ ((b : Audiobook) × (checksum B H self (path_of B H self b) s ≡ err e)))
          (recover_deleted B H self s)
  unfolding recover_deleted
  recover_deleted_outcome A s keys =
      Ends-bind _
        (Ends-converted diesel
          (Ends-and (SameFiles H s) (L.audiobooks.load_law chosen s) (A.load_still chosen s))
          (λ e s' k. inl (e, refl, k.0.1)))
        (λ books s₁ k.
          Ends-mono
            (recover_all A s [] books 0 s₁ (
              k.0.0
                  ∙ ap (λ rows. with_audiobooks rows (view s))
                      (sym (amend-none as_live (view s).audiobooks (λ r. ground arith))),
              k.1,
              refl,
            ))
            (λ n s' m. (
              m.0
                  ∙ ap (λ rows. with_audiobooks rows (view s))
                      (rw k.0.1 (
                        amend-congr _ _ as_live (view s).audiobooks (λ x here.
                          rw (chosen-itself chosen (is_back s) (view s).audiobooks keys x here)
                            (ground arith)))),
              m.2 ∙ ap (count s) k.0.1,
            ))
            (λ _ _ d. d))
        (λ _ _ d. d)
    where
      chosen : Audiobook → Bool
      chosen x = belongs B H self x && x.deleted == true
