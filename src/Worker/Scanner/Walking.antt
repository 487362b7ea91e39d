-- ===== src/Worker/Scanner/Walking.antt =====
-- walk_books of src/worker/scanner.rs against a plain loop over the entries that are left when what
-- is inside of the books is cut off.
use vorleser_server.Prelude.{
  String, ◌≡◌, refl, sym, subst, ap, ◌∙◌, Bool, true, false, not, ◌&&◌, if◌then◌else◌, Option, none,
  some, List, [], ◌∷◌, ◌==◌, string_eq, Bool-cases, inl, inr, Result, ok, err,
}
use vorleser_server.Errors.{Failure, Fault, failed, panicked, out_of_fuel}
use vorleser_server.Exec.{continue, pure, raise}
use vorleser_server.Path.{strip_prefix}
use vorleser_server.Db.{NaiveDateTime}
use vorleser_server.Db.Backend.{Backend}
use vorleser_server.Worker.Host.{
  Host, Walk, done, failed as failed_entry, visit, entries, entries_onto,
}
use vorleser_server.Worker.Scanner.{Scanner, Task, Scan, logged, passed_on}
use vorleser_server.Worker.Scanner.Run.{handle_book_at_path, visited, walk_books}

module _ (B : Backend) (H : Host B.State) (self : Scanner) (scan_type : Scan)
    (last_scan : Option NaiveDateTime) where
  -- An entry that is a book: its path in the library is not empty and matches the pattern.
  abbrev pub is_book_at : Option String → Bool
  is_book_at none = false
  is_book_at (some p) = H.is_match self.regex p && not (p == "")

  abbrev pub is_book : String → Bool
  is_book path = is_book_at (strip_prefix path self.library.location)

  -- The walk without what is inside of the books that are directories.
  abbrev pub pruned : (String → Bool) → Walk → Walk
  pruned is_dir done = done
  pruned is_dir (failed_entry e rest) = failed_entry e (pruned is_dir rest)
  pruned is_dir (visit path contents rest) =
      visit path (if is_book path && is_dir path then done else pruned is_dir contents)
        (pruned is_dir rest)

  -- One entry: a book is handled; an error is logged and a panic passed on. A path that is not in
  -- the library makes the scanner panic.
  abbrev pub handled_at : String → Option String → Task B (Unit {0})
  handled_at path none = raise (panicked "unwrap")
  handled_at path (some p) =
      if H.is_match self.regex p && not (p == "")
      then logged B (handle_book_at_path B H self scan_type path p last_scan)
      else pure tt

  -- The loop over the entries ends at the first that cannot be read, or with a panic.
  abbrev pub handle_entries : List (Result Failure String) → Task B (Unit {0})
  handle_entries [] s = (ok tt, s)
  handle_entries (err e ∷ es) s = (err (failed e), s)
  handle_entries (ok path ∷ es) s =
      continue (λ _. handle_entries es)
        (handled_at path (strip_prefix path self.library.location) s)

  -- Within the library the same paths are directories.
  abbrev pub SameDirs : B.State → B.State → Type 0
  SameDirs s s' =
      (q r : String) → strip_prefix q self.library.location ≡ some r → H.is_dir q s' ≡ H.is_dir q s

  -- Handling a book makes no directory in the library and removes none there; it may make one
  -- elsewhere, as for the covers.
  abbrev pub KeepsDirs : Type 0
  KeepsDirs =
      (path p : String) (s : B.State)
      → SameDirs s (handle_book_at_path B H self scan_type path p last_scan s).1

  module _ (D : KeepsDirs) where
    -- Whether an entry is a book that is a directory, once it is handled.
    abbrev looked :
        String → Option String → Result Fault (Unit {0}) × B.State → Result Fault Bool × B.State
    looked path o = continue (λ _ s. (ok (is_book_at o && H.is_dir path s), s))

    visited_lem :
        (path : String) (o : Option String) (s : B.State)
        → visited B H self scan_type last_scan path o s ≡ looked path o (handled_at path o s)
    unfolding visited
    visited_lem path none s = refl
    visited_lem path (some p) s = elim (Bool-cases (H.is_match self.regex p && not (p == ""))) [
      | inl e ↦ rw e refl
      | inr e ↦ rw e refl
    ]

    passed_on-SameDirs :
        (r : Result Fault (Unit {0})) (s s' : B.State)
        → SameDirs s s'
        → SameDirs s (passed_on B r s').1
    passed_on-SameDirs (ok a) s s' h = h
    passed_on-SameDirs (err (failed e)) s s' h = h
    passed_on-SameDirs (err (panicked text)) s s' h = h
    passed_on-SameDirs (err out_of_fuel) s s' h = h

    handled_at-SameDirs :
        (path : String) (o : Option String) (s : B.State) → SameDirs s (handled_at path o s).1
    handled_at-SameDirs path none s = λ q r e. refl
    handled_at-SameDirs path (some p) s =
        elim (Bool-cases (H.is_match self.regex p && not (p == ""))) [
          | inl e ↦ rw e (passed_on-SameDirs _ s _ (D path p s))
          | inr e ↦ rw e (λ q r e. refl)
        ]

    -- An entry, and all of a walk.
    abbrev at : String → Task B (Unit {0})
    at path = handled_at path (strip_prefix path self.library.location)

    abbrev walk : Walk → Task B (Unit {0})
    walk = walk_books B H self scan_type last_scan

    continue-SameDirs :
        {A : Type 0} (m : A → Task B (Unit {0})) (s : B.State) (r : Result Fault A × B.State)
        → SameDirs s r.1
        → ((a : A) (s' : B.State) → SameDirs s' (m a s').1)
        → SameDirs s (continue m r).1
    continue-SameDirs m s (ok a, s') h k = λ q r e. k a s' q r e ∙ h q r e
    continue-SameDirs m s (err f, s') h k = h

    looked-SameDirs :
        (path : String) (o : Option String) (s : B.State) (r : Result Fault (Unit {0}) × B.State)
        → SameDirs s r.1
        → SameDirs s (looked path o r).1
    looked-SameDirs path o s (ok a, s') h = h
    looked-SameDirs path o s (err e, s') h = h

    walk-SameDirs : (w : Walk) (s : B.State) → SameDirs s (walk w s).1
    unfolding walk_books
    walk-SameDirs done s = λ q r e. refl
    walk-SameDirs (failed_entry e rest) s = λ q r f. refl
    walk-SameDirs (visit path contents rest) s =
        continue-SameDirs _ s
          (visited B H self scan_type last_scan path (strip_prefix path self.library.location) s)
          (subst (λ r. SameDirs s r.1)
            (sym (visited_lem path (strip_prefix path self.library.location) s))
            (looked-SameDirs path (strip_prefix path self.library.location) s _
              (handled_at-SameDirs path (strip_prefix path self.library.location) s)))
          (elim [
            | true ↦ walk-SameDirs rest
            | false ↦ λ s'.
                continue-SameDirs (λ _. walk rest) s' (walk contents s') (walk-SameDirs contents s')
                  (λ _. walk-SameDirs rest)
          ])

    -- One walk after another.
    abbrev followed :
        List (Result Failure String)
        → Result Fault (Unit {0}) × B.State
        → Result Fault (Unit {0}) × B.State
    followed after = continue (λ _. handle_entries after)

    handled_within :
        (after middle : List (Result Failure String)) (rest : Walk)
        (r : Result Fault (Unit {0}) × B.State)
        → handle_entries middle r.1 ≡ followed after (walk rest r.1)
        → followed middle r ≡ followed after (continue (λ _. walk rest) r)
    handled_within after middle rest (ok a, s) h = h
    handled_within after middle rest (err e, s) h = refl

    module _ (is_dir : String → Bool) where
      -- The state agrees with what was a directory at first.
      abbrev Agrees : B.State → Type 0
      Agrees s =
          (q r : String) → strip_prefix q self.library.location ≡ some r → H.is_dir q s ≡ is_dir q

      -- What follows an entry that was handled.
      abbrev onwards : Walk → Walk → Bool → Task B (Unit {0})
      onwards contents rest skip = elim skip [
        | true ↦ walk rest
        | false ↦ λ s. continue (λ _. walk rest) (walk contents s)
      ]

      book_dir :
          (path : String) (o : Option String) (s : B.State)
          → strip_prefix path self.library.location ≡ o
          → Agrees s
          → (is_book_at o && H.is_dir path s) ≡ (is_book_at o && is_dir path)
      book_dir path none s e a = refl
      book_dir path (some p) s e a = ap (λ b. is_book_at (some p) && b) (a path p e)

      -- An entry that has been handled, and what follows it.
      entered :
          (path : String) (contents rest : Walk) (es after : List (Result Failure String))
          (r : Result Fault (Unit {0}) × B.State)
          → Agrees r.1
          → ((s : B.State)
              → Agrees s
              → handle_entries es s
                ≡ followed after (onwards contents rest (is_book path && is_dir path) s))
          → followed es r
            ≡ followed after (
                continue
                  (onwards contents rest)
                  (looked path (strip_prefix path self.library.location) r))
      entered path contents rest es after (ok a, s) g h =
          h s g
          ∙ ap (λ b. followed after (onwards contents rest b s))
              (sym (book_dir path (strip_prefix path self.library.location) s refl g))
      entered path contents rest es after (err e, s) g h = refl

      handle_entries_lem :
          (w : Walk) (after : List (Result Failure String)) (s : B.State)
          → Agrees s
          → handle_entries (entries_onto (pruned is_dir w) after) s ≡ followed after (walk w s)
      unfolding walk_books
      handle_entries_lem done after s a = refl
      handle_entries_lem (failed_entry e rest) after s a = refl
      handle_entries_lem (visit path contents rest) after s a =
          entered path contents rest inside after (at path s)
            (λ q r e.
              handled_at-SameDirs path (strip_prefix path self.library.location) s q r e ∙ a q r e)
            (λ s' a'. elim (Bool-cases (is_book path && is_dir path)) [
              | inl e ↦ rw e (handle_entries_lem rest after s' a')
              | inr e ↦ rw e (
                  handle_entries_lem contents (entries_onto (pruned is_dir rest) after) s' a'
                  ∙ handled_within after (entries_onto (pruned is_dir rest) after) rest
                      (walk contents s')
                      (handle_entries_lem rest after (walk contents s').1
                        (λ q r f. walk-SameDirs contents s' q r f ∙ a' q r f)))
            ])
          ∙ ap (λ r. followed after (continue (onwards contents rest) r))
              (sym (visited_lem path (strip_prefix path self.library.location) s))
        where
          inside : List (Result Failure String)
          inside =
              entries_onto (if is_book path && is_dir path then done else pruned is_dir contents)
                (entries_onto (pruned is_dir rest) after)

    followed_by_nothing : (r : Result Fault (Unit {0}) × B.State) → followed [] r ≡ r
    followed_by_nothing (ok tt, s) = refl
    followed_by_nothing (err e, s) = refl

    -- If handling a book makes no directory in the library and removes none there, then the walk over a
    -- library, which skips what is inside of a book once the book is handled, does the same as a loop
    -- over the entries outside of the books, in order: each book among them is handled, an error
    -- of which is logged, and the loop ends with the error of the first entry that cannot be read or
    -- with the first panic.
    pub walk_books_lem :
        (w : Walk) (s : B.State)
        → walk_books B H self scan_type last_scan w s
          ≡ handle_entries (entries (pruned (λ p. H.is_dir p s) w)) s
    walk_books_lem w s =
        sym (followed_by_nothing (walk w s))
        ∙ sym (handle_entries_lem (λ p. H.is_dir p s) w [] s (λ q r e. refl))
