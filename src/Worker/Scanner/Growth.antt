-- ===== src/Worker/Scanner/Growth.antt =====
-- src/worker/scanner.rs loses no book: what each part of a scan does to the table of audiobooks,
-- whether it returns or stops with an error.
pub mod Deleting
pub mod Scanning
pub mod Whole
use vorleser_server.Prelude.{String, ◌≡◌, refl, ap, List, [], ◌∷◌, Bool, Result, ok, err}
use vorleser_server.Exec.{Exec, continue, converted, handled, for_each}
use vorleser_server.Exec.Ends.{Ends-state}
use vorleser_server.Db.{Audiobook, Tables}
use vorleser_server.Db.Backend.{Backend}
use vorleser_server.Db.Lawful.{IsLawful}
use vorleser_server.Errors.{Fault, failed, panicked, out_of_fuel}
use vorleser_server.Worker.Scanner.{passed_on}
use vorleser_server.Models.Audiobook.Growth.{Grows, Grows-same, Grows-trans, Grows-amend}

module _ (B : Backend) (L : IsLawful B) where
  open L use {view}

  -- From one state to another.
  abbrev pub GrowsTo : B.State → B.State → Type 0
  GrowsTo s s' = Grows (view s).audiobooks (view s').audiobooks

  pub of_view : {s s' : B.State} → view s' ≡ view s → GrowsTo s s'
  of_view e = Grows-same (ap (λ t. t.audiobooks) e)

  module _ {E A : Type 0} where
    pub after_bind :
        {A' : Type 0} {s : B.State} (f : A → Exec B.State E A') (r : Result E A × B.State)
        → GrowsTo s r.1
        → ((a : A) (s' : B.State) → GrowsTo s' (f a s').1)
        → GrowsTo s (continue f r).1
    after_bind f (ok a, s') g h = Grows-trans g (h a s')
    after_bind f (err e, s') g h = g

    pub after_handled :
        {E' A' : Type 0} {s : B.State} (f : Result E A → Exec B.State E' A')
        (r : Result E A × B.State)
        → GrowsTo s r.1
        → ((a : Result E A) (s' : B.State) → GrowsTo s' (f a s').1)
        → GrowsTo s (handled f r).1
    after_handled f (a, s') g h = Grows-trans g (h a s')

    pub after_converted :
        {E' : Type 0} {s : B.State} (into : E → E') (r : Result E A × B.State)
        → GrowsTo s r.1
        → GrowsTo s (converted into r).1
    after_converted into (ok a, s') g = g
    after_converted into (err e, s') g = g

    pub after_each :
        {A' : Type 0} (m : A' → Exec B.State E A)
        → ((x : A') (s : B.State) → GrowsTo s (m x s).1)
        → (xs : List A') (s : B.State) → GrowsTo s (for_each m xs s).1
    unfolding for_each
    after_each m g [] s = of_view refl
    after_each m g (x ∷ xs) s =
        after_bind (λ _. for_each m xs) (m x s) (g x s) (λ _ s'. after_each m g xs s')

  -- The two statements that most parts use.
  pub after_load : (p : Audiobook → Bool) (s : B.State) → GrowsTo s (B.audiobooks.load p s).1
  after_load p s =
      Ends-state (GrowsTo s) (L.audiobooks.load_law p s) (λ _ _ h. of_view h.0)
        (λ _ _ h. of_view h.0)

  pub after_update :
      (p : Audiobook → Bool) (f : Audiobook → Audiobook)
      → ((r : Audiobook) → (f r).id ≡ r.id)
      → (s : B.State) → GrowsTo s (B.audiobooks.update p f s).1
  after_update p f i s =
      Ends-state (GrowsTo s) (L.audiobooks.update_law p f s)
        (λ _ s' h.
          Grows-trans (Grows-amend p f i (view s).audiobooks)
            (Grows-same (ap (λ t. t.audiobooks) h.0)))
        (λ _ _ h. of_view h.0)

  -- Logging an error and passing a panic on do nothing to the tables.
  pub passed_on-Grows :
      {A : Type 0} (r : Result Fault A) (s : B.State) → GrowsTo s (passed_on B r s).1
  passed_on-Grows (ok a) s = of_view refl
  passed_on-Grows (err (failed e)) s = of_view refl
  passed_on-Grows (err (panicked text)) s = of_view refl
  passed_on-Grows (err out_of_fuel) s = of_view refl
