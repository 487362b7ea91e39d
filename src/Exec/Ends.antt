-- ===== src/Exec/Ends.antt =====
-- Postconditions: `Ends Q F r` says that `r` is a result with `Q` or an error with `F`.
use vorleser_server.Prelude.{
  ◌≡◌, refl, Result, ok, err, List, [], ◌∷◌, ◌++◌, sym, subst, append-nil, append_assoc,
}
use vorleser_server.Exec.{Exec, continue, converted, handled, for_each}

pub data Ends {S E A : Type 0} (Q : A → S → Type 0) (F : E → S → Type 0)
    : Result E A × S → Type 0 where
  returns : (a : A) (s : S) → Q a s → Ends Q F (ok a, s)
  fails : (e : E) (s : S) → F e s → Ends Q F (err e, s)

module _ {S E A : Type 0} {Q : A → S → Type 0} {F : E → S → Type 0} where
  pub Ends-ok : {a : A} {s : S} → Ends Q F (ok a, s) → Q a s
  Ends-ok (returns _ _ q) = q

  pub Ends-err : {e : E} {s : S} → Ends Q F (err e, s) → F e s
  Ends-err (fails _ _ f) = f

  -- What holds of the state in both cases.
  pub Ends-state :
      (P : S → Type 0) {r : Result E A × S}
      → Ends Q F r
      → ((a : A) (s : S) → Q a s → P s)
      → ((e : E) (s : S) → F e s → P s)
      → P r.1
  Ends-state P (returns a s q) f g = f a s q
  Ends-state P (fails e s q) f g = g e s q

  pub Ends-mono :
      {Q' : A → S → Type 0} {F' : E → S → Type 0} {r : Result E A × S}
      → Ends Q F r
      → ((a : A) (s : S) → Q a s → Q' a s)
      → ((e : E) (s : S) → F e s → F' e s)
      → Ends Q' F' r
  Ends-mono (returns a s q) f g = returns a s (f a s q)
  Ends-mono (fails e s q) f g = fails e s (g e s q)

  -- An error with the run that it ended.
  pub Ends-run : {r : Result E A × S} → Ends Q F r → Ends Q (λ e s. F e s × (r ≡ (err e, s))) r
  Ends-run (returns a s q) = returns a s q
  Ends-run (fails e s f) = fails e s (f, refl)

  -- `m >>= f` after what `m` ends with.
  pub Ends-bind :
      {B : Type 0} {Q' : B → S → Type 0} {F' : E → S → Type 0} (f : A → Exec S E B)
      {r : Result E A × S}
      → Ends Q F r
      → ((a : A) (s : S) → Q a s → Ends Q' F' (f a s))
      → ((e : E) (s : S) → F e s → F' e s)
      → Ends Q' F' (continue f r)
  Ends-bind f (returns a s q) h g = h a s q
  Ends-bind f (fails e s q) h g = fails e s (g e s q)

  -- `?` with its conversion.
  pub Ends-converted :
      {E' : Type 0} {F' : E' → S → Type 0} (into : E → E') {r : Result E A × S}
      → Ends Q F r
      → ((e : E) (s : S) → F e s → F' (into e) s)
      → Ends Q F' (converted into r)
  Ends-converted into (returns a s q) g = returns a s q
  Ends-converted into (fails e s q) g = fails (into e) s (g e s q)

  -- `match m { ... }` after what `m` ends with.
  pub Ends-handled :
      {E' B : Type 0} {Q' : B → S → Type 0} {F' : E' → S → Type 0} (f : Result E A → Exec S E' B)
      {r : Result E A × S}
      → Ends Q F r
      → ((a : A) (s : S) → Q a s → Ends Q' F' (f (ok a) s))
      → ((e : E) (s : S) → F e s → Ends Q' F' (f (err e) s))
      → Ends Q' F' (handled f r)
  Ends-handled f (returns a s q) h g = h a s q
  Ends-handled f (fails e s q) h g = g e s q

module _ {S E A B : Type 0} (I : List A → S → Type 0) (F : E → S → Type 0)
    (m : A → Exec S E B) where
  -- A loop with an invariant over the elements already done.
  pub Ends-for_each :
      ((done : List A) (x : A) (s : S) → I done s → Ends (λ _. I (done ++ x ∷ [])) F (m x s))
      → (done xs : List A) (s : S) → I done s
      → Ends (λ _. I (done ++ xs)) F (for_each m xs s)
  unfolding for_each
  Ends-for_each step done [] s i = returns tt s (subst (λ l. I l s) (sym (append-nil done)) i)
  Ends-for_each step done (x ∷ xs) s i =
      Ends-bind _ (step done x s i)
        (λ _ s' i'.
          subst (λ l. Ends (λ _. I l) F (for_each m xs s')) (append_assoc done (x ∷ []) xs)
            (Ends-for_each step (done ++ x ∷ []) xs s' i'))
        (λ e s' f. f)
