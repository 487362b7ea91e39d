-- ===== src/Exec.antt =====
-- Code that acts on the world and may fail: what was done before an error stays done, so the
-- state comes back beside the error too. `S` is the state of all that the program acts on.
pub mod Ends
pub mod Keeps
use vorleser_server.Prelude.{Result, ok, err, List, [], ◌∷◌}

abbrev pub Exec : Type 0 → Type 0 → Type 0 → Type 0
Exec S E A = S → Result E A × S

module _ {S E A : Type 0} where
  abbrev pub pure : A → Exec S E A
  pure a s = (ok a, s)

  abbrev pub raise : E → Exec S E A
  raise e s = (err e, s)

  -- What only reads the state, or the world changes it and does not fail.
  abbrev pub lift : (S → A × S) → Exec S E A
  lift f s = let (a, s') = f s in (ok a, s')

module _ {S E A B : Type 0} where
  abbrev pub continue : (A → Exec S E B) → Result E A × S → Result E B × S
  continue f (ok a, s) = f a s
  continue f (err e, s) = (err e, s)

  infixl 10 ◌>>=◌ ◌>>◌
  abbrev pub ◌>>=◌ : Exec S E A → (A → Exec S E B) → Exec S E B
  ◌>>=◌ m f s = continue f (m s)

  abbrev pub ◌>>◌ : Exec S E A → Exec S E B → Exec S E B
  ◌>>◌ m k s = continue (λ _. k) (m s)

module _ {S E A B : Type 0} where
  -- `for x in xs { m(x)?; }`
  unfoldable pub for_each : (A → Exec S E B) → List A → Exec S E (Unit {0})
  for_each m [] s = (ok tt, s)
  for_each m (x ∷ xs) s = continue (λ _. for_each m xs) (m x s)

module _ {S E E' A : Type 0} where
  -- The conversion of the error that `?` makes.
  abbrev pub converted : (E → E') → Result E A × S → Result E' A × S
  converted into (ok a, s) = (ok a, s)
  converted into (err e, s) = (err (into e), s)

  abbrev pub map_err : (E → E') → Exec S E A → Exec S E' A
  map_err into m s = converted into (m s)

module _ {S E E' A B : Type 0} where
  abbrev pub handled : (Result E A → Exec S E' B) → Result E A × S → Result E' B × S
  handled f (r, s) = f r s

  -- The result as a value, for code that looks at it: `match m { Ok(a) => ..., Err(e) => ... }`.
  abbrev pub attempt : Exec S E A → (Result E A → Exec S E' B) → Exec S E' B
  attempt m f s = handled f (m s)
