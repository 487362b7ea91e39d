-- ===== src/Exec/Keeps.antt =====
-- What holds of the state whatever a sequence of two calls returns.
use vorleser_server.Prelude.{Result, ok, err}
use vorleser_server.Exec.{Exec, continue}

module _ {S E A : Type 0} (P : S → Type 0) where
  pub keeps_bind :
      {A' : Type 0} (f : A → Exec S E A') (r : Result E A × S)
      → P r.1
      → ((a : A) (s : S) → P s → P (f a s).1)
      → P (continue f r).1
  keeps_bind f (ok a, s) p h = h a s p
  keeps_bind f (err e, s) p h = p
