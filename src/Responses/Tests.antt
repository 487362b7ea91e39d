-- ===== src/Responses/Tests.antt =====
-- The theorems on src/responses at concrete answers.
use vorleser_server.Prelude.{String, ◌≡◌, none, List, [], ◌∷◌}
use vorleser_server.Errors.{Failure, foreign}
use vorleser_server.Responses.Error.{respond_to}
use vorleser_server.Responses.Convert.{from_failure}
use vorleser_server.Responses.Disclosure.{internal_failures_alike}

abbrev told : Failure → String
told (foreign m) = m
told _ = "error"

abbrev trace : Failure → List String
trace _ = "main" ∷ []

internal_failures_alike_example :
    respond_to told trace {J = String} none (from_failure (foreign "disk full"))
    ≡ respond_to told trace none (from_failure (foreign "/books is gone"))
internal_failures_alike_example =
    internal_failures_alike told trace none (foreign "disk full") (foreign "/books is gone")
      (λ e. cc) tt tt
