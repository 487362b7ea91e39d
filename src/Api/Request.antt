-- ===== src/Api/Request.antt =====
-- The parts of a request that src/handlers.rs reads, and how it finds the token in them.
use vorleser_server.Prelude.{
  ℕ, zero, suc, String, ◌≡◌, refl, Option, none, some, List, [], ◌∷◌, if◌then◌else◌, ◌==◌, nat_eq,
  string_eq, bytes_eq, bool_eq,
}
use Prim.Native.Char.{code}
use text.Mathlib.Text.{starts_with}

-- The Authorization headers, and the query of the address.
pub record Request : Type 0 where
  pub authorization : List String
  pub query : Option String

abbrev onto_first : ℕ → List String → List String
onto_first c [] = []
onto_first c (p ∷ ps) = p ∷ ps

-- q.split('&')
unfoldable pub split_amp : String → String × List String
split_amp String.[] = ("", [])
split_amp (String.◌∷◌ c r) =
    let (p, ps) = split_amp r in if code c == b'&' then ("", p ∷ ps) else (String.◌∷◌ c p, ps)

-- s.split_at(n).1, for a text whose first n characters are ASCII
unfoldable pub after_chars : ℕ → String → String
after_chars zero s = s
after_chars (suc n) String.[] = ""
after_chars (suc n) (String.◌∷◌ c r) = after_chars n r

-- .filter(|s| s.starts_with("auth=")).map(|s| s.split_at(5).1).next()
unfoldable pub auth_parameter : List String → Option String
auth_parameter [] = none
auth_parameter (p ∷ ps) =
    let rest = auth_parameter ps in if starts_with p "auth=" then some (after_chars 5 p) else rest

unfoldable pub query_token : Option String → Option String
unfolding split_amp auth_parameter after_chars
query_token none = none
query_token (some q) = let (p, ps) = split_amp q in auth_parameter (p ∷ ps)

-- The text that is read as a token: the first header, else the parameter.
unfoldable pub token_text : Request → Option String
unfolding query_token
token_text request = elim request.authorization [ [] ↦ query_token request.query | t ∷ _ ↦ some t ]

token_text_in_query :
    token_text (record { authorization = []; query = some "page=2&auth=abc&auth=d" }) ≡ some "abc"
unfolding token_text
token_text_in_query = refl
