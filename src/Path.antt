-- ===== src/Path.antt =====
-- What the program uses of std::path, on the text of a path.
use vorleser_server.Prelude.{
  String, ◌<>◌, ◌≡◌, refl, Bool, not, ◌&&◌, Option, none, some, List, [], ◌∷◌, filter,
  if◌then◌else◌, ◌==◌, nat_eq, string_eq, bytes_eq, bool_eq,
}
use Prim.Native.Char.{code}

-- `path.push(name)` and `path.join(name)` for a relative name, and `path.set_extension(ext)` on a
-- name without a dot.
abbrev pub push : String → String → String
push path name = path <> "/" <> name

abbrev pub set_extension : String → String → String
set_extension path extension = if extension == "" then path else path <> "." <> extension

-- The text up to the first slash, and the pieces after it.
unfoldable pub split_slash : String → String × List String
split_slash String.[] = ("", [])
split_slash (String.◌∷◌ c r) =
    let (p, ps) = split_slash r in if code c == b'/' then ("", p ∷ ps) else (String.◌∷◌ c p, ps)

abbrev pub is_named : String → Bool
is_named piece = not (piece == "") && not (piece == ".")

-- path.components(): an empty first piece is the root; a dot counts only in front.
unfoldable pub components : String → List String
unfolding split_slash
components path =
    if path == ""
    then []
    else (let (p, ps) = split_slash path in (if p == "" then "/" else p) ∷ filter is_named ps)

abbrev pub without_prefix : List String → List String → Option (List String)
without_prefix [] cs = some cs
without_prefix (p ∷ ps) [] = none
without_prefix (p ∷ ps) (c ∷ cs) = if p == c then without_prefix ps cs else none

abbrev pub joined : List String → String
joined [] = ""
joined (c ∷ []) = c
joined (c ∷ d ∷ ds) = c <> "/" <> joined (d ∷ ds)

abbrev pub joined_if : Option (List String) → Option String
joined_if none = none
joined_if (some cs) = some (joined cs)

unfoldable pub strip_prefix : String → String → Option String
unfolding components
strip_prefix path base = joined_if (without_prefix (components base) (components path))

-- path.file_name(): the last component, unless it is the root or `..`.
abbrev pub last_name : List String → Option String
last_name [] = none
last_name (c ∷ []) = if c == "/" then none else (if c == ".." then none else some c)
last_name (c ∷ d ∷ ds) = last_name (d ∷ ds)

unfoldable pub file_name : String → Option String
unfolding components
file_name path = last_name (components path)

-- The text before and after the last dot.
unfoldable pub split_last_dot : String → Option (String × String)
split_last_dot String.[] = none
split_last_dot (String.◌∷◌ c r) = elim (split_last_dot r) [
  | some (stem, extension) ↦ some (String.◌∷◌ c stem, extension)
  | none ↦ if code c == b'.' then some ("", r) else none
]

abbrev pub extension_of : Option (String × String) → Option String
extension_of none = none
extension_of (some (stem, extension)) = if stem == "" then none else some extension

-- path.extension()
unfoldable pub extension : String → Option String
unfolding file_name split_last_dot
extension path = elim (file_name path) [
  | none ↦ none
  | some name ↦ extension_of (split_last_dot name)
]

stripped : strip_prefix "/books/dune/1.mp3" "/books/" ≡ some "dune/1.mp3"
unfolding strip_prefix
stripped = refl

extension_found : extension "/books.d/dune.part.mp3" ≡ some "mp3"
unfolding extension
extension_found = refl

extension_of_hidden : extension "/books/.mp3" ≡ none
unfolding extension
extension_of_hidden = refl
