-- ===== src/Db/Lawful.antt =====
-- What the program relies on of diesel and SQLite, `uuid`, `argon2rs` and `base64`, as laws of a
-- `Backend`. `view` is the content of the tables, each in the order in which the engine returns rows.
use vorleser_server.Prelude.{
  ℕ, String, ◌≡◌, ◌⊎◌, ◌↔◌, Bool, true, false, not, Option, none, some, List, [], ◌∷◌, ◌++◌, filter,
  find, any, map, length, In, if◌then◌else◌,
}
use vorleser_server.Errors.{DieselError, not_found, database_error, Failure, diesel}
use vorleser_server.Exec.{Exec}
use vorleser_server.Exec.Ends.{Ends}
use vorleser_server.Db.{Uuid, Library, LibraryPermission, Audiobook, Tables}
use vorleser_server.Db.Table
use vorleser_server.Db.Table.{Table}
use vorleser_server.Db.Backend.{Backend, Statements}

abbrev pub amend : {R : Type 0} → (R → Bool) → (R → R) → List R → List R
amend p f = map (λ r. if p r then f r else r)

-- REPLACE INTO: the rows that clash with a new one go.
abbrev pub replaced : {R : Type 0} → (R → R → Bool) → List R → List R → List R
replaced clash [] rows = rows
replaced clash (r ∷ rs) rows = replaced clash rs (filter (λ x. not (clash r x)) rows ++ r ∷ [])

module _ {S R : Type 0} (view : S → Tables) (IsDatabase : DieselError → Type 0) (T : Table R)
    (q : Statements S R) where
  -- The tables are what they were at `s`.
  abbrev Same : S → S → Type 0
  Same s s' = view s' ≡ view s

  abbrev Untouched : S → DieselError → S → Type 0
  Untouched s e s' = (view s' ≡ view s) × IsDatabase e

  pub record IsLawfulTable : Type 0 where
    pub load_law :
        (p : R → Bool) (s : S)
        → Ends
            (λ l s'. (view s' ≡ view s) × (l ≡ filter p (T.rows (view s))))
            (Untouched s)
            (q.load p s)
    pub first_law :
        (p : R → Bool) (s : S)
        → Ends
            (λ r s'. (view s' ≡ view s) × (find p (T.rows (view s)) ≡ some r))
            (λ e s'.
              (view s' ≡ view s)
              × (IsDatabase e ⊎ ((e ≡ not_found) × (find p (T.rows (view s)) ≡ none))))
            (q.first p s)
    pub first_optional_law :
        (p : R → Bool) (s : S)
        → Ends
            (λ o s'. (view s' ≡ view s) × (o ≡ find p (T.rows (view s))))
            (Untouched s)
            (q.first_optional p s)
    pub insert_law :
        (r : R) (s : S)
        → Ends
            (λ n s'.
              (view s' ≡ T.set_rows (T.rows (view s) ++ r ∷ []) (view s))
              × (any (T.clash r) (T.rows (view s)) ≡ false))
            (Untouched s)
            (q.insert r s)
    pub replace_law :
        (rs : List R) (s : S)
        → Ends
            (λ n s'. view s' ≡ T.set_rows (replaced T.clash rs (T.rows (view s))) (view s))
            (Untouched s)
            (q.replace rs s)
    pub update_law :
        (p : R → Bool) (f : R → R) (s : S)
        → Ends
            (λ n s'.
              (view s' ≡ T.set_rows (amend p f (T.rows (view s))) (view s))
              × (n ≡ length (filter p (T.rows (view s)))))
            (Untouched s)
            (q.update p f s)
    pub delete_law :
        (p : R → Bool) (s : S)
        → Ends
            (λ n s'. view s' ≡ T.set_rows (filter (λ r. not (p r)) (T.rows (view s))) (view s))
            (Untouched s)
            (q.delete p s)

-- The rows of the two joins.
abbrev pub JoinedLibrary : (LibraryPermission → Library → Bool) → Tables → Library → Type 0
JoinedLibrary p t l =
    (q : LibraryPermission) × In q t.library_permissions
    × In l t.libraries
    × (q.library_id ≡ l.id)
    × (p q l ≡ true)

abbrev pub JoinedAudiobook :
    (Audiobook → Library → LibraryPermission → Bool) → Tables → Audiobook → Type 0
JoinedAudiobook p t b =
    (l : Library) × (q : LibraryPermission) × In b t.audiobooks
    × In l t.libraries
    × In q t.library_permissions
    × (b.library_id ≡ l.id)
    × (q.library_id ≡ l.id)
    × (p b l q ≡ true)

abbrev pub Chosen : {A : Type 0} → (A → Type 0) → Option A → Type 0
Chosen P none = (a : _) → ¬ P a
Chosen P (some a) = P a

pub record IsLawful (B : Backend) : Type 1 where
  pub view : B.State → Tables
  -- That the engine has failed at a statement (a busy database, a broken constraint), and with what
  -- error. Nothing but the laws of the statements gives it: who has to show that the database failed
  -- must have run a statement that did.
  pub IsDatabase : DieselError → Type 0
  pub database_law : (e : DieselError) → IsDatabase e → (m : String) × (e ≡ database_error m)
  pub api_tokens : IsLawfulTable view IsDatabase Table.api_tokens B.api_tokens
  pub audiobooks : IsLawfulTable view IsDatabase Table.audiobooks B.audiobooks
  pub chapters : IsLawfulTable view IsDatabase Table.chapters B.chapters
  pub libraries : IsLawfulTable view IsDatabase Table.libraries B.libraries
  pub library_permissions :
      IsLawfulTable view IsDatabase Table.library_permissions B.library_permissions
  pub playstates : IsLawfulTable view IsDatabase Table.playstates B.playstates
  pub users : IsLawfulTable view IsDatabase Table.users B.users
  pub joined_libraries_law :
      (p : LibraryPermission → Library → Bool) (s : B.State)
      → Ends
          (λ ls s'. (view s' ≡ view s) × ((l : Library) → In l ls ↔ JoinedLibrary p (view s) l))
          (λ e s'. (view s' ≡ view s) × IsDatabase e)
          (B.joined_libraries p s)
  pub joined_audiobooks_law :
      (p : Audiobook → Library → LibraryPermission → Bool) (s : B.State)
      → Ends
          (λ bs s'. (view s' ≡ view s) × ((b : Audiobook) → In b bs ↔ JoinedAudiobook p (view s) b))
          (λ e s'. (view s' ≡ view s) × IsDatabase e)
          (B.joined_audiobooks p s)
  pub joined_audiobook_law :
      (p : Audiobook → Library → LibraryPermission → Bool) (s : B.State)
      → Ends
          (λ o s'. (view s' ≡ view s) × Chosen (JoinedAudiobook p (view s)) o)
          (λ e s'. (view s' ≡ view s) × IsDatabase e)
          (B.joined_audiobook p s)
  -- Commit after a result, roll back after an error; beginning and committing may fail.
  pub exclusive_transaction_law :
      {E A : Type 0} (into : DieselError → E) (f : Exec B.State E A) (s : B.State)
      (Q : A → Tables → Type 0) (F : E → Type 0)
      → ((s' : B.State) → view s' ≡ view s → Ends (λ a s''. Q a (view s'')) (λ e s''. F e) (f s'))
      → Ends
          (λ a s'. Q a (view s'))
          (λ e s'. (view s' ≡ view s) × (F e ⊎ ((d : DieselError) × (e ≡ into d) × IsDatabase d)))
          (B.exclusive_transaction into f s)
  pub new_v4_law : (s : B.State) → view (B.new_v4 s).1 ≡ view s
  pub utc_now_law : (s : B.State) → view (B.utc_now s).1 ≡ view s
  pub random_salt_law : (s : B.State) → view (B.random_salt s).1 ≡ view s
  pub parse_str-hyphenated : (id : Uuid) → B.parse_str (B.hyphenated id) ≡ some id
  pub verify-default2i :
      (pw : String) (salt : List ℕ) → B.verify (B.default2i pw salt) pw ≡ some true
  pub decode-encode : (x : List ℕ) → B.base64_decode (B.base64_encode x) ≡ some x

-- Such a failure as `?` passes it on.
abbrev pub IsStopped : {B : Backend} → IsLawful B → Failure → Type 0
IsStopped L e = (d : DieselError) × (e ≡ diesel d) × L.IsDatabase d
