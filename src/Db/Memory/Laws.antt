-- ===== src/Db/Memory/Laws.antt =====
-- The backend in memory is lawful.
use vorleser_server.Prelude.{
  ℕ, zero, suc, ◌+◌, String, ◌≡◌, refl, ap, ◌∙◌, ◌⊎◌, inl, inr, ◌↔◌, Bool, true, ◌&&◌, some, List,
  [], ◌∷◌, ◌++◌, filter, find, any, In, ◌==◌, nat_eq, string_eq, bytes_eq, bool_eq, nat_beq_iff,
  Result, arith, Bool-cases, Option-cases,
}
use vorleser_server.Exec.Ends.{Ends, returns, fails}
use vorleser_server.Errors.{DieselError, not_found}
use vorleser_server.Db.{Library, LibraryPermission, Audiobook, Tables}
use vorleser_server.Db.Table
use vorleser_server.Db.Lawful.{IsLawful, IsLawfulTable, JoinedLibrary, JoinedAudiobook, Chosen}
use vorleser_server.Prelude.{length, bytes_beq_iff, any_iff, find-none, find-some, In-filter}
use vorleser_server.Db.Memory.{
  Memory, store, unique_failed, memory, statements, libraries_of, is_joined, ended, encode, decode,
  spell, codes, unary,
}

abbrev pub view : Memory → Tables
view m = m.tables

-- No statement but an INSERT fails, and that only when a constraint would be broken.
abbrev pub IsDatabase : DieselError → Type 0
IsDatabase e = e ≡ unique_failed

pub lawful_table : {R : Type 0} (T : Table.Table R) → IsLawfulTable view IsDatabase T (statements T)
lawful_table T = record {
  load_law = λ p m. returns _ m (refl, refl);
  first_law = λ p m. elim (Option-cases (find p (T.rows m.tables))) [
    | inl e ↦ rw e (fails not_found m (refl, inr (refl, refl)))
    | inr (r, e) ↦ rw e (returns r m (refl, refl))
  ];
  first_optional_law = λ p m. returns _ m (refl, refl);
  insert_law = λ r m. elim (Bool-cases (any (T.clash r) (T.rows m.tables))) [
    | inl e ↦ rw e (fails unique_failed m (refl, refl))
    | inr e ↦ rw e (returns 1 (store T (T.rows m.tables ++ r ∷ []) m) (refl, refl))
  ];
  replace_law = λ rs m. returns _ _ refl;
  update_law = λ p f m. returns _ _ (refl, refl);
  delete_law = λ p m. returns _ _ refl;
}

decode-spell : (n a : ℕ) (r : String) → decode a (spell n r) ≡ (a + n) ∷ decode 0 r
decode-spell zero a r = ground arith
decode-spell (suc n) a r = decode-spell n (a + 1) r ∙ ap (λ k. k ∷ decode 0 r) (omega arith)

pub length-unary : (n : ℕ) → length (codes (unary n)) ≡ n
length-unary zero = refl
length-unary (suc n) = ap suc (length-unary n)

pub decode-encode : (xs : List ℕ) → decode 0 (encode xs) ≡ xs
decode-encode [] = refl
decode-encode (x ∷ xs) =
    decode-spell x 0 (encode xs)
    ∙ ap (λ k. k ∷ decode 0 (encode xs)) (omega arith)
    ∙ ap (λ l. x ∷ l) (decode-encode xs)

pub JoinedLibrary-iff :
    (p : LibraryPermission → Library → Bool) (t : Tables) (l : Library)
    → In l (libraries_of p t) ↔ JoinedLibrary p t l
JoinedLibrary-iff p t l = (
  λ h.
      let (known, some_row) = (In-filter test l t.libraries).0 h in
      let (q, inside, passes) = (any_iff (row l) t.library_permissions).0 some_row in
      let (e, own) = (of_row q).0 passes in (q, inside, known, e, own),
  λ (q, inside, known, e, own).
      (In-filter test l t.libraries).1
        (known, (any_iff (row l) t.library_permissions).1 (q, inside, (of_row q).1 (e, own))),
)
  where
    row : Library → LibraryPermission → Bool
    row l q = q.library_id == l.id && p q l

    test : Library → Bool
    test l = any (row l) t.library_permissions

    of_row : (q : LibraryPermission) → (row l q ≡ true) ↔ ((q.library_id ≡ l.id) × (p q l ≡ true))
    of_row q = ground (arith, nat_beq_iff q.library_id l.id)

is_joined_iff :
    (p : Audiobook → Library → LibraryPermission → Bool) (t : Tables) (b : Audiobook)
    → In b t.audiobooks
    → (is_joined p t b ≡ true) ↔ JoinedAudiobook p t b
is_joined_iff p t b here = (
  λ h.
      let (l, known, some_row) = (any_iff test t.libraries).0 h in
      let (q, inside, passes) = (any_iff (row l) t.library_permissions).0 some_row in
      let (e, f, own) = (of_row l q).0 passes in (l, q, here, known, inside, e, f, own),
  λ (l, q, _, known, inside, e, f, own).
      (any_iff test t.libraries).1 (
        l,
        known,
        (any_iff (row l) t.library_permissions).1 (q, inside, (of_row l q).1 (e, f, own)),
      ),
)
  where
    row : Library → LibraryPermission → Bool
    row l q = (b.library_id == l.id && q.library_id == l.id) && p b l q

    test : Library → Bool
    test l = any (row l) t.library_permissions

    of_row :
        (l : Library) (q : LibraryPermission)
        → (row l q ≡ true) ↔ ((b.library_id ≡ l.id) × (q.library_id ≡ l.id) × (p b l q ≡ true))
    of_row l q = ground (arith, nat_beq_iff q.library_id l.id, nat_beq_iff b.library_id l.id)

pub filter-joined_iff :
    (p : Audiobook → Library → LibraryPermission → Bool) (t : Tables) (b : Audiobook)
    → In b (filter (is_joined p t) t.audiobooks) ↔ JoinedAudiobook p t b
filter-joined_iff p t b = (
  λ h.
      let (here, joined) = (In-filter (is_joined p t) b t.audiobooks).0 h in
      (is_joined_iff p t b here).0 joined,
  λ j. (In-filter (is_joined p t) b t.audiobooks).1 (j.2, (is_joined_iff p t b j.2).1 j),
)

pub find-joined-Chosen :
    (p : Audiobook → Library → LibraryPermission → Bool) (t : Tables)
    → Chosen (JoinedAudiobook p t) (find (is_joined p t) t.audiobooks)
find-joined-Chosen p t = elim (Option-cases (find (is_joined p t) t.audiobooks)) [
  | inl e ↦
      rw e
        (λ b j. cc (find-none (is_joined p t) t.audiobooks e b j.2, (is_joined_iff p t b j.2).1 j))
  | inr (b, e) ↦ rw e (
      let (here, joined) = find-some (is_joined p t) t.audiobooks b e in
      (is_joined_iff p t b here).0 joined)
]

pub transaction-Ends :
    {E A : Type 0} (into : DieselError → E) (m : Memory) (Q : A → Tables → Type 0) (F : E → Type 0)
    {r : Result E A × Memory}
    → Ends (λ a s'. Q a (view s')) (λ e s'. F e) r
    → Ends
        (λ a s'. Q a (view s'))
        (λ e s'. (view s' ≡ view m) × (F e ⊎ ((d : DieselError) × (e ≡ into d) × IsDatabase d)))
        (ended m r)
transaction-Ends into m Q F (returns a s q) = returns a s q
transaction-Ends into m Q F (fails e s f) = fails e m (refl, inl f)

abbrev pub memory-IsLawful : IsLawful memory
memory-IsLawful = record {
  view = view;
  IsDatabase = IsDatabase;
  database_law = λ e d. (_, d);
  api_tokens = lawful_table Table.api_tokens;
  audiobooks = lawful_table Table.audiobooks;
  chapters = lawful_table Table.chapters;
  libraries = lawful_table Table.libraries;
  library_permissions = lawful_table Table.library_permissions;
  playstates = lawful_table Table.playstates;
  users = lawful_table Table.users;
  joined_libraries_law = λ p m. returns _ m (refl, λ l. JoinedLibrary-iff p m.tables l);
  joined_audiobooks_law = λ p m. returns _ m (refl, λ b. filter-joined_iff p m.tables b);
  joined_audiobook_law = λ p m. returns _ m (refl, find-joined-Chosen p m.tables);
  exclusive_transaction_law = λ into f m Q F step. transaction-Ends into m Q F (step m refl);
  new_v4_law = λ m. refl;
  utc_now_law = λ m. refl;
  random_salt_law = λ m. refl;
  parse_str-hyphenated = λ id. ap some (length-unary id);
  verify-default2i = λ pw salt. ap some ((bytes_beq_iff (codes pw) (codes pw)).1 refl);
  decode-encode = λ xs. ap some (decode-encode xs);
}
