-- ===== src/Models/Playstate/Upsert.antt =====
-- What storing play states leaves in the table (src/models/playstate.rs and the loop of src/api/libraries.rs).
use vorleser_server.Prelude.{
  ◌≡◌, refl, sym, ap, ◌∙◌, ◌≢◌, inl, inr, Bool, not, ◌&&◌, Option, none, some, List, [], ◌∷◌, ◌++◌,
  filter, find, if◌then◌else◌, ◌==◌, nat_eq, string_eq, bytes_eq, bool_eq, nat_beq_iff, arith,
  Bool-cases,
}
use vorleser_server.Exec.{for_each}
use vorleser_server.Exec.Ends.{Ends, returns, Ends-bind}
use vorleser_server.Db.{Uuid, User, Playstate, Tables}
use vorleser_server.Db.Table
use vorleser_server.Db.Backend.{Backend}
use vorleser_server.Db.Lawful.{IsLawful}
use vorleser_server.Models.Playstate.{ApiPlaystate, to_playstate, upsert, upsert_all}

abbrev pub put : List Playstate → Playstate → List Playstate
put rows p = filter (λ x. not (Table.playstates.clash p x)) rows ++ p ∷ []

abbrev pub with_playstates : List Playstate → Tables → Tables
with_playstates rows t = record t { playstates = rows }

-- The state of one book for one user.
abbrev pub of_key : Uuid → Uuid → Playstate → Bool
of_key audiobook_id user_id x = x.audiobook_id == audiobook_id && x.user_id == user_id

abbrev pub get : Uuid → Uuid → List Playstate → Option Playstate
get audiobook_id user_id = find (of_key audiobook_id user_id)

-- A stored state is read back under its key, and the other keys keep theirs.
get-put :
    (a u : Uuid) (rows : List Playstate) (p : Playstate)
    → get a u (put rows p) ≡ (if of_key a u p then some p else get a u rows)
get-put a u [] p = ground arith
get-put a u (x ∷ xs) p = ground (arith, get-put a u xs p)

-- The last state that a list has for a book.
abbrev pub latest : Uuid → List ApiPlaystate → Option ApiPlaystate → Option ApiPlaystate
latest a [] o = o
latest a (x ∷ xs) o = latest a xs (if x.audiobook_id == a then some x else o)

abbrev pub put_all : User → List ApiPlaystate → List Playstate → List Playstate
put_all w [] rows = rows
put_all w (x ∷ xs) rows = put_all w xs (put rows (to_playstate x w))

abbrev pub stored : User → Option ApiPlaystate → Option Playstate → Option Playstate
stored w none old = old
stored w (some x) old = some (to_playstate x w)

module _ (w : User) where
  stored-latest :
      (a : Uuid) (xs : List ApiPlaystate) (o : Option ApiPlaystate) (old : Option Playstate)
      → stored w (latest a xs o) old ≡ stored w (latest a xs none) (stored w o old)
  stored-latest a [] none old = refl
  stored-latest a [] (some x) old = refl
  stored-latest a (x ∷ xs) o old = elim (Bool-cases (x.audiobook_id == a)) [
    | inl e ↦
        rw e (stored-latest a xs (some x) old ∙ sym (stored-latest a xs (some x) (stored w o old)))
    | inr e ↦ rw e (stored-latest a xs o old)
  ]

  pub get-put_all :
      (a : Uuid) (xs : List ApiPlaystate) (rows : List Playstate)
      → get a w.id (put_all w xs rows) ≡ stored w (latest a xs none) (get a w.id rows)
  unfolding to_playstate
  get-put_all a [] rows = refl
  get-put_all a (x ∷ xs) rows =
      get-put_all a xs (put rows (to_playstate x w))
      ∙ ap (stored w (latest a xs none)) (get-put a w.id rows (to_playstate x w))
      ∙ elim (Bool-cases (x.audiobook_id == a)) [
        | inl e ↦
            rw (e, (nat_beq_iff w.id w.id).1 refl)
              (sym (stored-latest a xs (some x) (get a w.id rows)))
        | inr e ↦ rw e
      ]

  -- Another user's states stay.
  pub get-put_all_ne :
      (a u : Uuid) (xs : List ApiPlaystate) (rows : List Playstate)
      → u ≢ w.id
      → get a u (put_all w xs rows) ≡ get a u rows
  unfolding to_playstate
  get-put_all_ne a u [] rows h = refl
  get-put_all_ne a u (x ∷ xs) rows h =
      get-put_all_ne a u xs (put rows (to_playstate x w)) h
      ∙ get-put a u rows (to_playstate x w)
      ∙ ground (arith, nat_beq_iff w.id u)

module _ (B : Backend) (L : IsLawful B) where
  open L use {view, IsDatabase}

  upsert_lem :
      (p : Playstate) (s : B.State) (t : Tables)
      → view s ≡ t
      → Ends
          (λ r s'. (r ≡ p) × (view s' ≡ with_playstates (put t.playstates p) t))
          (λ e s'. IsDatabase e)
          (upsert B p s)
  unfolding upsert
  upsert_lem p s t v =
      Ends-bind _ (L.playstates.replace_law (p ∷ []) s) (λ n s₁ h. returns p s₁ (refl, rw v at h))
        (λ e s₁ k. k.1)

  pub upsert_all_lem :
      (w : User) (xs : List ApiPlaystate) (s : B.State) (t : Tables)
      → view s ≡ t
      → Ends
          (λ _ s'. view s' ≡ with_playstates (put_all w xs t.playstates) t)
          (λ e s'. IsDatabase e)
          (upsert_all B w xs s)
  unfolding upsert_all for_each
  upsert_all_lem w [] s t v = returns tt s v
  upsert_all_lem w (x ∷ xs) s t v =
      Ends-bind _ (upsert_lem (to_playstate x w) s t v) (λ r s₁ h. upsert_all_lem w xs s₁ _ h.1)
        (λ e s₁ d. d)

  -- Storing one state: it is read back under its book and user, every other state and every other
  -- table stays. If the database fails, its tables are what they were.
  pub upsert_outcome :
      (p : Playstate) (s : B.State)
      → Ends
          (λ r s'.
            (r ≡ p)
            × (view s' ≡ with_playstates (view s').playstates (view s))
            × ((a u : Uuid)
                → get a u (view s').playstates
                  ≡ (if of_key a u p then some p else get a u (view s).playstates)))
          (λ e s'. (view s' ≡ view s) × IsDatabase e)
          (upsert B p s)
  unfolding upsert
  upsert_outcome p s =
      Ends-bind _ (L.playstates.replace_law (p ∷ []) s)
        (λ n s₁ h. returns p s₁ (
          refl,
          h ∙ ap (λ t. with_playstates t.playstates (view s)) (sym h),
          λ a u. ap (λ t. get a u t.playstates) h ∙ get-put a u (view s).playstates p,
        ))
        (λ e s₁ k. k)
