-- ===== src/Models/Access.antt =====
-- What a user may read: the queries of src/models/user.rs over the permissions.
use vorleser_server.Prelude.{
  ◌≡◌, refl, subst, ◌↔◌, Bool, true, false, ◌&&◌, Option, none, some, In, ◌==◌, nat_eq, string_eq,
  bytes_eq, bool_eq, bool_beq_iff, nat_beq_iff, arith,
}
use vorleser_server.Exec.Ends.{Ends, Ends-mono, Ends-converted}
use vorleser_server.Errors.{diesel}
use vorleser_server.Db.{Uuid, User, Library, LibraryPermission, Audiobook, Tables}
use vorleser_server.Db.Backend.{Backend}
use vorleser_server.Db.Lawful.{IsLawful, IsStopped, JoinedLibrary, JoinedAudiobook, Chosen}
use vorleser_server.Models.Permission.{permission}
use vorleser_server.Models.User.{
  accessible_libraries, accessible_audiobooks, get_book_if_accessible,
}

-- The user is permitted the library, and the library is known.
abbrev pub MayUse : User → Library → Tables → Type 0
MayUse u l t = In (permission u l) t.library_permissions × In l t.libraries

-- The book stands in such a library.
abbrev pub MayRead : User → Audiobook → Tables → Type 0
MayRead u b t = (l : Library) × MayUse u l t × (b.library_id ≡ l.id)

-- A permission is its two columns.
permission_eq :
    (u : User) (l : Library) (q : LibraryPermission)
    → q.library_id ≡ l.id
    → q.user_id ≡ u.id
    → q ≡ permission u l
permission_eq u l q e f = cc

iff_trans : {A B C : Type 0} → A ↔ B → B ↔ C → A ↔ C
iff_trans f g = (λ a. g.0 (f.0 a), λ c. f.1 (g.1 c))

with_test : {A B C D : Type 0} → B ↔ C → (A × B × D) ↔ (A × C × D)
with_test f = (λ (a, b, d). (a, f.0 b, d), λ (a, c, d). (a, f.1 c, d))

Chosen-iff :
    {A : Type 0} {P Q : A → Type 0} (o : Option A) → ((a : A) → P a ↔ Q a) → Chosen P o → Chosen Q o
Chosen-iff none f h = λ a q. h a ((f a).1 q)
Chosen-iff (some a) f h = (f a).0 h

JoinedLibrary-iff :
    (u : User) (t : Tables) (l : Library)
    → JoinedLibrary (λ q l. q.user_id == u.id) t l ↔ MayUse u l t
JoinedLibrary-iff u t l = (
  λ (q, inside, known, e, own). (
    subst (λ p. In p t.library_permissions)
        (permission_eq u l q e ((nat_beq_iff q.user_id u.id).0 own)) inside,
    known,
  ),
  λ (inside, known). (permission u l, inside, known, refl, (nat_beq_iff u.id u.id).1 refl),
)

-- The test of a join, with one on the book.
JoinedAudiobook-iff :
    (u : User) (p : Audiobook → Bool) (test : Audiobook → Library → LibraryPermission → Bool)
    (t : Tables) (b : Audiobook)
    → ((l : Library) (q : LibraryPermission)
        → (test b l q ≡ true) ↔ ((p b ≡ true) × (q.user_id ≡ u.id)))
    → JoinedAudiobook test t b ↔ (In b t.audiobooks × (p b ≡ true) × MayRead u b t)
JoinedAudiobook-iff u p test t b same = (
  λ (l, q, here, known, inside, e, f, own). (
    here,
    ((same l q).0 own).0,
    (
      l,
      (
        subst (λ p. In p t.library_permissions) (permission_eq u l q f ((same l q).0 own).1) inside,
        known,
      ),
      e,
    ),
  ),
  λ (here, passes, (l, (inside, known), e)).
      (l, permission u l, here, known, inside, e, refl, (same l (permission u l)).1 (passes, refl)),
)

module _ (B : Backend) (L : IsLawful B) where
  open L use {view, IsDatabase}

  -- The libraries listed to a user are exactly the known libraries permitted to them.
  pub accessible_libraries_iff :
      (u : User) (s : B.State)
      → Ends
          (λ ls s'. (view s' ≡ view s) × ((l : Library) → In l ls ↔ MayUse u l (view s)))
          (λ e s'. (view s' ≡ view s) × IsStopped L e)
          (accessible_libraries B u s)
  unfolding accessible_libraries
  accessible_libraries_iff u s =
      Ends-mono
        (Ends-converted diesel (L.joined_libraries_law (λ q l. q.user_id == u.id) s)
          (λ e s' h. (h.0, (e, refl, h.1))))
        (λ ls s' h. (h.0, λ l. iff_trans (h.1 l) (JoinedLibrary-iff u (view s) l))) (λ e s' h. h)

  -- The books listed to a user are exactly those in libraries permitted to them that are not
  -- marked as deleted.
  pub accessible_audiobooks_iff :
      (u : User) (s : B.State)
      → Ends
          (λ bs s'.
            (view s' ≡ view s)
            × ((b : Audiobook)
                → In b bs
                  ↔ (In b (view s).audiobooks × (b.deleted ≡ false) × MayRead u b (view s))))
          (λ e s'. (view s' ≡ view s) × IsDatabase e)
          (accessible_audiobooks B u s)
  unfolding accessible_audiobooks
  accessible_audiobooks_iff u s =
      Ends-mono (L.joined_audiobooks_law (λ b l q. b.deleted == false && q.user_id == u.id) s)
        (λ bs s' h. (
          h.0,
          λ b. iff_trans (h.1 b) (
              iff_trans
                (JoinedAudiobook-iff u (λ b. b.deleted == false)
                  (λ b l q. b.deleted == false && q.user_id == u.id) (view s) b
                  (λ l q. ground (arith, nat_beq_iff q.user_id u.id)))
                (with_test (bool_beq_iff b.deleted false))),
        ))
        (λ e s' h. h)

  -- Asked for one book, a user gets a book of that number in a library permitted to them, marked as
  -- deleted or not, and gets none only if there is no such book.
  pub get_book_if_accessible_iff :
      (u : User) (book_id : Uuid) (s : B.State)
      → Ends
          (λ o s'.
            (view s' ≡ view s)
            × Chosen (λ b. In b (view s).audiobooks × (b.id ≡ book_id) × MayRead u b (view s)) o)
          (λ e s'. (view s' ≡ view s) × IsDatabase e)
          (get_book_if_accessible B u book_id s)
  unfolding get_book_if_accessible
  get_book_if_accessible_iff u book_id s =
      Ends-mono (L.joined_audiobook_law (λ b l q. q.user_id == u.id && b.id == book_id) s)
        (λ o s' h. (
          h.0,
          Chosen-iff o
              (λ b.
                iff_trans
                  (JoinedAudiobook-iff u (λ b. b.id == book_id)
                    (λ b l q. q.user_id == u.id && b.id == book_id) (view s) b
                    (λ l q. ground (arith, nat_beq_iff q.user_id u.id)))
                  (with_test (nat_beq_iff b.id book_id)))
              h.1,
        ))
        (λ e s' h. h)
