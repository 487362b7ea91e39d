-- ===== src/Models/Everyone.antt =====
-- Every user is permitted every library: the invariant that User::create and Library::create keep.
use vorleser_server.Prelude.{
  In-append_left, In-append_right, In-append_cases, In-map, String, sym, subst, ◌⊎◌, inl, inr, List,
  [], ◌∷◌, ◌++◌, map, In, nat_eq, string_eq, bytes_eq, bool_eq,
}
use vorleser_server.Exec.Ends.{Ends-state}
use vorleser_server.Db.{User, Library, Tables}
use vorleser_server.Db.Backend.{Backend}
use vorleser_server.Db.Lawful.{IsLawful}
use vorleser_server.Models.Permission.{permission}
use vorleser_server.Models.User
use vorleser_server.Models.Library
use vorleser_server.Models.User.Creation.{with_user, create_user_outcome}
use vorleser_server.Models.Library.Creation.{with_library, create_library_outcome}

-- Whoever is registered may read every library.
abbrev pub EveryonePermitted : Tables → Type 0
EveryonePermitted t =
    (u : User) (l : Library)
    → In u t.users
    → In l t.libraries
    → In (permission u l) t.library_permissions

with_user-EveryonePermitted :
    (u : User) (t : Tables) → EveryonePermitted t → EveryonePermitted (with_user u t)
with_user-EveryonePermitted u t all v l hv hl = split (In-append_cases v t.users (u ∷ []) hv)
  where
    split :
        In v t.users ⊎ In v (u ∷ [])
        → In (permission v l) (t.library_permissions ++ map (permission u) t.libraries)
    split (inl old) = In-append_left _ t.library_permissions _ (all v l old hl)
    split (inr (inl e)) = In-append_right _ t.library_permissions _ (
        subst (λ w. In (permission w l) (map (permission u) t.libraries)) (sym e)
          (In-map (permission u) l t.libraries hl))
    split (inr (inr h)) = absurd h

with_library-EveryonePermitted :
    (l : Library) (t : Tables) → EveryonePermitted t → EveryonePermitted (with_library l t)
with_library-EveryonePermitted l t all u k hu hk = split (In-append_cases k t.libraries (l ∷ []) hk)
  where
    split :
        In k t.libraries ⊎ In k (l ∷ [])
        → In (permission u k) (t.library_permissions ++ map (λ u. permission u l) t.users)
    split (inl old) = In-append_left _ t.library_permissions _ (all u k hu old)
    split (inr (inl e)) = In-append_right _ t.library_permissions _ (
        subst (λ w. In (permission u w) (map (λ u. permission u l) t.users)) (sym e)
          (In-map (λ u. permission u l) u t.users hu))
    split (inr (inr h)) = absurd h

-- A call of one of the two constructors, by the command line or by a request.
pub data Call : Type 0 where
  new_user : String → String → Call
  new_library : String → String → Call

module _ (B : Backend) where
  -- The state after a call, whether it failed or not.
  unfoldable pub after_call : Call → B.State → B.State
  after_call (new_user email password) s = (User.create B email password s).1
  after_call (new_library location regex) s = (Library.create B location regex s).1

  unfoldable pub after_calls : List Call → B.State → B.State
  after_calls [] s = s
  after_calls (c ∷ cs) s = after_calls cs (after_call c s)

module _ (B : Backend) (L : IsLawful B) where
  open L use {view}

  after_call-EveryonePermitted :
      (c : Call) (s : B.State)
      → EveryonePermitted (view s)
      → EveryonePermitted (view (after_call B c s))
  unfolding after_call
  after_call-EveryonePermitted (new_user email password) s all =
      Ends-state (λ s'. EveryonePermitted (view s')) (create_user_outcome B L email password s)
        (λ u s' h. subst EveryonePermitted (sym h.3) (with_user-EveryonePermitted u (view s) all))
        (λ e s' h. subst EveryonePermitted (sym h.0) all)
  after_call-EveryonePermitted (new_library location regex) s all =
      Ends-state (λ s'. EveryonePermitted (view s')) (create_library_outcome B L location regex s)
        (λ l s' h.
          subst EveryonePermitted (sym h.2) (with_library-EveryonePermitted l (view s) all))
        (λ e s' h. subst EveryonePermitted (sym h.0) all)

  -- If every user is permitted every library, that is so after any sequence of creations of users
  -- and libraries, in any order, those that fail included.
  pub after_calls-EveryonePermitted :
      (cs : List Call) (s : B.State)
      → EveryonePermitted (view s)
      → EveryonePermitted (view (after_calls B cs s))
  unfolding after_calls
  after_calls-EveryonePermitted [] s all = all
  after_calls-EveryonePermitted (c ∷ cs) s all =
      after_calls-EveryonePermitted cs (after_call B c s) (after_call-EveryonePermitted c s all)
