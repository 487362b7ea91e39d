-- ===== src/Models/User/Creation.antt =====
-- User::create of src/models/user.rs: what it adds, and when it refuses.
use vorleser_server.Prelude.{
  ℕ, String, ◌≡◌, refl, sym, ap, ◌∙◌, ◌⊎◌, inl, inr, true, false, some, List, [], ◌∷◌, ◌++◌, map,
  filter-true, any-find, find, any, ◌==◌, nat_eq, string_eq, bytes_eq, bool_eq, eq_iff, arith,
}
use vorleser_server.Exec.{map_err}
use vorleser_server.Exec.Ends.{
  Ends, returns, fails, Ends-bind, Ends-mono, Ends-converted, Ends-handled,
}
use vorleser_server.Errors.{Failure, user_error, diesel, already_exists}
use vorleser_server.Db.{User, Library, Tables}
use vorleser_server.Db.Table
use vorleser_server.Db.Backend.{Backend}
use vorleser_server.Db.Lawful.{IsLawful, IsStopped}
use vorleser_server.Models.Permission.{permission, permit, granted, permit_lem, permit_each}
use vorleser_server.Models.User.{
  insert_user, make_password_hash, verify_bytes, verify_password, create_in_transaction,
  create_unless, create,
}

-- The tables with a new user, who is granted every library.
abbrev pub with_user : User → Tables → Tables
with_user u t = granted (map (permission u) t.libraries) (record t { users = t.users ++ u ∷ [] })

-- Who clashes with no user has an address of their own.
fresh_email :
    (u : User) (email : String) (l : List User)
    → u.email ≡ email
    → any (Table.users.clash u) l ≡ false
    → any (λ x. x.email == email) l ≡ false
fresh_email u email [] e h = refl
fresh_email u email (x ∷ xs) e h =
    ground (arith, eq_iff x.email email, eq_iff u.email x.email, fresh_email u email xs e)

module _ (B : Backend) (L : IsLawful B) where
  open L use {view}

  permit_user :
      (u : User) (l : Library) (s : B.State)
      → Ends
          (λ _ s'. view s' ≡ granted (permission u l ∷ []) (view s))
          (λ e s'. IsStopped L e)
          (map_err diesel (permit B u l) s)
  permit_user u l s = Ends-converted diesel (permit_lem B L u l s) (λ e s' d. (e, refl, d))

  insert_user_lem :
      (u : User) (s : B.State) (t : Tables)
      → view s ≡ t
      → Ends
          (λ u' s'.
            (u' ≡ u) × (any (Table.users.clash u') t.users ≡ false) × (view s' ≡ with_user u' t))
          (λ e s'. IsStopped L e)
          (insert_user B u s)
  unfolding insert_user
  insert_user_lem u s t v =
      Ends-bind _ (Ends-converted diesel (L.users.insert_law u s) (λ e s' h. (e, refl, h.1)))
        (λ n s₁ h.
          Ends-bind _ (Ends-converted diesel (L.libraries.load_law _ s₁) (λ e s₂ k. (e, refl, k.1)))
            (λ libraries s₂ k.
              Ends-bind _
                (permit_each view (IsStopped L) _ (permission u) (permit_user u) libraries s₂)
                (λ _ s₃ r. returns u s₃ (
                  refl,
                  rw v at h.1,
                  r
                      ∙ ap (granted (map (permission u) libraries)) (k.0 ∙ inserted h.0)
                      ∙ ap
                          (λ ls.
                            granted (map (permission u) ls)
                              (record t { users = t.users ++ u ∷ [] }))
                          (k.1 ∙ filter-true _ ∙ ap (λ t. t.libraries) (inserted h.0)),
                ))
                (λ e s₃ d. d))
            (λ e s₂ d. d))
        (λ e s₁ d. d)
    where
      inserted :
          {s₁ : B.State}
          → view s₁ ≡ record (view s) { users = (view s).users ++ u ∷ [] }
          → view s₁ ≡ record t { users = t.users ++ u ∷ [] }
      inserted h = rw v at h

  create_in_transaction_lem :
      (email hash : String) (s : B.State) (t : Tables)
      → view s ≡ t
      → Ends
          (λ u s'.
            (u.email ≡ email)
            × (u.password_hash ≡ hash)
            × (any (Table.users.clash u) t.users ≡ false)
            × (view s' ≡ with_user u t))
          (λ e s'. IsStopped L e)
          (create_in_transaction B email hash s)
  unfolding create_in_transaction
  create_in_transaction_lem email hash s t v =
      Ends-mono (insert_user_lem _ _ t (L.utc_now_law _ ∙ L.utc_now_law _ ∙ L.new_v4_law s ∙ v))
        (λ u s' h. (ap (λ u. u.email) h.0, ap (λ u. u.password_hash) h.0, h.1, h.2)) (λ e s' d. d)

  made_hash :
      (u : User) (password : String) (salt : List ℕ)
      → u.password_hash ≡ B.base64_encode (B.default2i password salt)
      → verify_password B u password ≡ some true
  unfolding verify_password
  made_hash u password salt h =
      ap (λ x. verify_bytes B (B.base64_decode x) password) h
      ∙ ap (λ o. verify_bytes B o password) (L.decode-encode _)
      ∙ L.verify-default2i password salt

  -- Creating a user adds them under the given address, with every library permitted to them and a
  -- password hash that accepts the given password, provided that no user had that address. If it
  -- fails, the tables are what they were, and either the address was taken or the database failed.
  pub create_user_outcome :
      (email password : String) (s : B.State)
      → Ends
          (λ u s'.
            (u.email ≡ email)
            × (verify_password B u password ≡ some true)
            × (any (λ x. x.email == email) (view s).users ≡ false)
            × (view s' ≡ with_user u (view s)))
          (λ e s'.
            (view s' ≡ view s)
            × (((e ≡ user_error (already_exists email))
                  × (any (λ x. x.email == email) (view s).users ≡ true))
                ⊎ IsStopped L e))
          (create B email password s)
  unfolding create make_password_hash
  create_user_outcome email password s =
      Ends-handled (create_unless B email _) (L.users.first_law (λ u. u.email == email) salted)
        (λ taken s₁ h. fails _ s₁ (
          h.0 ∙ L.random_salt_law s,
          inl (
            refl,
            any-find (λ u. u.email == email) (view s).users
                (ap (λ t. find (λ u. u.email == email) t.users) (sym (L.random_salt_law s)) ∙ h.1),
          ),
        ))
        (λ e s₁ h.
          Ends-mono
            (L.exclusive_transaction_law diesel _ s₁ (Added (view s)) (IsStopped L) (λ s₂ v.
              create_in_transaction_lem email _ s₂ (view s) (v ∙ h.0 ∙ L.random_salt_law s)))
            (λ u s₂ q.
              (q.0, made_hash u password _ q.1, fresh_email u email (view s).users q.0 q.2, q.3))
            (λ e s₂ q. (q.0 ∙ h.0 ∙ L.random_salt_law s, inr (stopped q.1))))
    where
      salted : B.State
      salted = (B.random_salt s).1

      Added : Tables → User → Tables → Type 0
      Added t u t' =
          (u.email ≡ email)
          × (u.password_hash ≡ B.base64_encode (B.default2i password (B.random_salt s).0))
          × (any (Table.users.clash u) t.users ≡ false)
          × (t' ≡ with_user u t)

      stopped : {e : Failure} → IsStopped L e ⊎ IsStopped L e → IsStopped L e
      stopped (inl h) = h
      stopped (inr h) = h
