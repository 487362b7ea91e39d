-- ===== src/Models/Library/Creation.antt =====
-- Library::create of src/models/library.rs: what it adds.
use vorleser_server.Prelude.{
  String, ◌≡◌, refl, sym, subst, ap, ◌∙◌, ◌⊎◌, inl, inr, false, none, [], ◌∷◌, ◌++◌, map,
  filter-true, any, nat_eq, string_eq, bytes_eq, bool_eq,
}
use vorleser_server.Exec.Ends.{Ends, returns, Ends-bind, Ends-mono}
use vorleser_server.Errors.{DieselError}
use vorleser_server.Db.{Uuid, Library, Tables}
use vorleser_server.Db.Table
use vorleser_server.Db.Backend.{Backend}
use vorleser_server.Db.Lawful.{IsLawful}
use vorleser_server.Models.Permission.{permission, granted, permit_lem, permit_each}
use vorleser_server.Models.Library.{insert_library, create_in_transaction, create}

-- The tables with a new library, which is granted to every user.
abbrev pub with_library : Library → Tables → Tables
with_library l t =
    granted (map (λ u. permission u l) t.users) (record t { libraries = t.libraries ++ l ∷ [] })

module _ (B : Backend) (L : IsLawful B) where
  open L use {view, IsDatabase}

  insert_library_lem :
      (l : Library) (s : B.State) (t : Tables)
      → view s ≡ t
      → Ends
          (λ l' s'.
            (l' ≡ l)
            × (any (Table.libraries.clash l') t.libraries ≡ false)
            × (view s' ≡ with_library l' t))
          (λ e s'. IsDatabase e)
          (insert_library B l s)
  unfolding insert_library
  insert_library_lem l s t v =
      Ends-bind _ (L.libraries.insert_law l s)
        (λ n s₁ h.
          Ends-bind _ (L.users.load_law _ s₁)
            (λ users s₂ k.
              Ends-bind _
                (permit_each view IsDatabase _ (λ u. permission u l) (λ u s. permit_lem B L u l s)
                  users s₂)
                (λ _ s₃ r. returns l s₃ (
                  refl,
                  rw v at h.1,
                  r
                      ∙ ap (granted (map (λ u. permission u l) users)) (k.0 ∙ inserted h.0)
                      ∙ ap
                          (λ us.
                            granted (map (λ u. permission u l) us)
                              (record t { libraries = t.libraries ++ l ∷ [] }))
                          (k.1 ∙ filter-true _ ∙ ap (λ t. t.users) (inserted h.0)),
                ))
                (λ e s₃ d. d))
            (λ e s₂ d. d.1))
        (λ e s₁ d. d.1)
    where
      inserted :
          {s₁ : B.State}
          → view s₁ ≡ record (view s) { libraries = (view s).libraries ++ l ∷ [] }
          → view s₁ ≡ record t { libraries = t.libraries ++ l ∷ [] }
      inserted h = rw v at h

  -- Creating a library adds it with the given location and expression, never scanned, and permits
  -- it to every user. If it fails, the database failed and the tables are what they were.
  pub create_library_outcome :
      (location audiobook_regex : String) (s : B.State)
      → Ends
          (λ l s'.
            (l ≡ record {
              id = l.id;
              location = location;
              is_audiobook_regex = audiobook_regex;
              last_scan = none;
            })
            × (any (Table.libraries.clash l) (view s).libraries ≡ false)
            × (view s' ≡ with_library l (view s)))
          (λ e s'. (view s' ≡ view s) × IsDatabase e)
          (create B location audiobook_regex s)
  unfolding create create_in_transaction
  create_library_outcome location audiobook_regex s =
      Ends-mono
        (L.exclusive_transaction_law (λ e. e) _ s Added IsDatabase
          (λ s' v.
            Ends-mono (insert_library_lem _ _ (view s) (L.new_v4_law s' ∙ v))
              (λ l s'' h. (h.0 ∙ ap new (sym (ap (λ l. l.id) h.0)), h.1, h.2)) (λ e s'' d. d)))
        (λ l s' q. q) (λ e s' q. (q.0, stopped q.1))
    where
      new : Uuid → Library
      new id = record {
        id = id;
        location = location;
        is_audiobook_regex = audiobook_regex;
        last_scan = none;
      }

      Added : Library → Tables → Type 0
      Added l t' =
          (l ≡ record {
            id = l.id;
            location = location;
            is_audiobook_regex = audiobook_regex;
            last_scan = none;
          })
          × (any (Table.libraries.clash l) (view s).libraries ≡ false)
          × (t' ≡ with_library l (view s))

      stopped :
          {e : DieselError}
          → IsDatabase e ⊎ ((d : DieselError) × (e ≡ d) × IsDatabase d)
          → IsDatabase e
      stopped (inl h) = h
      stopped (inr (d, e, h)) = subst IsDatabase (sym e) h
