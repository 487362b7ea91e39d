-- ===== src/Models/Permission.antt =====
-- src/models/library_permission.rs
use vorleser_server.Prelude.{List, [], ◌∷◌, ◌++◌, ◌≡◌, map, append-nil, append_assoc, sym, ◌∙◌, ap}
use vorleser_server.Exec.{Exec, pure, ◌>>◌, for_each}
use vorleser_server.Exec.Ends.{Ends, returns, Ends-bind, Ends-mono}
use vorleser_server.Db.{User, Library, LibraryPermission, Tables}
use vorleser_server.Db.Backend.{Backend, Query}
use vorleser_server.Db.Lawful.{IsLawful}

abbrev pub permission : User → Library → LibraryPermission
permission user library = record { library_id = library.id; user_id = user.id }

module _ (B : Backend) where
  unfoldable pub permit : User → Library → Query B.State LibraryPermission
  permit user library = do
    B.library_permissions.insert (permission user library)
    pure (permission user library)

-- The tables with more permissions.
abbrev pub granted : List LibraryPermission → Tables → Tables
granted qs t = record t { library_permissions = t.library_permissions ++ qs }

granted_more :
    (q : LibraryPermission) (qs : List LibraryPermission) (t : Tables)
    → granted qs (granted (q ∷ []) t) ≡ granted (q ∷ qs) t
granted_more q qs t =
    ap (λ l. record t { library_permissions = l }) (append_assoc t.library_permissions (q ∷ []) qs)

module _ (B : Backend) (L : IsLawful B) where
  open L use {view, IsDatabase}

  -- `permit` adds the one permission.
  pub permit_lem :
      (user : User) (library : Library) (s : B.State)
      → Ends
          (λ p s'. view s' ≡ granted (permission user library ∷ []) (view s))
          (λ e s'. IsDatabase e)
          (permit B user library s)
  unfolding permit
  permit_lem user library s =
      Ends-bind _ (L.library_permissions.insert_law (permission user library) s)
        (λ n s' h. returns _ s' h.0) (λ e s' h. h.1)

-- A loop of `permit`, whatever its error is converted to, adds one permission for each element.
pub permit_each :
    {S E A R : Type 0} (view : S → Tables) (F : E → Type 0) (m : A → Exec S E R)
    (new : A → LibraryPermission)
    → ((x : A) (s : S)
        → Ends (λ _ s'. view s' ≡ granted (new x ∷ []) (view s)) (λ e s'. F e) (m x s))
    → (xs : List A) (s : S)
    → Ends (λ _ s'. view s' ≡ granted (map new xs) (view s)) (λ e s'. F e) (for_each m xs s)
unfolding for_each
permit_each view F m new step [] s = returns tt s (
    ap (λ l. record (view s) { library_permissions = l })
      (sym (append-nil (view s).library_permissions)))
permit_each view F m new step (x ∷ xs) s =
    Ends-bind _ (step x s)
      (λ p s' h.
        Ends-mono (permit_each view F m new step xs s')
          (λ _ s'' k. k ∙ ap (granted (map new xs)) h ∙ granted_more (new x) _ (view s))
          (λ e s'' d. d))
      (λ e s' d. d)
