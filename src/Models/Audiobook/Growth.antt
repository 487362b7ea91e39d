-- ===== src/Models/Audiobook/Growth.antt =====
-- How the table of src/models/audiobook.rs changes: books keep their keys and are never lost.
use vorleser_server.Prelude.{
  ℕ, string_eq, bytes_eq, String, ◌≡◌, refl, sym, ap, ◌∙◌, ◌⊎◌, inl, inr, Bool, false, List, [],
  ◌∷◌, ◌++◌, In, any, any_iff, Bool-cases, if◌then◌else◌, ◌==◌, nat_eq, In-append_left,
  In-append_cases,
}
use vorleser_server.Db.{Audiobook, Library, Tables}
use vorleser_server.Db.Backend.{Backend}
use vorleser_server.Db.Lawful.{IsLawful, amend}
use vorleser_server.Models.Audiobook.Existence.{Ensured, overwrote, inserted, lost}
use vorleser_server.Models.Audiobook.Paths.{Reported, right, moved, missing, unread}
use vorleser_server.Models.Audiobook.{Update, changeset}

-- No two rows have the same key, as the schema demands.
abbrev pub HasKeys : List Audiobook → Type 0
HasKeys rows = (x y : Audiobook) → In x rows → In y rows → x.id ≡ y.id → x ≡ y

abbrev pub Keeps : List Audiobook → List Audiobook → Type 0
Keeps rows rows' = (x : Audiobook) → In x rows → (y : Audiobook) × In y rows' × (y.id ≡ x.id)

-- The keys stay unique, and no key goes away.
pub record Grows (rows rows' : List Audiobook) : Type 0 where
  pub keys : HasKeys rows → HasKeys rows'
  pub keeps : Keeps rows rows'

pub Grows-same : {rows rows' : List Audiobook} → rows' ≡ rows → Grows rows rows'
Grows-same e = rw e (record { keys = λ h. h; keeps = λ x i. (x, i, refl) })

pub Grows-trans : {a b c : List Audiobook} → Grows a b → Grows b c → Grows a c
Grows-trans g h = record {
  keys = λ u. h.keys (g.keys u);
  keeps = λ x i. let (y, j, e) = g.keeps x i in let (z, l, f) = h.keeps y j in (z, l, f ∙ e);
}

module _ (p : Audiobook → Bool) (f : Audiobook → Audiobook)
    (same_id : (r : Audiobook) → (f r).id ≡ r.id) where
  abbrev change : Audiobook → Audiobook
  change r = if p r then f r else r

  change-id : (r : Audiobook) → (change r).id ≡ r.id
  change-id r = elim (Bool-cases (p r)) [ inl e ↦ rw e (same_id r) | inr e ↦ rw e refl ]

  -- Where a row of the changed table comes from.
  In-amend :
      (x : Audiobook) (rows : List Audiobook)
      → In x (amend p f rows)
      → (r : Audiobook) × In r rows × (x ≡ change r)
  In-amend x [] i = absurd i
  In-amend x (r ∷ rows) (inl e) = (r, inl refl, e)
  In-amend x (r ∷ rows) (inr i) = let (q, j, e) = In-amend x rows i in (q, inr j, e)

  amend-In : (r : Audiobook) (rows : List Audiobook) → In r rows → In (change r) (amend p f rows)
  amend-In r [] i = absurd i
  amend-In r (x ∷ rows) (inl e) = inl (ap change e)
  amend-In r (x ∷ rows) (inr i) = inr (amend-In r rows i)

  pub Grows-amend : (rows : List Audiobook) → Grows rows (amend p f rows)
  Grows-amend rows = record {
    keys = λ keys x y i j e.
        let (r, k, from) = In-amend x rows i in
        let (q, l, from') = In-amend y rows j in
        from
        ∙ ap change (
            keys r q k l (
              sym (change-id r)
              ∙ sym (ap (λ b. b.id) from)
              ∙ e
              ∙ ap (λ b. b.id) from'
              ∙ change-id q))
        ∙ sym from';
    keeps = λ r i. (change r, amend-In r rows i, change-id r);
  }

-- A row whose key is new.
pub Grows-append :
    (new : Audiobook) (rows : List Audiobook)
    → any (λ b. new.id == b.id) rows ≡ false
    → Grows rows (rows ++ new ∷ [])
Grows-append new rows fresh = record {
  keys =
      λ keys x y i j e. both keys x y e (In-append_cases x rows _ i) (In-append_cases y rows _ j);
  keeps = λ x i. (x, In-append_left x rows _ i, refl);
}
  where
    other : (x : Audiobook) → In x rows → new.id ≡ x.id → ⊥
    other x i e =
        cc (fresh, (any_iff (λ b. new.id == b.id) rows).1 (x, i, (nat_eq.same_iff _ _).0 e))

    both :
        HasKeys rows
        → (x y : Audiobook) → x.id ≡ y.id
        → In x rows ⊎ In x (new ∷ [])
        → In y rows ⊎ In y (new ∷ [])
        → x ≡ y
    both keys x y e (inl i) (inl j) = keys x y i j e
    both keys x y e (inl i) (inr (inl f)) = absurd (other x i (ap (λ b. b.id) (sym f) ∙ sym e))
    both keys x y e (inl i) (inr (inr j)) = absurd j
    both keys x y e (inr (inl f)) (inl j) = absurd (other y j (ap (λ b. b.id) (sym f) ∙ e))
    both keys x y e (inr (inl f)) (inr (inl g)) = f ∙ sym g
    both keys x y e (inr (inl f)) (inr (inr j)) = absurd j
    both keys x y e (inr (inr i)) j = absurd i

-- The operations of the table.
pub Reported-Grows :
    {B : Backend} {L : IsLawful B} (hash : List ℕ) (p : String) (t t' : Tables) (u : Update)
    → Reported B L hash p t t' u
    → Grows t.audiobooks t'.audiobooks
Reported-Grows hash p t t' u (right b _ _ e) = Grows-same (ap (λ t. t.audiobooks) e)
Reported-Grows hash p t t' u (moved b _ _ e) =
    rw e
      (Grows-amend (λ b. b.hash == hash) (λ b. record b { location = p }) (λ r. refl) t.audiobooks)
Reported-Grows hash p t t' u (missing _ e) = Grows-same (ap (λ t. t.audiobooks) e)
Reported-Grows hash p t t' u (unread _ _ e) = Grows-same (ap (λ t. t.audiobooks) e)

pub Ensured-Grows :
    {B : Backend} {L : IsLawful B} (l : Library) (p : String) (new : Audiobook) (t t' : Tables)
    (r : Audiobook)
    → Ensured B L l p new t t' r
    → Grows t.audiobooks t'.audiobooks
unfolding changeset
Ensured-Grows l p new t t' r (overwrote old _ _ e) = rw e (
    Grows-amend (λ x. x.id == old.id) (changeset (record new { id = old.id })) (λ r. refl)
      t.audiobooks)
Ensured-Grows l p new t t' r (inserted _ _ fresh e) = rw e (Grows-append new t.audiobooks fresh)
Ensured-Grows l p new t t' r (lost _ _ _ _ e) = Grows-same (ap (λ t. t.audiobooks) e)
