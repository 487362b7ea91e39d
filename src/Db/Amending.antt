-- ===== src/Db/Amending.antt =====
-- Updates of rows, one after another.
use vorleser_server.Prelude.{
  ◌≡◌, refl, sym, inl, inr, Bool, true, false, ◌||◌, List, [], ◌∷◌, ◌++◌, any, In, if◌then◌else◌,
  nat_eq, string_eq, bytes_eq, bool_eq, arith,
}
use vorleser_server.Db.Lawful.{amend}

pub any-append :
    {R : Type 0} (p : R → Bool) (xs : List R) (y : R) → any p (xs ++ y ∷ []) ≡ (any p xs || p y)
any-append p [] y = ground arith
any-append p (x ∷ xs) y = ground (arith, any-append p xs y)

-- Two updates of the same kind in a row are one.
pub amend-amend :
    {R : Type 0} (p p' q : R → Bool) (f : R → R)
    → ((r : R)
        → (if p' (if p r then f r else r)
            then f (if p r then f r else r)
            else (if p r then f r else r))
          ≡ (if q r then f r else r))
    → (rows : List R) → amend p' f (amend p f rows) ≡ amend q f rows
amend-amend p p' q f h [] = refl
amend-amend p p' q f h (r ∷ rows) = rw (h r, amend-amend p p' q f h rows) refl

pub amend-congr :
    {R : Type 0} (p q : R → Bool) (f : R → R) (rows : List R)
    → ((r : R) → In r rows → p r ≡ q r)
    → amend p f rows ≡ amend q f rows
amend-congr p q f [] h = refl
amend-congr p q f (r ∷ rows) h =
    rw (h r (inl refl), amend-congr p q f rows (λ x i. h x (inr i))) refl

pub amend-none :
    {R : Type 0} {p : R → Bool} (f : R → R) (rows : List R)
    → ((r : R) → p r ≡ false)
    → amend p f rows ≡ rows
amend-none f [] h = refl
amend-none f (r ∷ rows) h = rw (h r, amend-none f rows h) refl

pub bool_of_iff : (a b : Bool) → (a ≡ true → b ≡ true) → (b ≡ true → a ≡ true) → a ≡ b
bool_of_iff true b f g = sym (f refl)
bool_of_iff false true f g = g refl
bool_of_iff false false f g = refl
