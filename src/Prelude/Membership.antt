-- ===== src/Prelude/Membership.antt =====
-- Membership in lists, with the position kept.
use vorleser_server.Prelude.Lists.{In, filter, find, any}
use vorleser_server.Prelude.Tests.{if◌then◌else◌, Bool-cases}
use mathlib.Core.Option.{none, some}
use mathlib.Core.Path.{◌≡◌, refl, ap, sym, ◌∙◌}
use mathlib.Core.Bool.{Bool, true, false}
use mathlib.Core.Logic.{◌⊎◌, inl, inr, ◌↔◌}
use mathlib.Core.List.{List, [], ◌∷◌, ◌++◌, map}
use native.Mathlib.Omega.{arith}

pub In-append_left : {A : Type 0} (a : A) (xs ys : List A) → In a xs → In a (xs ++ ys)
In-append_left a [] ys h = absurd h
In-append_left a (x ∷ xs) ys (inl e) = inl e
In-append_left a (x ∷ xs) ys (inr h) = inr (In-append_left a xs ys h)

pub In-append_right : {A : Type 0} (a : A) (xs ys : List A) → In a ys → In a (xs ++ ys)
In-append_right a [] ys h = h
In-append_right a (x ∷ xs) ys h = inr (In-append_right a xs ys h)

pub In-append_cases : {A : Type 0} (a : A) (xs ys : List A) → In a (xs ++ ys) → In a xs ⊎ In a ys
In-append_cases a [] ys h = inr h
In-append_cases a (x ∷ xs) ys (inl e) = inl (inl e)
In-append_cases a (x ∷ xs) ys (inr h) = shift (In-append_cases a xs ys h)
  where
    shift : In a xs ⊎ In a ys → In a (x ∷ xs) ⊎ In a ys
    shift (inl h) = inl (inr h)
    shift (inr h) = inr h

pub In-map : {A B : Type 0} (f : A → B) (a : A) (xs : List A) → In a xs → In (f a) (map f xs)
In-map f a [] h = absurd h
In-map f a (x ∷ xs) (inl e) = inl (ap f e)
In-map f a (x ∷ xs) (inr h) = inr (In-map f a xs h)

pub In-filter :
    {A : Type 0} (p : A → Bool) (a : A) (xs : List A)
    → In a (filter p xs) ↔ (In a xs × (p a ≡ true))
In-filter p a [] = (λ h. absurd h, λ h. h.0)
In-filter p a (x ∷ xs) = elim (Bool-cases (p x)) [
  | inl e ↦ rw e (kept e (In-filter p a xs))
  | inr e ↦ rw e (dropped e (In-filter p a xs))
]
  where
    kept :
        p x ≡ true
        → In a (filter p xs) ↔ (In a xs × (p a ≡ true))
        → ((a ≡ x) ⊎ In a (filter p xs)) ↔ (((a ≡ x) ⊎ In a xs) × (p a ≡ true))
    kept e ih = (
      elim [ inl f ↦ (inl f, ap p f ∙ e) | inr h ↦ (inr (ih.0 h).0, (ih.0 h).1) ],
      λ (h, t). elim h [ inl f ↦ inl f | inr k ↦ inr (ih.1 (k, t)) ],
    )

    dropped :
        p x ≡ false
        → In a (filter p xs) ↔ (In a xs × (p a ≡ true))
        → In a (filter p xs) ↔ (((a ≡ x) ⊎ In a xs) × (p a ≡ true))
    dropped e ih = (
      λ h. (inr (ih.0 h).0, (ih.0 h).1),
      λ (h, t). elim h [ inl f ↦ cc (ap p f) | inr k ↦ ih.1 (k, t) ],
    )

pub any_iff :
    {A : Type 0} (p : A → Bool) (xs : List A)
    → (any p xs ≡ true) ↔ ((x : A) × In x xs × (p x ≡ true))
any_iff p [] = (λ h. cc, λ h. absurd h.1)
any_iff p (x ∷ xs) = elim (Bool-cases (p x)) [
  | inl e ↦ (λ h. (x, inl refl, e), λ h. rw e)
  | inr e ↦ (
    λ h. let (y, i, t) = (any_iff p xs).0 (rw e at h) in (y, inr i, t),
    λ (y, i, t). rw e (elim i [ inl f ↦ cc (ap p f) | inr k ↦ (any_iff p xs).1 (y, k, t) ]),
  )
]

pub find-none :
    {A : Type 0} (p : A → Bool) (xs : List A) → find p xs ≡ none → (x : A) → In x xs → p x ≡ false
find-none p [] h x i = absurd i
find-none p (y ∷ xs) h x (inl e) = ap p e ∙ ground arith
find-none p (y ∷ xs) h x (inr i) = find-none p xs (ground arith) x i

pub find-some :
    {A : Type 0} (p : A → Bool) (xs : List A) (a : A) → find p xs ≡ some a → In a xs × (p a ≡ true)
find-some p [] a h = cc
find-some p (y ∷ xs) a h = elim (Bool-cases (p y)) [
  | inl e ↦ let f : y ≡ a = ground arith in (inl (sym f), ap p (sym f) ∙ e)
  | inr e ↦ let (i, t) = find-some p xs a (ground arith) in (inr i, t)
]

pub find-append :
    {A : Type 0} (p : A → Bool) (xs ys : List A)
    → find p (xs ++ ys) ≡ (if any p xs then find p xs else find p ys)
find-append p [] ys = refl
find-append p (x ∷ xs) ys = ground (arith, find-append p xs ys)
