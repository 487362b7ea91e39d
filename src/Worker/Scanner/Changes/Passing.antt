-- ===== src/Worker/Scanner/Changes/Passing.antt =====
-- should_scan of src/worker/scanner.rs: when a path is passed over.
use vorleser_server.Prelude.{
  String, ◌≡◌, refl, sym, subst, ap, ◌∙◌, ◌⊎◌, inl, inr, ◌↔◌, ◌≢◌, ◌<◌, false, none, some, List, [],
  ◌∷◌, All, nat_eq, string_eq, bytes_eq, bool_eq, ltb, Result, ok, err, arith, Bool-cases,
  Result-cases, ◌>>=◌,
}
use vorleser_server.Errors.{Failure}
use vorleser_server.Db.{NaiveDateTime}
use vorleser_server.Worker.Host.{Host, entries}
use vorleser_server.Worker.Scanner.Changes.{should_scan}
use vorleser_server.Worker.Scanner.Changes.{collect_times, latest, most_recent_change, is_due}

abbrev or_same : {A : Type 0} → A → Result Failure A → A
or_same a (ok b) = b
or_same a (err _) = a

ok-injective : {A : Type 0} {a b : A} → (let r : Result Failure A = ok a in r) ≡ ok b → a ≡ b
ok-injective {a} e = ap (or_same a) e

module _ {S : Type 0} (H : Host S) where
  -- The entry was readable, and changed last before the time.
  abbrev pub ChangedBefore : NaiveDateTime → S → Result Failure String → Type 0
  ChangedBefore l s (err _) = ⊥
  ChangedBefore l s (ok p) = (t : NaiveDateTime) × (H.modified p s ≡ ok t) × (t < l)

  -- What was collected, if anything was.
  data Collected (l : NaiveDateTime) (s : S) (es : List (Result Failure String))
      : Result Failure (List NaiveDateTime) → Type 0 where
    times :
        (ts : List NaiveDateTime)
        → (es ≡ []) ↔ (ts ≡ [])
        → All (ChangedBefore l s) es ↔ All (λ t. t < l) ts
        → Collected l s es (ok ts)
    unreadable : (e : Failure) → ¬ All (ChangedBefore l s) es → Collected l s es (err e)

  collect_lem :
      (l : NaiveDateTime) (s : S) (es : List (Result Failure String))
      → Collected l s es (collect_times H es s)
  unfolding collect_times
  collect_lem l s [] = times [] (λ _. refl, λ _. refl) (λ a. a, λ a. a)
  collect_lem l s (err e ∷ es) = unreadable e (λ a. a.0)
  collect_lem l s (ok p ∷ es) = elim (Result-cases (H.modified p s)) [
    | inr (e, m) ↦ rw m (unreadable e (λ a. cc (a.0.1)))
    | inl (t, m) ↦ rw m (one_more l s p es t m (collect_lem l s es))
  ]
    where
      one_more :
          (l : NaiveDateTime) (s : S) (p : String) (es : List (Result Failure String))
          (t : NaiveDateTime)
          → H.modified p s ≡ ok t
          → {r : Result Failure (List NaiveDateTime)} → Collected l s es r
          → Collected l s (ok p ∷ es) (r >>= λ ts. ok (t ∷ ts))
      one_more l s p es t m (unreadable e n) = unreadable e (λ a. n a.1)
      one_more l s p es t m (times ts n a) =
          times (t ∷ ts) (λ e. cc, λ e. cc) (λ b. (own b.0, a.0 b.1), λ b. ((t, m, b.0), a.1 b.1))
        where
          own : ChangedBefore l s (ok p) → t < l
          own (u, m', h) = subst (λ u. u < l) (ok-injective (sym m' ∙ m)) h

  -- The latest of some times, if there are any, decides for all of them.
  latest_lem :
      (ts : List NaiveDateTime)
      → ((ts ≡ []) × (latest H ts ≡ none))
        ⊎ ((m : NaiveDateTime) × (latest H ts ≡ some m)
            × (ts ≢ [])
            × ((l : NaiveDateTime) → (m < l) ↔ All (λ t. t < l) ts))
  latest_lem [] = inl (refl, refl)
  latest_lem (t ∷ ts) = elim (latest_lem ts) [
    | inl (e, n) ↦
        inr
          (t, rw n refl, (λ e. cc), λ l. (λ h. (h, subst (All (λ t. t < l)) (sym e) tt), λ h. h.0))
    | inr (m, n, _, iff) ↦ elim (Bool-cases (ltb m t)) [
      | inl b ↦ inr (
        t,
        rw (n, b) refl,
        (λ e. cc),
        λ l. (λ h. (h, (iff l).0 (ground (arith, b, h))), λ h. h.0),
      )
      | inr b ↦ inr (
        m,
        rw (n, b) refl,
        (λ e. cc),
        λ l. (λ h. (ground (arith, b, h), (iff l).0 h), λ h. (iff l).1 h.1),
      )
    ]
  ]

  decided :
      (l : NaiveDateTime) (s : S) (es : List (Result Failure String))
      {r : Result Failure (List NaiveDateTime)}
      → Collected l s es r
      → (((r >>= λ ts. ok (latest H ts)) >>= λ t. ok (is_due H t (some l))) ≡ ok false)
        ↔ ((es ≢ []) × All (ChangedBefore l s) es)
  decided l s es (unreadable e n) = (λ h. cc, λ h. absurd (n h.1))
  decided l s es (times ts n a) = elim (latest_lem ts) [
    | inl (e, nothing_left) ↦ rw nothing_left (λ h. cc, λ h. absurd (h.0 (n.1 e)))
    | inr (m, e, some_left, iff) ↦ rw e (
      λ h. (
        λ none_left. some_left (n.0 none_left),
        a.1 ((iff l).0 (ground (arith, ok-injective h))),
      ),
      λ h. ap ok (ground (arith, (iff l).1 (a.0 h.1))),
    )
  ]

  -- With an earlier scan at `last`, a path is passed over exactly if the walk of it yields something,
  -- and everything that it yields is readable and changed last before that scan.
  pub should_scan_iff :
      (path : String) (last : NaiveDateTime) (s : S)
      → (should_scan H path (some last) s ≡ ok false)
        ↔ ((entries (H.walk path s) ≢ []) × All (ChangedBefore last s) (entries (H.walk path s)))
  unfolding should_scan most_recent_change
  should_scan_iff path last s = decided last s _ (collect_lem last s (entries (H.walk path s)))
