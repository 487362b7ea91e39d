-- ===== src/Mllt/Need.antt =====
-- When build_mllt of src/helpers/mllt.rs makes a table.
use vorleser_server.Prelude.{
  ℕ, ◌+◌, min, ◌≡◌, refl, sym, ◌≢◌, inl, inr, true, false, not, Option, none, some, List, [], ◌∷◌,
  if◌then◌else◌, ◌==◌, nat_eq, nat_beq_iff, Result, ok, err, ◌>>=◌, Bool-cases, Option-cases, ◌↔◌,
  All,
}
use vorleser_server.Mllt.{
  Mp3Frame, MlltError, incalculable_duration, Totals, no_frames, gather, check_vbr, add_duration,
  build_table, build_mllt,
}

-- All frames have the bit rate of the first, or the one that is given.
abbrev pub SameRate : Option ℕ → List Mp3Frame → Type 0
SameRate none [] = Unit
SameRate none (f ∷ fs) = All (λ g. g.bitrate ≡ f.bitrate) fs
SameRate (some r) fs = All (λ g. g.bitrate ≡ r) fs

abbrev pub HasDuration : Mp3Frame → Type 0
HasDuration f = (d : ℕ) × (f.duration ≡ some d)

-- What the first loop says.
data Gathered (t : Totals) (frames : List Mp3Frame) : Result MlltError Totals → Type 0 where
  gathered :
      (t' : Totals)
      → All HasDuration frames
      → (t'.is_vbr ≡ false) ↔ ((t.is_vbr ≡ false) × SameRate t.first_frame_bitrate frames)
      → Gathered t frames (ok t')
  unknown : ¬ All HasDuration frames → Gathered t frames (err incalculable_duration)

-- The bit rates seen so far, after one more frame.
check_lem :
    (f : Mp3Frame) (fs : List Mp3Frame) (t : Totals)
    → (((check_vbr f t).is_vbr ≡ false) × SameRate (check_vbr f t).first_frame_bitrate fs)
      ↔ ((t.is_vbr ≡ false) × SameRate t.first_frame_bitrate (f ∷ fs))
check_lem f fs t = elim (Bool-cases t.is_vbr) [
  | inl v ↦ rw v (λ h. absurd (differ h.0), λ h. absurd (differ h.0))
  | inr v ↦ elim (Option-cases t.first_frame_bitrate) [
    | inl o ↦ rw (v, o) (λ h. h, λ h. h)
    | inr (r, o) ↦ elim (Bool-cases (r == f.bitrate)) [
      | inl e ↦
          rw (v, o, e) (λ h. (refl, (sym ((nat_beq_iff r f.bitrate).0 e), h.1)), λ h. (refl, h.1.1))
      | inr e ↦
          rw (v, o, e) (λ h. absurd (differ h.0), λ h. cc ((nat_beq_iff r f.bitrate).1 (sym h.1.0)))
    ]
  ]
]
  where
    differ : true ≢ false
    differ e = cc

same_none : (o : Option ℕ) → SameRate o []
same_none none = tt
same_none (some r) = tt

-- One frame, and the frames after it.
add_frame :
    (f : Mp3Frame) (fs : List Mp3Frame) (t : Totals)
    → ((t₁ : Totals) → Gathered t₁ fs (gather fs t₁))
    → (o : Option ℕ) → f.duration ≡ o
    → Gathered t (f ∷ fs) (add_duration f (check_vbr f t) o >>= gather fs)
add_frame f fs t rest none n = unknown (λ h. cc (h.0.1))
add_frame f fs t rest (some d) n = extend (rest _)
  where
    t₁ : Totals
    t₁ = record (check_vbr f t) {
      num_frames = (check_vbr f t).num_frames + 1;
      duration = (check_vbr f t).duration + d;
      size = (check_vbr f t).size + f.size;
      smallest_frame = min (check_vbr f t).smallest_frame f.size;
    }

    extend : {r : Result MlltError Totals} → Gathered t₁ fs r → Gathered t (f ∷ fs) r
    extend (gathered t' known iff) =
        gathered t' ((d, n), known)
          (λ h. (check_lem f fs t).0 (iff.0 h), λ h. iff.1 ((check_lem f fs t).1 h))
    extend (unknown u) = unknown (λ h. u h.1)

gather_lem : (frames : List Mp3Frame) (t : Totals) → Gathered t frames (gather frames t)
unfolding gather
gather_lem [] t = gathered t tt (λ h. (h, same_none t.first_frame_bitrate), λ h. h.0)
gather_lem (f ∷ fs) t = add_frame f fs t (gather_lem fs) f.duration refl

-- No table is made exactly if every frame has a duration and all have the same bit rate.
pub build_mllt_iff :
    (frames : List Mp3Frame)
    → (build_mllt frames ≡ ok none) ↔ (All HasDuration frames × SameRate none frames)
unfolding build_mllt
build_mllt_iff frames = decided (gather_lem frames no_frames)
  where
    table_or_not : Totals → Result MlltError (Option (List ℕ))
    table_or_not t =
        if not t.is_vbr then ok none else (build_table frames t >>= λ res. ok (some res))

    made :
        (r : Result MlltError (List ℕ))
        → (let made : Result MlltError (Option (List ℕ)) = r >>= λ res. ok (some res) in made)
          ≢ ok none
    made (ok res) e = cc
    made (err x) e = cc

    decided :
        {r : Result MlltError Totals}
        → Gathered no_frames frames r
        → ((r >>= table_or_not) ≡ ok none) ↔ (All HasDuration frames × SameRate none frames)
    decided (unknown u) = (λ h. cc, λ h. absurd (u h.0))
    decided (gathered t known iff) = elim (Bool-cases t.is_vbr) [
      | inr v ↦ rw v (λ h. (known, (iff.0 v).1), λ h. refl)
      | inl v ↦ rw v (λ h. absurd (made _ h), λ h. cc (iff.1 (refl, h.1)))
    ]
