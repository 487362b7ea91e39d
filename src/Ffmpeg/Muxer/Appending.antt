-- ===== src/Ffmpeg/Muxer/Appending.antt =====
-- The loop of merge_files in src/worker/muxer.rs over its files.
use vorleser_server.Prelude.{
  ℕ, ◌<◌, ◌≡◌, refl, ◌≢◌, ap, sym, subst, ◌∙◌, List, [], ◌∷◌, ◌++◌, map, length, All, ◌==◌, nat_eq,
  string_eq, Bool-cases, inl, inr, append-nil, append_assoc,
}
use vorleser_server.Prelude.Int.{ℤ, pos, negsuc, int_eq, add_i64}
use vorleser_server.Exec.{pure, continue}
use vorleser_server.Exec.Ends.{Ends, returns, fails, Ends-bind, Ends-mono}
use vorleser_server.Ffmpeg.{Ffmpeg, audio}
use vorleser_server.Ffmpeg.MediaFile.{MediaFile, get_best_stream}
use vorleser_server.Ffmpeg.Util.{check_av_result}
use vorleser_server.Ffmpeg.Reading.{Stops, get_best_stream_lem}
use vorleser_server.Ffmpeg.Muxer.{NewMediaFile, append_files, copy_packets}
use vorleser_server.Ffmpeg.Frames.{
  Files, updated, IsFramed, playing_time_from, track, tracks, shifted, joined, Written, Distinct,
}
use vorleser_server.Ffmpeg.Muxer.Copying.{copy_packets_lem}

module _ {S : Type 0} (F : Ffmpeg S) (L : IsFramed F) where
  open L use {view}

  -- What neither reads nor writes a frame.
  abbrev pub Quiet : {A : Type 0} → Files → A → S → Type 0
  Quiet v a s = view s ≡ v

  pub coded :
      {A : Type 0} (v : Files) (a : A) (code : ℤ) (s : S)
      → view s ≡ v
      → Ends (Quiet v) Stops (continue (λ _. pure a) (check_av_result F code s))
  coded v a (pos n) s e = returns a s e
  coded v a (negsuc n) s e = fails _ s tt

  -- Copying one file leaves the others as they are.
  abbrev Copies : Files → ℕ → List Written → Files
  Copies v c w = record v { frames = updated c [] v.frames; written = w }

  tracks_after :
      (v : Files) (c : ℕ) (w : List Written) (fs : List MediaFile)
      → All (λ f. f.ctx ≢ c) fs
      → tracks (Copies v c w) fs ≡ tracks v fs
  tracks_after v c w [] d = refl
  tracks_after v c w (f ∷ fs) (n, d) = elim (Bool-cases (f.ctx == c)) [
    | inl e ↦ absurd (n ((nat_eq.same_iff _ _).1 e))
    | inr e ↦ rw e (ap (λ ts. track v f.ctx ∷ ts) (tracks_after v c w fs d))
  ]

  abbrev pub Enough : ℕ → Files → List MediaFile → Type 0
  Enough fuel v fs = All (λ f. length (v.frames f.ctx) < fuel) fs

  Enough-after :
      (fuel : ℕ) (v : Files) (c : ℕ) (w : List Written) (fs : List MediaFile)
      → All (λ f. f.ctx ≢ c) fs
      → Enough fuel v fs
      → Enough fuel (Copies v c w) fs
  Enough-after fuel v c w [] d h = tt
  Enough-after fuel v c w (f ∷ fs) (n, d) (h, hs) = elim (Bool-cases (f.ctx == c)) [
    | inl e ↦ absurd (n ((nat_eq.same_iff _ _).1 e))
    | inr e ↦ rw e (h, Enough-after fuel v c w fs d hs)
  ]

  -- What one file leaves behind.
  abbrev One : ℕ → ℤ → Files → ℕ → ℤ → S → Type 0
  One o offset v c t s =
      (t ≡ playing_time_from (pos 0) (track v c))
      × (view s ≡ Copies v c (v.written ++ map (shifted o offset) (track v c)))

  One-file :
      (fuel : ℕ) (out : NewMediaFile) (offset : ℤ) (f : MediaFile) (s : S)
      → length ((view s).frames f.ctx) < fuel
      → Ends (One out.ctx offset (view s) f.ctx) Stops (
          continue
            (λ best. copy_packets F fuel out f best offset (pos 0))
            (get_best_stream F f audio s))
  One-file fuel out offset f s h =
      Ends-bind (λ best. copy_packets F fuel out f best offset (pos 0))
        (get_best_stream_lem F L audio f s)
        (λ best s₁ ((n, b, found), same).
          Ends-mono
            (copy_packets_lem F L out best offset fuel f ((view s).frames f.ctx) (pos 0) s₁
              (ap (λ (u : Files). u.frames f.ctx) same) h)
            (λ t s₂ (et, w). rw (b, found) (et, rw same at w)) (λ _ _ e. e))
        (λ _ _ e. e)

  abbrev pub Appended : ℕ → ℤ → Files → List MediaFile → S → Type 0
  Appended o offset v fs s = (view s).written ≡ v.written ++ joined o offset (tracks v fs)

  -- A file and the files after it.
  Appended-after :
      (o : ℕ) (offset t : ℤ) (v : Files) (f : MediaFile) (fs : List MediaFile) (s s' : S)
      → All (λ g. g.ctx ≢ f.ctx) fs
      → One o offset v f.ctx t s
      → Appended o (add_i64 offset t) (view s) fs s'
      → Appended o offset v (f ∷ fs) s'
  Appended-after o offset t v f fs s s' n (et, w) e =
      e
      ∙ (λ i. (w i).written ++ joined o (add_i64 offset (et i)) (tracks (w i) fs))
      ∙ append_assoc v.written first _
      ∙ ap
          (λ ts.
            v.written
            ++ (first ++ joined o (add_i64 offset (playing_time_from (pos 0) (track v f.ctx))) ts))
          (tracks_after v f.ctx (v.written ++ first) fs n)
    where
      first : List Written
      first = map (shifted o offset) (track v f.ctx)

  pub append_files_lem :
      (fuel : ℕ) (out : NewMediaFile) (offset : ℤ) (fs : List MediaFile) (s : S)
      → Distinct fs
      → Enough fuel (view s) fs
      → Ends (λ _. Appended out.ctx offset (view s) fs) Stops (append_files F fuel out offset fs s)
  unfolding append_files
  append_files_lem fuel out offset [] s d h = returns tt s (sym (append-nil _))
  append_files_lem fuel out offset (f ∷ fs) s (n, d) (h, hs) =
      Ends-bind _ (One-file fuel out offset f s h)
        (λ t s' one.
          Ends-mono
            (append_files_lem fuel out (add_i64 offset t) fs s' d (
              subst (λ (u : Files). Enough fuel u fs) (sym one.1)
                (Enough-after fuel (view s) f.ctx
                  ((view s).written ++ map (shifted out.ctx offset) (track (view s) f.ctx)) fs n
                  hs)))
            (λ _ s'' e. Appended-after out.ctx offset t (view s) f fs s' s'' n one e) (λ _ _ e. e))
        (λ _ _ e. e)
