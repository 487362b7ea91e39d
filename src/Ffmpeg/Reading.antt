-- ===== src/Ffmpeg/Reading.antt =====
-- Reading the packets of a media file and finding its best stream: read_packet and get_best_stream of
-- src/worker/mediafile.rs, over FFmpeg's laws.
use vorleser_server.Prelude.{
  ℕ, suc, ◌<◌, String, ◌≡◌, refl, ap, sym, ◌∙◌, Option, none, some, List, [], ◌∷◌, length, ◌==◌,
  nat_eq, Bool-cases, Option-cases, inl, inr, arith,
}
use vorleser_server.Prelude.Int.{ℤ, pos, negsuc, int_eq, pos_part}
use vorleser_server.Errors.{Fault, failed, panicked, out_of_fuel}
use vorleser_server.Exec.{continue, attempt}
use vorleser_server.Exec.Ends.{Ends, returns, fails, Ends-mono}
use vorleser_server.Ffmpeg.{AvMediaType, Ffmpeg, AvStream, AvPacket, averror_eof}
use vorleser_server.Ffmpeg.MediaFile.{
  MediaFile, nth, read_packet, or_end, get_best_stream, or_panic,
}
use vorleser_server.Ffmpeg.Util.{check_av_result}
use vorleser_server.Ffmpeg.Frames.{Files, Written, updated, Reads, next, end, broken, IsFramed}

-- A call that stops with an error or a panic, and not for lack of fuel.
abbrev pub Stopped : Fault → Type 0
Stopped (failed e) = Unit
Stopped (panicked text) = Unit
Stopped out_of_fuel = ⊥

abbrev pub Stops : {S : Type 0} → Fault → S → Type 0
Stops e s = Stopped e

module _ {S : Type 0} (F : Ffmpeg S) (L : IsFramed F) where
  open L use {view}

  -- What reading a packet ends with.
  abbrev pub Took : ℕ → Files → Option AvPacket → S → Type 0
  Took c v none s = (v.frames c ≡ []) × (view s ≡ v)
  Took c v (some p) s =
      (ps : List AvPacket) × (v.frames c ≡ p ∷ ps)
      × (view s ≡ record v { frames = updated c ps v.frames })

  taken :
      (c : ℕ) (v : Files) {r : (ℤ × AvPacket) × S}
      → Reads view c v r
      → Ends
          (Took c v)
          Stops
          (let ((code, pkt), s') = r in attempt (check_av_result F code) (or_end pkt) s')
  taken c v (next code p ps s e w) = returns (some p) s (ps, e, w)
  taken c v (end p s e w) = returns none s (e, w)
  taken c v (broken n p s b) = elim (Bool-cases (negsuc n == averror_eof)) [
    | inl e ↦ absurd (b ((int_eq.same_iff _ _).1 e))
    | inr e ↦ rw e (fails _ s tt)
  ]

  pub read_packet_lem :
      (f : MediaFile) (s : S) → Ends (Took f.ctx (view s)) Stops (read_packet F f s)
  unfolding read_packet
  read_packet_lem f s = taken f.ctx (view s) (L.read_law f.ctx s)

  pub left_to_read :
      (c : ℕ) (v : Files) (w : List Written) (ps : List AvPacket) (s : S)
      → view s ≡ record v { frames = updated c ps v.frames; written = w }
      → (view s).frames c ≡ ps
  left_to_read c v w ps s e =
      ap (λ (u : Files). u.frames c) e ∙ rw ((nat_eq.same_iff c c).0 refl) refl

  pub shorter :
      {ps : List AvPacket} (p : AvPacket) (ps' : List AvPacket) (fuel : ℕ)
      → ps ≡ p ∷ ps'
      → length ps < suc fuel
      → length ps' < fuel
  shorter p ps' fuel n h = omega (arith, ap length n)

  pub or_panic_lem :
      {A : Type 0} (text : String) (o : Option A) (s : S)
      → Ends (λ a s'. (o ≡ some a) × (s' ≡ s)) Stops (or_panic text o s)
  or_panic_lem text none s = fails _ s tt
  or_panic_lem text (some a) s = returns a s (refl, refl)

  abbrev pub IsBest : AvMediaType → Files → ℕ → AvStream → Type 0
  IsBest t v c best = (n : ℕ) × (v.best t c ≡ pos n) × (nth (v.streams c) n ≡ some best)

  -- A best stream that is not found has no index.
  abbrev pub Unfound : AvMediaType → Files → ℕ → Fault → S → Type 0
  Unfound t v c (failed e) s = (n : ℕ) × (v.best t c ≡ negsuc n)
  Unfound t v c (panicked text) s = Unit
  Unfound t v c out_of_fuel s = ⊥

  best_of_code :
      (t : AvMediaType) (f : MediaFile) (s : S) (code : ℤ)
      → code ≡ (view s).best t f.ctx
      → Ends
          (λ best s'. IsBest t (view s) f.ctx best × (view s' ≡ view s))
          (Unfound t (view s) f.ctx)
          (continue
            (λ n s. or_panic "index out of bounds" (nth (F.streams f.ctx s) (pos_part n)) s)
            (check_av_result F code s))
  best_of_code t f s (negsuc n) e = fails _ s (n, sym e)
  best_of_code t f s (pos n) e = elim (Option-cases (nth (F.streams f.ctx s) n)) [
    | inl missing ↦ rw missing (fails _ s tt)
    | inr (best, found) ↦
        rw found (returns best s ((n, sym e, rw (← L.streams_law f.ctx s) found), refl))
  ]

  pub get_best_stream_outcome :
      (t : AvMediaType) (f : MediaFile) (s : S)
      → Ends
          (λ best s'. IsBest t (view s) f.ctx best × (view s' ≡ view s))
          (Unfound t (view s) f.ctx)
          (get_best_stream F f t s)
  unfolding get_best_stream
  get_best_stream_outcome t f s =
      best_of_code t f s (F.av_find_best_stream f.ctx t s) (L.best_law f.ctx t s)

  Unfound-Stops :
      (t : AvMediaType) (v : Files) (c : ℕ) (e : Fault) (s : S) → Unfound t v c e s → Stopped e
  Unfound-Stops t v c (failed e) s u = tt
  Unfound-Stops t v c (panicked text) s u = tt
  Unfound-Stops t v c out_of_fuel s u = u

  pub get_best_stream_lem :
      (t : AvMediaType) (f : MediaFile) (s : S)
      → Ends
          (λ best s'. IsBest t (view s) f.ctx best × (view s' ≡ view s))
          Stops
          (get_best_stream F f t s)
  get_best_stream_lem t f s =
      Ends-mono (get_best_stream_outcome t f s) (λ _ _ q. q) (Unfound-Stops t (view s) f.ctx)
