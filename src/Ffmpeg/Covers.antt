-- ===== src/Ffmpeg/Covers.antt =====
-- The cover of a media file: get_coverart of src/worker/mediafile.rs, over FFmpeg's laws.
use vorleser_server.Prelude.{
  ℕ, zero, suc, ◌<◌, ◌≡◌, refl, ap, sym, subst, ◌∙◌, Option, none, some, List, [], ◌∷◌, length,
  find, ◌==◌, nat_eq, Option-cases, inl, inr, Result, err, arith,
}
use vorleser_server.Prelude.Int.{ℤ, pos, negsuc, int_eq}
use vorleser_server.Errors.{Fault, failed, panicked, out_of_fuel}
use vorleser_server.Exec.Ends.{Ends, returns, fails, Ends-bind, Ends-mono, Ends-handled}
use vorleser_server.Worker.Host.{Image, ImageType}
use vorleser_server.Ffmpeg.{Ffmpeg, video, AvStream, AvPacket}
use vorleser_server.Ffmpeg.MediaFile.{
  MediaFile, nth, drop_media_file, image_type_of, image_in, seen, find_image, or_no_image,
  get_coverart,
}
use vorleser_server.Ffmpeg.Frames.{Files, IsFramed}
use vorleser_server.Ffmpeg.Reading.{
  Stops, Unfound, read_packet_lem, left_to_read, shorter, get_best_stream_outcome,
}

-- The first packet of the stream, if the stream holds PNG or JPEG images.
abbrev pub image_from : ImageType → Option AvPacket → Option Image
image_from image_type none = none
image_from image_type (some p) =
    some (record { data_bytes = p.data_bytes; image_type = image_type })

abbrev pub image_on : AvStream → Option ImageType → List AvPacket → Option Image
image_on best none ps = none
image_on best (some image_type) ps =
    image_from image_type (find (λ p. p.stream_index == best.index) ps)

abbrev pub cover_on : Option AvStream → List AvPacket → Option Image
cover_on none ps = none
cover_on (some best) ps = image_on best (image_type_of best.codec_id) ps

-- The cover in the best video stream, if there is one.
abbrev pub cover_at : Files → ℕ → ℤ → Option Image
cover_at v c (negsuc n) = none
cover_at v c (pos n) = cover_on (nth (v.streams c) n) (v.frames c)

abbrev pub cover : Files → ℕ → Option Image
cover v c = cover_at v c (v.best video c)

module _ {S : Type 0} (F : Ffmpeg S) (L : IsFramed F) where
  open L use {view}

  abbrev IsImage : Option Image → Option Image → S → Type 0
  IsImage expected image s = image ≡ expected

  image_on-nil : (best : AvStream) (o : Option ImageType) → none ≡ image_on best o []
  image_on-nil best none = refl
  image_on-nil best (some t) = refl

  image_on-seen :
      (best : AvStream) (o : Option ImageType) (p : AvPacket) (ps : List AvPacket)
      (i : Option Image)
      → image_in best o p ≡ some i
      → i ≡ image_on best o (p ∷ ps)
  image_on-seen best none p ps i h = cc
  image_on-seen best (some t) p ps i h = ground arith

  image_on-unseen :
      (best : AvStream) (o : Option ImageType) (p : AvPacket) (ps : List AvPacket)
      → image_in best o p ≡ none
      → image_on best o ps ≡ image_on best o (p ∷ ps)
  image_on-unseen best none p ps h = refl
  image_on-unseen best (some t) p ps h = ground arith

  find_image_lem :
      (fuel : ℕ) (f : MediaFile) (best : AvStream) (ps : List AvPacket) (s : S)
      → (view s).frames f.ctx ≡ ps
      → length ps < fuel
      → Ends
          (IsImage (image_on best (image_type_of best.codec_id) ps))
          Stops
          (find_image F fuel f best s)
  unfolding find_image
  find_image_lem zero f best ps s e h = absurd (omega arith)
  find_image_lem (suc fuel) f best ps s e h =
      Ends-bind _ (read_packet_lem F L f s)
        (elim [
          | none ↦ λ s' (n, _). returns none s' (
              subst (λ (l : List AvPacket). none ≡ image_on best (image_type_of best.codec_id) l)
                (sym n ∙ e) (image_on-nil best (image_type_of best.codec_id)))
          | some p ↦ λ s' (ps', n, w). elim (Option-cases (seen best (some p))) [
            | inl h' ↦ rw h' (
                Ends-mono
                  (find_image_lem fuel f best ps' s' (left_to_read F L f.ctx (view s) _ ps' s' w)
                    (shorter F L p ps' fuel (sym e ∙ n) h))
                  (λ _ _ q.
                    q
                    ∙ image_on-unseen best (image_type_of best.codec_id) p ps' h'
                    ∙ ap (image_on best (image_type_of best.codec_id)) (sym n ∙ e))
                  (λ _ _ e. e))
            | inr (i, h') ↦ rw h' (
                returns i s' (
                  image_on-seen best (image_type_of best.codec_id) p ps' i h'
                  ∙ ap (image_on best (image_type_of best.codec_id)) (sym n ∙ e)))
          ]
        ])
        (λ _ _ e. e)

  dropped :
      (f : MediaFile) {expected : Option Image} {r : Result Fault (Option Image) × S}
      → Ends (IsImage expected) Stops r
      → Ends (IsImage expected) Stops (let (a, s) = r in (a, drop_media_file F f s))
  dropped f (returns a s q) = returns a _ q
  dropped f (fails e s q) = fails e _ q

  Unfound-none :
      (fuel : ℕ) (f : MediaFile) (v : Files) (e : Fault) (s : S)
      → Unfound F L video v f.ctx e s
      → Ends (IsImage (cover v f.ctx)) Stops (or_no_image F fuel f (err e) s)
  Unfound-none fuel f v (failed e) s (n, b) = returns none s (rw b refl)
  Unfound-none fuel f v (panicked text) s u = fails _ s tt
  Unfound-none fuel f v out_of_fuel s u = absurd u

  -- With fuel above the number of frames that the file has still to give, get_coverart ends, and
  -- unless it returns an error or panics, its value is the first packet of the best video stream, as a PNG or
  -- JPG image by the stream's codec, and no image if there is no video stream, if its codec is
  -- neither of the two, or if it has no packet.
  pub get_coverart_outcome :
      (fuel : ℕ) (f : MediaFile) (s : S)
      → length ((view s).frames f.ctx) < fuel
      → Ends (λ image _. image ≡ cover (view s) f.ctx) Stops (get_coverart F fuel f s)
  unfolding get_coverart
  get_coverart_outcome fuel f s h = dropped f (
      Ends-handled (or_no_image F fuel f) (get_best_stream_outcome F L video f s)
        (λ best s' ((n, b, found), same).
          Ends-mono
            (find_image_lem fuel f best ((view s).frames f.ctx) s'
              (ap (λ (u : Files). u.frames f.ctx) same) h)
            (λ _ _ q. rw (b, found) q) (λ _ _ e. e))
        (Unfound-none fuel f (view s)))
