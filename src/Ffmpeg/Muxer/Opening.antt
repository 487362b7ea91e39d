-- ===== src/Ffmpeg/Muxer/Opening.antt =====
-- The new file of src/worker/muxer.rs: opening it writes no frame.
use vorleser_server.Prelude.{
  ℕ, String, ◌≡◌, refl, ap, ◌∙◌, Bool, true, false, Option, none, some, if◌then◌else◌, ◌==◌, nat_eq,
  string_eq, Bool-cases, inl, inr,
}
use vorleser_server.Prelude.Int.{ℤ, int_eq}
use vorleser_server.Errors.{Fault}
use vorleser_server.Exec.{pure, raise}
use vorleser_server.Exec.Ends.{Ends, returns, fails, Ends-bind}
use vorleser_server.Ffmpeg.{Ffmpeg, AvCodecId, AvRational}
use vorleser_server.Ffmpeg.Util.{ensure_av_register_all}
use vorleser_server.Ffmpeg.Muxer.{
  NewMediaFile, checked, checked_out, set_options, add_stream, open_output, new, or_unknown,
}
use vorleser_server.Ffmpeg.Frames.{Files, IsFramed}
use vorleser_server.Ffmpeg.Reading.{Stopped, Stops, or_panic_lem}
use vorleser_server.Ffmpeg.Muxer.Appending.{Quiet, coded}

module _ {S : Type 0} (F : Ffmpeg S) (L : IsFramed F) where
  open L use {view}

  pub checked_lem :
      {v : Files} (f : S → ℤ × S) (s : S)
      → view (f s).1 ≡ v
      → Ends (Quiet F L v) Stops (checked F f s)
  checked_lem f s e = coded F L _ tt (f s).0 (f s).1 e

  checked_out_lem :
      {A : Type 0} {v : Files} (f : S → (ℤ × A) × S) (s : S)
      → view (f s).1 ≡ v
      → Ends (Quiet F L v) Stops (checked_out F f s)
  checked_out_lem f s e = coded F L _ (f s).0.1 (f s).0.0 (f s).1 e

  set_options_lem :
      (format : String) (ctx : ℕ) (v : Files) (s : S)
      → view s ≡ v
      → Ends (Quiet F L v) Stops (set_options F format ctx s)
  unfolding set_options
  set_options_lem format ctx v s q = elim (Bool-cases (format == "ipod")) [
    | inl e ↦ rw e (
        Ends-bind _
          (checked_lem (F.av_opt_set ctx "movflags" "faststart") s
            (L.option_law ctx "movflags" "faststart" s ∙ q))
          (λ _ s' w. returns false s' w) (λ _ _ e. e))
    | inr e ↦ rw e (returns (format == "mp3") s q)
  ]

  add_stream_lem :
      (ctx : ℕ) (codec : AvCodecId) (t : AvRational) (v : Files) (s : S)
      → view s ≡ v
      → Ends (Quiet F L v) Stops (add_stream F ctx codec t s)
  unfolding add_stream
  add_stream_lem ctx codec t v s e =
      Ends-bind _
        (or_panic_lem F L "unwrap" (F.avformat_new_stream ctx s).0 (F.avformat_new_stream ctx s).1)
        (λ n s' (_, same).
          returns tt _ (L.parameters_law ctx n t codec s' ∙ ap view same ∙ L.stream_law ctx s ∙ e))
        (λ _ _ e. e)

  -- The new file has the path that was given, and no frame was written.
  abbrev pub Opened : String → Files → NewMediaFile → S → Type 0
  Opened path v out s = (out.path ≡ path) × (view s ≡ v)

  open_output_lem :
      (path format : String) (codec : AvCodecId) (t : AvRational) (v : Files) (s : S)
      → view s ≡ v
      → Ends (Opened path v) Stops (open_output F path format codec t s)
  unfolding open_output
  open_output_lem path format codec t v s e =
      Ends-bind _
        (checked_out_lem (F.avformat_alloc_output_context2 format path) s
          (L.context_law format path s ∙ e))
        (λ ctx s₁ w₁.
          Ends-bind _ (set_options_lem format ctx v s₁ w₁)
            (λ is_mp3 s₂ w₂.
              Ends-bind _ (checked_out_lem (F.avio_open2 path) s₂ (L.open_law path s₂ ∙ w₂))
                (λ io s₃ w₃.
                  Ends-bind _
                    (add_stream_lem ctx codec t v (F.set_pb ctx io s₃) (L.pb_law ctx io s₃ ∙ w₃))
                    (λ _ s₄ w₄. returns _ s₄ (refl, w₄)) (λ _ _ e. e))
                (λ _ _ e. e))
            (λ _ _ e. e))
        (λ _ _ e. e)

  registered_lem :
      (v : Files) (s : S) → view s ≡ v → Ends (Quiet F L v) Stops (ensure_av_register_all F s)
  unfolding ensure_av_register_all
  registered_lem v s e = elim (Bool-cases (F.initialized s)) [
    | inl h ↦ rw h (returns tt s e)
    | inr h ↦ rw h (returns tt _ (L.initialized_law true s ∙ e))
  ]

  unless_lem :
      (b : Bool) (e : Fault) (v : Files) (s : S)
      → Stopped e
      → view s ≡ v
      → Ends (Quiet F L v) Stops ((if b then pure tt else raise e) s)
  unless_lem true e v s f h = returns tt s h
  unless_lem false e v s f h = fails e s f

  if_lem :
      (b : Bool) (e : Fault) (v : Files) (s : S)
      → Stopped e
      → view s ≡ v
      → Ends (Quiet F L v) Stops ((if b then raise e else pure tt) s)
  if_lem false e v s f h = returns tt s h
  if_lem true e v s f h = fails e s f

  or_unknown_lem :
      (o : Option String) (v : Files) (s : S)
      → view s ≡ v
      → Ends (Quiet F L v) Stops (or_unknown o s)
  or_unknown_lem none v s e = fails _ s tt
  or_unknown_lem (some f) v s e = returns f s e

  pub new_lem :
      (path : String) (codec : AvCodecId) (t : AvRational) (v : Files) (s : S)
      → view s ≡ v
      → Ends (Opened path v) Stops (new F path codec t s)
  unfolding new
  new_lem path codec t v s e =
      Ends-bind _ (registered_lem v s e)
        (λ _ s₁ w₁.
          Ends-bind _ (unless_lem (F.is_utf8 path) _ v s₁ tt w₁)
            (λ _ s₂ w₂.
              Ends-bind _ (if_lem (F.has_nul path) _ v s₂ tt w₂)
                (λ _ s₃ w₃.
                  Ends-bind _ (or_unknown_lem _ v s₃ w₃)
                    (λ format s₄ w₄. open_output_lem path format codec t v s₄ w₄) (λ _ _ e. e))
                (λ _ _ e. e))
            (λ _ _ e. e))
        (λ _ _ e. e)
