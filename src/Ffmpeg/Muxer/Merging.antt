-- ===== src/Ffmpeg/Muxer/Merging.antt =====
-- What merge_files of src/worker/muxer.rs makes of the frames of its files.
use vorleser_server.Prelude.{
  ℕ, String, ◌≡◌, refl, ◌≢◌, ap, sym, subst, ◌∙◌, List, [], ◌∷◌, ◌++◌, Bool-cases, inl, inr, err,
}
use vorleser_server.Prelude.Int.{pos}
use vorleser_server.Errors.{Fault, failed, panicked, out_of_fuel}
use vorleser_server.Exec.Ends.{Ends, returns, fails, Ends-bind, Ends-mono, Ends-handled}
use vorleser_server.Mllt.Tagging.{Id3, mlltify, mlltify-Kept}
use vorleser_server.Ffmpeg.{Ffmpeg, audio}
use vorleser_server.Ffmpeg.MediaFile.{MediaFile}
use vorleser_server.Ffmpeg.Muxer.{
  NewMediaFile, from_stream, write_header, write_trailer, fill, steps, or_remove, merge_files,
}
use vorleser_server.Ffmpeg.Frames.{Files, Written, IsFramed, tracks, joined, Distinct}
use vorleser_server.Ffmpeg.Reading.{Stopped, Stops, get_best_stream_lem}
use vorleser_server.Ffmpeg.Muxer.Appending.{Enough, Appended, append_files_lem}
use vorleser_server.Ffmpeg.Muxer.Opening.{checked_lem, new_lem}

module _ {S : Type 0} (F : Ffmpeg S) (L : IsFramed F) (I : Id3 S) (fuel : ℕ) where
  open L use {view}

  -- The tag of a file and its frames for playing are read and written without reading or writing
  -- packets through FFmpeg.
  pub record IsApart : Type 0 where
    pub read_law : (p : String) (s : S) → view (I.read_from_path p s).1 ≡ view s
    pub frames_law : (p : String) (s : S) → view (I.read_frames p s).1 ≡ view s
    pub write_law : (t : I.Tag) (p : String) (s : S) → view (I.write_to_path t p s).1 ≡ view s

  abbrev Wrote : {A : Type 0} → List Written → A → S → Type 0
  Wrote w a s = (view s).written ≡ w

  not_fuel-Stopped : (e : Fault) → e ≢ out_of_fuel → Stopped e
  not_fuel-Stopped (failed e) n = tt
  not_fuel-Stopped (panicked text) n = tt
  not_fuel-Stopped out_of_fuel n = n refl

  mlltify_lem :
      (w : List Written) (p : String) (s : S)
      → IsApart
      → (view s).written ≡ w
      → Ends (Wrote w) Stops (mlltify I p s)
  mlltify_lem w p s M e =
      Ends-mono
        (mlltify-Kept I (λ s. (view s).written ≡ w)
          (λ p s h. ap (λ (u : Files). u.written) (M.read_law p s) ∙ h)
          (λ p s h. ap (λ (u : Files). u.written) (M.frames_law p s) ∙ h)
          (λ t p s h. ap (λ (u : Files). u.written) (M.write_law t p s) ∙ h) p s e)
        (λ _ _ h. h) (λ e s h. not_fuel-Stopped e h.1)

  trailer_lem :
      (w : List Written) (out : NewMediaFile) (s : S)
      → IsApart
      → (view s).written ≡ w
      → Ends (Wrote w) Stops (write_trailer F I fuel out s)
  unfolding write_trailer
  trailer_lem w out s M e =
      Ends-bind _ (checked_lem F L (F.av_write_trailer out.ctx) s (L.trailer_law out.ctx s))
        (λ _ s' q. elim (Bool-cases out.is_mp3) [
          | inl h ↦ rw h (mlltify_lem w out.path s' M (ap (λ (u : Files). u.written) q ∙ e))
          | inr h ↦ rw h (returns tt s' (ap (λ (u : Files). u.written) q ∙ e))
        ])
        (λ _ _ e. e)

  fill_lem :
      (out : NewMediaFile) (fs : List MediaFile) (v : Files) (s : S)
      → IsApart
      → Distinct fs
      → Enough F L fuel v fs
      → view s ≡ v
      → Ends
          (λ out' s'. (out' ≡ out) × Appended F L out.ctx (pos 0) v fs s')
          Stops
          (fill F I fuel out fs s)
  unfolding write_header
  fill_lem out fs v s M d h e =
      Ends-bind _ (checked_lem F L (F.avformat_write_header out.ctx) s (L.header_law out.ctx s ∙ e))
        (λ _ s₁ w₁.
          Ends-bind _
            (append_files_lem F L fuel out (pos 0) fs s₁ d
              (subst (λ (u : Files). Enough F L fuel u fs) (sym w₁) h))
            (λ _ s₂ w₂.
              Ends-bind _ (trailer_lem _ out s₂ M (rw w₁ at w₂))
                (λ _ s₃ w₃. returns out s₃ (refl, w₃)) (λ _ _ e. e))
            (λ _ _ e. e))
        (λ _ _ e. e)

  -- The new file has the path that was asked for, there were files, and what was written since is
  -- their audio tracks, one after the other.
  abbrev pub Merged : String → List MediaFile → Files → NewMediaFile → S → Type 0
  Merged path fs v out s =
      (out.path ≡ path)
      × (fs ≢ [])
      × ((view s).written ≡ v.written ++ joined out.ctx (pos 0) (tracks v fs))

  steps_lem :
      (path : String) (fs : List MediaFile) (s : S)
      → IsApart
      → Distinct fs
      → Enough F L fuel (view s) fs
      → Ends (Merged path fs (view s)) Stops (steps F I fuel path fs s)
  unfolding steps from_stream
  steps_lem path [] s M d h = fails _ s tt
  steps_lem path (f ∷ fs) s M d h =
      Ends-bind (λ out. fill F I fuel out (f ∷ fs))
        (Ends-bind (from_stream F path) (get_best_stream_lem F L audio f s)
          (λ best s₁ (_, w₁). new_lem F L path best.codec_id best.time_base (view s) s₁ w₁)
          (λ _ _ e. e))
        (λ out s₂ (named, w₂).
          Ends-mono (fill_lem out (f ∷ fs) (view s) s₂ M d h w₂)
            (λ out' s₃ (same, w₃). (
              ap (λ (o : NewMediaFile). o.path) same ∙ named,
              λ e. cc,
              subst
                  (λ (o : NewMediaFile).
                    (view s₃).written
                    ≡ (view s).written ++ joined o.ctx (pos 0) (tracks (view s) (f ∷ fs)))
                  (sym same) w₃,
            ))
            (λ _ _ e. e))
        (λ _ _ e. e)

  -- After an error the last thing done was to ask for the removal of the file, which may fail
  -- unnoticed; a panic is passed on.
  abbrev pub Removed : String → Fault → S → Type 0
  Removed path (failed e) s = (s₁ : S) × (s ≡ (F.remove_file path s₁).1)
  Removed path (panicked text) s = Unit
  Removed path out_of_fuel s = ⊥

  or_Removed :
      (path : String) (e : Fault) (s : S)
      → Stopped e
      → Ends {A = NewMediaFile} (λ _ _. ⊥) (Removed path) (or_remove F I fuel path (err e) s)
  or_Removed path (failed e) s h = fails _ _ (s, refl)
  or_Removed path (panicked text) s h = fails _ s tt
  or_Removed path out_of_fuel s h = absurd h

  -- If putting a seek table into a tag reads and writes no packet, no file is given twice, and the
  -- fuel is above the number of frames of each, then merge_files ends: either it returns the new
  -- file, and the frames written, all of them to the new file, are those of the best audio streams in
  -- the files' order, each with its time stamps moved by the playing time of the files before; or an
  -- error is returned, no file among them, and the last thing done was to ask for the removal of the
  -- file at the path; or it panics.
  pub merge_files_outcome :
      (path : String) (fs : List MediaFile) (s : S)
      → IsApart
      → Distinct fs
      → Enough F L fuel (view s) fs
      → Ends (Merged path fs (view s)) (Removed path) (merge_files F I fuel path fs s)
  unfolding merge_files
  merge_files_outcome path fs s M d h =
      Ends-handled (or_remove F I fuel path) (steps_lem path fs s M d h)
        (λ out s' merged. returns out s' merged)
        (λ e s' f. Ends-mono (or_Removed path e s' f) (λ _ _ b. absurd b) (λ _ _ r. r))
