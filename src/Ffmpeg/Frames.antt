-- ===== src/Ffmpeg/Frames.antt =====
-- What FFmpeg documents of reading and writing frames, as laws on what can be seen of a state: the
-- frames that the opened files have still to give and the frames that were written. Beside it the
-- frames of the new file that merge_files of src/worker/muxer.rs is to make.
use vorleser_server.Prelude.{
  ℕ, String, ◌≡◌, ◌≢◌, Bool, Option, none, some, List, [], ◌∷◌, ◌++◌, map, filter, All,
  if◌then◌else◌, ◌==◌, nat_eq,
}
use vorleser_server.Prelude.Int.{ℤ, pos, negsuc, int_eq, pos_part, add_i64}
use vorleser_server.Ffmpeg.{
  AvMediaType, Ffmpeg, audio, AvStream, AvPacket, AvCodecId, AvRational, averror_eof,
}
use vorleser_server.Ffmpeg.MediaFile.{MediaFile, nth}

-- A frame with the context of the file that it was written to.
abbrev pub Written : Type 0
Written = ℕ × AvPacket

pub record Files : Type 0 where
  pub frames : ℕ → List AvPacket
  pub streams : ℕ → List AvStream
  pub best : AvMediaType → ℕ → ℤ
  pub written : List Written

abbrev pub updated : ℕ → List AvPacket → (ℕ → List AvPacket) → ℕ → List AvPacket
updated ctx ps frames c = if c == ctx then ps else frames c

-- A call that reads a frame of `ctx`: the next frame, the end, or another error.
pub data Reads {S : Type 0} (view : S → Files) (ctx : ℕ) (v : Files)
    : (ℤ × AvPacket) × S → Type 0 where
  next :
      (code : ℕ) (p : AvPacket) (ps : List AvPacket) (s : S)
      → v.frames ctx ≡ p ∷ ps
      → view s ≡ record v { frames = updated ctx ps v.frames }
      → Reads view ctx v ((pos code, p), s)
  end :
      (p : AvPacket) (s : S)
      → v.frames ctx ≡ []
      → view s ≡ v
      → Reads view ctx v ((averror_eof, p), s)
  broken :
      (n : ℕ) (p : AvPacket) (s : S) → negsuc n ≢ averror_eof → Reads view ctx v ((negsuc n, p), s)

-- A call that writes a frame adds it, or returns an error.
pub data Writes {S : Type 0} (view : S → Files) (ctx : ℕ) (p : AvPacket) (v : Files)
    : ℤ × S → Type 0 where
  wrote :
      (code : ℕ) (s : S)
      → view s ≡ record v { written = v.written ++ (ctx, p) ∷ [] }
      → Writes view ctx p v (pos code, s)
  unwritten : (n : ℕ) (s : S) → Writes view ctx p v (negsuc n, s)

module _ {S : Type 0} (F : Ffmpeg S) where
  -- The other calls of merge_files neither read nor write a frame.
  pub record IsFramed : Type 0 where
    pub view : S → Files
    pub best_law :
        (c : ℕ) (t : AvMediaType) (s : S) → F.av_find_best_stream c t s ≡ (view s).best t c
    pub streams_law : (c : ℕ) (s : S) → F.streams c s ≡ (view s).streams c
    pub read_law : (c : ℕ) (s : S) → Reads view c (view s) (F.av_read_frame c s)
    pub write_law :
        (c : ℕ) (p : AvPacket) (s : S) → Writes view c p (view s) (F.av_write_frame c p s)
    pub free_law : (p : AvPacket) (s : S) → view (F.av_free_packet p s) ≡ view s
    pub initialized_law :
        (b : Bool) (s : S) → view (F.set_initialized b (F.av_register_all s)) ≡ view s
    pub context_law :
        (f p : String) (s : S) → view (F.avformat_alloc_output_context2 f p s).1 ≡ view s
    pub option_law : (c : ℕ) (n v : String) (s : S) → view (F.av_opt_set c n v s).1 ≡ view s
    pub open_law : (p : String) (s : S) → view (F.avio_open2 p s).1 ≡ view s
    pub pb_law : (c io : ℕ) (s : S) → view (F.set_pb c io s) ≡ view s
    pub stream_law : (c : ℕ) (s : S) → view (F.avformat_new_stream c s).1 ≡ view s
    pub parameters_law :
        (c n : ℕ) (t : AvRational) (codec : AvCodecId) (s : S)
        → view (F.avcodec_parameters_copy c n codec (F.set_time_base c n t s)) ≡ view s
    pub header_law : (c : ℕ) (s : S) → view (F.avformat_write_header c s).1 ≡ view s
    pub trailer_law : (c : ℕ) (s : S) → view (F.av_write_trailer c s).1 ≡ view s

-- The frames of one stream, and how long they play.
abbrev pub on_stream : ℤ → List AvPacket → List AvPacket
on_stream index = filter (λ p. p.stream_index == index)

abbrev pub playing_time_from : ℤ → List AvPacket → ℤ
playing_time_from t [] = t
playing_time_from t (p ∷ ps) = playing_time_from (add_i64 t p.duration) ps

-- The audio frames of a file that is open.
abbrev pub track_on : Option AvStream → List AvPacket → List AvPacket
track_on none ps = []
track_on (some best) ps = on_stream best.index ps

abbrev pub track : Files → ℕ → List AvPacket
track v c = track_on (nth (v.streams c) (pos_part (v.best audio c))) (v.frames c)

-- A frame as it is in the new file, which has one stream.
abbrev pub retimed : ℤ → AvPacket → AvPacket
retimed offset p = record p {
  stream_index = pos 0;
  pts = add_i64 p.pts offset;
  dts = add_i64 p.dts offset;
}

abbrev pub shifted : ℕ → ℤ → AvPacket → Written
shifted ctx offset p = (ctx, retimed offset p)

-- The tracks one after the other, each moved by the playing time of those before it.
abbrev pub joined : ℕ → ℤ → List (List AvPacket) → List Written
joined ctx offset [] = []
joined ctx offset (ps ∷ tracks) =
    map (shifted ctx offset) ps ++ joined ctx (add_i64 offset (playing_time_from (pos 0) ps)) tracks

abbrev pub tracks : Files → List MediaFile → List (List AvPacket)
tracks v fs = map (λ f. track v f.ctx) fs

-- No file is given twice.
abbrev pub Distinct : List MediaFile → Type 0
Distinct [] = Unit
Distinct (f ∷ fs) = All (λ g. g.ctx ≢ f.ctx) fs × Distinct fs
