-- ===== src/Ffmpeg/Tests.antt =====
-- The theorems on FFmpeg's callers at a concrete reel of frames.
use vorleser_server.Prelude.{
  ℕ, zero, suc, ◌≡◌, refl, true, false, none, some, List, [], ◌∷◌, ◌++◌, ok, arith,
}
use vorleser_server.Prelude.Int.{ℤ, pos}
use vorleser_server.Exec.Ends.{Ends-ok}
use vorleser_server.Worker.Host.{png}
use vorleser_server.Mllt.Tagging.Fixture.{all_tagged}
use vorleser_server.Ffmpeg.{
  Ffmpeg, AvMediaType, audio, video, AvStream, AvPacket, AvRational, codec_png, codec_of,
  averror_eof,
}
use vorleser_server.Ffmpeg.MediaFile.{MediaFile, get_coverart}
use vorleser_server.Ffmpeg.Frames.{Files, updated, Reads, next, end, wrote, IsFramed}
use vorleser_server.Ffmpeg.Covers.{get_coverart_outcome}
use vorleser_server.Ffmpeg.Muxer.{NewMediaFile, merge_files}
use vorleser_server.Ffmpeg.Muxer.Merging.{merge_files_outcome}

abbrev packet : ℤ → ℤ → ℤ → List ℕ → AvPacket
packet stream_index time duration data_bytes = record {
  stream_index = stream_index;
  pts = time;
  dts = time;
  duration = duration;
  data_bytes = data_bytes;
}

abbrev read_from : ℕ → Files → List AvPacket → (ℤ × AvPacket) × Files
read_from c v [] = ((averror_eof, packet (pos 0) (pos 0) (pos 0) []), v)
read_from c v (p ∷ ps) = ((pos 0, p), record v { frames = updated c ps v.frames })

abbrev ratio : AvRational
ratio = record { num = pos 1; den = pos 1000 }

-- The new file has the context 9, and every call succeeds.
abbrev reel : Ffmpeg Files
reel = record {
  initialized = λ v. false;
  set_initialized = λ b v. v;
  av_register_all = λ v. v;
  av_log_set_quiet = λ v. v;
  av_strerror = λ code. "End of file";
  to_str = λ text. ok "text";
  is_utf8 = λ p. true;
  has_nul = λ p. false;
  av_time_base_q = ratio;
  f64_of = λ n. 0;
  f64_mul = λ x y. 0;
  f64_div = λ x y. 0;
  avformat_alloc_context = λ v. (1, v);
  avformat_open_input = λ c p v. (pos 0, v);
  avformat_find_stream_info = λ c v. (pos 0, v);
  avformat_close_input = λ c v. v;
  avformat_free_context = λ c v. v;
  av_read_frame = λ c v. read_from c v (v.frames c);
  av_find_best_stream = λ c t v. v.best t c;
  streams = λ c v. v.streams c;
  chapters = λ c v. [];
  metadata = λ c v. none;
  duration = λ c v. pos 0;
  iformat = λ c v. record { name = none; mime_type = none; extensions = none };
  av_guess_format = λ s p. some "mp3";
  avformat_alloc_output_context2 = λ f p v. ((pos 0, 9), v);
  av_opt_set = λ c n w v. (pos 0, v);
  avio_open2 = λ p v. ((pos 0, 5), v);
  set_pb = λ c io v. v;
  avformat_new_stream = λ c v. (some 0, v);
  set_time_base = λ c n t v. v;
  avcodec_parameters_copy = λ c n codec v. v;
  avformat_write_header = λ c v. (pos 0, v);
  av_write_frame = λ c p v. (pos 0, record v { written = v.written ++ (c, p) ∷ [] });
  av_write_trailer = λ c v. (pos 0, v);
  av_free_packet = λ p v. v;
  create_and_write = λ p bytes v. (ok tt, v);
  remove_file = λ p v. (ok tt, record v { written = [] });
}

reads_from :
    (c : ℕ) (v : Files) (ps : List AvPacket)
    → v.frames c ≡ ps
    → Reads (λ w. w) c v (read_from c v ps)
reads_from c v [] e = end _ v e refl
reads_from c v (p ∷ ps) e = next 0 p ps _ e refl

abbrev reel-IsFramed : IsFramed reel
reel-IsFramed = record {
  view = λ v. v;
  best_law = λ c t v. refl;
  streams_law = λ c v. refl;
  read_law = λ c v. reads_from c v (v.frames c) refl;
  write_law = λ c p v. wrote 0 _ refl;
  free_law = λ p v. refl;
  initialized_law = λ b v. refl;
  context_law = λ f p v. refl;
  option_law = λ c n w v. refl;
  open_law = λ p v. refl;
  pb_law = λ c io v. refl;
  stream_law = λ c v. refl;
  parameters_law = λ c n t codec v. refl;
  header_law = λ c v. refl;
  trailer_law = λ c v. refl;
}

-- Two files with a cover in the stream 0 and sound in the stream 1.
abbrev frames_of : ℕ → List AvPacket
frames_of (suc zero) =
    packet (pos 0) (pos 0) (pos 0) (7 ∷ 8 ∷ [])
    ∷ packet (pos 1) (pos 0) (pos 10) (1 ∷ [])
    ∷ packet (pos 1) (pos 10) (pos 10) (2 ∷ [])
    ∷ []
frames_of (suc (suc zero)) = packet (pos 1) (pos 0) (pos 10) (3 ∷ []) ∷ []
frames_of _ = []

abbrev index_of : AvMediaType → ℤ
index_of audio = pos 1
index_of video = pos 0

abbrev two_files : Files
two_files = record {
  frames = frames_of;
  streams = λ c.
      record { index = pos 0; codec_id = codec_png; time_base = ratio }
      ∷ record { index = pos 1; codec_id = codec_of 86017; time_base = ratio }
      ∷ [];
  best = λ t c. index_of t;
  written = [];
}

abbrev file : ℕ → MediaFile
file c = record { ctx = c; path = "part.mp3"; averror = pos 0 }

abbrev whole : NewMediaFile
whole = record { ctx = 9; is_mp3 = true; path = "whole.mp3" }

-- The last frame begins where the first file ends.
merge_files_outcome_example :
    (merge_files reel all_tagged 4 "whole.mp3" (file 1 ∷ file 2 ∷ []) two_files).1.written
    ≡ (9, packet (pos 0) (pos 0) (pos 10) (1 ∷ []))
      ∷ (9, packet (pos 0) (pos 10) (pos 10) (2 ∷ []))
      ∷ (9, packet (pos 0) (pos 20) (pos 10) (3 ∷ []))
      ∷ []
unfolding merge_files vorleser_server.Prelude.Int.add_i64
merge_files_outcome_example =
    (Ends-ok {a = whole} (
      merge_files_outcome reel reel-IsFramed all_tagged 4 "whole.mp3" (file 1 ∷ file 2 ∷ [])
        two_files
        (record { read_law = λ p v. refl; frames_law = λ p v. refl; write_law = λ t p v. refl })
        ((λ e. cc, tt), (tt, tt)) (omega arith, (omega arith, tt)))).2

get_coverart_outcome_example :
    some (record { data_bytes = 7 ∷ 8 ∷ []; image_type = png })
    ≡ vorleser_server.Ffmpeg.Covers.cover two_files 1
unfolding get_coverart
get_coverart_outcome_example =
    Ends-ok {a = some (record { data_bytes = 7 ∷ 8 ∷ []; image_type = png })}
      (get_coverart_outcome reel reel-IsFramed 4 (file 1) two_files (omega arith))
