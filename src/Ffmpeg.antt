-- ===== src/Ffmpeg.antt =====
-- The functions of FFmpeg that src/worker calls, as an interface over a state that holds
-- FFmpeg's contexts, the files and the program's flag FFMPEG_INITIALIZED. A context is a number, a
-- null pointer is `none`, a C function gives its `int` beside what it writes through its pointers.
pub mod Util
pub mod MediaFile
pub mod Frames
pub mod Reading
pub mod Covers
pub mod Muxer
mod Tests
use vorleser_server.Prelude.{ℕ, String, Bool, Option, List, Result}
use vorleser_server.Prelude.Int.{ℤ, negsuc}
use vorleser_server.Errors.{Failure}
use vorleser_server.Exec.{Exec}
use vorleser_server.Db.{F64}

pub record AvRational : Type 0 where
  pub num : ℤ
  pub den : ℤ

pub data AvMediaType : Type 0 where
  audio : AvMediaType
  video : AvMediaType

-- `AVCodecID`, as far as the program tells its cases apart.
pub data AvCodecId : Type 0 where
  codec_png : AvCodecId
  codec_mjpeg : AvCodecId
  codec_of : ℕ → AvCodecId

pub record AvStream : Type 0 where
  pub index : ℤ
  pub codec_id : AvCodecId
  pub time_base : AvRational

pub record AvPacket : Type 0 where
  pub stream_index : ℤ
  pub pts : ℤ
  pub dts : ℤ
  pub duration : ℤ
  pub data_bytes : List ℕ

-- A text of C is its bytes; a dictionary is its entries.
abbrev pub CText : Type 0
CText = List ℕ

abbrev pub AvDictionary : Type 0
AvDictionary = Option (List (CText × CText))

pub record AvChapter : Type 0 where
  pub start : ℤ
  pub time_base : AvRational
  pub metadata : AvDictionary

pub record InputFormat : Type 0 where
  pub name : Option CText
  pub mime_type : Option CText
  pub extensions : Option CText

-- AVERROR_EOF, and AV_TIME_BASE_Q
abbrev pub averror_eof : ℤ
averror_eof = negsuc 541478724

pub record Ffmpeg (S : Type 0) : Type 0 where
  -- FFMPEG_INITIALIZED
  pub initialized : S → Bool
  pub set_initialized : Bool → S → S
  pub av_register_all : S → S
  pub av_log_set_quiet : S → S
  pub av_strerror : ℤ → String
  -- CStr::to_str, and what CString::new refuses
  pub to_str : CText → Result Failure String
  pub is_utf8 : String → Bool
  pub has_nul : String → Bool
  pub av_time_base_q : AvRational
  pub f64_of : ℤ → F64
  pub f64_mul : F64 → F64 → F64
  pub f64_div : F64 → F64 → F64
  -- reading
  pub avformat_alloc_context : S → ℕ × S
  pub avformat_open_input : ℕ → String → S → ℤ × S
  pub avformat_find_stream_info : ℕ → S → ℤ × S
  pub avformat_close_input : ℕ → S → S
  pub avformat_free_context : ℕ → S → S
  pub av_read_frame : ℕ → S → (ℤ × AvPacket) × S
  pub av_find_best_stream : ℕ → AvMediaType → S → ℤ
  pub streams : ℕ → S → List AvStream
  pub chapters : ℕ → S → List AvChapter
  pub metadata : ℕ → S → AvDictionary
  pub duration : ℕ → S → ℤ
  pub iformat : ℕ → S → InputFormat
  -- writing
  pub av_guess_format : (short_name : Option String) → (file_name : String) → Option String
  pub avformat_alloc_output_context2 : (format : String) → (file_name : String) → S → (ℤ × ℕ) × S
  pub av_opt_set : ℕ → (name : String) → (value : String) → S → ℤ × S
  pub avio_open2 : String → S → (ℤ × ℕ) × S
  pub set_pb : (ctx : ℕ) → (io_ctx : ℕ) → S → S
  pub avformat_new_stream : ℕ → S → Option ℕ × S
  pub set_time_base : (ctx : ℕ) → (stream : ℕ) → AvRational → S → S
  pub avcodec_parameters_copy : (ctx : ℕ) → (stream : ℕ) → (from : AvCodecId) → S → S
  pub avformat_write_header : ℕ → S → ℤ × S
  pub av_write_frame : ℕ → AvPacket → S → ℤ × S
  pub av_write_trailer : ℕ → S → ℤ × S
  pub av_free_packet : AvPacket → S → S
  -- the file system
  pub create_and_write : String → List ℕ → Exec S Failure (Unit {0})
  pub remove_file : String → Exec S Failure (Unit {0})
