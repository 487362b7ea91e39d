-- ===== src/Ffmpeg/MediaFile.antt =====
-- src/worker/mediafile.rs: an opened media file. That a file name holds a null byte, which panics,
-- is written out; a poisoned mutex is not.
use vorleser_server.Prelude.{
  ◌>>=◌ as ◌>>=?◌, ℕ, zero, suc, String, Bool, true, false, not, Option, none, some, List, [], ◌∷◌,
  if◌then◌else◌, ◌==◌, nat_eq, string_eq, bytes_eq, bool_eq, Result, ok, err,
}
use vorleser_server.Prelude.Int.{ℤ, pos, int_eq, pos_part}
use vorleser_server.Errors.{
  Failure, worker_error, media_error, invalid_utf8, Fault, failed, panicked, out_of_fuel,
}
use vorleser_server.Exec.{Exec, pure, raise, lift, continue, attempt, ◌>>=◌, ◌>>◌}
use vorleser_server.Db.{F64}
use vorleser_server.Path.{file_name as file_name_of}
use vorleser_server.Worker.Host.{Image, ImageType, png, jpg}
use vorleser_server.Ffmpeg.{
  Ffmpeg, AvMediaType, audio, video, AvCodecId, codec_png, codec_mjpeg, codec_of, AvStream,
  AvPacket, AvChapter, averror_eof,
}
use vorleser_server.Ffmpeg.Util.{
  StringMap, get, check_av_result, dict_to_map, string_from_ptr, apply_timebase,
  ensure_av_register_all,
}

pub record Chapter : Type 0 where
  pub title : Option String
  pub metadata : StringMap
  pub start : F64

pub record MediaInfo : Type 0 where
  pub length : F64
  pub chapters : List Chapter
  pub title : String
  pub metadata : StringMap

pub record Format : Type 0 where
  pub name : Option String
  pub mime_type : Option String
  pub extensions : Option String

-- `averror` is what FFmpeg returned when the file was opened.
pub record MediaFile : Type 0 where
  pub ctx : ℕ
  pub path : String
  pub averror : ℤ

abbrev pub nth : {A : Type 0} → List A → ℕ → Option A
nth [] n = none
nth (x ∷ xs) zero = some x
nth (x ∷ xs) (suc n) = nth xs n

abbrev pub or_panic : {S A : Type 0} → String → Option A → Exec S Fault A
or_panic text none = raise (panicked text)
or_panic text (some a) = pure a

abbrev pub or_else : Option String → String → String
or_else none d = d
or_else (some t) d = t

-- A value of the state that may be a panic.
abbrev pub asked : {S A : Type 0} → (S → Result Fault A) → Exec S Fault A
asked f s = (f s, s)

abbrev pub or_end : {S : Type 0} → AvPacket → Result Fault ℤ → Exec S Fault (Option AvPacket)
or_end pkt (ok code) = pure (some pkt)
or_end pkt (err (failed (worker_error (media_error text code)))) =
    if code == averror_eof then pure none else raise (failed (worker_error (media_error text code)))
or_end pkt (err e) = raise e

abbrev pub image_type_of : AvCodecId → Option ImageType
image_type_of codec_png = some png
image_type_of codec_mjpeg = some jpg
image_type_of (codec_of n) = none

-- What a packet ends the search for the cover with, if it ends it.
abbrev pub image_in : AvStream → Option ImageType → AvPacket → Option (Option Image)
image_in best_image none pkt = some none
image_in best_image (some image_type) pkt =
    if pkt.stream_index == best_image.index
    then some (some (record { data_bytes = pkt.data_bytes; image_type = image_type }))
    else none

abbrev pub seen : AvStream → Option AvPacket → Option (Option Image)
seen best_image none = some none
seen best_image (some pkt) = image_in best_image (image_type_of best_image.codec_id) pkt

module _ {S : Type 0} (F : Ffmpeg S) where
  -- `image.save(path)`
  unfoldable pub save : Image → String → Exec S Failure (Unit {0})
  save self path = F.create_and_write path self.data_bytes

  -- Drop for MediaFile
  unfoldable pub drop_media_file : MediaFile → S → S
  drop_media_file self s =
      if self.averror == pos 0
      then F.avformat_free_context self.ctx (F.avformat_close_input self.ctx s)
      else s

  -- A file that is dropped when the call fails.
  abbrev pub dropping_on_fault : {A : Type 0} → MediaFile → Exec S Fault A → Exec S Fault A
  dropping_on_fault file m =
      attempt m (elim [ ok a ↦ pure a | err e ↦ λ s. (err e, drop_media_file file s) ])

  -- A file that is dropped when the call returns.
  abbrev pub dropping : {A : Type 0} → MediaFile → Exec S Fault A → Exec S Fault A
  dropping file m s = let (r, s') = m s in (r, drop_media_file file s')

  unfoldable pub find_stream_info : MediaFile → Exec S Fault MediaFile
  unfolding drop_media_file
  find_stream_info new =
      dropping_on_fault new
        (do code ← lift (F.avformat_find_stream_info new.ctx); check_av_result F code; pure new)

  unfoldable pub open_input : MediaFile → Exec S Fault MediaFile
  unfolding find_stream_info
  open_input new = do
    averror ←
        dropping_on_fault new (lift (F.avformat_open_input new.ctx new.path) >>= check_av_result F)
    find_stream_info (record new { averror = averror })

  unfoldable pub read_file : String → Exec S Fault MediaFile
  unfolding open_input ensure_av_register_all
  read_file file_name =
      if not (F.is_utf8 file_name) then raise (failed (worker_error invalid_utf8)) else (do
        ensure_av_register_all F
        (if F.has_nul file_name then raise (panicked "Null byte in filename.") else pure tt)
        ctx ← lift F.avformat_alloc_context
        open_input (record { ctx = ctx; path = file_name; averror = pos 0 }))

  -- The argument of `unwrap_or` is computed first, and it returns from the function.
  unfoldable pub probe_format : MediaFile → Result Failure (Unit {0})
  probe_format self = err (worker_error invalid_utf8)

  unfoldable pub guess_format : MediaFile → S → Result Failure Format
  unfolding string_from_ptr
  guess_format self s =
      let iformat = F.iformat self.ctx s in
      string_from_ptr F iformat.name >>=? λ name.
      string_from_ptr F iformat.extensions >>=? λ extensions.
      string_from_ptr F iformat.mime_type >>=? λ mime_type.
      ok (record { name = name; mime_type = mime_type; extensions = extensions })

  unfoldable pub read_packet : MediaFile → Exec S Fault (Option AvPacket)
  read_packet self s =
      let ((code, pkt), s') = F.av_read_frame self.ctx s in
      attempt (check_av_result F code) (or_end pkt) s'

  unfoldable pub get_best_stream : MediaFile → AvMediaType → Exec S Fault AvStream
  get_best_stream self media_type = do
    stream_index ← λ s. check_av_result F (F.av_find_best_stream self.ctx media_type s) s
    λ s. or_panic "index out of bounds" (nth (F.streams self.ctx s) (pos_part stream_index)) s

  abbrev to_bool : Result Fault AvStream → Exec S Fault Bool
  to_bool (ok stream) = pure true
  to_bool (err (failed e)) = pure false
  to_bool (err (panicked text)) = raise (panicked text)
  to_bool (err out_of_fuel) = raise out_of_fuel

  unfoldable pub has_audio_track : MediaFile → Exec S Fault Bool
  unfolding get_best_stream
  has_audio_track self = attempt (get_best_stream self audio) to_bool

  -- `while let Some(ref pkt) = self.read_packet()?`
  unfoldable pub find_image : ℕ → MediaFile → AvStream → Exec S Fault (Option Image)
  unfolding read_packet
  find_image zero self best_image s = (err out_of_fuel, s)
  find_image (suc fuel) self best_image s =
      continue
        (λ packet. elim (seen best_image packet) [
          | some image ↦ pure image
          | none ↦ find_image fuel self best_image
        ])
        (read_packet self s)

  abbrev pub or_no_image : ℕ → MediaFile → Result Fault AvStream → Exec S Fault (Option Image)
  or_no_image fuel self (ok stream) = find_image fuel self stream
  or_no_image fuel self (err (failed e)) = pure none
  or_no_image fuel self (err (panicked text)) = raise (panicked text)
  or_no_image fuel self (err out_of_fuel) = raise out_of_fuel

  unfoldable pub get_coverart : ℕ → MediaFile → Exec S Fault (Option Image)
  unfolding find_image get_best_stream drop_media_file
  get_coverart fuel self =
      dropping self (attempt (get_best_stream self video) (or_no_image fuel self))

  unfoldable pub from_av_chapter : AvChapter → Result Fault Chapter
  unfolding dict_to_map apply_timebase
  from_av_chapter av = dict_to_map F av.metadata >>=? λ d. ok (record {
    title = get "title" d;
    metadata = d;
    start = apply_timebase F av.start av.time_base;
  })

  unfoldable pub from_av_chapters : List AvChapter → Result Fault (List Chapter)
  unfolding from_av_chapter
  from_av_chapters [] = ok []
  from_av_chapters (av ∷ avs) =
      from_av_chapter av >>=? λ c. from_av_chapters avs >>=? λ cs. ok (c ∷ cs)

  unfoldable pub get_chapters : MediaFile → S → Result Fault (List Chapter)
  unfolding from_av_chapters
  get_chapters self s = from_av_chapters (F.chapters self.ctx s)

  abbrev pub named : Option String → Result Fault String
  named none = err (panicked "unwrap")
  named (some name) = ok name

  -- The file's name is the title of a file without one; it is looked up in either case.
  unfoldable pub get_mediainfo : MediaFile → S → Result Fault MediaInfo
  unfolding get_chapters
  get_mediainfo self s = dict_to_map F (F.metadata self.ctx s) >>=? λ md.
      named (file_name_of self.path) >>=? λ name. get_chapters self s >>=? λ chapters. ok (record {
        title = or_else (get "title" md) name;
        chapters = chapters;
        length = apply_timebase F (F.duration self.ctx s) F.av_time_base_q;
        metadata = md;
      })
