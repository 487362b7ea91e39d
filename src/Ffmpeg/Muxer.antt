-- ===== src/Ffmpeg/Muxer.antt =====
-- src/worker/muxer.rs: the files of a book written one after the other into a new file. Time
-- stamps are `i64` and wrap around, as in a release build. The copy of a file's packets runs on fuel, one unit a packet.
pub mod Copying
pub mod Appending
pub mod Opening
pub mod Merging
use vorleser_server.Prelude.{
  ℕ, zero, suc, String, Bool, false, not, Option, none, some, List, [], ◌∷◌, if◌then◌else◌, ◌==◌,
  nat_eq, string_eq, bytes_eq, bool_eq, Result, ok, err,
}
use vorleser_server.Prelude.Int.{ℤ, int_eq, pos, add_i64}
use vorleser_server.Errors.{
  worker_error, invalid_utf8, unkown_format, other, Fault, failed, panicked, out_of_fuel,
}
use vorleser_server.Exec.{Exec, pure, raise, lift, continue, attempt, ◌>>=◌, ◌>>◌}
use vorleser_server.Mllt.Tagging.{Id3, mlltify}
use vorleser_server.Path.{extension}
use vorleser_server.Ffmpeg.{Ffmpeg, AvRational, audio, AvCodecId, AvStream, AvPacket}
use vorleser_server.Ffmpeg.Util.{check_av_result, ensure_av_register_all}
use vorleser_server.Ffmpeg.MediaFile.{MediaFile, get_best_stream, read_packet, or_panic}

pub record NewMediaFile : Type 0 where
  pub ctx : ℕ
  pub is_mp3 : Bool
  pub path : String

abbrev pub short_name_of : Option String → Option String
short_name_of none = none
short_name_of (some extension) = if extension == "m4b" then some "ipod" else none

abbrev pub or_unknown : {S : Type 0} → Option String → Exec S Fault String
or_unknown none = raise (failed (worker_error unkown_format))
or_unknown (some format) = pure format

-- The packet with the time stamps that it has in the new file.
abbrev pub moved : ℤ → AvPacket → AvPacket
moved previous_files_duration pkt = record pkt {
  dts = add_i64 pkt.dts previous_files_duration;
  pts = add_i64 pkt.pts previous_files_duration;
}

module _ {S : Type 0} (F : Ffmpeg S) where
  -- `check_av_result(f(...))?`, where what `f` returns is used no further
  abbrev pub checked : (S → ℤ × S) → Exec S Fault (Unit {0})
  checked f s = let (code, s') = f s in continue (λ _. pure tt) (check_av_result F code s')

  -- The same for a function that writes through a pointer.
  abbrev pub checked_out : {A : Type 0} → (S → (ℤ × A) × S) → Exec S Fault A
  checked_out f s = let ((code, a), s') = f s in continue (λ _. pure a) (check_av_result F code s')

  -- Whether it is an MP3 file.
  unfoldable pub set_options : String → ℕ → Exec S Fault Bool
  set_options format ctx =
      if format == "ipod"
      then (do checked (F.av_opt_set ctx "movflags" "faststart"); pure false)
      else pure (format == "mp3")

  unfoldable pub add_stream : ℕ → AvCodecId → AvRational → Exec S Fault (Unit {0})
  add_stream ctx codec time_base = do
    new ← lift (F.avformat_new_stream ctx)
    stream ← or_panic "unwrap" new
    λ s.
        (ok tt, F.avcodec_parameters_copy ctx stream codec (F.set_time_base ctx stream time_base s))

  unfoldable pub open_output : String → String → AvCodecId → AvRational → Exec S Fault NewMediaFile
  unfolding set_options add_stream
  open_output file_name format codec time_base = do
    ctx ← checked_out (F.avformat_alloc_output_context2 format file_name)
    is_mp3 ← set_options format ctx
    io_ctx ← checked_out (F.avio_open2 file_name)
    λ s. (ok tt, F.set_pb ctx io_ctx s)
    add_stream ctx codec time_base
    pure (record { ctx = ctx; is_mp3 = is_mp3; path = file_name })

  unfoldable pub new : String → AvCodecId → AvRational → Exec S Fault NewMediaFile
  unfolding open_output ensure_av_register_all
  new file_name codec time_base = do
    ensure_av_register_all F
    (if F.is_utf8 file_name then pure tt else raise (failed (worker_error invalid_utf8)))
    (if F.has_nul file_name then raise (panicked "unwrap") else pure tt)
    format ← or_unknown (F.av_guess_format (short_name_of (extension file_name)) file_name)
    open_output file_name format codec time_base

  unfoldable pub from_stream : String → AvStream → Exec S Fault NewMediaFile
  unfolding new
  from_stream file_name stream = new file_name stream.codec_id stream.time_base

  unfoldable pub write_header : NewMediaFile → Exec S Fault (Unit {0})
  write_header self = checked (F.avformat_write_header self.ctx)

  unfoldable pub write_frame : NewMediaFile → AvPacket → Exec S Fault (Unit {0})
  write_frame self pkt = checked (F.av_write_frame self.ctx (record pkt { stream_index = pos 0 }))

  abbrev pub copy_packet : NewMediaFile → ℤ → AvPacket → Exec S Fault (Unit {0})
  copy_packet out previous_files_duration pkt = do
    write_frame out (moved previous_files_duration pkt)
    λ s. (ok tt, F.av_free_packet (moved previous_files_duration pkt) s)

  -- One round of the loop: the duration of the file so far, or none at its end.
  unfoldable pub copy_if :
      NewMediaFile → AvStream → ℤ → ℤ → Option AvPacket → Exec S Fault (Option ℤ)
  unfolding write_frame
  copy_if out best previous_files_duration this_file_duration none = pure none
  copy_if out best previous_files_duration this_file_duration (some pkt) =
      if not (pkt.stream_index == best.index) then pure (some this_file_duration) else (do
        copy_packet out previous_files_duration pkt
        pure (some (add_i64 this_file_duration pkt.duration)))

  unfoldable pub copy_packets : ℕ → NewMediaFile → MediaFile → AvStream → ℤ → ℤ → Exec S Fault ℤ
  unfolding copy_if read_packet
  copy_packets zero out f best previous_files_duration this_file_duration s = (err out_of_fuel, s)
  copy_packets (suc fuel) out f best previous_files_duration this_file_duration s =
      continue
        (elim [
          | none ↦ pure this_file_duration
          | some so_far ↦ copy_packets fuel out f best previous_files_duration so_far
        ])
        (continue (copy_if out best previous_files_duration this_file_duration) (read_packet F f s))

  -- `for f in in_files`
  unfoldable pub append_files : ℕ → NewMediaFile → ℤ → List MediaFile → Exec S Fault (Unit {0})
  unfolding copy_packets get_best_stream
  append_files fuel out previous_files_duration [] s = (ok tt, s)
  append_files fuel out previous_files_duration (f ∷ fs) s =
      continue
        (λ this_file_duration.
          append_files fuel out (add_i64 previous_files_duration this_file_duration) fs)
        (continue (λ best. copy_packets fuel out f best previous_files_duration (pos 0))
          (get_best_stream F f audio s))

  module _ (I : Id3 S) (fuel : ℕ) where
    unfoldable pub write_trailer : NewMediaFile → Exec S Fault (Unit {0})
    unfolding mlltify
    write_trailer self = do
      checked (F.av_write_trailer self.ctx)
      (if self.is_mp3 then mlltify I self.path else pure tt)

    abbrev pub fill : NewMediaFile → List MediaFile → Exec S Fault NewMediaFile
    fill out in_files = do
      write_header out
      append_files fuel out (pos 0) in_files
      write_trailer out
      pure out

    -- The closure `steps`.
    unfoldable pub steps : String → List MediaFile → Exec S Fault NewMediaFile
    unfolding from_stream write_header append_files write_trailer get_best_stream
    steps path [] s = (err (failed (worker_error (other "No Mediafiles"))), s)
    steps path (f ∷ fs) s =
        continue (λ out. fill out (f ∷ fs))
          (continue (from_stream path) (get_best_stream F f audio s))

    -- An unfinished file is removed; that this fails too is only logged. A panic removes nothing.
    abbrev pub or_remove : String → Result Fault NewMediaFile → Exec S Fault NewMediaFile
    or_remove path (ok out) s = (ok out, s)
    or_remove path (err (failed error)) s = (err (failed error), (F.remove_file path s).1)
    or_remove path (err (panicked text)) s = (err (panicked text), s)
    or_remove path (err out_of_fuel) s = (err out_of_fuel, s)

    unfoldable pub merge_files : String → List MediaFile → Exec S Fault NewMediaFile
    unfolding steps
    merge_files path in_files = attempt (steps path in_files) (or_remove path)
