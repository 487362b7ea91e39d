-- ===== src/Mllt.antt =====
-- src/helpers/mllt.rs: the seek table of an MP3 file with a variable bit rate. Numbers keep the
-- wrap-around of their width; a `Duration` is its number of nanoseconds. The sums of
-- sizes and durations over a file are taken to fit in 64 bits.
mod Tests
pub mod Packing
pub mod Need
pub mod Tagging
use vorleser_server.Prelude.{
  ◌>>=◌, ℕ, zero, suc, ◌+◌, ◌-◌, ◌*◌, ◌/◌, ◌%◌, min, Bool, true, false, not, Option, none, some,
  List, [], ◌∷◌, ◌++◌, length, take, drop, if◌then◌else◌, ◌==◌, nat_eq, ltb, Result, ok, err,
}

-- `mp3_metadata::Frame`, as far as it is used.
pub record Mp3Frame : Type 0 where
  pub size : ℕ
  pub bitrate : ℕ
  pub duration : Option ℕ

-- `MlltError`, and a panic (a division by zero, or the assertion of push_u24).
pub data MlltError : Type 0 where
  incalculable_duration : MlltError
  unexpected_underflow : MlltError
  panicked : MlltError

abbrev pub as_u16 : ℕ → ℕ
as_u16 n = n % 65536

abbrev pub as_u32 : ℕ → ℕ
as_u32 n = n % 4294967296

abbrev pub sub_u64 : ℕ → ℕ → ℕ
sub_u64 a b = (a + 18446744073709551616 - b) % 18446744073709551616

abbrev pub millis : ℕ
millis = 1000000

abbrev pub div_or_panic : ℕ → ℕ → Result MlltError ℕ
div_or_panic a zero = err panicked
div_or_panic a (suc b) = ok (a / suc b)

unfoldable pub push_u16 : List ℕ → ℕ → List ℕ
push_u16 self int = self ++ int / 256 ∷ int % 256 ∷ []

unfoldable pub push_u24 : List ℕ → ℕ → Result MlltError (List ℕ)
push_u24 self int =
    if ltb int 16777216
    then ok (self ++ int / 65536 ∷ int / 256 % 256 ∷ int % 256 ∷ [])
    else err panicked

-- What the first loop gathers.
pub record Totals : Type 0 where
  pub num_frames : ℕ
  pub duration : ℕ
  pub size : ℕ
  pub smallest_frame : ℕ
  pub first_frame_bitrate : Option ℕ
  pub is_vbr : Bool

abbrev pub no_frames : Totals
no_frames = record {
  num_frames = 0;
  duration = 0;
  size = 0;
  smallest_frame = 4294967295;
  first_frame_bitrate = none;
  is_vbr = false;
}

abbrev pub check_bitrate : Mp3Frame → Option ℕ → Totals → Totals
check_bitrate frame none t = record t { first_frame_bitrate = some frame.bitrate }
check_bitrate frame (some r) t = if r == frame.bitrate then t else record t { is_vbr = true }

abbrev pub check_vbr : Mp3Frame → Totals → Totals
check_vbr frame t = if t.is_vbr then t else check_bitrate frame t.first_frame_bitrate t

abbrev pub add_duration : Mp3Frame → Totals → Option ℕ → Result MlltError Totals
add_duration frame t none = err incalculable_duration
add_duration frame t (some d) = ok (record t {
  num_frames = t.num_frames + 1;
  duration = t.duration + d;
  size = t.size + frame.size;
  smallest_frame = min t.smallest_frame frame.size;
})

unfoldable pub gather : List Mp3Frame → Totals → Result MlltError Totals
gather [] t = ok t
gather (frame ∷ frames) t = add_duration frame (check_vbr frame t) frame.duration >>= gather frames

abbrev pub or_zero : Option ℕ → ℕ
or_zero none = 0
or_zero (some d) = d

abbrev pub bytes_of : List Mp3Frame → ℕ
bytes_of [] = 0
bytes_of (f ∷ fs) = f.size + bytes_of fs

abbrev pub duration_of : List Mp3Frame → ℕ
duration_of [] = 0
duration_of (f ∷ fs) = or_zero f.duration + duration_of fs

-- The two running durations.
pub record Running : Type 0 where
  pub duration : ℕ
  pub estimated : ℕ

abbrev pub millis_offset_of : Running → ℕ
millis_offset_of r = (r.duration - r.estimated) / millis

abbrev pub corrected : Running → Running
corrected r = record r { estimated = r.estimated + millis_offset_of r * millis }

-- `bytes_offset << 1 | (millis_offset & 1) as u16`
unfoldable pub pack : ℕ → ℕ → ℕ
pack bytes_offset millis_offset = as_u16 (bytes_offset * 2) + millis_offset % 2

module _ (frames_per_ref min_bytes_per_ref millis_per_ref : ℕ) where
  abbrev pub advanced : List Mp3Frame → Running → Running
  advanced chunk r = record {
    duration = r.duration + duration_of chunk;
    estimated = r.estimated + millis_per_ref * millis;
  }

  abbrev pub bytes_offset_of : List Mp3Frame → ℕ
  bytes_offset_of chunk = as_u16 (sub_u64 (bytes_of chunk) min_bytes_per_ref)

  -- One reference, or the underflow that `checked_sub` reports.
  unfoldable pub reference : List Mp3Frame → Running → Result MlltError (ℕ × Running)
  unfolding pack
  reference chunk r =
      let r' = advanced chunk r in
      if ltb r'.duration r'.estimated
      then err unexpected_underflow
      else ok (pack (bytes_offset_of chunk) (millis_offset_of r'), corrected r')

  -- `meta.frames.chunks(frames_per_ref)`, up to the first chunk that is too short. The fuel is the
  -- number of frames; every chunk takes one at least.
  unfoldable pub add_refs : ℕ → List Mp3Frame → Running → List ℕ → Result MlltError (List ℕ)
  unfolding reference push_u16
  add_refs zero frames r res = ok res
  add_refs (suc fuel) frames r res =
      elim (ltb (length (take frames_per_ref frames)) frames_per_ref) [
        | true ↦ ok res
        | false ↦ reference (take frames_per_ref frames) r >>= λ (packed, r').
            add_refs fuel (drop frames_per_ref frames) r' (push_u16 res packed)
      ]

  unfoldable pub header : Result MlltError (List ℕ)
  unfolding push_u16 push_u24
  header = push_u24 (push_u16 [] frames_per_ref) min_bytes_per_ref >>= λ res.
      push_u24 res millis_per_ref >>= λ res. ok (res ++ 15 ∷ 1 ∷ [])

unfoldable pub build_table : List Mp3Frame → Totals → Result MlltError (List ℕ)
unfolding header add_refs
build_table frames t = div_or_panic t.duration (as_u32 t.num_frames) >>= λ frame_duration.
    div_or_panic 1000 (frame_duration / millis) >>= λ frames_per_ref.
    div_or_panic t.num_frames frames_per_ref >>= λ _.
    (let min_bytes_per_ref = as_u32 (t.smallest_frame * frames_per_ref) in
      let millis_per_ref = as_u32 (frame_duration * frames_per_ref / millis) in
      header frames_per_ref min_bytes_per_ref millis_per_ref >>= λ res.
      add_refs frames_per_ref min_bytes_per_ref millis_per_ref (length frames) frames
        (record { duration = 0; estimated = 0 }) res)

-- No table for a constant bit rate.
unfoldable pub build_mllt : List Mp3Frame → Result MlltError (Option (List ℕ))
unfolding gather build_table
build_mllt frames = gather frames no_frames >>= λ t.
    if not t.is_vbr then ok none else (build_table frames t >>= λ res. ok (some res))
